-- ===== src/Controller/Quiet.antt =====
-- The polls of `Reconcile` that change nothing.
use k8s_werf_operator_go.Base.{none, some, [], ◌≢◌, ◌≡◌, get_last?, true, false, GoString}
use k8s_werf_operator_go.Base.Int.{ℤ, pos}
use k8s_werf_operator_go.Base.Result.{ok, err, GoError, is_not_modified}
use k8s_werf_operator_go.Api.{WerfBundle, Phase}
use k8s_werf_operator_go.Registry.Backoff.{add_jitter}
use k8s_werf_operator_go.Controller.Cluster.{Cluster, Library, Env, Outcome, no_requeue, list_tags}
use k8s_werf_operator_go.Controller.Polling.{requeue_jittered, is_unset_or_failed}

module _ {S : Type 0} (c : Cluster S) (l : Library) where
  -- A poll that has nothing to do: the tags are unchanged; or the last one is the one that the status
  -- says is applied, and the bundle is `Synced`; or there is none, and the phase is neither unset nor
  -- `Failed`.
  pub data IsQuiet (b : WerfBundle) (e : Env S) : Type 0 where
    unchanged :
        {x : GoError}
        → (list_tags c b.spec.registry.url b.status.last_etag e).0.error ≡ some x
        → is_not_modified x ≡ true
        → IsQuiet b e
    idle :
        {tag : GoString}
        → (list_tags c b.spec.registry.url b.status.last_etag e).0.error ≡ none
        → get_last? (list_tags c b.spec.registry.url b.status.last_etag e).0.tags ≡ some tag
        → b.status.last_applied_tag ≡ tag
        → b.status.phase ≡ Phase.synced
        → IsQuiet b e
    waiting :
        (list_tags c b.spec.registry.url b.status.last_etag e).0.error ≡ none
        → get_last? (list_tags c b.spec.registry.url b.status.last_etag e).0.tags ≡ none
        → is_unset_or_failed b.status.phase ≡ false
        → IsQuiet b e

  -- The interval that a bundle is polled in, in nanoseconds: that of its spec, and 15 minutes where
  -- the spec gives none or one that is not a duration.
  pub data IsInterval (text : GoString) : ℤ → Type 0 where
    given : {d : ℤ} → text ≢ [] → l.parse_duration text ≡ ok d → IsInterval text d
    not_given : text ≡ [] → IsInterval text (pos 900000000000)
    unreadable :
        {x : GoError}
        → text ≢ []
        → l.parse_duration text ≡ err x
        → IsInterval text (pos 900000000000)

  -- The next poll after the interval with jitter.
  abbrev pub next_poll : ℤ → WerfBundle → Env S → Outcome
  next_poll interval b e =
      let listed = (list_tags c b.spec.registry.url b.status.last_etag e).1 in
      requeue_jittered (add_jitter (c.rand_intn listed.state).0 interval)

  -- An idle bundle is not polled again on its own.
  abbrev pub quiet_outcome : ℤ → (b : WerfBundle) (e : Env S) → IsQuiet b e → Outcome
  quiet_outcome interval b e (unchanged p h) = next_poll interval b e
  quiet_outcome interval b e (idle p q h k) = no_requeue
  quiet_outcome interval b e (waiting p q h) = next_poll interval b e
