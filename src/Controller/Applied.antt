-- ===== src/Controller/Applied.antt =====
-- The tag that the status says is applied, between `ensureJobExists`, which writes it when the Job
-- is to be created, and the next run of `Reconcile`, which takes it for done.
use k8s_werf_operator_go.Base.{
  Option, none, some, [], ◌∷◌, ◌≡◌, ◌≢◌, refl, arith, GoString, get_last?, str_eq, str_eq_refl,
  true, false, inl, inr, ap, ◌∙◌, sym,
}
use k8s_werf_operator_go.Base.Int.{ℤ}
use k8s_werf_operator_go.Base.Result.{Result, ok, err, GoError, Result-cases}
use k8s_werf_operator_go.Api.{WerfBundle, WerfBundleStatus, Phase, JobStatus}
use k8s_werf_operator_go.Converge.Builder.{Job}
use k8s_werf_operator_go.Controller.Cluster.{
  Cluster, Library, status_updated, Env, done, failed, update_status, create_job, list_tags,
}
use k8s_werf_operator_go.Controller.Status.{
  syncing_status, synced_status, update_status_syncing, update_status_synced, with_status,
}
use k8s_werf_operator_go.Controller.Monitor.{recheck, finish}
use k8s_werf_operator_go.Controller.Ensure.{launch, start_job, track_job, build_job}
use k8s_werf_operator_go.Controller.Polling.{apply_tag, poll, polled_status, is_synced}
use k8s_werf_operator_go.Controller.Statuses.{KeepsStatus}
use k8s_werf_operator_go.Controller.Endings.{last_written}

-- The status is that of a Job under way for the tag.
pub record IsUnderWay (tag : GoString) (st : WerfBundleStatus) : Type 0 where
  pub syncing : st.phase ≡ Phase.syncing
  pub applied : st.last_applied_tag ≡ tag
  pub watched : st.last_job_status ≡ JobStatus.running

pub syncing_status-tag :
    (st : WerfBundleStatus) (tag : GoString)
    → tag ≢ []
    → (syncing_status st tag).last_applied_tag ≡ tag
unfolding syncing_status
syncing_status-tag st [] h = absurd (h refl)
syncing_status-tag st (x ∷ tag) h = refl

is_synced-false : (phase : Phase) → phase ≢ Phase.synced → is_synced phase ≡ false
is_synced-false phase h = ground arith

syncing-ne-synced : Phase.syncing ≢ Phase.synced
syncing-ne-synced h = ground arith

failed-ne-done : (x : GoError) {interval : ℤ} → failed x ≢ done interval
failed-ne-done x h = ground arith

-- A status update that ends a reconciliation asks for no second look at a Job.
finish-ne-recheck : (r : Result WerfBundle) → finish r ≢ done recheck
finish-ne-recheck (ok b) = ground arith
finish-ne-recheck (err x) = ground arith

module _ {S : Type 0} (c : Cluster S) (l : Library) where
  launch-tracks :
      (b : WerfBundle) (built : Option (Result Job)) (e : Env S) {written : WerfBundle}
      → (launch c l b built e).0 ≡ done recheck
      → last_written (launch c l b built e).1.calls ≡ some written
      → (written.status.phase ≡ b.status.phase)
        × (written.status.last_applied_tag ≡ b.status.last_applied_tag)
        × (written.status.last_job_status ≡ JobStatus.running)
  unfolding launch create_job update_status track_job
  launch-tracks b none e p q = ground arith
  launch-tracks b (some (err x)) e p q = absurd (finish-ne-recheck _ p)
  launch-tracks b (some (ok job)) e p q = grind (arith, finish-ne-recheck)

module _ {S : Type 0} (c : Cluster S) (l : Library) where
  apply_tag-same :
      (b : WerfBundle) (tag : GoString) (e : Env S)
      → b.status.last_applied_tag ≡ tag
      → b.status.phase ≢ Phase.synced
      → (apply_tag c l b tag e).1.calls
        ≡ status_updated (with_status b (synced_status b.status tag (c.now e.state).0)) ∷ e.calls
  unfolding apply_tag update_status_synced update_status
  apply_tag-same b tag e h k =
      let t : str_eq b.status.last_applied_tag tag ≡ true =
        ap (λ x. str_eq x tag) h ∙ str_eq_refl tag in
      let u : is_synced b.status.phase ≡ false = is_synced-false b.status.phase k in
      rw (t, u, apply_tag) refl

module _ {S : Type 0} (c : Cluster S) (l : Library) where
  -- The bundle once the registry has listed its tags.
  abbrev pub polled : WerfBundle → Env S → WerfBundle
  polled b e =
      let listed = list_tags c b.spec.registry.url b.status.last_etag e in
      with_status b (polled_status b.status listed.0.new_etag)

  poll-same :
      (b : WerfBundle) (tag : GoString) (e : Env S)
      → (list_tags c b.spec.registry.url b.status.last_etag e).0.error ≡ none
      → get_last? (list_tags c b.spec.registry.url b.status.last_etag e).0.tags ≡ some tag
      → b.status.last_applied_tag ≡ tag
      → b.status.phase ≢ Phase.synced
      → let listed = list_tags c b.spec.registry.url b.status.last_etag e in
        (poll c l b e).1.calls
        ≡ status_updated
            (with_status b (synced_status (polled b e).status tag (c.now listed.1.state).0))
          ∷ listed.1.calls
  unfolding poll polled_status
  poll-same b tag e p q h k =
      rw (p, q, poll)
        (apply_tag-same c l (polled b e) tag
          (list_tags c b.spec.registry.url b.status.last_etag e).1 h k)

module _ {S : Type 0} (c : Cluster S) (l : Library) (server : KeepsStatus c) where
  update_status_syncing-returns_status :
      (b : WerfBundle) (tag : GoString) (e : Env S) {b' : WerfBundle}
      → (update_status_syncing c b tag e).0 ≡ ok b'
      → b'.status ≡ syncing_status b.status tag
  unfolding update_status_syncing update_status
  update_status_syncing-returns_status b tag e {b'} q = server.update_status_keeps _ b' e.state q

  start_job-tracks :
      (b : WerfBundle) (tag : GoString) (e : Env S) {written : WerfBundle}
      → tag ≢ []
      → (start_job c l b tag e).0 ≡ done recheck
      → last_written (start_job c l b tag e).1.calls ≡ some written
      → IsUnderWay tag written.status
  unfolding start_job build_job syncing_status
  start_job-tracks b tag e {written} named p q =
      elim (Result-cases (update_status_syncing c b tag e).0) [
        | inl (b', r) ↦
            let (phase, applied, watched) =
              launch-tracks c l b' _ _ (rw (r, start_job) at p) (rw (r, start_job) at q) in
            let kept : b'.status ≡ syncing_status b.status tag =
              update_status_syncing-returns_status b tag e r in
            record {
              syncing = phase ∙ ap (λ st. st.phase) kept;
              applied =
                  applied
                  ∙ ap (λ st. st.last_applied_tag) kept
                  ∙ syncing_status-tag b.status tag named;
              watched = watched;
            }
        | inr (x, r) ↦ absurd (failed-ne-done x (rw (r, start_job) at p))
      ]

  -- A tag that is not empty is taken for applied as soon as the Job is created: the bundle that
  -- `ensureJobExists` writes last has the tag and a running Job, and the next poll in which the
  -- registry still lists that tag as the last one writes it `Synced`: the listing and that status
  -- update are its only calls, so that it does not look at the Job.
  pub start_job-unwatched :
      (b : WerfBundle) (tag : GoString) (e later : Env S) {written : WerfBundle}
      → tag ≢ []
      → (start_job c l b tag e).0 ≡ done recheck
      → last_written (start_job c l b tag e).1.calls ≡ some written
      → (list_tags c written.spec.registry.url written.status.last_etag later).0.error ≡ none
      → get_last? (list_tags c written.spec.registry.url written.status.last_etag later).0.tags
        ≡ some tag
      → let (listing, listed) =
          list_tags c written.spec.registry.url written.status.last_etag later in
        IsUnderWay tag written.status
        × ((poll c l written later).1.calls
            ≡ status_updated (
                with_status written
                  (synced_status (polled c l written later).status tag (c.now listed.state).0))
              ∷ listed.calls)
  start_job-unwatched b tag e later {written} named p q lists last =
      let way : IsUnderWay tag written.status = start_job-tracks b tag e named p q in
      (
        way,
        poll-same c l written tag later lists last way.applied
            (λ s. absurd (syncing-ne-synced (sym way.syncing ∙ s))),
      )
