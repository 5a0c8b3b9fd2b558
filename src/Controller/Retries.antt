-- ===== src/Controller/Retries.antt =====
-- controllers/werfbundle_controller.go: polls of a registry that keeps failing, one after the other.
use k8s_werf_operator_go.Base.{
  ℕ, suc, some, ◌∷◌, ◌≡◌, ◌<◌, refl, arith, if◌then◌else◌, true, false, Bool-cases, inl, inr, ap,
  ltb, ◌^◌, ◌∙◌, sym,
}
use k8s_werf_operator_go.Base.Int.{pos}
use k8s_werf_operator_go.Base.Result.{Result, GoError, is_not_modified}
use k8s_werf_operator_go.Api.{WerfBundle, Phase}
use k8s_werf_operator_go.Registry.Backoff.Bounds.{doubled}
use k8s_werf_operator_go.Controller.Cluster.{
  Cluster, Library, status_updated, Env, Outcome, list_tags,
}
use k8s_werf_operator_go.Controller.Status.{with_status}
use k8s_werf_operator_go.Controller.Monitor.{finish}
use k8s_werf_operator_go.Controller.Polling.{handle_registry_error, poll, poll_interval}
use k8s_werf_operator_go.Controller.Failures.{
  retry, retried_status, exhausted_status, handle_registry_error-retries,
  handle_registry_error-gives_up,
}
use k8s_werf_operator_go.Controller.Endings.{last_written}

-- What a failure of the registry leads to.
pub data Verdict : Type 0 where
  retry_after : ℕ → Verdict  -- nanoseconds
  give_up : Verdict

-- The retry policy: after five failures in a row, the next one is the last.
abbrev pub verdict : ℕ → Verdict
verdict failures = if ltb failures 5 then retry_after (doubled (suc failures)) else give_up

abbrev pub phase_of : Verdict → Phase
phase_of (retry_after wait) = Phase.syncing
phase_of give_up = Phase.failed

-- The outcome of the reconciliation, for the answer to its status update.
abbrev pub outcome_of : Verdict → Result WerfBundle → Outcome
outcome_of (retry_after wait) answer = retry answer (pos wait)
outcome_of give_up answer = finish answer

verdict-few :
    (failures : ℕ) → ltb failures 5 ≡ true → verdict failures ≡ retry_after (doubled (suc failures))
verdict-few failures few = rw few refl

verdict-many : (failures : ℕ) → ltb failures 5 ≡ false → verdict failures ≡ give_up
verdict-many failures many = rw many refl

module _ {S : Type 0} (c : Cluster S) (l : Library) where
  -- The poll finds the registry failing, and does not get the answer that the tags are unchanged.
  pub record IsFailing (b : WerfBundle) (e : Env S) : Type 0 where
    pub cause : GoError
    pub answered : (list_tags c b.spec.registry.url b.status.last_etag e).0.error ≡ some cause
    pub not_unchanged : is_not_modified cause ≡ false

  -- A poll after `failures` failures does what the verdict says: after the listing it writes one
  -- status, with the new count and the verdict's phase, and the answer to that decides with the
  -- verdict what the outcome is.
  pub record Follows (failures : ℕ) (b : WerfBundle) (e : Env S) : Type 0 where
    pub written : WerfBundle
    pub writes :
        (poll c l b e).1.calls
        ≡ status_updated written ∷ (list_tags c b.spec.registry.url b.status.last_etag e).1.calls
    pub counted : written.status.consecutive_failures ≡ pos (suc failures)
    pub phase : written.status.phase ≡ phase_of (verdict failures)
    pub outcome :
        let (tags, listed) = list_tags c b.spec.registry.url b.status.last_etag e in
        (poll c l b e).0
        ≡ outcome_of (verdict failures) (c.update_status written (c.now listed.state).1).0

  poll-eq :
      (b : WerfBundle) (e : Env S) (f : IsFailing b e)
      → poll c l b e
        ≡ handle_registry_error c l b f.cause
            (poll_interval l b.spec.registry.poll_interval)
            (list_tags c b.spec.registry.url b.status.last_etag e).1
  unfolding poll
  poll-eq b e f = rw (f.answered, poll) refl

  pub poll-Follows :
      (failures : ℕ) (b : WerfBundle) (e : Env S)
      → IsFailing b e
      → b.status.consecutive_failures ≡ pos failures
      → suc failures < 2 ^ 31
      → Follows failures b e
  poll-Follows failures b e f h k =
      let e' = (list_tags c b.spec.registry.url b.status.last_etag e).1 in
      let interval = poll_interval l b.spec.registry.poll_interval in
      let p = poll-eq b e f in
      elim (Bool-cases (ltb failures 5)) [
        | inl few ↦
            let (calls, outcome) =
              handle_registry_error-retries c l b f.cause interval failures e' f.not_unchanged h
                (ground arith) in
            let written =
              with_status b (retried_status b.status (suc failures) f.cause (c.now e'.state).0) in
            let answer = (c.update_status written (c.now e'.state).1).0 in
            record {
              written = written;
              writes = ap (λ r. r.1.calls) p ∙ calls;
              counted = refl;
              phase = sym (ap phase_of (verdict-few failures few));
              outcome =
                  ap (λ r. r.0) p
                  ∙ outcome
                  ∙ sym (ap (λ v. outcome_of v answer) (verdict-few failures few));
            }
        | inr many ↦
            let (calls, outcome) =
              handle_registry_error-gives_up c l b f.cause interval failures e' f.not_unchanged h
                (ground arith) k in
            let written =
              with_status b (exhausted_status b.status (suc failures) f.cause (c.now e'.state).0) in
            let answer = (c.update_status written (c.now e'.state).1).0 in
            record {
              written = written;
              writes = ap (λ r. r.1.calls) p ∙ calls;
              counted = refl;
              phase = sym (ap phase_of (verdict-many failures many));
              outcome =
                  ap (λ r. r.0) p
                  ∙ outcome
                  ∙ sym (ap (λ v. outcome_of v answer) (verdict-many failures many));
            }
      ]

  -- The bundles that so many failing polls in a row leave: each poll is of the bundle that the one
  -- before has written, or of one with the same status, if the rest was changed in between.
  pub data FailedPolls : ℕ → WerfBundle → Type 0 where
    none_yet : {b : WerfBundle} → b.status.consecutive_failures ≡ pos 0 → FailedPolls 0 b
    failed_again :
        {n : ℕ} {b b' : WerfBundle} {e : Env S}
        → FailedPolls n b
        → IsFailing b e
        → last_written (poll c l b e).1.calls ≡ some b'
        → FailedPolls (suc n) b'
    elsewhere :
        {n : ℕ} {b b' : WerfBundle} → FailedPolls n b → b'.status ≡ b.status → FailedPolls n b'
