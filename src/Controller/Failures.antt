-- ===== src/Controller/Failures.antt =====
-- What `handleRegistryError` and `Reconcile` make of errors.
use k8s_werf_operator_go.Base.{
  ℕ, suc, none, some, [], ◌∷◌, ◌≡◌, ◌≢◌, ◌≤◌, ◌<◌, refl, arith, GoString, true, false, ◌^◌, ap, ◌∙◌,
  lit,
}
use k8s_werf_operator_go.Base.Int.{ℤ, pos, wrap32, wrap32_small, ◌+ℤ◌, ltb_ℤ}
use k8s_werf_operator_go.Base.Result.{Result, ok, err, GoError, is_not_modified}
use k8s_werf_operator_go.Api.{WerfBundle, WerfBundleStatus, Phase}
use k8s_werf_operator_go.Registry.Backoff.{calculate_backoff}
use k8s_werf_operator_go.Registry.Backoff.Bounds.{doubled, calculate_backoff-eq-doubled}
use k8s_werf_operator_go.Controller.Cluster.{
  Cluster, Library, silently, status_updated, Env, Outcome, done, failed, update_status,
}
use k8s_werf_operator_go.Controller.Status.{
  syncing_status, failed_status, update_status_syncing, update_status_failed, with_status,
}
use k8s_werf_operator_go.Controller.Monitor.{finish}
use k8s_werf_operator_go.Controller.Polling.{
  handle_registry_error, count_failure, exhausted_message, attempt_message,
  max_consecutive_failures,
}

-- The status after a failure that is to be retried.
abbrev pub retried_status : WerfBundleStatus → ℕ → GoError → ℕ → WerfBundleStatus
retried_status st failures x now = record st {
  phase = Phase.syncing;
  last_applied_tag = attempt_message (pos failures) x;
  last_error_message = [];
  last_sync_time = none;
  consecutive_failures = pos failures;
  last_error_time = some now;
}

-- The status after the last failure.
abbrev pub exhausted_status : WerfBundleStatus → ℕ → GoError → ℕ → WerfBundleStatus
exhausted_status st failures x now = record st {
  phase = Phase.failed;
  last_error_message = exhausted_message x;
  consecutive_failures = pos failures;
  last_error_time = some now;
}

-- The outcome after a status update that is to be followed by a retry.
abbrev pub retry : Result WerfBundle → ℤ → Outcome
retry (ok b) interval = done interval
retry (err x) interval = failed x

add_one : (a : ℤ) (f : ℕ) → a ≡ pos f → a +ℤ pos 1 ≡ pos (suc f)
unfolding ◌+ℤ◌
add_one a f h = rw h (ground arith)

-- The status after one more failure.
abbrev counted : WerfBundleStatus → ℕ → ℕ → WerfBundleStatus
counted st f now = record st { consecutive_failures = pos (suc f); last_error_time = some now }

count_failure-counted :
    (st : WerfBundleStatus) (f now : ℕ)
    → st.consecutive_failures ≡ pos f
    → suc f < 2 ^ 31
    → count_failure st now ≡ counted st f now
unfolding count_failure
count_failure-counted st f now h k =
    let p : wrap32 (st.consecutive_failures +ℤ pos 1) ≡ pos (suc f) =
      ap wrap32 (add_one st.consecutive_failures f h) ∙ wrap32_small (suc f) k in
    ap (λ n. record st { consecutive_failures = n; last_error_time = some now }) p

attempt_message-ne-nil : (n : ℤ) (x : GoError) → attempt_message n x ≢ []
unfolding attempt_message lit
attempt_message-ne-nil n x = cc

module _ {S : Type 0} (c : Cluster S) (l : Library) where
  update_status_syncing-named :
      (b : WerfBundle) (tag : GoString) (e : Env S)
      → tag ≢ []
      → update_status_syncing c b tag e
        ≡ update_status c
            (with_status b (record (b.status) {
              phase = Phase.syncing;
              last_applied_tag = tag;
              last_error_message = [];
              last_sync_time = none;
            }))
            e
  unfolding update_status_syncing syncing_status
  update_status_syncing-named b [] e h = absurd (h refl)
  update_status_syncing-named b (x ∷ tag) e h = refl

  -- The end of `handleRegistryError` where it retries, for the status after one more failure.
  abbrev retries : WerfBundle → GoError → WerfBundleStatus → Env S → Outcome × Env S
  retries b x st e =
      let written =
        update_status_syncing c (with_status b st) (attempt_message st.consecutive_failures x) e in
      (retry written.0 (calculate_backoff st.consecutive_failures), written.1)

  -- Its end where it gives up.
  abbrev gives_up : WerfBundle → GoError → WerfBundleStatus → Env S → Outcome × Env S
  gives_up b x st e =
      let written = update_status_failed c (with_status b st) (exhausted_message x) e in
      (finish written.0, written.1)

  handle_registry_error-eq-retries :
      (b : WerfBundle) (x : GoError) (interval : ℤ) (e : Env S)
      → is_not_modified x ≡ false
      → ltb_ℤ max_consecutive_failures
          (count_failure b.status (c.now e.state).0).consecutive_failures
        ≡ false
      → handle_registry_error c l b x interval e
        ≡ retries b x (count_failure b.status (c.now e.state).0) (silently c.now e).1
  unfolding handle_registry_error
  handle_registry_error-eq-retries b x interval e changed few =
      rw (changed, few, handle_registry_error) (ground arith)

  -- The registry's error, not an unchanged listing, after fewer than five failures in a row: one
  -- status is written, `Syncing` without an error message and with the text of the error as the
  -- applied tag, and the next poll is after 30 seconds doubled for each failure, 8 minutes at most;
  -- the error of the status update ends the reconciliation.
  pub handle_registry_error-retries :
      (b : WerfBundle) (x : GoError) (interval : ℤ) (f : ℕ) (e : Env S)
      → is_not_modified x ≡ false
      → b.status.consecutive_failures ≡ pos f
      → f < 5
      → let now = (c.now e.state).0 in
        let written = with_status b (retried_status b.status (suc f) x now) in
        let (outcome, e') = handle_registry_error c l b x interval e in
        (e'.calls ≡ status_updated written ∷ e.calls)
        × (outcome ≡ retry (c.update_status written (c.now e.state).1).0 (pos (doubled (suc f))))
  unfolding update_status
  handle_registry_error-retries b x interval f e changed h k =
      let st = counted b.status f (c.now e.state).0 in
      let p : count_failure b.status (c.now e.state).0 ≡ st =
        count_failure-counted b.status f _ h (omega arith) in
      let few : ltb_ℤ max_consecutive_failures (pos (suc f)) ≡ false = ground arith in
      let q = calculate_backoff-eq-doubled (suc f) (omega arith) in
      let r : handle_registry_error c l b x interval e ≡ retries b x st (silently c.now e).1 =
        handle_registry_error-eq-retries b x interval e changed
          (ap (λ s. ltb_ℤ max_consecutive_failures s.consecutive_failures) p ∙ few)
        ∙ ap (λ s. retries b x s (silently c.now e).1) p in
      let w =
        update_status_syncing-named (with_status b st) (attempt_message (pos (suc f)) x)
          (silently c.now e).1 (attempt_message-ne-nil _ x) in
      rw (r, q, w) (refl, refl)

  handle_registry_error-eq-exhausted :
      (b : WerfBundle) (x : GoError) (interval : ℤ) (e : Env S)
      → is_not_modified x ≡ false
      → ltb_ℤ max_consecutive_failures
          (count_failure b.status (c.now e.state).0).consecutive_failures
        ≡ true
      → handle_registry_error c l b x interval e
        ≡ gives_up b x (count_failure b.status (c.now e.state).0) (silently c.now e).1
  unfolding handle_registry_error
  handle_registry_error-eq-exhausted b x interval e changed many =
      rw (changed, many, handle_registry_error) refl

  -- The registry's error, not an unchanged listing, after five failures in a row or more (and fewer
  -- than an int32 holds): one status is written, `Failed` with the error, and the next poll is not
  -- asked for.
  pub handle_registry_error-gives_up :
      (b : WerfBundle) (x : GoError) (interval : ℤ) (f : ℕ) (e : Env S)
      → is_not_modified x ≡ false
      → b.status.consecutive_failures ≡ pos f
      → 5 ≤ f
      → suc f < 2 ^ 31
      → let now = (c.now e.state).0 in
        let written = with_status b (exhausted_status b.status (suc f) x now) in
        let (outcome, e') = handle_registry_error c l b x interval e in
        (e'.calls ≡ status_updated written ∷ e.calls)
        × (outcome ≡ finish (c.update_status written (c.now e.state).1).0)
  unfolding update_status update_status_failed failed_status
  handle_registry_error-gives_up b x interval f e changed h k m =
      let st = counted b.status f (c.now e.state).0 in
      let p : count_failure b.status (c.now e.state).0 ≡ st =
        count_failure-counted b.status f _ h m in
      let many : ltb_ℤ max_consecutive_failures (pos (suc f)) ≡ true = ground arith in
      let r : handle_registry_error c l b x interval e ≡ gives_up b x st (silently c.now e).1 =
        handle_registry_error-eq-exhausted b x interval e changed
          (ap (λ s. ltb_ℤ max_consecutive_failures s.consecutive_failures) p ∙ many)
        ∙ ap (λ s. gives_up b x s (silently c.now e).1) p in
      rw r (refl, refl)
