-- ===== src/Controller/Polling.antt =====
-- controllers/werfbundle_controller.go: `handleRegistryError`, and the part of `Reconcile` from the
-- polling of the registry on.
use k8s_werf_operator_go.Base.{
  ℕ, Option, none, some, [], ◌++◌, ◌*◌, if◌then◌else◌, GoString, lit, is_empty, not, get_last?,
  str_eq, Bool, true, false,
}
use k8s_werf_operator_go.Base.Int.{ℤ, pos, ltb_ℤ, wrap32, ◌+ℤ◌}
use k8s_werf_operator_go.Base.Decimal.{format_ℤ}
use k8s_werf_operator_go.Base.Result.{ok, err, GoError, is_not_modified, error_text}
use k8s_werf_operator_go.Api.{WerfBundle, WerfBundleStatus, Phase}
use k8s_werf_operator_go.Registry.Backoff.{second, calculate_backoff, add_jitter}
use k8s_werf_operator_go.Controller.Cluster.{
  Cluster, Library, M, silently, Outcome, done, failed, panicked, no_requeue, list_tags,
}
use k8s_werf_operator_go.Controller.Status.{
  with_status, update_status_syncing, update_status_synced, update_status_failed,
}
use k8s_werf_operator_go.Controller.Monitor.{finish}
use k8s_werf_operator_go.Controller.Ensure.{ensure_job_exists}

-- `defaultPollInterval`: 15 minutes
abbrev pub default_poll_interval : ℤ
default_poll_interval = pos (15 * 60 * second)

abbrev pub max_consecutive_failures : ℤ
max_consecutive_failures = pos 5

-- A requeue after the interval with jitter; the panic of `AddJitter` is the reconciler's.
abbrev pub requeue_jittered : Option ℤ → Outcome
requeue_jittered none = panicked
requeue_jittered (some interval) = done interval

-- The status after one more failure, before the phase is set.
unfoldable pub count_failure : WerfBundleStatus → ℕ → WerfBundleStatus
count_failure st now = record st {
  consecutive_failures = wrap32 (st.consecutive_failures +ℤ pos 1);
  last_error_time = some now;
}

unfoldable pub exhausted_message : GoError → GoString
exhausted_message x =
    lit "Registry error after "
    ++ format_ℤ max_consecutive_failures
    ++ lit " retries: "
    ++ error_text x

unfoldable pub attempt_message : ℤ → GoError → GoString
attempt_message failures x =
    lit "Registry error (attempt "
    ++ format_ℤ failures
    ++ lit "/"
    ++ format_ℤ max_consecutive_failures
    ++ lit "): "
    ++ error_text x

-- The interval of the spec; the default where it is empty or not a duration.
unfoldable pub poll_interval : Library → GoString → ℤ
poll_interval l s =
    let parsed = l.parse_duration s in
    if is_empty s
    then default_poll_interval
    else elim parsed [ ok d ↦ d | err x ↦ default_poll_interval ]

-- The status after a poll that succeeded.
unfoldable pub polled_status : WerfBundleStatus → GoString → WerfBundleStatus
polled_status st etag = record st {
  consecutive_failures =
      if ltb_ℤ (pos 0) st.consecutive_failures then pos 0 else st.consecutive_failures;
  last_etag = etag;
}

abbrev pub is_synced : Phase → Bool
is_synced Phase.synced = true
is_synced _ = false

abbrev pub is_unset_or_failed : Phase → Bool
is_unset_or_failed Phase.unset = true
is_unset_or_failed Phase.failed = true
is_unset_or_failed _ = false

module _ {S : Type 0} (c : Cluster S) (l : Library) where
  unfoldable pub handle_registry_error : WerfBundle → GoError → ℤ → M S Outcome
  handle_registry_error b registry_err interval e =
      let drawn = silently c.rand_intn e in
      let clock = silently c.now e in
      let st = count_failure b.status clock.0 in
      let exhausted =
        update_status_failed c (with_status b st) (exhausted_message registry_err) clock.1 in
      let retried =
        update_status_syncing c (with_status b st)
          (attempt_message st.consecutive_failures registry_err) clock.1 in
      if is_not_modified registry_err
      then (requeue_jittered (add_jitter drawn.0 interval), drawn.1)
      else if ltb_ℤ max_consecutive_failures st.consecutive_failures
      then (finish exhausted.0, exhausted.1)
      else elim retried.0 [
        | err x ↦ (failed x, retried.1)
        | ok b' ↦ (done (calculate_backoff st.consecutive_failures), retried.1)
      ]

  -- No tag: the status leaves `Failed`, and the next poll is after the interval.
  unfoldable pub wait_for_tags : WerfBundle → ℤ → M S Outcome
  wait_for_tags b interval e =
      let syncing = update_status_syncing c b [] e in
      let after_update = silently c.rand_intn syncing.1 in
      let drawn = silently c.rand_intn e in
      if is_unset_or_failed b.status.phase
      then elim syncing.0 [
        | err x ↦ (failed x, syncing.1)
        | ok b' ↦ (requeue_jittered (add_jitter after_update.0 interval), after_update.1)
      ]
      else (requeue_jittered (add_jitter drawn.0 interval), drawn.1)

  -- The latest tag is there: it is applied already, or a Job is wanted.
  unfoldable pub apply_tag : WerfBundle → GoString → M S Outcome
  apply_tag b latest_tag e =
      let synced = update_status_synced c b latest_tag e in
      if str_eq b.status.last_applied_tag latest_tag
      then if not (is_synced b.status.phase) then (finish synced.0, synced.1) else (no_requeue, e)
      else ensure_job_exists c l b latest_tag e

  -- From the polling of the registry to the end of `Reconcile`.
  unfoldable pub poll : WerfBundle → M S Outcome
  poll b e =
      let interval = poll_interval l b.spec.registry.poll_interval in
      let listed = list_tags c b.spec.registry.url b.status.last_etag e in
      let b' = with_status b (polled_status b.status listed.0.new_etag) in
      elim (listed.0.error) [
        | some x ↦ handle_registry_error b x interval listed.1
        | none ↦ elim (get_last? listed.0.tags) [
          | none ↦ wait_for_tags b' interval listed.1
          | some latest_tag ↦ apply_tag b' latest_tag listed.1
        ]
      ]
