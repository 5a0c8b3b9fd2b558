-- ===== src/Controller/Progress.antt =====
-- controllers/werfbundle_controller.go: the parts of `Reconcile` that always make a call.
use k8s_werf_operator_go.Base.{
  ℕ, suc, [], ◌≡◌, ◌≤◌, str_eq, true, false, GoString, arith, length, Bool-cases, inl, inr, ◌&&◌,
  is_empty,
}
use k8s_werf_operator_go.Base.Int.{ℤ}
use k8s_werf_operator_go.Base.Result.{GoError, is_not_modified, Result-cases}
use k8s_werf_operator_go.Api.{WerfBundle}
use k8s_werf_operator_go.Controller.Cluster.{
  Cluster, Library, Env, list_tags, update_status, get_job, update, create_job, get_service_account,
  create_config_map, update_config_map,
}
use k8s_werf_operator_go.Controller.Status.{
  update_status_syncing, update_status_synced, update_status_failed, with_status,
}
use k8s_werf_operator_go.Controller.Monitor.{monitor_job_completion}
use k8s_werf_operator_go.Controller.Ensure.{ensure_job_exists, start_job}
use k8s_werf_operator_go.Controller.Polling.{
  apply_tag, handle_registry_error, wait_for_tags, is_synced, is_unset_or_failed,
}
use k8s_werf_operator_go.Controller.Superseded.{active_job_key}
use k8s_werf_operator_go.Controller.Invariants.{Keeps}
use k8s_werf_operator_go.Controller.Invariants.Chain.{
  launch-keeps, build_job-keeps, monitor_job_completion-keeps, start_job-keeps,
}

-- So many calls have been made, at least.
abbrev HasCalls : {S : Type 0} → ℕ → Env S → Type 0
HasCalls n e = n ≤ length e.calls

HasCalls-Keeps : {S : Type 0} (c : Cluster S) (n : ℕ) → Keeps c (HasCalls n)
unfolding update update_status get_job create_job get_service_account create_config_map
    update_config_map list_tags
HasCalls-Keeps c n = record {
  reads_keep = λ calls. record {
    get_config_map_keeps = λ k s h. h;
    get_secret_keeps = λ k s h. h;
    list_pods_keeps = λ ns name s h. h;
    stream_logs_keeps = λ ns name container lines s h. h;
  };
  get_bundle_keeps = λ k e h. h;
  now_keeps = λ e h. h;
  rand_read_keeps = λ e h. h;
  rand_intn_keeps = λ e h. h;
  update_keeps = λ b e h. omega arith;
  update_status_keeps = λ b e h. omega arith;
  get_job_keeps = λ k e h. omega arith;
  create_job_keeps = λ j e h. omega arith;
  get_service_account_keeps = λ k e h. omega arith;
  create_config_map_keeps = λ m e h. omega arith;
  update_config_map_keeps = λ m e h. omega arith;
  list_tags_keeps = λ url etag e h. omega arith;
}

module _ {S : Type 0} (c : Cluster S) (l : Library) where
  pub handle_registry_error-calls :
      (b : WerfBundle) (x : GoError) (interval : ℤ) (e : Env S)
      → is_not_modified x ≡ false
      → suc (length e.calls) ≤ length (handle_registry_error c l b x interval e).1.calls
  unfolding handle_registry_error update_status_failed update_status_syncing update_status
  handle_registry_error-calls b x interval e h = ground arith

  pub wait_for_tags-calls :
      (b : WerfBundle) (interval : ℤ) (e : Env S)
      → is_unset_or_failed b.status.phase ≡ true
      → suc (length e.calls) ≤ length (wait_for_tags c l b interval e).1.calls
  unfolding wait_for_tags update_status_syncing update_status
  wait_for_tags-calls b interval e h = ground arith

  start_job-calls :
      (b : WerfBundle) (tag : GoString) (e : Env S)
      → suc (length e.calls) ≤ length (start_job c l b tag e).1.calls
  unfolding start_job update_status_syncing update_status
  start_job-calls b tag e =
      let keeps = HasCalls-Keeps c (suc (length e.calls)) in
      let syncing = update_status_syncing c b tag e in
      elim (Result-cases syncing.0) [
        | inl (b', q) ↦
            rw (q, start_job)
              (launch-keeps l keeps b' _ _ (build_job-keeps l keeps b' tag syncing.1 (omega arith)))
        | inr (x, q) ↦ rw (q, start_job) (omega arith)
      ]

  ensure_job_exists-calls :
      (b : WerfBundle) (tag : GoString) (e : Env S)
      → suc (length e.calls) ≤ length (ensure_job_exists c l b tag e).1.calls
  unfolding ensure_job_exists get_job
  ensure_job_exists-calls b tag e =
      let keeps = HasCalls-Keeps c (suc (length e.calls)) in
      let read = (get_job c (active_job_key b) e).1 in
      let released = with_status b (record (b.status) { active_job_name = [] }) in
      elim (Bool-cases (is_empty b.status.active_job_name)) [
        | inl free ↦ rw free (start_job-calls b tag e)
        | inr busy ↦ elim (Result-cases (get_job c (active_job_key b) e).0) [
          | inl (job, q) ↦
              let watched : HasCalls (suc (length e.calls))
                  (monitor_job_completion c l b job tag read).1 =
                monitor_job_completion-keeps l keeps b job tag read (omega arith) in
              rw (busy, q, ensure_job_exists) watched
          | inr (x, q) ↦
              let started = start_job-keeps l keeps released tag read (omega arith) in
              rw (busy, q, ensure_job_exists) (ground (arith, started))
        ]
      ]

  pub apply_tag-calls :
      (b : WerfBundle) (tag : GoString) (e : Env S)
      → (str_eq b.status.last_applied_tag tag && is_synced b.status.phase) ≡ false
      → suc (length e.calls) ≤ length (apply_tag c l b tag e).1.calls
  unfolding apply_tag update_status_synced update_status
  apply_tag-calls b tag e h = ground (arith, ensure_job_exists-calls b tag e)
