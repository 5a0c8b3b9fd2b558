-- ===== src/Controller/Guards/Updates.antt =====
-- What the reconciler has established when it creates a Job, kept by the parts that create none, and
-- by `launch`.
use k8s_werf_operator_go.Base.{Option, none, some, ◌≡◌, refl, arith, GoString}
use k8s_werf_operator_go.Base.Int.{ℤ}
use k8s_werf_operator_go.Base.Result.{Result, ok, err, GoError}
use k8s_werf_operator_go.Api.{WerfBundle}
use k8s_werf_operator_go.Converge.Builder.{Job}
use k8s_werf_operator_go.Rbac.{validate_service_account_exists}
use k8s_werf_operator_go.Controller.Cluster.{
  Cluster, Library, LiveJob, Env, update_status, create_job, create_config_map, update_config_map,
  get_service_account,
}
use k8s_werf_operator_go.Controller.Status.{
  update_status_syncing, update_status_synced, update_status_failed,
}
use k8s_werf_operator_go.Controller.JobLogs.{store_job_logs, record_job_logs}
use k8s_werf_operator_go.Controller.Monitor.{monitor_job_completion}
use k8s_werf_operator_go.Controller.Polling.{handle_registry_error, wait_for_tags}
use k8s_werf_operator_go.Controller.Reconcile.{validate_service_account}
use k8s_werf_operator_go.Controller.Ensure.{launch}
use k8s_werf_operator_go.Controller.Guards.{AllGuarded, IsGuarded}

module _ {S : Type 0} (c : Cluster S) where
  pub update_status_syncing-AllGuarded :
      (b : WerfBundle) (tag : GoString) (e : Env S)
      → AllGuarded e.calls
      → AllGuarded (update_status_syncing c b tag e).1.calls
  unfolding update_status_syncing update_status
  update_status_syncing-AllGuarded b tag e h = h

  pub update_status_synced-AllGuarded :
      (b : WerfBundle) (tag : GoString) (e : Env S)
      → AllGuarded e.calls
      → AllGuarded (update_status_synced c b tag e).1.calls
  unfolding update_status_synced update_status
  update_status_synced-AllGuarded b tag e h = h

  pub update_status_failed-AllGuarded :
      (b : WerfBundle) (text : GoString) (e : Env S)
      → AllGuarded e.calls
      → AllGuarded (update_status_failed c b text e).1.calls
  unfolding update_status_failed update_status
  update_status_failed-AllGuarded b text e h = h

module _ {S : Type 0} (c : Cluster S) (l : Library) where
  store_job_logs-AllGuarded :
      (b : WerfBundle) (name logs : GoString) (e : Env S)
      → AllGuarded e.calls
      → AllGuarded (store_job_logs c l b name logs e).1.calls
  unfolding store_job_logs create_config_map update_config_map
  store_job_logs-AllGuarded b name logs e h = ground arith

  record_job_logs-AllGuarded :
      (b : WerfBundle) (job : LiveJob) (e : Env S)
      → AllGuarded e.calls
      → AllGuarded (record_job_logs c l b job e).1.calls
  unfolding record_job_logs
  record_job_logs-AllGuarded b job e h = grind (arith, store_job_logs-AllGuarded)

  pub monitor_job_completion-AllGuarded :
      (b : WerfBundle) (job : LiveJob) (tag : GoString) (e : Env S)
      → AllGuarded e.calls
      → AllGuarded (monitor_job_completion c l b job tag e).1.calls
  unfolding monitor_job_completion
  monitor_job_completion-AllGuarded b job tag e h = grind (
    arith, record_job_logs-AllGuarded, update_status_synced-AllGuarded,
    update_status_failed-AllGuarded,
  )

  pub launch-AllGuarded :
      (b : WerfBundle) (built : Option (Result Job)) (e : Env S)
      → ((job : Job) → built ≡ some (ok job) → IsGuarded job e.calls)
      → AllGuarded e.calls
      → AllGuarded (launch c l b built e).1.calls
  unfolding launch create_job update_status
  launch-AllGuarded b none e k h = h
  launch-AllGuarded b (some (err x)) e k h = grind (arith, update_status_failed-AllGuarded)
  launch-AllGuarded b (some (ok job)) e k h =
      let guarded : IsGuarded job e.calls = k job refl in
      grind (arith, update_status_failed-AllGuarded)

  pub handle_registry_error-AllGuarded :
      (b : WerfBundle) (x : GoError) (interval : ℤ) (e : Env S)
      → AllGuarded e.calls
      → AllGuarded (handle_registry_error c l b x interval e).1.calls
  unfolding handle_registry_error
  handle_registry_error-AllGuarded b x interval e h =
      grind (arith, update_status_failed-AllGuarded, update_status_syncing-AllGuarded)

  pub wait_for_tags-AllGuarded :
      (b : WerfBundle) (interval : ℤ) (e : Env S)
      → AllGuarded e.calls
      → AllGuarded (wait_for_tags c l b interval e).1.calls
  unfolding wait_for_tags
  wait_for_tags-AllGuarded b interval e h = grind (arith, update_status_syncing-AllGuarded)

  pub validate_service_account-AllGuarded :
      (b : WerfBundle) (e : Env S)
      → AllGuarded e.calls
      → AllGuarded (validate_service_account c l b e).1.calls
  unfolding validate_service_account validate_service_account_exists get_service_account
  validate_service_account-AllGuarded b e h = grind (arith, update_status_failed-AllGuarded)
