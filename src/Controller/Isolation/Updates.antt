-- ===== src/Controller/Isolation/Updates.antt =====
-- The parts of a reconciliation that create no Job concern the bundle that they are given.
use k8s_werf_operator_go.Base.{◌≡◌, arith, GoString, ap}
use k8s_werf_operator_go.Base.Int.{ℤ}
use k8s_werf_operator_go.Base.Result.{GoError}
use k8s_werf_operator_go.Api.{WerfBundle}
use k8s_werf_operator_go.Rbac.{validate_service_account_exists}
use k8s_werf_operator_go.Controller.Cluster.{
  Cluster, Library, LiveJob, Env, update_status, create_config_map, update_config_map,
  get_service_account,
}
use k8s_werf_operator_go.Controller.Status.{
  update_status_syncing, update_status_synced, update_status_failed,
}
use k8s_werf_operator_go.Controller.JobLogs.{store_job_logs, record_job_logs}
use k8s_werf_operator_go.Controller.Monitor.{monitor_job_completion}
use k8s_werf_operator_go.Controller.Polling.{handle_registry_error, wait_for_tags}
use k8s_werf_operator_go.Controller.Reconcile.{validate_service_account}
use k8s_werf_operator_go.Controller.Isolation.{Identity, identity, AllConcern}

module _ {S : Type 0} (c : Cluster S) (i : Identity) where
  pub update_status_syncing-AllConcern :
      (b : WerfBundle) (tag : GoString) (e : Env S)
      → identity b ≡ i
      → AllConcern i e.calls
      → AllConcern i (update_status_syncing c b tag e).1.calls
  unfolding update_status_syncing update_status
  update_status_syncing-AllConcern b tag e p h = (p, h)

  pub update_status_synced-AllConcern :
      (b : WerfBundle) (tag : GoString) (e : Env S)
      → identity b ≡ i
      → AllConcern i e.calls
      → AllConcern i (update_status_synced c b tag e).1.calls
  unfolding update_status_synced update_status
  update_status_synced-AllConcern b tag e p h = (p, h)

  pub update_status_failed-AllConcern :
      (b : WerfBundle) (text : GoString) (e : Env S)
      → identity b ≡ i
      → AllConcern i e.calls
      → AllConcern i (update_status_failed c b text e).1.calls
  unfolding update_status_failed update_status
  update_status_failed-AllConcern b text e p h = (p, h)

module _ {S : Type 0} (c : Cluster S) (l : Library) (i : Identity) where
  store_job_logs-AllConcern :
      (b : WerfBundle) (name logs : GoString) (e : Env S)
      → identity b ≡ i
      → AllConcern i e.calls
      → AllConcern i (store_job_logs c l b name logs e).1.calls
  unfolding store_job_logs create_config_map update_config_map
  store_job_logs-AllConcern b name logs e p h =
      let own : b.meta.namespace ≡ i.namespace = ap (λ (x : Identity). x.namespace) p in
      ground (arith, own, h)

  -- The bundle with the logs in its status is the same bundle.
  record_job_logs-identity :
      (b : WerfBundle) (job : LiveJob) (e : Env S)
      → identity (record_job_logs c l b job e).0 ≡ identity b
  unfolding record_job_logs
  record_job_logs-identity b job e = ground arith

  record_job_logs-AllConcern :
      (b : WerfBundle) (job : LiveJob) (e : Env S)
      → identity b ≡ i
      → AllConcern i e.calls
      → AllConcern i (record_job_logs c l b job e).1.calls
  unfolding record_job_logs
  record_job_logs-AllConcern b job e p h = grind (arith, store_job_logs-AllConcern)

  pub monitor_job_completion-AllConcern :
      (b : WerfBundle) (job : LiveJob) (tag : GoString) (e : Env S)
      → identity b ≡ i
      → AllConcern i e.calls
      → AllConcern i (monitor_job_completion c l b job tag e).1.calls
  unfolding monitor_job_completion
  monitor_job_completion-AllConcern b job tag e p h = grind (
    arith, record_job_logs-AllConcern, record_job_logs-identity, update_status_synced-AllConcern,
    update_status_failed-AllConcern,
  )

  pub handle_registry_error-AllConcern :
      (b : WerfBundle) (x : GoError) (interval : ℤ) (e : Env S)
      → identity b ≡ i
      → AllConcern i e.calls
      → AllConcern i (handle_registry_error c l b x interval e).1.calls
  unfolding handle_registry_error
  handle_registry_error-AllConcern b x interval e p h =
      grind (arith, update_status_failed-AllConcern, update_status_syncing-AllConcern)

  pub wait_for_tags-AllConcern :
      (b : WerfBundle) (interval : ℤ) (e : Env S)
      → identity b ≡ i
      → AllConcern i e.calls
      → AllConcern i (wait_for_tags c l b interval e).1.calls
  unfolding wait_for_tags
  wait_for_tags-AllConcern b interval e p h = grind (arith, update_status_syncing-AllConcern)

  pub validate_service_account-AllConcern :
      (b : WerfBundle) (e : Env S)
      → identity b ≡ i
      → AllConcern i e.calls
      → AllConcern i (validate_service_account c l b e).1.calls
  unfolding validate_service_account validate_service_account_exists get_service_account
  validate_service_account-AllConcern b e p h = grind (arith, update_status_failed-AllConcern)
