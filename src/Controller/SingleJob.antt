-- ===== src/Controller/SingleJob.antt =====
-- One reconciliation creates at most one Job.
pub mod NewTags
pub mod Requests
use k8s_werf_operator_go.Base.{
  ℕ, suc, Option, none, some, List, [], ◌∷◌, ◌+◌, ◌≤◌, ◌≡◌, refl, arith, GoString, length, ap,
}
use k8s_werf_operator_go.Base.Int.{ℤ}
use k8s_werf_operator_go.Base.Result.{Result, ok, err, GoError}
use k8s_werf_operator_go.Api.{WerfBundle, NamespacedName}
use k8s_werf_operator_go.Converge.Builder.{Job}
use k8s_werf_operator_go.Rbac.{validate_service_account_exists}
use k8s_werf_operator_go.Controller.Cluster.{
  Cluster, Library, LiveJob, Call, job_created, Env, update, update_status, create_job,
  create_config_map, update_config_map, get_job, get_service_account, list_tags,
}
use k8s_werf_operator_go.Controller.Status.{
  update_status_syncing, update_status_synced, update_status_failed,
}
use k8s_werf_operator_go.Controller.JobLogs.{store_job_logs, record_job_logs}
use k8s_werf_operator_go.Controller.Monitor.{monitor_job_completion}
use k8s_werf_operator_go.Controller.Ensure.{build_job, launch, start_job, ensure_job_exists}
use k8s_werf_operator_go.Controller.Polling.{handle_registry_error, wait_for_tags, apply_tag, poll}
use k8s_werf_operator_go.Controller.Reconcile.{
  validate_service_account, reconcile_validated, reconcile_active, reconcile_deleted,
  reconcile_present, reconcile,
}

-- The Jobs that the calls create, and how many they are.
abbrev pub created_jobs : List Call → List Job
created_jobs [] = []
created_jobs (job_created j ∷ calls) = j ∷ created_jobs calls
created_jobs (_ ∷ calls) = created_jobs calls

abbrev pub jobs_created : List Call → ℕ
jobs_created calls = length (created_jobs calls)

module _ {S : Type 0} (c : Cluster S) (l : Library) where
  store_job_logs-jobs :
      (b : WerfBundle) (name logs : GoString) (e : Env S)
      → created_jobs (store_job_logs c l b name logs e).1.calls ≡ created_jobs e.calls
  unfolding store_job_logs create_config_map update_config_map
  store_job_logs-jobs b name logs e = ground arith

  record_job_logs-jobs :
      (b : WerfBundle) (job : LiveJob) (e : Env S)
      → created_jobs (record_job_logs c l b job e).1.calls ≡ created_jobs e.calls
  unfolding record_job_logs
  record_job_logs-jobs b job e = grind (arith, store_job_logs-jobs)

  pub update_status-jobs :
      (b : WerfBundle) (e : Env S)
      → created_jobs (update_status c b e).1.calls ≡ created_jobs e.calls
  unfolding update_status
  update_status-jobs b e = refl

  pub update_status_synced-jobs :
      (b : WerfBundle) (tag : GoString) (e : Env S)
      → created_jobs (update_status_synced c b tag e).1.calls ≡ created_jobs e.calls
  unfolding update_status_synced update_status
  update_status_synced-jobs b tag e = refl

  pub update_status_syncing-jobs :
      (b : WerfBundle) (tag : GoString) (e : Env S)
      → created_jobs (update_status_syncing c b tag e).1.calls ≡ created_jobs e.calls
  unfolding update_status_syncing update_status
  update_status_syncing-jobs b tag e = refl

  pub update_status_failed-jobs :
      (b : WerfBundle) (message : GoString) (e : Env S)
      → created_jobs (update_status_failed c b message e).1.calls ≡ created_jobs e.calls
  unfolding update_status_failed update_status
  update_status_failed-jobs b message e = refl

  pub monitor_job_completion-jobs :
      (b : WerfBundle) (job : LiveJob) (tag : GoString) (e : Env S)
      → created_jobs (monitor_job_completion c l b job tag e).1.calls ≡ created_jobs e.calls
  unfolding monitor_job_completion
  monitor_job_completion-jobs b job tag e =
      grind (arith, record_job_logs-jobs, update_status_synced-jobs, update_status_failed-jobs)

  launch-jobs :
      (b : WerfBundle) (built : Option (Result Job)) (e : Env S)
      → jobs_created (launch c l b built e).1.calls ≤ jobs_created e.calls + 1
  unfolding launch create_job
  launch-jobs b none e = omega arith
  launch-jobs b (some (err x)) e = grind (arith, update_status_failed-jobs)
  launch-jobs b (some (ok job)) e = grind (arith, update_status_failed-jobs, update_status-jobs)

  start_job-jobs :
      (b : WerfBundle) (tag : GoString) (e : Env S)
      → jobs_created (start_job c l b tag e).1.calls ≤ jobs_created e.calls + 1
  unfolding start_job build_job
  start_job-jobs b tag e = grind (arith, update_status_syncing-jobs, launch-jobs)

  ensure_job_exists-jobs :
      (b : WerfBundle) (tag : GoString) (e : Env S)
      → jobs_created (ensure_job_exists c l b tag e).1.calls ≤ jobs_created e.calls + 1
  unfolding ensure_job_exists get_job
  ensure_job_exists-jobs b tag e = grind (arith, monitor_job_completion-jobs, start_job-jobs)

  pub handle_registry_error-jobs :
      (b : WerfBundle) (x : GoError) (interval : ℤ) (e : Env S)
      → created_jobs (handle_registry_error c l b x interval e).1.calls ≡ created_jobs e.calls
  unfolding handle_registry_error
  handle_registry_error-jobs b x interval e =
      grind (arith, update_status_failed-jobs, update_status_syncing-jobs)

  pub wait_for_tags-jobs :
      (b : WerfBundle) (interval : ℤ) (e : Env S)
      → created_jobs (wait_for_tags c l b interval e).1.calls ≡ created_jobs e.calls
  unfolding wait_for_tags
  wait_for_tags-jobs b interval e = grind (arith, update_status_syncing-jobs)

  apply_tag-jobs :
      (b : WerfBundle) (tag : GoString) (e : Env S)
      → jobs_created (apply_tag c l b tag e).1.calls ≤ jobs_created e.calls + 1
  unfolding apply_tag
  apply_tag-jobs b tag e = grind (arith, update_status_synced-jobs, ensure_job_exists-jobs)

  poll-jobs :
      (b : WerfBundle) (e : Env S) → jobs_created (poll c l b e).1.calls ≤ jobs_created e.calls + 1
  unfolding poll list_tags
  poll-jobs b e = grind (arith, handle_registry_error-jobs, wait_for_tags-jobs, apply_tag-jobs)

  pub validate_service_account-jobs :
      (b : WerfBundle) (e : Env S)
      → created_jobs (validate_service_account c l b e).1.calls ≡ created_jobs e.calls
  unfolding validate_service_account validate_service_account_exists get_service_account
  validate_service_account-jobs b e = grind (arith, update_status_failed-jobs)

  reconcile_validated-jobs :
      (b : WerfBundle) (e : Env S)
      → jobs_created (reconcile_validated c l b e).1.calls ≤ jobs_created e.calls + 1
  unfolding reconcile_validated
  reconcile_validated-jobs b e = grind (arith, validate_service_account-jobs, poll-jobs)

  reconcile_active-jobs :
      (b : WerfBundle) (e : Env S)
      → jobs_created (reconcile_active c l b e).1.calls ≤ jobs_created e.calls + 1
  unfolding reconcile_active
  reconcile_active-jobs b e =
      grind (arith, update_status-jobs, update_status_failed-jobs, reconcile_validated-jobs)

  pub reconcile_deleted-jobs :
      (b : WerfBundle) (e : Env S)
      → created_jobs (reconcile_deleted c l b e).1.calls ≡ created_jobs e.calls
  unfolding reconcile_deleted update
  reconcile_deleted-jobs b e = grind arith

  reconcile_present-jobs :
      (b : WerfBundle) (e : Env S)
      → jobs_created (reconcile_present c l b e).1.calls ≤ jobs_created e.calls + 1
  unfolding reconcile_present update
  reconcile_present-jobs b e = grind (arith, reconcile_active-jobs)

  -- However the API, the registry and the random numbers answer, one reconciliation makes at most
  -- one call that creates a Job.
  pub reconcile-one_job :
      (request : NamespacedName) (e : Env S)
      → jobs_created (reconcile c l request e).1.calls ≤ jobs_created e.calls + 1
  unfolding reconcile
  reconcile-one_job request e = grind (arith, reconcile_deleted-jobs, reconcile_present-jobs)
