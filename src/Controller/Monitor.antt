-- ===== src/Controller/Monitor.antt =====
-- controllers/werfbundle_controller.go: `monitorJobCompletion`.
use k8s_werf_operator_go.Base.{◌*◌, [], if◌then◌else◌, GoString, lit}
use k8s_werf_operator_go.Base.Int.{ℤ, pos, ltb_ℤ}
use k8s_werf_operator_go.Base.Result.{Result, ok, err}
use k8s_werf_operator_go.Api.{WerfBundle, WerfBundleStatus, JobStatus}
use k8s_werf_operator_go.Registry.Backoff.{second}
use k8s_werf_operator_go.Controller.Cluster.{
  Cluster, Library, LiveJob, M, Outcome, done, failed, no_requeue,
}
use k8s_werf_operator_go.Controller.Status.{with_status, update_status_synced, update_status_failed}
use k8s_werf_operator_go.Controller.JobLogs.{record_job_logs}

-- `5 * time.Second`
abbrev pub recheck : ℤ
recheck = pos (5 * second)

-- The status of a bundle whose Job has ended.
unfoldable pub ended_status : WerfBundleStatus → JobStatus → WerfBundleStatus
ended_status st job_status = record st { last_job_status = job_status; active_job_name = [] }

-- An answer of a status update that ends the reconciliation.
abbrev pub finish : Result WerfBundle → Outcome
finish (ok b) = no_requeue
finish (err x) = failed x

module _ {S : Type 0} (c : Cluster S) (l : Library) where
  unfoldable pub monitor_job_completion : WerfBundle → LiveJob → GoString → M S Outcome
  monitor_job_completion b job latest_tag e =
      let succeeded =
        record_job_logs c l (with_status b (ended_status b.status JobStatus.succeeded)) job e in
      let synced = update_status_synced c succeeded.0 latest_tag succeeded.1 in
      let failed =
        record_job_logs c l (with_status b (ended_status b.status JobStatus.failed)) job e in
      let reported =
        update_status_failed c failed.0 (lit "Job failed, see job logs for details") failed.1 in
      if ltb_ℤ (pos 0) job.succeeded
      then (finish synced.0, synced.1)
      else if ltb_ℤ (pos 0) job.failed
      then (finish reported.0, reported.1)
      else (done recheck, e)
