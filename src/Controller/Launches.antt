-- ===== src/Controller/Launches.antt =====
-- controllers/werfbundle_controller.go: the ends of an attempt to deploy a new tag.
use k8s_werf_operator_go.Base.{some, [], ◌∷◌, ◌≡◌, ◌≢◌, List, GoString}
use k8s_werf_operator_go.Base.Result.{Result, ok, GoError}
use k8s_werf_operator_go.Api.{WerfBundle, Phase, JobStatus}
use k8s_werf_operator_go.Converge.Builder.{Job}
use k8s_werf_operator_go.Controller.Cluster.{
  Cluster, Library, Call, status_updated, job_created, Env, Outcome, done, failed, panicked,
  no_requeue,
}
use k8s_werf_operator_go.Controller.Status.{update_status_syncing}
use k8s_werf_operator_go.Controller.Monitor.{recheck}
use k8s_werf_operator_go.Controller.Ensure.{build_job}

module _ {S : Type 0} (c : Cluster S) (l : Library) where
  -- How an attempt to deploy a tag may end that starts with this bundle and environment, with the
  -- calls it has made: the tag was announced, the Job that was built from the answer was created, its
  -- name is in the status, and a look at it is asked for in five seconds; or the status is `Failed`
  -- and no requeue is asked for; or an error is returned, which the manager retries; or a panic.
  pub data Attempts (b : WerfBundle) (tag : GoString) (start : Env S)
      : Outcome → List Call → Type 0 where
    launched :
        {announced tracked : WerfBundle} {job : Job}
        → (update_status_syncing c b tag start).0 ≡ ok announced
        → (build_job c l announced tag (update_status_syncing c b tag start).1).0 ≡ some (ok job)
        → tracked.status.active_job_name ≡ job.name
        → tracked.status.last_job_status ≡ JobStatus.running
        → Attempts b tag start (done recheck) (
            status_updated tracked
            ∷ job_created job
            ∷ (update_status_syncing c b tag start).1.calls)
    reported :
        {reported : WerfBundle} {calls : List Call}
        → reported.status.phase ≡ Phase.failed
        → reported.status.last_error_message ≢ []
        → Attempts b tag start no_requeue (status_updated reported ∷ calls)
    returned : {x : GoError} {calls : List Call} → Attempts b tag start (failed x) calls
    crashed : {calls : List Call} → Attempts b tag start panicked calls
