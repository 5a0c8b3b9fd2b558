-- ===== src/Controller/Superseded.antt =====
-- controllers/werfbundle_controller.go: `ensureJobExists` while a Job of an older tag is there.
use k8s_werf_operator_go.Base.{
  some, List, [], ◌≡◌, ◌≢◌, refl, arith, GoString, true, false, ◌∙◌, is_empty,
}
use k8s_werf_operator_go.Base.Int.{ltb_ℤ, pos}
use k8s_werf_operator_go.Base.Result.{ok}
use k8s_werf_operator_go.Api.{WerfBundle, Phase, NamespacedName, get_target_namespace}
use k8s_werf_operator_go.Controller.Cluster.{
  Cluster, Library, Call, Env, update_status, LiveJob, get_job,
}
use k8s_werf_operator_go.Controller.Status.{synced_status, update_status_synced}
use k8s_werf_operator_go.Controller.Monitor.{monitor_job_completion}
use k8s_werf_operator_go.Controller.Ensure.{ensure_job_exists}
use k8s_werf_operator_go.Controller.Endings.{last_written}
use k8s_werf_operator_go.Controller.SingleJob.{created_jobs, monitor_job_completion-jobs}

-- The last status that the calls write is `Synced` with the tag.
pub record IsWrittenSynced (tag : GoString) (calls : List Call) : Type 0 where
  pub bundle : WerfBundle
  pub is_written : last_written calls ≡ some bundle
  pub synced : bundle.status.phase ≡ Phase.synced
  pub applied : bundle.status.last_applied_tag ≡ tag

-- Where the active Job of a bundle is looked up.
abbrev pub active_job_key : WerfBundle → NamespacedName
active_job_key b = record {
  name = b.status.active_job_name;
  namespace = get_target_namespace b.spec.converge b.meta.namespace;
}

is_empty-false : {s : GoString} → s ≢ [] → is_empty s ≡ false
is_empty-false {s} h = ground arith

get_job-jobs :
    {S : Type 0} (c : Cluster S) (key : NamespacedName) (e : Env S)
    → created_jobs (get_job c key e).1.calls ≡ created_jobs e.calls
unfolding get_job
get_job-jobs c key e = refl

module _ {S : Type 0} (c : Cluster S) (l : Library) where
  monitor_job_completion-applied :
      (b : WerfBundle) (job : LiveJob) (tag : GoString) (e : Env S)
      → ltb_ℤ (pos 0) job.succeeded ≡ true
      → IsWrittenSynced tag (monitor_job_completion c l b job tag e).1.calls
  unfolding monitor_job_completion update_status_synced update_status synced_status
  monitor_job_completion-applied b job tag e h =
      rw (h, monitor_job_completion)
        (record { bundle = _; is_written = refl; synced = refl; applied = refl })

  -- While the active Job's object has a pod that succeeded, a newer tag is written as applied, and
  -- the bundle `Synced`, although no Job is created for that tag.
  pub ensure_job_exists-skips :
      (b : WerfBundle) (tag : GoString) (e : Env S) {job : LiveJob}
      → b.status.active_job_name ≢ []
      → (get_job c (active_job_key b) e).0 ≡ ok job
      → ltb_ℤ (pos 0) job.succeeded ≡ true
      → IsWrittenSynced tag (ensure_job_exists c l b tag e).1.calls
        × (created_jobs (ensure_job_exists c l b tag e).1.calls ≡ created_jobs e.calls)
  unfolding ensure_job_exists
  ensure_job_exists-skips b tag e {job} active q h =
      let busy : is_empty b.status.active_job_name ≡ false = is_empty-false active in
      rw (busy, q, ensure_job_exists)
        (
          monitor_job_completion-applied b job tag (get_job c (active_job_key b) e).1 h,
          monitor_job_completion-jobs c l b job tag (get_job c (active_job_key b) e).1
              ∙ get_job-jobs c (active_job_key b) e,
        )
