-- ===== src/Controller/Endings.antt =====
-- The ends of a Job: `monitorJobCompletion`, and the tag check of `Reconcile` that passes it by.
use k8s_werf_operator_go.Base.{
  Option, none, some, List, [], ◌∷◌, ◌≡◌, ◌≤◌, refl, arith, GoString, lit, length, inl, inr, leb→le,
  length-append, Bool-cases, if◌then◌else◌,
}
use k8s_werf_operator_go.Base.Int.{pos, ltb_ℤ}
use k8s_werf_operator_go.Base.Result.{ok}
use k8s_werf_operator_go.Api.{WerfBundle, Phase, JobStatus}
use k8s_werf_operator_go.Controller.Cluster.{
  Cluster, Library, LiveJob, Call, status_updated, Env, Outcome, done, update_status,
}
use k8s_werf_operator_go.Controller.Status.{
  failed_status, synced_status, update_status_synced, update_status_failed, with_status,
}
use k8s_werf_operator_go.Controller.JobLogs.{
  logs_reference, config_map_name, store_job_logs, record_job_logs,
}
use k8s_werf_operator_go.Controller.Monitor.{recheck, ended_status, monitor_job_completion}

-- The bundle of the last status that the calls write.
abbrev pub last_written : List Call → Option WerfBundle
last_written [] = none
last_written (status_updated b ∷ calls) = some b
last_written (_ ∷ calls) = last_written calls

-- What the end of a Job leaves in the status.
pub record IsEnded (job_status : JobStatus) (phase : Phase) (written : Option WerfBundle)
    : Type 0 where
  pub bundle : WerfBundle
  pub is_written : written ≡ some bundle
  pub phase_set : bundle.status.phase ≡ phase
  pub released : bundle.status.active_job_name ≡ []
  pub outcome_kept : bundle.status.last_job_status ≡ job_status

pub data JobEnd : Type 0 where
  a_pod_succeeded : JobEnd
  only_failures : JobEnd
  running : JobEnd

abbrev pub job_end : LiveJob → JobEnd
job_end job =
    if ltb_ℤ (pos 0) job.succeeded
    then a_pod_succeeded
    else if ltb_ℤ (pos 0) job.failed
    then only_failures
    else running

-- What is left of a reconciliation that monitors a Job.
abbrev pub Completes : {S : Type 0} → JobEnd → Outcome → Env S → Env S → Type 0
Completes a_pod_succeeded outcome e e' =
    IsEnded JobStatus.succeeded Phase.synced (last_written e'.calls)
Completes only_failures outcome e e' = IsEnded JobStatus.failed Phase.failed (last_written e'.calls)
Completes running outcome e e' = (outcome ≡ done recheck) × (e' ≡ e)

module _ {S : Type 0} (c : Cluster S) (l : Library) where
  record_job_logs-status :
      (b : WerfBundle) (job : LiveJob) (e : Env S)
      → ((record_job_logs c l b job e).0.status.active_job_name ≡ b.status.active_job_name)
        × ((record_job_logs c l b job e).0.status.last_job_status ≡ b.status.last_job_status)
  unfolding record_job_logs
  record_job_logs-status b job e = ground arith

  synced-IsEnded :
      (b : WerfBundle) (tag : GoString) (e : Env S) (job_status : JobStatus)
      → b.status.active_job_name ≡ []
      → b.status.last_job_status ≡ job_status
      → IsEnded job_status Phase.synced (last_written (update_status_synced c b tag e).1.calls)
  unfolding update_status_synced update_status synced_status
  synced-IsEnded b tag e job_status p q = record {
    bundle = with_status b (synced_status b.status tag (c.now e.state).0);
    is_written = refl;
    phase_set = refl;
    released = p;
    outcome_kept = q;
  }

  failed-IsEnded :
      (b : WerfBundle) (text : GoString) (e : Env S) (job_status : JobStatus)
      → b.status.active_job_name ≡ []
      → b.status.last_job_status ≡ job_status
      → IsEnded job_status Phase.failed (last_written (update_status_failed c b text e).1.calls)
  unfolding update_status_failed update_status failed_status
  failed-IsEnded b text e job_status p q = record {
    bundle = with_status b (failed_status b.status text);
    is_written = refl;
    phase_set = refl;
    released = p;
    outcome_kept = q;
  }

  -- The end of the Job's pods decides: with a pod that succeeded the bundle is written `Synced`,
  -- with one that failed and none that succeeded it is written `Failed`, both times without an
  -- active Job and with the Job's status; otherwise nothing is called, and the Job is looked at
  -- again in five seconds.
  pub monitor_job_completion_lem :
      (b : WerfBundle) (job : LiveJob) (tag : GoString) (e : Env S)
      → let (outcome, e') = monitor_job_completion c l b job tag e in
        Completes (job_end job) outcome e e'
  unfolding monitor_job_completion ended_status
  monitor_job_completion_lem b job tag e = elim (Bool-cases (ltb_ℤ (pos 0) job.succeeded)) [
    | inl p ↦
        let (p1, p2) =
          record_job_logs-status (with_status b (ended_status b.status JobStatus.succeeded)) job
            e in
        rw (p, monitor_job_completion) (synced-IsEnded _ tag _ JobStatus.succeeded p1 p2)
    | inr p ↦ elim (Bool-cases (ltb_ℤ (pos 0) job.failed)) [
      | inl q ↦
          let (p1, p2) =
            record_job_logs-status (with_status b (ended_status b.status JobStatus.failed)) job e in
          rw (p, q, monitor_job_completion) (failed-IsEnded _ _ _ JobStatus.failed p1 p2)
      | inr q ↦ rw (p, q, monitor_job_completion) (refl, refl)
    ]
  ]

module _ {S : Type 0} (c : Cluster S) (l : Library) where
  -- The length of what goes to the status: logs that fit do so as they are, longer ones leave a
  -- reference to their ConfigMap, so that, for a Job's name of at most 253 bytes, the status holds at
  -- most 5120 bytes of them.
  store_job_logs-length :
      (b : WerfBundle) (job_name logs : GoString) (e : Env S) {kept : GoString}
      → length job_name ≤ 253
      → (store_job_logs c l b job_name logs e).0 ≡ ok kept
      → length kept ≤ 5120
  unfolding store_job_logs logs_reference config_map_name lit
  store_job_logs-length b job_name logs e {kept} h q = grind (arith, length-append, leb→le)
