-- ===== src/Controller/Statuses.antt =====
-- The statuses that the reconciler writes are coherent: the error message and the time of the last
-- sync fit the phase.
use k8s_werf_operator_go.Base.{
  ℕ, Option, none, some, List, [], ◌∷◌, ◌++◌, ◌≡◌, ◌≢◌, refl, arith, subst, sym, inl, inr,
  Bool-cases, GoString, lit,
}
use k8s_werf_operator_go.Base.Int.{ℤ}
use k8s_werf_operator_go.Base.Result.{
  Result, ok, err, GoError, message, wrapped, error_text, Result-cases,
}
use k8s_werf_operator_go.Api.{
  WerfBundle, WerfBundleStatus, NamespacedName, Phase, validate_cross_namespace_deployment,
}
use k8s_werf_operator_go.Converge.Builder.{Job}
use k8s_werf_operator_go.Rbac.{validate_service_account_exists}
use k8s_werf_operator_go.Controller.Cluster.{
  Cluster, Library, LiveJob, Call, status_updated, Env, update, update_status, create_job,
  create_config_map, update_config_map, get_job, get_service_account, list_tags,
}
use k8s_werf_operator_go.Controller.Status.{
  syncing_status, synced_status, failed_status, update_status_syncing, update_status_synced,
  update_status_failed,
}
use k8s_werf_operator_go.Controller.JobLogs.{store_job_logs, record_job_logs}
use k8s_werf_operator_go.Controller.Monitor.{monitor_job_completion}
use k8s_werf_operator_go.Controller.Ensure.{
  build_job, launch, start_job, track_job, ensure_job_exists,
}
use k8s_werf_operator_go.Controller.Polling.{
  handle_registry_error, exhausted_message, wait_for_tags, apply_tag, poll, polled_status,
  count_failure,
}
use k8s_werf_operator_go.Controller.Reconcile.{
  validate_service_account, reconcile_validated, reconcile_active, reconcile_deleted,
  reconcile_present, reconcile, finalizer_name, with_finalizers,
}
pub mod Chain

-- A synced bundle has a time of its last sync and no error; a syncing one has neither; a failed
-- one says why.
pub record IsCoherent (st : WerfBundleStatus) : Type 0 where
  pub synced_clean :
      st.phase ≡ Phase.synced → (st.last_error_message ≡ []) × (st.last_sync_time ≢ none)
  pub syncing_clean :
      st.phase ≡ Phase.syncing → (st.last_error_message ≡ []) × (st.last_sync_time ≡ none)
  pub failed_explained : st.phase ≡ Phase.failed → st.last_error_message ≢ []

-- Each status that the calls write is coherent.
abbrev pub AllCoherent : List Call → Type 0
AllCoherent [] = Unit
AllCoherent (status_updated b ∷ calls) = IsCoherent b.status × AllCoherent calls
AllCoherent (_ ∷ calls) = AllCoherent calls

syncing_status-IsCoherent :
    (st : WerfBundleStatus) (tag : GoString) → IsCoherent (syncing_status st tag)
unfolding syncing_status
syncing_status-IsCoherent st tag = ground arith

synced_status-IsCoherent :
    (st : WerfBundleStatus) (tag : GoString) (now : ℕ) → IsCoherent (synced_status st tag now)
unfolding synced_status
synced_status-IsCoherent st tag now = ground arith

failed_status-IsCoherent :
    (st : WerfBundleStatus) (text : GoString) → text ≢ [] → IsCoherent (failed_status st text)
unfolding failed_status
failed_status-IsCoherent st text h = ground arith

module _ {S : Type 0} (c : Cluster S) where
  pub update_status_syncing-AllCoherent :
      (b : WerfBundle) (tag : GoString) (e : Env S)
      → AllCoherent e.calls
      → AllCoherent (update_status_syncing c b tag e).1.calls
  unfolding update_status_syncing update_status
  update_status_syncing-AllCoherent b tag e h = (syncing_status-IsCoherent b.status tag, h)

  pub update_status_synced-AllCoherent :
      (b : WerfBundle) (tag : GoString) (e : Env S)
      → AllCoherent e.calls
      → AllCoherent (update_status_synced c b tag e).1.calls
  unfolding update_status_synced update_status
  update_status_synced-AllCoherent b tag e h = (synced_status-IsCoherent b.status tag _, h)

  pub update_status_failed-AllCoherent :
      (b : WerfBundle) (text : GoString) (e : Env S)
      → text ≢ []
      → AllCoherent e.calls
      → AllCoherent (update_status_failed c b text e).1.calls
  unfolding update_status_failed update_status
  update_status_failed-AllCoherent b text e m h = (failed_status-IsCoherent b.status text m, h)

module _ {S : Type 0} (c : Cluster S) (l : Library) where
  store_job_logs-AllCoherent :
      (b : WerfBundle) (name logs : GoString) (e : Env S)
      → AllCoherent e.calls
      → AllCoherent (store_job_logs c l b name logs e).1.calls
  unfolding store_job_logs create_config_map update_config_map
  store_job_logs-AllCoherent b name logs e h = ground arith

  record_job_logs-AllCoherent :
      (b : WerfBundle) (job : LiveJob) (e : Env S)
      → AllCoherent e.calls
      → AllCoherent (record_job_logs c l b job e).1.calls
  unfolding record_job_logs
  record_job_logs-AllCoherent b job e h = grind (arith, store_job_logs-AllCoherent)

  pub monitor_job_completion-AllCoherent :
      (b : WerfBundle) (job : LiveJob) (tag : GoString) (e : Env S)
      → AllCoherent e.calls
      → AllCoherent (monitor_job_completion c l b job tag e).1.calls
  unfolding monitor_job_completion lit
  monitor_job_completion-AllCoherent b job tag e h = grind (
    arith, record_job_logs-AllCoherent, update_status_synced-AllCoherent,
    update_status_failed-AllCoherent,
  )

-- What the API server does with a status, as its documentation has it: an update of the status is
-- stored and answered as it is given, and an update of the finalizers of a bundle that was just read
-- leaves the status as it was read (a bundle that changed since then is refused as a conflict).
pub record KeepsStatus {S : Type 0} (c : Cluster S) : Type 0 where
  pub update_keeps :
      (k : NamespacedName) (s : S) (b b' : WerfBundle) (fs : List GoString)
      → (c.get_bundle k s).0 ≡ ok b
      → (c.update (with_finalizers b fs) (c.get_bundle k s).1).0 ≡ ok b'
      → b'.status ≡ b.status
  pub update_status_keeps :
      (b b' : WerfBundle) (s : S) → (c.update_status b s).0 ≡ ok b' → b'.status ≡ b.status

pub track_job-IsCoherent :
    (b : WerfBundle) (job : Job) → IsCoherent b.status → IsCoherent (track_job b job).status
unfolding track_job
track_job-IsCoherent b job h = ground arith

polled_status-IsCoherent :
    (st : WerfBundleStatus) (etag : GoString) → IsCoherent st → IsCoherent (polled_status st etag)
unfolding polled_status
polled_status-IsCoherent st etag h = ground arith

count_failure-IsCoherent :
    (st : WerfBundleStatus) (now : ℕ) → IsCoherent st → IsCoherent (count_failure st now)
unfolding count_failure
count_failure-IsCoherent st now h = ground arith

pub exhausted_message-ne-nil : (x : GoError) → exhausted_message x ≢ []
unfolding exhausted_message lit
exhausted_message-ne-nil x = cc

pub update_status_syncing-returns :
    {S : Type 0} (c : Cluster S) (server : KeepsStatus c) (b : WerfBundle) (tag : GoString)
    (e : Env S) {b' : WerfBundle}
    → (update_status_syncing c b tag e).0 ≡ ok b'
    → IsCoherent b'.status
unfolding update_status_syncing update_status
update_status_syncing-returns c server b tag e {b'} q =
    subst IsCoherent (sym (server.update_status_keeps _ b' e.state q))
      (syncing_status-IsCoherent b.status tag)

pub update-AllCoherent :
    {S : Type 0} (c : Cluster S) (b : WerfBundle) (e : Env S)
    → AllCoherent e.calls
    → AllCoherent (update c b e).1.calls
unfolding update
update-AllCoherent c b e h = h
