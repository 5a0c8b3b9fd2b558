-- ===== src/Controller/Caching.antt =====
-- controllers/werfbundle_controller.go: the ETag of a listing, in the statuses that a poll writes.
pub mod Requests
use k8s_werf_operator_go.Base.{
  Option, none, some, List, [], ◌∷◌, ◌≡◌, ◌≢◌, ◌∙◌, refl, arith, inl, inr, ap, subst, sym, GoString,
}
use k8s_werf_operator_go.Base.Int.{ℤ}
use k8s_werf_operator_go.Base.Result.{Result, ok, err, Result-cases}
use k8s_werf_operator_go.Api.{WerfBundle, WerfBundleStatus}
use k8s_werf_operator_go.Converge.Builder.{Job}
use k8s_werf_operator_go.Controller.Cluster.{
  Cluster, Library, LiveJob, Call, status_updated, Env, update_status, create_job,
  create_config_map, update_config_map, get_job, list_tags,
}
use k8s_werf_operator_go.Controller.Status.{
  syncing_status, synced_status, failed_status, update_status_syncing, update_status_synced,
  update_status_failed,
}
use k8s_werf_operator_go.Controller.JobLogs.{store_job_logs, record_job_logs}
use k8s_werf_operator_go.Controller.Monitor.{monitor_job_completion, ended_status}
use k8s_werf_operator_go.Controller.Ensure.{
  build_job, launch, start_job, track_job, ensure_job_exists,
}
use k8s_werf_operator_go.Controller.Polling.{wait_for_tags, apply_tag, poll, polled_status}
use k8s_werf_operator_go.Controller.Statuses.{KeepsStatus}

-- Each status that the calls write has this ETag.
abbrev pub AllStore : GoString → List Call → Type 0
AllStore etag [] = Unit
AllStore etag (status_updated b ∷ calls) = (b.status.last_etag ≡ etag) × AllStore etag calls
AllStore etag (_ ∷ calls) = AllStore etag calls

module _ {S : Type 0} (c : Cluster S) (etag : GoString) where
  update_status_syncing-AllStore :
      (b : WerfBundle) (tag : GoString) (e : Env S)
      → b.status.last_etag ≡ etag
      → AllStore etag e.calls
      → AllStore etag (update_status_syncing c b tag e).1.calls
  unfolding update_status_syncing update_status syncing_status
  update_status_syncing-AllStore b tag e k h = (k, h)

  update_status_synced-AllStore :
      (b : WerfBundle) (tag : GoString) (e : Env S)
      → b.status.last_etag ≡ etag
      → AllStore etag e.calls
      → AllStore etag (update_status_synced c b tag e).1.calls
  unfolding update_status_synced update_status synced_status
  update_status_synced-AllStore b tag e k h = (k, h)

  update_status_failed-AllStore :
      (b : WerfBundle) (text : GoString) (e : Env S)
      → b.status.last_etag ≡ etag
      → AllStore etag e.calls
      → AllStore etag (update_status_failed c b text e).1.calls
  unfolding update_status_failed update_status failed_status
  update_status_failed-AllStore b text e k h = (k, h)

module _ {S : Type 0} (c : Cluster S) (l : Library) (etag : GoString) where
  store_job_logs-AllStore :
      (b : WerfBundle) (name logs : GoString) (e : Env S)
      → AllStore etag e.calls
      → AllStore etag (store_job_logs c l b name logs e).1.calls
  unfolding store_job_logs create_config_map update_config_map
  store_job_logs-AllStore b name logs e h = ground arith

  record_job_logs-last_etag :
      (b : WerfBundle) (job : LiveJob) (e : Env S)
      → (record_job_logs c l b job e).0.status.last_etag ≡ b.status.last_etag
  unfolding record_job_logs
  record_job_logs-last_etag b job e = ground arith

  record_job_logs-AllStore :
      (b : WerfBundle) (job : LiveJob) (e : Env S)
      → AllStore etag e.calls
      → AllStore etag (record_job_logs c l b job e).1.calls
  unfolding record_job_logs
  record_job_logs-AllStore b job e h = grind (arith, store_job_logs-AllStore)

  monitor_job_completion-AllStore :
      (b : WerfBundle) (job : LiveJob) (tag : GoString) (e : Env S)
      → b.status.last_etag ≡ etag
      → AllStore etag e.calls
      → AllStore etag (monitor_job_completion c l b job tag e).1.calls
  unfolding monitor_job_completion ended_status
  monitor_job_completion-AllStore b job tag e k h = grind (
    arith, record_job_logs-last_etag, record_job_logs-AllStore, update_status_synced-AllStore,
    update_status_failed-AllStore,
  )

  wait_for_tags-AllStore :
      (b : WerfBundle) (interval : ℤ) (e : Env S)
      → b.status.last_etag ≡ etag
      → AllStore etag e.calls
      → AllStore etag (wait_for_tags c l b interval e).1.calls
  unfolding wait_for_tags
  wait_for_tags-AllStore b interval e k h = grind (arith, update_status_syncing-AllStore)

  launch-AllStore :
      (b : WerfBundle) (built : Option (Result Job)) (e : Env S)
      → b.status.last_etag ≡ etag
      → AllStore etag e.calls
      → AllStore etag (launch c l b built e).1.calls
  unfolding launch create_job update_status track_job
  launch-AllStore b none e k h = h
  launch-AllStore b (some (err x)) e k h = grind (arith, update_status_failed-AllStore)
  launch-AllStore b (some (ok job)) e k h = grind (arith, update_status_failed-AllStore)

  module _ (server : KeepsStatus c) where
    start_job-AllStore :
        (b : WerfBundle) (tag : GoString) (e : Env S)
        → b.status.last_etag ≡ etag
        → AllStore etag e.calls
        → AllStore etag (start_job c l b tag e).1.calls
    unfolding start_job build_job update_status_syncing update_status syncing_status
    start_job-AllStore b tag e k h = elim (Result-cases (update_status_syncing c b tag e).0) [
      | inl (b', q) ↦
          let kept : b'.status ≡ syncing_status b.status tag =
            server.update_status_keeps _ b' e.state q in
          let asks : b'.status.last_etag ≡ etag =
            ap (λ (st : WerfBundleStatus). st.last_etag) kept ∙ k in
          rw (q, start_job)
            (launch-AllStore b' _ _ asks (update_status_syncing-AllStore c etag b tag e k h))
      | inr (x, q) ↦ rw (q, start_job) (update_status_syncing-AllStore c etag b tag e k h)
    ]

    ensure_job_exists-AllStore :
        (b : WerfBundle) (tag : GoString) (e : Env S)
        → b.status.last_etag ≡ etag
        → AllStore etag e.calls
        → AllStore etag (ensure_job_exists c l b tag e).1.calls
    unfolding ensure_job_exists get_job
    ensure_job_exists-AllStore b tag e k h =
        grind (arith, monitor_job_completion-AllStore, start_job-AllStore)

    apply_tag-AllStore :
        (b : WerfBundle) (tag : GoString) (e : Env S)
        → b.status.last_etag ≡ etag
        → AllStore etag e.calls
        → AllStore etag (apply_tag c l b tag e).1.calls
    unfolding apply_tag
    apply_tag-AllStore b tag e k h =
        grind (arith, update_status_synced-AllStore, ensure_job_exists-AllStore)

    pub polled-AllStore :
        (b : WerfBundle) (e : Env S)
        → let listing = (list_tags c b.spec.registry.url b.status.last_etag e).0 in
          listing.error ≡ none
          → listing.new_etag ≡ etag
          → AllStore etag e.calls
          → AllStore etag (poll c l b e).1.calls
    unfolding poll list_tags polled_status
    polled-AllStore b e q k h = grind (arith, wait_for_tags-AllStore, apply_tag-AllStore)
