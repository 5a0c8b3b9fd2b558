-- ===== src/Controller/Invariants/Chain.antt =====
-- A property that each call keeps is kept by `Reconcile`.
use k8s_werf_operator_go.Base.{Option, none, some, List, [], ◌∷◌, arith, GoString, inl, inr}
use k8s_werf_operator_go.Base.Int.{ℤ}
use k8s_werf_operator_go.Base.Result.{Result, ok, err, GoError, Result-cases}
use k8s_werf_operator_go.Api.{WerfBundle, NamespacedName, ValuesSource, get_target_namespace}
use k8s_werf_operator_go.Rbac.{validate_service_account_exists}
use k8s_werf_operator_go.Converge.Builder.{
  Job, build, build_for, build_args, new_builder, with_scheme, with_values_resolver,
}
use k8s_werf_operator_go.Converge.Logs.{capture_job_logs}
use k8s_werf_operator_go.Controller.Cluster.{
  Cluster, Library, LiveJob, Env, Call, silently, LogConfigMap, create_config_map, create_job,
}
use k8s_werf_operator_go.Controller.Status.{
  with_status, update_status_syncing, update_status_synced, update_status_failed,
}
use k8s_werf_operator_go.Controller.JobLogs.{store_job_logs, record_job_logs, config_map_name}
use k8s_werf_operator_go.Controller.Monitor.{monitor_job_completion}
use k8s_werf_operator_go.Controller.Ensure.{
  build_job, job_builder, track_job, launch, start_job, ensure_job_exists,
}
use k8s_werf_operator_go.Controller.Polling.{handle_registry_error, wait_for_tags, apply_tag, poll}
use k8s_werf_operator_go.Controller.Reconcile.{
  validate_service_account, reconcile_validated, reconcile_active, reconcile_deleted,
  reconcile_present, reconcile, with_finalizers, finalizer_name,
}
use k8s_werf_operator_go.Controller.Superseded.{active_job_key}
use k8s_werf_operator_go.Controller.Invariants.{Keeps, capture_job_logs-keeps, resolve_values-keeps}

module _ {S : Type 0} {c : Cluster S} (l : Library) {I : Env S → Type 0} (k : Keeps c I) where
  update_status_syncing-keeps :
      (b : WerfBundle) (tag : GoString) (e : Env S) → I e → I (update_status_syncing c b tag e).1
  unfolding update_status_syncing
  update_status_syncing-keeps b tag e h = k.update_status_keeps _ e h

  update_status_synced-keeps :
      (b : WerfBundle) (tag : GoString) (e : Env S) → I e → I (update_status_synced c b tag e).1
  unfolding update_status_synced
  update_status_synced-keeps b tag e h = k.update_status_keeps _ _ (k.now_keeps e h)

  update_status_failed-keeps :
      (b : WerfBundle) (text : GoString) (e : Env S) → I e → I (update_status_failed c b text e).1
  unfolding update_status_failed
  update_status_failed-keeps b text e h = k.update_status_keeps _ e h

  store_job_logs-keeps :
      (b : WerfBundle) (name logs : GoString) (e : Env S)
      → I e
      → I (store_job_logs c l b name logs e).1
  unfolding store_job_logs
  store_job_logs-keeps b name logs e h =
      let cm : LogConfigMap = record {
        name = config_map_name name;
        namespace = b.meta.namespace;
        output = logs;
      } in
      let created = k.create_config_map_keeps cm e h in
      ground (arith, h, created, k.update_config_map_keeps cm (create_config_map c cm e).1 created)

  captured-keeps :
      (job : LiveJob) (e : Env S)
      → I e
      → I (silently (capture_job_logs c.logs job.name job.namespace) e).1
  captured-keeps job e h =
      capture_job_logs-keeps (k.reads_keep e.calls) job.namespace job.name e.state h

  record_job_logs-keeps :
      (b : WerfBundle) (job : LiveJob) (e : Env S) → I e → I (record_job_logs c l b job e).1
  unfolding record_job_logs
  record_job_logs-keeps b job e h = grind (arith, captured-keeps, store_job_logs-keeps)

  pub monitor_job_completion-keeps :
      (b : WerfBundle) (job : LiveJob) (tag : GoString) (e : Env S)
      → I e
      → I (monitor_job_completion c l b job tag e).1
  unfolding monitor_job_completion
  monitor_job_completion-keeps b job tag e h =
      grind (arith, record_job_logs-keeps, update_status_synced-keeps, update_status_failed-keeps)

  build_args-keeps :
      (b : WerfBundle) (tag : GoString) (sources : List ValuesSource) (calls : List Call) (s : S)
      → I (record { state = s; calls = calls })
      → I (record {
        state = (build_args b tag sources (job_builder c l b).values_resolver s).1;
        calls = calls;
      })
  unfolding build_args job_builder new_builder with_scheme with_values_resolver
  build_args-keeps b tag [] calls s h = h
  build_args-keeps b tag (source ∷ sources) calls s h =
      let namespace = b.meta.namespace in
      let target_namespace = get_target_namespace b.spec.converge namespace in
      let resolved =
        resolve_values-keeps (k.reads_keep calls) l.parse_yaml namespace target_namespace
          (source ∷ sources) s h in
      ground (arith, resolved)

  pub build_job-keeps :
      (b : WerfBundle) (tag : GoString) (e : Env S) → I e → I (build_job c l b tag e).1
  unfolding build_job build build_for job_builder
  build_job-keeps b tag e h =
      let drawn = k.rand_read_keeps e h in
      let args =
        build_args-keeps b tag b.spec.converge.values_from e.calls (c.rand_read e.state).1 drawn in
      ground (arith, drawn, args)

  pub launch-keeps :
      (b : WerfBundle) (built : Option (Result Job)) (e : Env S) → I e → I (launch c l b built e).1
  unfolding launch
  launch-keeps b none e h = h
  launch-keeps b (some (err x)) e h = grind (arith, update_status_failed-keeps)
  launch-keeps b (some (ok job)) e h =
      let created = k.create_job_keeps job e h in
      let tracked = k.update_status_keeps (track_job b job) (create_job c job e).1 created in
      grind (arith, created, tracked, update_status_failed-keeps)

  pub start_job-keeps :
      (b : WerfBundle) (tag : GoString) (e : Env S) → I e → I (start_job c l b tag e).1
  unfolding start_job
  start_job-keeps b tag e h = elim (Result-cases (update_status_syncing c b tag e).0) [
    | inl (b', q) ↦
        let syncing = update_status_syncing-keeps b tag e h in
        rw (q, start_job) (launch-keeps b' _ _ (build_job-keeps b' tag _ syncing))
    | inr (x, q) ↦ rw (q, start_job) (update_status_syncing-keeps b tag e h)
  ]

  ensure_job_exists-keeps :
      (b : WerfBundle) (tag : GoString) (e : Env S) → I e → I (ensure_job_exists c l b tag e).1
  unfolding ensure_job_exists
  ensure_job_exists-keeps b tag e h =
      let read = k.get_job_keeps (active_job_key b) e h in
      grind (arith, read, monitor_job_completion-keeps, start_job-keeps)

  handle_registry_error-keeps :
      (b : WerfBundle) (x : GoError) (interval : ℤ) (e : Env S)
      → I e
      → I (handle_registry_error c l b x interval e).1
  unfolding handle_registry_error
  handle_registry_error-keeps b x interval e h =
      let drawn = k.rand_intn_keeps e h in
      let clock = k.now_keeps e h in
      grind (arith, drawn, clock, update_status_failed-keeps, update_status_syncing-keeps)

  wait_for_tags-keeps :
      (b : WerfBundle) (interval : ℤ) (e : Env S) → I e → I (wait_for_tags c l b interval e).1
  unfolding wait_for_tags
  wait_for_tags-keeps b interval e h =
      let syncing = update_status_syncing-keeps b [] e h in
      let later = k.rand_intn_keeps (update_status_syncing c b [] e).1 syncing in
      ground (arith, syncing, later, k.rand_intn_keeps e h)

  apply_tag-keeps :
      (b : WerfBundle) (tag : GoString) (e : Env S) → I e → I (apply_tag c l b tag e).1
  unfolding apply_tag
  apply_tag-keeps b tag e h = grind (arith, update_status_synced-keeps, ensure_job_exists-keeps)

  poll-keeps : (b : WerfBundle) (e : Env S) → I e → I (poll c l b e).1
  unfolding poll
  poll-keeps b e h =
      let listed = k.list_tags_keeps b.spec.registry.url b.status.last_etag e h in
      grind (arith, listed, handle_registry_error-keeps, wait_for_tags-keeps, apply_tag-keeps)

  validate_service_account-keeps :
      (b : WerfBundle) (e : Env S) → I e → I (validate_service_account c l b e).1
  unfolding validate_service_account validate_service_account_exists
  validate_service_account-keeps b e h =
      let account = b.spec.converge.service_account_name in
      let namespace = get_target_namespace b.spec.converge b.meta.namespace in
      let read =
        k.get_service_account_keeps (record { name = account; namespace = namespace }) e h in
      grind (arith, read, update_status_failed-keeps)

  reconcile_validated-keeps : (b : WerfBundle) (e : Env S) → I e → I (reconcile_validated c l b e).1
  unfolding reconcile_validated
  reconcile_validated-keeps b e h = grind (arith, validate_service_account-keeps, poll-keeps)

  reconcile_active-keeps : (b : WerfBundle) (e : Env S) → I e → I (reconcile_active c l b e).1
  unfolding reconcile_active
  reconcile_active-keeps b e h =
      let target_namespace = get_target_namespace b.spec.converge b.meta.namespace in
      let resolved =
        k.update_status_keeps
          (with_status b (record (b.status) { resolved_target_namespace = target_namespace })) e
          h in
      grind (arith, resolved, update_status_failed-keeps, reconcile_validated-keeps)

  reconcile_deleted-keeps : (b : WerfBundle) (e : Env S) → I e → I (reconcile_deleted c l b e).1
  unfolding reconcile_deleted
  reconcile_deleted-keeps b e h = ground (
    arith,
    h,
    k.update_keeps (with_finalizers b (l.remove_finalizer b.meta.finalizers finalizer_name)) e h,
  )

  reconcile_present-keeps : (b : WerfBundle) (e : Env S) → I e → I (reconcile_present c l b e).1
  unfolding reconcile_present
  reconcile_present-keeps b e h =
      let held =
        k.update_keeps (with_finalizers b (l.add_finalizer b.meta.finalizers finalizer_name)) e h in
      grind (arith, held, reconcile_active-keeps)

  -- A property of the environment that each call keeps is kept by a reconciliation.
  pub reconcile-keeps : (request : NamespacedName) (e : Env S) → I e → I (reconcile c l request e).1
  unfolding reconcile
  reconcile-keeps request e h =
      let fetched = k.get_bundle_keeps request e h in
      grind (arith, fetched, reconcile_present-keeps, reconcile_deleted-keeps)
