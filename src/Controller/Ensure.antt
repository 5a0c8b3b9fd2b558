-- ===== src/Controller/Ensure.antt =====
-- controllers/werfbundle_controller.go: `ensureJobExists`.
use k8s_werf_operator_go.Base.{
  Option, none, some, [], ◌++◌, if◌then◌else◌, GoString, lit, is_empty, not,
}
use k8s_werf_operator_go.Base.Result.{Result, ok, err, is_not_found, error_text}
use k8s_werf_operator_go.Api.{WerfBundle, JobStatus, get_target_namespace}
use k8s_werf_operator_go.Values.Resolver.{resolve_values}
use k8s_werf_operator_go.Converge.Builder.{
  Builder, Job, new_builder, with_scheme, with_values_resolver, build,
}
use k8s_werf_operator_go.Controller.Cluster.{
  Cluster, Library, M, silently, Outcome, done, failed, panicked, get_job, create_job,
  update_status,
}
use k8s_werf_operator_go.Controller.Status.{
  with_status, update_status_syncing, update_status_failed,
}
use k8s_werf_operator_go.Controller.Monitor.{recheck, finish, monitor_job_completion}

-- The status once the Job is there.
unfoldable pub track_job : WerfBundle → Job → WerfBundle
track_job b job =
    with_status b
      (record (b.status) { active_job_name = job.name; last_job_status = JobStatus.running })

module _ {S : Type 0} (c : Cluster S) (l : Library) where
  -- The builder that `ensureJobExists` sets up.
  unfoldable pub job_builder : WerfBundle → Builder S
  unfolding new_builder with_scheme with_values_resolver
  job_builder b =
      with_values_resolver
        (λ sources bundle_ns target_ns.
          resolve_values l.parse_yaml c.values bundle_ns target_ns sources)
        (with_scheme l.object_kinds (new_builder b))

  unfoldable pub build_job : WerfBundle → GoString → M S (Option (Result Job))
  build_job b latest_tag = silently (build c.rand_read l.parse_quantity (job_builder b) latest_tag)

  -- From the built Job on.
  unfoldable pub launch : WerfBundle → Option (Result Job) → M S Outcome
  launch b none e = (panicked, e)
  launch b (some (err x)) e =
      let (r, e') = update_status_failed c b (lit "Failed to build Job: " ++ error_text x) e in
      (finish r, e')
  launch b (some (ok job)) e =
      let created = create_job c job e in
      elim created.0 [
        | some x ↦
            let (r, e') =
              update_status_failed c b (lit "Failed to create Job: " ++ error_text x) created.1 in
            (finish r, e')
        | none ↦
            let tracked = update_status c (track_job b job) created.1 in
            elim tracked.0 [ err x ↦ (failed x, tracked.1) | ok b' ↦ (done recheck, tracked.1) ]
      ]

  -- From "No active job" on.
  unfoldable pub start_job : WerfBundle → GoString → M S Outcome
  start_job b latest_tag e =
      let syncing = update_status_syncing c b latest_tag e in
      elim syncing.0 [
        | err x ↦ (failed x, syncing.1)
        | ok b' ↦ let built = build_job b' latest_tag syncing.1 in launch b' built.0 built.1
      ]

  unfoldable pub ensure_job_exists : WerfBundle → GoString → M S Outcome
  ensure_job_exists b latest_tag e =
      let active =
        get_job c
          (record {
            name = b.status.active_job_name;
            namespace = get_target_namespace b.spec.converge b.meta.namespace;
          })
          e in
      if not (is_empty b.status.active_job_name)
      then elim active.0 [
        | ok job ↦ monitor_job_completion c l b job latest_tag active.1
        | err x ↦
            if not (is_not_found x)
            then (failed x, active.1)
            else start_job (with_status b (record (b.status) { active_job_name = [] })) latest_tag
                active.1
      ]
      else start_job b latest_tag e
