-- ===== src/Examples/Reconciler.antt =====
-- controllers/werfbundle_controller.go: the theorems on the reconciler, at the server in memory.
use k8s_werf_operator_go.Base.{
  Option, none, some, [], ◌∷◌, ◌+◌, ◌≤◌, ◌≡◌, refl, arith, GoString, lit, str_eq,
}
use k8s_werf_operator_go.Base.Int.{pos}
use k8s_werf_operator_go.Base.Result.{GoError, message, network, is_not_modified}
use k8s_werf_operator_go.Api.{WerfBundle, get_target_namespace, validate_cross_namespace_deployment}
use k8s_werf_operator_go.Rbac.{validate_service_account_exists}
use k8s_werf_operator_go.Converge.JobName.{
  job_name, tag_hash, fnv32a, fnv_write, format_hex32, hex_digits, hex_digit, slice_to,
  encode_to_string, assemble_name,
}
use k8s_werf_operator_go.Converge.Limits.{must_parse_resource, get_resource_limit}
use k8s_werf_operator_go.Converge.Builder.{
  new_builder, with_scheme, with_values_resolver, build, build_for, build_args, base_args,
  finish_job, owner_references, make_job,
}
use k8s_werf_operator_go.Registry.Backoff.Bounds.{doubled}
use k8s_werf_operator_go.Controller.Cluster.{
  Env, Outcome, status_updated, done, list_tags, update, update_status, get_service_account,
  create_job,
}
use k8s_werf_operator_go.Controller.Status.{
  synced_status, with_status, update_status_syncing, syncing_status,
}
use k8s_werf_operator_go.Controller.Monitor.{recheck}
use k8s_werf_operator_go.Controller.Ensure.{
  start_job, ensure_job_exists, build_job, job_builder, launch, track_job,
}
use k8s_werf_operator_go.Controller.Polling.{handle_registry_error, poll, apply_tag, polled_status}
use k8s_werf_operator_go.Controller.Reconcile.{
  reconcile, reconcile_present, validate_service_account, reconcile_active, reconcile_validated,
  finalizer_name,
}
use k8s_werf_operator_go.Controller.SingleJob.{created_jobs, jobs_created, reconcile-one_job}
use k8s_werf_operator_go.Controller.SingleJob.NewTags.{AddsNew}
use k8s_werf_operator_go.Controller.SingleJob.Requests.{reconcile-AddsNew}
use k8s_werf_operator_go.Controller.Guards.{AllGuarded}
use k8s_werf_operator_go.Controller.Guards.Requests.{reconcile-guarded}
use k8s_werf_operator_go.Controller.Endings.{last_written}
use k8s_werf_operator_go.Controller.Applied.{IsUnderWay, polled, start_job-unwatched}
use k8s_werf_operator_go.Controller.Failures.{retried_status, retry, handle_registry_error-retries}
use k8s_werf_operator_go.Controller.Isolation.{identity, AllConcern}
use k8s_werf_operator_go.Controller.Isolation.Chain.{reconcile-AllConcern}
use k8s_werf_operator_go.Examples.Server.{
  World, server, library, server-KeepsStatus, server-KeepsSpec, server-KeepsIdentity, request,
  new_bundle, listing, start_with,
}

abbrev start : Env World
start = start_with new_bundle

-- The first reconciliation of a new bundle creates a Job and asks for a second look.
first_run : Outcome × Env World
unfolding lit reconcile reconcile_present finalizer_name update reconcile_active
    validate_cross_namespace_deployment str_eq get_target_namespace update_status
    reconcile_validated validate_service_account validate_service_account_exists get_service_account
    poll list_tags apply_tag polled_status ensure_job_exists start_job update_status_syncing
    syncing_status build_job job_builder new_builder with_scheme with_values_resolver build
    build_for build_args base_args job_name tag_hash fnv32a fnv_write format_hex32 hex_digits
    hex_digit slice_to encode_to_string assemble_name finish_job must_parse_resource
    get_resource_limit owner_references make_job launch create_job track_job
first_run = reconcile server library request start

creates_one : (jobs_created first_run.1.calls ≡ 1) × (first_run.0 ≡ done recheck)
unfolding first_run
creates_one = (refl, refl)

reconcile-one_job_example :
    jobs_created (reconcile server library request start).1.calls ≤ jobs_created start.calls + 1
reconcile-one_job_example = reconcile-one_job server library request start

reconcile-AddsNew_example :
    AddsNew new_bundle.status.last_applied_tag
      (created_jobs start.calls)
      (reconcile server library request start).1.calls
reconcile-AddsNew_example =
    reconcile-AddsNew server library server-KeepsStatus request new_bundle start refl

reconcile-guarded_example : AllGuarded (reconcile server library request start).1.calls
reconcile-guarded_example = reconcile-guarded server library server-KeepsSpec request start tt

reconcile-AllConcern_example :
    AllConcern (identity new_bundle) (reconcile server library request start).1.calls
reconcile-AllConcern_example =
    reconcile-AllConcern server library server-KeepsIdentity request new_bundle start refl tt

abbrev v2 : GoString
v2 = b'v' ∷ b'2' ∷ []

-- The start of a Job for `v2`, and what it has written last.
abbrev started : Outcome × Env World
started = start_job server library new_bundle v2 start

abbrev or_new : Option WerfBundle → WerfBundle
or_new none = new_bundle
or_new (some b) = b

abbrev launched : WerfBundle
launched = or_new (last_written started.1.calls)

-- The next run begins with no calls.
abbrev later : Env World
later = record { state = started.1.state; calls = [] }

start_job-unwatched_example :
    let (listing, listed) =
      list_tags server launched.spec.registry.url launched.status.last_etag later in
    IsUnderWay v2 launched.status
    × ((poll server library launched later).1.calls
        ≡ status_updated (
            with_status launched (
              synced_status
                (polled server library launched later).status
                v2
                (server.now listed.state).0))
          ∷ listed.calls)
unfolding first_run
start_job-unwatched_example =
    start_job-unwatched server library server-KeepsStatus new_bundle v2 start later
      (λ e. ground arith) refl refl refl refl

abbrev trouble : GoError
trouble = network (message (b'x' ∷ []))

-- The new bundle with another status.
abbrev failing_twice : WerfBundle
failing_twice = with_status new_bundle (record (new_bundle.status) { consecutive_failures = pos 2 })

handle_registry_error-retries_example :
    let written = with_status failing_twice (retried_status failing_twice.status 3 trouble 1000) in
    let (outcome, e') = handle_registry_error server library failing_twice trouble (pos 9) start in
    (e'.calls ≡ status_updated written ∷ start.calls)
    × (outcome ≡ retry (server.update_status written start.state).0 (pos (doubled 3)))
unfolding lit is_not_modified
handle_registry_error-retries_example =
    handle_registry_error-retries server library failing_twice trouble (pos 9) 2 start refl refl
      (omega arith)
