-- ===== src/Controller/Panics.antt =====
-- controllers/werfbundle_controller.go: what can panic in a reconciliation.
pub mod Chain
use k8s_werf_operator_go.Base.{
  ℕ, Bool, true, false, Option, none, some, List, ◌≡◌, ◌≢◌, ◌≤◌, ◌<◌, ◌^◌, ◌⊎◌, inl, inr, refl, sym,
  subst, ap, ◌∙◌, arith, GoString, get_last?, Option-cases,
}
use k8s_werf_operator_go.Base.Int.{ℤ, pos, negsuc}
use k8s_werf_operator_go.Base.Result.{Result, ok, err, GoError, Result-cases}
use k8s_werf_operator_go.Api.{WerfBundle, WerfBundleSpec, NamespacedName, get_target_namespace}
use k8s_werf_operator_go.Registry.Backoff.{add_jitter}
use k8s_werf_operator_go.Registry.Backoff.Bounds.{add_jitter-panics}
use k8s_werf_operator_go.Converge.JobName.{fnv32a, job_name}
use k8s_werf_operator_go.Converge.JobName.Names.{job_name_panics}
use k8s_werf_operator_go.Converge.Limits.{
  Quantity, cpu, memory, get_resource_limit, must_parse_resource,
}
use k8s_werf_operator_go.Converge.Builder.{
  Job, Builder, build, build_for, build_args, finish_job, owner_references, new_builder,
  with_scheme, with_values_resolver,
}
use k8s_werf_operator_go.Controller.Cluster.{
  Cluster, Library, LiveJob, Env, Outcome, done, failed, panicked, silently, update, update_status,
  list_tags,
}
use k8s_werf_operator_go.Controller.Status.{
  with_status, update_status_syncing, update_status_synced, update_status_failed,
}
use k8s_werf_operator_go.Controller.Monitor.{finish, monitor_job_completion}
use k8s_werf_operator_go.Controller.Ensure.{
  build_job, job_builder, launch, start_job, ensure_job_exists,
}
use k8s_werf_operator_go.Controller.Polling.{
  requeue_jittered, poll_interval, polled_status, handle_registry_error, wait_for_tags, apply_tag,
  poll,
}
use k8s_werf_operator_go.Controller.Reconcile.{
  reconcile_validated, reconcile_active, reconcile_deleted, reconcile_present, reconcile,
  with_finalizers, finalizer_name,
}
use k8s_werf_operator_go.Controller.Guards.{KeepsSpec}

abbrev pub is_panic : Outcome → Bool
is_panic panicked = true
is_panic _ = false

-- Intervals that can be given jitter: those from 10 nanoseconds on, and those that are not positive.
abbrev pub IsSoundInterval : ℤ → Type 0
IsSoundInterval interval = (i : ℕ) → interval ≡ pos i → (i < 2 ^ 63) × ((i ≡ 0) ⊎ (10 ≤ i))

-- A spec with such an interval, whose limits are quantities.
pub record IsSound (l : Library) (spec : WerfBundleSpec) : Type 0 where
  pub interval : IsSoundInterval (poll_interval l spec.registry.poll_interval)
  pub cpu_limit : Quantity
  pub cpu_parses : l.parse_quantity (get_resource_limit spec.converge cpu) ≡ ok cpu_limit
  pub memory_limit : Quantity
  pub memory_parses : l.parse_quantity (get_resource_limit spec.converge memory) ≡ ok memory_limit

-- The latest tag of the registry is none of the one in sixteen with a small hash.
abbrev pub HasLargeHashes : {S : Type 0} → Cluster S → Type 0
HasLargeHashes {S} c =
    (url last_etag tag : GoString) (s : S)
    → get_last? ((c.registry.list_tags_with_etag url last_etag s).0.tags) ≡ some tag
    → 2 ^ 28 ≤ fnv32a tag

pub requeue_jittered-calm :
    (intn : ℕ → ℕ) (interval : ℤ)
    → IsSoundInterval interval
    → is_panic (requeue_jittered (add_jitter intn interval)) ≡ false
unfolding add_jitter
requeue_jittered-calm intn (negsuc n) sound = refl
requeue_jittered-calm intn (pos i) sound =
    let (bound, range) = sound i refl in
    elim (Option-cases (add_jitter intn (pos i))) [
      | inl q ↦
          let (low, high) = (add_jitter-panics intn i bound).0 q in
          absurd (ground (arith, range, low, high))
      | inr (j, q) ↦ rw q refl
    ]

pub finish-calm : (r : Result WerfBundle) → is_panic (finish r) ≡ false
finish-calm (ok b) = refl
finish-calm (err x) = refl

module _ {S : Type 0} (c : Cluster S) (l : Library) where
  finish_job-returns :
      (builder : Builder S) (b : WerfBundle) (tag name : GoString) (args : List GoString)
      → IsSound l b.spec
      → finish_job l.parse_quantity builder b tag name args ≢ none
  unfolding finish_job must_parse_resource
  finish_job-returns builder b tag name args sound q =
      ground (arith, sound.cpu_parses, sound.memory_parses, q)

  pub build_job-returns :
      (b : WerfBundle) (tag : GoString) (e : Env S)
      → IsSound l b.spec
      → 2 ^ 28 ≤ fnv32a tag
      → (r : Result Job) × ((build_job c l b tag e).0 ≡ some r)
  unfolding build_job build build_for job_builder new_builder with_scheme with_values_resolver
  build_job-returns b tag e sound large = elim (Option-cases (build_job c l b tag e).0) [
    | inl q ↦
        let named = job_name_panics b.meta.name tag (c.rand_read e.state).0 in
        absurd (grind (arith, finish_job-returns, named))
    | inr r ↦ r
  ]

  pub monitor_job_completion-calm :
      (b : WerfBundle) (job : LiveJob) (tag : GoString) (e : Env S)
      → is_panic (monitor_job_completion c l b job tag e).0 ≡ false
  unfolding monitor_job_completion
  monitor_job_completion-calm b job tag e = grind (arith, finish-calm)

  pub launch-calm :
      (b : WerfBundle) (r : Result Job) (e : Env S) → is_panic (launch c l b (some r) e).0 ≡ false
  unfolding launch
  launch-calm b (err x) e = grind (arith, finish-calm)
  launch-calm b (ok job) e = grind (arith, finish-calm)
