-- ===== src/Controller/Guards.antt =====
-- What the reconciler has established when it creates a Job.
use mathlib.Core.List.{Memᴰ}
use k8s_werf_operator_go.Base.{
  ℕ, Option, none, some, List, [], ◌∷◌, ◌++◌, ◌≡◌, ◌≢◌, refl, arith, GoString, lit, subst, sym, inl,
  inr, ap, is_empty, Bool-cases, get_last?, Bool, true, false, Option-cases, ◌∙◌,
}
use k8s_werf_operator_go.Base.Int.{ℤ}
use k8s_werf_operator_go.Base.Result.{Result, ok, err, GoError, Result-cases}
use k8s_werf_operator_go.Api.{WerfBundle, NamespacedName, get_target_namespace}
use k8s_werf_operator_go.Registry.Client.{ListResult}
use k8s_werf_operator_go.Converge.Builder.{
  Job, Builder, build, build_for, finish_job, make_job, job_labels, owner_references, new_builder,
  with_scheme, with_values_resolver,
}
use k8s_werf_operator_go.Converge.Limits.{Quantity}
use k8s_werf_operator_go.Rbac.{validate_service_account_exists}
use k8s_werf_operator_go.Controller.Cluster.{
  Cluster, Library, LiveJob, Call, job_created, service_account_read, tags_listed, Env, update,
  update_status, create_job, create_config_map, update_config_map, get_job, get_service_account,
  list_tags,
}
use k8s_werf_operator_go.Controller.Status.{
  update_status_syncing, update_status_synced, update_status_failed,
}
use k8s_werf_operator_go.Controller.JobLogs.{store_job_logs, record_job_logs}
use k8s_werf_operator_go.Controller.Monitor.{monitor_job_completion}
use k8s_werf_operator_go.Controller.Polling.{handle_registry_error, wait_for_tags}
use k8s_werf_operator_go.Controller.Reconcile.{validate_service_account}
use k8s_werf_operator_go.Controller.Ensure.{
  job_builder, build_job, launch, start_job, ensure_job_exists,
}
pub mod Updates
pub mod Chain
pub mod Requests

-- The name and namespace of the ServiceAccount that a Job runs with.
abbrev pub account_of : GoString → GoString → NamespacedName
account_of name namespace = record { name = name; namespace = namespace }

-- Of the calls before the creation of a Job: its ServiceAccount, if it names one, was found in the
-- Job's namespace; and the Job is for the last tag of a listing that the registry answered.
pub record IsGuarded (job : Job) (calls : List Call) : Type 0 where
  pub account_found :
      job.service_account_name ≢ []
      → Memᴰ (service_account_read (account_of job.service_account_name job.namespace) true) calls
  pub bundle_name : GoString
  pub tag : GoString
  pub listing : ListResult
  pub listed : Memᴰ (tags_listed listing) calls
  pub succeeded : listing.error ≡ none
  pub latest : get_last? listing.tags ≡ some tag
  pub labelled : job.labels ≡ job_labels bundle_name tag

abbrev pub AllGuarded : List Call → Type 0
AllGuarded [] = Unit
AllGuarded (job_created job ∷ calls) = IsGuarded job calls × AllGuarded calls
AllGuarded (_ ∷ calls) = AllGuarded calls

-- A built Job runs in the target namespace, with the ServiceAccount of the bundle and labels for
-- the tag.
pub record IsJobOf (b : WerfBundle) (tag : GoString) (job : Job) : Type 0 where
  pub account : job.service_account_name ≡ b.spec.converge.service_account_name
  pub target : job.namespace ≡ get_target_namespace b.spec.converge b.meta.namespace
  pub tagged : job.labels ≡ job_labels b.meta.name tag

finish_job-IsJobOf :
    {S : Type 0} (parse : GoString → Result Quantity) (builder : Builder S) (b : WerfBundle)
    (tag name : GoString) (args : List GoString) {job : Job}
    → finish_job parse builder b tag name args ≡ some (ok job)
    → IsJobOf b tag job
unfolding finish_job make_job
finish_job-IsJobOf parse builder b tag name args h = ground arith

pub build_job-IsJobOf :
    {S : Type 0} (c : Cluster S) (l : Library) (b : WerfBundle) (tag : GoString) (e : Env S)
    {job : Job}
    → (build_job c l b tag e).0 ≡ some (ok job)
    → IsJobOf b tag job
unfolding build_job build build_for job_builder
build_job-IsJobOf c l b tag e {job} h = grind (arith, finish_job-IsJobOf)

-- An update of the status leaves the spec and the namespace of the bundle as they were given, as
-- the documentation of the status subresource has it.
pub record KeepsSpec {S : Type 0} (c : Cluster S) : Type 0 where
  pub spec_kept : (b b' : WerfBundle) (s : S) → (c.update_status b s).0 ≡ ok b' → b'.spec ≡ b.spec
  pub namespace_kept :
      (b b' : WerfBundle) (s : S)
      → (c.update_status b s).0 ≡ ok b'
      → b'.meta.namespace ≡ b.meta.namespace

-- The account of the bundle, if it names one, was found.
abbrev pub HasAccount : WerfBundle → List Call → Type 0
HasAccount b calls =
    b.spec.converge.service_account_name ≢ []
    → Memᴰ
        (service_account_read
          (account_of b.spec.converge.service_account_name
            (get_target_namespace b.spec.converge b.meta.namespace))
          true)
        calls

-- The tag is the last of a listing.
pub record HasTag (tag : GoString) (calls : List Call) : Type 0 where
  pub listing : ListResult
  pub listed : Memᴰ (tags_listed listing) calls
  pub succeeded : listing.error ≡ none
  pub latest : get_last? listing.tags ≡ some tag

pub HasTag-cons :
    {tag : GoString} {calls : List Call} (x : Call) → HasTag tag calls → HasTag tag (x ∷ calls)
HasTag-cons x h = record {
  listing = h.listing;
  listed = Memᴰ.tail h.listed;
  succeeded = h.succeeded;
  latest = h.latest;
}

pub HasAccount-kept :
    (b b' : WerfBundle) {calls : List Call} (x : Call)
    → b'.spec ≡ b.spec
    → b'.meta.namespace ≡ b.meta.namespace
    → HasAccount b calls
    → HasAccount b' (x ∷ calls)
HasAccount-kept b b' {calls} x p q h named = rw (p, q) (Memᴰ.tail (h (rw p at named)))

pub IsJobOf-IsGuarded :
    (b : WerfBundle) (tag : GoString) (job : Job) (calls : List Call)
    → IsJobOf b tag job
    → HasAccount b calls
    → HasTag tag calls
    → IsGuarded job calls
IsJobOf-IsGuarded b tag job calls j a t = record {
  account_found = λ named. rw (j.account, j.target) (a (rw j.account at named));
  bundle_name = b.meta.name;
  tag = tag;
  listing = t.listing;
  listed = t.listed;
  succeeded = t.succeeded;
  latest = t.latest;
  labelled = j.tagged;
}
