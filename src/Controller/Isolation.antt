-- ===== src/Controller/Isolation.antt =====
-- What the calls of a reconciliation may be about: the bundle that was read, and nothing else.
pub mod Updates
pub mod Chain
use k8s_werf_operator_go.Base.{Option, some, List, [], ◌∷◌, ◌≡◌, refl, GoString}
use k8s_werf_operator_go.Base.Result.{ok}
use k8s_werf_operator_go.Api.{WerfBundle, WerfBundleSpec, get_target_namespace}
use k8s_werf_operator_go.Converge.Builder.{
  Job, OwnerReference, build, job_labels, new_builder, with_scheme, with_values_resolver,
}
use k8s_werf_operator_go.Converge.Builder.Jobs.{build-IsConvergeJob}
use k8s_werf_operator_go.Controller.Cluster.{
  Cluster, Library, Call, Env, updated, status_updated, job_created, config_map_created,
  config_map_updated, service_account_read, tags_listed, job_read,
}
use k8s_werf_operator_go.Controller.Ensure.{build_job, job_builder}
use k8s_werf_operator_go.Controller.Guards.{account_of}

-- Of a bundle, what the operator must not change.
pub record Identity : Type 0 where
  pub name : GoString
  pub namespace : GoString
  pub uid : GoString
  pub spec : WerfBundleSpec

abbrev pub identity : WerfBundle → Identity
identity b = record {
  name = b.meta.name;
  namespace = b.meta.namespace;
  uid = b.meta.uid;
  spec = b.spec;
}

-- The namespace of the Jobs.
abbrev pub target_of : Identity → GoString
target_of i = get_target_namespace i.spec.converge i.namespace

abbrev pub owner_as : GoString → GoString → Identity → List OwnerReference
owner_as api_version kind i =
    record { api_version = api_version; kind = kind; name = i.name; uid = i.uid } ∷ []

-- A Job in the bundle's target namespace, with the ServiceAccount of the bundle, labels with its
-- name, and it as the one owner.
pub record IsOwnJob (i : Identity) (job : Job) : Type 0 where
  pub in_target : job.namespace ≡ target_of i
  pub account : job.service_account_name ≡ i.spec.converge.service_account_name
  pub tag : GoString
  pub labelled : job.labels ≡ job_labels i.name tag
  pub api_version : GoString
  pub kind : GoString
  pub owned : job.owner_references ≡ owner_as api_version kind i

abbrev pub Concerns : Identity → Call → Type 0
Concerns i (updated b) = identity b ≡ i
Concerns i (status_updated b) = identity b ≡ i
Concerns i (job_created job) = IsOwnJob i job
Concerns i (config_map_created m) = m.namespace ≡ i.namespace
Concerns i (config_map_updated m) = m.namespace ≡ i.namespace
Concerns i (service_account_read key found) =
    key ≡ account_of i.spec.converge.service_account_name (target_of i)
Concerns i (tags_listed listing) = Unit
Concerns i (job_read key) = key.namespace ≡ target_of i

abbrev pub AllConcern : Identity → List Call → Type 0
AllConcern i [] = Unit
AllConcern i (call ∷ calls) = Concerns i call × AllConcern i calls

-- An update answers with the bundle that it was given, whatever else the server has changed.
pub record KeepsIdentity {S : Type 0} (c : Cluster S) : Type 0 where
  pub update_identity :
      (b b' : WerfBundle) (s : S) → (c.update b s).0 ≡ ok b' → identity b' ≡ identity b
  pub update_status_identity :
      (b b' : WerfBundle) (s : S) → (c.update_status b s).0 ≡ ok b' → identity b' ≡ identity b

pub build_job-IsOwnJob :
    {S : Type 0} (c : Cluster S) (l : Library) (b : WerfBundle) (tag : GoString) (e : Env S)
    {job : Job}
    → (build_job c l b tag e).0 ≡ some (ok job)
    → IsOwnJob (identity b) job
unfolding build_job job_builder new_builder with_scheme with_values_resolver
build_job-IsOwnJob c l b tag e {job} built =
    let (made, named, flags) =
      build-IsConvergeJob l.parse_quantity (job_builder c l b) b tag c.rand_read e.state refl
        built in
    record {
      in_target = made.target;
      account = made.account;
      tag = tag;
      labelled = made.tagged;
      api_version = made.owner_kind.group_version;
      kind = made.owner_kind.kind;
      owned = made.owned;
    }
