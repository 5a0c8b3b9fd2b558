-- ===== src/Converge/Builder.antt =====
-- internal/converge/job.go: `Builder` and `Build`.
pub mod Jobs
use k8s_werf_operator_go.Base.{ℕ, Option, none, some, List, [], ◌∷◌, ◌++◌, GoString, lit}
use k8s_werf_operator_go.Base.Int.{ℤ, pos}
use k8s_werf_operator_go.Base.Maps.{GoMap}
use k8s_werf_operator_go.Base.Result.{Result, ok, err, message, wrapped, Eff}
use k8s_werf_operator_go.Api.{WerfBundle, ValuesSource, get_target_namespace}
use k8s_werf_operator_go.Values.SetFlags.{generate_set_flags}
use k8s_werf_operator_go.Converge.JobName.{job_name}
use k8s_werf_operator_go.Converge.Limits.{
  Quantity, cpu, memory, get_log_retention_seconds, get_resource_limit, must_parse_resource,
}

-- A kind as the scheme knows it: `GroupVersion().String()` and `Kind`.
pub record GroupVersionKind : Type 0 where
  pub group_version : GoString
  pub kind : GoString

pub record OwnerReference : Type 0 where
  pub api_version : GoString
  pub kind : GoString
  pub name : GoString
  pub uid : GoString

pub record ResourceList : Type 0 where
  pub cpu : Quantity
  pub memory : Quantity

-- The fields of the Job that `Build` sets, the one container's among them; all others have their
-- zero values.
pub record Job : Type 0 where
  pub name : GoString
  pub namespace : GoString
  pub labels : GoMap GoString
  pub owner_references : List OwnerReference
  pub backoff_limit : ℤ
  pub ttl_seconds_after_finished : ℤ
  pub template_labels : GoMap GoString
  pub restart_policy : GoString
  pub service_account_name : GoString
  pub container_name : GoString
  pub image : GoString
  pub args : List GoString
  pub requests : ResourceList
  pub limits : ResourceList

-- `ResolveValues` of the `Resolver` interface.
abbrev pub Resolver : Type 0 → Type 0
Resolver S = List ValuesSource → GoString → GoString → Eff S (Result (GoMap GoString))

-- `scheme` is the answer of `ObjectKinds` for a WerfBundle; each field may be nil.
pub record Builder (S : Type 0) : Type 0 where
  pub werf : Option WerfBundle
  pub scheme : Option (Result (List GroupVersionKind))
  pub values_resolver : Option (Resolver S)

module _ {S : Type 0} where
  unfoldable pub new_builder : WerfBundle → Builder S
  new_builder bundle = record { werf = some bundle; scheme = none; values_resolver = none }

  unfoldable pub with_scheme : Result (List GroupVersionKind) → Builder S → Builder S
  with_scheme scheme b = record b { scheme = some scheme }

  unfoldable pub with_values_resolver : Resolver S → Builder S → Builder S
  with_values_resolver resolver b = record b { values_resolver = some resolver }

unfoldable pub job_labels : GoString → GoString → GoMap GoString
job_labels bundle tag =
    (lit "app.kubernetes.io/name", lit "werf-operator")
    ∷ (lit "app.kubernetes.io/instance", bundle)
    ∷ (lit "app.kubernetes.io/managed-by", lit "werf-operator")
    ∷ (lit "werf.io/bundle", bundle)
    ∷ (lit "werf.io/tag", tag)
    ∷ []

unfoldable pub base_args : GoString → GoString → List GoString
base_args url tag = lit "converge" ∷ lit "--log-color=false" ∷ (url ++ lit ":" ++ tag) ∷ []

-- The owner of the Job, from the scheme.
unfoldable pub owner_references :
    WerfBundle → Option (Result (List GroupVersionKind)) → Result (List OwnerReference)
owner_references werf none =
    err (message (lit "scheme is required to set owner reference and prevent orphaned jobs"))
owner_references werf (some (err e)) =
    err (wrapped (lit "failed to get GroupVersionKind for WerfBundle") e)
owner_references werf (some (ok [])) = err (
    message
      (lit "no GroupVersionKind found for WerfBundle (scheme may not have WerfBundle registered)"))
owner_references werf (some (ok (gvk ∷ gvks))) = ok (
    record {
      api_version = gvk.group_version;
      kind = gvk.kind;
      name = werf.meta.name;
      uid = werf.meta.uid;
    }
    ∷ [])

-- The Job with its name and arguments; the requests are the limits.
unfoldable pub make_job :
    WerfBundle
    → GoString
    → GoString
    → List GoString
    → Quantity
    → Quantity
    → List OwnerReference
    → Job
unfolding job_labels
make_job werf tag name args cpu_limit memory_limit owners =
    let resources : ResourceList = record { cpu = cpu_limit; memory = memory_limit } in
    record {
      name = name;
      namespace = get_target_namespace werf.spec.converge werf.meta.namespace;
      labels = job_labels werf.meta.name tag;
      owner_references = owners;
      backoff_limit = pos 0;
      ttl_seconds_after_finished = get_log_retention_seconds werf.spec.converge;
      template_labels = job_labels werf.meta.name tag;
      restart_policy = lit "Never";
      service_account_name = werf.spec.converge.service_account_name;
      container_name = lit "werf";
      image = lit "ghcr.io/werf/werf:latest";
      args = args;
      requests = resources;
      limits = resources;
    }

module _ {S : Type 0} where
  -- The arguments, with the `--set` flags of the values where sources are configured.
  unfoldable pub build_args :
      WerfBundle
      → GoString
      → List ValuesSource
      → Option (Resolver S)
      → Eff S (Result (List GoString))
  build_args werf tag [] resolver s = (ok (base_args werf.spec.registry.url tag), s)
  build_args werf tag (source ∷ sources) none s =
      (err (message (lit "values resolver required when valuesFrom is configured")), s)
  build_args werf tag (source ∷ sources) (some resolve) s =
      let (r, s') =
        resolve (source ∷ sources) werf.meta.namespace
          (get_target_namespace werf.spec.converge werf.meta.namespace) s in
      elim r [
        | err e ↦ (err (wrapped (lit "failed to resolve values") e), s')
        | ok resolved ↦
            (ok (base_args werf.spec.registry.url tag ++ generate_set_flags resolved), s')
      ]

  -- The rest of `Build`, once the arguments are there. `none` is the panic of `mustParseResource`.
  unfoldable pub finish_job :
      (GoString → Result Quantity)
      → Builder S
      → WerfBundle
      → GoString
      → GoString
      → List GoString
      → Option (Result Job)
  finish_job parse_quantity b werf tag name args =
      elim (must_parse_resource parse_quantity (get_resource_limit werf.spec.converge cpu)) [
        | none ↦ none
        | some cpu_limit ↦
            elim (must_parse_resource parse_quantity
              (get_resource_limit werf.spec.converge memory)) [
                | none ↦ none
                | some memory_limit ↦ elim (owner_references werf b.scheme) [
                  | err e ↦ some (err e)
                  | ok owners ↦
                      some (ok (make_job werf tag name args cpu_limit memory_limit owners))
                ]
              ]
      ]

  -- `Build` of a builder with a bundle: the random bytes of the name are drawn by `rand_read`.
  -- `none` is a panic, of the name, whose hash is cut before the bytes are drawn, or of a limit.
  unfoldable pub build_for :
      Eff S (Option (List ℕ))
      → (GoString → Result Quantity)
      → Builder S
      → WerfBundle
      → GoString
      → Eff S (Option (Result Job))
  build_for rand_read parse_quantity b werf tag s =
      let (random, s₁) = rand_read s in
      let (args, s₂) = build_args werf tag werf.spec.converge.values_from b.values_resolver s₁ in
      elim (job_name werf.meta.name tag random) [
        | none ↦ (none, s)
        | some name ↦ elim args [
          | err e ↦ (some (err e), s₂)
          | ok args ↦ (finish_job parse_quantity b werf tag name args, s₂)
        ]
      ]

  unfoldable pub build :
      Eff S (Option (List ℕ))
      → (GoString → Result Quantity)
      → Builder S
      → GoString
      → Eff S (Option (Result Job))
  build rand_read parse_quantity b tag s = elim b.werf [
    | none ↦ (some (err (message (lit "WerfBundle is nil"))), s)
    | some werf ↦ build_for rand_read parse_quantity b werf tag s
  ]
