-- ===== src/Converge/Builder/Jobs.antt =====
-- What a Job that `Build` returns looks like.
use k8s_werf_operator_go.Base.{
  ℕ, Option, none, some, List, [], ◌∷◌, ◌++◌, ◌≡◌, ◌⊎◌, inl, inr, refl, arith, GoString, append-nil,
  Option-cases, subst, sym, ap, ◌∙◌,
}
use k8s_werf_operator_go.Base.Int.{pos}
use k8s_werf_operator_go.Base.Maps.{GoMap}
use k8s_werf_operator_go.Base.Result.{Result, ok, err, Result-cases, Eff}
use k8s_werf_operator_go.Api.{WerfBundle, ValuesSource, get_target_namespace}
use k8s_werf_operator_go.Values.SetFlags.{generate_set_flags}
use k8s_werf_operator_go.Converge.JobName.{job_name}
use k8s_werf_operator_go.Converge.Limits.{
  Quantity, cpu, memory, get_log_retention_seconds, get_resource_limit, must_parse_resource,
}
use k8s_werf_operator_go.Converge.Builder.{
  Job, Builder, Resolver, GroupVersionKind, OwnerReference, job_labels, base_args, owner_references,
  make_job, build_args, finish_job, build_for, build,
}

-- The one owner of a bundle's Job.
abbrev pub owner_of : WerfBundle → GroupVersionKind → List OwnerReference
owner_of werf gvk =
    record {
      api_version = gvk.group_version;
      kind = gvk.kind;
      name = werf.meta.name;
      uid = werf.meta.uid;
    }
    ∷ []

-- The arguments after the fixed ones: none without sources, or else the flags of what the resolver
-- answers.
abbrev pub IsFlags : {S : Type 0} → WerfBundle → Option (Resolver S) → S → List GoString → Type 0
IsFlags {S} werf resolver s flags =
    ((werf.spec.converge.values_from ≡ []) × (flags ≡ []))
    ⊎ ((resolve : Resolver S) × (resolved : GoMap GoString) × (resolver ≡ some resolve)
        × ((resolve werf.spec.converge.values_from werf.meta.namespace
              (get_target_namespace werf.spec.converge werf.meta.namespace) s).0
            ≡ ok resolved)
        × (flags ≡ generate_set_flags resolved))

-- The Job is the bundle's: it runs once in the target namespace, as the bundle's ServiceAccount,
-- with the labels of the tag on itself and on its pod, the retention and the limits of the bundle,
-- requests that are the limits, and the bundle as its one owner.
pub record IsConvergeJob (parse : GoString → Result Quantity) (werf : WerfBundle) (tag : GoString)
    (job : Job) : Type 0 where
  pub target : job.namespace ≡ get_target_namespace werf.spec.converge werf.meta.namespace
  pub account : job.service_account_name ≡ werf.spec.converge.service_account_name
  pub tagged : job.labels ≡ job_labels werf.meta.name tag
  pub pod_tagged : job.template_labels ≡ job.labels
  pub not_retried : job.backoff_limit ≡ pos 0
  pub retained : job.ttl_seconds_after_finished ≡ get_log_retention_seconds werf.spec.converge
  pub cpu_limited :
      must_parse_resource parse (get_resource_limit werf.spec.converge cpu) ≡ some job.limits.cpu
  pub memory_limited :
      must_parse_resource parse (get_resource_limit werf.spec.converge memory)
      ≡ some job.limits.memory
  pub requested : job.requests ≡ job.limits
  pub owner_kind : GroupVersionKind
  pub owned : job.owner_references ≡ owner_of werf owner_kind

owner_references-owner_of :
    (werf : WerfBundle) (scheme : Option (Result (List GroupVersionKind)))
    {owners : List OwnerReference}
    → owner_references werf scheme ≡ ok owners
    → (gvk : GroupVersionKind) × (owners ≡ owner_of werf gvk)
unfolding owner_references
owner_references-owner_of werf none h = cc
owner_references-owner_of werf (some (err e)) h = cc
owner_references-owner_of werf (some (ok [])) h = cc
owner_references-owner_of werf (some (ok (gvk ∷ gvks))) h = (gvk, ground arith)

no_sources :
    {S : Type 0} (werf : WerfBundle) (tag : GoString) (resolver : Option (Resolver S)) (s : S)
    → (build_args werf tag [] resolver s).0 ≡ ok (base_args werf.spec.registry.url tag)
unfolding build_args
no_sources werf tag resolver s = refl

build_args-IsFlags :
    {S : Type 0} (werf : WerfBundle) (tag : GoString) (sources : List ValuesSource)
    (resolver : Option (Resolver S)) (s : S) {args : List GoString}
    → werf.spec.converge.values_from ≡ sources
    → (build_args werf tag sources resolver s).0 ≡ ok args
    → (flags : List GoString) × (args ≡ base_args werf.spec.registry.url tag ++ flags)
      × IsFlags werf resolver s flags
unfolding build_args
build_args-IsFlags werf tag [] resolver s {args} p h =
    ([], cc (append-nil (base_args werf.spec.registry.url tag)), inl (p, refl))
build_args-IsFlags werf tag (x ∷ sources) none s p h = cc
build_args-IsFlags werf tag (x ∷ sources) (some resolve) s {args} p h =
    elim (Result-cases
      (resolve (x ∷ sources) werf.meta.namespace
        (get_target_namespace werf.spec.converge werf.meta.namespace) s).0) [
          | inl (resolved, q) ↦ (
            generate_set_flags resolved,
            (ground arith),
            inr (resolve, resolved, refl, (simp p q), refl),
          )
          | inr (e, q) ↦ absurd (ground arith)
        ]

module _ {S : Type 0} (parse : GoString → Result Quantity) (builder : Builder S) (werf : WerfBundle)
    (tag : GoString) where
  make_job-IsConvergeJob :
      (name : GoString) (args : List GoString) (cpu_limit memory_limit : Quantity)
      {owners : List OwnerReference}
      → must_parse_resource parse (get_resource_limit werf.spec.converge cpu) ≡ some cpu_limit
      → must_parse_resource parse (get_resource_limit werf.spec.converge memory) ≡ some memory_limit
      → owner_references werf builder.scheme ≡ ok owners
      → IsConvergeJob parse werf tag (make_job werf tag name args cpu_limit memory_limit owners)
  unfolding make_job
  make_job-IsConvergeJob name args cpu_limit memory_limit p q r =
      let (gvk, o) = owner_references-owner_of werf builder.scheme r in
      record {
        target = refl;
        account = refl;
        tagged = refl;
        pod_tagged = refl;
        not_retried = refl;
        retained = refl;
        cpu_limited = p;
        memory_limited = q;
        requested = refl;
        owner_kind = gvk;
        owned = o;
      }

  -- What `finish_job` returns is made of limits that parse and of owners from the scheme.
  finish_job-made :
      (name : GoString) (args : List GoString) {job : Job}
      → finish_job parse builder werf tag name args ≡ some (ok job)
      → (cpu_limit memory_limit : Quantity) × (owners : List OwnerReference) × (must_parse_resource
            parse
            (get_resource_limit werf.spec.converge cpu)
          ≡ some cpu_limit)
        × (must_parse_resource parse (get_resource_limit werf.spec.converge memory)
            ≡ some memory_limit)
        × (owner_references werf builder.scheme ≡ ok owners)
        × (make_job werf tag name args cpu_limit memory_limit owners ≡ job)
  unfolding finish_job
  finish_job-made name args {job} h =
      elim (Option-cases (must_parse_resource parse (get_resource_limit werf.spec.converge cpu))) [
        | inl p ↦ absurd (ground arith)
        | inr (cl, p) ↦
            elim (Option-cases
              (must_parse_resource parse (get_resource_limit werf.spec.converge memory))) [
                | inl q ↦ absurd (ground arith)
                | inr (ml, q) ↦ elim (Result-cases (owner_references werf builder.scheme)) [
                  | inl (owners, r) ↦ (cl, ml, owners, p, q, r, (ground arith))
                  | inr (e, r) ↦ absurd (ground arith)
                ]
              ]
      ]

  finish_job-IsConvergeJob :
      (name : GoString) (args : List GoString) {job : Job}
      → finish_job parse builder werf tag name args ≡ some (ok job)
      → IsConvergeJob parse werf tag job × (job.name ≡ name) × (job.args ≡ args)
  unfolding make_job
  finish_job-IsConvergeJob name args {job} h =
      let (cl, ml, owners, p, q, r, made) = finish_job-made name args h in
      (
        subst (IsConvergeJob parse werf tag) made (make_job-IsConvergeJob name args cl ml p q r),
        ap (λ j. j.name) (sym made),
        ap (λ j. j.args) (sym made),
      )

  -- A build that succeeds returns the bundle's Job for the tag, with the name that `jobName` gives
  -- for the random bytes that were drawn, and the fixed arguments followed by the flags of the
  -- resolved values.
  pub build-IsConvergeJob :
      (rand_read : Eff S (Option (List ℕ))) (s : S) {job : Job}
      → builder.werf ≡ some werf
      → (build rand_read parse builder tag s).0 ≡ some (ok job)
      → IsConvergeJob parse werf tag job
        × (job_name werf.meta.name tag (rand_read s).0 ≡ some job.name)
        × ((flags : List GoString) × (job.args ≡ base_args werf.spec.registry.url tag ++ flags)
            × IsFlags werf builder.values_resolver (rand_read s).1 flags)
  unfolding build build_for
  build-IsConvergeJob rand_read s {job} given h =
      elim (Option-cases (job_name werf.meta.name tag (rand_read s).0)) [
        | inl p ↦ absurd (ground arith)
        | inr (name, p) ↦
            elim (Result-cases
              (build_args werf tag werf.spec.converge.values_from builder.values_resolver
                (rand_read s).1).0) [
                  | inl (args, q) ↦
                      let finished : finish_job parse builder werf tag name args ≡ some (ok job) =
                        ground arith in
                      let (is_job, named, runs) = finish_job-IsConvergeJob name args finished in
                      let (flags, split, made) =
                        build_args-IsFlags werf tag werf.spec.converge.values_from
                          builder.values_resolver (rand_read s).1 refl q in
                      (is_job, p ∙ ap some (sym named), (flags, runs ∙ split, made))
                  | inr (e, q) ↦ absurd (ground arith)
                ]
      ]
