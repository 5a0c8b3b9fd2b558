-- ===== src/Testing/SetFlags/Deployed.antt =====
-- The values that a Job of the operator is started with, from the sources to its arguments.
use k8s_werf_operator_go.Base.{
  Bool, true, false, none, some, List, [], ◌∷◌, ◌++◌, ◌≡◌, ◌≢◌, ◌∙◌, refl, arith, GoString, lit,
  str_eq, str_eq_iff, ◌==◌, ◌||◌, All, inl, inr, Bool-cases, ap, sym, subst,
}
use k8s_werf_operator_go.Base.Maps.{GoMap, keys}
use k8s_werf_operator_go.Base.Result.{Result, ok}
use k8s_werf_operator_go.Api.{WerfBundle, get_target_namespace}
use k8s_werf_operator_go.Values.Merge.{last_value}
use k8s_werf_operator_go.Values.SetFlags.{generate_set_flags}
use k8s_werf_operator_go.Values.Resolver.{resolve_values}
use k8s_werf_operator_go.Values.Resolver.Sources.{Resolves, resolve_values-Resolves}
use k8s_werf_operator_go.Converge.Builder.{
  Job, Resolver, base_args, new_builder, with_scheme, with_values_resolver,
}
use k8s_werf_operator_go.Converge.Builder.Jobs.{build-IsConvergeJob}
use k8s_werf_operator_go.Controller.Cluster.{Cluster, Library, Env}
use k8s_werf_operator_go.Controller.Ensure.{build_job, job_builder}
use k8s_werf_operator_go.Testing.SetFlags.{extract_loop, extract_set_flags}
use k8s_werf_operator_go.Testing.SetFlags.Reading.{IsKey, value_of, value_of-flags}

has_colon : GoString → Bool
has_colon [] = false
has_colon (c ∷ s) = c == b':' || has_colon s

has_colon-append : (s t : GoString) → has_colon ((s ++ lit ":") ++ t) ≡ true
unfolding has_colon lit
has_colon-append [] t = refl
has_colon-append (c ∷ s) t = ground (arith, has_colon-append s t)

-- No image with its tag is taken for the name of a flag.
image-set : (url tag : GoString) → str_eq ((url ++ lit ":") ++ tag) (lit "--set") ≡ false
unfolding has_colon lit
image-set url tag = elim (Bool-cases (str_eq ((url ++ lit ":") ++ tag) (lit "--set"))) [
  | inr q ↦ q
  | inl q ↦
      let same = (str_eq_iff ((url ++ lit ":") ++ tag) (lit "--set")).0 q in
      cc (same, has_colon-append url tag)
]

extract_loop-base_args :
    (url tag : GoString) (flags : List GoString)
    → extract_loop (base_args url tag ++ flags) [] ≡ extract_loop flags []
unfolding extract_loop base_args str_eq lit
extract_loop-base_args url tag [] = refl
extract_loop-base_args url tag (flag ∷ flags) = rw (image-set url tag, extract_loop) refl

module _ {S : Type 0} (c : Cluster S) (l : Library) (b : WerfBundle) where
  -- What the sources of the bundle resolve to, once the random bytes of the name have been drawn.
  abbrev pub resolution : Env S → Result (GoMap GoString)
  resolution e =
      (resolve_values l.parse_yaml c.values b.meta.namespace
        (get_target_namespace b.spec.converge b.meta.namespace) b.spec.converge.values_from
        (c.rand_read e.state).1).0

  build_job-flags :
      (tag : GoString) (e : Env S) {job : Job} {resolved : GoMap GoString}
      → (build_job c l b tag e).0 ≡ some (ok job)
      → b.spec.converge.values_from ≢ []
      → resolution e ≡ ok resolved
      → job.args ≡ base_args b.spec.registry.url tag ++ generate_set_flags resolved
  unfolding build_job job_builder new_builder with_scheme with_values_resolver
  build_job-flags tag e {job} {resolved} built sources h =
      let (_, _, (flags, split, made)) =
        build-IsConvergeJob l.parse_quantity (job_builder c l b) b tag c.rand_read e.state refl
          built in
      elim made [
        | inl (none_given, q) ↦ absurd (sources none_given)
        | inr (resolve, values, given, q, r) ↦
            let resolver : Resolver S = λ given_sources bundle_ns target_ns.
              resolve_values l.parse_yaml c.values bundle_ns target_ns given_sources in
            let same : resolver ≡ resolve =
              ap (λ o. elim o [ none ↦ resolver | some f ↦ f ]) given in
            let answers =
              subst
                (λ (f : Resolver S).
                  (f b.spec.converge.values_from b.meta.namespace
                    (get_target_namespace b.spec.converge b.meta.namespace)
                    (c.rand_read e.state).1).0
                  ≡ ok values)
                (sym same) q in
            let all : values ≡ resolved = cc (answers, h) in split ∙ rw (r, all) refl
      ]

  -- The Job that is built for a bundle with sources of values is started with these values: each key
  -- that a flag of the Job gives has, without its escapes, the value of the last of the found sources
  -- that has the key, and no other key is given; provided that no key of the resolved values has a
  -- `=` in it.
  pub build_job-value_of :
      (tag : GoString) (e : Env S) {job : Job} {resolved : GoMap GoString}
      → (build_job c l b tag e).0 ≡ some (ok job)
      → b.spec.converge.values_from ≢ []
      → resolution e ≡ ok resolved
      → All IsKey (keys resolved)
      → (maps : List (GoMap GoString)) × Resolves l.parse_yaml c.values b.meta.namespace
          (get_target_namespace b.spec.converge b.meta.namespace)
          0
          (c.rand_read e.state).1
          b.spec.converge.values_from
          maps
        × ((k : GoString) → value_of k (extract_set_flags (some job)) ≡ last_value k maps)
  unfolding extract_set_flags
  build_job-value_of tag e {job} {resolved} built sources h plain =
      let namespace = b.meta.namespace in
      let target_namespace = get_target_namespace b.spec.converge namespace in
      let (maps, resolves, last) =
        resolve_values-Resolves l.parse_yaml c.values namespace target_namespace
          b.spec.converge.values_from (c.rand_read e.state).1 h in
      let args = build_job-flags tag e built sources h in
      (
        maps,
        resolves,
        λ k. rw (args, extract_loop-base_args, value_of-flags resolved k plain) (last k),
      )
