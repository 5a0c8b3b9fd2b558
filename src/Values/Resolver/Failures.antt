-- ===== src/Values/Resolver/Failures.antt =====
-- internal/values/implementation.go: how a resolution ends, with the source that makes it fail.
use k8s_werf_operator_go.Base.{
  ℕ, suc, true, false, List, [], ◌∷◌, ◌++◌, ◌≡◌, arith, GoString, ◌&&◌, Bool-cases, inl, inr,
}
use k8s_werf_operator_go.Base.Maps.{GoMap, lookup}
use k8s_werf_operator_go.Base.Result.{Result, ok, err, GoError, wrapped, Result-cases}
use k8s_werf_operator_go.Api.{ValuesSource}
use k8s_werf_operator_go.Values.Merge.{last_value}
use k8s_werf_operator_go.Values.Fetch.{ValuesClient}
use k8s_werf_operator_go.Values.Resolver.{
  is_not_found_error, Fetched, invalid, fetched, source_label, resolve_loop, resolve_values,
}
use k8s_werf_operator_go.Values.Resolver.Sources.{
  fetch, Fetched-cases, Resolves, resolve_values-Resolves,
}

module _ (parse_yaml : GoString → Result (GoMap GoString)) {S : Type 0} (c : ValuesClient S)
    (bundle_namespace target_namespace : GoString) where
  abbrev fetch_source : ℕ → ValuesSource → S → Fetched × S
  fetch_source = fetch parse_yaml c bundle_namespace target_namespace

  -- Of the sources from number `i` on, the first that can neither be used nor left out fails with
  -- this error: it has no reference with a name, or it cannot be fetched and is not an optional one
  -- that was not found.
  pub data Fails : ℕ → S → List ValuesSource → GoError → Type 0 where
    is_invalid :
        {i : ℕ} {s : S} {source : ValuesSource} {sources : List ValuesSource} {e : GoError}
        → (fetch_source i source s).0 ≡ invalid e
        → Fails i s (source ∷ sources) e
    is_unavailable :
        {i : ℕ} {s : S} {source : ValuesSource} {sources : List ValuesSource} {e : GoError}
        → (fetch_source i source s).0 ≡ fetched (err e)
        → (source.optional && is_not_found_error e) ≡ false
        → Fails i s (source ∷ sources) (wrapped (source_label i) e)
    after_found :
        {i : ℕ} {s : S} {source : ValuesSource} {sources : List ValuesSource} {m : GoMap GoString}
        {e : GoError}
        → (fetch_source i source s).0 ≡ fetched (ok m)
        → Fails (suc i) (fetch_source i source s).1 sources e
        → Fails i s (source ∷ sources) e
    after_skipped :
        {i : ℕ} {s : S} {source : ValuesSource} {sources : List ValuesSource} {x e : GoError}
        → (fetch_source i source s).0 ≡ fetched (err x)
        → (source.optional && is_not_found_error x) ≡ true
        → Fails (suc i) (fetch_source i source s).1 sources e
        → Fails i s (source ∷ sources) e

  resolve_loop-Fails :
      (i : ℕ) (sources : List ValuesSource) (all_maps : List (GoMap GoString)) (s : S) {e : GoError}
      → (resolve_loop parse_yaml c bundle_namespace target_namespace i sources all_maps s).0 ≡ err e
      → Fails i s sources e
  unfolding resolve_loop
  resolve_loop-Fails i [] all_maps s h = cc
  resolve_loop-Fails i (source ∷ sources) all_maps s {e} h =
      elim (Fetched-cases parse_yaml c bundle_namespace target_namespace
        (fetch_source i source s).0) [
          | inl (x, q) ↦
              let same : x ≡ e = ground (arith, rw (q, resolve_loop) at h) in
              rw (← same) (Fails.is_invalid q)
          | inr (inl (m, q)) ↦ Fails.after_found q (
              resolve_loop-Fails (suc i) sources (all_maps ++ m ∷ []) _ (rw (q, resolve_loop) at h))
          | inr (inr (x, q)) ↦ elim (Bool-cases (source.optional && is_not_found_error x)) [
            | inl skip ↦
                Fails.after_skipped q skip
                  (resolve_loop-Fails (suc i) sources all_maps _ (rw (q, skip, resolve_loop) at h))
            | inr fail ↦
                let same : wrapped (source_label i) x ≡ e =
                  ground (arith, rw (q, fail, resolve_loop) at h) in
                rw (← same) (Fails.is_unavailable q fail)
          ]
        ]

  abbrev pub EndsAs : S → List ValuesSource → Result (GoMap GoString) → Type 0
  EndsAs s sources (ok values) =
      (maps : List (GoMap GoString)) × Resolves parse_yaml c bundle_namespace target_namespace 0 s
        sources maps
      × ((k : GoString) → lookup k values ≡ last_value k maps)
  EndsAs s sources (err e) = Fails 0 s sources e

  resolve_values-Fails :
      (sources : List ValuesSource) (s : S) {e : GoError}
      → (resolve_values parse_yaml c bundle_namespace target_namespace sources s).0 ≡ err e
      → Fails 0 s sources e
  unfolding resolve_values
  resolve_values-Fails sources s {e} h =
      let looped = resolve_loop parse_yaml c bundle_namespace target_namespace 0 sources [] s in
      resolve_loop-Fails 0 sources [] s (ground (arith, h))

  -- If the resolution succeeds, every source was found, or is optional and was not found; and each
  -- key has the value of the last of the found sources that has the key. If it fails, it does so at
  -- the first source that has no reference with a name, or cannot be fetched and is not an optional
  -- one that was not found; its error is that source's, with the number of the source.
  pub resolve_values-EndsAs :
      (sources : List ValuesSource) (s : S)
      → EndsAs s sources (resolve_values parse_yaml c bundle_namespace target_namespace sources s).0
  resolve_values-EndsAs sources s =
      elim (Result-cases
        (resolve_values parse_yaml c bundle_namespace target_namespace sources s).0) [
          | inl (values, q) ↦
              rw (q, EndsAs)
                (resolve_values-Resolves parse_yaml c bundle_namespace target_namespace sources s q)
          | inr (e, q) ↦ rw (q, EndsAs) (resolve_values-Fails sources s q)
        ]
