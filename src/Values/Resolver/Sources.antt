-- ===== src/Values/Resolver/Sources.antt =====
-- What a resolution that succeeds is made of: the maps of the sources that were found, in order.
use k8s_werf_operator_go.Base.{
  ℕ, suc, true, List, [], ◌∷◌, ◌++◌, ◌≡◌, refl, arith, GoString, ◌&&◌, append_assoc, Option, none,
  some, All, Bool-cases, ◌⊎◌, inl, inr, append-nil, ◌∙◌,
}
use k8s_werf_operator_go.Base.Maps.{GoMap, lookup, IsMap}
use k8s_werf_operator_go.Base.Result.{Result, ok, err, GoError, Eff}
use k8s_werf_operator_go.Api.{ValuesSource}
use k8s_werf_operator_go.Values.Merge.{merge_maps, last_value, lookup-merge_maps}
use k8s_werf_operator_go.Values.Fetch.{ValuesClient}
use k8s_werf_operator_go.Values.Fetch.Data.{fetch_config_map-IsMap, fetch_secret-IsMap}
use k8s_werf_operator_go.Values.Resolver.{
  is_not_found_error, Fetched, invalid, fetched, fetch_refs, resolve_loop, resolve_values,
}

module _ (parse_yaml : GoString → Result (GoMap GoString)) {S : Type 0} (c : ValuesClient S)
    (bundle_namespace target_namespace : GoString) where
  abbrev pub fetch : ℕ → ValuesSource → Eff S Fetched
  fetch i source =
      fetch_refs parse_yaml c bundle_namespace target_namespace i source.config_map_ref
        source.secret_ref

  -- The sources from number `i` on give these maps, one for each source that is found; a source
  -- is left out only if it is optional and was not found.
  pub data Resolves : ℕ → S → List ValuesSource → List (GoMap GoString) → Type 0 where
    done : {i : ℕ} {s : S} → Resolves i s [] []
    found :
        {i : ℕ} {s : S} {source : ValuesSource} {sources : List ValuesSource} {m : GoMap GoString}
        {maps : List (GoMap GoString)}
        → (fetch i source s).0 ≡ fetched (ok m)
        → IsMap m
        → Resolves (suc i) (fetch i source s).1 sources maps
        → Resolves i s (source ∷ sources) (m ∷ maps)
    skipped :
        {i : ℕ} {s : S} {source : ValuesSource} {sources : List ValuesSource} {e : GoError}
        {maps : List (GoMap GoString)}
        → (fetch i source s).0 ≡ fetched (err e)
        → source.optional ≡ true
        → is_not_found_error e ≡ true
        → Resolves (suc i) (fetch i source s).1 sources maps
        → Resolves i s (source ∷ sources) maps

  fetch_refs-IsMap :
      (i : ℕ) (config_map_ref secret_ref : Option GoString) (s : S) {m : GoMap GoString}
      → (fetch_refs parse_yaml c bundle_namespace target_namespace i config_map_ref secret_ref s).0
        ≡ fetched (ok m)
      → IsMap m
  unfolding fetch_refs
  fetch_refs-IsMap i (some name) secret_ref s h =
      fetch_config_map-IsMap parse_yaml c name bundle_namespace target_namespace s (ground arith)
  fetch_refs-IsMap i none (some name) s h =
      fetch_secret-IsMap parse_yaml c name bundle_namespace target_namespace s (ground arith)
  fetch_refs-IsMap i none none s h = cc

  -- The outcomes of one fetch.
  pub Fetched-cases :
      (f : Fetched)
      → ((e : GoError) × (f ≡ invalid e))
        ⊎ ((m : GoMap GoString) × (f ≡ fetched (ok m)))
        ⊎ ((e : GoError) × (f ≡ fetched (err e)))
  Fetched-cases (invalid e) = inl (e, refl)
  Fetched-cases (fetched (ok m)) = inr (inl (m, refl))
  Fetched-cases (fetched (err e)) = inr (inr (e, refl))

  abbrev Outcome :
      ℕ → List ValuesSource → List (GoMap GoString) → S → List (GoMap GoString) → Type 0
  Outcome i sources all_maps s r =
      (maps : List (GoMap GoString)) × (r ≡ all_maps ++ maps) × Resolves i s sources maps

  resolve_loop-Resolves :
      (i : ℕ) (sources : List ValuesSource) (all_maps : List (GoMap GoString)) (s : S)
      {r : List (GoMap GoString)}
      → (resolve_loop parse_yaml c bundle_namespace target_namespace i sources all_maps s).0 ≡ ok r
      → Outcome i sources all_maps s r
  unfolding resolve_loop
  resolve_loop-Resolves i [] all_maps s h = ([], (cc (append-nil all_maps)), Resolves.done)
  resolve_loop-Resolves i (source ∷ sources) all_maps s {r} h =
      elim (Fetched-cases (fetch i source s).0) [
        | inl (e, q) ↦ cc (rw (q, resolve_loop) at h)
        | inr (inl (m, q)) ↦
            let (maps, split, rest) =
              resolve_loop-Resolves (suc i) sources (all_maps ++ m ∷ []) (fetch i source s).1
                (rw (q, resolve_loop) at h) in
            (
              m ∷ maps,
              split ∙ append_assoc all_maps (m ∷ []) maps,
              Resolves.found q (fetch_refs-IsMap i source.config_map_ref source.secret_ref s q)
                  rest,
            )
        | inr (inr (e, q)) ↦ elim (Bool-cases (source.optional && is_not_found_error e)) [
          | inl skip ↦
              let (maps, split, rest) =
                resolve_loop-Resolves (suc i) sources all_maps (fetch i source s).1
                  (rw (q, skip, resolve_loop) at h) in
              (maps, split, Resolves.skipped q (ground arith) (ground arith) rest)
          | inr fail ↦ cc (rw (q, fail, resolve_loop) at h)
        ]
      ]

  Resolves-All :
      {i : ℕ} {s : S} {sources : List ValuesSource} {maps : List (GoMap GoString)}
      → Resolves i s sources maps
      → All IsMap maps
  Resolves-All Resolves.done = tt
  Resolves-All (Resolves.found q h r) = (h, Resolves-All r)
  Resolves-All (Resolves.skipped q o n r) = Resolves-All r

  finished :
      (r : Result (List (GoMap GoString))) {values : GoMap GoString}
      → elim r as (λ _. Result (GoMap GoString)) [
        | ok all_maps ↦ ok (merge_maps all_maps)
        | err e ↦ err e
      ]
        ≡ ok values
      → (all_maps : List (GoMap GoString)) × (r ≡ ok all_maps) × (values ≡ merge_maps all_maps)
  finished (ok all_maps) h = (all_maps, refl, cc)
  finished (err e) h = cc

  -- If the resolution succeeds, every source was found, or is optional and was not found; and each
  -- key has the value of the last of the found sources that has the key.
  pub resolve_values-Resolves :
      (sources : List ValuesSource) (s : S) {values : GoMap GoString}
      → (resolve_values parse_yaml c bundle_namespace target_namespace sources s).0 ≡ ok values
      → (maps : List (GoMap GoString)) × Resolves 0 s sources maps
        × ((k : GoString) → lookup k values ≡ last_value k maps)
  unfolding resolve_values
  resolve_values-Resolves sources s {values} h =
      let (all_maps, looped, merged) = finished _ h in
      let (maps, split, resolves) = resolve_loop-Resolves 0 sources [] s looped in
      (maps, resolves, λ k. cc (merged, split, lookup-merge_maps k maps (Resolves-All resolves)))
