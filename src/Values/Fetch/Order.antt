-- ===== src/Values/Fetch/Order.antt =====
-- internal/values/fetch.go: the keys of one ConfigMap, and the order in which they are visited.
use k8s_werf_operator_go.Base.{some, [], ◌∷◌, ◌≡◌, ◌≢◌, ap, ◌∙◌, sym, refl, arith, GoString, Option}
use k8s_werf_operator_go.Api.{NamespacedName}
use k8s_werf_operator_go.Base.Maps.{GoMap, IsMap, lookup}
use k8s_werf_operator_go.Base.Result.{Result, ok, err}
use k8s_werf_operator_go.Values.Merge.{or_else, last_value, lookup-merge_maps, merge_maps}
use k8s_werf_operator_go.Values.Fetch.{
  ValuesClient, parse_all, parse_and_merge_config_map_data, fetch_config_map,
}

-- Of the parsed values, the one under a path.
abbrev pub value_at : GoString → Result (GoMap GoString) → Result (Option GoString)
value_at path (ok m) = ok (lookup path m)
value_at path (err e) = err e

module _ (parse_yaml : GoString → Result (GoMap GoString)) where
  parse_all-two :
      (k k' doc doc' : GoString) {m m' : GoMap GoString}
      → parse_yaml doc ≡ ok m
      → parse_yaml doc' ≡ ok m'
      → parse_all parse_yaml ((k, doc) ∷ (k', doc') ∷ []) [] ≡ ok (m ∷ m' ∷ [])
  unfolding parse_all
  parse_all-two k k' doc doc' p p' = ground arith

  merged-two :
      (k k' doc doc' : GoString) {m m' : GoMap GoString}
      → parse_yaml doc ≡ ok m
      → parse_yaml doc' ≡ ok m'
      → parse_and_merge_config_map_data parse_yaml ((k, doc) ∷ (k', doc') ∷ [])
        ≡ ok (merge_maps (m ∷ m' ∷ []))
  unfolding parse_and_merge_config_map_data
  merged-two k k' doc doc' p p' = let all = parse_all-two k k' doc doc' p p' in ground (arith, all)

  later_document :
      (k k' doc doc' path v' : GoString) {m m' : GoMap GoString}
      → parse_yaml doc ≡ ok m
      → parse_yaml doc' ≡ ok m'
      → IsMap m
      → IsMap m'
      → lookup path m' ≡ some v'
      → value_at path (parse_and_merge_config_map_data parse_yaml ((k, doc) ∷ (k', doc') ∷ []))
        ≡ ok (some v')
  unfolding last_value
  later_document k k' doc doc' path v' {m} {m'} p p' h h' q' = rw (merged-two k k' doc doc' p p') (
      ap ok (
        lookup-merge_maps path (m ∷ m' ∷ []) (h, (h', tt))
        ∙ ap (λ o. or_else o (lookup path m)) q'))

  fetch_config_map-found :
      {S : Type 0} (c : ValuesClient S) (name bundle_namespace target_namespace : GoString) (s : S)
      {found_data : GoMap GoString}
      → (c.get_config_map (record { name = name; namespace = bundle_namespace }) s).0
        ≡ ok found_data
      → (fetch_config_map parse_yaml c name bundle_namespace target_namespace s).0
        ≡ parse_and_merge_config_map_data parse_yaml found_data
  unfolding fetch_config_map
  fetch_config_map-found c name bundle_namespace target_namespace s found =
      rw (found, fetch_config_map) refl

  -- Where the bundle's namespace has a ConfigMap of exactly two keys, whose documents parse and give
  -- a path two different values, what a fetch answers with under the path depends on the order in
  -- which `range` visits the keys, which Go leaves open: one client answers with the data in one
  -- order, the other in the other order, and each fetch has the value of the key visited last.
  pub fetch_config_map-order :
      {S : Type 0} (c c' : ValuesClient S) (name bundle_namespace target_namespace : GoString)
      (s : S) (k k' doc doc' path v v' : GoString) {m m' : GoMap GoString}
      → let key : NamespacedName = record { name = name; namespace = bundle_namespace } in
        let fetch = λ (x : ValuesClient S).
          (fetch_config_map parse_yaml x name bundle_namespace target_namespace s).0 in
        (c.get_config_map key s).0 ≡ ok ((k, doc) ∷ (k', doc') ∷ [])
        → (c'.get_config_map key s).0 ≡ ok ((k', doc') ∷ (k, doc) ∷ [])
        → parse_yaml doc ≡ ok m
        → parse_yaml doc' ≡ ok m'
        → IsMap m
        → IsMap m'
        → lookup path m ≡ some v
        → lookup path m' ≡ some v'
        → v ≢ v'
        → (value_at path (fetch c) ≡ ok (some v'))
          × (value_at path (fetch c') ≡ ok (some v))
          × (fetch c ≢ fetch c')
  fetch_config_map-order c c' name bundle_namespace target_namespace s k k' doc doc' path v v' {m}
        {m'} f f' p p' h h' q q' differ =
      let found = fetch_config_map-found c name bundle_namespace target_namespace s f in
      let found' = fetch_config_map-found c' name bundle_namespace target_namespace s f' in
      let first = ap (value_at path) found ∙ later_document k k' doc doc' path v' p p' h h' q' in
      let second = ap (value_at path) found' ∙ later_document k' k doc' doc path v p' p h' h q in
      (
        first,
        second,
        λ same.
            let e : ok (some v') ≡ ok (some v) = sym first ∙ ap (value_at path) same ∙ second in
            differ (ground arith),
      )
