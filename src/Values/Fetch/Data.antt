-- ===== src/Values/Fetch/Data.antt =====
-- internal/values/fetch.go: what a successful fetch returns.
use k8s_werf_operator_go.Base.{subst, inl, inr, List, ◌≡◌, arith, GoString}
use k8s_werf_operator_go.Base.Maps.{GoMap, IsMap}
use k8s_werf_operator_go.Base.Result.{Result-cases, Result, ok, err}
use k8s_werf_operator_go.Api.{NamespacedName}
use k8s_werf_operator_go.Values.Merge.{merge_maps, merge_maps-IsMap}
use k8s_werf_operator_go.Values.Fetch.{
  ValuesClient, parse_and_merge_config_map_data, parse_and_merge_secret_data,
  secret_data_to_string_map, fetch_config_map, fetch_secret,
}

abbrev key_in : GoString → GoString → NamespacedName
key_in namespace name = record { name = name; namespace = namespace }

module _ (parse_yaml : GoString → Result (GoMap GoString)) where
  merged-IsMap :
      (r : Result (List (GoMap GoString))) {m : GoMap GoString}
      → elim r as (λ _. Result (GoMap GoString)) [ err e ↦ err e | ok maps ↦ ok (merge_maps maps) ]
        ≡ ok m
      → IsMap m
  merged-IsMap (ok maps) h = subst IsMap (cc) (merge_maps-IsMap maps)
  merged-IsMap (err e) h = cc

  parse_and_merge_config_map_data-IsMap :
      (d : GoMap GoString) {m : GoMap GoString}
      → parse_and_merge_config_map_data parse_yaml d ≡ ok m
      → IsMap m
  unfolding parse_and_merge_config_map_data
  parse_and_merge_config_map_data-IsMap d h = merged-IsMap _ h

  module _ {S : Type 0} (c : ValuesClient S) (name bundle_namespace target_namespace : GoString)
      (s : S) {m : GoMap GoString} where
    pub fetch_config_map-IsMap :
        (fetch_config_map parse_yaml c name bundle_namespace target_namespace s).0 ≡ ok m → IsMap m
    unfolding fetch_config_map
    fetch_config_map-IsMap h =
        elim (Result-cases (c.get_config_map (key_in bundle_namespace name) s).0) [
          | inl (found, q) ↦
              parse_and_merge_config_map_data-IsMap found (rw (q, fetch_config_map) at h)
          | inr (e, q) ↦
              elim (Result-cases
                (c.get_config_map (key_in target_namespace name)
                  (c.get_config_map (key_in bundle_namespace name) s).1).0) [
                    | inl (found, q') ↦ parse_and_merge_config_map_data-IsMap found (ground arith)
                    | inr (e', q') ↦ absurd (ground arith)
                  ]
        ]

    pub fetch_secret-IsMap :
        (fetch_secret parse_yaml c name bundle_namespace target_namespace s).0 ≡ ok m → IsMap m
    unfolding fetch_secret parse_and_merge_secret_data
    fetch_secret-IsMap h = elim (Result-cases (c.get_secret (key_in bundle_namespace name) s).0) [
      | inl (found, q) ↦
          parse_and_merge_config_map_data-IsMap (secret_data_to_string_map parse_yaml found)
            (rw (q, fetch_secret) at h)
      | inr (e, q) ↦
          elim (Result-cases
            (c.get_secret (key_in target_namespace name)
              (c.get_secret (key_in bundle_namespace name) s).1).0) [
                | inl (found, q') ↦
                    parse_and_merge_config_map_data-IsMap
                      (secret_data_to_string_map parse_yaml found) (ground arith)
                | inr (e', q') ↦ absurd (ground arith)
              ]
    ]
