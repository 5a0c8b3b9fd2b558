-- ===== src/Values/Fetch.antt =====
-- internal/values/fetch.go: a ConfigMap or a Secret, from the bundle's namespace or else from the
-- target namespace.
pub mod Data
pub mod Order
use k8s_werf_operator_go.Base.{
  ℕ, Bool, List, [], ◌∷◌, ◌++◌, GoString, lit, not, ◌&&◌, is_empty, if◌then◌else◌, str_eq,
}
use k8s_werf_operator_go.Base.Maps.{GoMap}
use k8s_werf_operator_go.Base.Result.{
  Result, ok, err, GoError, wrapped, err_not_found, is_not_found, Eff,
}
use k8s_werf_operator_go.Api.{NamespacedName}
use k8s_werf_operator_go.Values.Merge.{merge_maps}

-- `%q`: Kubernetes names are letters, digits, dashes and dots, so nothing is escaped.
unfoldable pub quote : GoString → GoString
quote s = lit "\"" ++ s ++ lit "\""

-- The part of the Kubernetes client that this package calls: the `Data` of an object, or an error.
pub record ValuesClient (S : Type 0) : Type 0 where
  pub get_config_map : NamespacedName → Eff S (Result (GoMap GoString))
  pub get_secret : NamespacedName → Eff S (Result (GoMap GoString))

-- `targetNamespace != "" && targetNamespace != bundleNamespace`
abbrev pub has_other_target : GoString → GoString → Bool
has_other_target bundle_namespace target_namespace =
    not (is_empty target_namespace) && not (str_eq target_namespace bundle_namespace)

module _ (parse_yaml : GoString → Result (GoMap GoString)) where
  -- the loop of `parseAndMergeConfigMapData`, which collects `maps`
  unfoldable pub parse_all : GoMap GoString → List (GoMap GoString) → Result (List (GoMap GoString))
  parse_all [] maps = ok maps
  parse_all ((key, yaml_data) ∷ m) maps = elim (parse_yaml yaml_data) [
    | err e ↦ err (wrapped (lit "failed to parse YAML from ConfigMap key " ++ quote key) e)
    | ok parsed ↦ parse_all m (maps ++ parsed ∷ [])
  ]

  unfoldable pub parse_and_merge_config_map_data : GoMap GoString → Result (GoMap GoString)
  unfolding parse_all
  parse_and_merge_config_map_data m = elim (parse_all m []) [
    | err e ↦ err e
    | ok maps ↦ ok (merge_maps maps)
  ]

  -- the loop of `secretDataToStringMap`; a []byte and a string hold the same bytes
  unfoldable pub secret_data_to_string_map : GoMap (List ℕ) → GoMap GoString
  secret_data_to_string_map [] = []
  secret_data_to_string_map ((k, v) ∷ m) = (k, v) ∷ secret_data_to_string_map m

  unfoldable pub parse_and_merge_secret_data : GoMap (List ℕ) → Result (GoMap GoString)
  unfolding secret_data_to_string_map parse_and_merge_config_map_data
  parse_and_merge_secret_data m = parse_and_merge_config_map_data (secret_data_to_string_map m)

  module _ {S : Type 0} (c : ValuesClient S) where
    -- The error of a search that found nothing.
    unfoldable pub not_found_error : GoString → GoString → GoString → GoString → GoError
    not_found_error kind name bundle_namespace target_namespace =
        if has_other_target bundle_namespace target_namespace
        then wrapped
            (kind
              ++ quote name
              ++ lit " not found in namespaces "
              ++ quote bundle_namespace
              ++ lit " or "
              ++ quote target_namespace)
            err_not_found
        else wrapped
            (kind ++ quote name ++ lit " not found in namespace " ++ quote bundle_namespace)
            err_not_found

    unfoldable pub get_error : GoString → GoString → GoString → GoError → GoError
    get_error kind name namespace e =
        wrapped (kind ++ quote name ++ lit " from namespace " ++ quote namespace) e

    unfoldable pub fetch_config_map :
        GoString → GoString → GoString → Eff S (Result (GoMap GoString))
    unfolding not_found_error get_error
    fetch_config_map name bundle_namespace target_namespace s =
        let first = c.get_config_map (record { name = name; namespace = bundle_namespace }) s in
        let second =
          c.get_config_map (record { name = name; namespace = target_namespace }) first.1 in
        elim first.0 [
          | ok cm ↦ (parse_and_merge_config_map_data cm, first.1)
          | err e ↦
              if not (is_not_found e)
              then (
                err (get_error (lit "failed to get ConfigMap ") name bundle_namespace e),
                first.1,
              )
              else if has_other_target bundle_namespace target_namespace
              then elim second.0 [
                | ok cm ↦ (parse_and_merge_config_map_data cm, second.1)
                | err e' ↦ (
                  err (
                      if not (is_not_found e')
                      then get_error (lit "failed to get ConfigMap ") name target_namespace e'
                      else not_found_error (lit "configMap ") name bundle_namespace
                          target_namespace),
                  second.1,
                )
              ]
              else (
                err (not_found_error (lit "configMap ") name bundle_namespace target_namespace),
                first.1,
              )
        ]

    unfoldable pub fetch_secret : GoString → GoString → GoString → Eff S (Result (GoMap GoString))
    unfolding not_found_error get_error
    fetch_secret name bundle_namespace target_namespace s =
        let first = c.get_secret (record { name = name; namespace = bundle_namespace }) s in
        let second = c.get_secret (record { name = name; namespace = target_namespace }) first.1 in
        elim first.0 [
          | ok secret ↦ (parse_and_merge_secret_data secret, first.1)
          | err e ↦
              if not (is_not_found e)
              then (err (get_error (lit "failed to get Secret ") name bundle_namespace e), first.1)
              else if has_other_target bundle_namespace target_namespace
              then elim second.0 [
                | ok secret ↦ (parse_and_merge_secret_data secret, second.1)
                | err e' ↦ (
                  err (
                      if not (is_not_found e')
                      then get_error (lit "failed to get Secret ") name target_namespace e'
                      else not_found_error (lit "secret ") name bundle_namespace target_namespace),
                  second.1,
                )
              ]
              else (
                err (not_found_error (lit "secret ") name bundle_namespace target_namespace),
                first.1,
              )
        ]
