-- ===== src/Values/Resolver.antt =====
-- internal/values/implementation.go: `ResolverImpl`, which fetches the sources in order and merges
-- them.
pub mod Sources
pub mod Failures
pub mod Absent
use k8s_werf_operator_go.Base.{
  ℕ, suc, Bool, true, false, List, [], ◌∷◌, ◌++◌, ◌≡◌, refl, arith, GoString, lit, ◌&&◌, ◌||◌,
  is_empty, if◌then◌else◌, Option, none, some,
}
use k8s_werf_operator_go.Base.Decimal.{format_ℕ}
use k8s_werf_operator_go.Base.Maps.{GoMap}
use k8s_werf_operator_go.Base.Result.{
  Result, ok, err, GoError, wrapped, message, is_err_not_found, is_not_found, Eff,
}
use k8s_werf_operator_go.Api.{ValuesSource}
use k8s_werf_operator_go.Values.Merge.{merge_maps}
use k8s_werf_operator_go.Values.Fetch.{ValuesClient, fetch_config_map, fetch_secret}

-- `isNotFoundError`
unfoldable pub is_not_found_error : GoError → Bool
is_not_found_error e = is_not_found e || is_err_not_found e

-- `source %d`
unfoldable pub source_label : ℕ → GoString
source_label i = lit "source " ++ format_ℕ i

abbrev pub source_message : ℕ → GoString → GoError
source_message i s = message (source_label i ++ lit ": " ++ s)

-- An invalid source ends the loop; otherwise there is the answer of a fetch.
pub data Fetched : Type 0 where
  invalid : GoError → Fetched
  fetched : Result (GoMap GoString) → Fetched

module _ (parse_yaml : GoString → Result (GoMap GoString)) {S : Type 0} (c : ValuesClient S)
    (bundle_namespace target_namespace : GoString) where
  -- The `if` over the two references of source `i`.
  unfoldable pub fetch_refs : ℕ → Option GoString → Option GoString → Eff S Fetched
  fetch_refs i (some name) secret_ref s =
      let (r, s') = fetch_config_map parse_yaml c name bundle_namespace target_namespace s in
      if is_empty name
      then (invalid (source_message i (lit "ConfigMapRef name is empty")), s)
      else (fetched r, s')
  fetch_refs i none (some name) s =
      let (r, s') = fetch_secret parse_yaml c name bundle_namespace target_namespace s in
      if is_empty name
      then (invalid (source_message i (lit "SecretRef name is empty")), s)
      else (fetched r, s')
  fetch_refs i none none s =
      (invalid (source_message i (lit "neither ConfigMapRef nor SecretRef is set")), s)

  -- The loop over the sources, which collects `all_maps`.
  unfoldable pub resolve_loop :
      ℕ → List ValuesSource → List (GoMap GoString) → Eff S (Result (List (GoMap GoString)))
  resolve_loop i [] all_maps s = (ok all_maps, s)
  resolve_loop i (source ∷ sources) all_maps s =
      let (f, s') = fetch_refs i source.config_map_ref source.secret_ref s in
      elim f [
        | invalid e ↦ (err e, s')
        | fetched (ok m) ↦ resolve_loop (suc i) sources (all_maps ++ m ∷ []) s'
        | fetched (err e) ↦ elim (source.optional && is_not_found_error e) [
          | true ↦ resolve_loop (suc i) sources all_maps s'
          | false ↦ (err (wrapped (source_label i) e), s')
        ]
      ]

  unfoldable pub resolve_values : List ValuesSource → Eff S (Result (GoMap GoString))
  unfolding resolve_loop
  resolve_values sources s =
      let (r, s') = resolve_loop 0 sources [] s in
      (elim r [ ok all_maps ↦ ok (merge_maps all_maps) | err e ↦ err e ], s')
