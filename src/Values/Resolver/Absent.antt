-- ===== src/Values/Resolver/Absent.antt =====
-- internal/values: the sources that the resolver takes for missing.
use k8s_werf_operator_go.Base.{
  Bool, false, List, [], ◌∷◌, ◌++◌, ◌≡◌, arith, GoString, ℕ, Option, some, none, is_empty, ◌≢◌, inl,
  inr, ◌&&◌, ◌||◌, not,
}
use k8s_werf_operator_go.Base.Maps.{GoMap}
use k8s_werf_operator_go.Base.Result.{
  Result-cases, Result, ok, err, GoError, is_not_found, is_err_not_found, Eff,
}
use k8s_werf_operator_go.Api.{NamespacedName}
use k8s_werf_operator_go.Values.Fetch.{
  ValuesClient, parse_all, parse_and_merge_config_map_data, parse_and_merge_secret_data,
  secret_data_to_string_map, has_other_target, not_found_error, get_error, fetch_config_map,
  fetch_secret,
}
use k8s_werf_operator_go.Values.Resolver.{is_not_found_error, Fetched, invalid, fetched, fetch_refs}

-- The API server says that there is no such object.
abbrev pub is_absent : Result (GoMap GoString) → Bool
is_absent (ok m) = false
is_absent (err e) = is_not_found e

-- The resolver skips an optional source with this answer.
abbrev pub is_missing : Result (GoMap GoString) → Bool
is_missing (ok m) = false
is_missing (err e) = is_not_found_error e

abbrev pub is_missing_source : Fetched → Bool
is_missing_source (invalid e) = false
is_missing_source (fetched r) = is_missing r

-- Neither namespace has the object; the target namespace is asked only where it is another one and
-- the namespace of the bundle does not have it.
abbrev pub is_nowhere :
    {S : Type 0}
    → (NamespacedName → Eff S (Result (GoMap GoString)))
    → GoString
    → GoString
    → GoString
    → S
    → Bool
is_nowhere get name bundle_namespace target_namespace s =
    let first = get (record { name = name; namespace = bundle_namespace }) s in
    let second = get (record { name = name; namespace = target_namespace }) first.1 in
    is_absent first.0
    && (not (has_other_target bundle_namespace target_namespace) || is_absent second.0)

-- An error of the YAML parser is neither an error of the API nor `ErrNotFound`, and one of the API
-- is not `ErrNotFound`, which is this package's own.
pub record KeepsErrorsApart {S : Type 0} (parse_yaml : GoString → Result (GoMap GoString))
    (c : ValuesClient S) : Type 0 where
  pub parse_error :
      (text : GoString) (e : GoError) → parse_yaml text ≡ err e → is_not_found_error e ≡ false
  pub config_map_error :
      (k : NamespacedName) (s : S) (e : GoError)
      → (c.get_config_map k s).0 ≡ err e
      → is_err_not_found e ≡ false
  pub secret_error :
      (k : NamespacedName) (s : S) (e : GoError)
      → (c.get_secret k s).0 ≡ err e
      → is_err_not_found e ≡ false

module _ {S : Type 0} {parse_yaml : GoString → Result (GoMap GoString)} {c : ValuesClient S}
    (apart : KeepsErrorsApart parse_yaml c) where
  parse_all-is_missing :
      (m : GoMap GoString) (maps : List (GoMap GoString)) (e : GoError)
      → parse_all parse_yaml m maps ≡ err e
      → is_not_found_error e ≡ false
  unfolding parse_all is_not_found_error is_not_found is_err_not_found
  parse_all-is_missing [] maps e h = cc
  parse_all-is_missing ((key, text) ∷ m) maps e h = elim (Result-cases (parse_yaml text)) [
    | inl (parsed, q) ↦ parse_all-is_missing m (maps ++ parsed ∷ []) e (rw (q, parse_all) at h)
    | inr (x, q) ↦
        let apart_x = apart.parse_error text x q in
        ground (arith, q, apart_x, rw (q, parse_all) at h)
  ]

  parsed-is_missing :
      (m : GoMap GoString) → is_missing (parse_and_merge_config_map_data parse_yaml m) ≡ false
  unfolding parse_and_merge_config_map_data
  parsed-is_missing m = grind (arith, parse_all-is_missing)

  parsed_secret-is_missing :
      (m : GoMap (List ℕ)) → is_missing (parse_and_merge_secret_data parse_yaml m) ≡ false
  unfolding parse_and_merge_secret_data
  parsed_secret-is_missing m = parsed-is_missing (secret_data_to_string_map parse_yaml m)

  module _ (name bundle_namespace target_namespace : GoString) (s : S) where
    fetch_config_map-is_missing :
        is_missing (fetch_config_map parse_yaml c name bundle_namespace target_namespace s).0
        ≡ is_nowhere c.get_config_map name bundle_namespace target_namespace s
    unfolding fetch_config_map is_not_found_error is_not_found is_err_not_found not_found_error
        get_error
    fetch_config_map-is_missing = grind (arith, parsed-is_missing, apart.config_map_error)

    fetch_secret-is_missing :
        is_missing (fetch_secret parse_yaml c name bundle_namespace target_namespace s).0
        ≡ is_nowhere c.get_secret name bundle_namespace target_namespace s
    unfolding fetch_secret is_not_found_error is_not_found is_err_not_found not_found_error
        get_error
    fetch_secret-is_missing = grind (arith, parsed_secret-is_missing, apart.secret_error)

    -- For a reference with a name, and where errors of the YAML parser and of the API are kept apart
    -- from `ErrNotFound`: the resolver takes a source for missing, and so leaves it out if it is
    -- optional, exactly if the API server has the object neither in the namespace of the bundle nor,
    -- where that is another one, in the target namespace. Any other error is not taken for that.
    pub fetch_refs-is_missing :
        (i : ℕ) (secret_ref : Option GoString)
        → name ≢ []
        → let fetch = fetch_refs parse_yaml c bundle_namespace target_namespace i in
          (is_missing_source (fetch (some name) secret_ref s).0
            ≡ is_nowhere c.get_config_map name bundle_namespace target_namespace s)
          × (is_missing_source (fetch none (some name) s).0
              ≡ is_nowhere c.get_secret name bundle_namespace target_namespace s)
    unfolding fetch_refs
    fetch_refs-is_missing i secret_ref named =
        let filled : is_empty name ≡ false = ground arith in
        (rw filled fetch_config_map-is_missing, rw filled fetch_secret-is_missing)
