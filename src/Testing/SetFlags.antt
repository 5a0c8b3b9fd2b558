-- ===== src/Testing/SetFlags.antt =====
-- internal/testing/values.go: `ExtractSetFlags`.
pub mod Reading
pub mod Deployed
use k8s_werf_operator_go.Base.{
  Option, none, some, List, [], ◌∷◌, GoString, lit, true, false, str_eq, ◌==◌, if◌then◌else◌,
}
use k8s_werf_operator_go.Base.Maps.{GoMap, insert}
use k8s_werf_operator_go.Converge.Builder.{Job}

-- `strings.SplitN(s, "=", 2)`, where it has two parts.
unfoldable pub split_at_equals : GoString → Option (GoString × GoString)
split_at_equals [] = none
split_at_equals (c ∷ s) =
    let rest = split_at_equals s in
    if c == b'='
    then some ([], s)
    else elim rest [ none ↦ none | some (key, value) ↦ some (c ∷ key, value) ]

-- `result[parts[0]] = parts[1]`, if there are two parts.
unfoldable pub assign : GoString → GoMap GoString → GoMap GoString
unfolding split_at_equals
assign s result = elim (split_at_equals s) [
  | none ↦ result
  | some (key, value) ↦ insert key value result
]

-- The loop over the arguments.
unfoldable pub extract_loop : List GoString → GoMap GoString → GoMap GoString
unfolding assign
extract_loop [] result = result
extract_loop (arg ∷ []) result = result
extract_loop (arg ∷ next ∷ args) result = elim (str_eq arg (lit "--set")) [
  | true ↦ extract_loop args (assign next result)
  | false ↦ extract_loop (next ∷ args) result
]

-- A Job of the model has one container, with its arguments.
unfoldable pub extract_set_flags : Option Job → GoMap GoString
unfolding extract_loop
extract_set_flags none = []
extract_set_flags (some job) = extract_loop job.args []
