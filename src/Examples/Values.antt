-- ===== src/Examples/Values.antt =====
-- internal/values: the theorems on values, at small maps, documents and sources.
use k8s_werf_operator_go.Base.{
  ℕ, none, some, true, false, List, [], ◌∷◌, ◌++◌, ◌≡◌, ◌≢◌, ◌↔◌, refl, arith, lit, GoString,
  if◌then◌else◌, str_eq,
}
use k8s_werf_operator_go.Base.Decimal.{format_ℕ}
use k8s_werf_operator_go.Base.Maps.{GoMap, lookup, insert}
use k8s_werf_operator_go.Base.Result.{
  GoError, Result, ok, err, api, not_found, is_not_found, is_err_not_found,
}
use k8s_werf_operator_go.Api.{ValuesSource}
use k8s_werf_operator_go.Values.Escape.{escape_value, unescape, unescape-escape_value}
use k8s_werf_operator_go.Values.Merge.{merge_maps}
use k8s_werf_operator_go.Values.Yaml.{Value, flatten_value, leaves}
use k8s_werf_operator_go.Values.Yaml
use k8s_werf_operator_go.Values.Yaml.Paths.{Step, path_text, ScalarAt, lookup-flatten_value}
use k8s_werf_operator_go.Values.Fetch.{
  ValuesClient, fetch_config_map, fetch_secret, parse_and_merge_config_map_data,
}
use k8s_werf_operator_go.Values.Fetch.Order.{value_at, fetch_config_map-order}
use k8s_werf_operator_go.Values.Resolver.{resolve_values, fetch_refs, is_not_found_error}
use k8s_werf_operator_go.Values.Resolver.Absent.{
  KeepsErrorsApart, is_missing_source, is_nowhere, fetch_refs-is_missing,
}
use k8s_werf_operator_go.Values.Resolver.Failures.{EndsAs, resolve_values-EndsAs}

abbrev a : GoString
a = b'a' ∷ []

abbrev b : GoString
b = b'b' ∷ []

-- a\,=
abbrev special : GoString
special = b'a' ∷ b'\\' ∷ b',' ∷ b'=' ∷ []

unescape-escape_value_example : unescape (escape_value special) ≡ some special
unescape-escape_value_example = unescape-escape_value special

-- Two maps that both have the key `a`.
abbrev m : GoMap GoString
m = (a, a) ∷ (b, a) ∷ []

abbrev n : GoMap GoString
n = (a, b) ∷ []

-- {a: {b: a}, b: true}
abbrev document : Value
document = Value.object (
    Yaml.field a (Value.object (Yaml.field b (Value.string a) Yaml.end))
      (Yaml.field b (Value.bool true) Yaml.end))

abbrev format_float : ℕ → GoString
format_float w = []

abbrev a_b : GoString
a_b = a ++ b'.' ∷ b

lookup-flatten_value_example :
    (lookup a_b (flatten_value format_float [] document []) ≡ some a)
    ↔ ((path : List Step) × (path_text [] path ≡ a_b) × ScalarAt format_float document path a)
unfolding leaves lookup str_eq lit
lookup-flatten_value_example = lookup-flatten_value format_float document a_b a (refl, (refl, tt))

-- {a: [a, a]} has its second text under `a[1]`, the path of the key `a` and the index 1.
abbrev texts : Value
texts = Value.object (
    Yaml.field a (Value.array (Yaml.item (Value.string a) (Yaml.item (Value.string b) Yaml.nil)))
      Yaml.end)

second_text :
    lookup (a ++ b'[' ∷ b'1' ∷ b']' ∷ []) (flatten_value format_float [] texts []) ≡ some b
unfolding flatten_value insert lookup str_eq lit format_ℕ
second_text = refl

-- A parser that reads a document as its own value under the key `a`.
abbrev parse : GoString → Result (GoMap GoString)
parse doc = ok ((a, doc) ∷ [])

-- A client whose every ConfigMap has this data.
abbrev always : GoMap GoString → ValuesClient (Unit {0})
always entries = record {
  get_config_map = λ k s. (ok entries, s);
  get_secret = λ k s. (err (api not_found []), s);
}

fetch_config_map-order_example :
    let fetch = λ (x : ValuesClient (Unit {0})). (fetch_config_map parse x a b b tt).0 in
    let visited = fetch (always ((a, a) ∷ (b, b) ∷ [])) in
    let swapped = fetch (always ((b, b) ∷ (a, a) ∷ [])) in
    (value_at a visited ≡ ok (some b)) × (value_at a swapped ≡ ok (some a)) × (visited ≢ swapped)
unfolding lookup str_eq
fetch_config_map-order_example =
    fetch_config_map-order parse (always ((a, a) ∷ (b, b) ∷ [])) (always ((b, b) ∷ (a, a) ∷ [])) a b
      b tt a b a b a a b refl refl refl refl (refl, tt) (refl, tt) refl refl (λ e. ground arith)

-- A client with one ConfigMap in the namespace `a` and no Secret.
abbrev client : ValuesClient (Unit {0})
client = record {
  get_config_map = λ k s. (if str_eq k.namespace a then ok m else err (api not_found []), s);
  get_secret = λ k s. (err (api not_found []), s);
}

-- The ConfigMap, and an optional Secret that is missing.
abbrev sources : List ValuesSource
sources =
    record { config_map_ref = some b; secret_ref = none; optional = false }
    ∷ record { config_map_ref = none; secret_ref = some b; optional = true }
    ∷ []

abbrev resolved : GoMap GoString
resolved = (a, a) ∷ []

resolves : (resolve_values parse client a b sources tt).0 ≡ ok resolved
unfolding resolve_values fetch_refs fetch_config_map parse_and_merge_config_map_data merge_maps
    insert fetch_secret is_not_found is_err_not_found is_not_found_error str_eq
resolves = refl

resolve_values-EndsAs_example :
    EndsAs parse client a b tt sources (resolve_values parse client a b sources tt).0
resolve_values-EndsAs_example = resolve_values-EndsAs parse client a b sources tt

parse_fails : (text : GoString) (e : GoError) → parse text ≡ err e → is_not_found_error e ≡ false
unfolding is_not_found_error is_not_found is_err_not_found str_eq
parse_fails text e h = ground arith

client-KeepsErrorsApart : KeepsErrorsApart parse client
unfolding is_err_not_found str_eq
client-KeepsErrorsApart = record {
  parse_error = parse_fails;
  config_map_error = λ k s e h. ground arith;
  secret_error = λ k s e h. ground arith;
}

-- The ConfigMap is in the namespace `a`, the Secret in none.
fetch_refs-is_missing_example :
    let fetch = fetch_refs parse client b a 0 in
    (is_missing_source (fetch (some b) none tt).0 ≡ is_nowhere client.get_config_map b b a tt)
    × (is_missing_source (fetch none (some b) tt).0 ≡ is_nowhere client.get_secret b b a tt)
fetch_refs-is_missing_example =
    fetch_refs-is_missing client-KeepsErrorsApart b b a tt 0 none (λ e. ground arith)
