-- ===== src/Values/Yaml.antt =====
-- internal/values/yaml.go: a YAML document as a flat map. The YAML parser and the printing of
-- floats are parameters.
pub mod Paths
use k8s_werf_operator_go.Base.{
  ℕ, suc, Bool, true, false, [], ◌∷◌, ◌++◌, ◌≡◌, refl, GoString, lit, is_empty, if◌then◌else◌,
}
use k8s_werf_operator_go.Base.Int.{ℤ}
use k8s_werf_operator_go.Base.Decimal.{format_ℕ, format_ℤ}
use k8s_werf_operator_go.Base.Maps.{GoMap, insert, lookup, IsMap}
use k8s_werf_operator_go.Base.Result.{Result, ok, err, wrapped}
use k8s_werf_operator_go.Values.Merge.{merge_into, or_else-none, lookup-merge_into}

-- What the cases of the type switch tell apart. A float64 is its bit pattern; a value of any
-- other type is the text that `%v` prints for it.
mutual
  pub data Value : Type 0 where
    null : Value
    bool : Bool → Value
    string : GoString → Value
    int : ℤ → Value
    int64 : ℤ → Value
    float64 : ℕ → Value
    other : GoString → Value
    array : Items → Value
    object : Fields → Value

  pub data Items : Type 0 where
    nil : Items
    item : Value → Items → Items

  -- A map, in the order in which `range` visits it.
  pub data Fields : Type 0 where
    end : Fields
    field : GoString → Value → Fields → Fields

abbrev pub format_bool : Bool → GoString
format_bool true = lit "true"
format_bool false = lit "false"

-- The path of a map entry, and of an array element.
abbrev pub field_path : GoString → GoString → GoString
field_path prefix key = if is_empty prefix then key else prefix ++ lit "." ++ key

abbrev pub item_path : GoString → ℕ → GoString
item_path prefix i = prefix ++ lit "[" ++ format_ℕ i ++ lit "]"

module _ (format_float : ℕ → GoString) where
  unfoldable mutual
    pub flatten_value : GoString → Value → GoMap GoString → GoMap GoString
    flatten_value prefix (object fs) result = flatten_fields prefix fs result
    flatten_value prefix (array vs) result = flatten_items prefix 0 vs result
    flatten_value prefix (string s) result = insert prefix s result
    flatten_value prefix (int n) result = insert prefix (format_ℤ n) result
    flatten_value prefix (int64 n) result = insert prefix (format_ℤ n) result
    flatten_value prefix (float64 w) result = insert prefix (format_float w) result
    flatten_value prefix (bool b) result = insert prefix (format_bool b) result
    flatten_value prefix null result = insert prefix [] result
    flatten_value prefix (other s) result = insert prefix s result

    pub flatten_items : GoString → ℕ → Items → GoMap GoString → GoMap GoString
    flatten_items prefix i nil result = result
    flatten_items prefix i (item v vs) result =
        flatten_items prefix (suc i) vs (flatten_value (item_path prefix i) v result)

    pub flatten_fields : GoString → Fields → GoMap GoString → GoMap GoString
    flatten_fields prefix end result = result
    flatten_fields prefix (field key v fs) result =
        flatten_fields prefix fs (flatten_value (field_path prefix key) v result)

  -- The leaves of a value, each with its path, in the order of the walk.
  unfoldable mutual
    pub leaves : GoString → Value → GoMap GoString
    leaves prefix (object fs) = leaves_fields prefix fs
    leaves prefix (array vs) = leaves_items prefix 0 vs
    leaves prefix (string s) = (prefix, s) ∷ []
    leaves prefix (int n) = (prefix, format_ℤ n) ∷ []
    leaves prefix (int64 n) = (prefix, format_ℤ n) ∷ []
    leaves prefix (float64 w) = (prefix, format_float w) ∷ []
    leaves prefix (bool b) = (prefix, format_bool b) ∷ []
    leaves prefix null = (prefix, []) ∷ []
    leaves prefix (other s) = (prefix, s) ∷ []

    pub leaves_items : GoString → ℕ → Items → GoMap GoString
    leaves_items prefix i nil = []
    leaves_items prefix i (item v vs) =
        leaves (item_path prefix i) v ++ leaves_items prefix (suc i) vs

    pub leaves_fields : GoString → Fields → GoMap GoString
    leaves_fields prefix end = []
    leaves_fields prefix (field key v fs) =
        leaves (field_path prefix key) v ++ leaves_fields prefix fs

  merge_into-append :
      (m n result : GoMap GoString)
      → merge_into (m ++ n) result ≡ merge_into n (merge_into m result)
  unfolding merge_into
  merge_into-append [] n result = refl
  merge_into-append ((k, v) ∷ m) n result = merge_into-append m n (insert k v result)

  mutual
    unfolding flatten_value leaves merge_into

    pub flatten_value-leaves :
        (prefix : GoString) (v : Value) (result : GoMap GoString)
        → flatten_value prefix v result ≡ merge_into (leaves prefix v) result
    flatten_value-leaves prefix (object fs) result = flatten_fields-leaves prefix fs result
    flatten_value-leaves prefix (array vs) result = flatten_items-leaves prefix 0 vs result
    flatten_value-leaves prefix (string s) result = refl
    flatten_value-leaves prefix (int n) result = refl
    flatten_value-leaves prefix (int64 n) result = refl
    flatten_value-leaves prefix (float64 w) result = refl
    flatten_value-leaves prefix (bool b) result = refl
    flatten_value-leaves prefix null result = refl
    flatten_value-leaves prefix (other s) result = refl

    flatten_items-leaves :
        (prefix : GoString) (i : ℕ) (vs : Items) (result : GoMap GoString)
        → flatten_items prefix i vs result ≡ merge_into (leaves_items prefix i vs) result
    flatten_items-leaves prefix i nil result = refl
    flatten_items-leaves prefix i (item v vs) result =
        rw
          (merge_into-append (leaves (item_path prefix i) v) (leaves_items prefix (suc i) vs)
            result)
          (rw (flatten_value-leaves (item_path prefix i) v result)
            (flatten_items-leaves prefix (suc i) vs _))

    flatten_fields-leaves :
        (prefix : GoString) (fs : Fields) (result : GoMap GoString)
        → flatten_fields prefix fs result ≡ merge_into (leaves_fields prefix fs) result
    flatten_fields-leaves prefix end result = refl
    flatten_fields-leaves prefix (field key v fs) result =
        rw (merge_into-append (leaves (field_path prefix key) v) (leaves_fields prefix fs) result) (
          rw (flatten_value-leaves (field_path prefix key) v result)
            (flatten_fields-leaves prefix fs _))

  -- The parser gives a value or an error.
  module _ (unmarshal : GoString → Result Value) where
    unfoldable pub parse_yaml : GoString → Result (GoMap GoString)
    parse_yaml yaml_data = if is_empty yaml_data then ok [] else elim (unmarshal yaml_data) [
      | err e ↦ err (wrapped (lit "failed to parse YAML") e)
      | ok data_value ↦ ok (flatten_value [] data_value [])
    ]
