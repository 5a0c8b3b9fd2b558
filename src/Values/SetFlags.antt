-- ===== src/Values/SetFlags.antt =====
-- internal/values/helpers.go: `GenerateSetFlags`.

use k8s_werf_operator_go.Base.{
  Option, none, some, List, [], ◌∷◌, ◌++◌, ◌≡◌, refl, ap, GoString, lit, fun_ext,
}
use k8s_werf_operator_go.Base.Sort.{sort_strings, sort_strings_permᴰ}
use k8s_werf_operator_go.Base.Maps.{GoMap, lookup, keys, IsSameMap}
use k8s_werf_operator_go.Values.Escape.{escape_value}

-- `values[key]`: the empty string where the key is missing.
abbrev pub value_or_empty : Option GoString → GoString
value_or_empty none = []
value_or_empty (some v) = v

-- The loop over the sorted keys; `value` reads the map.
unfoldable pub flags_loop : (GoString → GoString) → List GoString → List GoString
flags_loop value [] = []
flags_loop value (key ∷ ks) =
    lit "--set" ∷ (key ++ lit "=" ++ escape_value (value key)) ∷ flags_loop value ks

unfoldable pub generate_set_flags : GoMap GoString → List GoString
unfolding flags_loop
generate_set_flags [] = []
generate_set_flags (e ∷ values) =
    flags_loop (λ key. value_or_empty (lookup key (e ∷ values))) (sort_strings (keys (e ∷ values)))

pub generate_set_flags-flags_loop :
    (m : GoMap GoString)
    → generate_set_flags m
      ≡ flags_loop (λ key. value_or_empty (lookup key m)) (sort_strings (keys m))
unfolding generate_set_flags sort_strings
generate_set_flags-flags_loop [] = refl
generate_set_flags-flags_loop (e ∷ m) = refl

-- The arguments do not depend on the order in which `range` visits the map.
generate_set_flags-deterministic :
    (m n : GoMap GoString) → IsSameMap m n → generate_set_flags m ≡ generate_set_flags n
generate_set_flags-deterministic m n same =
    rw
      (
        generate_set_flags-flags_loop m,
        generate_set_flags-flags_loop n,
        sort_strings_permᴰ same.same_keys,
      )
      (ap (λ f. flags_loop (λ key. value_or_empty (f key)) (sort_strings (keys n)))
        (fun_ext same.same_values))
