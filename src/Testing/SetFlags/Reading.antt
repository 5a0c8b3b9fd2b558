-- ===== src/Testing/SetFlags/Reading.antt =====
-- The flags of a Job, read back.
use k8s_werf_operator_go.Base.{
  Bool, false, Option, none, some, List, [], ◌∷◌, ◌++◌, ◌≡◌, ◌∙◌, refl, arith, GoString, lit,
  str_eq, str_eq_iff, ◌==◌, ◌||◌, if◌then◌else◌, All, append_assoc,
}
use mathlib.Core.List.{Permᴰ}
use mathlib.Core.List.Permᴰ
use k8s_werf_operator_go.Base.Maps.{GoMap, lookup, insert, keys, lookup-insert}
use k8s_werf_operator_go.Base.Sort.{sort_strings, sort_strings-permᴰ, All-permᴰ}
use k8s_werf_operator_go.Values.Escape.{escape_value, unescape, unescape-escape_value}
use k8s_werf_operator_go.Values.SetFlags.{
  flags_loop, generate_set_flags, generate_set_flags-flags_loop, value_or_empty,
}
use k8s_werf_operator_go.Testing.SetFlags.{split_at_equals, assign, extract_loop}

-- The key of a flag ends at the first `=`.
abbrev pub has_equals : GoString → Bool
has_equals [] = false
has_equals (c ∷ s) = c == b'=' || has_equals s

abbrev pub IsKey : GoString → Type 0
IsKey s = has_equals s ≡ false

split_at_equals-append :
    (key value : GoString) → IsKey key → split_at_equals (key ++ b'=' ∷ value) ≡ some (key, value)
unfolding split_at_equals
split_at_equals-append [] value h = refl
split_at_equals-append (c ∷ key) value h = ground (arith, split_at_equals-append key value)

assign-flag :
    (key value : GoString) (m : GoMap GoString)
    → IsKey key
    → assign ((key ++ lit "=") ++ value) m ≡ insert key value m
unfolding assign lit
assign-flag key value m h = rw (append_assoc, split_at_equals-append key value h, assign) refl

abbrev contains : GoString → List GoString → Bool
contains k [] = false
contains k (key ∷ ks) = str_eq key k || contains k ks

-- Reading the flags of some keys assigns each of them its value.
lookup-extract_loop :
    (value : GoString → GoString) (ks : List GoString) (m : GoMap GoString) (k : GoString)
    → All IsKey ks
    → lookup k (extract_loop (flags_loop value ks) m)
      ≡ (if contains k ks then some (escape_value (value k)) else lookup k m)
unfolding flags_loop extract_loop str_eq lit
lookup-extract_loop value [] m k plain = refl
lookup-extract_loop value (key ∷ ks) m k (is_key, plain) =
    let v = escape_value (value key) in
    let first = assign-flag key v m is_key in
    rw first (
      lookup-extract_loop value ks (insert key v m) k plain
      ∙ ground (arith, lookup-insert key k v m, str_eq_iff key k))

contains-permᴰ : {l m : List GoString} (k : GoString) → Permᴰ l m → contains k l ≡ contains k m
contains-permᴰ k Permᴰ.nil = refl
contains-permᴰ k (Permᴰ.cons e p) = let ih = contains-permᴰ k p in rw (e, ih) refl
contains-permᴰ k (Permᴰ.swap e f) = rw (e, f) (ground arith)
contains-permᴰ k (Permᴰ.trans p q) = contains-permᴰ k p ∙ contains-permᴰ k q

-- A key is listed exactly if it has a value.
lookup-contains :
    (k : GoString) (m : GoMap GoString)
    → lookup k m ≡ (if contains k (keys m) then some (value_or_empty (lookup k m)) else none)
unfolding lookup
lookup-contains k [] = refl
lookup-contains k ((j, v) ∷ m) = ground (arith, lookup-contains k m)

-- A value as the arguments give it: the flag that is read back, without the escapes.
unfoldable pub value_of : GoString → GoMap GoString → Option GoString
value_of k flags = elim (lookup k flags) [ none ↦ none | some v ↦ unescape v ]

-- The flags of a map are read back as the map, after arguments that are no flags.
pub value_of-flags :
    (m : GoMap GoString) (k : GoString)
    → All IsKey (keys m)
    → value_of k (extract_loop (generate_set_flags m) []) ≡ lookup k m
unfolding value_of lookup
value_of-flags m k plain =
    let ks = sort_strings (keys m) in
    let value = λ (key : GoString). value_or_empty (lookup key m) in
    let sorted = sort_strings-permᴰ (keys m) in
    let plain' : All IsKey ks = All-permᴰ IsKey (Permᴰ.symm sorted) plain in
    let read = lookup-extract_loop value ks [] k plain' in
    let same = contains-permᴰ k sorted in
    let listed = lookup-contains k m in
    rw generate_set_flags-flags_loop
      (ground (arith, read, same, listed, unescape-escape_value (value k)))
