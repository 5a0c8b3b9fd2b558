-- ===== src/Converge/JobName/Names.antt =====
-- When a Job's name is produced, how long it is, and that names do not collide.
use Prim.Native.Nat.{bit_xor}
use mathlib.Core.List.{append_cancel_left}
use k8s_werf_operator_go.Base.{
  ℕ, Option, none, some, List, [], ◌∷◌, ◌++◌, ◌+◌, ◌-◌, ◌*◌, ◌%◌, ◌^◌, ◌≤◌, ◌<◌, if◌then◌else◌, ltb,
  leb, GoString, lit, length, length-append, length-take, take, ◌≡◌, ◌≢◌, ◌↔◌, arith, subst, All,
  Option-cases, inl, inr, Bool-cases, ltb→lt, leb→le,
}
use k8s_werf_operator_go.Converge.JobName.{
  fnv_write, fnv32a, format_hex32, tag_hash, encode_to_string, assemble_name, job_name,
  max_name_length,
}
use k8s_werf_operator_go.Converge.JobName.Hex.{
  length-format_hex32, length-encode_to_string, encode_to_string_injective, IsByte, take_all,
}

fnv_write-lt : (h : ℕ) (s : GoString) → h < 2 ^ 32 → fnv_write h s < 2 ^ 32
unfolding fnv_write
fnv_write-lt h [] k = k
fnv_write-lt h (c ∷ s) k = fnv_write-lt ((bit_xor h c * 16777619) % 2 ^ 32) s (omega arith)

pub fnv32a-lt : (s : GoString) → fnv32a s < 2 ^ 32
unfolding fnv32a
fnv32a-lt s = fnv_write-lt 2166136261 s (omega arith)

-- The eight-digit slice of the tag's hash panics exactly when the hash is below 2 ^ 28, and
-- otherwise gives the whole print.
tag_hash_lem :
    (tag : GoString)
    → ((tag_hash tag ≡ none) ↔ (fnv32a tag < 2 ^ 28))
      × ((2 ^ 28 ≤ fnv32a tag) → tag_hash tag ≡ some (format_hex32 (fnv32a tag)))
      × ((2 ^ 28 ≤ fnv32a tag) → length (format_hex32 (fnv32a tag)) ≡ 8)
unfolding tag_hash
tag_hash_lem tag =
    let bounds = length-format_hex32 (fnv32a tag) (fnv32a-lt tag) in
    (
      ground (arith, bounds),
      ground (arith, bounds, take_all 8 (format_hex32 (fnv32a tag))),
      ground (arith, bounds),
    )

-- Building a Job's name panics exactly when the tag's hash is below 2 ^ 28, whatever the bundle is
-- called and whatever random bytes are drawn: such a hash has fewer than eight hexadecimal digits.
pub job_name_panics :
    (bundle tag : GoString) (random : Option (List ℕ))
    → (job_name bundle tag random ≡ none) ↔ (fnv32a tag < 2 ^ 28)
unfolding job_name
job_name_panics bundle tag random = ground (arith, tag_hash_lem tag)

pub tag_hash-length :
    (tag : GoString) {hash : GoString} → tag_hash tag ≡ some hash → length hash ≡ 8
tag_hash-length tag {hash} h = elim (Bool-cases (ltb (fnv32a tag) (2 ^ 28))) [
  | inl small ↦ absurd (cc ((tag_hash_lem tag).0.1 (ltb→lt _ _ small)))
  | inr large ↦
      let e : format_hex32 (fnv32a tag) ≡ hash = cc ((tag_hash_lem tag).1 (ground arith)) in
      subst (λ w. length w ≡ 8) e ((tag_hash_lem tag).2 (ground arith))
]

-- A name up to its random part, which has `n` bytes.
name_prefix : GoString → GoString → ℕ → GoString
name_prefix bundle hash n =
    if leb (length bundle + 1 + length hash + 1 + n) max_name_length
    then bundle ++ lit "-" ++ hash ++ lit "-"
    else if ltb 0 (max_name_length - length hash - n - 2)
    then take (max_name_length - length hash - n - 2) bundle ++ lit "-" ++ hash ++ lit "-"
    else hash ++ lit "-"

pub length_joined :
    (a b c : GoString)
    → length (a ++ lit "-" ++ b ++ lit "-" ++ c) ≡ length a + 1 + length b + 1 + length c
unfolding lit
length_joined a b c = omega (
  arith,
  length-append a (b'-' ∷ []),
  length-append (a ++ b'-' ∷ []) b,
  length-append (a ++ b'-' ∷ [] ++ b) (b'-' ∷ []),
  length-append (a ++ b'-' ∷ [] ++ b ++ b'-' ∷ []) c,
)

assemble_name-prefix :
    (bundle hash uuid : GoString)
    → assemble_name bundle hash uuid ≡ name_prefix bundle hash (length uuid) ++ uuid
unfolding assemble_name name_prefix
assemble_name-prefix bundle hash uuid = rw (length_joined bundle hash uuid) (ground arith)

assemble_name-length :
    (bundle hash uuid : GoString)
    → length hash ≡ 8
    → length uuid ≡ 8
    → length (assemble_name bundle hash uuid) ≤ 253
unfolding assemble_name
assemble_name-length bundle hash uuid h k =
    elim (Bool-cases
      (leb (length (bundle ++ lit "-" ++ hash ++ lit "-" ++ uuid)) max_name_length)) [
        | inl fits ↦ rw fits (leb→le _ _ fits)
        | inr long ↦
            rw (long, h, k)
              (omega (arith, length_joined (take 235 bundle) hash uuid, length-take 235 bundle))
      ]

-- With four random bytes the name has at most 253 bytes, however long the bundle's name is.
job_name-length :
    (bundle tag : GoString) (bytes : List ℕ) {name : GoString}
    → length bytes ≡ 4
    → job_name bundle tag (some bytes) ≡ some name
    → length name ≤ 253
unfolding job_name
job_name-length bundle tag bytes {name} h e = elim (Option-cases (tag_hash tag)) [
  | inl q ↦ cc (rw (q, job_name) at e)
  | inr (hash, q) ↦
      let e' : assemble_name bundle hash (encode_to_string bytes) ≡ name =
        cc (rw (q, job_name) at e) in
      subst (λ w. length w ≤ 253) e'
        (assemble_name-length bundle hash (encode_to_string bytes) (tag_hash-length tag q)
          (omega (arith, length-encode_to_string bytes)))
]

-- Two Jobs of one bundle and tag have different names if their random bytes differ.
pub job_name_distinct :
    (bundle tag : GoString) (bytes bytes' : List ℕ) {name name' : GoString}
    → length bytes ≡ length bytes'
    → All IsByte bytes
    → All IsByte bytes'
    → job_name bundle tag (some bytes) ≡ some name
    → job_name bundle tag (some bytes') ≡ some name'
    → bytes ≢ bytes'
    → name ≢ name'
unfolding job_name
job_name_distinct bundle tag bytes bytes' {name} {name'} same h h' e e' differ equal =
    elim (Option-cases (tag_hash tag)) [
      | inl q ↦ cc (rw (q, job_name) at e)
      | inr (hash, q) ↦ differ (
          encode_to_string_injective bytes bytes' h h' (
            append_cancel_left (name_prefix bundle hash (length (encode_to_string bytes))) _ _ (
              cc (
                rw (q, job_name) at e,
                rw (q, job_name) at e',
                assemble_name-prefix bundle hash (encode_to_string bytes),
                assemble_name-prefix bundle hash (encode_to_string bytes'),
                length-encode_to_string bytes,
                length-encode_to_string bytes',
              ))))
    ]
