-- ===== src/Converge/JobName.antt =====
-- internal/converge/job.go: `jobName`. The hash is FNV-1a with 32 bits; the random bytes are given.
pub mod Hex
pub mod Names
pub mod Labels
use Prim.Native.Nat.{bit_xor}
use k8s_werf_operator_go.Base.{
  ℕ, zero, suc, Option, none, some, List, [], ◌∷◌, ◌++◌, ◌+◌, ◌-◌, ◌*◌, ◌/◌, ◌%◌, ◌^◌,
  if◌then◌else◌, ltb, leb, GoString, lit, length, take, ◌≡◌, refl,
}

-- `h.Write`: for each byte, xor and then multiply in 32 bits.
unfoldable pub fnv_write : ℕ → GoString → ℕ
fnv_write h [] = h
fnv_write h (c ∷ s) = fnv_write ((bit_xor h c * 16777619) % 2 ^ 32) s

-- `fnv.New32a`, `Write`, `Sum32`
unfoldable pub fnv32a : GoString → ℕ
unfolding fnv_write
fnv32a s = fnv_write 2166136261 s

unfoldable pub hex_digit : ℕ → ℕ
hex_digit d = if ltb d 10 then b'0' + d else b'a' + (d - 10)

-- `%x`: no leading zeros. The fuel bounds the number of digits.
unfoldable pub hex_digits : ℕ → ℕ → GoString
hex_digits zero n = []
hex_digits (suc fuel) n =
    let rest = hex_digits fuel (n / 16) ++ hex_digit (n % 16) ∷ [] in
    if ltb n 16 then hex_digit n ∷ [] else rest

-- `%x` of an uint32, which has at most eight digits.
unfoldable pub format_hex32 : ℕ → GoString
format_hex32 n = hex_digits 8 n

-- `s[:n]`; `none` is the panic where `n` is greater than the length.
unfoldable pub slice_to : GoString → ℕ → Option GoString
slice_to s n = if leb n (length s) then some (take n s) else none

-- `fmt.Sprintf("%x", h.Sum32())[:8]`
unfoldable pub tag_hash : GoString → Option GoString
unfolding slice_to
tag_hash tag = slice_to (format_hex32 (fnv32a tag)) 8

-- `hex.EncodeToString`: two digits for each byte.
unfoldable pub encode_to_string : List ℕ → GoString
encode_to_string [] = []
encode_to_string (b ∷ bs) = hex_digit (b / 16) ∷ hex_digit (b % 16) ∷ encode_to_string bs

abbrev pub max_name_length : ℕ
max_name_length = 253

-- The name for a tag hash and the random part in hexadecimal.
unfoldable pub assemble_name : GoString → GoString → GoString → GoString
assemble_name bundle hash uuid =
    let full_name = bundle ++ lit "-" ++ hash ++ lit "-" ++ uuid in
    let max_bundle_len = max_name_length - length hash - length uuid - 2 in
    if leb (length full_name) max_name_length
    then full_name
    else if ltb 0 max_bundle_len
    then take max_bundle_len bundle ++ lit "-" ++ hash ++ lit "-" ++ uuid
    else hash ++ lit "-" ++ uuid

-- `jobName`: the four bytes that `rand.Read` gives, or nothing where it fails. `none` is a panic.
unfoldable pub job_name : GoString → GoString → Option (List ℕ) → Option GoString
job_name bundle tag random = elim (tag_hash tag) [
  | none ↦ none
  | some hash ↦ elim random [
    | none ↦ some (bundle ++ lit "-" ++ hash)
    | some uuid_bytes ↦ some (assemble_name bundle hash (encode_to_string uuid_bytes))
  ]
]
