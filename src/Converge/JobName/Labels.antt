-- ===== src/Converge/JobName/Labels.antt =====
-- Whether Kubernetes takes a Job's name: letters, digits and dashes, and at most 63 of them.
use Prim.Native.Nat.{min}
use k8s_werf_operator_go.Base.{
  ℕ, zero, suc, Bool, true, false, some, List, [], ◌∷◌, ◌++◌, ◌+◌, ◌/◌, ◌%◌, ◌≤◌, ◌<◌, ◌==◌, ◌&&◌,
  ◌||◌, ltb, leb, GoString, lit, length, length-take, take, ◌≡◌, ◌↔◌, refl, arith, All,
  Option-cases, inl, inr, Bool-cases,
}
use k8s_werf_operator_go.Converge.JobName.{
  hex_digit, hex_digits, format_hex32, slice_to, tag_hash, encode_to_string, assemble_name,
  job_name, max_name_length, fnv32a,
}
use k8s_werf_operator_go.Converge.JobName.Hex.{length-encode_to_string, IsByte}
use k8s_werf_operator_go.Converge.JobName.Names.{length_joined, tag_hash-length}

abbrev pub is_alphanumeric : ℕ → Bool
is_alphanumeric c = (leb b'a' c && leb c b'z') || (leb b'0' c && leb c b'9')

-- The characters of a DNS label.
abbrev pub is_label_char : ℕ → Bool
is_label_char c = is_alphanumeric c || c == b'-'

abbrev pub all_of : (ℕ → Bool) → GoString → Bool
all_of p [] = true
all_of p (c ∷ s) = p c && all_of p s

abbrev pub starts_well : GoString → Bool
starts_well [] = false
starts_well (c ∷ s) = is_alphanumeric c

abbrev pub ends_well : GoString → Bool
ends_well [] = false
ends_well (c ∷ []) = is_alphanumeric c
ends_well (c ∷ d ∷ s) = ends_well (d ∷ s)

-- A DNS label, whatever its length.
abbrev pub is_label : GoString → Bool
is_label s = all_of is_label_char s && (starts_well s && ends_well s)

all_of-append : (p : ℕ → Bool) (s t : GoString) → all_of p (s ++ t) ≡ (all_of p s && all_of p t)
all_of-append p [] t = refl
all_of-append p (c ∷ s) t = ground (arith, all_of-append p s t)

all_of-take : (p : ℕ → Bool) (n : ℕ) (s : GoString) → all_of p s ≡ true → all_of p (take n s) ≡ true
all_of-take p zero s h = refl
all_of-take p (suc n) [] h = refl
all_of-take p (suc n) (c ∷ s) h = ground (arith, all_of-take p n s)

all_of-label : (s : GoString) → all_of is_alphanumeric s ≡ true → all_of is_label_char s ≡ true
all_of-label [] h = refl
all_of-label (c ∷ s) h = ground (arith, all_of-label s)

ends_well-all_of :
    (c : ℕ) (s : GoString) → all_of is_alphanumeric (c ∷ s) ≡ true → ends_well (c ∷ s) ≡ true
ends_well-all_of c [] h = ground arith
ends_well-all_of c (d ∷ s) h = ends_well-all_of d s (ground arith)

ends_well-append :
    (s : GoString) (c : ℕ) (t : GoString) → ends_well (s ++ c ∷ t) ≡ ends_well (c ∷ t)
ends_well-append [] c t = refl
ends_well-append (d ∷ []) c t = refl
ends_well-append (d ∷ e ∷ s) c t = ends_well-append (e ∷ s) c t

hex_digit-all_of : (d : ℕ) → d < 16 → is_alphanumeric (hex_digit d) ≡ true
unfolding hex_digit
hex_digit-all_of d h = ground arith

hex_digits-all_of : (fuel n : ℕ) → all_of is_alphanumeric (hex_digits fuel n) ≡ true
unfolding hex_digits
hex_digits-all_of zero n = refl
hex_digits-all_of (suc fuel) n = elim (Bool-cases (ltb n 16)) [
  | inl q ↦ let small : n < 16 = ground (arith, q) in ground (arith, q, hex_digit-all_of n small)
  | inr q ↦ ground (
    arith,
    q,
    hex_digits-all_of fuel (n / 16),
    hex_digit-all_of (n % 16),
    all_of-append is_alphanumeric (hex_digits fuel (n / 16)) (hex_digit (n % 16) ∷ []),
  )
]

tag_hash-all_of :
    (tag : GoString) {hash : GoString}
    → tag_hash tag ≡ some hash
    → all_of is_alphanumeric hash ≡ true
unfolding tag_hash slice_to format_hex32
tag_hash-all_of tag {hash} h =
    let digits = hex_digits 8 (fnv32a tag) in
    let cut = all_of-take is_alphanumeric 8 digits (hex_digits-all_of 8 (fnv32a tag)) in
    ground (arith, cut, h)

encode_to_string-all_of :
    (bs : List ℕ) → All IsByte bs → all_of is_alphanumeric (encode_to_string bs) ≡ true
unfolding encode_to_string
encode_to_string-all_of [] h = refl
encode_to_string-all_of (b ∷ bs) (h, hs) =
    ground
      (arith, hex_digit-all_of (b / 16), hex_digit-all_of (b % 16), encode_to_string-all_of bs hs)

-- The start of a label, a dash, some digits, a dash and some more digits are a label.
joined-is_label :
    (start hash uuid : GoString)
    → all_of is_label_char start ≡ true
    → starts_well start ≡ true
    → all_of is_alphanumeric hash ≡ true
    → all_of is_alphanumeric uuid ≡ true
    → length uuid ≡ 8
    → is_label (start ++ lit "-" ++ hash ++ lit "-" ++ uuid) ≡ true
unfolding lit
joined-is_label [] hash uuid h s k m n = cc
joined-is_label (c ∷ start) hash [] h s k m n = absurd (omega (arith, n))
joined-is_label (c ∷ start) hash (d ∷ uuid) h s k m n =
    let p = is_label_char in
    let dash = b'-' ∷ [] in
    let first = (c ∷ start) ++ dash in
    let second = first ++ hash in
    let third = second ++ dash in
    let last = ends_well-append third d uuid in
    let whole = all_of-append p third (d ∷ uuid) in
    let to_third = all_of-append p second dash in
    let to_second = all_of-append p first hash in
    let to_first = all_of-append p (c ∷ start) dash in
    let digits = all_of-label hash k in
    let more = all_of-label (d ∷ uuid) m in
    let good = ends_well-all_of d uuid m in
    ground (arith, h, s, last, whole, to_third, to_second, to_first, digits, more, good)

starts_well-take :
    (n : ℕ) (s : GoString) → starts_well s ≡ true → starts_well (take (suc n) s) ≡ true
starts_well-take n [] h = h
starts_well-take n (c ∷ s) h = h

assemble_name-is_label :
    (bundle hash uuid : GoString)
    → is_label bundle ≡ true
    → all_of is_alphanumeric hash ≡ true
    → all_of is_alphanumeric uuid ≡ true
    → length hash ≡ 8
    → length uuid ≡ 8
    → (is_label (assemble_name bundle hash uuid) ≡ true)
      × (length (assemble_name bundle hash uuid) ≡ min (length bundle) 235 + 18)
unfolding assemble_name
assemble_name-is_label bundle hash uuid h k m n o =
    let whole = length_joined bundle hash uuid in
    let chars : all_of is_label_char bundle ≡ true = ground (arith, h) in
    let start : starts_well bundle ≡ true = ground (arith, h) in
    elim (Bool-cases
      (leb (length (bundle ++ lit "-" ++ hash ++ lit "-" ++ uuid)) max_name_length)) [
        | inl fits ↦
            let short : length bundle ≤ 235 = ground (arith, fits, whole, n, o) in
            rw fits (
              joined-is_label bundle hash uuid chars start k m o,
              omega (arith, whole, n, o, short),
            )
        | inr long ↦
            let above : 235 < length bundle = ground (arith, long, whole, n, o) in
            rw (long, n, o)
              (
                joined-is_label (take 235 bundle) hash uuid
                    (all_of-take is_label_char 235 bundle chars) (starts_well-take 234 bundle start)
                    k m o,
                omega (
                  arith,
                  length_joined (take 235 bundle) hash uuid,
                  length-take 235 bundle,
                  above,
                  n,
                  o,
                ),
              )
      ]

-- The name of a Job, with its hash and four random bytes, consists of letters, digits and dashes,
-- with a letter or digit at each end, if the name of the bundle does; it has 18 bytes more than the
-- first 235 bytes of the name of the bundle. So it has at most 63 bytes, as a DNS label must and as
-- Kubernetes asks of a Job, exactly if the name of the bundle has at most 45.
pub job_name-is_label :
    (bundle tag : GoString) (bytes : List ℕ) {name : GoString}
    → is_label bundle ≡ true
    → length bytes ≡ 4
    → All IsByte bytes
    → job_name bundle tag (some bytes) ≡ some name
    → (is_label name ≡ true)
      × (length name ≡ min (length bundle) 235 + 18)
      × ((length name ≤ 63) ↔ (length bundle ≤ 45))
unfolding job_name
job_name-is_label bundle tag bytes {name} h four small e = elim (Option-cases (tag_hash tag)) [
  | inl q ↦ cc (rw (q, job_name) at e)
  | inr (hash, q) ↦
      let uuid = encode_to_string bytes in
      let same : assemble_name bundle hash uuid ≡ name = cc (rw (q, job_name) at e) in
      let (is_label_name, long) =
        assemble_name-is_label bundle hash uuid h (tag_hash-all_of tag q)
          (encode_to_string-all_of bytes small) (tag_hash-length tag q)
          (omega (arith, length-encode_to_string bytes, four)) in
      let named = rw same at is_label_name in
      let sized = rw same at long in (named, sized, (omega (arith, sized), omega (arith, sized)))
]
