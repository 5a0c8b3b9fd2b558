-- ===== src/Converge/JobName/Hex.antt =====
-- Lengths of hexadecimal prints, and that the encoding of bytes can be undone.
use native.Mathlib.Nat.{pow-suc}
use k8s_werf_operator_go.Base.{
  Bool-cases, inl, inr, ltb→lt, ℕ, zero, suc, List, [], ◌∷◌, ◌++◌, ◌+◌, ◌*◌, ◌/◌, ◌%◌, ◌^◌, ◌≤◌,
  ◌<◌, ltb, GoString, length, length-append, take, ◌≡◌, ◌↔◌, refl, arith, All, ap,
}
use k8s_werf_operator_go.Converge.JobName.{hex_digit, hex_digits, format_hex32, encode_to_string}

one-le-pow16 : (k : ℕ) → 1 ≤ 16 ^ k
one-le-pow16 zero = omega arith
one-le-pow16 (suc k) = omega (arith, one-le-pow16 k, pow-suc 16 k)

length-concat : (s : GoString) (c : ℕ) → length (s ++ c ∷ []) ≡ length s + 1
length-concat s c = length-append s (c ∷ [])

lt-length-hex_digits : (fuel k n : ℕ) → k < fuel → 16 ^ k ≤ n → k < length (hex_digits fuel n)
unfolding hex_digits
lt-length-hex_digits zero k n h l = absurd (omega arith)
lt-length-hex_digits (suc fuel) zero n h l =
    ground (arith, length-concat (hex_digits fuel (n / 16)) (hex_digit (n % 16)))
lt-length-hex_digits (suc fuel) (suc k) n h l = ground (
  arith,
  length-concat (hex_digits fuel (n / 16)) (hex_digit (n % 16)),
  pow-suc 16 k,
  one-le-pow16 k,
  lt-length-hex_digits fuel k (n / 16),
)

length-hex_digits-le : (fuel k n : ℕ) → n < 16 ^ suc k → length (hex_digits fuel n) ≤ suc k
unfolding hex_digits
length-hex_digits-le zero k n h = omega arith
length-hex_digits-le (suc fuel) zero n h = ground arith
length-hex_digits-le (suc fuel) (suc k) n h = ground (
  arith,
  length-concat (hex_digits fuel (n / 16)) (hex_digit (n % 16)),
  pow-suc 16 (suc k),
  length-hex_digits-le fuel k (n / 16),
)

-- A print has at most eight digits, and eight exactly from 2 ^ 28 on.
pub length-format_hex32 :
    (n : ℕ)
    → n < 2 ^ 32
    → (length (format_hex32 n) ≤ 8) × ((8 ≤ length (format_hex32 n)) ↔ (2 ^ 28 ≤ n))
unfolding format_hex32
length-format_hex32 n h = (
  length-hex_digits-le 8 7 n h,
  (
    λ l. elim (Bool-cases (ltb n (2 ^ 28))) [
      | inl small ↦ absurd (omega (arith, length-hex_digits-le 8 6 n (ltb→lt _ _ small)))
      | inr large ↦ ground arith
    ],
    λ l. lt-length-hex_digits 8 7 n (omega arith) l,
  ),
)

pub take_all : {A : Type 0} (n : ℕ) (l : List A) → length l ≤ n → take n l ≡ l
take_all zero [] h = refl
take_all zero (x ∷ l) h = absurd (omega arith)
take_all (suc n) [] h = refl
take_all (suc n) (x ∷ l) h = ap (λ r. x ∷ r) (take_all n l (omega arith))

pub length-encode_to_string : (bs : List ℕ) → length (encode_to_string bs) ≡ 2 * length bs
unfolding encode_to_string
length-encode_to_string [] = refl
length-encode_to_string (b ∷ bs) = omega (arith, length-encode_to_string bs)

hex_digit_injective : (a b : ℕ) → a < 16 → b < 16 → hex_digit a ≡ hex_digit b → a ≡ b
unfolding hex_digit
hex_digit_injective a b h k e = ground arith

abbrev pub IsByte : ℕ → Type 0
IsByte b = b < 256

-- Different bytes are encoded differently.
pub encode_to_string_injective :
    (bs cs : List ℕ)
    → All IsByte bs
    → All IsByte cs
    → encode_to_string bs ≡ encode_to_string cs
    → bs ≡ cs
unfolding encode_to_string
encode_to_string_injective [] [] h k e = refl
encode_to_string_injective [] (c ∷ cs) h k e = cc
encode_to_string_injective (b ∷ bs) [] h k e = cc
encode_to_string_injective (b ∷ bs) (c ∷ cs) (hb, h) (kc, k) e = ground (
  arith,
  hex_digit_injective (b / 16) (c / 16),
  hex_digit_injective (b % 16) (c % 16),
  encode_to_string_injective bs cs h k,
)
