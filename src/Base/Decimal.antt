-- ===== src/Base/Decimal.antt =====
-- `strconv.Itoa` and `%d`: numbers in decimal.
use Prim.Native.Nat.{ℕ, zero, suc, ◌+◌, ◌-◌, ◌*◌, ◌/◌, ◌%◌, ◌<◌}
use native.Mathlib.Omega.{arith}
use mathlib.Core.Path.{◌≡◌, refl}
use mathlib.Core.Logic.{inl, inr}
use mathlib.Core.List.{[], ◌∷◌, ◌++◌}
use k8s_werf_operator_go.Base.Tests.{ltb, Bool-cases, if◌then◌else◌}
use k8s_werf_operator_go.Base.Text.{GoString, lit}
use k8s_werf_operator_go.Base.Int.{ℤ, pos, negsuc}

-- The digits of `n` in base ten; the fuel `suc n` is enough, since each round divides `n` by ten.
digits : ℕ → ℕ → GoString
digits zero n = []
digits (suc fuel) n =
    let rest = digits fuel (n / 10) ++ (b'0' + n % 10) ∷ [] in
    if ltb n 10 then (b'0' + n) ∷ [] else rest

-- The number that digits stand for, after those read already.
abbrev read_digits : ℕ → GoString → ℕ
read_digits read [] = read
read_digits read (c ∷ s) = read_digits (read * 10 + (c - b'0')) s

read_digits-append :
    (read c : ℕ) (s : GoString)
    → read_digits read (s ++ c ∷ []) ≡ read_digits read s * 10 + (c - b'0')
read_digits-append read c [] = refl
read_digits-append read c (d ∷ s) = read_digits-append (read * 10 + (d - b'0')) c s

-- More fuel than `n` prints all digits of `n`.
read_digits-digits : (fuel n : ℕ) → n < fuel → read_digits 0 (digits fuel n) ≡ n
unfolding digits
read_digits-digits zero n h = absurd (omega arith)
read_digits-digits (suc fuel) n h = elim (Bool-cases (ltb n 10)) [
  | inl one ↦ rw one (ground arith)
  | inr more ↦
      let below : n / 10 < fuel = ground arith in
      let rest = read_digits-digits fuel (n / 10) below in
      let last = read_digits-append 0 (b'0' + n % 10) (digits fuel (n / 10)) in
      rw more (omega (arith, rest, last))
]

unfoldable pub format_ℕ : ℕ → GoString
unfolding digits
format_ℕ n = digits (suc n) n

read_digits-format_ℕ : (n : ℕ) → read_digits 0 (format_ℕ n) ≡ n
unfolding format_ℕ
read_digits-format_ℕ n = read_digits-digits (suc n) n (omega arith)

unfoldable pub format_ℤ : ℤ → GoString
unfolding format_ℕ
format_ℤ (pos n) = format_ℕ n
format_ℤ (negsuc n) = b'-' ∷ format_ℕ (suc n)

format_minus_120 : format_ℤ (negsuc 119) ≡ lit "-120"
unfolding format_ℤ lit
format_minus_120 = refl
