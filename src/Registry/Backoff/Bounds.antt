-- ===== src/Registry/Backoff/Bounds.antt =====
-- The ranges of the backoff and of the jitter, and where they fail.
use k8s_werf_operator_go.Base.{
  holds_up_to, holds_below, ℕ, zero, suc, true, none, some, ◌≡◌, ◌↔◌, refl, arith, ◌+◌, ◌*◌, ◌/◌,
  ◌%◌, ◌^◌, ◌-◌, ◌≤◌, ◌<◌, ap, ◌⊎◌, inl, inr, ltb, Bool-cases,
}
use k8s_werf_operator_go.Base.Int.{eqb_ℤ, eq_of_eqb_ℤ, ℤ, pos, wrap64, ◌*ℤ◌, ◌+ℤ◌, ◌-ℤ◌, ◌≤ℤ◌}
use Prim.Native.Nat.{min}
use native.Mathlib.Nat.{pow-suc, add-suc}
use k8s_werf_operator_go.Registry.Backoff.{
  base_duration, max_duration, calculate_backoff, add_jitter,
}

-- The backoff that the comment of `CalculateBackoff` describes.
abbrev pub doubled : ℕ → ℕ
doubled n = min (base_duration * 2 ^ n) max_duration

backoff_table : holds_up_to 29 (λ n. eqb_ℤ (calculate_backoff (pos n)) (pos (doubled n))) ≡ true
unfolding holds_up_to eqb_ℤ calculate_backoff wrap64 ◌*ℤ◌
backoff_table = refl

pub calculate_backoff-eq-doubled : (n : ℕ) → n < 29 → calculate_backoff (pos n) ≡ pos (doubled n)
calculate_backoff-eq-doubled n h =
    eq_of_eqb_ℤ _ _
      (holds_below 29 (λ k. eqb_ℤ (calculate_backoff (pos k)) (pos (doubled k))) n h backoff_table)

pow_split : (n : ℕ) → 2 ^ (64 + n) ≡ 2 ^ 64 * 2 ^ n
pow_split zero = refl
pow_split (suc n) =
    omega
      (arith, pow_split n, pow-suc 2 (64 + n), pow-suc 2 n, ap (λ (k : ℕ). 2 ^ k) (add-suc 64 n))

shift_out : (n : ℕ) → wrap64 (pos (2 ^ (64 + n))) ≡ pos 0
unfolding wrap64
shift_out n = let e : 2 ^ (64 + n) % 2 ^ 64 ≡ 0 = omega (arith, pow_split n) in rw e

no_product : wrap64 (pos base_duration *ℤ pos 0) ≡ pos 0
unfolding wrap64 ◌*ℤ◌
no_product = refl

calculate_backoff-overflow : (n : ℕ) → calculate_backoff (pos (64 + n)) ≡ pos 0
unfolding calculate_backoff
calculate_backoff-overflow n = ground (arith, shift_out n, no_product)

-- Up to 28 failures the backoff is 30 seconds doubled for each failure, 8 minutes at most; from 64
-- failures on the shift leaves nothing, and it is 0 instead of the cap. (The controller asks for 1
-- to 5 failures.)
pub calculate_backoff_lem :
    (n k : ℕ)
    → n < 29
    → (calculate_backoff (pos n) ≡ pos (doubled n)) × (calculate_backoff (pos (64 + k)) ≡ pos 0)
calculate_backoff_lem n k h = (calculate_backoff-eq-doubled n h, calculate_backoff-overflow k)

add_jitter_range :
    (intn : ℕ → ℕ) (interval : ℕ)
    → ((n : ℕ) → 0 < n → intn n < n)
    → 10 ≤ interval
    → interval < 2 ^ 62
    → (j : ℤ) × (add_jitter intn (pos interval) ≡ some j)
      × (pos (interval - interval / 10) ≤ℤ j)
      × (j ≤ℤ pos (interval + interval / 10 - 1))
unfolding add_jitter wrap64 ◌+ℤ◌ ◌-ℤ◌
add_jitter_range intn interval draw h k =
    let below : intn (2 * (interval / 10)) < 2 * (interval / 10) =
      draw (2 * (interval / 10)) (omega arith) in
    (
      pos (interval + intn (2 * (interval / 10)) - interval / 10),
      ground arith,
      ground arith,
      ground arith,
    )

pub add_jitter-panics :
    (intn : ℕ → ℕ) (interval : ℕ)
    → interval < 2 ^ 63
    → (add_jitter intn (pos interval) ≡ none) ↔ ((0 < interval) × (interval < 10))
unfolding add_jitter wrap64
add_jitter-panics intn interval h = ground arith

-- Of the intervals from 0 up to 2 ^ 62 nanoseconds, those of 1 to 9 make `rand.Intn` panic (the
-- pattern of the resource accepts such an interval), and the others are moved by at most a tenth
-- either way; the upper end is never reached. The hypothesis on `intn` is what `rand.Intn` promises.
pub add_jitter_lem :
    (intn : ℕ → ℕ) (interval : ℕ)
    → ((n : ℕ) → 0 < n → intn n < n)
    → interval < 2 ^ 62
    → ((0 < interval) × (interval < 10) × (add_jitter intn (pos interval) ≡ none))
      ⊎ (((interval ≡ 0) ⊎ (10 ≤ interval))
          × (j : ℤ) × (add_jitter intn (pos interval) ≡ some j)
          × (pos (interval - interval / 10) ≤ℤ j)
          × (j ≤ℤ pos (interval + interval / 10 - 1)))
unfolding add_jitter
add_jitter_lem intn zero draw h = inr (inl refl, pos 0, refl, ground arith, ground arith)
add_jitter_lem intn (suc i) draw h = elim (Bool-cases (ltb (suc i) 10)) [
  | inl q ↦
      let tiny : suc i < 10 = ground (arith, q) in
      inl (
        omega arith,
        tiny,
        (add_jitter-panics intn (suc i) (omega (arith, h))).1 (omega arith, tiny),
      )
  | inr q ↦
      let large : 10 ≤ suc i = ground (arith, q) in
      let (j, e, l, u) = add_jitter_range intn (suc i) draw large h in inr (inr large, j, e, l, u)
]
