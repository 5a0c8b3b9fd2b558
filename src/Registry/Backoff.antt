-- ===== src/Registry/Backoff.antt =====
-- internal/registry/backoff.go. A duration is a number of nanoseconds in an int64.
pub mod Bounds
use k8s_werf_operator_go.Base.{
  ℕ, Bool, true, false, Option, none, some, ◌≡◌, refl, arith, ◌*◌, ◌/◌, ◌^◌, ◌-◌, ◌==◌,
  if◌then◌else◌,
}
use k8s_werf_operator_go.Base.Int.{ℤ, pos, negsuc, ltb_ℤ, wrap64, ◌*ℤ◌, ◌+ℤ◌, ◌-ℤ◌, pos_part, ◌≤ℤ◌}

abbrev pub second : ℕ
second = 1000000000

-- `baseDuration` and `maxDuration`
abbrev pub base_duration : ℕ
base_duration = 30 * second

abbrev pub max_duration : ℕ
max_duration = 8 * 60 * second

-- `1 << uint(consecutiveFailures)` and the product wrap around as int64 arithmetic does.
unfoldable pub calculate_backoff : ℤ → ℤ
calculate_backoff (negsuc n) = pos base_duration
calculate_backoff (pos n) =
    let multiplier = wrap64 (pos (2 ^ n)) in
    let duration = wrap64 (pos base_duration *ℤ multiplier) in
    if n == 0
    then pos base_duration
    else if ltb_ℤ (pos max_duration) duration
    then pos max_duration
    else duration

-- `AddJitter`, where `intn n` is what `rand.Intn(n)` draws. `none` is the panic of `rand.Intn` at
-- an argument that is not positive. The sums of an interval below 2 ^ 62 do not wrap.
unfoldable pub add_jitter : (ℕ → ℕ) → ℤ → Option ℤ
add_jitter intn (negsuc n) = some (negsuc n)
add_jitter intn (pos interval) =
    let jitter_amount = interval / 10 in
    let bound = pos_part (wrap64 (pos (2 * jitter_amount))) in
    let random_jitter = pos (intn bound) -ℤ pos jitter_amount in
    if interval == 0
    then some (pos 0)
    else if bound == 0
    then none
    else some (wrap64 (pos interval +ℤ random_jitter))
