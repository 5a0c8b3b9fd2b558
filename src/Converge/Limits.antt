-- ===== src/Converge/Limits.antt =====
-- internal/converge/job.go: the log retention and the resource limits.
use k8s_werf_operator_go.Base.{
  ap, ◌∙◌, ℕ, zero, suc, refl, Option, none, some, ◌≡◌, arith, ◌*◌, ◌≤◌, ◌<◌, ◌^◌, ◌-◌,
  if◌then◌else◌, GoString, lit, is_empty, [], leb, Bool-cases, inl, inr,
}
use k8s_werf_operator_go.Base.Int.{
  ℤ, pos, negsuc, ltb_ℤ, wrap32, wrap32_small, wrap32_overflow, ◌*ℤ◌,
}
use k8s_werf_operator_go.Base.Result.{Result, ok, err}
use k8s_werf_operator_go.Api.{ConvergeConfig, ResourceLimitsConfig}

abbrev pub default_days : ℤ
default_days = pos 7

abbrev pub retention_days : Option ℤ → ℤ
retention_days none = default_days
retention_days (some d) = if ltb_ℤ (pos 0) d then d else default_days

-- `getLogRetentionSeconds`: the products are int32 products.
unfoldable pub get_log_retention_seconds : ConvergeConfig → ℤ
get_log_retention_seconds c =
    wrap32 (wrap32 (wrap32 (retention_days c.log_retention_days *ℤ pos 24) *ℤ pos 60) *ℤ pos 60)

pub data ResourceType : Type 0 where
  cpu memory : ResourceType

abbrev configured : ResourceType → Option ResourceLimitsConfig → GoString
configured t none = []
configured cpu (some limits) = limits.cpu
configured memory (some limits) = limits.memory

abbrev pub default_limit : ResourceType → GoString
default_limit cpu = lit "1"
default_limit memory = lit "1Gi"

-- `getResourceLimit`: the text that is parsed.
unfoldable pub get_resource_limit : ConvergeConfig → ResourceType → GoString
get_resource_limit c t =
    let value = configured t c.resource_limits in if is_empty value then default_limit t else value

-- A parsed `resource.Quantity`: `value * 10 ^ scale`, and the format that it is printed in.
pub record Quantity : Type 0 where
  pub value : ℤ
  pub scale : ℤ
  pub format : GoString

-- `mustParseResource`, over the parser of apimachinery. `none` is a panic.
unfoldable pub must_parse_resource : (GoString → Result Quantity) → GoString → Option Quantity
must_parse_resource parse_quantity s = elim (parse_quantity s) [ ok q ↦ some q | err e ↦ none ]

product : (a b : ℕ) → pos a *ℤ pos b ≡ pos (a * b)
unfolding ◌*ℤ◌
product a b = ground arith

product_fits : (a b : ℕ) → a * b < 2 ^ 31 → wrap32 (pos a *ℤ pos b) ≡ pos (a * b)
product_fits a b h = rw (product a b) (wrap32_small (a * b) h)

product_wraps :
    (a b : ℕ)
    → 2 ^ 31 ≤ a * b
    → a * b < 2 ^ 32
    → wrap32 (pos a *ℤ pos b) ≡ negsuc (2 ^ 32 - 1 - a * b)
product_wraps a b h k = rw (product a b) (wrap32_overflow (a * b) h k)

minutes : (d : ℕ) → d ≤ 49710 → wrap32 (wrap32 (pos d *ℤ pos 24) *ℤ pos 60) ≡ pos (d * 24 * 60)
minutes d h = rw (product_fits d 24 (omega arith)) (product_fits (d * 24) 60 (omega arith))

regroup : (d : ℕ) → d * 24 * 60 * 60 ≡ d * 86400
regroup d = omega arith

get_log_retention_seconds-exact :
    (c : ConvergeConfig) (d : ℕ)
    → retention_days c.log_retention_days ≡ pos d
    → d ≤ 24855
    → get_log_retention_seconds c ≡ pos (d * 86400)
unfolding get_log_retention_seconds
get_log_retention_seconds-exact c d h u =
    rw (h, minutes d (omega arith), product_fits (d * 24 * 60) 60 (omega arith))
      (ap pos (regroup d))

get_log_retention_seconds-overflow :
    (c : ConvergeConfig) (d : ℕ)
    → retention_days c.log_retention_days ≡ pos d
    → 24856 ≤ d
    → d ≤ 49710
    → get_log_retention_seconds c ≡ negsuc (2 ^ 32 - 1 - d * 86400)
unfolding get_log_retention_seconds
get_log_retention_seconds-overflow c d h l u =
    rw (h, minutes d u, product_wraps (d * 24 * 60) 60 (omega arith) (omega arith))
      (ap (λ n. negsuc (2 ^ 32 - 1 - n)) (regroup d))

-- The time to live in seconds: 7 days where no number is configured or the number is not positive,
-- the configured days up to 24855, and the number that an int32 wraps around to above that.
abbrev pub expected_seconds : Option ℤ → ℤ
expected_seconds none = pos 604800
expected_seconds (some (negsuc n)) = pos 604800
expected_seconds (some (pos zero)) = pos 604800
expected_seconds (some (pos (suc d))) =
    if leb (suc d) 24855 then pos (suc d * 86400) else negsuc (2 ^ 32 - 1 - suc d * 86400)

abbrev pub IsAtMost : ℕ → Option ℤ → Type 0
IsAtMost bound none = Unit
IsAtMost bound (some (negsuc n)) = Unit
IsAtMost bound (some (pos d)) = d ≤ bound

positive_seconds :
    (c : ConvergeConfig) (d : ℕ)
    → retention_days c.log_retention_days ≡ pos d
    → d ≤ 49710
    → get_log_retention_seconds c
      ≡ (if leb d 24855 then pos (d * 86400) else negsuc (2 ^ 32 - 1 - d * 86400))
positive_seconds c d h u = elim (Bool-cases (leb d 24855)) [
  | inl q ↦
      let low : d ≤ 24855 = ground (arith, q) in rw q (get_log_retention_seconds-exact c d h low)
  | inr q ↦
      let high : 24856 ≤ d = ground (arith, q) in
      rw q (get_log_retention_seconds-overflow c d h high u)
]

retention_days-negative : (n : ℕ) → retention_days (some (negsuc n)) ≡ pos 7
retention_days-negative n = ground arith

retention_days-kept : (d : ℕ) → retention_days (some (pos (suc d))) ≡ pos (suc d)
retention_days-kept d = ground arith

retention-seconds :
    (c : ConvergeConfig) (configured_days : Option ℤ)
    → c.log_retention_days ≡ configured_days
    → IsAtMost 49710 configured_days
    → get_log_retention_seconds c ≡ expected_seconds configured_days
retention-seconds c none q h = positive_seconds c 7 (ap retention_days q) (omega arith)
retention-seconds c (some (negsuc n)) q h =
    positive_seconds c 7 (ap retention_days q ∙ retention_days-negative n) (omega arith)
retention-seconds c (some (pos zero)) q h = positive_seconds c 7 (ap retention_days q) (omega arith)
retention-seconds c (some (pos (suc d))) q h =
    positive_seconds c (suc d) (ap retention_days q ∙ retention_days-kept d) h

-- Where the configured number of days is at most 49710 or there is none, the time to live is 604800
-- seconds, 7 days, if no number is configured or it is not positive; the seconds of the configured
-- days if these are 1 to 24855; and a negative number, to which the int32 product wraps around, from
-- 24856 days on.
pub get_log_retention_seconds_lem :
    (c : ConvergeConfig)
    → IsAtMost 49710 c.log_retention_days
    → get_log_retention_seconds c ≡ expected_seconds c.log_retention_days
get_log_retention_seconds_lem c h = retention-seconds c c.log_retention_days refl h
