-- ===== src/Orchestrator/RateLimit.antt =====
-- orchestrator/src/middleware/rate_limit.rs: limits for each key, by the crate `governor`.
use decentralized_hive_mind.Prelude.{
  ℕ, ◌/◌, ◌≡◌, Option, none, some, Text, text, unwrap_or, ◌==◌, arith, ap, if◌then◌else◌,
}
use decentralized_hive_mind.Prelude.Decimal.{show_ℕ}
use decentralized_hive_mind.Orchestrator.Error.{ErrorResponse, respond}

-- A limiter, with durations and times in nanoseconds: `none` is a check that passes, and a refusal has
-- the time to wait. A quota of one period lets one request of a key through in each period.
pub record Limiter (L : Type 0) : Type 0 where
  pub with_period : ℕ → L
  pub check_key : Text → ℕ → L → Option ℕ × L
  pub period_of : L → ℕ
  pub period-with_period : (p : ℕ) → period_of (with_period p) ≡ p
  pub period-check_key :
      (key : Text) (now : ℕ) (l : L) → period_of (check_key key now l).1 ≡ period_of l

-- What a layer makes of a request: it is passed on, or refused.
pub data Verdict : Type 0 where
  passed : Verdict
  refused : ErrorResponse → Option Text → Verdict

abbrev submit_verdict : Option ℕ → Verdict
submit_verdict none = passed
submit_verdict (some wait) =
    refused (respond 429 (text "rate limited")) (some (show_ℕ (wait / 1_000_000_000)))

abbrev ip_verdict : Option ℕ → Verdict
ip_verdict none = passed
ip_verdict (some wait) = refused (respond 429 (text "rate limited")) none

module _ {L : Type 0} ⦃g : Limiter L⦄ where
  abbrev limiter_of : ℕ → Option L
  limiter_of p = if p == 0 then none else some (g.with_period p)

  -- `keyed_limiter`; `none` is a panic, at a quota without a period.
  unfoldable pub keyed_limiter : ℕ → ℕ → Option L
  keyed_limiter per_period period = limiter_of (period / per_period)

  -- The key is the header `X-Pubkey`; a refusal has the header `Retry-After`, in seconds.
  unfoldable pub job_submit_limiter : Option Text → ℕ → L → Verdict × L
  job_submit_limiter header now limiter =
      let (r, limiter') = g.check_key (unwrap_or header (text "unknown")) now limiter in
      (submit_verdict r, limiter')

  unfoldable registration_ip_limiter : Text → ℕ → L → Verdict × L
  registration_ip_limiter ip now limiter =
      let (r, limiter') = g.check_key ip now limiter in (ip_verdict r, limiter')

-- The parts of a period are those of the quota.
keyed_limiter-period :
    {L : Type 0} ⦃g : Limiter L⦄ (per_period period : ℕ) (l : L)
    → keyed_limiter per_period period ≡ some l
    → g.period_of l ≡ period / per_period
unfolding keyed_limiter
keyed_limiter-period ⦃g⦄ per_period period l h =
    ground (arith, g.period-with_period (period / per_period), ap g.period_of)
