-- ===== src/Common/Credits.antt =====
-- common/src/credits.rs: the credit formula and the reputation score.
pub mod Bounds
use decentralized_hive_mind.Prelude.{
  ℕ, ◌+◌, ◌%◌, ◌^◌, Bool, true, false, List, [], ◌∷◌, map, ltb, if◌then◌else◌,
}
use decentralized_hive_mind.Prelude.Int.{pos}
use decentralized_hive_mind.Common.Float64.{Float64, zero_f, one_f, eq, lt}
use decentralized_hive_mind.Common.Types.{NodeTier, nano, edge, pro, cluster, AgentRole, weight}

-- `(tokens_in, tokens_out, role, tier)`
abbrev pub Contribution : Type 0
Contribution = ℕ × ℕ × AgentRole × NodeTier

pub record PayoutSplit (F : Type 0) : Type 0 where
  pub executor_pool : F
  pub orchestrator : F
  pub validation_pool : F

module _ {F : Type 0} ⦃o : Float64 F⦄ where
  unfoldable pub tier_multiplier : NodeTier → F
  tier_multiplier nano = o.hundredths (pos 10)
  tier_multiplier edge = o.hundredths (pos 100)
  tier_multiplier pro = o.hundredths (pos 300)
  tier_multiplier cluster = o.hundredths (pos 800)

  -- The sum of two `u32` wraps in a release build.
  unfoldable pub node_weighted_score : ℕ → ℕ → AgentRole → NodeTier → F
  node_weighted_score tokens_in tokens_out role tier =
      let tokens = o.of_ℕ ((tokens_in + tokens_out) % 2 ^ 32) in
      o.mul (o.mul tokens (weight role)) (tier_multiplier tier)

  -- `Iterator::sum`
  unfoldable pub sum_from : F → List F → F
  sum_from acc [] = acc
  sum_from acc (x ∷ xs) = sum_from (o.add acc x) xs

  abbrev pub contribution_score : Contribution → F
  contribution_score (tin, tout, r, t) = node_weighted_score tin tout r t

  unfoldable pub total_score : List Contribution → F
  total_score all_tasks = sum_from zero_f (map contribution_score all_tasks)

  unfoldable pub node_credit_share : ℕ → ℕ → AgentRole → NodeTier → List Contribution → F → ℕ → F
  node_credit_share tokens_in tokens_out role tier all_tasks total_payout jobs_completed =
      let node_score = node_weighted_score tokens_in tokens_out role tier in
      let total = total_score all_tasks in
      if eq total zero_f
      then zero_f
      else let share =
          o.mul (o.mul (o.div node_score total) (o.hundredths (pos 70))) total_payout in
        if ltb jobs_completed 100 then o.mul share (o.hundredths (pos 50)) else share

  unfoldable split_payout : F → PayoutSplit F
  split_payout total = record {
    executor_pool = o.mul total (o.hundredths (pos 70));
    orchestrator = o.mul total (o.hundredths (pos 20));
    validation_pool = o.mul total (o.hundredths (pos 10));
  }

  -- `f64::clamp(0.0, 1.0)`
  unfoldable pub clamp : F → F
  clamp x = if lt x zero_f then zero_f else if lt one_f x then one_f else x

  unfoldable pub reputation_score : F → F → F → F
  unfolding clamp
  reputation_score uptime_pct completion_rate validation_win_rate = clamp (
      o.add
        (o.add (o.mul uptime_pct (o.hundredths (pos 30)))
          (o.mul completion_rate (o.hundredths (pos 40))))
        (o.mul validation_win_rate (o.hundredths (pos 30))))
