-- ===== src/Common/Credits/Bounds.antt =====
-- Bounds on the credits and the reputation that common/src/credits.rs computes.
use decentralized_hive_mind.Prelude.{
  ℕ, ◌+◌, ◌%◌, ◌^◌, ◌≡◌, true, false, List, [], ◌∷◌, ◌++◌, map, arith, subst, All, refl,
}
use decentralized_hive_mind.Prelude.Int.{ℤ, pos, ◌≤ℤ◌}
use decentralized_hive_mind.Common.Float64.{Float64, zero_f, one_f}
use decentralized_hive_mind.Common.Types.{
  NodeTier, nano, edge, pro, cluster, AgentRole, planner, researcher, coder, critic, summarizer,
  aggregator, api_relay, weight,
}
use decentralized_hive_mind.Common.Credits.{
  Contribution, tier_multiplier, node_weighted_score, sum_from, contribution_score, total_score,
  node_credit_share, clamp, reputation_score,
}

module _ (F : Type 0) ⦃o : Float64 F⦄ where
  weight_nonneg : (r : AgentRole) → o.le zero_f (weight r) ≡ true
  unfolding weight
  weight_nonneg planner = o.hundredths_mono _ _ (omega arith)
  weight_nonneg researcher = o.hundredths_mono _ _ (omega arith)
  weight_nonneg coder = o.hundredths_mono _ _ (omega arith)
  weight_nonneg critic = o.hundredths_mono _ _ (omega arith)
  weight_nonneg summarizer = o.hundredths_mono _ _ (omega arith)
  weight_nonneg aggregator = o.hundredths_mono _ _ (omega arith)
  weight_nonneg api_relay = o.hundredths_mono _ _ (omega arith)

  tier_multiplier_nonneg : (t : NodeTier) → o.le zero_f (tier_multiplier t) ≡ true
  unfolding tier_multiplier
  tier_multiplier_nonneg nano = o.hundredths_mono _ _ (omega arith)
  tier_multiplier_nonneg edge = o.hundredths_mono _ _ (omega arith)
  tier_multiplier_nonneg pro = o.hundredths_mono _ _ (omega arith)
  tier_multiplier_nonneg cluster = o.hundredths_mono _ _ (omega arith)

  node_weighted_score_nonneg :
      (tin tout : ℕ) (r : AgentRole) (t : NodeTier)
      → o.le zero_f (node_weighted_score tin tout r t) ≡ true
  unfolding node_weighted_score
  node_weighted_score_nonneg tin tout r t =
      o.mul_nonneg _ _ (o.mul_nonneg _ _ (o.of_ℕ_nonneg _) (weight_nonneg r))
        (tier_multiplier_nonneg t)

  le-sum_from :
      (acc : F) (xs : List Contribution)
      → o.le acc (sum_from acc (map contribution_score xs)) ≡ true
  unfolding sum_from
  le-sum_from acc [] = o.le_refl acc
  le-sum_from acc ((tin, tout, r, t) ∷ xs) =
      let s = node_weighted_score tin tout r t in
      o.le_trans acc (o.add acc s) _
        (o.le-add_right acc s (node_weighted_score_nonneg tin tout r t))
        (le-sum_from (o.add acc s) xs)

  -- Each summand is at most the sum, if the accumulator is not negative.
  summand-le-sum_from :
      (acc : F) (before : List Contribution) (c : Contribution) (after : List Contribution)
      → o.le zero_f acc ≡ true
      → o.le (contribution_score c) (sum_from acc (map contribution_score (before ++ c ∷ after)))
        ≡ true
  unfolding sum_from
  summand-le-sum_from acc [] c after h =
      let s = contribution_score c in
      o.le_trans s (o.add acc s) _ (o.le-add_left acc s h) (le-sum_from (o.add acc s) after)
  summand-le-sum_from acc (b ∷ before) c after h =
      let s = contribution_score b in
      summand-le-sum_from (o.add acc s) before c after (
        o.le_trans zero_f acc (o.add acc s) h
          (o.le-add_right acc s (node_weighted_score_nonneg b.0 b.1 b.2 b.3)))

  -- Halving a value that is not negative does not raise it.
  half_le : (x : F) → o.le zero_f x ≡ true → o.le (o.mul x (o.hundredths (pos 50))) x ≡ true
  half_le x h = rw (o.mul_comm x (o.hundredths (pos 50))) (
      subst (λ y. o.le (o.mul (o.hundredths (pos 50)) x) y ≡ true) (o.one_mul x h)
        (o.mul_mono (o.hundredths (pos 50)) one_f x (o.hundredths_mono _ _ (omega arith)) h
          (o.hundredths_mono _ _ (omega arith))))

  half_nonneg :
      (x : F) → o.le zero_f x ≡ true → o.le zero_f (o.mul x (o.hundredths (pos 50))) ≡ true
  half_nonneg x h = o.mul_nonneg x _ h (o.hundredths_mono (pos 0) (pos 50) (omega arith))

  scaled_le :
      (x p : F)
      → o.le zero_f x ≡ true
      → o.le x one_f ≡ true
      → o.le zero_f p ≡ true
      → o.le (o.mul (o.mul x (o.hundredths (pos 70))) p) (o.mul (o.hundredths (pos 70)) p) ≡ true
  scaled_le x p hx h1 hp =
      let seventy = o.hundredths_mono (pos 0) (pos 70) (omega arith) in
      o.mul_mono _ _ p (o.mul_nonneg x _ hx seventy) hp (
        subst (λ y. o.le (o.mul x (o.hundredths (pos 70))) y ≡ true)
          (o.one_mul (o.hundredths (pos 70)) seventy)
          (o.mul_mono x one_f (o.hundredths (pos 70)) hx seventy h1))

  -- The share of a contribution that is one of the summed ones, at the rate of either kind of node.
  share_bounds :
      (score total p : F)
      → o.le zero_f score ≡ true
      → o.le score total ≡ true
      → o.le total zero_f ≡ false
      → o.le zero_f p ≡ true
      → (o.le zero_f (o.mul (o.mul (o.div score total) (o.hundredths (pos 70))) p) ≡ true)
        × (o.le
              (o.mul (o.mul (o.div score total) (o.hundredths (pos 70))) p)
              (o.mul (o.hundredths (pos 70)) p)
            ≡ true)
  share_bounds score total p hs le hz hp =
      let q = o.div_nonneg score total hs hz in
      (
        o.mul_nonneg _ p (o.mul_nonneg _ _ q (o.hundredths_mono (pos 0) (pos 70) (omega arith))) hp,
        scaled_le (o.div score total) p q (o.div_le_one score total hs hz le) hp,
      )

  -- A node whose own contribution is among the summed ones, at the tier it is paid at, receives
  -- at least nothing and at most 70% of a payout that is not negative, new node or not.
  pub node_credit_share_bounds :
      (tin tout : ℕ) (r : AgentRole) (t : NodeTier) (before after : List Contribution) (payout : F)
      (jobs : ℕ)
      → o.le zero_f payout ≡ true
      → let share =
          node_credit_share tin tout r t (before ++ (tin, tout, r, t) ∷ after) payout jobs in
        (o.le zero_f share ≡ true) × (o.le share (o.mul (o.hundredths (pos 70)) payout) ≡ true)
  unfolding node_credit_share total_score
  node_credit_share_bounds tin tout r t before after payout jobs hp =
      let c : Contribution = (tin, tout, r, t) in
      let score = node_weighted_score tin tout r t in
      let total = sum_from zero_f (map contribution_score (before ++ c ∷ after)) in
      let share = o.mul (o.mul (o.div score total) (o.hundredths (pos 70))) payout in
      let score_le = summand-le-sum_from zero_f before c after (o.le_refl zero_f) in
      let score_nonneg = node_weighted_score_nonneg tin tout r t in
      ground (
        arith,
        o.le_refl zero_f,
        o.le_trans zero_f score total,
        o.mul_nonneg (o.hundredths (pos 70)) payout
            (o.hundredths_mono (pos 0) (pos 70) (omega arith)),
        share_bounds score total payout,
        half_nonneg share,
        half_le share,
        o.le_trans (o.mul share (o.hundredths (pos 50))) share
            (o.mul (o.hundredths (pos 70)) payout),
      )

  -- A contribution without tokens, as the 32 bits of their sum show it.
  abbrev pub IsEmpty : Contribution → Type 0
  IsEmpty (tin, tout, r, t) = (tin + tout) % 2 ^ 32 ≡ 0

  contribution_score_zero : (e : Contribution) → IsEmpty e → contribution_score {F = F} e ≡ zero_f
  unfolding node_weighted_score
  contribution_score_zero (tin, tout, r, t) h =
      let tokens : o.of_ℕ ((tin + tout) % 2 ^ 32) ≡ zero_f = rw (h, o.of_ℕ_zero) refl in
      let score : o.mul (o.mul (o.of_ℕ ((tin + tout) % 2 ^ 32)) (weight r)) (tier_multiplier t)
          ≡ zero_f =
        rw (tokens, o.zero_mul (weight r) (weight_nonneg r))
          (o.zero_mul (tier_multiplier t) (tier_multiplier_nonneg t)) in
      score

  total_score_zero :
      (all_tasks : List Contribution)
      → All IsEmpty all_tasks
      → total_score {F = F} all_tasks ≡ zero_f
  unfolding total_score sum_from
  total_score_zero [] h = refl
  total_score_zero (e ∷ all_tasks) h =
      rw (contribution_score_zero e h.0, o.add_zero) (total_score_zero all_tasks h.1)

  -- A job in which no contribution has tokens, as 32 bits hold their sum, pays nothing to any node.
  pub node_credit_share_zero :
      (tin tout : ℕ) (r : AgentRole) (t : NodeTier) (all_tasks : List Contribution) (payout : F)
      (jobs : ℕ)
      → All IsEmpty all_tasks
      → node_credit_share tin tout r t all_tasks payout jobs ≡ zero_f
  unfolding node_credit_share
  node_credit_share_zero tin tout r t all_tasks payout jobs h =
      rw (total_score_zero all_tasks h, o.le_refl zero_f) refl

  clamp_bounds : (x : F) → (o.le zero_f (clamp x) ≡ true) × (o.le (clamp x) one_f ≡ true)
  unfolding clamp
  clamp_bounds x = ground (
    arith,
    o.le_refl zero_f,
    o.le_refl one_f,
    o.hundredths_mono (pos 0) (pos 100) (omega arith),
    o.le_total x one_f,
    o.le_total zero_f x,
  )

  -- The reputation score lies between 0 and 1 whatever the three rates are.
  reputation_score_bounds :
      (u c w : F)
      → (o.le zero_f (reputation_score u c w) ≡ true) × (o.le (reputation_score u c w) one_f ≡ true)
  unfolding reputation_score
  reputation_score_bounds u c w = clamp_bounds _

  -- A better tier earns a score at least as high for the same tokens in the same role.
  tier_multiplier_mono :
      (tin tout : ℕ) (r : AgentRole)
      → (o.le (node_weighted_score tin tout r nano) (node_weighted_score tin tout r edge) ≡ true)
        × (o.le (node_weighted_score tin tout r edge) (node_weighted_score tin tout r pro) ≡ true)
        × (o.le (node_weighted_score tin tout r pro) (node_weighted_score tin tout r cluster)
            ≡ true)
  unfolding node_weighted_score tier_multiplier
  tier_multiplier_mono tin tout r = (
    step _ _ (omega arith) (omega arith),
    step _ _ (omega arith) (omega arith),
    step _ _ (omega arith) (omega arith),
  )
    where
      tokens : F
      tokens = o.mul (o.of_ℕ ((tin + tout) % 2 ^ 32)) (weight r)

      step :
          (m n : ℤ)
          → pos 0 ≤ℤ m
          → m ≤ℤ n
          → o.le (o.mul tokens (o.hundredths m)) (o.mul tokens (o.hundredths n)) ≡ true
      step m n h0 h =
          rw (o.mul_comm tokens (o.hundredths m), o.mul_comm tokens (o.hundredths n))
            (o.mul_mono _ _ tokens (o.hundredths_mono _ _ h0)
              (o.mul_nonneg _ _ (o.of_ℕ_nonneg _) (weight_nonneg r)) (o.hundredths_mono _ _ h))
