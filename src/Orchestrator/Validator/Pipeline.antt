-- ===== src/Orchestrator/Validator/Pipeline.antt =====
-- What the pipeline of orchestrator/src/validator.rs accepts, and what it returns.
use decentralized_hive_mind.Prelude.{
  ℕ, ◌≡◌, ◌≢◌, ◌↔◌, inl, inr, true, false, not, filter, In, In-filter, Text, as_bytes, ◌==◌, arith,
  Bool-cases,
}
use decentralized_hive_mind.Common.Crypto.{Digest}
use decentralized_hive_mind.Common.Types.{AgentRole, planner}
use decentralized_hive_mind.Orchestrator.Error.{ok}
use decentralized_hive_mind.Orchestrator.Validator.{
  TextTools, ValidationInput, ValidationResult, expected_hex, is_bidi, strip_dangerous_chars,
  validate_output, is_planner,
}
use decentralized_hive_mind.Orchestrator.Validator.ConstantTime.{constant_time_eq_iff}

is_planner_iff : (r : AgentRole) → (is_planner r ≡ true) ↔ (r ≡ planner)
is_planner_iff r = ground arith

-- What an accepted input satisfies: its hash is that of the shard and the output, no injection
-- pattern occurs in the output, and the output of a planner is JSON.
pub record IsAccepted (t : TextTools) (proof : Text) (i : ValidationInput) : Type 0 where
  pub hash_matches : as_bytes proof ≡ as_bytes i.node_proof_hash_hex
  pub not_injected : t.injection_match i.output ≡ false
  pub structured : i.role ≡ planner → t.is_json i.output ≡ true

module _ (t : TextTools) ⦃d : Digest⦄ where
  pub validate_output_iff :
      (i : ValidationInput) (r : ValidationResult)
      → (validate_output t i ≡ ok r) ↔ (
          IsAccepted t (expected_hex i.prompt_shard_bytes i.output) i
          × (r.clean_output ≡ strip_dangerous_chars t i.output))
  unfolding validate_output
  validate_output_iff i r =
      let same =
        constant_time_eq_iff (as_bytes (expected_hex i.prompt_shard_bytes i.output))
          (as_bytes i.node_proof_hash_hex) in
      let plans = is_planner_iff i.role in
      (
        λ h. (
          record {
            hash_matches = same.0 (ground arith);
            not_injected = ground arith;
            structured = λ p. ground (arith, plans.1 p);
          },
          ground arith,
        ),
        λ (accepted, e).
            let hash = same.1 accepted.hash_matches in
            let clean = accepted.not_injected in
            elim (Bool-cases (is_planner i.role)) [
              | inl p ↦ ground (arith, hash, clean, accepted.structured (plans.0 p))
              | inr n ↦ ground (arith, hash, clean)
            ],
      )

  -- The characters of a cleaned text are among those of the text that went in, and none of them is
  -- the null character or a bidirectional override.
  strip_dangerous_chars-In :
      (s : Text) (c : ℕ) → In c (strip_dangerous_chars t s) → In c s × (c ≢ 0) × (is_bidi c ≡ false)
  unfolding strip_dangerous_chars
  strip_dangerous_chars-In s c m =
      let (kept, not_bidi) =
        In-filter (λ x. not (is_bidi x)) (t.strip_ansi (filter (λ x. not (x == 0)) s)) {a = c} m in
      let (old, not_null) = In-filter (λ x. not (x == 0)) s {a = c} (t.strip_ansi-In _ c kept) in
      (old, ground arith, ground arith)
