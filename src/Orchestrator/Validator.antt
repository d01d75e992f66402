-- ===== src/Orchestrator/Validator.antt =====
-- orchestrator/src/validator.rs: the five steps that every result of a sub-task goes through.
pub mod ConstantTime
pub mod Pipeline
use Prim.Native.Nat.{bit_or, bit_xor}
use decentralized_hive_mind.Prelude.{
  ℕ, ◌≡◌, Bool, true, false, not, ◌&&◌, ◌||◌, Option, none, some, List, [], ◌∷◌, ◌++◌, filter,
  length, In, Text, Bytes, as_bytes, text, leb, ◌==◌, if◌then◌else◌,
}
use decentralized_hive_mind.Common.Crypto.{Digest}
use decentralized_hive_mind.Common.Types.{AgentRole, planner}
use decentralized_hive_mind.Orchestrator.Error.{
  AppError, bad_request, AppResult, ok, err, ◌>>=◌, ◌>>◌,
}

-- The crates `regex` and `serde_json`, which are not in the repository. Replacing the matches of an
-- expression by the empty text leaves only characters of the input.
pub record TextTools : Type 0 where
  -- `INJECTION_PATTERNS.is_match(s)`
  pub injection_match : Text → Bool
  -- `ansi_re.replace_all(s, "")`
  pub strip_ansi : Text → Text
  -- `serde_json::from_str::<Value>(s).is_ok()`
  pub is_json : Text → Bool
  pub strip_ansi-In : (s : Text) (c : ℕ) → In c (strip_ansi s) → In c s

pub record ValidationInput : Type 0 where
  pub role : AgentRole
  pub prompt_shard_bytes : Bytes
  pub output : Text
  pub node_proof_hash_hex : Text

pub record ValidationResult : Type 0 where
  pub clean_output : Text

abbrev pub is_planner : AgentRole → Bool
is_planner planner = true
is_planner _ = false

-- The loop of `constant_time_eq`, over the pairs that `zip` makes.
unfoldable pub diff_loop : ℕ → Bytes → Bytes → ℕ
diff_loop diff [] b = diff
diff_loop diff (x ∷ a) [] = diff
diff_loop diff (x ∷ a) (y ∷ b) = diff_loop (bit_or diff (bit_xor x y)) a b

unfoldable pub constant_time_eq : Bytes → Bytes → Bool
unfolding diff_loop
constant_time_eq a b = if not (length a == length b) then false else diff_loop 0 a b == 0

-- `sha256(prompt_shard_bytes || output_bytes)` in hexadecimal
unfoldable pub expected_hex : ⦃d : Digest⦄ → Bytes → Text → Text
expected_hex ⦃d⦄ prompt_shard_bytes output =
    d.hex_encode (d.sha256 (prompt_shard_bytes ++ as_bytes output))

unfoldable check_proof_hash : ⦃d : Digest⦄ → Bytes → Text → Text → AppResult (Unit {0})
unfolding expected_hex
check_proof_hash prompt_shard_bytes output node_proof_hash_hex =
    if not (
      constant_time_eq (as_bytes (expected_hex prompt_shard_bytes output))
        (as_bytes node_proof_hash_hex))
    then err (bad_request (text "proof hash mismatch"))
    else ok tt

-- The characters U+202E and U+2066 to U+2069
abbrev pub is_bidi : ℕ → Bool
is_bidi c = c == 0x202e || leb 0x2066 c && leb c 0x2069

module _ (t : TextTools) where
  unfoldable check_prompt_injection : Text → AppResult (Unit {0})
  check_prompt_injection output =
      if t.injection_match output
      then err (bad_request (text "output failed safety check"))
      else ok tt

  unfoldable check_output_schema : AgentRole → Text → AppResult (Unit {0})
  check_output_schema role output =
      if is_planner role
      then if t.is_json output
        then ok tt
        else err (bad_request (text "planner output is not valid JSON"))
      else ok tt

  unfoldable pub strip_dangerous_chars : Text → Text
  strip_dangerous_chars output =
      let no_nulls = filter (λ c. not (c == 0)) output in
      let clean = t.strip_ansi no_nulls in filter (λ c. not (is_bidi c)) clean

  -- The classifier is a stub that accepts everything.
  unfoldable check_content_safety : Text → AppResult (Unit {0})
  check_content_safety output = ok tt

  unfoldable pub validate_output : ⦃d : Digest⦄ → ValidationInput → AppResult ValidationResult
  unfolding check_proof_hash check_prompt_injection check_output_schema strip_dangerous_chars
      check_content_safety
  validate_output input = do
    check_proof_hash input.prompt_shard_bytes input.output input.node_proof_hash_hex
    check_prompt_injection input.output
    check_output_schema input.role input.output
    let clean = strip_dangerous_chars input.output
    check_content_safety clean
    ok (record { clean_output = clean })
