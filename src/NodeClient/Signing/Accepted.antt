-- ===== src/NodeClient/Signing/Accepted.antt =====
-- The checks of the orchestrator on the requests that node-client/src/main.rs signs.
use decentralized_hive_mind.Prelude.{
  ℕ, zero, suc, ◌+◌, ◌*◌, ◌-◌, ◌/◌, ◌%◌, ◌^◌, ◌<◌, ◌≤◌, ◌≡◌, refl, inl, inr, some, [], ◌∷◌, ◌++◌,
  Text, Bytes, length, ltb, arith, Bool-cases, as_bytes,
}
use decentralized_hive_mind.Prelude.Decimal.{show_digits, show_ℕ}
use decentralized_hive_mind.Prelude.Int.{pos}
use decentralized_hive_mind.Common.Crypto.{IsBytes, Digest, Ed25519}
use decentralized_hive_mind.Common.Identity.Roundtrip.{verify_signature-sign_hex}
use decentralized_hive_mind.Common.Types.{DateTime}
use decentralized_hive_mind.Orchestrator.Auth.{
  allow, check_headers, parse_digits, parse_i64, max_clock_skew_ms, is_hex64, request_hash,
}
use decentralized_hive_mind.Orchestrator.Auth.Window.{in_window_iff}
use decentralized_hive_mind.NodeClient.Signing.{sign_request, signed}

-- Reading one more digit.
parse_digits-snoc :
    (acc m k : ℕ) (s : Text)
    → k < 10
    → parse_digits acc s ≡ some m
    → parse_digits acc (s ++ (b'0' + k) ∷ []) ≡ some (m * 10 + k)
parse_digits-snoc acc m k [] l h = ground arith
parse_digits-snoc acc m k (c ∷ s) l h =
    ground (arith, parse_digits-snoc (acc * 10 + (c - b'0')) m k s l)

parse_digits-show_digits : (fuel n : ℕ) → n < fuel → parse_digits 0 (show_digits fuel n) ≡ some n
parse_digits-show_digits zero n l = elim l [ ]
parse_digits-show_digits (suc fuel) n l = elim (Bool-cases (ltb n 10)) [
  | inl small ↦ ground arith
  | inr large ↦
      let upper = parse_digits-show_digits fuel (n / 10) (grind arith) in
      let all_digits =
        parse_digits-snoc 0 (n / 10) (n % 10) (show_digits fuel (n / 10)) (omega arith) upper in
      let whole : n / 10 * 10 + n % 10 ≡ n = omega arith in ground arith
]

-- The first character is a digit.
head-show_digits :
    (fuel n : ℕ) → n < fuel → (c : ℕ) × (s : Text) × (show_digits fuel n ≡ c ∷ s) × (48 ≤ c)
head-show_digits zero n l = elim l [ ]
head-show_digits (suc fuel) n l = elim (Bool-cases (ltb n 10)) [
  | inl small ↦ (48 + n, [], rw small refl, omega arith)
  | inr large ↦
      let (c, s, e, digit) = head-show_digits fuel (n / 10) (grind arith) in
      (c, s ++ (48 + n % 10) ∷ [], rw (large, e) refl, digit)
]

-- A timestamp is read as it was written.
parse_i64-show_ℕ : (n : ℕ) → n < 2 ^ 63 → parse_i64 (show_ℕ n) ≡ some (pos n)
unfolding parse_i64 show_ℕ
parse_i64-show_ℕ n l =
    let (c, s, e, digit) = head-show_digits (suc n) n (omega arith) in
    let value = parse_digits-show_digits (suc n) n (omega arith) in
    rw e (ground (arith, rw e at value))

module _ (K : Type 0) ⦃d : Digest⦄ ⦃c : Ed25519 K⦄ where
  -- A request that a client signs with 32 random bytes passes the checks of the orchestrator, which
  -- take the nonce from it, if the two clocks differ by at most 30 seconds.
  pub check_headers-signed :
      (signing_key : K) (body random : Bytes) (sent now : DateTime)
      → IsBytes random
      → length random ≡ 32
      → sent < 2 ^ 63
      → now + max_clock_skew_ms < 2 ^ 63
      → now ≤ sent + max_clock_skew_ms
      → sent ≤ now + max_clock_skew_ms
      → check_headers K (signed signing_key body random sent) body now ≡ allow (d.hex_encode random)
  unfolding check_headers signed sign_request is_hex64 request_hash
  check_headers-signed signing_key body random sent now bytes size s n late early =
      let stamp = parse_i64-show_ℕ sent s in
      let window = (in_window_iff now (pos sent) n s).1 (late, early) in
      let decoded = d.decode-encode random bytes in
      let digits = d.len-hex_encode random bytes in
      let verified =
        verify_signature-sign_hex K signing_key
          (d.sha256 (body ++ (as_bytes (show_ℕ sent) ++ as_bytes (d.hex_encode random)))) in
      ground arith
