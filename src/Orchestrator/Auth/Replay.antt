-- ===== src/Orchestrator/Auth/Replay.antt =====
-- Repeated requests in orchestrator/src/middleware/auth.rs.
use decentralized_hive_mind.Prelude.{
  ℕ, ◌+◌, ◌<◌, ◌≤◌, ◌≡◌, ◌^◌, inl, inr, true, some, List, [], ◌∷◌, Text, text, Bytes, All,
  Option-cases, arith,
}
use decentralized_hive_mind.Prelude.Int.{ℤ, pos, negsuc}
use decentralized_hive_mind.Common.Float64.{Float64}
use decentralized_hive_mind.Common.Crypto.{Digest, Ed25519}
use decentralized_hive_mind.Common.Types.{DateTime}
use decentralized_hive_mind.Orchestrator.Db.{World, sql}
use decentralized_hive_mind.Orchestrator.TaskManager.Housekeeping.{cleanup_expired_nonces}
use decentralized_hive_mind.Orchestrator.Auth.{
  Request, allow, check_headers, nonce_ttl, validate_and_consume, in_window, parse_i64,
  max_clock_skew_ms,
}
use decentralized_hive_mind.Orchestrator.Auth.Nonces.{
  is_denied, keeps, keeps-filter, validate_and_consume-kept, validate_and_consume-keeps,
  validate_and_consume-is_denied, check_headers-nonce,
}
use decentralized_hive_mind.Orchestrator.Auth.Window.{IsNear, in_window_iff, parse_i64-InI64}

-- Two moments of the window around one timestamp are at most the life of a nonce apart.
near-nonce_ttl :
    (a b : ℕ) (ts : ℤ)
    → b + max_clock_skew_ms < 2 ^ 63
    → IsNear a ts
    → IsNear b ts
    → b ≤ a + nonce_ttl
near-nonce_ttl a b (pos t) l p q = ground arith
near-nonce_ttl a b (negsuc n) l (inl p) (inl q) = ground arith
near-nonce_ttl a b (negsuc n) l (inl p) (inr q) = ground arith
near-nonce_ttl a b (negsuc n) l (inr p) (inl q) = ground arith
near-nonce_ttl a b (negsuc n) l (inr p) (inr q) = ground arith

module _ (K : Type 0) ⦃d : Digest⦄ ⦃c : Ed25519 K⦄ where
  -- What accepted headers say of the time.
  check_headers-in_window :
      (req : Request) (body : Bytes) (now : DateTime) (nonce : Text)
      → check_headers K req body now ≡ allow nonce
      → (s : Text) × (ts : ℤ) × (req.header (text "X-Timestamp") ≡ some s)
        × (parse_i64 s ≡ some ts)
        × (in_window now ts ≡ true)
  unfolding check_headers
  check_headers-in_window req body now nonce h =
      elim (Option-cases (req.header (text "X-Timestamp"))) [
        | inl n ↦ ground arith
        | inr (s, e) ↦ elim (Option-cases (parse_i64 s)) [
          | inl n ↦ ground arith
          | inr (ts, f) ↦ (s, ts, e, f, ground arith)
        ]
      ]

-- What may happen between two requests: other requests, and the cleanup.
pub data Step : Type 0 where
  attempt : Request → Bytes → Step
  cleanup : Step

-- Steps, each at its time.
abbrev pub Steps : Type 0
Steps = List (Step × DateTime)

module _ (F K : Type 0) ⦃o : Float64 F⦄ ⦃d : Digest⦄ ⦃c : Ed25519 K⦄ where
  unfoldable pub step : Step → DateTime → World F → World F
  step (attempt req body) now w = (validate_and_consume K req body now w).1
  step cleanup now w = (cleanup_expired_nonces now w).1

  unfoldable pub after : Steps → World F → World F
  after [] w = w
  after ((s, now) ∷ steps) w = after steps (step s now w)

  cleanup-kept :
      (nonce : Text) (until now : DateTime) (w : World F)
      → now ≤ until
      → keeps nonce until w.db.request_nonces ≡ true
      → keeps nonce until (cleanup_expired_nonces now w).1.db.request_nonces ≡ true
  unfolding cleanup_expired_nonces sql
  cleanup-kept nonce until now w b h =
      let left = keeps-filter nonce until now w.db.request_nonces b h in ground arith

  after-kept :
      (nonce : Text) (until b : DateTime) (steps : Steps) (w : World F)
      → b ≤ until
      → All (λ (s : Step × DateTime). s.1 ≤ b) steps
      → keeps nonce until w.db.request_nonces ≡ true
      → keeps nonce until (after steps w).db.request_nonces ≡ true
  unfolding after step
  after-kept nonce until b [] w l t h = h
  after-kept nonce until b ((attempt req body, now) ∷ steps) w l t h =
      after-kept nonce until b steps _ l t.1
        (validate_and_consume-kept F K nonce until now req body w h)
  after-kept nonce until b ((cleanup, now) ∷ steps) w l t h =
      after-kept nonce until b steps _ l t.1 (cleanup-kept nonce until now w (omega arith) h)

  -- A request accepted at the time a is refused at the time b, not before a, if it comes with the same
  -- nonce and timestamp, whatever its body and signature are, whatever requests and cleanups came in
  -- between, none of them later than b, and whichever calls fail; the time b is more than 30 seconds
  -- before the end of the type of timestamps.
  pub validate_and_consume-once :
      (req again : Request) (body body' : Bytes) (a b : DateTime) (steps : Steps) (w : World F)
      → b + max_clock_skew_ms < 2 ^ 63
      → a ≤ b
      → All (λ (s : Step × DateTime). s.1 ≤ b) steps
      → again.header (text "X-Nonce") ≡ req.header (text "X-Nonce")
      → again.header (text "X-Timestamp") ≡ req.header (text "X-Timestamp")
      → (validate_and_consume K req body a w).0 ≡ allow tt
      → is_denied
          (validate_and_consume K again body' b
            (after steps (validate_and_consume K req body a w).1)).0
        ≡ true
  validate_and_consume-once req again body body' a b steps w l ab times same_nonce same_time h =
      let (nonce, checks, stored) = validate_and_consume-keeps F K a req body w h in
      let (s, ts, header, parsed, window) = check_headers-in_window K req body a nonce checks in
      let header_nonce = check_headers-nonce K req body a nonce checks in
      let range = parse_i64-InI64 s ts parsed in
      let near = (in_window_iff a ts (omega arith) range).0 window in
      validate_and_consume-is_denied F K (a + nonce_ttl) b again body' _ λ n checks'.
        let (s', ts', header', parsed', window') =
          check_headers-in_window K again body' b n checks' in
        let header_nonce' = check_headers-nonce K again body' b n checks' in
        let same : n ≡ nonce = ground arith in
        let near' = (in_window_iff b ts l range).0 (ground arith) in
        let close = near-nonce_ttl a b ts l near near' in
        rw same (after-kept nonce (a + nonce_ttl) b steps _ close times stored)
