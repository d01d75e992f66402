-- ===== src/Orchestrator/Auth/Nonces.antt =====
-- The table of nonces of orchestrator/src/middleware/auth.rs: what a stored nonce does to a request.
use decentralized_hive_mind.Prelude.{
  ◌+◌, ◌≤◌, ◌≡◌, refl, Bool, true, false, not, ◌&&◌, some, List, [], ◌∷◌, ◌++◌, Text, text, Bytes,
  any, filter, arith, text_eq, text_eq_refl, leb, ltb,
}
use decentralized_hive_mind.Common.Crypto.{Digest, Ed25519}
use decentralized_hive_mind.Common.Types.{DateTime}
use decentralized_hive_mind.Orchestrator.Db.{NonceRow, World, sql}
use decentralized_hive_mind.Orchestrator.Auth.{
  Request, Outcome, allow, deny, check_headers, consume_nonce, after_checks, validate_and_consume,
  nonce_ttl,
}

-- A request that has not got through.
abbrev pub is_denied : {A : Type 0} → Outcome A → Bool
is_denied (allow _) = false
is_denied (deny _) = true

-- The nonce is stored at least until a time.
abbrev pub keeps : Text → DateTime → List NonceRow → Bool
keeps nonce until rows = any (λ n. text_eq n.nonce_hex nonce && leb until n.expires_at) rows

keeps-any :
    (nonce : Text) (until : DateTime) (rows : List NonceRow)
    → keeps nonce until rows ≡ true
    → any (λ (n : NonceRow). text_eq n.nonce_hex nonce) rows ≡ true
keeps-any nonce until [] h = h
keeps-any nonce until (r ∷ rows) h = ground (arith, keeps-any nonce until rows)

keeps-append :
    (nonce : Text) (until : DateTime) (rows more : List NonceRow)
    → keeps nonce until rows ≡ true
    → keeps nonce until (rows ++ more) ≡ true
keeps-append nonce until [] more h = cc
keeps-append nonce until (r ∷ rows) more h = ground (arith, keeps-append nonce until rows more)

keeps-snoc :
    (nonce : Text) (now : DateTime) (rows : List NonceRow)
    → keeps nonce
        (now + nonce_ttl)
        (rows ++ record { nonce_hex = nonce; used_at = now; expires_at = now + nonce_ttl } ∷ [])
      ≡ true
keeps-snoc nonce now [] = ground (arith, text_eq_refl nonce)
keeps-snoc nonce now (r ∷ rows) = ground (arith, keeps-snoc nonce now rows)

-- The cleanup leaves a row until it has expired.
pub keeps-filter :
    (nonce : Text) (until now : DateTime) (rows : List NonceRow)
    → now ≤ until
    → keeps nonce until rows ≡ true
    → keeps nonce until (filter (λ (n : NonceRow). not (ltb n.expires_at now)) rows) ≡ true
keeps-filter nonce until now [] b h = h
keeps-filter nonce until now (r ∷ rows) b h = ground (arith, keeps-filter nonce until now rows b)

module _ {F : Type 0} where
  -- A nonce that has been accepted is stored for the next 60 seconds.
  consume_nonce-keeps :
      (nonce : Text) (now : DateTime) (w : World F)
      → (consume_nonce nonce now w).0 ≡ allow tt
      → keeps nonce (now + nonce_ttl) (consume_nonce nonce now w).1.db.request_nonces ≡ true
  unfolding consume_nonce sql
  consume_nonce-keeps nonce now w h =
      let stored = keeps-snoc nonce now w.db.request_nonces in ground arith

  -- A call leaves the stored nonces.
  consume_nonce-kept :
      (nonce other : Text) (until now : DateTime) (w : World F)
      → keeps nonce until w.db.request_nonces ≡ true
      → keeps nonce until (consume_nonce other now w).1.db.request_nonces ≡ true
  unfolding consume_nonce sql
  consume_nonce-kept nonce other until now w h =
      let more =
        keeps-append nonce until w.db.request_nonces
          (record { nonce_hex = other; used_at = now; expires_at = now + nonce_ttl } ∷ []) h in
      ground arith

  -- A stored nonce is refused, wherever a call fails.
  consume_nonce-is_denied :
      (nonce : Text) (until now : DateTime) (w : World F)
      → keeps nonce until w.db.request_nonces ≡ true
      → is_denied (consume_nonce nonce now w).0 ≡ true
  unfolding consume_nonce sql
  consume_nonce-is_denied nonce until now w h =
      let stored = keeps-any nonce until w.db.request_nonces h in ground arith

  after_checks-kept :
      (r : Outcome Text) (nonce : Text) (until now : DateTime) (w : World F)
      → keeps nonce until w.db.request_nonces ≡ true
      → keeps nonce until (after_checks r now w).1.db.request_nonces ≡ true
  after_checks-kept (deny _) nonce until now w h = h
  after_checks-kept (allow other) nonce until now w h = consume_nonce-kept nonce other until now w h

  -- The outcome after checks that, if they let a request through, return a stored nonce.
  after_checks-is_denied :
      (r : Outcome Text) (until now : DateTime) (w : World F)
      → ((n : Text) → r ≡ allow n → keeps n until w.db.request_nonces ≡ true)
      → is_denied (after_checks r now w).0 ≡ true
  after_checks-is_denied (deny _) until now w h = refl
  after_checks-is_denied (allow n) until now w h = consume_nonce-is_denied n until now w (h n refl)

  after_checks-keeps :
      (r : Outcome Text) (now : DateTime) (w : World F)
      → (after_checks r now w).0 ≡ allow tt
      → (n : Text) × (r ≡ allow n)
        × (keeps n (now + nonce_ttl) (after_checks r now w).1.db.request_nonces ≡ true)
  after_checks-keeps (deny _) now w h = cc
  after_checks-keeps (allow n) now w h = (n, refl, consume_nonce-keeps n now w h)

module _ (F K : Type 0) ⦃d : Digest⦄ ⦃c : Ed25519 K⦄ where
  pub validate_and_consume-kept :
      (nonce : Text) (until now : DateTime) (req : Request) (body : Bytes) (w : World F)
      → keeps nonce until w.db.request_nonces ≡ true
      → keeps nonce until (validate_and_consume K req body now w).1.db.request_nonces ≡ true
  unfolding validate_and_consume
  validate_and_consume-kept nonce until now req body w h =
      after_checks-kept (check_headers K req body now) nonce until now w h

  pub validate_and_consume-is_denied :
      (until now : DateTime) (req : Request) (body : Bytes) (w : World F)
      → ((n : Text)
          → check_headers K req body now ≡ allow n
          → keeps n until w.db.request_nonces ≡ true)
      → is_denied (validate_and_consume K req body now w).0 ≡ true
  unfolding validate_and_consume
  validate_and_consume-is_denied until now req body w h =
      after_checks-is_denied (check_headers K req body now) until now w h

  -- Accepting a request stores its nonce.
  pub validate_and_consume-keeps :
      (now : DateTime) (req : Request) (body : Bytes) (w : World F)
      → (validate_and_consume K req body now w).0 ≡ allow tt
      → (n : Text) × (check_headers K req body now ≡ allow n)
        × (keeps n (now + nonce_ttl) (validate_and_consume K req body now w).1.db.request_nonces
            ≡ true)
  unfolding validate_and_consume
  validate_and_consume-keeps now req body w h =
      after_checks-keeps (check_headers K req body now) now w h

module _ (K : Type 0) ⦃d : Digest⦄ ⦃c : Ed25519 K⦄ where
  -- The nonce that the checks return is the one in the header.
  pub check_headers-nonce :
      (req : Request) (body : Bytes) (now : DateTime) (nonce : Text)
      → check_headers K req body now ≡ allow nonce
      → req.header (text "X-Nonce") ≡ some nonce
  unfolding check_headers
  check_headers-nonce req body now nonce h = ground arith
