-- ===== src/Orchestrator/Auth.antt =====
-- orchestrator/src/middleware/auth.rs: signed requests with single-use nonces, and the layers of
-- orchestrator/src/main.rs that apply the checks.
pub mod Nonces
pub mod Window
pub mod Replay
pub mod Layers
use decentralized_hive_mind.Prelude.{
  ℕ, zero, suc, ◌+◌, ◌-◌, ◌*◌, ◌%◌, ◌^◌, Bool, true, false, not, ◌&&◌, ◌||◌, Option, none, some,
  List, [], ◌∷◌, ◌++◌, any, length, Text, Bytes, text, text_eq, as_bytes, len, is_some, leb, ltb,
  ◌==◌, if◌then◌else◌,
}
use decentralized_hive_mind.Prelude.Int.{ℤ, pos, negsuc, pos_part, neg_part, sub_ℕ, leb_ℤ}
use decentralized_hive_mind.Common.Crypto.{Digest, Ed25519}
use decentralized_hive_mind.Common.Identity.{IdentityResult, verify_signature, pubkey_hex}
use decentralized_hive_mind.Common.Identity
use decentralized_hive_mind.Common.Types.{DateTime}
use decentralized_hive_mind.Orchestrator.Error.{ErrorResponse, respond, AppResult, ok, err}
use decentralized_hive_mind.Orchestrator.Db.{NonceRow, Db, World, sql}

abbrev pub max_clock_skew_ms : ℕ
max_clock_skew_ms = 30_000

abbrev pub nonce_ttl : ℕ
nonce_ttl = 60_000

-- `i64` arithmetic of a release build: the difference of two values wraps.
abbrev wrap_i64 : ℤ → ℤ
wrap_i64 x = sub_ℕ ((pos_part x + 2 ^ 64 + 2 ^ 63 - neg_part x) % 2 ^ 64) (2 ^ 63)

abbrev sub_i64 : ℤ → ℤ → ℤ
sub_i64 a b = wrap_i64 (sub_ℕ (pos_part a + neg_part b) (neg_part a + pos_part b))

-- `i64::abs`, which returns the least value for the least value.
abbrev abs_i64 : ℤ → ℤ
abs_i64 (pos n) = pos n
abs_i64 (negsuc n) = if n == 2 ^ 63 - 1 then negsuc n else pos (suc n)

-- `str::parse::<i64>`: an optional sign and decimal digits, in the range of the type.
abbrev pub parse_digits : ℕ → Text → Option ℕ
parse_digits acc [] = some acc
parse_digits acc (c ∷ s) =
    let rest = parse_digits (acc * 10 + (c - b'0')) s in
    if leb b'0' c && leb c b'9' then rest else none

abbrev pub parse_ℕ : Text → Option ℕ
parse_ℕ [] = none
parse_ℕ (c ∷ s) = parse_digits 0 (c ∷ s)

abbrev pub in_i64 : Bool → Option ℕ → Option ℤ
in_i64 minus none = none
in_i64 false (some n) = if ltb n (2 ^ 63) then some (pos n) else none
in_i64 true (some n) = if leb n (2 ^ 63) then some (sub_ℕ 0 n) else none

unfoldable pub parse_i64 : Text → Option ℤ
parse_i64 [] = none
parse_i64 (c ∷ s) =
    if c == b'-'
    then in_i64 true (parse_ℕ s)
    else if c == b'+'
    then in_i64 false (parse_ℕ s)
    else in_i64 false (parse_ℕ (c ∷ s))

-- A request: its headers, as `headers.get(name).and_then(to_str)` gives them, and its body, unless
-- the connection breaks.
pub record Request : Type 0 where
  pub header : Text → Option Text
  pub body : Option Bytes

-- `Result<A, Response>`
pub data Outcome (A : Type 0) : Type 0 where
  allow : A → Outcome A
  deny : ErrorResponse → Outcome A

infixl 5 ◌>>=◌ ◌>>◌
abbrev pub ◌>>=◌ : {A B : Type 0} → Outcome A → (A → Outcome B) → Outcome B
allow a >>= f = f a
deny r >>= f = deny r

abbrev pub ◌>>◌ : {B : Type 0} → Outcome (Unit {0}) → Outcome B → Outcome B
m >> k = m >>= λ _. k

abbrev unauth : Text → ErrorResponse
unauth msg = respond 401 msg

abbrev or_deny : {A : Type 0} → Option A → Text → Outcome A
or_deny none msg = deny (unauth msg)
or_deny (some a) msg = allow a

abbrev allow_if : Bool → Text → Outcome (Unit {0})
allow_if true msg = allow tt
allow_if false msg = deny (unauth msg)

-- The window check: `(now_ms - ts_ms).abs() > MAX_CLOCK_SKEW_MS` is false.
unfoldable pub in_window : DateTime → ℤ → Bool
in_window now ts = leb_ℤ (abs_i64 (sub_i64 (pos now) ts)) (pos max_clock_skew_ms)

abbrev is_ok : {A : Type 0} → IdentityResult A → Bool
is_ok (Identity.ok _) = true
is_ok (Identity.err _) = false

-- `nonce_hex.len() != 64 || hex::decode(&nonce_hex).is_err()` is false.
unfoldable pub is_hex64 : ⦃d : Digest⦄ → Text → Bool
is_hex64 ⦃d⦄ s = len s == 64 && is_some (d.hex_decode s)

-- `sha256(body || timestamp || nonce)`
unfoldable pub request_hash : ⦃d : Digest⦄ → Bytes → Text → Text → Bytes
request_hash ⦃d⦄ body ts nonce = d.sha256 (body ++ (as_bytes ts ++ as_bytes nonce))

-- The checks before the nonce is stored, which they return.
unfoldable pub check_headers :
    (K : Type 0) ⦃d : Digest⦄ ⦃c : Ed25519 K⦄ → Request → Bytes → DateTime → Outcome Text
check_headers K ⦃d⦄ ⦃c⦄ req body now = do
  pubkey ← or_deny (req.header (text "X-Pubkey")) (text "missing X-Pubkey")
  ts_str ← or_deny (req.header (text "X-Timestamp")) (text "missing X-Timestamp")
  nonce ← or_deny (req.header (text "X-Nonce")) (text "missing X-Nonce")
  sig ← or_deny (req.header (text "X-Signature")) (text "missing X-Signature")
  ts ← or_deny (parse_i64 ts_str) (text "invalid X-Timestamp")
  allow_if (in_window now ts) (text "request expired")
  allow_if (is_hex64 nonce) (text "invalid X-Nonce format")
  allow_if (is_ok (verify_signature K pubkey (request_hash body ts_str nonce) sig))
      (text "invalid signature")
  allow nonce

abbrev pub has_nonce : {F : Type 0} → Text → Db F → Bool
has_nonce nonce db = any (λ n. text_eq n.nonce_hex nonce) db.request_nonces

-- `INSERT INTO request_nonces .. ON CONFLICT DO NOTHING`, with the number of rows inserted
abbrev pub insert_nonce : {F : Type 0} → Text → DateTime → Db F → Option (ℕ × Db F)
insert_nonce nonce now db = some (
    if has_nonce nonce db then (0, db) else (
      1,
      record db {
        request_nonces =
            db.request_nonces
            ++ record { nonce_hex = nonce; used_at = now; expires_at = now + nonce_ttl } ∷ [];
      },
    ))

abbrev nonce_verdict : AppResult ℕ → Outcome (Unit {0})
nonce_verdict (err _) = deny (respond 500 (text "nonce store error"))
nonce_verdict (ok n) = if n == 0 then deny (unauth (text "nonce already used")) else allow tt

module _ {F : Type 0} where
  unfoldable pub consume_nonce : Text → DateTime → World F → Outcome (Unit {0}) × World F
  consume_nonce nonce now w = let (r, w') = sql (insert_nonce nonce now) w in (nonce_verdict r, w')

  abbrev pub after_checks : Outcome Text → DateTime → World F → Outcome (Unit {0}) × World F
  after_checks (deny r) now w = (deny r, w)
  after_checks (allow nonce) now w = consume_nonce nonce now w

  unfoldable pub validate_and_consume :
      (K : Type 0) ⦃d : Digest⦄ ⦃c : Ed25519 K⦄
      → Request
      → Bytes
      → DateTime
      → World F
      → Outcome (Unit {0}) × World F
  validate_and_consume K req body now w = after_checks (check_headers K req body now) now w

-- `axum::body::to_bytes(body, 64 * 1024)`
abbrev pub body_limit : ℕ
body_limit = 64 * 1024

abbrev pub read_body : Request → Outcome Bytes
read_body req = elim req.body [
  | none ↦ deny (respond 400 (text "body too large"))
  | some b ↦
      if leb (length b) body_limit then allow b else deny (respond 400 (text "body too large"))
]

-- What stands behind a layer: a handler or another layer.
abbrev pub Service : Type 0 → Type 0 → Type 0
Service F A = Request → World F → Outcome A × World F

abbrev same_key : Bool → Outcome (Unit {0})
same_key true = allow tt
same_key false = deny (respond 403 (text "admin key mismatch"))

abbrev pub is_admin : {K : Type 0} ⦃d : Digest⦄ ⦃c : Ed25519 K⦄ → K → Request → Outcome (Unit {0})
is_admin admin_key req = do
  pubkey ← or_deny (req.header (text "X-Pubkey")) (text "missing X-Pubkey")
  same_key (text_eq pubkey (pubkey_hex admin_key))

module _ {F A : Type 0} where
  abbrev pub proceed :
      Outcome (Unit {0}) × World F → (World F → Outcome A × World F) → Outcome A × World F
  proceed (deny r, w) next = (deny r, w)
  proceed (allow _, w) next = next w

  abbrev pub checked :
      (K : Type 0) ⦃d : Digest⦄ ⦃c : Ed25519 K⦄
      → Outcome Bytes
      → DateTime
      → Service F A
      → Service F A
  checked K (deny r) now next req w = (deny r, w)
  checked K (allow body) now next req w =
      proceed (validate_and_consume K req body now w) (next (record req { body = some body }))

  unfoldable pub verify_signed_request :
      (K : Type 0) ⦃d : Digest⦄ ⦃c : Ed25519 K⦄ → DateTime → Service F A → Service F A
  verify_signed_request K now next req w = checked K (read_body req) now next req w

  unfoldable pub require_admin_signature :
      {K : Type 0} ⦃d : Digest⦄ ⦃c : Ed25519 K⦄ → K → DateTime → Service F A → Service F A
  require_admin_signature {K} admin_key now next req w =
      proceed (is_admin admin_key req, w) (λ w'. checked K (read_body req) now next req w')

  -- A route under `/admin` of orchestrator/src/main.rs: the router of the admin routes has its layer,
  -- and stands in the protected router, whose layer is outside.
  unfoldable pub admin_route :
      {K : Type 0} ⦃d : Digest⦄ ⦃c : Ed25519 K⦄
      → K
      → DateTime
      → DateTime
      → Service F A
      → Service F A
  admin_route {K} admin_key outer inner handler =
      verify_signed_request K outer (require_admin_signature admin_key inner handler)
