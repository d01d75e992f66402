-- ===== src/Orchestrator/Auth/Layers.antt =====
-- The two layers in front of the routes under `/admin` (orchestrator/src/main.rs), which take the
-- same nonce.
use decentralized_hive_mind.Prelude.{◌≡◌, refl, true, some, Text, text, Bytes, arith, ◌+◌}
use decentralized_hive_mind.Common.Crypto.{Digest, Ed25519}
use decentralized_hive_mind.Common.Types.{DateTime}
use decentralized_hive_mind.Orchestrator.Db.{World}
use decentralized_hive_mind.Orchestrator.Auth.{
  Request, Outcome, allow, deny, validate_and_consume, nonce_ttl, Service, admin_route,
  verify_signed_request, require_admin_signature, read_body, is_admin, checked, proceed,
}
use decentralized_hive_mind.Orchestrator.Auth.Nonces.{
  is_denied, keeps, validate_and_consume-keeps, validate_and_consume-is_denied, check_headers-nonce,
}

-- Two outcomes that are the same refusal.
abbrev pub Refused : {F A : Type 0} → Outcome A × World F → Outcome A × World F → Type 0
Refused x y = (is_denied x.0 ≡ true) × (x ≡ y)

module _ {F A : Type 0} where
  proceed_rule :
      (o : Outcome (Unit {0}) × World F) (f g : World F → Outcome A × World F)
      → (o.0 ≡ allow tt → Refused (f o.1) (g o.1))
      → Refused (proceed o f) (proceed o g)
  proceed_rule (deny r, w) f g h = (refl, refl)
  proceed_rule (allow tt, w) f g h = h refl

  proceed_denied :
      (o : Outcome (Unit {0}) × World F) (f g : World F → Outcome A × World F)
      → is_denied o.0 ≡ true
      → Refused (proceed o f) (proceed o g)
  proceed_denied (deny r, w) f g h = (refl, refl)
  proceed_denied (allow tt, w) f g h = cc

module _ (F A K : Type 0) ⦃d : Digest⦄ ⦃c : Ed25519 K⦄ where
  checked_denied :
      (body : Outcome Bytes) (now until : DateTime) (req : Request) (nonce : Text)
      (f g : Service F A) (w : World F)
      → req.header (text "X-Nonce") ≡ some nonce
      → keeps nonce until w.db.request_nonces ≡ true
      → Refused (checked K body now f req w) (checked K body now g req w)
  checked_denied (deny r) now until req nonce f g w header stored = (refl, refl)
  checked_denied (allow body) now until req nonce f g w header stored =
      let passed_on = record req { body = some body } in
      proceed_denied (validate_and_consume K req body now w) (f passed_on) (g passed_on) (
        validate_and_consume-is_denied F K until now req body w λ n checks.
          let same : n ≡ nonce = ground (arith, check_headers-nonce K req body now n checks) in
          rw same stored)

  -- The inner layer refuses a request whose nonce is stored, and does not call its handler.
  require_admin_signature-Refused :
      (key : K) (inner until : DateTime) (req : Request) (nonce : Text) (f g : Service F A)
      (w : World F)
      → req.header (text "X-Nonce") ≡ some nonce
      → keeps nonce until w.db.request_nonces ≡ true
      → Refused
          (require_admin_signature key inner f req w)
          (require_admin_signature key inner g req w)
  unfolding require_admin_signature
  require_admin_signature-Refused key inner until req nonce f g w header stored =
      proceed_rule (is_admin key req, w) (λ w'. checked K (read_body req) inner f req w')
        (λ w'. checked K (read_body req) inner g req w')
        λ _. checked_denied (read_body req) inner until req nonce f g w header stored

  layers-Refused :
      (body : Outcome Bytes) (key : K) (outer inner : DateTime) (f g : Service F A) (req : Request)
      (w : World F)
      → Refused
          (checked K body outer (require_admin_signature key inner f) req w)
          (checked K body outer (require_admin_signature key inner g) req w)
  layers-Refused (deny r) key outer inner f g req w = (refl, refl)
  layers-Refused (allow body) key outer inner f g req w =
      let passed_on = record req { body = some body } in
      proceed_rule (validate_and_consume K req body outer w)
        (require_admin_signature key inner f passed_on)
        (require_admin_signature key inner g passed_on)
        λ passed.
          let (nonce, checks, stored) = validate_and_consume-keeps F K outer req body w passed in
          require_admin_signature-Refused key inner (outer + nonce_ttl) passed_on nonce f g _
            (check_headers-nonce K req body outer nonce checks) stored

  -- Behind the two layers of the admin routes every request is refused, whatever key signed it and
  -- wherever a call of the database fails, and what the handler would do makes no difference to the
  -- response or to the state that the request leaves.
  pub admin_route-Refused :
      (key : K) (outer inner : DateTime) (f g : Service F A) (req : Request) (w : World F)
      → Refused (admin_route key outer inner f req w) (admin_route key outer inner g req w)
  unfolding admin_route verify_signed_request
  admin_route-Refused key outer inner f g req w =
      layers-Refused (read_body req) key outer inner f g req w
