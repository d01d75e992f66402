-- ===== src/Orchestrator/Router/Signed.antt =====
-- What reaches the handlers of orchestrator/src/main.rs, and what they do to the tables.
use decentralized_hive_mind.Prelude.{
  ◌≡◌, ◌≢◌, ap, text_eq_sound, refl, Bool-cases, Option, none, some, List, [], ◌∷◌, inl, inr, ◌⊎◌,
  Text, Bytes, text, text_eq,
}
use decentralized_hive_mind.Common.Float64.{Float64}
use decentralized_hive_mind.Common.Crypto.{Digest, Ed25519}
use decentralized_hive_mind.Common.Types.{DateTime}
use decentralized_hive_mind.Orchestrator.Error.{ErrorResponse}
use decentralized_hive_mind.Orchestrator.Db.{World}
use decentralized_hive_mind.Orchestrator.Auth.{
  Request, Outcome, allow, deny, Service, read_body, check_headers, checked, validate_and_consume,
  verify_signed_request, require_admin_signature, admin_route,
}
use decentralized_hive_mind.Orchestrator.Service.{Setup}
use decentralized_hive_mind.Orchestrator.Router.{
  Method, Endpoint, Reply, Extract, Draws, endpoint_of, is_admin_path, routed, not_found, app_at,
  app,
}

-- The body of a request and its headers are signed, at a time.
abbrev pub IsSigned : (K : Type 0) ⦃d : Digest⦄ ⦃c : Ed25519 K⦄ → Request → DateTime → Type 0
IsSigned K req now =
    (body : Bytes) × (nonce : Text) × (read_body req ≡ allow body)
    × (check_headers K req body now ≡ allow nonce)

-- The request is refused, and the state is as it was.
abbrev pub IsUntouched : {F A : Type 0} → World F → Outcome A × World F → Type 0
IsUntouched w r = (e : ErrorResponse) × (r ≡ (deny e, w))

module _ (F A K : Type 0) ⦃d : Digest⦄ ⦃c : Ed25519 K⦄ where
  headers-IsSigned :
      (checks : Outcome Text) (body : Bytes) (now : DateTime) (next : Service F A) (req : Request)
      (w : World F)
      → read_body req ≡ allow body
      → check_headers K req body now ≡ checks
      → IsSigned K req now ⊎ IsUntouched w (checked K (allow body) now next req w)
  unfolding validate_and_consume
  headers-IsSigned (deny e) body now next req w b h = inr (e, rw h refl)
  headers-IsSigned (allow nonce) body now next req w b h = inl (body, nonce, b, h)

  checked-IsSigned :
      (o : Outcome Bytes) (now : DateTime) (next : Service F A) (req : Request) (w : World F)
      → read_body req ≡ o
      → IsSigned K req now ⊎ IsUntouched w (checked K o now next req w)
  checked-IsSigned (deny e) now next req w b = inr (e, refl)
  checked-IsSigned (allow body) now next req w b =
      headers-IsSigned (check_headers K req body now) body now next req w b refl

  verify_signed_request-IsSigned :
      (now : DateTime) (next : Service F A) (req : Request) (w : World F)
      → IsSigned K req now ⊎ IsUntouched w (verify_signed_request K now next req w)
  unfolding verify_signed_request
  verify_signed_request-IsSigned now next req w =
      checked-IsSigned (read_body req) now next req w refl

  admin_route-IsSigned :
      (key : K) (outer inner : DateTime) (next : Service F A) (req : Request) (w : World F)
      → IsSigned K req outer ⊎ IsUntouched w (admin_route key outer inner next req w)
  unfolding admin_route
  admin_route-IsSigned key outer inner next req w =
      verify_signed_request-IsSigned outer (require_admin_signature key inner next) req w

module _ (F K : Type 0) ⦃o : Float64 F⦄ ⦃d : Digest⦄ ⦃c : Ed25519 K⦄ (setup : Setup F K)
    (extract : Extract F) (draws : Draws) (admin_key : K) (method : Method) (req : Request)
    (w : World F) where
  app_at-IsSigned :
      (found : Option Endpoint)
      → IsSigned K req draws.outer
        ⊎ IsUntouched w (app_at setup extract draws admin_key method found req w)
  app_at-IsSigned none = verify_signed_request-IsSigned F (Reply F) K draws.outer not_found req w
  app_at-IsSigned (some e) =
      let next = routed setup extract draws method e in
      elim (Bool-cases (is_admin_path e)) [
        | inl admin ↦
            rw admin
              (admin_route-IsSigned F (Reply F) K admin_key draws.outer draws.inner next req w)
        | inr open_to_all ↦
            rw open_to_all (verify_signed_request-IsSigned F (Reply F) K draws.outer next req w)
      ]

  -- A request to any path but that of the probe has a body within the limit and headers that pass
  -- the checks of the signature, or it is refused and leaves the state as it was, whatever its
  -- handler would do.
  pub app-IsSigned :
      (path : List Text)
      → path ≢ text "health" ∷ []
      → IsSigned K req draws.outer
        ⊎ IsUntouched w (app setup extract draws admin_key method path req w)
  unfolding app
  app-IsSigned [] h = app_at-IsSigned (endpoint_of [])
  app-IsSigned (a ∷ b ∷ path) h = app_at-IsSigned (endpoint_of (a ∷ b ∷ path))
  app-IsSigned (a ∷ []) h = elim (Bool-cases (text_eq a (text "health"))) [
    | inl same ↦ absurd (h (ap (λ (t : Text). t ∷ []) (text_eq_sound a (text "health") same)))
    | inr other_path ↦ rw other_path (app_at-IsSigned (endpoint_of (a ∷ [])))
  ]
