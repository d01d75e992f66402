-- ===== src/NodeClient/Signing/Served.antt =====
-- The signed requests of node-client/src/main.rs and node-client/src/runner.rs, and the router of
-- orchestrator/src/main.rs.
use decentralized_hive_mind.Prelude.{
  ◌+◌, ◌≡◌, ◌<◌, ◌≤◌, ◌^◌, refl, sym, ap, ◌∙◌, false, none, some, List, [], ◌∷◌, ◌++◌, length, Text,
  Bytes, text, text_eq, text_eq_sound, Bool-cases, inl, inr, arith,
}
use decentralized_hive_mind.Common.Float64.{Float64}
use decentralized_hive_mind.Common.Crypto.{IsBytes, Digest, Ed25519}
use decentralized_hive_mind.Common.Types.{DateTime}
use decentralized_hive_mind.Orchestrator.Db.{World, sql}
use decentralized_hive_mind.Orchestrator.Auth.{
  Request, allow, Service, check_headers, verify_signed_request, validate_and_consume,
  consume_nonce, has_nonce, nonce_ttl, max_clock_skew_ms, body_limit,
}
use decentralized_hive_mind.Orchestrator.Service.{Setup}
use decentralized_hive_mind.Orchestrator.Router.{
  Method, Endpoint, Reply, Extract, Draws, endpoint_of, is_admin_path, routed, app_at, app,
}
use decentralized_hive_mind.NodeClient.Signing.{signed}
use decentralized_hive_mind.NodeClient.Signing.Accepted.{check_headers-signed}

-- The state in which a nonce has been stored.
abbrev pub with_nonce : {F : Type 0} → Text → DateTime → World F → World F
with_nonce nonce now w = record w {
  db = record w.db {
    request_nonces =
        w.db.request_nonces
        ++ record { nonce_hex = nonce; used_at = now; expires_at = now + nonce_ttl } ∷ [];
  };
}

module _ (F A K : Type 0) ⦃d : Digest⦄ ⦃c : Ed25519 K⦄ (signing_key : K) (body : Bytes)
    (random : Bytes) (sent : DateTime) where
  verify_signed_request-signed :
      (now : DateTime) (next : Service F A) (w : World F)
      → check_headers K (signed signing_key body random sent) body now ≡ allow (d.hex_encode random)
      → length body ≤ body_limit
      → has_nonce (d.hex_encode random) w.db ≡ false
      → w.faults ≡ []
      → verify_signed_request K now next (signed signing_key body random sent) w
        ≡ next (signed signing_key body random sent) (with_nonce (d.hex_encode random) now w)
  unfolding verify_signed_request validate_and_consume consume_nonce sql signed
  verify_signed_request-signed now next w h size fresh calm = ground (arith, h, fresh, calm)

module _ (F K : Type 0) ⦃o : Float64 F⦄ ⦃d : Digest⦄ ⦃c : Ed25519 K⦄ (setup : Setup F K)
    (extract : Extract F) (draws : Draws) (admin_key : K) (method : Method) (w : World F) where
  -- A path with a route is that of no probe.
  app-app_at :
      (path : List Text) (e : Endpoint) (req : Request)
      → endpoint_of path ≡ some e
      → app setup extract draws admin_key method path req w
        ≡ app_at setup extract draws admin_key method (some e) req w
  unfolding app
  app-app_at [] e req h = cc
  app-app_at (a ∷ b ∷ path) e req h = rw h refl
  app-app_at (a ∷ []) e req h = elim (Bool-cases (text_eq a (text "health"))) [
    | inl probe ↦
        let same = text_eq_sound a (text "health") probe in
        let clash : none ≡ some e = sym (ap (λ (t : Text). endpoint_of (t ∷ [])) same) ∙ h in cc
    | inr other ↦ rw (other, h) refl
  ]

  -- A request that a client signs with 32 random bytes, with the headers of its POST requests, to a
  -- path with a route outside of those of the administrator, is routed as its method says (to its
  -- handler, or to the answer 405), in the state in which its nonce has been stored, if the body is
  -- within the limit, the two clocks differ by at most 30 seconds, the nonce is unused, and no call of
  -- the database fails.
  pub app-signed :
      (signing_key : K) (body random : Bytes) (sent : DateTime) (path : List Text) (e : Endpoint)
      → endpoint_of path ≡ some e
      → is_admin_path e ≡ false
      → IsBytes random
      → length random ≡ 32
      → sent < 2 ^ 63
      → draws.outer + max_clock_skew_ms < 2 ^ 63
      → draws.outer ≤ sent + max_clock_skew_ms
      → sent ≤ draws.outer + max_clock_skew_ms
      → length body ≤ body_limit
      → has_nonce (d.hex_encode random) w.db ≡ false
      → w.faults ≡ []
      → app setup extract draws admin_key method path (signed signing_key body random sent) w
        ≡ routed setup extract draws method e
            (signed signing_key body random sent)
            (with_nonce (d.hex_encode random) draws.outer w)
  app-signed signing_key body random sent path e found open_path bytes size s n late early small
        fresh calm =
      let checks =
        check_headers-signed K signing_key body random sent draws.outer bytes size s n late early in
      app-app_at path e (signed signing_key body random sent) found
      ∙ rw open_path (
          verify_signed_request-signed F (Reply F) K signing_key body random sent draws.outer
            (routed setup extract draws method e) w checks small fresh calm)
