-- ===== src/NodeClient/Http.antt =====
-- The crates `reqwest`, `chrono` and `rand` as the node uses them: the requests that it sends, their
-- outcomes, the clock and the random bytes. What is outside of the node is a state of a type `E`.
use decentralized_hive_mind.Prelude.{
  ℕ, Bool, Option, some, [], ◌&&◌, Text, Bytes, text, leb, ltb, if◌then◌else◌,
}
use decentralized_hive_mind.Common.Crypto.{Digest, Ed25519}
use decentralized_hive_mind.Common.Identity.{pubkey_hex}
use decentralized_hive_mind.Common.Types.{DateTime}
use decentralized_hive_mind.Orchestrator.Auth.{Request}
use decentralized_hive_mind.NodeClient.Effect.{ok, fail, Effect, context, ◌>>=◌}
use decentralized_hive_mind.NodeClient.Signing.{
  SignedParts, header_of, with_content_type, sign_request,
}

pub data Method : Type 0 where
  get post : Method

pub record HttpRequest : Type 0 where
  pub method : Method
  pub url : Text
  pub request : Request

-- `body` is `none` where it cannot be read.
pub record Reply : Type 0 where
  pub status : ℕ
  pub body : Option Text

pub record Outside (E : Type 0) : Type 0 where
  -- `none` is a request that got no reply.
  pub send : HttpRequest → E → Option Reply × E
  pub clock : E → DateTime × E
  pub random : E → Bytes × E
  -- `tokio::time::sleep`, in seconds, and the seconds of `Instant::now`
  pub sleep : ℕ → E → E
  pub instant : E → ℕ
  -- whether `Client::builder()..build()` succeeds
  pub builds : E → Bool

-- `status.is_success()`, and the errors of `error_for_status`
abbrev pub is_success : ℕ → Bool
is_success s = leb 200 s && ltb s 300

abbrev pub is_error : ℕ → Bool
is_error s = leb 400 s && ltb s 600

module _ {E : Type 0} ⦃out : Outside E⦄ where
  -- `request.send().await.context(message)?`
  unfoldable pub send_request : HttpRequest → Text → Effect E Reply
  unfolding ◌>>=◌ context
  send_request request message = do
    reply ← λ e. let (r, e') = out.send request e in (ok r, e')
    context reply message

  unfoldable pub build_client : Effect E (Unit {0})
  build_client e = if out.builds e then (ok tt, e) else (fail (text "client"), e)

  -- `Utc::now()` and `rand::random`, and what is signed with them
  unfoldable pub sign : {K : Type 0} ⦃d : Digest⦄ ⦃c : Ed25519 K⦄ → K → Bytes → Effect E SignedParts
  sign signing_key body e =
      let (now, e₁) = out.clock e in
      let (random, e₂) = out.random e₁ in (ok (sign_request signing_key body random now), e₂)

-- `client.post(url)` with its headers and its body, and `client.get(url)`
module _ {K : Type 0} ⦃d : Digest⦄ ⦃c : Ed25519 K⦄ where
  abbrev pub post_request : K → Text → Bytes → SignedParts → HttpRequest
  post_request signing_key url body parts = record {
    method = post;
    url = url;
    request = record {
      header = with_content_type (header_of (pubkey_hex signing_key) parts);
      body = some body;
    };
  }

  abbrev pub get_request : K → Text → SignedParts → HttpRequest
  get_request signing_key url parts = record {
    method = get;
    url = url;
    request = record { header = header_of (pubkey_hex signing_key) parts; body = some [] };
  }
