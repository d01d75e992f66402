-- ===== src/NodeClient/Signing.antt =====
-- node-client/src/main.rs: how a request is signed, and node-client/src/runner.rs, which does the
-- same for a result.
pub mod Accepted
pub mod Served
use decentralized_hive_mind.Prelude.{
  ℕ, ◌≡◌, Option, none, some, ◌++◌, Text, Bytes, text, text_eq, as_bytes, if◌then◌else◌,
}
use decentralized_hive_mind.Prelude.Decimal.{show_ℕ}
use decentralized_hive_mind.Common.Crypto.{Digest, Ed25519}
use decentralized_hive_mind.Common.Identity.{pubkey_hex, sign_hex}
use decentralized_hive_mind.Common.Types.{DateTime}
use decentralized_hive_mind.Orchestrator.Auth.{Request}

-- The timestamp, the nonce and the signature of a request; the random bytes are an argument.
pub record SignedParts : Type 0 where
  pub ts : Text
  pub nonce : Text
  pub sig : Text

-- The headers and the body of the request that carries them.
abbrev pub header_of : Text → SignedParts → Text → Option Text
header_of pubkey parts name =
    if text_eq name (text "X-Pubkey")
    then some pubkey
    else if text_eq name (text "X-Timestamp")
    then some (parts.ts)
    else if text_eq name (text "X-Nonce")
    then some (parts.nonce)
    else if text_eq name (text "X-Signature")
    then some (parts.sig)
    else none

abbrev pub with_content_type : (Text → Option Text) → Text → Option Text
with_content_type header name =
    if text_eq name (text "Content-Type") then some (text "application/json") else header name

module _ {K : Type 0} ⦃d : Digest⦄ ⦃c : Ed25519 K⦄ where
  unfoldable pub sign_request : K → Bytes → Bytes → DateTime → SignedParts
  sign_request signing_key body random now =
      let ts = show_ℕ now in
      let nonce = d.hex_encode random in
      let msg = d.sha256 (body ++ (as_bytes ts ++ as_bytes nonce)) in
      record { ts = ts; nonce = nonce; sig = sign_hex signing_key msg }

  -- The POST request of `cmd_job_submit` and of the others that post: its headers and its body.
  unfoldable pub signed : K → Bytes → Bytes → DateTime → Request
  signed signing_key body random now = record {
    header =
        with_content_type
          (header_of (pubkey_hex signing_key) (sign_request signing_key body random now));
    body = some body;
  }
