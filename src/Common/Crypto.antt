-- ===== src/Common/Crypto.antt =====
-- The crates `sha2` and `ring` (SHA-256), `hex` and `ed25519-dalek`. None of them is in the
-- repository: they are a parameter, with their documented behaviour as laws. `K` is the type of
-- signing keys.
pub mod Sample
use decentralized_hive_mind.Prelude.{
  ℕ, ◌*◌, ◌<◌, ◌≡◌, Bool, true, Option, some, Text, Bytes, len, length, All,
}

-- Every element fits a byte.
abbrev pub IsBytes : Bytes → Type 0
IsBytes = All (λ b. b < 256)

pub record Digest : Type 0 where
  pub sha256 : Bytes → Bytes
  pub hex_encode : Bytes → Text
  pub hex_decode : Text → Option Bytes
  pub decode-encode : (b : Bytes) → IsBytes b → hex_decode (hex_encode b) ≡ some b
  pub len-hex_encode : (b : Bytes) → IsBytes b → len (hex_encode b) ≡ 2 * length b

pub record Ed25519 (K : Type 0) : Type 0 where
  -- `SigningKey::from_keypair_bytes` and `to_keypair_bytes`
  pub from_keypair_bytes : Bytes → Option K
  pub to_keypair_bytes : K → Bytes
  -- `key.verifying_key().as_bytes()`
  pub verifying_key : K → Bytes
  -- `VerifyingKey::from_bytes(..).is_ok()`
  pub is_point : Bytes → Bool
  pub sign : K → Bytes → Bytes
  -- `vk.verify(msg, sig).is_ok()`
  pub verify : Bytes → Bytes → Bytes → Bool
  pub keypair_bytes : (k : K) → IsBytes (to_keypair_bytes k)
  pub length-keypair_bytes : (k : K) → length (to_keypair_bytes k) ≡ 64
  pub from-to_keypair_bytes : (k : K) → from_keypair_bytes (to_keypair_bytes k) ≡ some k
  pub verifying_key_bytes : (k : K) → IsBytes (verifying_key k)
  pub length-verifying_key : (k : K) → length (verifying_key k) ≡ 32
  pub verifying_key_point : (k : K) → is_point (verifying_key k) ≡ true
  pub signature_bytes : (k : K) (m : Bytes) → IsBytes (sign k m)
  pub length-sign : (k : K) (m : Bytes) → length (sign k m) ≡ 64
  pub verify-sign : (k : K) (m : Bytes) → verify (verifying_key k) m (sign k m) ≡ true
