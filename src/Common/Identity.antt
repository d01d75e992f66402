-- ===== src/Common/Identity.antt =====
-- common/src/identity.rs: Ed25519 keys and signatures in hexadecimal.
pub mod Roundtrip
use decentralized_hive_mind.Prelude.{
  ℕ, Bool, Option, none, some, Text, Bytes, length, ◌==◌, if◌then◌else◌,
}
use decentralized_hive_mind.Common.Crypto.{Digest, Ed25519}

pub data IdentityError : Type 0 where
  hex_decode_error invalid_key verification_failed : IdentityError

pub data IdentityResult (A : Type 0) : Type 0 where
  ok : A → IdentityResult A
  err : IdentityError → IdentityResult A

infixl 5 ◌>>=◌
abbrev ◌>>=◌ : {A B : Type 0} → IdentityResult A → (A → IdentityResult B) → IdentityResult B
ok a >>= f = f a
err e >>= f = err e

-- `option.ok_or(e)?` and `result.map_err(|_| e)?`
abbrev or_err : {A : Type 0} → Option A → IdentityError → IdentityResult A
or_err none e = err e
or_err (some a) e = ok a

-- `bytes.try_into()` at an array of `n` bytes
abbrev sized : ℕ → Bytes → IdentityResult Bytes
sized n b = if length b == n then ok b else err invalid_key

module _ {K : Type 0} ⦃d : Digest⦄ ⦃c : Ed25519 K⦄ where
  -- `NodeSigningKey::from_bytes`
  unfoldable from_bytes : Bytes → IdentityResult K
  from_bytes b = or_err (c.from_keypair_bytes b) invalid_key

  -- `NodeSigningKey::to_hex`
  unfoldable pub to_hex : K → Text
  to_hex k = d.hex_encode (c.to_keypair_bytes k)

  -- `NodeSigningKey::from_hex`
  unfoldable pub from_hex : Text → IdentityResult K
  unfolding from_bytes
  from_hex s = do
    bytes ← or_err (d.hex_decode s) hex_decode_error
    arr ← sized 64 bytes
    from_bytes arr

  -- `NodeSigningKey::pubkey_hex`
  unfoldable pub pubkey_hex : K → Text
  pubkey_hex k = d.hex_encode (c.verifying_key k)

  -- `NodeSigningKey::sign_hex`
  unfoldable pub sign_hex : K → Bytes → Text
  sign_hex k msg = d.hex_encode (c.sign k msg)

unfoldable pub verify_signature :
    (K : Type 0) ⦃d : Digest⦄ ⦃c : Ed25519 K⦄ → Text → Bytes → Text → IdentityResult (Unit {0})
verify_signature K ⦃d⦄ ⦃c⦄ pubkey msg sig = do
  pk_bytes ← or_err (d.hex_decode pubkey) hex_decode_error
  pk_arr ← sized 32 pk_bytes
  vk ← if c.is_point pk_arr then ok pk_arr else err invalid_key
  sig_bytes ← or_err (d.hex_decode sig) hex_decode_error
  sig_arr ← sized 64 sig_bytes
  if c.verify vk msg sig_arr then ok tt else err verification_failed
