-- ===== src/Common/Identity/Roundtrip.antt =====
-- Keys and signatures of common/src/identity.rs, and their hexadecimal forms.
use decentralized_hive_mind.Prelude.{
  ◌≡◌, true, some, Text, Bytes, length, arith, Option-cases, inl, inr,
}
use decentralized_hive_mind.Common.Crypto.{Digest, Ed25519}
use decentralized_hive_mind.Common.Identity.{
  ok, to_hex, from_hex, pubkey_hex, sign_hex, verify_signature,
}

module _ (K : Type 0) ⦃d : Digest⦄ ⦃c : Ed25519 K⦄ where
  -- A key that is written in hexadecimal and read back is the same key.
  pub from_hex-to_hex : (k : K) → from_hex (to_hex k) ≡ ok k
  unfolding from_hex to_hex
  from_hex-to_hex k = ground (
    arith,
    d.decode-encode (c.to_keypair_bytes k) (c.keypair_bytes k),
    c.length-keypair_bytes k,
    c.from-to_keypair_bytes k,
  )

  -- A signature verifies under the public key of its signer.
  pub verify_signature-sign_hex :
      (k : K) (msg : Bytes) → verify_signature K (pubkey_hex k) msg (sign_hex k msg) ≡ ok tt
  unfolding verify_signature pubkey_hex sign_hex
  verify_signature-sign_hex k msg = ground (
    arith,
    d.decode-encode (c.verifying_key k) (c.verifying_key_bytes k),
    c.length-verifying_key k,
    c.verifying_key_point k,
    d.decode-encode (c.sign k msg) (c.signature_bytes k msg),
    c.length-sign k msg,
    c.verify-sign k msg,
  )

  -- A signature is accepted only if both texts decode, to 32 and 64 bytes, the former is a point
  -- of the curve, and the signature scheme accepts them.
  pub verify_signature_sound :
      (pubkey : Text) (msg : Bytes) (sig : Text)
      → verify_signature K pubkey msg sig ≡ ok tt
      → (pk s : Bytes) × (d.hex_decode pubkey ≡ some pk)
        × (length pk ≡ 32)
        × (c.is_point pk ≡ true)
        × (d.hex_decode sig ≡ some s)
        × (length s ≡ 64)
        × (c.verify pk msg s ≡ true)
  unfolding verify_signature
  verify_signature_sound pubkey msg sig h = elim (Option-cases (d.hex_decode pubkey)) [
    | inl none_pk ↦ ground arith
    | inr (pk, e) ↦ elim (Option-cases (d.hex_decode sig)) [
      | inl none_sig ↦ ground arith
      | inr (s, f) ↦ (pk, s, e, ground arith, ground arith, f, ground arith, ground arith)
    ]
  ]
