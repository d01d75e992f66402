-- ===== src/Orchestrator/Routes/Tasks/Receipts.antt =====
-- The receipts that orchestrator/src/routes/tasks.rs signs.
use decentralized_hive_mind.Prelude.{ℕ, ◌+◌, ◌≤◌, ◌≡◌, ◌↔◌, true, Text, Bytes, arith}
use decentralized_hive_mind.Common.Crypto.{Digest, Ed25519}
use decentralized_hive_mind.Common.Identity.{ok, pubkey_hex, verify_signature}
use decentralized_hive_mind.Common.Identity.Roundtrip.{verify_signature-sign_hex}
use decentralized_hive_mind.Common.Types.{
  Uuid, DateTime, ReceiptPayload, signable_bytes, is_valid_time,
}
use decentralized_hive_mind.Orchestrator.Routes.Tasks.{build_receipt, one_hour}

module _ (F K : Type 0) ⦃d : Digest⦄ ⦃c : Ed25519 K⦄ (to_vec : ReceiptPayload F → Bytes)
    (signing_key : K) where
  -- The signature of a receipt verifies under the key of the orchestrator, over the bytes that
  -- `signable_bytes` makes of the receipt with its signature, and the receipt is valid from the time
  -- of its issue for an hour and at no other time.
  pub build_receipt-IsValid :
      (task_id job_id : Uuid) (node_pubkey : Text) (credits : F) (tokens_in tokens_out : ℕ)
      (nonce : Bytes) (receipt_id : Uuid) (now t : DateTime)
      → let r =
          build_receipt to_vec signing_key task_id job_id node_pubkey credits tokens_in tokens_out
            nonce receipt_id now in
        (verify_signature K
            (pubkey_hex signing_key)
            (signable_bytes to_vec r)
            r.orchestrator_sig_hex
          ≡ ok tt)
        × ((is_valid_time r t ≡ true) ↔ ((now ≤ t) × (t ≤ now + one_hour)))
  unfolding build_receipt signable_bytes is_valid_time
  build_receipt-IsValid task_id job_id node_pubkey credits tokens_in tokens_out nonce receipt_id now
        t =
      (
        verify_signature-sign_hex K signing_key _,
        (λ h. (ground arith, ground arith), λ h. ground arith),
      )
