-- ===== src/NodeClient/Commands/Local.antt =====
-- node-client/src/main.rs: `setup`, `wallet show` and `wallet receipts`, which use the disk alone.
use decentralized_hive_mind.Prelude.{
  Bool, not, ◌&&◌, Option, none, some, List, [], ◌∷◌, ◌++◌, length, Text, text, unwrap_or,
  if◌then◌else◌,
}
use decentralized_hive_mind.Prelude.Decimal.{show_ℕ}
use decentralized_hive_mind.Common.Float64.{Float64}
use decentralized_hive_mind.Common.Crypto.{Digest, Ed25519}
use decentralized_hive_mind.Common.Identity.{pubkey_hex}
use decentralized_hive_mind.Common.Types.{
  NodeTier, nano, edge, pro, cluster, CreditReceipt, Uuid, DateTime,
}
use decentralized_hive_mind.NodeClient.Config.{NodeConfig}
use decentralized_hive_mind.NodeClient.Effect.{Effect, ◌>>=◌, ◌>>◌}
use decentralized_hive_mind.NodeClient.Disk.{Disk, exists, write, parent}
use decentralized_hive_mind.NodeClient.Terminal.{
  Line, section, hint, success, field, gap, table, Session, say_all, outside, short, or_panic,
}
use decentralized_hive_mind.NodeClient.Wallet.{new_store, list_all, total_credits}

-- The answers to the questions of the wizard; the last is that to the question whether the file is
-- to be replaced.
pub record Answers : Type 0 where
  pub orchestrator_url : Text
  pub redis_url : Text
  pub node_tier : NodeTier
  pub model_id : Text
  pub llama_url : Text
  pub overwrite : Bool

-- `tier_vals`, in the order in which they are offered
abbrev tier_val : NodeTier → Text
tier_val nano = text "nano"
tier_val edge = text "edge"
tier_val pro = text "pro"
tier_val cluster = text "cluster"

abbrev env_content : Answers → Text
env_content a =
    text "ORCHESTRATOR_URL="
    ++ (a.orchestrator_url
        ++ (text "\nREDIS_URL="
            ++ (a.redis_url
                ++ (text "\nNODE_TIER="
                    ++ (tier_val a.node_tier
                        ++ (text "\nMODEL_ID="
                            ++ (a.model_id
                                ++ (text "\nLLAMA_SERVER_URL=" ++ (a.llama_url ++ text "\n")))))))))

abbrev write_env : Answers → Effect (Session Disk) (Unit {0})
write_env a = do
  outside (write (text ".env") (env_content a) (text "open"))
  say_all (
      gap
      ∷ success (text ".env written.")
      ∷ gap
      ∷ hint (text "Next steps:")
      ∷ hint (text "  node-client register   — register this node with the orchestrator")
      ∷ hint (text "  node-client start      — begin accepting tasks and earning credits")
      ∷ gap
      ∷ [])

unfoldable pub cmd_setup : Answers → Effect (Session Disk) (Unit {0})
unfolding exists
cmd_setup a = do
  say_all (
      section (text "Setup Wizard")
      ∷ hint (text "Configures your .env for the node-client.")
      ∷ gap
      ∷ gap
      ∷ [])
  there ← outside (exists (text ".env"))
  if there && not a.overwrite
      then say_all (hint (text "Setup cancelled. Existing .env is unchanged.") ∷ [])
      else write_env a

unfoldable pub wallet_show :
    {K : Type 0} ⦃d : Digest⦄ ⦃c : Ed25519 K⦄ → NodeConfig → K → Effect (Session Disk) (Unit {0})
wallet_show config signing_key = say_all (
    section (text "Wallet")
    ∷ gap
    ∷ field (text "Public Key") (pubkey_hex signing_key)
    ∷ field (text "Tier") config.node_tier
    ∷ field (text "Model") config.model_id
    ∷ field (text "Orch. URL") config.orchestrator_url
    ∷ field (text "Solana") (
        unwrap_or config.solana_wallet (text "— (set SOLANA_WALLET to enable on-chain redemption)"))
    ∷ gap
    ∷ [])

module _ {F : Type 0} ⦃o : Float64 F⦄ (from_str : Text → Option (CreditReceipt F))
    (show_4 : F → Text) (show_uuid : Uuid → Text) (show_time : DateTime → Text) where
  -- The row of a receipt, of which the nonce is cut to eight bytes.
  abbrev receipt_row : CreditReceipt F → Option (List Text)
  receipt_row r = elim (short 8 r.nonce_hex) [
    | none ↦ none
    | some nonce ↦ some (nonce ∷ show_uuid r.job_id ∷ show_4 r.credits ∷ show_time r.issued_at ∷ [])
  ]

  abbrev receipt_rows : List (CreditReceipt F) → Option (List (List Text))
  receipt_rows [] = some []
  receipt_rows (r ∷ rs) = elim (receipt_row r) [
    | none ↦ none
    | some row ↦ elim (receipt_rows rs) [ none ↦ none | some rows ↦ some (row ∷ rows) ]
  ]

  abbrev receipt_lines : List (CreditReceipt F) → Option (List Line)
  receipt_lines [] =
      some (hint (text "No receipts yet — run  node-client start  to earn credits.") ∷ [])
  receipt_lines (r ∷ rs) = elim (receipt_rows (r ∷ rs)) [
    | none ↦ none
    | some rows ↦ some (
        table
          ((text "NONCE", 10)
            ∷ (text "JOB ID", 36)
            ∷ (text "CREDITS", 10)
            ∷ (text "ISSUED", 26)
            ∷ [])
          rows
        ∷ [])
  ]

  unfoldable pub wallet_receipts : NodeConfig → Effect (Session Disk) (Unit {0})
  unfolding new_store list_all total_credits short
  wallet_receipts config = do
    let wallet_dir = unwrap_or (parent config.wallet_path) (text ".")
    store ← outside (new_store wallet_dir)
    receipts ← outside (list_all from_str store)
    total ← outside (total_credits from_str store)
    say_all (
        section (text "Credit Receipts")
        ∷ gap
        ∷ field (text "Count") (show_ℕ (length receipts))
        ∷ field (text "Total") (show_4 total ++ text " credits")
        ∷ gap
        ∷ [])
    lines ← or_panic (receipt_lines receipts)
    say_all lines
