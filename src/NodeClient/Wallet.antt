-- ===== src/NodeClient/Wallet.antt =====
-- node-client/src/wallet.rs: the key of a node in a file, and the receipts in a directory.
pub mod Keys
pub mod Paths
pub mod Receipts
pub mod Names
pub mod Listing
use decentralized_hive_mind.Prelude.{
  ℕ, ◌≡◌, Bool, true, false, Option, none, some, List, [], ◌∷◌, ◌++◌, Text, Bytes, text, text_eq,
  sort_by, map, ◌==◌, if◌then◌else◌,
}
use decentralized_hive_mind.Common.Float64.{Float64, zero_f}
use decentralized_hive_mind.Common.Crypto.{Digest, Ed25519}
use decentralized_hive_mind.Common.Identity.{
  IdentityError, IdentityResult, from_hex, to_hex, verify_signature,
}
use decentralized_hive_mind.Common.Identity as Identity
use decentralized_hive_mind.Common.Types.{CreditReceipt, ReceiptPayload, signable_bytes}
use decentralized_hive_mind.Common.Credits.{sum_from}
use decentralized_hive_mind.NodeClient.Effect.{Outcome, ok, fail, pure, lift, ◌>>=◌, ◌>>◌}
use decentralized_hive_mind.NodeClient.Disk.{
  parent, File, Disk, Fate, success, failure, Io, next_fate, fate_at, read_to_string, write,
  create_dir_all, set_permissions, exists, join_path, join_dir, name_in, extension, is_dir, parent,
}

-- `result.map_err(|e| anyhow!("{context}{e}"))`, with the `Display` of an error.
abbrev map_err : {A : Type 0} → (IdentityError → Text) → Text → IdentityResult A → Outcome A
map_err show context (Identity.ok a) = ok a
map_err show context (Identity.err e) = fail (context ++ show e)

abbrev create_parent : Option Text → Io (Unit {0})
create_parent none = pure tt
create_parent (some dir) = create_dir_all dir (text "failed to create wallet directory")

module _ {K : Type 0} ⦃d : Digest⦄ ⦃c : Ed25519 K⦄ (show : IdentityError → Text)
    (trim : Text → Text) where
  abbrev load_key : Text → Io K
  load_key path = do
    hex ← read_to_string path (text "failed to read wallet key file")
    lift (map_err show (text "invalid wallet key: ") (from_hex (trim hex)))

  -- The key that `NodeSigningKey::generate` draws is an argument.
  abbrev create_key : K → Text → Io K
  create_key drawn path = do
    create_parent (parent path)
    write path (to_hex drawn) (text "failed to write wallet key")
    set_permissions path 0o600 (text "failed to set wallet key permissions")
    pure drawn

  unfoldable pub load_or_create_key : K → Text → Io K
  unfolding exists
  load_or_create_key drawn path = do
    there ← exists path
    if there then load_key path else create_key drawn path

-- The names of the files that stand in a directory.
abbrev pub names : Text → List File → List Text
names dir [] = []
names dir (f ∷ fs) = elim (name_in dir f.path) [ none ↦ names dir fs | some n ↦ n ∷ names dir fs ]

abbrev is_json : Option Text → Bool
is_json none = false
is_json (some ext) = text_eq ext (text "json")

-- `if let Ok(r) = parsed { receipts.push(r) }`
abbrev pub push : {A : Type 0} → Option A → List A → List A
push none rest = rest
push (some r) rest = r ∷ rest

-- `fs::read_dir` and each of its entries may fail.
abbrev check_at : Fate × Disk → Outcome (Unit {0}) × Disk
check_at (success, d) = (ok tt, d)
check_at (failure _, d) = (fail (text "read_dir"), d)

unfoldable pub check : Io (Unit {0})
check d = check_at (next_fate d)

-- The names that are there, if the directory is.
abbrev listing : Bool → List Text → Outcome (List Text)
listing true ns = ok ns
listing false ns = fail (text "read_dir")

unfoldable pub read_dir : Text → Io (List Text)
unfolding check
read_dir dir = do check; λ d. (listing (is_dir dir d) (names dir d.files), d)

-- `ReceiptStore::new`: the directory of the store.
unfoldable pub new_store : Text → Io Text
new_store wallet_dir =
    let dir = join_dir wallet_dir (text "receipts") in
    create_dir_all dir (text "failed to create receipts directory") >> pure dir

abbrev pub receipt_path : Text → Text → Text
receipt_path dir nonce = join_path dir (nonce ++ text ".json")

-- `serde_json` reads and writes a receipt.
module _ {F : Type 0} (from_str : Text → Option (CreditReceipt F)) where
  unfoldable pub collect : Text → List Text → Io (List (CreditReceipt F))
  unfolding check extension
  collect dir [] = pure []
  collect dir (name ∷ rest) = do
    check
    let receipts = collect dir rest
    let read = do
      json ← read_to_string (join_path dir name) (text "read_to_string")
      more ← receipts
      pure (push (from_str json) more)
    if is_json (extension name) then read else receipts

  -- `ReceiptStore::list_all`
  unfoldable pub list_all : Text → Io (List (CreditReceipt F))
  unfolding collect read_dir
  list_all dir = do
    entries ← read_dir dir
    receipts ← collect dir entries
    pure (sort_by (λ r. r.issued_at) receipts)

  -- `ReceiptStore::total_credits`
  unfoldable pub total_credits : ⦃o : Float64 F⦄ → Text → Io F
  total_credits dir = do
    receipts ← list_all dir
    pure (sum_from zero_f (map (λ r. r.credits) receipts))

module _ {F : Type 0} (K : Type 0) ⦃d : Digest⦄ ⦃c : Ed25519 K⦄ (show : IdentityError → Text)
    (to_vec : ReceiptPayload F → Bytes) (to_string_pretty : CreditReceipt F → Text) where
  -- `ReceiptStore::save`
  unfoldable pub save : Text → CreditReceipt F → Text → Io (Unit {0})
  save dir receipt orchestrator_pubkey = do
    lift (
        map_err show (text "receipt signature invalid: ") (
          verify_signature K orchestrator_pubkey (signable_bytes to_vec receipt)
            receipt.orchestrator_sig_hex))
    write (receipt_path dir receipt.nonce_hex) (to_string_pretty receipt)
        (text "failed to write receipt")
