-- ===== src/NodeClient/Tests/Store.antt =====
-- Examples of the files of the node client.
use decentralized_hive_mind.Prelude.{
  ◌≡◌, ◌⊎◌, text_eq, if◌then◌else◌, refl, true, false, Bool, Option, none, some, List, [], ◌∷◌,
  Text, Bytes, text,
}
use decentralized_hive_mind.Prelude.Int.{ℤ, pos}
use decentralized_hive_mind.Common.Crypto.Sample.{sample_digest, sample, encode, sign}
use decentralized_hive_mind.Common.Identity.{IdentityError, to_hex, pubkey_hex}
use decentralized_hive_mind.Common.Types.{CreditReceipt, ReceiptPayload, signable_bytes}
use decentralized_hive_mind.NodeClient.Effect.{ok, fail, effects}
use decentralized_hive_mind.NodeClient.Disk.{
  File, Disk, find_file, create_dir_all, write, set_permissions, is_dir, join_path,
}
use decentralized_hive_mind.NodeClient.Wallet.{load_or_create_key, list_all, read_dir}
use decentralized_hive_mind.NodeClient.Wallet.Keys.{load_or_create_key-again}
use decentralized_hive_mind.NodeClient.Wallet.Listing.{IsListed, list_all_lem}
use decentralized_hive_mind.NodeClient.Wallet.Receipts.{
  ledger, save_all, record_all, save_all_refines,
}

abbrev pub show_error : IdentityError → Text
show_error e = text "invalid"

abbrev pub empty_disk : Disk
empty_disk = record { files = []; dirs = []; fates = [] }

abbrev pub key_path : Text
key_path = text "w/key"

abbrev pub written_disk : Disk
written_disk = record {
  files = record { path = key_path; content = to_hex true; mode = 0o600 } ∷ [];
  dirs = text "w" ∷ [];
  fates = [];
}

written : load_or_create_key show_error (λ s. s) true key_path empty_disk ≡ (ok true, written_disk)
unfolding load_or_create_key effects create_dir_all write set_permissions
written = refl

load_or_create_key-again_example :
    ((load_or_create_key show_error (λ s. s) false key_path written_disk).0 ≡ ok true)
    × (((f : File) × (find_file key_path empty_disk.files ≡ some f))
        ⊎ (find_file key_path written_disk.files
            ≡ some (record { path = key_path; content = to_hex true; mode = 0o600 })))
load_or_create_key-again_example =
    load_or_create_key-again Bool show_error (λ s. s) true false true key_path empty_disk
      written_disk refl written refl

abbrev unsigned : CreditReceipt ℤ
unsigned = record {
  id = 1;
  job_id = 10;
  sub_task_id = 100;
  node_pubkey_hex = pubkey_hex true;
  credits = pos 5;
  tokens_in = 3;
  tokens_out = 4;
  nonce_hex = text "0a";
  issued_at = 30;
  expires_at = 90;
  orchestrator_sig_hex = [];
}

abbrev to_vec : ReceiptPayload ℤ → Bytes
to_vec p = p.id ∷ p.sub_task_id ∷ []

-- A receipt with the signature of one key.
abbrev receipt : CreditReceipt ℤ
receipt = record unsigned {
  orchestrator_sig_hex = encode (sign true (signable_bytes to_vec unsigned));
}

-- The text of a receipt is its nonce.
abbrev from_str : Text → Option (CreditReceipt ℤ)
from_str s = if text_eq s (text "0a") then some receipt else none

abbrev saves : List (CreditReceipt ℤ × Text)
saves = (receipt, pubkey_hex true) ∷ (receipt, pubkey_hex false) ∷ []

abbrev store_disk : Disk
store_disk = record empty_disk { dirs = text "w/receipts" ∷ [] }

save_all_refines_example :
    ledger ℤ Bool show_error to_vec
      (λ r. r.nonce_hex)
      from_str
      (text "w/receipts")
      (save_all ℤ Bool show_error to_vec
        (λ r. r.nonce_hex)
        from_str
        (text "w/receipts")
        saves
        store_disk)
      (text "0a")
    ≡ record_all ℤ Bool show_error to_vec
        (λ r. r.nonce_hex)
        from_str
        (text "w/receipts")
        saves
        (λ _. none)
        (text "0a")
save_all_refines_example =
    save_all_refines ℤ Bool show_error to_vec (λ r. r.nonce_hex) from_str (text "w/receipts") saves
      store_disk ((refl, (refl, tt)), ((refl, (refl, tt)), tt)) (refl, (refl, tt)) refl refl
      (text "0a") (refl, (refl, tt))

abbrev saved_disk : Disk
saved_disk = record empty_disk {
  files =
      record { path = text "w/receipts/0a.json"; content = text "0a"; mode = 0o644 }
      ∷ record { path = text "w/receipts/0a.txt"; content = text "0a"; mode = 0o644 }
      ∷ [];
}

list_all_lem_example :
    ((is_dir (text "w/receipts") saved_disk ≡ true)
      × ((rs : List (CreditReceipt ℤ)) × (list_all from_str (text "w/receipts") saved_disk
            ≡ (ok rs, saved_disk))
          × IsListed from_str (text "w/receipts") saved_disk rs))
    ⊎ ((is_dir (text "w/receipts") saved_disk ≡ false)
        × (list_all from_str (text "w/receipts") saved_disk ≡ (fail (text "read_dir"), saved_disk)))
list_all_lem_example = list_all_lem from_str (text "w/receipts") saved_disk refl

-- A store whose directory is not there cannot be listed.
no_store : (list_all from_str (text "w/receipts") empty_disk).0 ≡ fail (text "read_dir")
unfolding list_all read_dir effects
no_store = refl

absolute : join_path (text "w/receipts") (text "/x.json") ≡ text "/x.json"
absolute = refl
