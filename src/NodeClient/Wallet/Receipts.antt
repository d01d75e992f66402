-- ===== src/NodeClient/Wallet/Receipts.antt =====
-- The store of receipts of node-client/src/wallet.rs: any sequence of saves, and what is listed.
use mathlib.Core.List.{append_cancel_left, append_cancel_right}
use decentralized_hive_mind.Prelude.{
  ◌≡◌, refl, true, false, Bool, Option, none, some, List, [], ◌∷◌, Text, text, text_eq,
  text_eq_refl, Bool-cases, inl, inr, arith, ◌∙◌, text_eq_sound, sym, if◌then◌else◌, ◌>>=◌, Bytes,
  ◌&&◌, All,
}
use decentralized_hive_mind.Common.Crypto.{Digest, Ed25519}
use decentralized_hive_mind.Common.Identity.{IdentityError, IdentityResult, verify_signature}
use decentralized_hive_mind.Common.Identity as Identity
use decentralized_hive_mind.Common.Types.{CreditReceipt, ReceiptPayload, signable_bytes}
use decentralized_hive_mind.NodeClient.Disk.{File, Disk, find_file, put_file, write, is_dir}
use decentralized_hive_mind.NodeClient.Wallet.Paths.{
  IsPlain, receipt_path-IsPlain, receipt_path-is_writable, put_file-is_dir,
}
use decentralized_hive_mind.NodeClient.Effect as Effect
use decentralized_hive_mind.NodeClient.Effect.{ok, fail, pure, lift}
use decentralized_hive_mind.NodeClient.Wallet.{save, receipt_path}

-- The text that a file holds.
abbrev pub stored : Text → List File → Option Text
stored p fs = elim (find_file p fs) [ none ↦ none | some f ↦ some (f.content) ]

stored-put_file :
    (p q content : Text) (fs : List File)
    → stored q (put_file p content fs) ≡ (if text_eq p q then some content else stored q fs)
stored-put_file p q content [] = ground arith
stored-put_file p q content (f ∷ fs) = ground (
  arith,
  stored-put_file p q content fs,
  text_eq_sound f.path p,
  text_eq_sound f.path q,
  text_eq_sound p q,
  text_eq_refl p,
  text_eq_refl q,
)

-- Two receipts whose nonces have no slash have one path exactly if they have one nonce.
text_eq-receipt_path :
    (dir m n : Text)
    → IsPlain m
    → IsPlain n
    → text_eq (receipt_path dir m) (receipt_path dir n) ≡ text_eq m n
text_eq-receipt_path dir m n pm pn = elim (Bool-cases (text_eq m n)) [
  | inl same ↦ rw same (rw (text_eq_sound m n same) (text_eq_refl (receipt_path dir n)))
  | inr other ↦ elim (Bool-cases (text_eq (receipt_path dir m) (receipt_path dir n))) [
    | inl e ↦
        let whole =
          sym (receipt_path-IsPlain dir m pm)
          ∙ (text_eq_sound (receipt_path dir m) (receipt_path dir n) e
              ∙ receipt_path-IsPlain dir n pn) in
        let paths = append_cancel_left dir _ _ whole in
        let nonces : m ≡ n = append_cancel_right m n (text ".json") (cc) in cc (text_eq_refl n)
    | inr f ↦ f ∙ sym other
  ]
]

abbrev is_ok : {A : Type 0} → IdentityResult A → Bool
is_ok (Identity.ok _) = true
is_ok (Identity.err _) = false

-- What a store promises: a receipt for each nonce.
abbrev Ledger : Type 0 → Type 0
Ledger F = Text → Option (CreditReceipt F)

abbrev pub recorded : {F : Type 0} → Bool → CreditReceipt F → Ledger F → Ledger F
recorded valid r l nonce = if valid && text_eq r.nonce_hex nonce then some r else l nonce

module _ (F K : Type 0) ⦃d : Digest⦄ ⦃c : Ed25519 K⦄ (show : IdentityError → Text)
    (to_vec : ReceiptPayload F → Bytes) (to_string_pretty : CreditReceipt F → Text)
    (from_str : Text → Option (CreditReceipt F)) (dir : Text) where
  -- A receipt is recorded if its signature is valid.
  abbrev pub is_valid : CreditReceipt F → Text → Bool
  is_valid r key = is_ok (verify_signature K key (signable_bytes to_vec r) r.orchestrator_sig_hex)

  abbrev pub record_all : List (CreditReceipt F × Text) → Ledger F → Ledger F
  record_all [] l = l
  record_all ((r, key) ∷ rest) l = record_all rest (recorded (is_valid r key) r l)

  abbrev pub save_all : List (CreditReceipt F × Text) → Disk → Disk
  save_all [] disk = disk
  save_all ((r, key) ∷ rest) disk =
      save_all rest (save K show to_vec to_string_pretty dir r key disk).1

  record_all_congr :
      (ops : List (CreditReceipt F × Text)) (l l' : Ledger F) (nonce : Text)
      → l nonce ≡ l' nonce
      → record_all ops l nonce ≡ record_all ops l' nonce
  record_all_congr [] l l' nonce h = h
  record_all_congr ((r, key) ∷ rest) l l' nonce h =
      record_all_congr rest (recorded (is_valid r key) r l) (recorded (is_valid r key) r l') nonce
        (ground (arith, h))

  -- The ledger that the files of the directory hold.
  abbrev pub ledger : Disk → Ledger F
  ledger disk nonce = stored (receipt_path dir nonce) disk.files >>= from_str

  ledger-save :
      (r : CreditReceipt F) (key : Text) (disk : Disk)
      → from_str (to_string_pretty r) ≡ some r
      → disk.fates ≡ []
      → (nonce : Text) → IsPlain r.nonce_hex
      → IsPlain nonce
      → is_dir dir disk ≡ true
      → ledger (save K show to_vec to_string_pretty dir r key disk).1 nonce
        ≡ recorded (is_valid r key) r (ledger disk) nonce
  unfolding save Effect.◌>>=◌ write lift
  ledger-save r key disk reads calm nonce pr pn there = ground (
    arith,
    receipt_path-is_writable dir r.nonce_hex disk pr there,
    stored-put_file (receipt_path dir r.nonce_hex) (receipt_path dir nonce) (to_string_pretty r)
        disk.files,
    text_eq-receipt_path dir r.nonce_hex nonce pr pn,
  )

  fates-save :
      (r : CreditReceipt F) (key : Text) (disk : Disk)
      → disk.fates ≡ []
      → (save K show to_vec to_string_pretty dir r key disk).1.fates ≡ []
  unfolding save Effect.◌>>=◌ write lift
  fates-save r key disk calm = ground arith

  is_dir-save :
      (r : CreditReceipt F) (key : Text) (disk : Disk)
      → disk.fates ≡ []
      → IsPlain r.nonce_hex
      → is_dir dir disk ≡ true
      → is_dir dir (save K show to_vec to_string_pretty dir r key disk).1 ≡ true
  unfolding save Effect.◌>>=◌ write lift
  is_dir-save r key disk calm pr there =
      let writable = receipt_path-is_writable dir r.nonce_hex disk pr there in
      let kept =
        put_file-is_dir dir (receipt_path dir r.nonce_hex) (to_string_pretty r) disk there in
      elim (Bool-cases (is_valid r key)) [
        | inl valid ↦ ground (arith, writable, kept)
        | inr invalid ↦ ground (arith, writable, kept)
      ]

  -- Any sequence of saves of receipts whose nonces have no slash, into a directory that exists and on
  -- a disk that does not fail, leaves under each such nonce exactly what a ledger has that records each
  -- receipt with a valid signature under its nonce and ignores the others. The receipts are those that
  -- are read back as they were written.
  pub save_all_refines :
      (ops : List (CreditReceipt F × Text)) (disk : Disk)
      → All (λ (op : CreditReceipt F × Text). IsPlain op.0.nonce_hex) ops
      → All (λ (op : CreditReceipt F × Text). from_str (to_string_pretty op.0) ≡ some (op.0)) ops
      → disk.fates ≡ []
      → is_dir dir disk ≡ true
      → (nonce : Text) → IsPlain nonce
      → ledger (save_all ops disk) nonce ≡ record_all ops (ledger disk) nonce
  save_all_refines [] disk plain reads calm there nonce p = refl
  save_all_refines ((r, key) ∷ rest) disk plain reads calm there nonce p =
      save_all_refines rest (save K show to_vec to_string_pretty dir r key disk).1 plain.1 reads.1
        (fates-save r key disk calm) (is_dir-save r key disk calm plain.0 there) nonce p
      ∙ record_all_congr rest (ledger (save K show to_vec to_string_pretty dir r key disk).1)
          (recorded (is_valid r key) r (ledger disk)) nonce
          (ledger-save r key disk reads.0 calm nonce plain.0 p there)
