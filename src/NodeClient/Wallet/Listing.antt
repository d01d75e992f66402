-- ===== src/NodeClient/Wallet/Listing.antt =====
-- What `list_all` of node-client/src/wallet.rs returns.
use decentralized_hive_mind.Prelude.{
  ◌≡◌, refl, Option, none, some, List, [], ◌∷◌, Text, Option-cases, inl, inr, arith, ap, ◌∙◌, ◌⊎◌,
  sym, if◌then◌else◌, ◌>>=◌, In, sort_by, IsSorted, by_key, IsSorted-sort_by, In-sort_by,
  In-sort_with_of, All-In, ◌↔◌, true, false, text, Bool-cases,
}
use decentralized_hive_mind.Common.Types.{CreditReceipt}
use decentralized_hive_mind.NodeClient.Disk.{
  File, Disk, extension, join_path, read_to_string, is_dir,
}
use decentralized_hive_mind.NodeClient.Effect as Effect
use decentralized_hive_mind.NodeClient.Effect.{ok, fail, pure, lift}
use decentralized_hive_mind.NodeClient.Wallet.{names, push, collect, list_all, is_json, read_dir}
use decentralized_hive_mind.NodeClient.Wallet.Receipts.{stored}
use decentralized_hive_mind.NodeClient.Wallet.Paths.{IsPlain}
use decentralized_hive_mind.NodeClient.Wallet.Names.{names_stored, stored_named, names_plain}

module _ {F : Type 0} (from_str : Text → Option (CreditReceipt F)) (dir : Text) where
  -- The receipt of a file, if its name and its text are those of one.
  abbrev pub receipt_in : List File → Text → Option (CreditReceipt F)
  receipt_in fs name =
      if is_json (extension name) then stored (join_path dir name) fs >>= from_str else none

  abbrev parsed : List File → List Text → List (CreditReceipt F)
  parsed fs [] = []
  parsed fs (name ∷ rest) = push (receipt_in fs name) (parsed fs rest)

  In-push :
      (o : Option (CreditReceipt F)) (r : CreditReceipt F) (rest : List (CreditReceipt F))
      → In r (push o rest)
      → (o ≡ some r) ⊎ In r rest
  In-push none r rest m = inr m
  In-push (some a) r rest (inl e) = inl (ap some (sym e))
  In-push (some a) r rest (inr m) = inr m

  In-push_of :
      (o : Option (CreditReceipt F)) (r : CreditReceipt F) (rest : List (CreditReceipt F))
      → In r rest
      → In r (push o rest)
  In-push_of none r rest m = m
  In-push_of (some a) r rest m = inr m

  In-parsed :
      (fs : List File) (ns : List Text) (r : CreditReceipt F)
      → In r (parsed fs ns)
      → (name : Text) × In name ns × (receipt_in fs name ≡ some r)
  In-parsed fs [] r m = elim m [ ]
  In-parsed fs (n ∷ ns) r m = elim (In-push (receipt_in fs n) r (parsed fs ns) m) [
    | inl e ↦ (n, inl refl, e)
    | inr k ↦ let (name, there, e) = In-parsed fs ns r k in (name, inr there, e)
  ]

  In-parsed_of :
      (fs : List File) (ns : List Text) (name : Text) (r : CreditReceipt F)
      → In name ns
      → receipt_in fs name ≡ some r
      → In r (parsed fs ns)
  In-parsed_of fs [] name r m e = elim m [ ]
  In-parsed_of fs (n ∷ ns) name r (inl h) e =
      let here : receipt_in fs n ≡ some r = ap (receipt_in fs) (sym h) ∙ e in rw here (inl refl)
  In-parsed_of fs (n ∷ ns) name r (inr m) e =
      In-push_of (receipt_in fs n) r (parsed fs ns) (In-parsed_of fs ns name r m e)

  collect_lem :
      (ns : List Text) (disk : Disk)
      → disk.fates ≡ []
      → ((name : Text)
          → In name ns
          → (content : Text) × (stored (join_path dir name) disk.files ≡ some content))
      → collect from_str dir ns disk ≡ (ok (parsed disk.files ns), disk)
  unfolding collect Effect.◌>>=◌ read_to_string pure
  collect_lem [] disk calm there = refl
  collect_lem (n ∷ ns) disk calm there =
      ground
        (arith, collect_lem ns disk calm (λ name m. there name (inr m)), (there n (inl refl)).1)

  list_all_eq :
      (disk : Disk)
      → disk.fates ≡ []
      → is_dir dir disk ≡ true
      → list_all from_str dir disk
        ≡ (ok (sort_by (λ r. r.issued_at) (parsed disk.files (names dir disk.files))), disk)
  unfolding list_all read_dir Effect.◌>>=◌ pure
  list_all_eq disk calm there = ground (
    arith,
    there,
    collect_lem (names dir disk.files) disk calm (λ name m. names_stored dir name disk.files m),
  )

  list_all_fails :
      (disk : Disk)
      → disk.fates ≡ []
      → is_dir dir disk ≡ false
      → list_all from_str dir disk ≡ (fail (text "read_dir"), disk)
  unfolding list_all read_dir Effect.◌>>=◌
  list_all_fails disk calm absent = ground (arith, absent)

  receipt_in-held :
      (fs : List File) (name : Text) (r : CreditReceipt F)
      → receipt_in fs name ≡ some r
      → (content : Text) × (stored (join_path dir name) fs ≡ some content)
  receipt_in-held fs name r e = elim (Option-cases (stored (join_path dir name) fs)) [
    | inl n ↦ ground arith
    | inr x ↦ x
  ]

  abbrev pub IsListed : Disk → List (CreditReceipt F) → Type 0
  IsListed disk rs =
      IsSorted (by_key (λ r. r.issued_at)) rs
      × ((r : CreditReceipt F)
          → In r rs ↔ ((name : Text) × IsPlain name × (receipt_in disk.files name ≡ some r)))

  found-IsListed :
      (disk : Disk)
      → IsListed disk (sort_by (λ r. r.issued_at) (parsed disk.files (names dir disk.files)))
  found-IsListed disk =
      let fs = disk.files in
      let found = parsed fs (names dir fs) in
      (
        IsSorted-sort_by (λ r. r.issued_at) found,
        λ r. (
          λ m.
              let (name, there, e) =
                In-parsed fs (names dir fs) r (In-sort_by (λ r. r.issued_at) found r m) in
              (name, All-In IsPlain (names dir fs) name (names_plain dir fs) there, e),
          λ (name, p, e).
              let (content, there) = receipt_in-held fs name r e in
              In-sort_with_of (by_key (λ r. r.issued_at)) found r (
                In-parsed_of fs (names dir fs) name r (stored_named dir name content fs p there) e),
        ),
      )

  -- If the disk does not fail: where the directory exists, the list of the receipts is sorted by their
  -- times, and it holds exactly the receipts that are read from the files in the directory with the
  -- extension of JSON; where it does not, the listing fails. The disk is as before.
  pub list_all_lem :
      (disk : Disk)
      → disk.fates ≡ []
      → ((is_dir dir disk ≡ true)
          × ((rs : List (CreditReceipt F)) × (list_all from_str dir disk ≡ (ok rs, disk))
              × IsListed disk rs))
        ⊎ ((is_dir dir disk ≡ false)
            × (list_all from_str dir disk ≡ (fail (text "read_dir"), disk)))
  list_all_lem disk calm = elim (Bool-cases (is_dir dir disk)) [
    | inl there ↦ inl (
      there,
      (
        sort_by (λ r. r.issued_at) (parsed disk.files (names dir disk.files)),
        list_all_eq disk calm there,
        found-IsListed disk,
      ),
    )
    | inr absent ↦ inr (absent, list_all_fails disk calm absent)
  ]
