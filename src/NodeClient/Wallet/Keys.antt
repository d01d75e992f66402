-- ===== src/NodeClient/Wallet/Keys.antt =====
-- The key file of node-client/src/wallet.rs, from one start of a node to the next.
use decentralized_hive_mind.Prelude.{
  Bool-cases, false, ℕ, ◌≡◌, none, some, List, [], ◌∷◌, Text, text_eq_refl, Option-cases, inl, inr,
  ◌⊎◌, arith, ap, ◌∙◌, sym,
}
use decentralized_hive_mind.Common.Crypto.{Digest, Ed25519}
use decentralized_hive_mind.Common.Identity.{IdentityError, to_hex}
use decentralized_hive_mind.Common.Identity.Roundtrip.{from_hex-to_hex}
use decentralized_hive_mind.NodeClient.Effect.{ok, pure, lift, ◌>>=◌}
use decentralized_hive_mind.NodeClient.Disk.{
  is_dir, File, Disk, find_file, put_file, set_mode, write, set_permissions, create_dir_all,
  read_to_string,
}
use decentralized_hive_mind.NodeClient.Wallet.{load_or_create_key}

-- What is written is found, with the mode that is set.
find_file-set_mode :
    (p content : Text) (m : ℕ) (fs : List File)
    → find_file p fs ≡ none
    → find_file p (set_mode p m (put_file p content fs))
      ≡ some (record { path = p; content = content; mode = m })
find_file-set_mode p content m [] h = ground (arith, text_eq_refl p)
find_file-set_mode p content m (f ∷ fs) h = ground (arith, find_file-set_mode p content m fs)

find_file-put_file :
    (p content : Text) (fs : List File)
    → find_file p fs ≡ none
    → find_file p (put_file p content fs)
      ≡ some (record { path = p; content = content; mode = 0o644 })
find_file-put_file p content [] h = ground (arith, text_eq_refl p)
find_file-put_file p content (f ∷ fs) h = ground (arith, find_file-put_file p content fs)

module _ (K : Type 0) ⦃d : Digest⦄ ⦃c : Ed25519 K⦄ (show : IdentityError → Text)
    (trim : Text → Text) where
  -- A key that was there.
  load_or_create_key-old :
      (drawn drawn' k : K) (path : Text) (disk disk' : Disk) (f : File)
      → find_file path disk.files ≡ some f
      → load_or_create_key show trim drawn path disk ≡ (ok k, disk')
      → disk'.fates ≡ []
      → (load_or_create_key show trim drawn' path disk').0 ≡ ok k
  unfolding load_or_create_key ◌>>=◌ read_to_string lift
  load_or_create_key-old drawn drawn' k path disk disk' f there h calm = ground arith

  load_or_create_key-files :
      (drawn k : K) (path : Text) (disk disk' : Disk) (f : File)
      → find_file path disk.files ≡ some f
      → load_or_create_key show trim drawn path disk ≡ (ok k, disk')
      → find_file path disk'.files ≡ some f
  unfolding load_or_create_key ◌>>=◌ read_to_string lift
  load_or_create_key-files drawn k path disk disk' f there h = ground arith

  -- Where the path is that of a directory, no key is loaded.
  load_or_create_key-is_dir :
      (drawn k : K) (path : Text) (disk disk' : Disk)
      → find_file path disk.files ≡ none
      → load_or_create_key show trim drawn path disk ≡ (ok k, disk')
      → is_dir path disk ≡ false
  unfolding load_or_create_key ◌>>=◌ read_to_string lift
  load_or_create_key-is_dir drawn k path disk disk' there h = elim (Bool-cases (is_dir path disk)) [
    | inl dir ↦ absurd (ground arith)
    | inr free ↦ free
  ]

  -- A key that is drawn is in the file, which its owner alone can read.
  load_or_create_key-new :
      (drawn k : K) (path : Text) (disk disk' : Disk)
      → find_file path disk.files ≡ none
      → load_or_create_key show trim drawn path disk ≡ (ok k, disk')
      → (k ≡ drawn)
        × (find_file path disk'.files
            ≡ some (record { path = path; content = to_hex drawn; mode = 0o600 }))
  unfolding load_or_create_key ◌>>=◌ write set_permissions create_dir_all pure
  load_or_create_key-new drawn k path disk disk' there h =
      let free = load_or_create_key-is_dir drawn k path disk disk' there h in
      ground (arith, find_file-set_mode path (to_hex drawn) 0o600 disk.files)

  written :
      (drawn : K) (path : Text) (disk : Disk)
      → trim (to_hex drawn) ≡ to_hex drawn
      → find_file path disk.files
        ≡ some (record { path = path; content = to_hex drawn; mode = 0o600 })
      → disk.fates ≡ []
      → (drawn' : K) → (load_or_create_key show trim drawn' path disk).0 ≡ ok drawn
  unfolding load_or_create_key ◌>>=◌ read_to_string lift
  written drawn path disk trimmed there calm drawn' = ground (arith, from_hex-to_hex K drawn)

  -- After a call that returns a key, the file is there.
  pub load_or_create_key-find_file :
      (drawn k : K) (path : Text) (disk disk' : Disk)
      → load_or_create_key show trim drawn path disk ≡ (ok k, disk')
      → (f : File) × (find_file path disk'.files ≡ some f)
  load_or_create_key-find_file drawn k path disk disk' h =
      elim (Option-cases (find_file path disk.files)) [
        | inl fresh ↦
            let (e, file) = load_or_create_key-new drawn k path disk disk' fresh h in
            (record { path = path; content = to_hex drawn; mode = 0o600 }, file)
        | inr (f, old) ↦ (f, load_or_create_key-files drawn k path disk disk' f old h)
      ]

  -- The key that the first call returns is the key that a later call returns, if the disk does not
  -- fail then: either that call found the file, or it has written the file with the key in hexadecimal
  -- digits, and with permissions for nobody but its owner. The hexadecimal digits of a key have no
  -- space around them.
  pub load_or_create_key-again :
      (drawn drawn' k : K) (path : Text) (disk disk' : Disk)
      → trim (to_hex drawn) ≡ to_hex drawn
      → load_or_create_key show trim drawn path disk ≡ (ok k, disk')
      → disk'.fates ≡ []
      → ((load_or_create_key show trim drawn' path disk').0 ≡ ok k)
        × (((f : File) × (find_file path disk.files ≡ some f))
            ⊎ (find_file path disk'.files
                ≡ some (record { path = path; content = to_hex k; mode = 0o600 })))
  load_or_create_key-again drawn drawn' k path disk disk' trimmed h calm =
      elim (Option-cases (find_file path disk.files)) [
        | inl fresh ↦
            let (e, file) = load_or_create_key-new drawn k path disk disk' fresh h in
            (
              written drawn path disk' trimmed file calm drawn' ∙ ap ok (sym e),
              inr (
                  file
                  ∙ ap (λ (x : K). some (record { path = path; content = to_hex x; mode = 0o600 }))
                      (sym e)),
            )
        | inr (f, old) ↦
            (load_or_create_key-old drawn drawn' k path disk disk' f old h calm, inl (f, old))
      ]
