-- ===== src/NodeClient/Wallet/Paths.antt =====
-- The paths of the store of receipts of node-client/src/wallet.rs.
use decentralized_hive_mind.Prelude.{
  ℕ, ap, ◌∙◌, Option, ◌≡◌, refl, true, false, Bool, none, some, List, [], ◌∷◌, ◌++◌, Text, text,
  arith, All, All-append, any, starts_with, ◌==◌,
}
use decentralized_hive_mind.NodeClient.Disk.{
  File, Disk, put_file, join_path, is_dir, is_writable, dir_exists, parent, rsplit_slash,
}
use decentralized_hive_mind.NodeClient.Wallet.{receipt_path}

-- A name without a slash.
abbrev pub IsPlain : Text → Type 0
IsPlain = All (λ c. (c == b'/') ≡ false)

-- A name without a slash is put behind the path.
pub join_path-IsPlain : (dir name : Text) → IsPlain name → join_path dir name ≡ dir ++ (b'/' ∷ name)
join_path-IsPlain dir [] h = refl
join_path-IsPlain dir (c ∷ name) h = rw h.0 refl

IsPlain-append : (a b : Text) → IsPlain a → IsPlain b → IsPlain (a ++ b)
IsPlain-append a b = All-append (λ c. (c == b'/') ≡ false) a b

pub receipt_path-IsPlain :
    (dir nonce : Text)
    → IsPlain nonce
    → receipt_path dir nonce ≡ dir ++ (b'/' ∷ (nonce ++ text ".json"))
receipt_path-IsPlain dir nonce h =
    join_path-IsPlain dir (nonce ++ text ".json")
      (IsPlain-append nonce (text ".json") h (ground arith))

-- The directory of a file with such a name.
rsplit_slash-none : (name : Text) → IsPlain name → rsplit_slash name ≡ none
rsplit_slash-none [] h = refl
rsplit_slash-none (c ∷ name) h = rw (rsplit_slash-none name h.1, h.0) refl

rsplit_slash-some :
    (dir name : Text) → IsPlain name → rsplit_slash (dir ++ (b'/' ∷ name)) ≡ some dir
rsplit_slash-some [] name h = rw (rsplit_slash-none name h) refl
rsplit_slash-some (c ∷ dir) name h = rw (rsplit_slash-some dir name h) refl

parent-append :
    (c : ℕ) (dir name : Text) → IsPlain name → parent (c ∷ (dir ++ (b'/' ∷ name))) ≡ some (c ∷ dir)
parent-append c dir name h = ground (arith, rsplit_slash-some dir name h)

append-is_writable :
    (dir name : Text) (disk : Disk)
    → IsPlain name
    → is_dir dir disk ≡ true
    → is_writable (dir ++ (b'/' ∷ name)) disk ≡ true
append-is_writable [] name disk h there = cc
append-is_writable (c ∷ dir) name disk h there =
    ap (λ (o : Option Text). dir_exists o disk) (parent-append c dir name h) ∙ there

-- A receipt can be written where the directory exists.
pub receipt_path-is_writable :
    (dir nonce : Text) (disk : Disk)
    → IsPlain nonce
    → is_dir dir disk ≡ true
    → is_writable (receipt_path dir nonce) disk ≡ true
receipt_path-is_writable dir nonce disk h there = rw (receipt_path-IsPlain dir nonce h) (
    append-is_writable dir (nonce ++ text ".json") disk
      (IsPlain-append nonce (text ".json") h (ground arith)) there)

-- A write takes no directory away.
any-put_file :
    (above : Text → Bool) (p content : Text) (fs : List File)
    → any (λ (f : File). above f.path) fs ≡ true
    → any (λ (f : File). above f.path) (put_file p content fs) ≡ true
any-put_file above p content [] h = cc
any-put_file above p content (f ∷ fs) h = ground (arith, any-put_file above p content fs)

pub put_file-is_dir :
    (dir p content : Text) (disk : Disk)
    → is_dir dir disk ≡ true
    → is_dir dir (record disk { files = put_file p content disk.files }) ≡ true
put_file-is_dir dir p content disk h =
    ground (arith, any-put_file (λ q. starts_with (dir ++ text "/") q) p content disk.files)
