-- ===== src/NodeClient/Wallet/Names.antt =====
-- The names that `read_dir` gives for the files of node-client/src/wallet.rs.
use decentralized_hive_mind.Prelude.{
  ◌≡◌, refl, true, Option, none, some, List, [], ◌∷◌, Text, text_eq, text_eq_refl, Bool-cases,
  Option-cases, inl, inr, arith, ap, ◌∙◌, ◌⊎◌, ◌++◌, sym, text_eq_sound, In, All, ◌==◌, subst,
}
use decentralized_hive_mind.NodeClient.Disk.{File, name_in, plain, join_path}
use decentralized_hive_mind.NodeClient.Wallet.{names}
use decentralized_hive_mind.NodeClient.Wallet.Receipts.{stored}
use decentralized_hive_mind.NodeClient.Wallet.Paths.{IsPlain, join_path-IsPlain}

plain-IsPlain : (s : Text) → IsPlain s → plain s ≡ some s
plain-IsPlain [] h = refl
plain-IsPlain (c ∷ s) h = rw (h.0, plain-IsPlain s h.1) refl

plain_sound : (s t : Text) → plain s ≡ some t → s ≡ t
plain_sound [] t h = ground arith
plain_sound (c ∷ s) t h = elim (Option-cases (plain s)) [
  | inl e ↦ ground arith
  | inr (u, e) ↦ ground (arith, plain_sound s u)
]

name_in-append : (dir name : Text) → IsPlain name → name_in dir (dir ++ (b'/' ∷ name)) ≡ some name
name_in-append [] name h = plain-IsPlain name h
name_in-append (a ∷ dir) name h = ground (arith, name_in-append dir name h)

name_in-join_path : (dir name : Text) → IsPlain name → name_in dir (join_path dir name) ≡ some name
name_in-join_path dir name h =
    ap (name_in dir) (join_path-IsPlain dir name h) ∙ name_in-append dir name h

name_in-appended : (dir p name : Text) → name_in dir p ≡ some name → p ≡ dir ++ (b'/' ∷ name)
name_in-appended [] [] name h = cc
name_in-appended [] (c ∷ p) name h = ground (arith, plain_sound p name)
name_in-appended (a ∷ dir) [] name h = cc
name_in-appended (a ∷ dir) (c ∷ p) name h = ground (arith, name_in-appended dir p name)

-- The names of the list have no slash.
plain-IsPlain_of : (s t : Text) → plain s ≡ some t → IsPlain t
plain-IsPlain_of [] [] h = tt
plain-IsPlain_of [] (a ∷ t) h = absurd (ground arith)
plain-IsPlain_of (c ∷ s) t h = elim (Bool-cases (c == b'/')) [
  | inl slash ↦ absurd (ground arith)
  | inr other ↦ elim (Option-cases (plain s)) [
    | inl e ↦ absurd (ground arith)
    | inr (u, e) ↦
        let whole : c ∷ u ≡ t = ground arith in subst IsPlain whole (other, plain-IsPlain_of s u e)
  ]
]

name_in-IsPlain : (dir p name : Text) → name_in dir p ≡ some name → IsPlain name
name_in-IsPlain [] [] name h = cc
name_in-IsPlain [] (c ∷ p) name h = plain-IsPlain_of p name (ground arith)
name_in-IsPlain (a ∷ dir) [] name h = cc
name_in-IsPlain (a ∷ dir) (c ∷ p) name h = name_in-IsPlain dir p name (ground arith)

name_in_sound : (dir p name : Text) → name_in dir p ≡ some name → p ≡ join_path dir name
name_in_sound dir p name h =
    name_in-appended dir p name h ∙ sym (join_path-IsPlain dir name (name_in-IsPlain dir p name h))

All-names :
    (dir : Text) (f : File) (fs : List File) (o : Option Text)
    → name_in dir f.path ≡ o
    → All IsPlain (names dir fs)
    → All IsPlain (elim o as (λ _. List Text) [ none ↦ names dir fs | some n ↦ n ∷ names dir fs ])
All-names dir f fs none e h = h
All-names dir f fs (some n) e h = (name_in-IsPlain dir f.path n e, h)

pub names_plain : (dir : Text) (fs : List File) → All IsPlain (names dir fs)
names_plain dir [] = tt
names_plain dir (f ∷ fs) = All-names dir f fs (name_in dir f.path) refl (names_plain dir fs)

-- A name of the list is that of its first file, or one of the others.
named :
    (dir name : Text) (f : File) (fs : List File) (o : Option Text)
    → name_in dir f.path ≡ o
    → In name (elim o as (λ _. List Text) [ none ↦ names dir fs | some n ↦ n ∷ names dir fs ])
    → (text_eq f.path (join_path dir name) ≡ true) ⊎ In name (names dir fs)
named dir name f fs none e m = inr m
named dir name f fs (some n) e (inl h) =
    let here = name_in_sound dir f.path n e in
    inl (ground (arith, here, text_eq_refl (join_path dir n)))
named dir name f fs (some n) e (inr m) = inr m

-- A file that is named is found, and a file that is found is named.
pub names_stored :
    (dir name : Text) (fs : List File)
    → In name (names dir fs)
    → (content : Text) × (stored (join_path dir name) fs ≡ some content)
names_stored dir name [] m = elim m [ ]
names_stored dir name (f ∷ fs) m = elim (Bool-cases (text_eq f.path (join_path dir name))) [
  | inl here ↦ (f.content, ground arith)
  | inr there ↦ elim (named dir name f fs (name_in dir f.path) refl m) [
    | inl here ↦ cc
    | inr k ↦ let (content, e) = names_stored dir name fs k in (content, ground arith)
  ]
]

In-names_tail :
    (dir name : Text) (fs : List File) (o : Option Text)
    → In name (names dir fs)
    → In name (elim o as (λ _. List Text) [ none ↦ names dir fs | some n ↦ n ∷ names dir fs ])
In-names_tail dir name fs none m = m
In-names_tail dir name fs (some n) m = inr m

In-names_here :
    (dir name : Text) (fs : List File) (o : Option Text)
    → o ≡ some name
    → In name (elim o as (λ _. List Text) [ none ↦ names dir fs | some n ↦ n ∷ names dir fs ])
In-names_here dir name fs none e = cc
In-names_here dir name fs (some n) e = inl (ground arith)

pub stored_named :
    (dir name content : Text) (fs : List File)
    → IsPlain name
    → stored (join_path dir name) fs ≡ some content
    → In name (names dir fs)
stored_named dir name content [] h e = cc
stored_named dir name content (f ∷ fs) h e =
    elim (Bool-cases (text_eq f.path (join_path dir name))) [
      | inl here ↦
          let there : name_in dir f.path ≡ some name =
            ap (name_in dir) (text_eq_sound f.path _ here) ∙ name_in-join_path dir name h in
          In-names_here dir name fs (name_in dir f.path) there
      | inr other ↦
          In-names_tail dir name fs (name_in dir f.path)
            (stored_named dir name content fs h (ground arith))
    ]
