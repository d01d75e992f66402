-- ===== src/Orchestrator/Privacy/Drawn.antt =====
-- The ids and the placeholders that `tokenise` of orchestrator/src/privacy.rs draws.
use mathlib.Core.List.{append_assoc, append_cancel_right}
use decentralized_hive_mind.Prelude.{
  ℕ, suc, ◌≡◌, ◌<◌, refl, sym, ap, ◌∙◌, false, none, some, [], ◌∷◌, ◌++◌, length, Text, text,
  text_eq, text_eq_sound, All, All-append, length-append, ◌==◌, ◌≤◌, inl, inr, Bool-cases, arith,
  Bool, true, leb, ◌&&◌, ◌||◌, In,
}
use decentralized_hive_mind.Orchestrator.Privacy.{PiiMap, insert_pii, placeholder, pii_patterns}
use decentralized_hive_mind.Orchestrator.Privacy.Placeholders.{IsPlain, IsKey}
use decentralized_hive_mind.Orchestrator.Privacy.Restored.{lookup, lookup-insert_pii, IsEntry}

length_suffix : (a b : Text) → length b ≤ length (a ++ b)
length_suffix [] b = omega arith
length_suffix (x ∷ a) b = omega (arith, length_suffix a b)

append_suffix : (a b c e : Text) → a ++ b ≡ c ++ e → length b ≡ length e → b ≡ e
append_suffix [] b [] e h n = h
append_suffix [] b (z ∷ c) e h n = absurd (omega (arith, ap (length {A = ℕ}) h, length_suffix c e))
append_suffix (x ∷ a) b [] e h n = absurd (omega (arith, ap (length {A = ℕ}) h, length_suffix a b))
append_suffix (x ∷ a) b (z ∷ c) e h n = append_suffix a b c e (cc) n

IsPlain-append : (a b : Text) → IsPlain a → IsPlain b → IsPlain (a ++ b)
IsPlain-append a b = All-append (λ c. ((c == b'[') ≡ false) × ((c == b']') ≡ false)) a b

-- A fresh key is added at the end.
pub All-insert_pii :
    (P : Text × Text → Type 0) (key v : Text) (map : PiiMap)
    → P (key, v)
    → All P map
    → lookup map key ≡ none
    → All P (insert_pii key v map)
unfolding insert_pii
All-insert_pii P key v [] p h absent = (p, tt)
All-insert_pii P key v ((k, w) ∷ map) p h absent = elim (Bool-cases (text_eq k key)) [
  | inl same ↦ ground arith
  | inr other ↦ rw other (h.0, All-insert_pii P key v map p h.1 (ground arith))
]

abbrev pub Extends : PiiMap → PiiMap → Type 0
Extends old new = (key v : Text) → lookup old key ≡ some v → lookup new key ≡ some v

pub insert_pii-Extends :
    (key v : Text) (map : PiiMap) → lookup map key ≡ none → Extends map (insert_pii key v map)
insert_pii-Extends key v map absent k w e =
    ground (arith, lookup-insert_pii key v map k, text_eq_sound key k)

-- The digits of a UUID as it is shown, and a placeholder that the program makes: a label of the
-- patterns and eight of these digits.
abbrev pub is_hex_digit : ℕ → Bool
is_hex_digit c = (leb b'0' c && leb c b'9') || (leb b'a' c && leb c b'f')

abbrev pub IsHex : Text → Type 0
IsHex = All (λ c. is_hex_digit c ≡ true)

abbrev pub IsPlaceholder : Text → Type 0
IsPlaceholder key =
    (label : Text) × (id : Text) × In label pii_patterns
    × (length id ≡ 8)
    × IsHex id
    × (key ≡ placeholder label id)

IsPlain-IsHex : (s : Text) → IsHex s → IsPlain s
IsPlain-IsHex [] h = tt
IsPlain-IsHex (c ∷ s) h = let digit = h.0 in ((ground arith, ground arith), IsPlain-IsHex s h.1)

module _ (new_v4 : ℕ → Text) where
  placeholder_suffix :
      (l : Text) (i : ℕ)
      → placeholder l (new_v4 i) ≡ (text "[PII_" ++ (l ++ text "_")) ++ (new_v4 i ++ text "]")
  placeholder_suffix l i =
      ap (λ (t : Text). text "[PII_" ++ t) (sym (append_assoc l (text "_") (new_v4 i ++ text "]")))

  -- The entries of a map after a number of ids have been drawn.
  abbrev pub IsDrawn : ℕ → Text × Text → Type 0
  IsDrawn n e =
      IsEntry e
      × ((l : Text) × In l pii_patterns × (i : ℕ) × (i < n) × (e.0 ≡ placeholder l (new_v4 i)))

  pub IsDrawn-later : (n : ℕ) (e : Text × Text) → IsDrawn n e → IsDrawn (suc n) e
  IsDrawn-later n e (entry, (l, m, i, b, p)) = (entry, (l, m, i, omega arith, p))

  module _ (ids_hex : (i : ℕ) → IsHex (new_v4 i)) where
    pub placeholder-IsKey : (l : Text) (i : ℕ) → IsPlain l → IsKey (placeholder l (new_v4 i))
    placeholder-IsKey l i p = record {
      inner = text "PII_" ++ (l ++ (text "_" ++ new_v4 i));
      shape =
          ap (λ (t : Text). text "[PII_" ++ t)
            (sym (append_assoc l (text "_" ++ new_v4 i) (text "]")));
      plain =
          IsPlain-append (text "PII_") (l ++ (text "_" ++ new_v4 i))
            ((refl, refl), ((refl, refl), ((refl, refl), ((refl, refl), tt))))
            (IsPlain-append l (text "_" ++ new_v4 i) p
              ((refl, refl), IsPlain-IsHex (new_v4 i) (ids_hex i)));
    }

  module _ (ids_short : (i : ℕ) → length (new_v4 i) ≡ 8) (bound : ℕ)
      (ids_differ : (i k : ℕ) → i < bound → k < bound → new_v4 i ≡ new_v4 k → i ≡ k) where
    -- The id of a placeholder is what stands before its last character.
    placeholder_differ :
        (l l' : Text) (i k : ℕ)
        → i < bound
        → k < bound
        → placeholder l (new_v4 i) ≡ placeholder l' (new_v4 k)
        → i ≡ k
    placeholder_differ l l' i k bi bk h =
        let same = sym (placeholder_suffix l i) ∙ (h ∙ placeholder_suffix l' k) in
        let sizes : length (new_v4 i ++ text "]") ≡ length (new_v4 k ++ text "]") = omega (
          arith,
          length-append (new_v4 i) (text "]"),
          length-append (new_v4 k) (text "]"),
          ids_short i,
          ids_short k,
        ) in
        let ends =
          append_suffix (text "[PII_" ++ (l ++ text "_")) (new_v4 i ++ text "]")
            (text "[PII_" ++ (l' ++ text "_")) (new_v4 k ++ text "]") same sizes in
        ids_differ i k bi bk (append_cancel_right (new_v4 i) (new_v4 k) (text "]") ends)

    pub fresh :
        (label : Text) (n : ℕ) (map : PiiMap)
        → n < bound
        → All (IsDrawn n) map
        → lookup map (placeholder label (new_v4 n)) ≡ none
    fresh label n [] few h = refl
    fresh label n ((k, v) ∷ map) few h =
        let (l, m, i, b, p) = h.0.1 in
        elim (Bool-cases (text_eq k (placeholder label (new_v4 n)))) [
          | inl same ↦
              let keys = sym p ∙ text_eq_sound k (placeholder label (new_v4 n)) same in
              absurd (omega (arith, placeholder_differ l label i n (omega arith) few keys))
          | inr other ↦ rw other (fresh label n map few h.1)
        ]

module _ (new_v4 : ℕ → Text) (ids_hex : (i : ℕ) → IsHex (new_v4 i))
    (ids_short : (i : ℕ) → length (new_v4 i) ≡ 8) where
  -- Every key of the map is a placeholder.
  pub lookup-IsPlaceholder :
      (n : ℕ) (map : PiiMap)
      → All (IsDrawn new_v4 n) map
      → (k v : Text) → lookup map k ≡ some v
      → IsPlaceholder k
  lookup-IsPlaceholder n [] h k v e = cc
  lookup-IsPlaceholder n ((j, w) ∷ map) h k v e = elim (Bool-cases (text_eq j k)) [
    | inl same ↦
        let (l, m, i, b, p) = h.0.1 in
        (l, new_v4 i, m, ids_short i, ids_hex i, sym (text_eq_sound j k same) ∙ p)
    | inr other ↦ lookup-IsPlaceholder n map h.1 k v (ground arith)
  ]
