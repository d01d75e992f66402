-- ===== src/Orchestrator/Privacy/Placeholders.antt =====
-- A text in which placeholders of orchestrator/src/privacy.rs stand for values, and the text that it
-- stands for.
use mathlib.Core.List.{append_assoc}
use decentralized_hive_mind.Prelude.{
  ℕ, suc, ◌-◌, ◌≡◌, ◌≢◌, refl, sym, ap, ◌∙◌, subst, true, false, Option, none, some, [], ◌∷◌, ◌++◌,
  length, Text, text_eq, text_eq_sound, text_eq_refl, starts_with, replace_from, replace, All, ◌==◌,
  if◌then◌else◌, Bool-cases, inl, inr, arith,
}

-- No placeholder begins in the text.
abbrev pub IsFree : Text → Type 0
IsFree = All (λ c. (c == b'[') ≡ false)

-- Neither bracket is in the text.
abbrev pub IsPlain : Text → Type 0
IsPlain = All (λ c. ((c == b'[') ≡ false) × ((c == b']') ≡ false))

pub record IsKey (key : Text) : Type 0 where
  pub inner : Text
  pub shape : key ≡ b'[' ∷ (inner ++ b']' ∷ [])
  pub plain : IsPlain inner

-- The first text stands for the second: the values of the placeholders are those of a lookup.
pub data Masked (value : Text → Option Text) : Text → Text → Type 0 where
  done : Masked value [] []
  letter :
      {t s : Text} (c : ℕ) → (c == b'[') ≡ false → Masked value t s → Masked value (c ∷ t) (c ∷ s)
  hidden :
      {t s t' s' : Text} (key v : Text)
      → IsKey key
      → value key ≡ some v
      → Masked value t s
      → t' ≡ key ++ t
      → s' ≡ v ++ s
      → Masked value t' s'

module _ (f : Text → Option Text) where
  pub Masked-free : (t : Text) → IsFree t → Masked f t t
  Masked-free [] h = done
  Masked-free (c ∷ t) h = letter c h.0 (Masked-free t h.1)

  pub Masked-append :
      {a x : Text} (b y : Text) → Masked f a x → Masked f b y → Masked f (a ++ b) (x ++ y)
  Masked-append b y done n = n
  Masked-append b y (letter c h m) n = letter c h (Masked-append b y m n)
  Masked-append b y (hidden {t = t} {s = s} key v k e m p q) n =
      hidden key v k e (Masked-append b y m n) (ap (λ (u : Text). u ++ b) p ∙ append_assoc key t b)
        (ap (λ (u : Text). u ++ y) q ∙ append_assoc v s y)

  pub Masked-mono :
      (g : Text → Option Text)
      → ((key v : Text) → f key ≡ some v → g key ≡ some v)
      → {t s : Text} → Masked f t s
      → Masked g t s
  Masked-mono g sub done = done
  Masked-mono g sub (letter c h m) = letter c h (Masked-mono g sub m)
  Masked-mono g sub (hidden key v k e m p q) =
      hidden key v k (sub key v e) (Masked-mono g sub m) p q

-- Without placeholders a text stands for itself.
pub Masked-none :
    (f : Text → Option Text) → ((key : Text) → f key ≡ none) → {t s : Text} → Masked f t s → t ≡ s
Masked-none f h done = refl
Masked-none f h (letter c e m) = ap (λ (u : Text). c ∷ u) (Masked-none f h m)
Masked-none f h (hidden key v k e m p q) = cc (h key)

starts_with-append : (k t : Text) → starts_with k (k ++ t) ≡ true
starts_with-append [] t = refl
starts_with-append (c ∷ k) t = ground (arith, starts_with-append k t)

-- What a match covers is skipped.
replace_from-skip :
    (p r xs t : Text) → replace_from p r (length xs) (xs ++ t) ≡ replace_from p r 0 t
replace_from-skip p r [] t = refl
replace_from-skip p r (x ∷ xs) t = replace_from-skip p r xs t

-- Of two placeholders only the same is a prefix of the other.
starts_with-inner :
    (a b t : Text)
    → IsPlain a
    → IsPlain b
    → starts_with (a ++ b']' ∷ []) (b ++ (b']' ∷ t)) ≡ true
    → a ≡ b
starts_with-inner [] [] t pa pb h = refl
starts_with-inner [] (y ∷ b) t pa pb h = ground (arith, pb.0.1)
starts_with-inner (x ∷ a) [] t pa pb h = ground (arith, pa.0.1)
starts_with-inner (x ∷ a) (y ∷ b) t pa pb h = ground (arith, starts_with-inner a b t pa.1 pb.1)

abbrev key_of : Text → Text
key_of a = b'[' ∷ (a ++ b']' ∷ [])

module _ (inner r : Text) (plain : IsPlain inner) where
  -- Where no placeholder begins, nothing is replaced.
  replace-inner :
      (b t : Text)
      → IsPlain b
      → replace (key_of inner) r (b ++ (b']' ∷ t)) ≡ b ++ (b']' ∷ replace (key_of inner) r t)
  replace-inner [] t h = refl
  replace-inner (c ∷ b) t h = ground (arith, h.0.0, replace-inner b t h.1)

  replace_self :
      (t : Text) → replace (key_of inner) r (key_of inner ++ t) ≡ r ++ replace (key_of inner) r t
  replace_self t =
      let here = starts_with-append (inner ++ b']' ∷ []) t in
      let skipped = replace_from-skip (key_of inner) r (inner ++ b']' ∷ []) t in
      let counted : suc (length (inner ++ b']' ∷ [])) - 1 ≡ length (inner ++ b']' ∷ []) =
        omega arith in
      rw (here, counted) (ap (λ (u : Text). r ++ u) skipped)

  -- Another placeholder is left as it is.
  replace-other :
      (b t : Text)
      → IsPlain b
      → inner ≢ b
      → replace (key_of inner) r (key_of b ++ t) ≡ key_of b ++ replace (key_of inner) r t
  replace-other b t pb other =
      let shifted : (b ++ b']' ∷ []) ++ t ≡ b ++ (b']' ∷ t) = append_assoc b (b']' ∷ []) t in
      let moved : (b ++ b']' ∷ []) ++ replace (key_of inner) r t
          ≡ b ++ (b']' ∷ replace (key_of inner) r t) =
        append_assoc b (b']' ∷ []) (replace (key_of inner) r t) in
      let differs : starts_with (inner ++ b']' ∷ []) (b ++ (b']' ∷ t)) ≡ false =
        elim (Bool-cases (starts_with (inner ++ b']' ∷ []) (b ++ (b']' ∷ t)))) [
          | inl h ↦ absurd (other (starts_with-inner inner b t plain pb h))
          | inr h ↦ h
        ] in
      rw (shifted, differs) (ap (λ (u : Text). b'[' ∷ u) (replace-inner b t pb ∙ sym moved))

-- The lookup without one key.
abbrev pub without : Text → (Text → Option Text) → Text → Option Text
without k f key = if text_eq key k then none else f key

module _ (f : Text → Option Text) (inner v : Text) (plain : IsPlain inner) (free : IsFree v)
    (known : f (key_of inner) ≡ some v) where
  abbrev rest : Text → Option Text
  rest = without (key_of inner) f

  -- The value stands for itself, any other placeholder for its own value.
  replace-hidden :
      (b w t s : Text)
      → IsPlain b
      → f (key_of b) ≡ some w
      → Masked rest (replace (key_of inner) v t) s
      → Masked rest (replace (key_of inner) v (key_of b ++ t)) (w ++ s)
  replace-hidden b w t s pb e m = elim (Bool-cases (text_eq (key_of b) (key_of inner))) [
    | inl same ↦
        let keys = text_eq_sound (key_of b) (key_of inner) same in
        let values : v ≡ w = cc in
        subst (λ (u : Text). Masked rest (replace (key_of inner) v (u ++ t)) (w ++ s)) (sym keys)
          (subst (λ (u : Text). Masked rest u (w ++ s)) (sym (replace_self inner v plain t))
            (subst (λ (u : Text). Masked rest (v ++ replace (key_of inner) v t) (u ++ s)) values
              (Masked-append rest _ _ (Masked-free rest v free) m)))
    | inr other ↦
        let inners : inner ≢ b = λ h. cc (text_eq_refl (key_of b)) in
        let found : rest (key_of b) ≡ some w = rw other e in
        subst (λ (u : Text). Masked rest u (w ++ s))
          (sym (replace-other inner v plain b t pb inners))
          (hidden (key_of b) w (record { inner = b; shape = refl; plain = pb }) found m refl refl)
  ]

  replaced : {t s : Text} → Masked f t s → Masked rest (replace (key_of inner) v t) s
  replaced done = done
  replaced (letter c h m) =
      let differs : (b'[' == c) ≡ false = ground arith in rw differs (letter c h (replaced m))
  replaced {t = whole} {s = meant} (hidden {t = t} {s = s} key w k e m p q) =
      let shown =
        replace-hidden k.inner w t s k.plain (subst (λ u. f u ≡ some w) k.shape e) (replaced m) in
      subst (λ (u : Text). Masked rest (replace (key_of inner) v u) meant)
        (sym (p ∙ ap (λ (u : Text). u ++ t) k.shape))
        (subst (λ (u : Text). Masked rest (replace (key_of inner) v (key_of k.inner ++ t)) u)
          (sym q) shown)

-- Replacing a placeholder by its value leaves a text that stands for the same.
pub Masked-replace :
    (f : Text → Option Text) (k v : Text)
    → IsKey k
    → IsFree v
    → f k ≡ some v
    → {t s : Text} → Masked f t s
    → Masked (without k f) (replace k v t) s
Masked-replace f k v key free e {t} {s} m =
    subst (λ (u : Text). Masked (without u f) (replace u v t) s) (sym key.shape)
      (replaced f key.inner v key.plain free (subst (λ u. f u ≡ some v) key.shape e) m)
