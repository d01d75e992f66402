-- ===== src/Prelude/Members.antt =====
-- Membership in a list as a sum, which the tactics take apart, and how the list functions treat it.
use Prim.Native.Nat.{ℕ, zero, suc}
use mathlib.Core.Path.{◌≡◌, refl, ap, subst, sym}
use mathlib.Core.Logic.{◌⊎◌, inl, inr}
use mathlib.Core.Bool.{Bool, true}
use mathlib.Core.List.{List, [], ◌∷◌, ◌++◌, map}
use mathlib.Core.Option.{some}
use native.Mathlib.Omega.{arith}
use decentralized_hive_mind.Prelude.Tests.{Bool-cases}
use decentralized_hive_mind.Prelude.Lists.{filter, any, find, take, All}

module _ {A : Type 0} where
  abbrev pub In : A → List A → Type 0
  In a [] = ⊥
  In a (x ∷ xs) = (a ≡ x) ⊎ In a xs

  pub In-filter : (p : A → Bool) (xs : List A) {a : A} → In a (filter p xs) → In a xs × (p a ≡ true)
  In-filter p [] h = elim h [ ]
  In-filter p (x ∷ xs) {a} h = elim (Bool-cases (p x)) [
    | inl t ↦ elim (rw t at h) [
      | inl e ↦ (inl e, rw e t)
      | inr m ↦ let (k, q) = In-filter p xs m in (inr k, q)
    ]
    | inr f ↦ let (k, q) = In-filter p xs (rw f at h) in (inr k, q)
  ]

  pub any_sound : (p : A → Bool) (xs : List A) → any p xs ≡ true → (a : A) × In a xs × (p a ≡ true)
  any_sound p [] h = cc
  any_sound p (x ∷ xs) h = elim (Bool-cases (p x)) [
    | inl t ↦ (x, inl refl, t)
    | inr f ↦ let (a, m, t) = any_sound p xs (rw f at h) in (a, inr m, t)
  ]

  pub any_of_In : (p : A → Bool) (xs : List A) {a : A} → In a xs → p a ≡ true → any p xs ≡ true
  any_of_In p [] m t = elim m [ ]
  any_of_In p (x ∷ xs) (inl e) t = rw (subst (λ y. p y ≡ true) e t)
  any_of_In p (x ∷ xs) (inr m) t = ground (arith, any_of_In p xs m t)

  pub find-In : (p : A → Bool) (xs : List A) {a : A} → find p xs ≡ some a → In a xs
  find-In p [] h = cc
  find-In p (x ∷ xs) {a} h = elim (Bool-cases (p x)) [
    | inl t ↦ inl (ground arith)
    | inr f ↦ inr (find-In p xs (rw f at h))
  ]

  pub In-take : (n : ℕ) (xs : List A) (a : A) → In a (take n xs) → In a xs
  In-take zero xs a m = elim m [ ]
  In-take (suc n) [] a m = elim m [ ]
  In-take (suc n) (x ∷ xs) a (inl e) = inl e
  In-take (suc n) (x ∷ xs) a (inr m) = inr (In-take n xs a m)

  pub In-left : (xs ys : List A) (a : A) → In a xs → In a (xs ++ ys)
  In-left [] ys a m = elim m [ ]
  In-left (x ∷ xs) ys a (inl e) = inl e
  In-left (x ∷ xs) ys a (inr m) = inr (In-left xs ys a m)

  pub In-end : (xs : List A) (a : A) → In a (xs ++ a ∷ [])
  In-end [] a = inl refl
  In-end (x ∷ xs) a = inr (In-end xs a)

  pub In-snoc : (xs : List A) (y a : A) → In a (xs ++ y ∷ []) → In a xs ⊎ (a ≡ y)
  In-snoc [] y a (inl e) = inr e
  In-snoc [] y a (inr m) = elim m [ ]
  In-snoc (x ∷ xs) y a (inl e) = inl (inl e)
  In-snoc (x ∷ xs) y a (inr m) = elim (In-snoc xs y a m) [ inl l ↦ inl (inr l) | inr r ↦ inr r ]

  pub In-right : (xs ys : List A) (a : A) → In a ys → In a (xs ++ ys)
  In-right [] ys a m = m
  In-right (x ∷ xs) ys a m = inr (In-right xs ys a m)

  pub In-filter_of :
      (p : A → Bool) (xs : List A) (a : A) → In a xs → p a ≡ true → In a (filter p xs)
  In-filter_of p [] a m t = elim m [ ]
  In-filter_of p (x ∷ xs) a (inl e) t = let t' = subst (λ y. p y ≡ true) e t in rw t' (inl e)
  In-filter_of p (x ∷ xs) a (inr m) t = elim (Bool-cases (p x)) [
    | inl h ↦ rw h (inr (In-filter_of p xs a m t))
    | inr f ↦ rw f (In-filter_of p xs a m t)
  ]

  pub All-In {κ} : (P : A → Type κ) (xs : List A) (a : A) → All P xs → In a xs → P a
  All-In P [] a h m = elim m [ ]
  All-In P (x ∷ xs) a h (inl e) = subst P (sym e) h.0
  All-In P (x ∷ xs) a h (inr m) = All-In P xs a h.1 m

module _ {A B : Type 0} where
  pub In-map : (f : A → B) (xs : List A) {b : B} → In b (map f xs) → (a : A) × In a xs × (b ≡ f a)
  In-map f [] m = elim m [ ]
  In-map f (x ∷ xs) (inl e) = (x, inl refl, e)
  In-map f (x ∷ xs) (inr m) = let (a, k, e) = In-map f xs m in (a, inr k, e)

  pub In-map_of : (f : A → B) (xs : List A) (a : A) → In a xs → In (f a) (map f xs)
  In-map_of f [] a m = elim m [ ]
  In-map_of f (x ∷ xs) a (inl e) = inl (ap f e)
  In-map_of f (x ∷ xs) a (inr m) = inr (In-map_of f xs a m)
