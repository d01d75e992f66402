-- ===== src/Prelude/Sorting.antt =====
-- Stable sorting: by an order given as a test, and by a number.
use Prim.Native.Nat.{ℕ}
use mathlib.Core.Path.{◌≡◌}
use mathlib.Core.Logic.{◌⊎◌, inl, inr}
use mathlib.Core.Bool.{Bool, true}
use mathlib.Core.List.{List, [], ◌∷◌}
use native.Mathlib.Omega.{arith}
use decentralized_hive_mind.Prelude.Tests.{leb, if◌then◌else◌, Bool-cases}
use decentralized_hive_mind.Prelude.Lists.{All, All-mono}
use decentralized_hive_mind.Prelude.Members.{In}

-- An insertion sort: equal elements keep their order.
module _ {A : Type 0} (before : A → A → Bool) where
  abbrev insert_with : A → List A → List A
  insert_with a [] = a ∷ []
  insert_with a (x ∷ xs) =
      let rest = insert_with a xs in if before a x then a ∷ x ∷ xs else x ∷ rest

  abbrev pub sort_with : List A → List A
  sort_with [] = []
  sort_with (x ∷ xs) = insert_with x (sort_with xs)

  -- Each element comes before all that follow it.
  abbrev pub IsSorted : List A → Type 0
  IsSorted [] = Unit
  IsSorted (x ∷ xs) = All (λ y. before x y ≡ true) xs × IsSorted xs

  In-insert_with : (a : A) (xs : List A) {b : A} → In b (insert_with a xs) → (b ≡ a) ⊎ In b xs
  In-insert_with a [] (inl e) = inl e
  In-insert_with a [] (inr m) = elim m [ ]
  In-insert_with a (x ∷ xs) {b} m = elim (Bool-cases (before a x)) [
    | inl t ↦ rw t at m
    | inr f ↦ elim (rw f at m) [
      | inl e ↦ inr (inl e)
      | inr k ↦ elim (In-insert_with a xs k) [ inl e ↦ inl e | inr r ↦ inr (inr r) ]
    ]
  ]

  pub In-sort_with : (xs : List A) (b : A) → In b (sort_with xs) → In b xs
  In-sort_with [] b m = m
  In-sort_with (x ∷ xs) b m = elim (In-insert_with x (sort_with xs) {b = b} m) [
    | inl e ↦ inl e
    | inr k ↦ inr (In-sort_with xs b k)
  ]

  In-insert_with_of : (a : A) (xs : List A) (b : A) → (b ≡ a) ⊎ In b xs → In b (insert_with a xs)
  In-insert_with_of a [] b (inl e) = inl e
  In-insert_with_of a [] b (inr m) = inr m
  In-insert_with_of a (x ∷ xs) b m = elim (Bool-cases (before a x)) [
    | inl t ↦ rw t m
    | inr f ↦ rw f (elim m [
      | inl e ↦ inr (In-insert_with_of a xs b (inl e))
      | inr k ↦ elim k [ inl e ↦ inl e | inr l ↦ inr (In-insert_with_of a xs b (inr l)) ]
    ])
  ]

  pub In-sort_with_of : (xs : List A) (b : A) → In b xs → In b (sort_with xs)
  In-sort_with_of [] b m = m
  In-sort_with_of (x ∷ xs) b (inl e) = In-insert_with_of x (sort_with xs) b (inl e)
  In-sort_with_of (x ∷ xs) b (inr m) =
      In-insert_with_of x (sort_with xs) b (inr (In-sort_with_of xs b m))

  All-insert_with :
      (P : A → Type 0) (a : A) (xs : List A) → P a → All P xs → All P (insert_with a xs)
  All-insert_with P a [] p h = (p, tt)
  All-insert_with P a (x ∷ xs) p h = elim (Bool-cases (before a x)) [
    | inl t ↦ rw t (p, h)
    | inr f ↦ rw f (h.0, All-insert_with P a xs p h.1)
  ]

  module _ (total : (a b : A) → (before a b ≡ true) ⊎ (before b a ≡ true))
      (trans : (a b c : A) → before a b ≡ true → before b c ≡ true → before a c ≡ true) where
    IsSorted-insert_with : (a : A) (xs : List A) → IsSorted xs → IsSorted (insert_with a xs)
    IsSorted-insert_with a [] h = (tt, tt)
    IsSorted-insert_with a (x ∷ xs) h = elim (Bool-cases (before a x)) [
      | inl t ↦ rw t ((t, All-mono _ _ xs (λ y q. trans a x y t q) h.0), h)
      | inr f ↦
          let other : before x a ≡ true = elim (total a x) [ inl t ↦ cc | inr t ↦ t ] in
          rw f (All-insert_with _ a xs other h.0, IsSorted-insert_with a xs h.1)
    ]

    pub IsSorted-sort_with : (xs : List A) → IsSorted (sort_with xs)
    IsSorted-sort_with [] = tt
    IsSorted-sort_with (x ∷ xs) = IsSorted-insert_with x (sort_with xs) (IsSorted-sort_with xs)

module _ {A : Type 0} (key : A → ℕ) where
  abbrev pub by_key : A → A → Bool
  by_key a b = leb (key a) (key b)

  -- `sort_by_key`, ascending
  abbrev pub sort_by : List A → List A
  sort_by = sort_with by_key

  pub In-sort_by : (xs : List A) (b : A) → In b (sort_by xs) → In b xs
  In-sort_by = In-sort_with by_key

  pub IsSorted-sort_by : (xs : List A) → IsSorted by_key (sort_by xs)
  IsSorted-sort_by =
      IsSorted-sort_with by_key
        (λ a b. elim (Bool-cases (by_key a b)) [ inl t ↦ inl t | inr f ↦ inr (ground arith) ])
        (λ a b c p q. ground arith)
