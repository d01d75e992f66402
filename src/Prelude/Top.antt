-- ===== src/Prelude/Top.antt =====
-- `SELECT .. WHERE .. ORDER BY .. LIMIT n`: the first rows, in an order, of those that pass a test.
use Prim.Native.Nat.{ℕ, zero, suc, ◌≤◌}
use mathlib.Core.Path.{◌≡◌, refl, ap}
use mathlib.Core.Logic.{◌⊎◌, inl, inr}
use mathlib.Core.Bool.{Bool, true}
use mathlib.Core.List.{List, [], ◌∷◌}
use decentralized_hive_mind.Prelude.Lists.{length, take, filter, All, length-take-le}
use decentralized_hive_mind.Prelude.Members.{In, In-take, In-filter, In-filter_of, All-In}
use decentralized_hive_mind.Prelude.Sorting.{
  sort_with, IsSorted, In-sort_with, In-sort_with_of, IsSorted-sort_with,
}

-- Rows of equal rank keep the order of the table, which the statement leaves open.
abbrev pub select_top : {A : Type 0} → (A → A → Bool) → ℕ → (A → Bool) → List A → List A
select_top before n p xs = take n (sort_with before (filter p xs))

-- What the statement promises.
pub record IsTop {A : Type 0} (before : A → A → Bool) (n : ℕ) (p : A → Bool) (xs ys : List A)
    : Type 0 where
  pub ordered : IsSorted before ys
  pub limited : length ys ≤ n
  pub selected : (a : A) → In a ys → In a xs × (p a ≡ true)
  pub complete :
      (a : A) → In a xs → p a ≡ true → In a ys ⊎ ((length ys ≡ n) × All (λ y. before y a ≡ true) ys)

module _ {A : Type 0} (before : A → A → Bool) where
  All-take : (P : A → Type 0) (n : ℕ) (xs : List A) → All P xs → All P (take n xs)
  All-take P zero xs h = tt
  All-take P (suc n) [] h = tt
  All-take P (suc n) (x ∷ xs) h = (h.0, All-take P n xs h.1)

  IsSorted-take : (n : ℕ) (xs : List A) → IsSorted before xs → IsSorted before (take n xs)
  IsSorted-take zero xs h = tt
  IsSorted-take (suc n) [] h = tt
  IsSorted-take (suc n) (x ∷ xs) h = (All-take _ n xs h.0, IsSorted-take n xs h.1)

  -- What is not among the first comes after them.
  In-take_or :
      (n : ℕ) (xs : List A) (a : A)
      → IsSorted before xs
      → In a xs
      → In a (take n xs) ⊎ ((length (take n xs) ≡ n) × All (λ y. before y a ≡ true) (take n xs))
  In-take_or zero xs a h m = inr (refl, tt)
  In-take_or (suc n) [] a h m = elim m [ ]
  In-take_or (suc n) (x ∷ xs) a h (inl e) = inl (inl e)
  In-take_or (suc n) (x ∷ xs) a h (inr m) = elim (In-take_or n xs a h.1 m) [
    | inl k ↦ inl (inr k)
    | inr (size, all) ↦ inr (ap suc size, (All-In (λ y. before x y ≡ true) xs a h.0 m, all))
  ]

  module _ (total : (a b : A) → (before a b ≡ true) ⊎ (before b a ≡ true))
      (trans : (a b c : A) → before a b ≡ true → before b c ≡ true → before a c ≡ true) where
    pub select_top-IsTop :
        (n : ℕ) (p : A → Bool) (xs : List A) → IsTop before n p xs (select_top before n p xs)
    select_top-IsTop n p xs =
        let found = filter p xs in
        let sorted = IsSorted-sort_with before total trans found in
        record {
          ordered = IsSorted-take n (sort_with before found) sorted;
          limited = length-take-le n (sort_with before found);
          selected = λ a m.
              In-filter p xs {a = a}
                (In-sort_with before found a (In-take n (sort_with before found) a m));
          complete = λ a m t.
              In-take_or n (sort_with before found) a sorted
                (In-sort_with_of before found a (In-filter_of p xs a m t));
        }
