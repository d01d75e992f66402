-- ===== src/Prelude/Related.antt =====
-- Two lists whose elements are related one by one.
use mathlib.Core.List.{List, [], ◌∷◌, map}

abbrev pub Pointwise : {A B : Type 0} → (A → B → Type 0) → List A → List B → Type 0
Pointwise R [] [] = Unit
Pointwise R [] (y ∷ ys) = ⊥
Pointwise R (x ∷ xs) [] = ⊥
Pointwise R (x ∷ xs) (y ∷ ys) = R x y × Pointwise R xs ys

pub Pointwise-map :
    {A B : Type 0} (R : A → B → Type 0) (f : A → B) (xs : List A)
    → ((x : A) → R x (f x))
    → Pointwise R xs (map f xs)
Pointwise-map R f [] h = tt
Pointwise-map R f (x ∷ xs) h = (h x, Pointwise-map R f xs h)
