-- ===== src/Common/Float64.antt =====
-- `f64`. The kernel has no floating point, so the values and their operations are a parameter with
-- the facts about IEEE 754 binary64 that the code relies on, for finite values. Rounding to nearest
-- is monotone, and exact where the result is representable.
pub mod Fixed
use decentralized_hive_mind.Prelude.{ℕ, ◌≡◌, ◌⊎◌, Bool, true, false, ◌&&◌, if◌then◌else◌}
use decentralized_hive_mind.Prelude.Int.{ℤ, pos, ◌≤ℤ◌}

pub record Float64 (F : Type 0) : Type 0 where
  -- The double nearest to n / 100; the literals of the program have at most two decimals.
  pub hundredths : ℤ → F
  -- `n as f64`
  pub of_ℕ : ℕ → F
  pub add : F → F → F
  pub mul : F → F → F
  pub div : F → F → F
  -- `a <= b`
  pub le : F → F → Bool
  pub le_refl : (a : F) → le a a ≡ true
  pub le_trans : (a b c : F) → le a b ≡ true → le b c ≡ true → le a c ≡ true
  pub le_total : (a b : F) → (le a b ≡ true) ⊎ (le b a ≡ true)
  pub hundredths_mono : (m n : ℤ) → m ≤ℤ n → le (hundredths m) (hundredths n) ≡ true
  pub of_ℕ_nonneg : (n : ℕ) → le (hundredths (pos 0)) (of_ℕ n) ≡ true
  pub le-add_right : (a b : F) → le (hundredths (pos 0)) b ≡ true → le a (add a b) ≡ true
  pub le-add_left : (a b : F) → le (hundredths (pos 0)) a ≡ true → le b (add a b) ≡ true
  pub mul_comm : (a b : F) → mul a b ≡ mul b a
  pub mul_nonneg :
      (a b : F)
      → le (hundredths (pos 0)) a ≡ true
      → le (hundredths (pos 0)) b ≡ true
      → le (hundredths (pos 0)) (mul a b) ≡ true
  pub mul_mono :
      (a b c : F)
      → le (hundredths (pos 0)) a ≡ true
      → le (hundredths (pos 0)) c ≡ true
      → le a b ≡ true
      → le (mul a c) (mul b c) ≡ true
  -- Zero is exact in a conversion, a product and a sum.
  pub of_ℕ_zero : of_ℕ 0 ≡ hundredths (pos 0)
  pub zero_mul :
      (a : F) → le (hundredths (pos 0)) a ≡ true → mul (hundredths (pos 0)) a ≡ hundredths (pos 0)
  pub add_zero : add (hundredths (pos 0)) (hundredths (pos 0)) ≡ hundredths (pos 0)
  -- A product with 1 is exact.
  pub one_mul : (a : F) → le (hundredths (pos 0)) a ≡ true → mul (hundredths (pos 100)) a ≡ a
  -- A positive value divided by itself or by something larger is at most 1.
  pub div_le_one :
      (a b : F)
      → le (hundredths (pos 0)) a ≡ true
      → le b (hundredths (pos 0)) ≡ false
      → le a b ≡ true
      → le (div a b) (hundredths (pos 100)) ≡ true
  pub div_nonneg :
      (a b : F)
      → le (hundredths (pos 0)) a ≡ true
      → le b (hundredths (pos 0)) ≡ false
      → le (hundredths (pos 0)) (div a b) ≡ true

module _ {F : Type 0} ⦃o : Float64 F⦄ where
  abbrev pub zero_f : F
  zero_f = o.hundredths (pos 0)

  abbrev pub one_f : F
  one_f = o.hundredths (pos 100)

  -- `a == b`: of two ordered values, neither is less.
  abbrev pub eq : F → F → Bool
  eq a b = o.le a b && o.le b a

  -- `a < b`
  abbrev pub lt : F → F → Bool
  lt a b = if o.le b a then false else true
