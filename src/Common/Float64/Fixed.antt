-- ===== src/Common/Float64/Fixed.antt =====
-- Fixed-point arithmetic with six decimals, which rounds down in size. It meets the laws of
-- `Float64`, and lets the tests run.
use native.Mathlib.Nat.{mul_comm as ℕ_mul_comm}
use decentralized_hive_mind.Prelude.{ℕ, suc, ◌*◌, ◌/◌, ◌≤◌, ◌<◌, ◌≡◌, refl, ◌⊎◌, true, false, arith}
use decentralized_hive_mind.Common.Float64.{Float64}
use decentralized_hive_mind.Prelude.Int.{ℤ, pos, negsuc, sub_ℕ, ◌+ℤ◌, leb_ℤ, ◌≤ℤ◌}

abbrev scale : ℕ
scale = 1_000_000

abbrev pub mul : ℤ → ℤ → ℤ
mul (pos a) (pos b) = pos (a * b / scale)
mul (pos a) (negsuc b) = sub_ℕ 0 (a * suc b / scale)
mul (negsuc a) (pos b) = sub_ℕ 0 (suc a * b / scale)
mul (negsuc a) (negsuc b) = pos (suc a * suc b / scale)

abbrev pub div : ℤ → ℤ → ℤ
div (pos a) (pos b) = pos (a * scale / b)
div (pos a) (negsuc b) = sub_ℕ 0 (a * scale / suc b)
div (negsuc a) (pos b) = sub_ℕ 0 (suc a * scale / b)
div (negsuc a) (negsuc b) = pos (suc a * scale / suc b)

abbrev pub hundredths : ℤ → ℤ
hundredths (pos n) = pos (n * 10_000)
hundredths (negsuc n) = sub_ℕ 0 (suc n * 10_000)

div_mono : (a b c : ℕ) → a ≤ b → a / c ≤ b / c
div_mono a b c h = grind arith

mul_mono_ℕ : (a b c : ℕ) → a ≤ b → a * c / scale ≤ b * c / scale
mul_mono_ℕ a b c h = let k : a * c ≤ b * c = grind arith in omega arith

one_mul_ℕ : (a : ℕ) → scale * a / scale ≡ a
one_mul_ℕ a = omega arith

div_le_scale : (a b : ℕ) → a ≤ b → 0 < b → a * scale / b ≤ scale
div_le_scale a b h p = grind arith

pub mul_mono :
    (a b c : ℤ)
    → leb_ℤ (pos 0) a ≡ true
    → leb_ℤ (pos 0) c ≡ true
    → leb_ℤ a b ≡ true
    → leb_ℤ (mul a c) (mul b c) ≡ true
mul_mono (pos a) (pos b) (pos c) ha hc h = ground (arith, mul_mono_ℕ a b c)
mul_mono (negsuc a) b c ha hc h = ground arith
mul_mono (pos a) (negsuc b) c ha hc h = ground arith
mul_mono (pos a) (pos b) (negsuc c) ha hc h = ground arith

pub mul_nonneg :
    (a b : ℤ) → leb_ℤ (pos 0) a ≡ true → leb_ℤ (pos 0) b ≡ true → leb_ℤ (pos 0) (mul a b) ≡ true
mul_nonneg (pos a) (pos b) ha hb = ground arith
mul_nonneg (negsuc a) b ha hb = ground arith
mul_nonneg (pos a) (negsuc b) ha hb = ground arith

pub one_mul : (a : ℤ) → leb_ℤ (pos 0) a ≡ true → mul (hundredths (pos 100)) a ≡ a
one_mul (pos a) h = ground (arith, one_mul_ℕ a)
one_mul (negsuc a) h = ground arith

pub div_le_one :
    (a b : ℤ)
    → leb_ℤ (pos 0) a ≡ true
    → leb_ℤ b (pos 0) ≡ false
    → leb_ℤ a b ≡ true
    → leb_ℤ (div a b) (hundredths (pos 100)) ≡ true
div_le_one (pos a) (pos b) ha hb h = ground (arith, div_le_scale a b)
div_le_one (negsuc a) b ha hb h = ground arith
div_le_one (pos a) (negsuc b) ha hb h = ground arith

pub div_nonneg :
    (a b : ℤ) → leb_ℤ (pos 0) a ≡ true → leb_ℤ b (pos 0) ≡ false → leb_ℤ (pos 0) (div a b) ≡ true
div_nonneg (pos a) (pos b) ha hb = ground arith
div_nonneg (negsuc a) b ha hb = ground arith
div_nonneg (pos a) (negsuc b) ha hb = ground arith

pub le_refl : (a : ℤ) → leb_ℤ a a ≡ true
le_refl a = ground arith

pub le_trans : (a b c : ℤ) → leb_ℤ a b ≡ true → leb_ℤ b c ≡ true → leb_ℤ a c ≡ true
le_trans a b c h k = ground arith

pub le_total : (a b : ℤ) → (leb_ℤ a b ≡ true) ⊎ (leb_ℤ b a ≡ true)
le_total a b = grind arith

pub hundredths_mono : (m n : ℤ) → m ≤ℤ n → leb_ℤ (hundredths m) (hundredths n) ≡ true
hundredths_mono (pos m) (pos n) h = ground arith
hundredths_mono (pos m) (negsuc n) h = ground arith
hundredths_mono (negsuc m) (pos n) h = ground arith
hundredths_mono (negsuc m) (negsuc n) h = ground arith

pub le-add_right : (a b : ℤ) → leb_ℤ (pos 0) b ≡ true → leb_ℤ a (a +ℤ b) ≡ true
unfolding ◌+ℤ◌
le-add_right a b h = ground arith

pub le-add_left : (a b : ℤ) → leb_ℤ (pos 0) a ≡ true → leb_ℤ b (a +ℤ b) ≡ true
unfolding ◌+ℤ◌
le-add_left a b h = ground arith

pub mul_comm : (a b : ℤ) → mul a b ≡ mul b a
mul_comm (pos a) (pos b) = ground (arith, ℕ_mul_comm a b)
mul_comm (pos a) (negsuc b) = ground (arith, ℕ_mul_comm a (suc b))
mul_comm (negsuc a) (pos b) = ground (arith, ℕ_mul_comm (suc a) b)
mul_comm (negsuc a) (negsuc b) = ground (arith, ℕ_mul_comm (suc a) (suc b))

pub of_ℕ_nonneg : (n : ℕ) → leb_ℤ (hundredths (pos 0)) (pos (n * scale)) ≡ true
of_ℕ_nonneg n = ground arith

pub zero_mul : (a : ℤ) → leb_ℤ (pos 0) a ≡ true → mul (pos 0) a ≡ pos 0
zero_mul (pos a) h = ground arith
zero_mul (negsuc a) h = ground arith

pub add_zero : pos 0 +ℤ pos 0 ≡ pos 0
unfolding ◌+ℤ◌
add_zero = ground arith

instance abbrev pub fixed : Float64 ℤ
fixed = record {
  hundredths = hundredths;
  of_ℕ = λ n. pos (n * scale);
  add = ◌+ℤ◌;
  mul = mul;
  div = div;
  le = leb_ℤ;
  le_refl = le_refl;
  le_trans = le_trans;
  le_total = le_total;
  hundredths_mono = hundredths_mono;
  of_ℕ_nonneg = of_ℕ_nonneg;
  le-add_right = le-add_right;
  le-add_left = le-add_left;
  mul_comm = mul_comm;
  mul_nonneg = mul_nonneg;
  mul_mono = mul_mono;
  of_ℕ_zero = refl;
  zero_mul = zero_mul;
  add_zero = add_zero;
  one_mul = one_mul;
  div_le_one = div_le_one;
  div_nonneg = div_nonneg;
}
