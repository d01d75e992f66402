-- ===== src/Orchestrator/Validator/ConstantTime.antt =====
-- `constant_time_eq` of orchestrator/src/validator.rs.
use Prim.Native.Nat.{bit_or, bit_xor, digits, bit_or-bitwise, bit_xor-bitwise, max, differ}
use decentralized_hive_mind.Prelude.{
  ℕ, zero, suc, ◌/◌, ◌%◌, ◌≤◌, ◌≡◌, refl, ◌↔◌, true, [], ◌∷◌, length, Bytes, arith, sym, ◌∙◌, ◌<◌,
}
use decentralized_hive_mind.Orchestrator.Validator.{diff_loop, constant_time_eq}

or_digits-zero : (n a b : ℕ) → a ≤ n → digits (λ c. c) max n a b ≡ 0 → (a ≡ 0) × (b ≡ 0)
or_digits-zero zero a b h e = omega arith
or_digits-zero (suc n) zero b h e = omega arith
or_digits-zero (suc n) (suc a) b h e =
    absurd (omega (arith, or_digits-zero n (suc a / 2) (b / 2) (omega arith) (omega arith)))

differ_lt : (x y : ℕ) → x < 2 → y < 2 → (differ x y ≡ 0) ↔ (x ≡ y)
differ_lt zero zero hx hy = omega arith
differ_lt zero (suc y) hx hy = omega arith
differ_lt (suc x) zero hx hy = omega arith
differ_lt (suc zero) (suc zero) hx hy = omega arith
differ_lt (suc (suc x)) (suc y) hx hy = absurd (omega arith)
differ_lt (suc zero) (suc (suc y)) hx hy = absurd (omega arith)

xor_digits-zero : (n a b : ℕ) → a ≤ n → digits (λ c. c) differ n a b ≡ 0 → a ≡ b
xor_digits-zero zero a b h e = omega arith
xor_digits-zero (suc n) zero b h e = omega arith
xor_digits-zero (suc n) (suc a) b h e =
    let low = (differ_lt (suc a % 2) (b % 2) (omega arith) (omega arith)).0 (omega arith) in
    omega (arith, xor_digits-zero n (suc a / 2) (b / 2) (omega arith) (omega arith))

xor_digits_self : (n a : ℕ) → a ≤ n → digits (λ c. c) differ n a a ≡ 0
xor_digits_self zero a h = omega arith
xor_digits_self (suc n) zero h = refl
xor_digits_self (suc n) (suc a) h =
    let low = (differ_lt (suc a % 2) (suc a % 2) (omega arith) (omega arith)).1 refl in
    omega (arith, xor_digits_self n (suc a / 2) (omega arith))

bit_or-eq-zero : (a b : ℕ) → bit_or a b ≡ 0 → (a ≡ 0) × (b ≡ 0)
bit_or-eq-zero a b e = or_digits-zero a a b (omega arith) (sym (bit_or-bitwise a b) ∙ e)

bit_xor-eq-zero : (a b : ℕ) → bit_xor a b ≡ 0 → a ≡ b
bit_xor-eq-zero a b e = xor_digits-zero a a b (omega arith) (sym (bit_xor-bitwise a b) ∙ e)

bit_xor_self : (a : ℕ) → bit_xor a a ≡ 0
bit_xor_self a = bit_xor-bitwise a a ∙ xor_digits_self a a (omega arith)

diff_loop-eq-zero :
    (d : ℕ) (a b : Bytes) → length a ≡ length b → diff_loop d a b ≡ 0 → (d ≡ 0) × (a ≡ b)
unfolding diff_loop
diff_loop-eq-zero d [] [] l e = (e, refl)
diff_loop-eq-zero d [] (y ∷ b) l e = absurd (omega arith)
diff_loop-eq-zero d (x ∷ a) [] l e = absurd (omega arith)
diff_loop-eq-zero d (x ∷ a) (y ∷ b) l e =
    let (folded, rest) = diff_loop-eq-zero (bit_or d (bit_xor x y)) a b (omega arith) e in
    let (d0, x0) = bit_or-eq-zero d (bit_xor x y) folded in (d0, cc (bit_xor-eq-zero x y x0))

diff_loop_self : (a : Bytes) → diff_loop 0 a a ≡ 0
unfolding diff_loop
diff_loop_self [] = refl
diff_loop_self (x ∷ a) = rw (bit_xor_self x) (diff_loop_self a)

-- The comparison that runs in constant time accepts exactly two equal sequences of bytes.
pub constant_time_eq_iff : (a b : Bytes) → (constant_time_eq a b ≡ true) ↔ (a ≡ b)
unfolding constant_time_eq
constant_time_eq_iff a b = (
  λ h. (diff_loop-eq-zero 0 a b (ground arith) (ground arith)).1,
  λ e. rw (← e) (ground (arith, diff_loop_self a)),
)
