-- ===== src/Orchestrator/Auth/Window.antt =====
-- The window of orchestrator/src/middleware/auth.rs around the server's time, in `i64` arithmetic.
use decentralized_hive_mind.Prelude.{
  ℕ, suc, ◌+◌, ◌≤◌, ◌<◌, ◌≡◌, ◌^◌, ◌↔◌, ◌⊎◌, inl, inr, Bool, true, false, Option, none, some, [],
  ◌∷◌, Text, ◌==◌, Bool-cases, ltb, arith,
}
use decentralized_hive_mind.Prelude.Int.{ℤ, pos, negsuc}
use decentralized_hive_mind.Orchestrator.Auth.{
  in_window, parse_i64, in_i64, parse_ℕ, max_clock_skew_ms,
}

-- The values of an `i64`
abbrev InI64 : ℤ → Type 0
InI64 (pos n) = n < 2 ^ 63
InI64 (negsuc n) = n < 2 ^ 63

-- At most 30 seconds away from the time, or exactly 2^63 milliseconds before it.
abbrev pub IsNear : ℕ → ℤ → Type 0
IsNear now (pos t) = (now ≤ t + max_clock_skew_ms) × (t ≤ now + max_clock_skew_ms)
IsNear now (negsuc n) = (now + suc n ≤ max_clock_skew_ms) ⊎ (now + suc n ≡ 2 ^ 63)

in_i64-InI64 : (minus : Bool) (n : Option ℕ) (z : ℤ) → in_i64 minus n ≡ some z → InI64 z
in_i64-InI64 minus none z h = cc
in_i64-InI64 false (some n) (pos m) h = ground arith
in_i64-InI64 false (some n) (negsuc m) h = ground arith
in_i64-InI64 true (some n) (pos m) h = ground arith
in_i64-InI64 true (some n) (negsuc m) h = ground arith

pub parse_i64-InI64 : (s : Text) (z : ℤ) → parse_i64 s ≡ some z → InI64 z
unfolding parse_i64
parse_i64-InI64 [] z h = cc
parse_i64-InI64 (c ∷ s) z h = elim (Bool-cases (c == b'-')) [
  | inl t ↦ in_i64-InI64 true (parse_ℕ s) z (rw t at h)
  | inr f ↦ elim (Bool-cases (c == b'+')) [
    | inl t ↦ in_i64-InI64 false (parse_ℕ s) z (rw (f, t) at h)
    | inr g ↦ in_i64-InI64 false (parse_ℕ (c ∷ s)) z (rw (f, g) at h)
  ]
]

-- At a time more than 30 seconds before the end of the type, a timestamp passes exactly if it is at
-- most 30 seconds away from the time, or exactly 2^63 milliseconds before it, where the subtraction
-- wraps around.
pub in_window_iff :
    (now : ℕ) (ts : ℤ)
    → now + max_clock_skew_ms < 2 ^ 63
    → InI64 ts
    → (in_window now ts ≡ true) ↔ IsNear now ts
unfolding in_window
in_window_iff now (pos t) b r = (λ h. (ground arith, ground arith), λ h. ground arith)
in_window_iff now (negsuc n) b r = (
  λ h. elim (Bool-cases (ltb (now + suc n) (2 ^ 63))) [
    | inl small ↦ inl (ground arith)
    | inr large ↦ inr (ground arith)
  ],
  λ h. elim h [ inl close ↦ ground arith | inr far ↦ ground arith ],
)
