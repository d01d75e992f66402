-- ===== src/Prelude/Decimal.antt =====
-- `to_string` and `{}` of an unsigned integer: its decimal digits.
use decentralized_hive_mind.Prelude.{
  ℕ, zero, suc, ◌+◌, ◌/◌, ◌%◌, [], ◌∷◌, ◌++◌, ltb, if◌then◌else◌, Text,
}

abbrev pub show_digits : ℕ → ℕ → Text
show_digits zero n = []
show_digits (suc fuel) n =
    let rest = show_digits fuel (n / 10) in
    if ltb n 10 then (b'0' + n) ∷ [] else rest ++ (b'0' + n % 10) ∷ []

-- The number of digits is at most the number plus one.
unfoldable pub show_ℕ : ℕ → Text
show_ℕ n = show_digits (suc n) n
