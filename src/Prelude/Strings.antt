-- ===== src/Prelude/Strings.antt =====
-- Rust's `String` as the list of its Unicode scalar values, and the bytes of its UTF-8 encoding.
use Prim.Native.Nat.{ℕ, zero, suc, ◌+◌, ◌-◌, ◌/◌, ◌%◌}
use Prim.Native.Char.{code}
use Prim.Native.String.{String}
use mathlib.Core.Path.{◌≡◌, refl}
use mathlib.Core.Bool.{Bool, true, false, ◌&&◌}
use mathlib.Core.List.{List, [], ◌∷◌, ◌++◌}
use mathlib.Core.Option.{Option, none, some}
use native.Mathlib.Omega.{arith}
use decentralized_hive_mind.Prelude.Tests.{ltb, ◌==◌, if◌then◌else◌}
use decentralized_hive_mind.Prelude.Lists.{length}

abbrev pub Text : Type 0
Text = List ℕ

abbrev pub Bytes : Type 0
Bytes = List ℕ

-- The text of a literal.
abbrev pub text : String → Text
text String.[] = []
text (String.◌∷◌ c s) = code c ∷ text s

-- The one to four bytes of a scalar value.
abbrev encode_utf8 : ℕ → Bytes
encode_utf8 c =
    if ltb c 0x80
    then c ∷ []
    else if ltb c 0x800
    then (0xc0 + c / 0x40) ∷ (0x80 + c % 0x40) ∷ []
    else if ltb c 0x1_0000
    then (0xe0 + c / 0x1000) ∷ (0x80 + c / 0x40 % 0x40) ∷ (0x80 + c % 0x40) ∷ []
    else (0xf0 + c / 0x4_0000)
      ∷ (0x80 + c / 0x1000 % 0x40)
      ∷ (0x80 + c / 0x40 % 0x40)
      ∷ (0x80 + c % 0x40)
      ∷ []

-- `s.as_bytes()`
unfoldable pub as_bytes : Text → Bytes
as_bytes [] = []
as_bytes (c ∷ s) = encode_utf8 c ++ as_bytes s

-- `s.len()` counts bytes.
unfoldable pub len : Text → ℕ
unfolding as_bytes
len s = length (as_bytes s)

-- `&s[..n]`: the first `n` bytes, which panics if there are fewer, or if they end inside a character.
abbrev pub slice_to : ℕ → Text → Option Text
slice_to n [] = if n == 0 then some [] else none
slice_to n (c ∷ s) =
    let w = length (encode_utf8 c) in
    let rest = slice_to (n - w) s in
    if n == 0
    then some []
    else if ltb n w
    then none
    else elim rest [ none ↦ none | some t ↦ some (c ∷ t) ]

-- `a == b` on texts
abbrev pub text_eq : Text → Text → Bool
text_eq [] [] = true
text_eq [] (_ ∷ _) = false
text_eq (_ ∷ _) [] = false
text_eq (a ∷ s) (b ∷ t) = (a == b) && text_eq s t

pub text_eq_sound : (s t : Text) → text_eq s t ≡ true → s ≡ t
text_eq_sound [] [] h = refl
text_eq_sound [] (b ∷ t) h = cc
text_eq_sound (a ∷ s) [] h = cc
text_eq_sound (a ∷ s) (b ∷ t) h = ground (arith, text_eq_sound s t)

pub text_eq_refl : (s : Text) → text_eq s s ≡ true
text_eq_refl [] = refl
text_eq_refl (a ∷ s) = ground (arith, text_eq_refl s)

-- `s.starts_with(p)`
abbrev pub starts_with : Text → Text → Bool
starts_with [] s = true
starts_with (_ ∷ _) [] = false
starts_with (a ∷ p) (b ∷ s) = (a == b) && starts_with p s

-- The characters before the next match are kept; `skip` of them belong to the last match.
abbrev pub replace_from : Text → Text → ℕ → Text → Text
replace_from p r skip [] = []
replace_from p r zero (c ∷ s) =
    if starts_with p (c ∷ s)
    then r ++ replace_from p r (length p - 1) s
    else c ∷ replace_from p r zero s
replace_from p r (suc skip) (c ∷ s) = replace_from p r skip s

abbrev interleave : Text → Text → Text
interleave r [] = r
interleave r (c ∷ s) = r ++ (c ∷ interleave r s)

-- `s.replace(p, r)`; the empty pattern matches before each character and at the end.
abbrev pub replace : Text → Text → Text → Text
replace [] r s = interleave r s
replace (c ∷ p) r s = replace_from (c ∷ p) r 0 s
