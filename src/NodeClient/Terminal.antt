-- ===== src/NodeClient/Terminal.antt =====
-- node-client/src/ui.rs: what the program prints, without its colours, and the texts that it shortens.
use decentralized_hive_mind.Prelude.{
  ℕ, suc, ◌-◌, ◌==◌, Option, none, some, List, [], ◌∷◌, ◌++◌, map, replicate, length, Text, text,
  text_eq, len, leb, slice_to, if◌then◌else◌,
}
use decentralized_hive_mind.NodeClient.Effect.{ok, panic, Effect}

pub data Line : Type 0 where
  section hint action success failure : Text → Line
  field : Text → Text → Line
  gap : Line
  table : List (Text × ℕ) → List (List Text) → Line

-- A command runs with what is outside of it and what it has printed.
pub record Session (E : Type 0) : Type 0 where
  pub outside : E
  pub printed : List Line

module _ {E : Type 0} where
  unfoldable pub say : Line → Effect (Session E) (Unit {0})
  say line s = (ok tt, record s { printed = s.printed ++ line ∷ [] })

  unfoldable pub say_all : List Line → Effect (Session E) (Unit {0})
  say_all lines s = (ok tt, record s { printed = s.printed ++ lines })

  -- An effect on what is outside.
  unfoldable pub outside : {A : Type 0} → Effect E A → Effect (Session E) A
  outside m s = let (r, e) = m s.outside in (r, record s { outside = e })

-- `status_colored`; `str::to_lowercase` reads the Unicode tables.
unfoldable pub status_colored : (Text → Text) → Text → Text
status_colored to_lowercase s =
    let lower = to_lowercase s in
    if text_eq lower (text "complete")
    then text "✓ complete"
    else if text_eq lower (text "failed")
    then text "✗ failed"
    else if text_eq lower (text "expired")
    then text "✗ expired"
    else if text_eq lower (text "running")
    then text "⟳ running"
    else if text_eq lower (text "pending")
    then text "○ pending"
    else s

-- `format!("{cell:<w$}")`: padded to a width in characters.
abbrev pad_to : ℕ → Text → Text
pad_to w s = s ++ replicate (w - length s) b' '

-- The cells of a row of `table`, the first of which has the number `i`. The second column is a
-- status, padded by the bytes of the cell.
abbrev cell : (Text → Text) → ℕ → ℕ → Text → Text
cell to_lowercase i w s =
    if i == 1 then status_colored to_lowercase s ++ replicate (w - len s) b' ' else pad_to w s

abbrev cells : (Text → Text) → ℕ → List Text → List (Text × ℕ) → List Text
cells to_lowercase i [] cols = []
cells to_lowercase i (_ ∷ _) [] = []
cells to_lowercase i (s ∷ row) ((_, w) ∷ cols) =
    cell to_lowercase i w s ∷ cells to_lowercase (suc i) row cols

abbrev pub join : Text → List Text → Text
join separator [] = []
join separator (s ∷ []) = s
join separator (s ∷ t ∷ rest) = s ++ (separator ++ join separator (t ∷ rest))

-- The lines of `table`.
unfoldable table_lines : (Text → Text) → List (Text × ℕ) → List (List Text) → List Text
table_lines to_lowercase cols rows =
    join (text "   ") (map (λ (h, w). pad_to w h) cols)
    ∷ join (text "   ") (map (λ (h, w). replicate w 0x2500) cols)
    ∷ map (λ row. join (text "   ") (cells to_lowercase 0 row cols)) rows

-- `truncate_hex`, and `format!("{}…", &s[..s.len().min(n)])`; `none` is a panic.
abbrev with_ellipsis : Option Text → Option Text
with_ellipsis none = none
with_ellipsis (some s) = some (s ++ text "…")

unfoldable pub truncate_hex : Text → ℕ → Option Text
truncate_hex hex chars =
    if leb (len hex) chars then some hex else with_ellipsis (slice_to chars hex)

unfoldable pub short : ℕ → Text → Option Text
short n s = with_ellipsis (slice_to (if leb (len s) n then len s else n) s)

abbrev pub or_panic : {S A : Type 0} → Option A → Effect S A
or_panic none s = (panic, s)
or_panic (some a) s = (ok a, s)
