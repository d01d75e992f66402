-- ===== src/Orchestrator/Privacy.antt =====
-- orchestrator/src/privacy.rs and `PiiMap` of common/src/types.rs: sensitive values are replaced by
-- placeholders.
pub mod Clean
pub mod Placeholders
pub mod Restored
pub mod Drawn
pub mod Replaced
use decentralized_hive_mind.Prelude.{
  ℕ, suc, ◌≡◌, Bool, true, false, List, [], ◌∷◌, ◌++◌, Text, text, text_eq, replace, if◌then◌else◌,
}

-- `HashMap<String, String>`, as an association list.
abbrev pub PiiMap : Type 0
PiiMap = List (Text × Text)

-- `PiiMap::insert`
unfoldable pub insert_pii : Text → Text → PiiMap → PiiMap
insert_pii key value [] = (key, value) ∷ []
insert_pii key value ((k, v) ∷ map) =
    let rest = insert_pii key value map in
    if text_eq k key then (key, value) ∷ map else (k, v) ∷ rest

-- `PiiMap::detokenize`, over the entries in the order in which the map is walked.
unfoldable pub detokenize : PiiMap → Text → Text
detokenize [] s = s
detokenize ((key, value) ∷ map) s = detokenize map (replace key value s)

-- The matches of an expression in a text: each with the text before it, and the text after the last.
abbrev pub Pieces : Type 0
Pieces = List (Text × Text) × Text

abbrev pub join : List (Text × Text) → Text → Text
join [] rest = rest
join ((lit, found) ∷ pieces) rest = lit ++ (found ++ join pieces rest)

-- The crate `regex`: the matches of the pattern with a label, which with the texts between them are
-- the text that is searched.
pub record PiiTools : Type 0 where
  pub find_iter : Text → Text → Pieces
  pub join-find_iter : (label s : Text) → join (find_iter label s).0 (find_iter label s).1 ≡ s

-- The labels of `PII_PATTERNS`, in their order.
abbrev pub pii_patterns : List Text
pii_patterns = text "api_key" ∷ text "email" ∷ text "phone" ∷ text "cc" ∷ text "ip" ∷ []

-- `format!("[PII_{label}_{id}]")`
abbrev pub placeholder : Text → Text → Text
placeholder label id = text "[PII_" ++ (label ++ (text "_" ++ (id ++ text "]")))

-- A text under replacement: what has been made of it, the number of ids drawn, and the map.
pub record Masked : Type 0 where
  pub out : Text
  pub drawn : ℕ
  pub map : PiiMap

-- `pattern.replace_all`; `new_v4 i` is the text of the first eight digits of the id number `i`.
unfoldable pub replace_all : (ℕ → Text) → Text → List (Text × Text) → Text → ℕ → PiiMap → Masked
replace_all new_v4 label [] rest n map = record { out = rest; drawn = n; map = map }
replace_all new_v4 label ((lit, found) ∷ pieces) rest n map =
    let key = placeholder label (new_v4 n) in
    let m = replace_all new_v4 label pieces rest (suc n) (insert_pii key found map) in
    record m { out = lit ++ (key ++ m.out) }

unfoldable pub tokenise_by : PiiTools → (ℕ → Text) → List Text → Masked → Masked
tokenise_by tools new_v4 [] m = m
tokenise_by tools new_v4 (label ∷ labels) m =
    let (pieces, rest) = tools.find_iter label m.out in
    tokenise_by tools new_v4 labels (replace_all new_v4 label pieces rest m.drawn m.map)

unfoldable pub tokenise : PiiTools → (ℕ → Text) → Text → Text × PiiMap
tokenise tools new_v4 s =
    let m = tokenise_by tools new_v4 pii_patterns (record { out = s; drawn = 0; map = [] }) in
    (m.out, m.map)
