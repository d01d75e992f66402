-- ===== src/Orchestrator/Privacy/Clean.antt =====
-- A text that orchestrator/src/privacy.rs finds nothing in.
use decentralized_hive_mind.Prelude.{ℕ, ◌≡◌, refl, List, [], ◌∷◌, Text, arith}
use decentralized_hive_mind.Orchestrator.Privacy.{
  PiiTools, replace_all, tokenise_by, tokenise, pii_patterns,
}

module _ (tools : PiiTools) (new_v4 : ℕ → Text) (s : Text)
    (clean : (label : Text) → (tools.find_iter label s).0 ≡ []) where
  rest-clean : (label : Text) → (tools.find_iter label s).1 ≡ s
  rest-clean label = ground (arith, clean label, tools.join-find_iter label s)

  tokenise_by-clean :
      (labels : List Text)
      → tokenise_by tools new_v4 labels (record { out = s; drawn = 0; map = [] })
        ≡ record { out = s; drawn = 0; map = [] }
  unfolding tokenise_by replace_all
  tokenise_by-clean [] = refl
  tokenise_by-clean (label ∷ labels) = rw (clean label, rest-clean label) (tokenise_by-clean labels)

  -- A text in which no expression has a match is stored as it is, and the map stays empty.
  tokenise-clean : tokenise tools new_v4 s ≡ (s, [])
  unfolding tokenise
  tokenise-clean = rw (tokenise_by-clean pii_patterns) refl
