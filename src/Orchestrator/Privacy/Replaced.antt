-- ===== src/Orchestrator/Privacy/Replaced.antt =====
-- What `tokenise` of orchestrator/src/privacy.rs makes of a text. Of the expressions there, none
-- matches a bracket, so that a match lies inside a placeholder or outside of all; and none matches
-- inside of one, a label and eight hexadecimal digits: an address needs `@`, an IP address dots, a
-- telephone number eleven digits, a card number thirteen, a key twenty characters after `api_key`.
use decentralized_hive_mind.Prelude.{
  ℕ, suc, ◌≡◌, ◌<◌, refl, sym, subst, Option, some, List, [], ◌∷◌, ◌++◌, length, Text, text_eq,
  text_eq_sound, text_eq_refl, All, All-mono, ◌≤◌, inl, inr, Bool-cases, arith, In, All-In,
}
use decentralized_hive_mind.Orchestrator.Privacy
use decentralized_hive_mind.Orchestrator.Privacy.{
  PiiMap, insert_pii, PiiTools, placeholder, pii_patterns, replace_all, tokenise_by, tokenise,
  detokenize,
}
use decentralized_hive_mind.Orchestrator.Privacy.Placeholders.{
  Masked, IsFree, IsPlain, IsKey, hidden, Masked-free, Masked-append, Masked-mono,
}
use decentralized_hive_mind.Orchestrator.Privacy.Restored.{
  lookup, lookup-insert_pii, IsEntry, Walks, detokenize-Masked,
}
use decentralized_hive_mind.Orchestrator.Privacy.Drawn.{
  IsHex, IsPlaceholder, lookup-IsPlaceholder, placeholder-IsKey, IsDrawn, IsDrawn-later, fresh,
  All-insert_pii, Extends, insert_pii-Extends,
}

-- A text that is cut at matches: the parts between them stand for texts, and no placeholder begins in
-- a match.
abbrev pub IsCut : (Text → Option Text) → List (Text × Text) → Text → Text → Type 0
IsCut value [] rest s = Masked value rest s
IsCut value ((lit, found) ∷ pieces) rest s =
    (x : Text) × (y : Text) × Masked value lit x
    × IsFree found
    × IsCut value pieces rest y
    × (s ≡ x ++ (found ++ y))

IsCut-mono :
    (f g : Text → Option Text) (pieces : List (Text × Text)) (rest s : Text)
    → ((key v : Text) → f key ≡ some v → g key ≡ some v)
    → IsCut f pieces rest s
    → IsCut g pieces rest s
IsCut-mono f g [] rest s sub m = Masked-mono f g sub m
IsCut-mono f g ((lit, found) ∷ pieces) rest s sub (x, y, m, free, cut, e) =
    (x, y, Masked-mono f g sub m, free, IsCut-mono f g pieces rest y sub cut, e)

labels_plain : All IsPlain pii_patterns
labels_plain = ground arith

module _ (tools : PiiTools) (new_v4 : ℕ → Text) (ids_hex : (i : ℕ) → IsHex (new_v4 i))
    (ids_short : (i : ℕ) → length (new_v4 i) ≡ 8) (bound : ℕ)
    (ids_differ : (i k : ℕ) → i < bound → k < bound → new_v4 i ≡ new_v4 k → i ≡ k)
    (matches_outside : (label t s : Text) (value : Text → Option Text)
      → In label pii_patterns
      → ((key v : Text) → value key ≡ some v → IsPlaceholder key)
      → Masked value t s
      → IsCut value (tools.find_iter label t).0 (tools.find_iter label t).1 s) where
  drawn-replace_all :
      (label : Text) (pieces : List (Text × Text)) (rest : Text) (n : ℕ) (map : PiiMap)
      → n ≤ (replace_all new_v4 label pieces rest n map).drawn
  unfolding replace_all
  drawn-replace_all label [] rest n map = omega arith
  drawn-replace_all label ((lit, found) ∷ pieces) rest n map =
      let key = placeholder label (new_v4 n) in
      omega (arith, drawn-replace_all label pieces rest (suc n) (insert_pii key found map))

  drawn-tokenise_by :
      (labels : List Text) (m : Privacy.Masked)
      → m.drawn ≤ (tokenise_by tools new_v4 labels m).drawn
  unfolding tokenise_by
  drawn-tokenise_by [] m = omega arith
  drawn-tokenise_by (label ∷ labels) m =
      let (pieces, rest) = tools.find_iter label m.out in
      let next = replace_all new_v4 label pieces rest m.drawn m.map in
      omega
        (arith, drawn-replace_all label pieces rest m.drawn m.map, drawn-tokenise_by labels next)

  replace_all-Masked :
      (label : Text) (pieces : List (Text × Text)) (rest : Text) (n : ℕ) (map : PiiMap) (s : Text)
      → In label pii_patterns
      → (replace_all new_v4 label pieces rest n map).drawn ≤ bound
      → All (IsDrawn new_v4 n) map
      → IsCut (lookup map) pieces rest s
      → let m = replace_all new_v4 label pieces rest n map in
        All (IsDrawn new_v4 m.drawn) m.map × Masked (lookup m.map) m.out s × Extends map m.map
  unfolding replace_all
  replace_all-Masked label [] rest n map s p few good cut = (good, cut, λ key v e. e)
  replace_all-Masked label ((lit, found) ∷ pieces) rest n map s p few good cut =
      let (x, y, m, free, later, whole) = cut in
      let key = placeholder label (new_v4 n) in
      let later_ids = drawn-replace_all label pieces rest (suc n) (insert_pii key found map) in
      let absent = fresh new_v4 ids_short bound ids_differ label n map (omega arith) good in
      let entry =
        placeholder-IsKey new_v4 ids_hex label n
          (All-In IsPlain pii_patterns label labels_plain p) in
      let map₁ = insert_pii key found map in
      let grown = insert_pii-Extends key found map absent in
      let good₁ =
        All-insert_pii (IsDrawn new_v4 (suc n)) key found map
          ((entry, free), (label, p, n, omega arith, refl))
          (All-mono (IsDrawn new_v4 n) (IsDrawn new_v4 (suc n)) map (IsDrawn-later new_v4 n) good)
          absent in
      let (goods, masked, grows) =
        replace_all-Masked label pieces rest (suc n) map₁ y p few good₁
          (IsCut-mono (lookup map) (lookup map₁) pieces rest y grown later) in
      let last = replace_all new_v4 label pieces rest (suc n) map₁ in
      let here : lookup last.map key ≡ some found =
        grows key found (ground (arith, lookup-insert_pii key found map key, text_eq_refl key)) in
      (
        goods,
        subst (λ (u : Text). Masked (lookup last.map) (lit ++ (key ++ last.out)) u) (sym whole)
            (Masked-append (lookup last.map) (key ++ last.out) (found ++ y)
              (Masked-mono (lookup map) (lookup last.map) (λ k v e. grows k v (grown k v e)) m)
              (hidden key found entry here masked refl refl)),
        λ k v e. grows k v (grown k v e),
      )

  tokenise_by-Masked :
      (labels : List Text) (m : Privacy.Masked) (s : Text)
      → All (λ l. In l pii_patterns) labels
      → (tokenise_by tools new_v4 labels m).drawn ≤ bound
      → All (IsDrawn new_v4 m.drawn) m.map
      → Masked (lookup m.map) m.out s
      → let m' = tokenise_by tools new_v4 labels m in
        All (IsDrawn new_v4 m'.drawn) m'.map × Masked (lookup m'.map) m'.out s
  unfolding tokenise_by
  tokenise_by-Masked [] m s p few good masked = (good, masked)
  tokenise_by-Masked (label ∷ labels) m s p few good masked =
      let (pieces, rest) = tools.find_iter label m.out in
      let next = replace_all new_v4 label pieces rest m.drawn m.map in
      let enough = drawn-tokenise_by labels next in
      let keys = lookup-IsPlaceholder new_v4 ids_hex ids_short m.drawn m.map good in
      let cut = matches_outside label m.out s (lookup m.map) p.0 keys masked in
      let (goods, masks, grows) =
        replace_all-Masked label (tools.find_iter label m.out).0 (tools.find_iter label m.out).1
          m.drawn m.map s p.0 (omega arith) good cut in
      tokenise_by-Masked labels next s p.1 few goods masks

  labels_known : All (λ (l : Text). In l pii_patterns) pii_patterns
  labels_known = (
    inl refl,
    (
      inr (inl refl),
      (inr (inr (inl refl)), (inr (inr (inr (inl refl))), (inr (inr (inr (inr (inl refl)))), tt))),
    ),
  )

  lookup-IsEntry :
      (n : ℕ) (map : PiiMap) (k v : Text)
      → All (IsDrawn new_v4 n) map
      → lookup map k ≡ some v
      → IsEntry (k, v)
  lookup-IsEntry n [] k v h e = cc
  lookup-IsEntry n ((j, w) ∷ map) k v h e = elim (Bool-cases (text_eq j k)) [
    | inl same ↦
        let keys = text_eq_sound j k same in
        let values : w ≡ v = ground arith in (subst IsKey keys h.0.0.0, subst IsFree values h.0.0.1)
    | inr other ↦ lookup-IsEntry n map k v h.1 (ground arith)
  ]

  entries_good :
      (n : ℕ) (map entries : PiiMap)
      → All (IsDrawn new_v4 n) map
      → All (λ (e : Text × Text). lookup map e.0 ≡ some (e.1)) entries
      → All IsEntry entries
  entries_good n map [] h e = tt
  entries_good n map ((k, v) ∷ entries) h e =
      (lookup-IsEntry n map k v h e.0, entries_good n map entries h e.1)

  -- Tokenising and detokenising gives the text back, in whatever order the map is walked, if no
  -- opening bracket is in the text, the ids that are drawn are of eight hexadecimal digits and differ
  -- from each other, and in a text whose only bracketed values are placeholders (a label of the
  -- patterns and such an id) no match has an opening bracket in it or touches a placeholder.
  pub detokenize-tokenise :
      (s : Text) (entries : PiiMap)
      → IsFree s
      → (tokenise_by tools new_v4 pii_patterns (record { out = s; drawn = 0; map = [] })).drawn
        ≤ bound
      → Walks (tokenise tools new_v4 s).1 entries
      → detokenize entries (tokenise tools new_v4 s).0 ≡ s
  unfolding tokenise
  detokenize-tokenise s entries free few w =
      let start : Privacy.Masked = record { out = s; drawn = 0; map = [] } in
      let (goods, masked) =
        tokenise_by-Masked pii_patterns start s labels_known few tt
          (Masked-free (lookup []) s free) in
      let m = tokenise_by tools new_v4 pii_patterns start in
      detokenize-Masked m.map entries m.out s w (entries_good m.drawn m.map entries goods w.sound)
        masked
