-- ===== src/Orchestrator/Tests/Private.antt =====
-- An example of the placeholders.
use mathlib.Core.List.{append_assoc}
use decentralized_hive_mind.Prelude.{
  All, All-append, All-In, List, subst, sym, Bool, In, Bool-cases, text_eq_sound, ℕ, ◌+◌, ◌%◌, ◌≡◌,
  ◌<◌, refl, ap, ◌∙◌, true, false, Option, some, [], ◌∷◌, ◌++◌, Text, text, text_eq, replicate,
  ◌==◌, ◌&&◌, inl, inr, arith,
}
use decentralized_hive_mind.Orchestrator.Privacy.{
  pii_patterns, PiiMap, PiiTools, Pieces, join, placeholder, tokenise_by, tokenise, detokenize,
  insert_pii, replace_all,
}
use decentralized_hive_mind.Orchestrator.Privacy.Placeholders.{Masked, IsKey, done, letter, hidden}
use decentralized_hive_mind.Orchestrator.Privacy.Drawn.{IsHex, IsPlaceholder}
use decentralized_hive_mind.Orchestrator.Privacy.Restored.{lookup, Walks}
use decentralized_hive_mind.Orchestrator.Privacy.Replaced.{IsCut, detokenize-tokenise}

-- An address is the sign `@`, wherever it stands.
abbrev push : ℕ → Pieces → Pieces
push c ([], rest) = ([], c ∷ rest)
push c ((lit, found) ∷ pieces, rest) = ((c ∷ lit, found) ∷ pieces, rest)

abbrev step : Bool → ℕ → Pieces → Pieces
step true c (pieces, rest) = (([], c ∷ []) ∷ pieces, rest)
step false c p = push c p

abbrev is_match : Text → ℕ → Bool
is_match label c = text_eq label (text "email") && (c == b'@')

abbrev find_iter : Text → Text → Pieces
find_iter label [] = ([], [])
find_iter label (c ∷ s) = step (is_match label c) c (find_iter label s)

join-step : (b : Bool) (c : ℕ) (p : Pieces) → join (step b c p).0 (step b c p).1 ≡ c ∷ join p.0 p.1
join-step true c (pieces, rest) = refl
join-step false c ([], rest) = refl
join-step false c ((lit, found) ∷ pieces, rest) = refl

join-find_iter : (label s : Text) → join (find_iter label s).0 (find_iter label s).1 ≡ s
join-find_iter label [] = refl
join-find_iter label (c ∷ s) =
    join-step (is_match label c) c (find_iter label s)
    ∙ ap (λ (t : Text). c ∷ t) (join-find_iter label s)

abbrev tools : PiiTools
tools = record { find_iter = find_iter; join-find_iter = join-find_iter }

no_bracket : (c : ℕ) → (c == b'@') ≡ true → (c == b'[') ≡ false
no_bracket c h = ground arith

abbrev head : Text → ℕ
head [] = 0
head (a ∷ x) = a

-- No sign `@` is in a placeholder.
abbrev IsClear : Text → Type 0
IsClear = All (λ c. (c == b'@') ≡ false)

IsClear-IsHex : (s : Text) → IsHex s → IsClear s
IsClear-IsHex [] h = tt
IsClear-IsHex (c ∷ s) h = let digit = h.0 in (ground arith, IsClear-IsHex s h.1)

labels-IsClear : All IsClear pii_patterns
labels-IsClear = ground arith

IsClear-IsPlaceholder : (key : Text) → IsPlaceholder key → IsClear key
IsClear-IsPlaceholder key (label, id, m, size, hex, e) =
    let clear : ℕ → Type 0 = λ c. (c == b'@') ≡ false in
    subst IsClear (sym e) (
      All-append clear (text "[PII_") (label ++ (text "_" ++ (id ++ text "]"))) (ground arith) (
        All-append clear label (text "_" ++ (id ++ text "]"))
          (All-In IsClear pii_patterns label labels-IsClear m)
          (All-append clear (text "_") (id ++ text "]") (ground arith)
            (All-append clear id (text "]") (IsClear-IsHex id hex) (ground arith)))))

module _ (label : Text) (value : Text → Option Text) where
  push-IsCut :
      (c : ℕ) (p : Pieces) (s : Text)
      → (c == b'[') ≡ false
      → IsCut value p.0 p.1 s
      → IsCut value (push c p).0 (push c p).1 (c ∷ s)
  push-IsCut c ([], rest) s h m = letter c h m
  push-IsCut c ((lit, found) ∷ pieces, rest) s h (x, y, m, free, cut, e) =
      (c ∷ x, y, letter c h m, free, cut, ap (λ (t : Text). c ∷ t) e)

  step-IsCut :
      (b : Bool) (c : ℕ) (p : Pieces) (s : Text)
      → (c == b'[') ≡ false
      → IsCut value p.0 p.1 s
      → IsCut value (step b c p).0 (step b c p).1 (c ∷ s)
  step-IsCut true c (pieces, rest) s h m = ([], s, done, (h, tt), m, refl)
  step-IsCut false c p s h m = push-IsCut c p s h m

  abbrev push_all : Text → Pieces → Pieces
  push_all [] p = p
  push_all (c ∷ s) p = push c (push_all s p)

  find_iter-clear :
      (key t : Text) → IsClear key → find_iter label (key ++ t) ≡ push_all key (find_iter label t)
  find_iter-clear [] t h = refl
  find_iter-clear (c ∷ key) t h =
      let none_here : is_match label c ≡ false = ground (arith, h.0) in
      rw none_here (ap (push c) (find_iter-clear key t h.1))

  push_all_none : (key rest : Text) → push_all key ([], rest) ≡ ([], key ++ rest)
  push_all_none [] rest = refl
  push_all_none (c ∷ key) rest = rw (push_all_none key rest) refl

  push_all_some :
      (key lit found rest : Text) (pieces : List (Text × Text))
      → push_all key ((lit, found) ∷ pieces, rest) ≡ ((key ++ lit, found) ∷ pieces, rest)
  push_all_some [] lit found rest pieces = refl
  push_all_some (c ∷ key) lit found rest pieces = rw (push_all_some key lit found rest pieces) refl

  push_all-IsCut :
      (key v : Text) (p : Pieces) (s : Text)
      → IsKey key
      → value key ≡ some v
      → IsCut value p.0 p.1 s
      → IsCut value (push_all key p).0 (push_all key p).1 (v ++ s)
  push_all-IsCut key v ([], rest) s k e m =
      rw (push_all_none key rest) (hidden key v k e m refl refl)
  push_all-IsCut key v ((lit, found) ∷ pieces, rest) s k e (x, y, m, free, cut, q) =
      rw (push_all_some key lit found rest pieces) (
        v ++ x,
        y,
        hidden key v k e m refl refl,
        free,
        cut,
        ap (λ (t : Text). v ++ t) q ∙ sym (append_assoc v x (found ++ y)),
      )

  find_iter-IsCut :
      ((key v : Text) → value key ≡ some v → IsPlaceholder key)
      → {t s : Text} → Masked value t s
      → IsCut value (find_iter label t).0 (find_iter label t).1 s
  find_iter-IsCut keys done = done
  find_iter-IsCut keys (letter {t = t} {s = s} c h m) =
      step-IsCut (is_match label c) c (find_iter label t) s h (find_iter-IsCut keys m)
  find_iter-IsCut keys (hidden {t = t} {s = s} {t' = t'} {s' = s'} key v k e m p q) =
      let clear = IsClear-IsPlaceholder key (keys key v e) in
      let found : find_iter label t' ≡ push_all key (find_iter label t) =
        ap (find_iter label) p ∙ find_iter-clear key t clear in
      subst (λ (u : Text). IsCut value (find_iter label t').0 (find_iter label t').1 u) (sym q)
        (subst (λ (u : Pieces). IsCut value u.0 u.1 (v ++ s)) (sym found)
          (push_all-IsCut key v (find_iter label t) s k e (find_iter-IsCut keys m)))

abbrev new_v4 : ℕ → Text
new_v4 i = (b'0' + i % 10) ∷ replicate 7 b'0'

abbrev entries : PiiMap
entries = (placeholder (text "email") (new_v4 0), text "@") ∷ []

kept : (tokenise tools new_v4 (text "a@b")).1 ≡ entries
unfolding tokenise tokenise_by replace_all insert_pii
kept = refl

walks : Walks entries entries
walks = record { sound = (refl, tt); full = λ k v e. only k v e; once = (tt, tt) }
  where
    only : (k v : Text) → lookup entries k ≡ some v → In (k, v) entries
    only k v e = elim (Bool-cases (text_eq (placeholder (text "email") (new_v4 0)) k)) [
      | inl same ↦ inl (cc (text_eq_sound (placeholder (text "email") (new_v4 0)) k same))
      | inr other ↦ cc
    ]

differ : (i k : ℕ) → i < 2 → k < 2 → new_v4 i ≡ new_v4 k → i ≡ k
differ i k bi bk e = omega (arith, ap head e)

detokenize-tokenise_example : detokenize entries (tokenise tools new_v4 (text "a@b")).0 ≡ text "a@b"
unfolding tokenise tokenise_by replace_all insert_pii
detokenize-tokenise_example =
    detokenize-tokenise tools new_v4 (λ i. ground arith) (λ i. refl) 2
      (λ i k bi bk e. differ i k bi bk e)
      (λ label t s value l keys m. find_iter-IsCut label value keys m) (text "a@b") entries
      ((refl, (refl, (refl, tt)))) (omega arith) walks
