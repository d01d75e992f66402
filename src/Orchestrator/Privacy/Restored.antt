-- ===== src/Orchestrator/Privacy/Restored.antt =====
-- `tokenise` of orchestrator/src/privacy.rs and `PiiMap::detokenize` of common/src/types.rs.
use decentralized_hive_mind.Prelude.{
  ◌≡◌, refl, ap, false, Option, none, some, [], ◌∷◌, Text, text_eq, text_eq_sound, text_eq_refl,
  replace, All, In, inl, inr, ◌⊎◌, if◌then◌else◌, Option-cases, arith,
}
use decentralized_hive_mind.Orchestrator.Privacy.{PiiMap, insert_pii, detokenize}
use decentralized_hive_mind.Orchestrator.Privacy.Placeholders.{
  Masked, IsFree, IsKey, Masked-none, without, Masked-replace,
}

-- `HashMap::get`
abbrev pub lookup : PiiMap → Text → Option Text
lookup [] key = none
lookup ((k, v) ∷ map) key = if text_eq k key then some v else lookup map key

pub lookup-insert_pii :
    (k v : Text) (map : PiiMap) (key : Text)
    → lookup (insert_pii k v map) key ≡ (if text_eq k key then some v else lookup map key)
unfolding insert_pii
lookup-insert_pii k v [] key = refl
lookup-insert_pii k v ((j, w) ∷ map) key = ground (
  arith,
  lookup-insert_pii k v map key,
  text_eq_sound j k,
  text_eq_sound j key,
  text_eq_sound k key,
  text_eq_refl k,
  text_eq_refl key,
)

-- No key is walked twice.
abbrev IsOnce : PiiMap → Type 0
IsOnce [] = Unit
IsOnce ((k, _) ∷ entries) =
    All (λ (e : Text × Text). text_eq e.0 k ≡ false) entries × IsOnce entries

-- An order in which the entries of a map can be walked.
pub record Walks (map entries : PiiMap) : Type 0 where
  pub sound : All (λ (e : Text × Text). lookup map e.0 ≡ some (e.1)) entries
  pub full : (k v : Text) → lookup map k ≡ some v → In (k, v) entries
  pub once : IsOnce entries

-- A placeholder, and a value in which none begins.
abbrev pub IsEntry : Text × Text → Type 0
IsEntry (k, v) = IsKey k × IsFree v

-- The lookup without the keys that have been replaced.
abbrev after : PiiMap → (Text → Option Text) → Text → Option Text
after [] f = f
after ((k, _) ∷ entries) f = after entries (without k f)

after-none :
    (entries : PiiMap) (f : Text → Option Text) (key : Text)
    → (f key ≡ none) ⊎ ((v : Text) × In (key, v) entries)
    → after entries f key ≡ none
after-none [] f key (inl h) = h
after-none [] f key (inr (v, m)) = elim m [ ]
after-none ((k, w) ∷ entries) f key (inl h) =
    after-none entries (without k f) key (inl (ground arith))
after-none ((k, w) ∷ entries) f key (inr (v, inl e)) =
    let same : key ≡ k = ap (λ (p : Text × Text). p.0) e in
    after-none entries (without k f) key (inl (ground (arith, text_eq_refl k)))
after-none ((k, w) ∷ entries) f key (inr (v, inr m)) =
    after-none entries (without k f) key (inr (v, m))

still_known :
    (f : Text → Option Text) (k : Text) (entries : PiiMap)
    → All (λ (e : Text × Text). f e.0 ≡ some (e.1)) entries
    → All (λ (e : Text × Text). text_eq e.0 k ≡ false) entries
    → All (λ (e : Text × Text). without k f e.0 ≡ some (e.1)) entries
still_known f k [] h d = tt
still_known f k ((j, v) ∷ entries) h d = (ground arith, still_known f k entries h.1 d.1)

Masked-detokenize :
    (entries : PiiMap) (f : Text → Option Text) (t s : Text)
    → All IsEntry entries
    → All (λ (e : Text × Text). f e.0 ≡ some (e.1)) entries
    → IsOnce entries
    → Masked f t s
    → Masked (after entries f) (detokenize entries t) s
unfolding detokenize
Masked-detokenize [] f t s good known once m = m
Masked-detokenize ((k, v) ∷ entries) f t s good known once m =
    Masked-detokenize entries (without k f) (replace k v t) s good.1
      (still_known f k entries known.1 once.0) once.1
      (Masked-replace f k v good.0.0 good.0.1 known.0 m)

-- Every value is put back, in whatever order the map is walked.
pub detokenize-Masked :
    (map entries : PiiMap) (t s : Text)
    → Walks map entries
    → All IsEntry entries
    → Masked (lookup map) t s
    → detokenize entries t ≡ s
detokenize-Masked map entries t s w good m =
    Masked-none (after entries (lookup map))
      (λ key. after-none entries (lookup map) key (walked key))
      (Masked-detokenize entries (lookup map) t s good w.sound w.once m)
  where
    walked : (key : Text) → (lookup map key ≡ none) ⊎ ((v : Text) × In (key, v) entries)
    walked key = elim (Option-cases (lookup map key)) [
      | inl absent ↦ inl absent
      | inr (v, e) ↦ inr (v, w.full key v e)
    ]
