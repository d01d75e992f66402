-- ===== src/NodeClient/Effect.antt =====
-- `anyhow::Result` of the crate node-client, and code that reads and changes a state.
use decentralized_hive_mind.Prelude.{Option, none, some, Text}

-- An error is its context; a panic ends the program.
pub data Outcome (A : Type 0) : Type 0 where
  ok : A → Outcome A
  fail : Text → Outcome A
  panic : Outcome A

abbrev pub Effect : Type 0 → Type 0 → Type 0
Effect S A = S → Outcome A × S

module _ {S : Type 0} where
  unfoldable pub pure : {A : Type 0} → A → Effect S A
  pure a s = (ok a, s)

  unfoldable pub lift : {A : Type 0} → Outcome A → Effect S A
  lift o s = (o, s)

  -- `option.context(e)?`
  unfoldable pub context : {A : Type 0} → Option A → Text → Effect S A
  context none e s = (fail e, s)
  context (some a) e s = (ok a, s)

  -- `e?`
  infixl 5 ◌>>=◌ ◌>>◌
  unfoldable pub ◌>>=◌ : {A B : Type 0} → Effect S A → (A → Effect S B) → Effect S B
  ◌>>=◌ m f s =
      let (r, s') = m s in elim r [ ok a ↦ f a s' | fail e ↦ (fail e, s') | panic ↦ (panic, s') ]

  abbrev pub ◌>>◌ : {A B : Type 0} → Effect S A → Effect S B → Effect S B
  m >> k = m >>= λ _. k

-- Unfolding this name unfolds the effects.
unfoldable pub effects : Unit {0}
unfolding pure lift context ◌>>=◌
effects = tt
