-- ===== src/Orchestrator/Db/Contracts.antt =====
-- Contracts of actions: from a state of the tables that satisfies `P` an action ends with a value
-- and tables that satisfy `Q`, or with an error and tables that satisfy `I`, wherever a call fails.
use decentralized_hive_mind.Prelude.{
  arith, ◌≡◌, refl, Bool, true, false, Option, none, some, List, [], ◌∷◌, Text, if◌then◌else◌,
}
use decentralized_hive_mind.Orchestrator.Error.{AppError, AppResult, ok, err}
use decentralized_hive_mind.Orchestrator.Db.{
  Db, World, Action, fault_at, sql_at, pure, ◌>>=◌, lift, ok_or, guard, or_else, run, sql, actions,
}

module _ {F : Type 0} where
  abbrev Holds :
      {A : Type 0} → (A → Db F → Type 0) → (Db F → Type 0) → AppResult A × World F → Type 0
  Holds Q I (ok a, w) = Q a w.db
  Holds Q I (err e, w) = I w.db

  pub record Contract {A : Type 0} (P : Db F → Type 0) (m : Action F A) (Q : A → Db F → Type 0)
      (I : Db F → Type 0) : Type 0 where
    pub holds : (w : World F) → P w.db → Holds Q I (m w)

  -- What a statement promises, if it runs.
  abbrev pub Promises :
      {A : Type 0} → (A → Db F → Type 0) → (Db F → Type 0) → Db F → Option (A × Db F) → Type 0
  Promises Q I db none = I db
  Promises Q I db (some (a, db')) = Q a db'

module _ {F : Type 0} {A : Type 0} (Q : A → Db F → Type 0) (I : Db F → Type 0) where
  -- A statement that runs if a constraint holds.
  pub Promises-if :
      (b : Bool) (db : Db F) (a : A) (db' : Db F)
      → I db
      → Q a db'
      → Promises Q I db (if b then some (a, db') else none)
  Promises-if true db a db' i q = q
  Promises-if false db a db' i q = i

  -- The same with the constraint's failure first.
  pub Promises-unless :
      (b : Bool) (db : Db F) (a : A) (db' : Db F)
      → I db
      → Q a db'
      → Promises Q I db (if b then none else some (a, db'))
  Promises-unless true db a db' i q = i
  Promises-unless false db a db' i q = q

Holds-weaken :
    {F A : Type 0} (Q Q' : A → Db F → Type 0) (I : Db F → Type 0)
    → ((a : A) (db : Db F) → Q a db → Q' a db)
    → (r : AppResult A) (w : World F) → Holds Q I (r, w)
    → Holds Q' I (r, w)
Holds-weaken Q Q' I weaken (ok a) w h = weaken a w.db h
Holds-weaken Q Q' I weaken (err e) w h = h

module _ {F : Type 0} {A : Type 0} (Q : A → Db F → Type 0) (I : Db F → Type 0) where
  Holds-run : (o : Option (A × Db F)) (w : World F) → Promises Q I w.db o → Holds Q I (run o w)
  Holds-run none w q = q
  Holds-run (some (a, db)) w q = q

  Holds-sql_at :
      (stmt : Db F → Option (A × Db F)) (faults : List (Option Text)) (w : World F)
      → I w.db
      → Promises Q I w.db (stmt w.db)
      → Holds Q I (sql_at stmt (fault_at faults w))
  Holds-sql_at stmt [] w i q = Holds-run (stmt w.db) w q
  Holds-sql_at stmt (none ∷ rest) w i q = Holds-run (stmt w.db) (record w { faults = rest }) q
  Holds-sql_at stmt (some msg ∷ rest) w i q = i

module _ {F : Type 0} {A : Type 0} {P : Db F → Type 0} {Q : A → Db F → Type 0}
    {I : Db F → Type 0} where
  pub sql_rule :
      (stmt : Db F → Option (A × Db F))
      → ((db : Db F) → P db → I db)
      → ((db : Db F) → P db → Promises Q I db (stmt db))
      → Contract P (sql stmt) Q I
  unfolding actions
  sql_rule stmt i q = record {
    holds = λ w p. Holds-sql_at Q I stmt w.faults w (i w.db p) (q w.db p);
  }

  pub pure_rule : (a : A) → ((db : Db F) → P db → Q a db) → Contract P (pure a) Q I
  unfolding actions
  pure_rule a q = record { holds = λ w p. q w.db p }

  pub ok_or_rule :
      (o : Option A) (e : AppError)
      → ((db : Db F) → P db → I db)
      → ((a : A) (db : Db F) → o ≡ some a → P db → Q a db)
      → Contract P (ok_or o e) Q I
  unfolding actions
  ok_or_rule none e i q = record { holds = λ w p. i w.db p }
  ok_or_rule (some a) e i q = record { holds = λ w p. q a w.db refl p }

  pub lift_rule :
      (r : AppResult A)
      → ((db : Db F) → P db → I db)
      → ((a : A) (db : Db F) → r ≡ ok a → P db → Q a db)
      → Contract P (lift r) Q I
  unfolding actions
  lift_rule (ok a) i q = record { holds = λ w p. q a w.db refl p }
  lift_rule (err e) i q = record { holds = λ w p. i w.db p }

  -- A weaker start, and the same promises.
  pub pre_rule :
      {P' : Db F → Type 0} (m : Action F A)
      → ((db : Db F) → P' db → P db)
      → Contract P m Q I
      → Contract P' m Q I
  pre_rule m weaken c = record { holds = λ w p. c.holds w (weaken w.db p) }

  -- The same start, and weaker promises.
  pub post_rule :
      {Q' : A → Db F → Type 0} (m : Action F A)
      → ((a : A) (db : Db F) → Q a db → Q' a db)
      → Contract P m Q I
      → Contract P m Q' I
  post_rule {Q'} m weaken c = record {
    holds = λ w p. Holds-weaken Q Q' I weaken (m w).0 (m w).1 (c.holds w p);
  }

  -- A fact that is not about the tables.
  pub frame_rule :
      (C : Type 0) (m : Action F A)
      → Contract P m Q I
      → Contract (λ db. C × P db) m (λ a db. C × Q a db) I
  frame_rule C m k = record {
    holds = λ w p.
        Holds-weaken Q (λ a db. C × Q a db) I (λ a db q. (p.0, q)) (m w).0 (m w).1 (k.holds w p.1);
  }

  -- Both branches of a test, each with its outcome.
  pub if_rule :
      (b : Bool) (m n : Action F A)
      → (b ≡ true → Contract P m Q I)
      → (b ≡ false → Contract P n Q I)
      → Contract P (if b then m else n) Q I
  if_rule true m n t f = t refl
  if_rule false m n t f = f refl

module _ {F : Type 0} {P : Db F → Type 0} {Q : Unit {0} → Db F → Type 0} {I : Db F → Type 0} where
  pub guard_rule :
      (b : Bool) (e : AppError)
      → ((db : Db F) → P db → I db)
      → ((db : Db F) → b ≡ true → P db → Q tt db)
      → Contract P (guard b e) Q I
  unfolding actions
  guard_rule true e i q = record { holds = λ w p. q w.db refl p }
  guard_rule false e i q = record { holds = λ w p. i w.db p }

module _ {F : Type 0} {A B : Type 0} (I : Db F → Type 0) where
  Holds-bind :
      (Q : A → Db F → Type 0) (R : B → Db F → Type 0) (f : A → Action F B)
      → ((a : A) → Contract (Q a) (f a) R I)
      → (r : AppResult A) (w : World F) → Holds Q I (r, w)
      → Holds R I (elim r [ ok a ↦ f a w | err e ↦ (err e, w) ])
  Holds-bind Q R f c (ok a) w h = (c a).holds w h
  Holds-bind Q R f c (err e) w h = h

module _ {F : Type 0} {A B : Type 0} {P I : Db F → Type 0} where
  pub bind_rule :
      {Q : A → Db F → Type 0} {R : B → Db F → Type 0} (m : Action F A) (f : A → Action F B)
      → Contract P m Q I
      → ((a : A) → Contract (Q a) (f a) R I)
      → Contract P (m >>= f) R I
  unfolding actions
  bind_rule {Q} {R} m f c k = record {
    holds = λ w p. Holds-bind I Q R f k (m w).0 (m w).1 (c.holds w p);
  }

module _ {F : Type 0} {A : Type 0} {P : Db F → Type 0} {I : Db F → Type 0} where
  -- A caught failure leaves the tables where the invariant puts them.
  pub or_else_rule :
      {Q : Db F → Type 0} (m : Action F A) (d : A)
      → Contract P m (λ _. Q) Q
      → Contract P (or_else m d) (λ _. Q) I
  unfolding actions
  or_else_rule {Q} m d c = record { holds = λ w p. go (m w).0 (m w).1 (c.holds w p) }
    where
      go :
          (r : AppResult A) (w : World F)
          → Holds {A = A} (λ _. Q) Q (r, w)
          → Holds {A = A} (λ _. Q) I (elim r [ ok a ↦ (ok a, w) | err e ↦ (ok d, w) ])
      go (ok a) w h = h
      go (err e) w h = h

-- The table state that an action whose contract promises `I` at both ends leaves.
pub kept :
    {F A : Type 0} {P I : Db F → Type 0} (m : Action F A)
    → Contract P m (λ _. I) I
    → (w : World F) → P w.db
    → I (m w).1.db
kept {F} {A} {P} {I} m c w p = go (m w).0 (m w).1 (c.holds w p)
  where
    go : (r : AppResult A) (w : World F) → Holds {A = A} (λ _. I) I (r, w) → I w.db
    go (ok a) w h = h
    go (err e) w h = h

-- No condition.
abbrev pub Anything : {F : Type 0} → Db F → Type 0
Anything db = Unit {0}

-- The promise of a contract whose action has returned a value.
pub returned :
    {F A : Type 0} {P : Db F → Type 0} {Q : A → Db F → Type 0} (m : Action F A)
    → Contract P m Q Anything
    → (w : World F) → P w.db
    → (a : A) → (m w).0 ≡ ok a
    → Q a (m w).1.db
returned {F} {A} {P} {Q} m c w p a e = go (m w).0 (m w).1 (c.holds w p) e
  where
    go : (r : AppResult A) (w : World F) → Holds Q Anything (r, w) → r ≡ ok a → Q a w.db
    go (ok b) w h e = let same : b ≡ a = ground arith in rw⁻¹ same h
    go (err e) w h e' = cc
