-- ===== src/Orchestrator/Db.antt =====
-- orchestrator/migrations/001_initial.sql and orchestrator/src/state.rs: the tables, the Redis
-- stream, and handlers as actions on them. A call of PostgreSQL or Redis may fail; the failures
-- that are to come are a list in the world, one entry for each call, and calls past its end succeed.
-- No handler opens a transaction, so what was written before a failure stays written.
pub mod Rows
pub mod Contracts
use decentralized_hive_mind.Prelude.{
  ℕ, Bool, true, false, not, ◌&&◌, Option, none, some, List, [], ◌∷◌, ◌++◌, map, find, any, Text,
  Bytes, text, text_eq, is_some, ◌==◌, if◌then◌else◌,
}
use decentralized_hive_mind.Prelude.Int.{ℤ}
use decentralized_hive_mind.Common.Types.{
  Uuid, DateTime, NodeCapabilities, SubTaskStatus, CreditReceipt,
}
use decentralized_hive_mind.Orchestrator.Error.{AppError, AppResult, ok, err, database}

pub record NodeRow (F : Type 0) : Type 0 where
  pub id : Uuid
  pub pubkey_hex : Text
  pub capabilities : NodeCapabilities
  pub tier : Text
  pub reputation_score : F
  pub jobs_completed : ℕ
  pub is_banned : Bool
  pub ban_reason : Option Text
  pub ban_expires_at : Option DateTime
  pub registered_at : DateTime
  pub last_seen_at : DateTime

pub data JobStatus : Type 0 where
  job_pending job_running job_complete job_failed : JobStatus

pub record JobRow (F : Type 0) : Type 0 where
  pub id : Uuid
  pub submitter_pubkey_hex : Text
  pub prompt_encrypted : Bytes
  pub model_hint : Option Text
  pub budget_cap_credits : F
  pub tier : Text
  pub deadline_at : DateTime
  pub status : JobStatus
  pub total_cost_credits : Option F
  pub created_at : DateTime
  pub updated_at : DateTime
  pub completed_at : Option DateTime

pub record SubTaskRow : Type 0 where
  pub id : Uuid
  pub job_id : Uuid
  pub role : Text
  pub prompt_shard : Text
  pub min_tier : Text
  pub position : ℕ
  pub agent_index : ℕ
  pub assigned_node_id : Option Uuid
  pub status : SubTaskStatus
  pub result : Option Text
  pub proof_hash_hex : Option Text
  pub tokens_in : Option ℤ
  pub tokens_out : Option ℤ
  pub retry_count : ℕ
  pub created_at : DateTime
  pub updated_at : DateTime
  pub completed_at : Option DateTime

pub data EventType : Type 0 where
  task_complete task_fail ban : EventType

pub record ReputationEvent (F : Type 0) : Type 0 where
  pub node_id : Uuid
  pub event_type : EventType
  pub delta : F
  pub reason : Text
  pub occurred_at : DateTime

pub record NonceRow : Type 0 where
  pub nonce_hex : Text
  pub used_at : DateTime
  pub expires_at : DateTime

pub record Db (F : Type 0) : Type 0 where
  pub nodes : List (NodeRow F)
  pub jobs : List (JobRow F)
  pub sub_tasks : List SubTaskRow
  -- `redeemed_at` is never written, and is left out.
  pub credit_receipts : List (CreditReceipt F)
  pub reputation_events : List (ReputationEvent F)
  pub request_nonces : List NonceRow

-- The payload of an entry of the Redis stream `subtasks`.
pub record StreamEntry : Type 0 where
  pub task_id : Uuid
  pub job_id : Uuid
  pub role : Text
  pub prompt_shard : Text
  pub min_tier : Text
  pub agent_index : ℕ

pub record World (F : Type 0) : Type 0 where
  pub db : Db F
  pub stream : List StreamEntry
  pub faults : List (Option Text)

abbrev pub Action : Type 0 → Type 0 → Type 0
Action F A = World F → AppResult A × World F

-- The outcome of the next call, and the world in which it has been taken.
abbrev pub fault_at : {F : Type 0} → List (Option Text) → World F → Option Text × World F
fault_at [] w = (none, w)
fault_at (o ∷ rest) w = (o, record w { faults = rest })

abbrev pub next_fault : {F : Type 0} → World F → Option Text × World F
next_fault w = fault_at w.faults w

module _ {F : Type 0} where
  unfoldable pub pure : {A : Type 0} → A → Action F A
  pure a w = (ok a, w)

  -- `e.await?` and `e?`
  infixl 5 ◌>>=◌ ◌>>◌
  unfoldable pub ◌>>=◌ : {A B : Type 0} → Action F A → (A → Action F B) → Action F B
  ◌>>=◌ m f w = let (r, w') = m w in elim r [ ok a ↦ f a w' | err e ↦ (err e, w') ]

  abbrev pub ◌>>◌ : {A B : Type 0} → Action F A → Action F B → Action F B
  m >> k = m >>= λ _. k

  unfoldable pub lift : {A : Type 0} → AppResult A → Action F A
  lift r w = (r, w)

  -- `option.ok_or(e)?`
  unfoldable pub ok_or : {A : Type 0} → Option A → AppError → Action F A
  ok_or none e w = (err e, w)
  ok_or (some a) e w = (ok a, w)

  unfoldable pub guard : Bool → AppError → Action F (Unit {0})
  guard true e w = (ok tt, w)
  guard false e w = (err e, w)

  -- `e.await.unwrap_or(d)`
  unfoldable pub or_else : {A : Type 0} → Action F A → A → Action F A
  or_else m d w = let (r, w') = m w in elim r [ ok a ↦ (ok a, w') | err e ↦ (ok d, w') ]

  -- What PostgreSQL makes of a statement that did not fail to run: `none` is a constraint that it
  -- would break.
  abbrev pub run : {A : Type 0} → Option (A × Db F) → World F → AppResult A × World F
  run none w = (err (database (text "constraint violated")), w)
  run (some (a, db)) w = (ok a, record w { db = db })

  abbrev pub sql_at :
      {A : Type 0} → (Db F → Option (A × Db F)) → Option Text × World F → AppResult A × World F
  sql_at stmt (none, w) = run (stmt w.db) w
  sql_at stmt (some msg, w) = (err (database msg), w)

  -- One SQL statement.
  unfoldable pub sql : {A : Type 0} → (Db F → Option (A × Db F)) → Action F A
  sql stmt w = sql_at stmt (next_fault w)

  -- A statement that reads.
  abbrev pub query : {A : Type 0} → (Db F → A) → Action F A
  query f = sql (λ db. some (f db, db))

  -- A statement that writes and breaks no constraint.
  abbrev pub execute : (Db F → Db F) → Action F (Unit {0})
  execute f = sql (λ db. some (tt, f db))

-- Unfolding this name unfolds the actions.
unfoldable pub actions : Unit {0}
unfolding pure ◌>>=◌ lift ok_or guard or_else sql
actions = tt
