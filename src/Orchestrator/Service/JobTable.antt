-- ===== src/Orchestrator/Service/JobTable.antt =====
-- A property of the table of jobs, and the parts of the requests and rounds of the orchestrator: it is
-- kept if new jobs and the completion of jobs keep it.
use decentralized_hive_mind.Prelude.{
  suc, ℕ, ◌%◌, inl, inr, Bool, Option, none, some, List, [], ◌∷◌, ◌++◌, Text, Bytes, Bool-cases,
  ◌==◌, find, any,
}
use decentralized_hive_mind.Common.Float64.{Float64, zero_f}
use decentralized_hive_mind.Common.Crypto.{Digest}
use decentralized_hive_mind.Common.Types.{Uuid, DateTime, AgentRole}
use decentralized_hive_mind.Orchestrator.Db.{NodeRow, JobRow, Db, World, Action}
use decentralized_hive_mind.Orchestrator.Db.Rows.{has_node, update_job}
use decentralized_hive_mind.Orchestrator.Db.Contracts.{
  Contract, Promises, sql_rule, pure_rule, guard_rule, if_rule, bind_rule, or_else_rule,
  Promises-if, Promises-unless, kept,
}
use decentralized_hive_mind.Orchestrator.TaskManager.Dispatch.{dispatch_ready_tasks, claim}
use decentralized_hive_mind.Orchestrator.TaskManager.Dispatch.Effects.{dispatch-db}
use decentralized_hive_mind.Orchestrator.TaskManager.Finish.{
  finalize_job_if_ready, finish_job, complete_job,
}
use decentralized_hive_mind.Orchestrator.TaskManager.Housekeeping.{
  round, housekeeping_every_n, cleanup_expired_nonces, recompute_reputation_scores,
}
use decentralized_hive_mind.Orchestrator.Routes.Nodes.{
  RegisterRequest, BanRequest, upsert, upsert_row, register_node, heartbeat, ban_node, unban_node,
  has_key,
}
use decentralized_hive_mind.Orchestrator.Privacy.{PiiTools}
use decentralized_hive_mind.Orchestrator.Routes.Jobs.{SubmitJobRequest, new_job, seed, submit_job}

-- A fact that the start of a contract carries may be used in it.
pub assume_rule :
    {F A : Type 0} {P : Db F → Type 0} {Q : A → Db F → Type 0} {I : Db F → Type 0} (C : Type 0)
    (m : Action F A)
    → (C → Contract P m Q I)
    → Contract (λ db. C × P db) m Q I
assume_rule C m k = record { holds = λ w p. (k p.0).holds w p.1 }

-- A property of the table that the row of a new job keeps.
pub record JobProperty (F : Type 0) ⦃o : Float64 F⦄ : Type 1 where
  pub Good : List (JobRow F) → Type 0
  pub grows :
      (req : SubmitJobRequest F) (id : Uuid) (prompt : Bytes) (deadline now : DateTime)
      (jobs : List (JobRow F))
      → Good jobs
      → Good (jobs ++ new_job req id prompt deadline now ∷ [])

module _ (F : Type 0) ⦃o : Float64 F⦄ (j : JobProperty F) where
  abbrev pub Kept : Db F → Type 0
  Kept db = j.Good db.jobs

  -- The completion of a job keeps the property.
  abbrev pub Closes : Uuid → Type 0
  Closes job =
      (now : DateTime) (cost : F) (db : Db F)
      → Kept db
      → Kept (update_job job (complete_job now cost) db)

  pub finalize-Kept :
      (job : Uuid) (now : DateTime)
      → Closes job
      → Contract Kept (finalize_job_if_ready job now) (λ _. Kept) Kept
  unfolding finalize_job_if_ready finish_job
  finalize-Kept job now closes =
      bind_rule {Q = λ _. Kept} _ _ (sql_rule _ (λ db b. b) (λ db b. b)) λ n.
        if_rule (n == 0) _ _
          (λ z.
            bind_rule {Q = λ _. Kept} _ _
              (or_else_rule _ zero_f (sql_rule _ (λ db b. b) (λ db b. b)))
              λ cost. sql_rule _ (λ db b. b) (λ db b. closes now cost db b))
          (λ z. pure_rule tt (λ db b. b))

  dispatch-Kept :
      (locked : Uuid → Bool) (now : DateTime) (w : World F)
      → Kept w.db
      → Kept (dispatch_ready_tasks locked now w).1.db
  unfolding claim
  dispatch-Kept locked now w b = elim (dispatch-db locked now w) [
    | inl same ↦ rw same b
    | inr claimed ↦ rw claimed b
  ]

  housekeeping-Kept :
      (now : DateTime) (w : World F)
      → Kept w.db
      → Kept (recompute_reputation_scores now (cleanup_expired_nonces now w).1).1.db
  unfolding recompute_reputation_scores cleanup_expired_nonces
  housekeeping-Kept now w v =
      kept {P = Kept} {I = Kept} _ (sql_rule _ (λ db v. v) (λ db v. v)) _
        (kept {P = Kept} {I = Kept} _ (sql_rule _ (λ db v. v) (λ db v. v)) w v)

  pub round-Kept :
      (locked : Uuid → Bool) (now : DateTime) (n : ℕ) (w : World F)
      → Kept w.db
      → Kept (round locked now n w).1.db
  unfolding round
  round-Kept locked now n w b =
      let dispatched = dispatch-Kept locked now w b in
      elim (Bool-cases (n % housekeeping_every_n == 0)) [
        | inl t ↦ rw t (housekeeping-Kept now _ dispatched)
        | inr f ↦ rw f dispatched
      ]

  upsert_row-Kept :
      (found : Option (NodeRow F)) (req : RegisterRequest) (id : Uuid) (now : DateTime) (db : Db F)
      → Kept db
      → Promises (λ _. Kept) Kept db (upsert_row found req id now db)
  upsert_row-Kept (some n) req id now db v = v
  upsert_row-Kept none req id now db v =
      Promises-unless (λ _. Kept) Kept (any (λ (n : NodeRow F). n.id == id) db.nodes) db id _ v v

  pub register-Kept :
      ⦃d : Digest⦄ (req : RegisterRequest) (id : Uuid) (now : DateTime)
      → Contract Kept (register_node req id now) (λ _. Kept) Kept
  unfolding register_node upsert
  register-Kept req id now =
      bind_rule {Q = λ _. Kept} _ _ (guard_rule _ _ (λ db v. v) (λ db e v. v)) λ _.
        sql_rule _ (λ db v. v)
          (λ db v. upsert_row-Kept (find (has_key req.pubkey_hex) db.nodes) req id now db v)

  pub heartbeat-Kept :
      (id : Uuid) (now : DateTime) → Contract Kept (heartbeat id now) (λ _. Kept) Kept
  unfolding heartbeat
  heartbeat-Kept id now =
      bind_rule {Q = λ _. Kept} _ _ (sql_rule _ (λ db v. v) (λ db v. v))
        λ rows. guard_rule _ _ (λ db v. v) (λ db e v. v)

  pub ban-Kept :
      (trim : Text → Text) (req : BanRequest) (now : DateTime)
      → Contract Kept (ban_node trim req now) (λ _. Kept) Kept
  unfolding ban_node
  ban-Kept trim req now =
      bind_rule {Q = λ _. Kept} _ _ (guard_rule _ _ (λ db v. v) (λ db e v. v)) λ _.
        bind_rule {Q = λ _. Kept} _ _ (sql_rule _ (λ db v. v) (λ db v. v)) λ rows.
          bind_rule {Q = λ _. Kept} _ _ (guard_rule _ _ (λ db v. v) (λ db e v. v)) λ _.
            sql_rule _ (λ db v. v)
              (λ db v. Promises-if (λ _. Kept) Kept (has_node req.node_id db) db tt _ v v)

  pub unban-Kept : (id : Uuid) → Contract Kept (unban_node id) (λ _. Kept) Kept
  unfolding unban_node
  unban-Kept id =
      bind_rule {Q = λ _. Kept} _ _ (sql_rule _ (λ db v. v) (λ db v. v))
        λ rows. pure_rule tt (λ db v. v)

  seed-Kept :
      (task_ids : ℕ → Uuid) (job : Uuid) (prompt min_tier : Text) (now : DateTime) (i : ℕ)
      (plan : List (AgentRole × ℕ × ℕ))
      → Contract Kept (seed task_ids job prompt min_tier now i plan) (λ _. Kept) Kept
  unfolding seed
  seed-Kept task_ids job prompt min_tier now i [] = pure_rule tt (λ db b. b)
  seed-Kept task_ids job prompt min_tier now i (p ∷ plan) =
      bind_rule {Q = λ _. Kept} _ _
        (sql_rule _ (λ db b. b) (λ db b. Promises-if (λ _. Kept) Kept _ db tt _ b b))
        λ _. seed-Kept task_ids job prompt min_tier now (suc i) plan

  pub submit_job-Kept :
      ⦃d : Digest⦄ (tools : PiiTools) (describe : SubmitJobRequest F → Text)
      (encrypt : Text → Text → Bytes) (hex : Text) (req : SubmitJobRequest F) (new_id : Uuid)
      (task_ids : ℕ → Uuid) (new_v4 : ℕ → Text) (now : DateTime)
      → Contract Kept
          (submit_job tools describe encrypt hex req new_id task_ids new_v4 now)
          (λ _. Kept)
          Kept
  unfolding submit_job
  submit_job-Kept tools describe encrypt hex req new_id task_ids new_v4 now =
      bind_rule {Q = λ _. Kept} _ _ (guard_rule _ _ (λ db b. b) (λ db e b. b)) λ _.
        bind_rule {Q = λ _. Kept} _ _ (guard_rule _ _ (λ db b. b) (λ db e b. b)) λ _.
          bind_rule {Q = λ _. Kept} _ _ (guard_rule _ _ (λ db b. b) (λ db e b. b)) λ _.
            bind_rule {Q = λ _. Kept} _ _
              (sql_rule _ (λ db b. b)
                (λ db b.
                  Promises-unless (λ _. Kept) Kept _ db new_id _ b
                    (j.grows req new_id _ _ now db.jobs b)))
              λ row.
                bind_rule {Q = λ _. Kept} _ _ (seed-Kept task_ids row _ _ now 0 _)
                  λ _. pure_rule row (λ db b. b)
