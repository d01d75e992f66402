-- ===== src/Orchestrator/Service/Bans.antt =====
-- Banned nodes, the finish of a job, the rounds and the submission of a job.
use decentralized_hive_mind.Prelude.{
  suc, ℕ, ◌%◌, inl, inr, Bool, List, [], ◌∷◌, Text, Bytes, Bool-cases, ◌==◌,
}
use decentralized_hive_mind.Common.Float64.{Float64, zero_f}
use decentralized_hive_mind.Common.Crypto.{Digest}
use decentralized_hive_mind.Common.Types.{Uuid, DateTime}
use decentralized_hive_mind.Orchestrator.Db.{World}
use decentralized_hive_mind.Orchestrator.Db.Contracts.{
  Contract, sql_rule, pure_rule, guard_rule, if_rule, bind_rule, or_else_rule, Promises-if,
  Promises-unless, kept,
}
use decentralized_hive_mind.Orchestrator.TaskManager.Dispatch.{dispatch_ready_tasks, claim}
use decentralized_hive_mind.Orchestrator.TaskManager.Dispatch.Effects.{dispatch-db}
use decentralized_hive_mind.Orchestrator.TaskManager.Finish.{finalize_job_if_ready, finish_job}
use decentralized_hive_mind.Orchestrator.TaskManager.Housekeeping.{round, housekeeping_every_n}
use decentralized_hive_mind.Orchestrator.Routes.Nodes.Bans.{
  Banned, recompute_contract, cleanup_contract,
}
use decentralized_hive_mind.Orchestrator.Privacy.{PiiTools}
use decentralized_hive_mind.Common.Types.{AgentRole}
use decentralized_hive_mind.Orchestrator.Routes.Jobs.{SubmitJobRequest, seed, submit_job}

module _ (F : Type 0) ⦃o : Float64 F⦄ (key : Text) where
  pub finalize-Banned :
      (job : Uuid) (now : DateTime)
      → Contract {F = F} (Banned key) (finalize_job_if_ready job now) (λ _. Banned key) (Banned key)
  unfolding finalize_job_if_ready finish_job
  finalize-Banned job now =
      bind_rule {Q = λ _. Banned key} _ _ (sql_rule _ (λ db b. b) (λ db b. b)) λ n.
        if_rule (n == 0) _ _
          (λ z.
            bind_rule {Q = λ _. Banned key} _ _
              (or_else_rule _ zero_f (sql_rule _ (λ db b. b) (λ db b. b)))
              λ cost. sql_rule _ (λ db b. b) (λ db b. b))
          (λ z. pure_rule tt (λ db b. b))

  dispatch-Banned :
      (locked : Uuid → Bool) (now : DateTime) (w : World F)
      → Banned key w.db
      → Banned key (dispatch_ready_tasks locked now w).1.db
  unfolding claim
  dispatch-Banned locked now w b = elim (dispatch-db locked now w) [
    | inl same ↦ rw same b
    | inr claimed ↦ rw claimed b
  ]

  pub round-Banned :
      (locked : Uuid → Bool) (now : DateTime) (n : ℕ) (w : World F)
      → Banned key w.db
      → Banned key (round locked now n w).1.db
  unfolding round
  round-Banned locked now n w b =
      let dispatched = dispatch-Banned locked now w b in
      elim (Bool-cases (n % housekeeping_every_n == 0)) [
        | inl t ↦
            rw t (
              kept _ (recompute_contract key now) _
                (kept _ (cleanup_contract key now) _ dispatched))
        | inr f ↦ rw f dispatched
      ]

  seed-Banned :
      (task_ids : ℕ → Uuid) (job : Uuid) (prompt min_tier : Text) (now : DateTime) (i : ℕ)
      (plan : List (AgentRole × ℕ × ℕ))
      → Contract {F = F}
          (Banned key)
          (seed task_ids job prompt min_tier now i plan)
          (λ _. Banned key)
          (Banned key)
  unfolding seed
  seed-Banned task_ids job prompt min_tier now i [] = pure_rule tt (λ db b. b)
  seed-Banned task_ids job prompt min_tier now i (p ∷ plan) =
      bind_rule {Q = λ _. Banned key} _ _
        (sql_rule _ (λ db b. b) (λ db b. Promises-if (λ _. Banned key) (Banned key) _ db tt _ b b))
        λ _. seed-Banned task_ids job prompt min_tier now (suc i) plan

  pub submit_job-Banned :
      ⦃d : Digest⦄ (tools : PiiTools) (describe : SubmitJobRequest F → Text)
      (encrypt : Text → Text → Bytes) (hex : Text) (req : SubmitJobRequest F) (new_id : Uuid)
      (task_ids : ℕ → Uuid) (new_v4 : ℕ → Text) (now : DateTime)
      → Contract
          (Banned key)
          (submit_job tools describe encrypt hex req new_id task_ids new_v4 now)
          (λ _. Banned key)
          (Banned key)
  unfolding submit_job
  submit_job-Banned tools describe encrypt hex req new_id task_ids new_v4 now =
      bind_rule {Q = λ _. Banned key} _ _ (guard_rule _ _ (λ db b. b) (λ db e b. b)) λ _.
        bind_rule {Q = λ _. Banned key} _ _ (guard_rule _ _ (λ db b. b) (λ db e b. b)) λ _.
          bind_rule {Q = λ _. Banned key} _ _ (guard_rule _ _ (λ db b. b) (λ db e b. b)) λ _.
            bind_rule {Q = λ _. Banned key} _ _
              (sql_rule _ (λ db b. b)
                (λ db b. Promises-unless (λ _. Banned key) (Banned key) _ db new_id _ b b))
              λ row.
                bind_rule {Q = λ _. Banned key} _ _ (seed-Banned task_ids row _ _ now 0 _)
                  λ _. pure_rule row (λ db b. b)
