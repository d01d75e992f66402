-- ===== src/Orchestrator/Invariant/Handlers.antt =====
-- The invariant, and the functions of orchestrator/src/task_manager.rs.
use decentralized_hive_mind.Prelude.{◌≡◌, refl, inl, inr, Bool, length, Text, arith, ◌==◌}
use decentralized_hive_mind.Common.Float64.{Float64, zero_f}
use decentralized_hive_mind.Common.Crypto.{Digest}
use decentralized_hive_mind.Common.Types.{Uuid, DateTime}
use decentralized_hive_mind.Orchestrator.Validator.{TextTools}
use decentralized_hive_mind.Orchestrator.Db.{Db, World}
use decentralized_hive_mind.Orchestrator.Db.Rows.{has_node}
use decentralized_hive_mind.Orchestrator.Db.Contracts.{
  kept, Contract, sql_rule, pure_rule, ok_or_rule, lift_rule, if_rule, Promises-if, bind_rule,
  or_else_rule, pre_rule,
}
use decentralized_hive_mind.Orchestrator.TaskManager.Finish.{
  incomplete, complete_job, finish_job, finalize_job_if_ready, complete_row, complete_task,
}
use decentralized_hive_mind.Orchestrator.TaskManager.Dispatch.{claim, dispatch_ready_tasks}
use decentralized_hive_mind.Orchestrator.TaskManager.Dispatch.Effects.{dispatch-db}
use decentralized_hive_mind.Orchestrator.Invariant.{Inv}
use decentralized_hive_mind.Orchestrator.Invariant.Statements.{
  Completes, complete-Agrees, finish-Agrees, claim-Agrees,
}

module _ (F : Type 0) ⦃o : Float64 F⦄ where
  finish_job_contract :
      (job : Uuid) (now : DateTime)
      → Contract
          (λ (db : Db F). Inv db × (length (incomplete job db.sub_tasks) ≡ 0))
          (finish_job job now)
          (λ _. Inv)
          Inv
  unfolding finish_job
  finish_job_contract job now =
      bind_rule _ _ (or_else_rule _ zero_f (sql_rule _ (λ db p. p) (λ db p. p))) (λ cost.
        sql_rule _ (λ db p. p.0)
          (λ db p. finish-Agrees p.0 job (complete_job now cost) (λ j. refl) p.1))

  pub finalize_contract :
      (job : Uuid) (now : DateTime)
      → Contract Inv (finalize_job_if_ready {F = F} job now) (λ _. Inv) Inv
  unfolding finalize_job_if_ready
  finalize_contract job now =
      bind_rule {Q = λ n db. Inv db × (n ≡ length (incomplete job db.sub_tasks))} _ _
        (sql_rule _ (λ db p. p) (λ db p. (p, refl)))
        (λ n.
          if_rule (n == 0) _ _
            (λ z. pre_rule _ (λ db p. (p.0, ground arith)) (finish_job_contract job now))
            (λ _. pure_rule tt (λ db p. p.0)))

  -- A round of the dispatcher, whatever other replicas have locked.
  pub dispatch-Inv :
      (locked : Uuid → Bool) (now : DateTime) (w : World F)
      → Inv w.db
      → Inv (dispatch_ready_tasks locked now w).1.db
  unfolding claim
  dispatch-Inv locked now w v = elim (dispatch-db locked now w) [
    | inl same ↦ rw same v
    | inr claimed ↦ rw claimed (claim-Agrees v locked now)
  ]

  complete_row-Completes :
      (output : Text) (node_id : Uuid) (now : DateTime)
      → Completes (complete_row output node_id now)
  complete_row-Completes output node_id now = record {
    same_id = λ t. refl;
    same_job = λ t. refl;
    same_position = λ t. refl;
    same_count = λ t. refl;
    completes = λ t. refl;
  }

  module _ (tools : TextTools) ⦃d : Digest⦄ (show_uuid : Uuid → Text) where
    complete_task_contract :
        (task_id node_id : Uuid) (output proof : Text) (now : DateTime)
        → Contract Inv
            (complete_task {F = F} tools show_uuid task_id node_id output proof now)
            (λ _. Inv)
            Inv
    unfolding complete_task
    complete_task_contract task_id node_id output proof now =
        bind_rule {Q = λ _. Inv} _ _ (sql_rule _ (λ db v. v) (λ db v. v)) λ found.
          bind_rule {Q = λ _. Inv} _ _ (ok_or_rule found _ (λ db v. v) (λ a db e v. v)) λ task.
            bind_rule {Q = λ _. Inv} _ _ (lift_rule _ (λ db v. v) (λ a db e v. v)) λ _.
              bind_rule {Q = λ _. Inv} _ _
                (sql_rule _ (λ db v. v)
                  (λ db v.
                    Promises-if (λ _. Inv) Inv (has_node node_id db) db tt _ v
                      (complete-Agrees v task_id (complete_row output node_id now)
                        (complete_row-Completes output node_id now))))
                λ _.
                  bind_rule {Q = λ _. Inv} _ _
                    (sql_rule _ (λ db v. v)
                      (λ db v. Promises-if (λ _. Inv) Inv (has_node node_id db) db tt _ v v))
                    λ _. finalize_contract task.job_id now

    -- A completed task keeps the invariant, whichever call of the database fails.
    complete_task-Inv :
        (task_id node_id : Uuid) (output proof : Text) (now : DateTime) (w : World F)
        → Inv w.db
        → Inv (complete_task tools show_uuid task_id node_id output proof now w).1.db
    complete_task-Inv task_id node_id output proof now w v =
        kept _ (complete_task_contract task_id node_id output proof now) w v
