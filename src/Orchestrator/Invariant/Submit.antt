-- ===== src/Orchestrator/Invariant/Submit.antt =====
-- The invariant, and the handler of orchestrator/src/routes/tasks.rs.
use decentralized_hive_mind.Prelude.{
  ℕ, ◌≡◌, refl, true, not, some, Text, Bytes, arith, In, ◌==◌, find_sound, find-In, In-map,
  In-map_of, unwrap_or, sym, ◌∙◌,
}
use decentralized_hive_mind.Common.Float64.{Float64, zero_f}
use decentralized_hive_mind.Common.Crypto.{Digest, Ed25519}
use decentralized_hive_mind.Common.Types.{
  Uuid, DateTime, CreditReceipt, ReceiptPayload, complete, is_complete,
}
use decentralized_hive_mind.Orchestrator.Validator.{TextTools}
use decentralized_hive_mind.Orchestrator.Db.{NodeRow, SubTaskRow, Db, World}
use decentralized_hive_mind.Orchestrator.Db.Rows.{update_task, find_task, has_node}
use decentralized_hive_mind.Orchestrator.Db.Contracts.{
  Contract, sql_rule, pure_rule, ok_or_rule, lift_rule, guard_rule, Promises-if, Promises-unless,
  bind_rule, or_else_rule, kept,
}
use decentralized_hive_mind.Orchestrator.Invariant.{Inv}
use decentralized_hive_mind.Orchestrator.Invariant.Statements.{
  at_id, Completes, complete-Agrees, receipt-Agrees,
}
use decentralized_hive_mind.Orchestrator.Routes.Tasks.{
  TaskResultRequest, store_result, build_receipt, pay, submit_task_result,
}
use decentralized_hive_mind.Orchestrator.Invariant.Handlers.{finalize_contract}

-- After the result of a task has been stored: its rows are complete, and it has not been paid for.
abbrev Ready : {F : Type 0} → Uuid → Db F → Type 0
Ready {F} task_id db =
    Inv db
    × ((t : SubTaskRow) × In t db.sub_tasks × (t.id ≡ task_id))
    × ((t : SubTaskRow) → In t db.sub_tasks → t.id ≡ task_id → t.status ≡ complete)
    × ((r : CreditReceipt F) → In r db.credit_receipts → ¬ (r.sub_task_id ≡ task_id))

store_result-Completes :
    (output : Text) (node_id : Uuid) (tin tout : ℕ) (now : DateTime)
    → Completes (store_result output node_id tin tout now)
store_result-Completes output node_id tin tout now = record {
  same_id = λ t. refl;
  same_job = λ t. refl;
  same_position = λ t. refl;
  same_count = λ t. refl;
  completes = λ t. refl;
}

module _ (F : Type 0) where
  -- Storing the result of a task that is not complete.
  store-Ready :
      (task_id : Uuid) (task : SubTaskRow) (f : SubTaskRow → SubTaskRow) (db : Db F)
      → Completes f
      → Inv db
      → find_task task_id db ≡ some task
      → not (is_complete task.status) ≡ true
      → Ready task_id (update_task task_id f db)
  store-Ready task_id task f db c v found open_ =
      let named = find_sound (λ (t : SubTaskRow). t.id == task_id) db.sub_tasks found in
      let stored = find-In (λ (t : SubTaskRow). t.id == task_id) db.sub_tasks found in
      (
        complete-Agrees v task_id f c,
        (
          at_id task_id f task,
          In-map_of (at_id task_id f) db.sub_tasks task stored,
          ground (arith, c.same_id task),
        ),
        λ t' mt e.
            let (t, t_in, t_eq) = In-map (at_id task_id f) db.sub_tasks {b = t'} mt in
            ground (arith, c.completes t, c.same_id t),
        λ r mr e. ground (arith, v.paid r task mr stored),
      )

module _ (F K : Type 0) ⦃o : Float64 F⦄ ⦃d : Digest⦄ ⦃c : Ed25519 K⦄ (tools : TextTools)
    (show_uuid : Uuid → Text) (to_vec : ReceiptPayload F → Bytes) (signing_key : K) where
  pay_contract :
      (task_id : Uuid) (node : NodeRow F) (task : SubTaskRow) (req : TaskResultRequest)
      (receipt_id : Uuid) (nonce : Bytes) (now : DateTime)
      → Contract
          (Ready task_id)
          (pay tools show_uuid to_vec signing_key task_id node task req receipt_id nonce now)
          (λ _. Inv)
          Inv
  unfolding pay build_receipt
  pay_contract task_id node task req receipt_id nonce now =
      bind_rule {Q = λ _. Ready task_id} _ _ (sql_rule _ (λ db p. p.0) (λ db p. p)) λ all_tasks.
        bind_rule {Q = λ _. Ready task_id} _ _
          (or_else_rule _ zero_f (
            bind_rule {Q = λ _. Ready task_id} _ _ (sql_rule _ (λ db p. p) (λ db p. p)) λ job.
              bind_rule {Q = λ _. Ready task_id} _ _ (ok_or_rule job _ (λ db p. p) (λ a db e p. p))
                λ row. pure_rule _ (λ db p. p)))
          λ total_payout.
            bind_rule {Q = λ _. Inv} _ _
              (sql_rule _ (λ db p. p.0)
                (λ db p.
                  Promises-unless (λ _. Inv) Inv _ db tt _ p.0 (receipt-Agrees p.0 _ p.1 p.2 p.3)))
              λ _.
                bind_rule {Q = λ _. Inv} _ _ (finalize_contract F task.job_id now)
                  λ _. pure_rule _ (λ db v. v)

  -- A submission keeps the invariant, whichever call of the database fails.
  submit_contract :
      (task_id : Uuid) (req : TaskResultRequest) (receipt_id : Uuid) (nonce : Bytes)
      (now : DateTime)
      → Contract Inv
          (submit_task_result tools show_uuid to_vec signing_key task_id req receipt_id nonce now)
          (λ _. Inv)
          Inv
  unfolding submit_task_result
  submit_contract task_id req receipt_id nonce now =
      bind_rule {Q = λ _. Inv} _ _ (sql_rule _ (λ db v. v) (λ db v. v)) λ found_node.
        bind_rule {Q = λ _. Inv} _ _ (ok_or_rule found_node _ (λ db v. v) (λ a db e v. v)) λ node.
          bind_rule {Q = λ found db. Inv db × (found ≡ find_task task_id db)} _ _
            (sql_rule _ (λ db v. v) (λ db v. (v, refl)))
            λ found.
              bind_rule {Q = λ task db. Inv db × (find_task task_id db ≡ some task)} _ _
                (ok_or_rule found _ (λ db p. p.0) (λ a db e p. (p.0, sym p.1 ∙ e)))
                λ task.
                  bind_rule
                    {Q = λ _ db.
                      Inv db
                      × (find_task task_id db ≡ some task)
                      × (not (is_complete task.status) ≡ true)}
                    _ _
                    (guard_rule (not (is_complete task.status)) _ (λ db p. p.0)
                      (λ db e p. (p.0, p.1, e)))
                    λ _.
                      bind_rule
                        {Q = λ _ db.
                          Inv db
                          × (find_task task_id db ≡ some task)
                          × (not (is_complete task.status) ≡ true)}
                        _ _ (lift_rule _ (λ db p. p.0) (λ a db e p. p))
                        λ _.
                          bind_rule {Q = λ _. Ready task_id} _ _
                            (sql_rule _ (λ db p. p.0)
                              (λ db p.
                                store-Ready F task_id task _ db
                                  (store_result-Completes req.output node.id
                                    (unwrap_or req.tokens_in 0) (unwrap_or req.tokens_out 0) now)
                                  p.0 p.1 p.2))
                            λ _.
                              bind_rule {Q = λ _. Ready task_id} _ _
                                (sql_rule _ (λ db p. p.0)
                                  (λ db p.
                                    Promises-if (λ _. Ready task_id) Inv (has_node node.id db) db tt
                                      _ p.0 p))
                                λ _. pay_contract task_id node task req receipt_id nonce now

  pub submit_task_result-Inv :
      (task_id : Uuid) (req : TaskResultRequest) (receipt_id : Uuid) (nonce : Bytes)
      (now : DateTime) (w : World F)
      → Inv w.db
      → Inv
          (submit_task_result tools show_uuid to_vec signing_key task_id req receipt_id nonce now
            w).1.db
  submit_task_result-Inv task_id req receipt_id nonce now w v =
      kept _ (submit_contract task_id req receipt_id nonce now) w v
