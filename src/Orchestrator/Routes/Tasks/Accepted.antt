-- ===== src/Orchestrator/Routes/Tasks/Accepted.antt =====
-- What a successful submission of orchestrator/src/routes/tasks.rs has done.
use decentralized_hive_mind.Prelude.{
  In-end, ℕ, ◌≡◌, refl, inl, inr, not, some, List, [], ◌∷◌, find, map, In, Text, Bytes, as_bytes,
  arith, Bool-cases, unwrap_or, ◌==◌, if◌then◌else◌, sym, ◌∙◌,
}
use decentralized_hive_mind.Common.Float64.{Float64, zero_f}
use decentralized_hive_mind.Common.Crypto.{Digest, Ed25519}
use decentralized_hive_mind.Common.Types.{
  Uuid, DateTime, CreditReceipt, ReceiptPayload, complete, is_complete, parse_role,
}
use decentralized_hive_mind.Orchestrator.Error.{ok}
use decentralized_hive_mind.Orchestrator.Validator.{TextTools, ValidationInput, expected_hex}
use decentralized_hive_mind.Orchestrator.Validator.Pipeline.{IsAccepted, validate_output_iff}
use decentralized_hive_mind.Orchestrator.Db.{NodeRow, SubTaskRow, Db, World, sql}
use decentralized_hive_mind.Orchestrator.Db.Rows.{has_node, find_task, update_task}
use decentralized_hive_mind.Orchestrator.Db.Contracts.{
  Anything, returned, Contract, sql_rule, pure_rule, ok_or_rule, lift_rule, guard_rule, if_rule,
  bind_rule, or_else_rule, Promises-if, Promises-unless,
}
use decentralized_hive_mind.Orchestrator.TaskManager.Finish.{finalize_job_if_ready, finish_job}
use decentralized_hive_mind.Orchestrator.Routes.Tasks.{
  TaskResultRequest, pay, submit_task_result, store_result, insert_receipt, build_receipt,
}

abbrev input_of : SubTaskRow → TaskResultRequest → ValidationInput
input_of t req = record {
  role = parse_role t.role;
  prompt_shard_bytes = as_bytes t.prompt_shard;
  output = req.output;
  node_proof_hash_hex = req.proof_hash;
}

-- The row of the task is complete, holds the submitted output, and the output has passed the checks
-- against the prompt of the row.
pub record IsStored {F : Type 0} ⦃d : Digest⦄ (tools : TextTools) (task_id : Uuid)
    (req : TaskResultRequest) (db : Db F) : Type 0 where
  pub row : SubTaskRow
  pub found : find_task task_id db ≡ some row
  pub completed : row.status ≡ complete
  pub result : row.result ≡ some (req.output)
  pub accepted :
      IsAccepted tools (expected_hex (as_bytes row.prompt_shard) req.output) (input_of row req)

-- The receipt is stored, and is for the task and the key of the request.
pub record IsPaid {F : Type 0} (task_id : Uuid) (req : TaskResultRequest) (r : CreditReceipt F)
    (db : Db F) : Type 0 where
  pub recorded : In r db.credit_receipts
  pub for_task : r.sub_task_id ≡ task_id
  pub for_node : r.node_pubkey_hex ≡ req.node_pubkey

find-update :
    (id : Uuid) (f : SubTaskRow → SubTaskRow) (tasks : List SubTaskRow) (t : SubTaskRow)
    → ((t : SubTaskRow) → (f t).id ≡ t.id)
    → find (λ (t : SubTaskRow). t.id == id) tasks ≡ some t
    → find (λ (t : SubTaskRow). t.id == id) (map (λ t. if t.id == id then f t else t) tasks)
      ≡ some (f t)
find-update id f [] t same h = cc
find-update id f (x ∷ tasks) t same h = elim (Bool-cases (x.id == id)) [
  | inl y ↦ let here = same x in ground arith
  | inr n ↦ ground (arith, find-update id f tasks t same)
]

module _ (F K : Type 0) ⦃o : Float64 F⦄ ⦃d : Digest⦄ ⦃c : Ed25519 K⦄ (tools : TextTools)
    (show_uuid : Uuid → Text) (to_vec : ReceiptPayload F → Bytes) (signing_key : K) (task_id : Uuid)
    (req : TaskResultRequest) where
  abbrev Stored : Db F → Type 0
  Stored = IsStored tools task_id req

  abbrev Paid : CreditReceipt F → Db F → Type 0
  Paid r db = Stored db × IsPaid task_id req r db

  store-Stored :
      (task : SubTaskRow) (node : Uuid) (tin tout : ℕ) (now : DateTime) (db : Db F)
      → find_task task_id db ≡ some task
      → IsAccepted tools (expected_hex (as_bytes task.prompt_shard) req.output) (input_of task req)
      → Stored (update_task task_id (store_result req.output node tin tout now) db)
  store-Stored task node tin tout now db found accepted = record {
    row = store_result req.output node tin tout now task;
    found =
        find-update task_id (store_result req.output node tin tout now) db.sub_tasks task
          (λ t. refl) found;
    completed = refl;
    result = refl;
    accepted = accepted;
  }

  Stored-in :
      {db : Db F} (row : SubTaskRow)
      → find_task task_id db ≡ some row
      → row.status ≡ complete
      → row.result ≡ some (req.output)
      → IsAccepted tools (expected_hex (as_bytes row.prompt_shard) req.output) (input_of row req)
      → Stored db
  Stored-in row found completed result accepted = record {
    row = row;
    found = found;
    completed = completed;
    result = result;
    accepted = accepted;
  }

  finalize-Paid :
      (r : CreditReceipt F) (job : Uuid) (now : DateTime)
      → Contract (Paid r) (finalize_job_if_ready job now) (λ _. Paid r) Anything
  unfolding finalize_job_if_ready finish_job
  finalize-Paid r job now =
      bind_rule {Q = λ _. Paid r} _ _ (sql_rule _ (λ db p. tt) (λ db p. p)) λ n.
        if_rule (n == 0) _ _
          (λ z.
            bind_rule {Q = λ _. Paid r} _ _
              (or_else_rule _ zero_f (sql_rule _ (λ db p. p) (λ db p. p)))
              λ cost.
                sql_rule _ (λ db p. tt)
                  (λ db p. (
                    Stored-in p.0.row p.0.found p.0.completed p.0.result p.0.accepted,
                    record {
                      recorded = p.1.recorded;
                      for_task = p.1.for_task;
                      for_node = p.1.for_node;
                    },
                  )))
          (λ z. pure_rule tt (λ db p. p))

  receipt-Paid :
      (r : CreditReceipt F)
      → r.sub_task_id ≡ task_id
      → r.node_pubkey_hex ≡ req.node_pubkey
      → Contract Stored (sql (insert_receipt r)) (λ _. Paid r) Anything
  receipt-Paid r for_task for_node =
      sql_rule _ (λ db p. tt)
        (λ db p.
          Promises-unless (λ _. Paid r) Anything _ db tt _ tt
            (
              Stored-in p.row p.found p.completed p.result p.accepted,
              record {
                recorded = In-end db.credit_receipts r;
                for_task = for_task;
                for_node = for_node;
              },
            ))

  pay-Paid :
      (node : NodeRow F) (task : SubTaskRow) (receipt_id : Uuid) (nonce : Bytes) (now : DateTime)
      → Contract Stored
          (pay tools show_uuid to_vec signing_key task_id node task req receipt_id nonce now)
          Paid
          Anything
  unfolding pay build_receipt
  pay-Paid node task receipt_id nonce now =
      bind_rule {Q = λ _. Stored} _ _ (sql_rule _ (λ db p. tt) (λ db p. p)) λ all_tasks.
        bind_rule {Q = λ _. Stored} _ _
          (or_else_rule _ zero_f (
            bind_rule {Q = λ _. Stored} _ _ (sql_rule _ (λ db p. p) (λ db p. p)) λ job.
              bind_rule {Q = λ _. Stored} _ _ (ok_or_rule job _ (λ db p. p) (λ a db e p. p))
                λ row. pure_rule _ (λ db p. p)))
          λ total_payout.
            bind_rule _ _ (receipt-Paid _ refl refl)
              λ _. bind_rule _ _ (finalize-Paid _ task.job_id now) λ _. pure_rule _ (λ db p. p)

  submit-Paid :
      (receipt_id : Uuid) (nonce : Bytes) (now : DateTime)
      → Contract Anything
          (submit_task_result tools show_uuid to_vec signing_key task_id req receipt_id nonce now)
          Paid
          Anything
  unfolding submit_task_result
  submit-Paid receipt_id nonce now =
      bind_rule {Q = λ _. Anything} _ _ (sql_rule _ (λ db p. tt) (λ db p. tt)) λ found_node.
        bind_rule {Q = λ _. Anything} _ _ (ok_or_rule found_node _ (λ db p. tt) (λ a db e p. tt))
          λ node.
            bind_rule {Q = λ found db. found ≡ find_task task_id db} _ _
              (sql_rule _ (λ db p. tt) (λ db p. refl))
              λ found.
                bind_rule {Q = λ task db. find_task task_id db ≡ some task} _ _
                  (ok_or_rule found _ (λ db p. tt) (λ a db e p. sym p ∙ e))
                  λ task.
                    bind_rule {Q = λ _ db. find_task task_id db ≡ some task} _ _
                      (guard_rule (not (is_complete task.status)) _ (λ db p. tt) (λ db e p. p))
                      λ _.
                        bind_rule
                          {Q = λ _ db.
                            (find_task task_id db ≡ some task)
                            × IsAccepted tools
                                (expected_hex (as_bytes task.prompt_shard) req.output)
                                (input_of task req)}
                          _ _
                          (lift_rule _ (λ db p. tt)
                            (λ a db e p.
                              (p, ((validate_output_iff tools (input_of task req) a).0 e).0)))
                          λ _.
                            bind_rule {Q = λ _. Stored} _ _
                              (sql_rule _ (λ db p. tt)
                                (λ db p.
                                  store-Stored task node.id (unwrap_or req.tokens_in 0)
                                    (unwrap_or req.tokens_out 0) now db p.0 p.1))
                              λ _.
                                bind_rule {Q = λ _. Stored} _ _
                                  (sql_rule _ (λ db p. tt)
                                    (λ db p.
                                      Promises-if (λ _. Stored) Anything (has_node node.id db) db tt
                                        _ tt
                                        (Stored-in p.row p.found p.completed p.result p.accepted)))
                                  λ _. pay-Paid node task receipt_id nonce now

  -- If a submission returns a receipt, then the receipt is stored and is for that task and key, the
  -- task is complete and holds the submitted output, and the output has passed the proof of its
  -- hash, the search for injections and, for a planner, the check of its form.
  pub submit_task_result-IsPaid :
      (receipt_id : Uuid) (nonce : Bytes) (now : DateTime) (w : World F) (r : CreditReceipt F)
      → let after =
          submit_task_result tools show_uuid to_vec signing_key task_id req receipt_id nonce now
            w in
        after.0 ≡ ok r → IsStored tools task_id req after.1.db × IsPaid task_id req r after.1.db
  submit_task_result-IsPaid receipt_id nonce now w r h =
      returned _ (submit-Paid receipt_id nonce now) w tt r h
