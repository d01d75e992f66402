-- ===== src/Orchestrator/Service/JobSteps.antt =====
-- A property of the table of jobs, and whole requests and rounds of the orchestrator.
use decentralized_hive_mind.Prelude.{
  ◌≡◌, refl, sym, ◌∙◌, true, not, some, List, [], ◌∷◌, Text, Bytes,
}
use decentralized_hive_mind.Common.Float64.{Float64, zero_f}
use decentralized_hive_mind.Common.Crypto.{Digest, Ed25519}
use decentralized_hive_mind.Common.Types.{Uuid, DateTime, ReceiptPayload, is_complete}
use decentralized_hive_mind.Orchestrator.Validator.{TextTools}
use decentralized_hive_mind.Orchestrator.Db.{NodeRow, SubTaskRow, Db, World}
use decentralized_hive_mind.Orchestrator.Db.Rows.{has_node, find_task}
use decentralized_hive_mind.Orchestrator.Db.Contracts.{
  Contract, sql_rule, pure_rule, ok_or_rule, lift_rule, guard_rule, bind_rule, or_else_rule,
  Promises-if, Promises-unless, kept,
}
use decentralized_hive_mind.Orchestrator.Invariant.{Inv}
use decentralized_hive_mind.Orchestrator.Routes.Tasks.{TaskResultRequest, pay, submit_task_result}
use decentralized_hive_mind.Orchestrator.Routes.Listings.Selected.{
  list_nodes-db, flagged_nodes-db, list_jobs-db, job_status-db,
}
use decentralized_hive_mind.Orchestrator.Service.{
  Setup, Call, register, alive, ban_request, unban_request, nodes_query, flagged_query, jobs_query,
  job_query, job_request, result, tick, serve, serve_all,
}
use decentralized_hive_mind.Orchestrator.Service.Safety.{serve-Inv}
use decentralized_hive_mind.Orchestrator.Service.JobTable.{
  assume_rule, JobProperty, Kept, Closes, finalize-Kept, round-Kept, register-Kept, heartbeat-Kept,
  ban-Kept, unban-Kept, submit_job-Kept,
}

module _ (F K : Type 0) ⦃o : Float64 F⦄ ⦃d : Digest⦄ ⦃c : Ed25519 K⦄ (tools : TextTools)
    (show_uuid : Uuid → Text) (to_vec : ReceiptPayload F → Bytes) (signing_key : K)
    (j : JobProperty F) where
  abbrev S : Db F → Type 0
  S = Kept F j

  -- A submission that passes the check of its task completes no job that the property forbids.
  abbrev MayClose : Type 0
  MayClose =
      (task_id : Uuid) (task : SubTaskRow) (db : Db F)
      → Inv db
      → S db
      → find_task task_id db ≡ some task
      → not (is_complete task.status) ≡ true
      → Closes F j task.job_id

  pay-Kept :
      (task_id : Uuid) (node : NodeRow F) (task : SubTaskRow) (req : TaskResultRequest)
      (receipt_id : Uuid) (nonce : Bytes) (now : DateTime)
      → Closes F j task.job_id
      → Contract S
          (pay tools show_uuid to_vec signing_key task_id node task req receipt_id nonce now)
          (λ _. S)
          S
  unfolding pay
  pay-Kept task_id node task req receipt_id nonce now other =
      bind_rule {Q = λ _. S} _ _ (sql_rule _ (λ db b. b) (λ db b. b)) λ all_tasks.
        bind_rule {Q = λ _. S} _ _
          (or_else_rule _ zero_f (
            bind_rule {Q = λ _. S} _ _ (sql_rule _ (λ db b. b) (λ db b. b)) λ job.
              bind_rule {Q = λ _. S} _ _ (ok_or_rule job _ (λ db b. b) (λ a db e b. b))
                λ row. pure_rule _ (λ db b. b)))
          λ total_payout.
            bind_rule {Q = λ _. S} _ _
              (sql_rule _ (λ db b. b) (λ db b. Promises-unless (λ _. S) S _ db tt _ b b))
              λ _.
                bind_rule {Q = λ _. S} _ _ (finalize-Kept F j task.job_id now other)
                  λ _. pure_rule _ (λ db b. b)

  submit-Kept :
      (task_id : Uuid) (req : TaskResultRequest) (receipt_id : Uuid) (nonce : Bytes)
      (now : DateTime)
      → MayClose
      → Contract
          (λ db. Inv db × S db)
          (submit_task_result tools show_uuid to_vec signing_key task_id req receipt_id nonce now)
          (λ _. S)
          S
  unfolding submit_task_result
  submit-Kept task_id req receipt_id nonce now closes =
      bind_rule {Q = λ _ db. Inv db × S db} _ _ (sql_rule _ (λ db p. p.1) (λ db p. p)) λ found_node.
        bind_rule {Q = λ _ db. Inv db × S db} _ _
          (ok_or_rule found_node _ (λ db p. p.1) (λ a db e p. p))
          λ node.
            bind_rule {Q = λ found db. Inv db × S db × (found ≡ find_task task_id db)} _ _
              (sql_rule _ (λ db p. p.1) (λ db p. (p.0, p.1, refl)))
              λ found.
                bind_rule {Q = λ task db. Inv db × S db × (find_task task_id db ≡ some task)} _ _
                  (ok_or_rule found _ (λ db p. p.1) (λ a db e p. (p.0, p.1, sym p.2 ∙ e)))
                  λ task.
                    bind_rule {Q = λ _ db. Closes F j task.job_id × S db} _ _
                      (guard_rule (not (is_complete task.status)) _ (λ db p. p.1)
                        (λ db e p. (closes task_id task db p.0 p.1 p.2 e, p.1)))
                      λ _. assume_rule _ _ λ other.
                        bind_rule {Q = λ _. S} _ _ (lift_rule _ (λ db b. b) (λ a db e b. b)) λ _.
                          bind_rule {Q = λ _. S} _ _ (sql_rule _ (λ db b. b) (λ db b. b)) λ _.
                            bind_rule {Q = λ _. S} _ _
                              (sql_rule _ (λ db b. b)
                                (λ db b. Promises-if (λ _. S) S (has_node node.id db) db tt _ b b))
                              λ _. pay-Kept task_id node task req receipt_id nonce now other

module _ (F K : Type 0) ⦃o : Float64 F⦄ ⦃d : Digest⦄ ⦃c : Ed25519 K⦄ (setup : Setup F K)
    (j : JobProperty F)
    (closes : MayClose F K setup.tools setup.show_uuid setup.to_vec setup.signing_key j) where
  serve-Kept :
      (call : Call F) (w : World F) → Inv w.db → Kept F j w.db → Kept F j (serve setup call w).db
  unfolding serve
  serve-Kept (register req id now) w v b = kept _ (register-Kept F j req id now) w b
  serve-Kept (alive id now) w v b = kept _ (heartbeat-Kept F j id now) w b
  serve-Kept (ban_request req now) w v b = kept _ (ban-Kept F j setup.trim req now) w b
  serve-Kept (unban_request id) w v b = kept _ (unban-Kept F j id) w b
  serve-Kept (nodes_query now) w v b = rw (list_nodes-db now w) b
  serve-Kept flagged_query w v b = rw (flagged_nodes-db w) b
  serve-Kept (jobs_query header) w v b = rw (list_jobs-db header w) b
  serve-Kept (job_query id) w v b = rw (job_status-db id w) b
  serve-Kept (job_request req id task_ids new_v4 now) w v b =
      kept _
        (submit_job-Kept F j setup.pii setup.describe setup.pgp_sym_encrypt setup.signing_key_hex
          req id task_ids new_v4 now)
        w b
  serve-Kept (result task_id req receipt_id nonce now) w v b =
      kept _
        (submit-Kept F K setup.tools setup.show_uuid setup.to_vec setup.signing_key j task_id req
          receipt_id nonce now closes)
        w (v, b)
  serve-Kept (tick locked now n) w v b = round-Kept F j locked now n w b

  pub serve_all-Kept :
      (calls : List (Call F)) (w : World F)
      → Inv w.db
      → Kept F j w.db
      → Kept F j (serve_all setup calls w).db
  unfolding serve_all
  serve_all-Kept [] w v b = b
  serve_all-Kept (call ∷ calls) w v b =
      serve_all-Kept calls _ (serve-Inv F K setup call w v) (serve-Kept call w v b)
