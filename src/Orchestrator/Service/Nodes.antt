-- ===== src/Orchestrator/Service/Nodes.antt =====
-- Banned nodes, and the requests and rounds of the orchestrator.
use decentralized_hive_mind.Prelude.{
  ◌≡◌, refl, inl, inr, ◌⊎◌, none, some, List, [], ◌∷◌, Text, Bytes, text, arith, All, false,
}
use decentralized_hive_mind.Common.Float64.{Float64, zero_f}
use decentralized_hive_mind.Common.Crypto.{Digest, Ed25519}
use decentralized_hive_mind.Common.Types.{Uuid, DateTime, ReceiptPayload}
use decentralized_hive_mind.Orchestrator.Error.{AppResult, err, bad_request, database}
use decentralized_hive_mind.Orchestrator.Validator.{TextTools}
use decentralized_hive_mind.Orchestrator.Db.{NodeRow, SubTaskRow, World, actions}
use decentralized_hive_mind.Orchestrator.Db.Rows.{has_node}
use decentralized_hive_mind.Orchestrator.Db.Contracts.{
  Contract, sql_rule, pure_rule, ok_or_rule, lift_rule, guard_rule, bind_rule, or_else_rule,
  Promises-if, Promises-unless, kept,
}
use decentralized_hive_mind.Orchestrator.Routes.Tasks.{
  TaskResultRequest, pay, submit_task_result, find_active_node,
}
use decentralized_hive_mind.Orchestrator.Routes.Nodes.Bans.{
  Banned, register_contract, heartbeat_contract, ban_contract, find_active_node-none,
}
use decentralized_hive_mind.Orchestrator.Routes.Listings.Selected.{
  list_nodes-db, flagged_nodes-db, list_jobs-db, job_status-db,
}
use decentralized_hive_mind.Orchestrator.Service.{
  Setup, Call, register, alive, ban_request, unban_request, nodes_query, flagged_query, jobs_query,
  job_query, is_unban, job_request, result, tick, serve, serve_all,
}
use decentralized_hive_mind.Orchestrator.Service.Bans.{
  finalize-Banned, round-Banned, submit_job-Banned,
}

-- The error for an unknown node, or the failure of the first query.
abbrev pub IsRefusal : {A : Type 0} → AppResult A → Type 0
IsRefusal r =
    (r ≡ err (bad_request (text "unknown or banned node")))
    ⊎ ((msg : Text) × (r ≡ err (database msg)))

module _ (F K : Type 0) ⦃o : Float64 F⦄ ⦃d : Digest⦄ ⦃c : Ed25519 K⦄ (tools : TextTools)
    (show_uuid : Uuid → Text) (to_vec : ReceiptPayload F → Bytes) (signing_key : K)
    (key : Text) where
  pay-Banned :
      (task_id : Uuid) (node : NodeRow F) (task : SubTaskRow) (req : TaskResultRequest)
      (receipt_id : Uuid) (nonce : Bytes) (now : DateTime)
      → Contract
          (Banned key)
          (pay tools show_uuid to_vec signing_key task_id node task req receipt_id nonce now)
          (λ _. Banned key)
          (Banned key)
  unfolding pay
  pay-Banned task_id node task req receipt_id nonce now =
      bind_rule {Q = λ _. Banned key} _ _ (sql_rule _ (λ db b. b) (λ db b. b)) λ all_tasks.
        bind_rule {Q = λ _. Banned key} _ _
          (or_else_rule _ zero_f (
            bind_rule {Q = λ _. Banned key} _ _ (sql_rule _ (λ db b. b) (λ db b. b)) λ job.
              bind_rule {Q = λ _. Banned key} _ _ (ok_or_rule job _ (λ db b. b) (λ a db e b. b))
                λ row. pure_rule _ (λ db b. b)))
          λ total_payout.
            bind_rule {Q = λ _. Banned key} _ _
              (sql_rule _ (λ db b. b)
                (λ db b. Promises-unless (λ _. Banned key) (Banned key) _ db tt _ b b))
              λ _.
                bind_rule {Q = λ _. Banned key} _ _ (finalize-Banned F key task.job_id now)
                  λ _. pure_rule _ (λ db b. b)

  submit-Banned :
      (task_id : Uuid) (req : TaskResultRequest) (receipt_id : Uuid) (nonce : Bytes)
      (now : DateTime)
      → Contract
          (Banned key)
          (submit_task_result tools show_uuid to_vec signing_key task_id req receipt_id nonce now)
          (λ _. Banned key)
          (Banned key)
  unfolding submit_task_result
  submit-Banned task_id req receipt_id nonce now =
      bind_rule {Q = λ _. Banned key} _ _ (sql_rule _ (λ db b. b) (λ db b. b)) λ found_node.
        bind_rule {Q = λ _. Banned key} _ _ (ok_or_rule found_node _ (λ db b. b) (λ a db e b. b))
          λ node. bind_rule {Q = λ _. Banned key} _ _ (sql_rule _ (λ db b. b) (λ db b. b)) λ found.
            bind_rule {Q = λ _. Banned key} _ _ (ok_or_rule found _ (λ db b. b) (λ a db e b. b))
              λ task.
                bind_rule {Q = λ _. Banned key} _ _ (guard_rule _ _ (λ db b. b) (λ db e b. b)) λ _.
                  bind_rule {Q = λ _. Banned key} _ _ (lift_rule _ (λ db b. b) (λ a db e b. b)) λ _.
                    bind_rule {Q = λ _. Banned key} _ _ (sql_rule _ (λ db b. b) (λ db b. b)) λ _.
                      bind_rule {Q = λ _. Banned key} _ _
                        (sql_rule _ (λ db b. b)
                          (λ db b.
                            Promises-if (λ _. Banned key) (Banned key) (has_node node.id db) db tt _
                              b b))
                        λ _. pay-Banned task_id node task req receipt_id nonce now

  -- A result submitted under a banned key is refused, or the first query fails, and the tables and the
  -- stream are as before, whatever the times are: also after the time in `ban_expires_at`.
  pub submit_task_result-refused :
      (task_id : Uuid) (req : TaskResultRequest) (receipt_id : Uuid) (nonce : Bytes)
      (now : DateTime) (w : World F)
      → req.node_pubkey ≡ key
      → Banned key w.db
      → let after =
          submit_task_result tools show_uuid to_vec signing_key task_id req receipt_id nonce now
            w in
        IsRefusal after.0 × (after.1.db ≡ w.db) × (after.1.stream ≡ w.stream)
  unfolding submit_task_result actions
  submit_task_result-refused task_id req receipt_id nonce now w same b =
      let absent = find_active_node-none key w.db.nodes b.is_barred in
      let none_found : find_active_node req.node_pubkey w.db ≡ none = rw same absent in
      elim w.faults
          as (λ faults.
            w.faults ≡ faults
            → let after =
                submit_task_result tools show_uuid to_vec signing_key task_id req receipt_id nonce
                  now w in
              IsRefusal after.0 × (after.1.db ≡ w.db) × (after.1.stream ≡ w.stream)) [
                | [] ↦ λ e. (inl (ground arith), ground arith, ground arith)
                | none ∷ rest ↦ λ e. (inl (ground arith), ground arith, ground arith)
                | some msg ∷ rest ↦ λ e. (inr (msg, ground arith), ground arith, ground arith)
              ]
        refl

module _ (F K : Type 0) ⦃o : Float64 F⦄ ⦃d : Digest⦄ ⦃c : Ed25519 K⦄ (setup : Setup F K)
    (key : Text) where
  serve-Banned :
      (call : Call F) (w : World F)
      → is_unban call ≡ false
      → Banned key w.db
      → Banned key (serve setup call w).db
  unfolding serve
  serve-Banned (register req id now) w u b = kept _ (register_contract key req id now) w b
  serve-Banned (alive id now) w u b = kept _ (heartbeat_contract key id now) w b
  serve-Banned (ban_request req now) w u b = kept _ (ban_contract key setup.trim req now) w b
  serve-Banned (unban_request id) w u b = cc
  serve-Banned (nodes_query now) w u b = rw (list_nodes-db now w) b
  serve-Banned flagged_query w u b = rw (flagged_nodes-db w) b
  serve-Banned (jobs_query header) w u b = rw (list_jobs-db header w) b
  serve-Banned (job_query id) w u b = rw (job_status-db id w) b
  serve-Banned (job_request req id task_ids new_v4 now) w u b =
      kept _
        (submit_job-Banned F key setup.pii setup.describe setup.pgp_sym_encrypt
          setup.signing_key_hex req id task_ids new_v4 now)
        w b
  serve-Banned (result task_id req receipt_id nonce now) w u b =
      kept _
        (submit-Banned F K setup.tools setup.show_uuid setup.to_vec setup.signing_key key task_id
          req receipt_id nonce now)
        w b
  serve-Banned (tick locked now n) w u b = round-Banned F key locked now n w b

  -- A banned key stays banned whatever sequence of requests other than an unban, and of rounds, the
  -- orchestrator serves, registrations with that key included, whichever calls fail, and whatever the
  -- times are: also after the time in `ban_expires_at`, which nothing reads.
  pub serve_all-Banned :
      (calls : List (Call F)) (w : World F)
      → All (λ call. is_unban call ≡ false) calls
      → Banned key w.db
      → Banned key (serve_all setup calls w).db
  unfolding serve_all
  serve_all-Banned [] w u b = b
  serve_all-Banned (call ∷ calls) w u b = serve_all-Banned calls _ u.1 (serve-Banned call w u.0 b)
