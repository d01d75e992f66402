-- ===== src/Orchestrator/Service/Safety.antt =====
-- The invariant of the tables, and the requests and rounds of the orchestrator.
use decentralized_hive_mind.Prelude.{
  ℕ, ◌%◌, inl, inr, Bool, Option, none, some, find, any, List, [], ◌∷◌, Text, Bool-cases, ◌==◌,
}
use decentralized_hive_mind.Common.Float64.{Float64}
use decentralized_hive_mind.Common.Crypto.{Digest, Ed25519}
use decentralized_hive_mind.Common.Types.{Uuid, DateTime}
use decentralized_hive_mind.Orchestrator.Db.{NodeRow, Db, World}
use decentralized_hive_mind.Orchestrator.Db.Rows.{has_node}
use decentralized_hive_mind.Orchestrator.Db.Contracts.{
  Contract, Promises, sql_rule, pure_rule, guard_rule, bind_rule, Promises-if, Promises-unless,
  kept,
}
use decentralized_hive_mind.Orchestrator.TaskManager.Housekeeping.{
  round, housekeeping_every_n, cleanup_expired_nonces, recompute_reputation_scores,
}
use decentralized_hive_mind.Orchestrator.Invariant.{Inv}
use decentralized_hive_mind.Orchestrator.Invariant.Handlers.{dispatch-Inv}
use decentralized_hive_mind.Orchestrator.Invariant.Submit.{submit_task_result-Inv}
use decentralized_hive_mind.Orchestrator.Routes.Nodes.{
  RegisterRequest, BanRequest, upsert, upsert_row, register_node, heartbeat, ban_node, unban_node,
  has_key,
}
use decentralized_hive_mind.Orchestrator.Routes.Jobs.Seeded.{submit_job_contract}
use decentralized_hive_mind.Orchestrator.Routes.Listings.Selected.{
  list_nodes-db, flagged_nodes-db, list_jobs-db, job_status-db,
}
use decentralized_hive_mind.Orchestrator.Service.{
  Setup, Call, register, alive, ban_request, unban_request, nodes_query, flagged_query, jobs_query,
  job_query, job_request, result, tick, serve, serve_all,
}

module _ (F : Type 0) ⦃o : Float64 F⦄ where
  upsert_row-Inv :
      (found : Option (NodeRow F)) (req : RegisterRequest) (id : Uuid) (now : DateTime) (db : Db F)
      → Inv db
      → Promises (λ _. Inv) Inv db (upsert_row found req id now db)
  upsert_row-Inv (some n) req id now db v = v
  upsert_row-Inv none req id now db v =
      Promises-unless (λ _. Inv) Inv (any (λ (n : NodeRow F). n.id == id) db.nodes) db id _ v v

  register-Inv :
      ⦃d : Digest⦄ (req : RegisterRequest) (id : Uuid) (now : DateTime)
      → Contract {F = F} Inv (register_node req id now) (λ _. Inv) Inv
  unfolding register_node upsert
  register-Inv req id now =
      bind_rule {Q = λ _. Inv} _ _ (guard_rule _ _ (λ db v. v) (λ db e v. v)) λ _.
        sql_rule _ (λ db v. v)
          (λ db v. upsert_row-Inv (find (has_key req.pubkey_hex) db.nodes) req id now db v)

  heartbeat-Inv :
      (id : Uuid) (now : DateTime) → Contract {F = F} Inv (heartbeat id now) (λ _. Inv) Inv
  unfolding heartbeat
  heartbeat-Inv id now =
      bind_rule {Q = λ _. Inv} _ _ (sql_rule _ (λ db v. v) (λ db v. v))
        λ rows. guard_rule _ _ (λ db v. v) (λ db e v. v)

  ban-Inv :
      (trim : Text → Text) (req : BanRequest) (now : DateTime)
      → Contract {F = F} Inv (ban_node trim req now) (λ _. Inv) Inv
  unfolding ban_node
  ban-Inv trim req now =
      bind_rule {Q = λ _. Inv} _ _ (guard_rule _ _ (λ db v. v) (λ db e v. v)) λ _.
        bind_rule {Q = λ _. Inv} _ _ (sql_rule _ (λ db v. v) (λ db v. v)) λ rows.
          bind_rule {Q = λ _. Inv} _ _ (guard_rule _ _ (λ db v. v) (λ db e v. v)) λ _.
            sql_rule _ (λ db v. v)
              (λ db v. Promises-if (λ _. Inv) Inv (has_node req.node_id db) db tt _ v v)

  unban-Inv : (id : Uuid) → Contract {F = F} Inv (unban_node id) (λ _. Inv) Inv
  unfolding unban_node
  unban-Inv id =
      bind_rule {Q = λ _. Inv} _ _ (sql_rule _ (λ db v. v) (λ db v. v))
        λ rows. pure_rule tt (λ db v. v)

  housekeeping-Inv :
      (now : DateTime) (w : World F)
      → Inv w.db
      → Inv (recompute_reputation_scores now (cleanup_expired_nonces now w).1).1.db
  unfolding recompute_reputation_scores cleanup_expired_nonces
  housekeeping-Inv now w v =
      kept {P = Inv} {I = Inv} _ (sql_rule _ (λ db v. v) (λ db v. v)) _
        (kept {P = Inv} {I = Inv} _ (sql_rule _ (λ db v. v) (λ db v. v)) w v)

  round-Inv :
      (locked : Uuid → Bool) (now : DateTime) (n : ℕ) (w : World F)
      → Inv w.db
      → Inv (round locked now n w).1.db
  unfolding round
  round-Inv locked now n w v =
      let dispatched = dispatch-Inv F locked now w v in
      elim (Bool-cases (n % housekeeping_every_n == 0)) [
        | inl t ↦ rw t (housekeeping-Inv now _ dispatched)
        | inr f ↦ rw f dispatched
      ]

module _ (F K : Type 0) ⦃o : Float64 F⦄ ⦃d : Digest⦄ ⦃c : Ed25519 K⦄ (setup : Setup F K) where
  pub serve-Inv : (call : Call F) (w : World F) → Inv w.db → Inv (serve setup call w).db
  unfolding serve
  serve-Inv (register req id now) w v = kept _ (register-Inv F req id now) w v
  serve-Inv (alive id now) w v = kept _ (heartbeat-Inv F id now) w v
  serve-Inv (ban_request req now) w v = kept _ (ban-Inv F setup.trim req now) w v
  serve-Inv (unban_request id) w v = kept _ (unban-Inv F id) w v
  serve-Inv (nodes_query now) w v = rw (list_nodes-db now w) v
  serve-Inv flagged_query w v = rw (flagged_nodes-db w) v
  serve-Inv (jobs_query header) w v = rw (list_jobs-db header w) v
  serve-Inv (job_query id) w v = rw (job_status-db id w) v
  serve-Inv (job_request req id task_ids new_v4 now) w v =
      kept _
        (submit_job_contract F setup.pii setup.describe setup.pgp_sym_encrypt setup.signing_key_hex
          req id task_ids new_v4 now)
        w v
  serve-Inv (result task_id req receipt_id nonce now) w v =
      submit_task_result-Inv F K setup.tools setup.show_uuid setup.to_vec setup.signing_key task_id
        req receipt_id nonce now w v
  serve-Inv (tick locked now n) w v = round-Inv F locked now n w v

  -- Whatever requests and rounds the orchestrator serves, and whichever calls fail, the tables keep
  -- the invariant: the ids of sub-tasks are unique, no sub-task is dispatched before the earlier ones
  -- of its job are complete, a complete job has complete sub-tasks only, no sub-task has been retried
  -- more than three times, sub-tasks belong to jobs, and each receipt is for a complete sub-task that
  -- has no other receipt.
  pub serve_all-Inv :
      (calls : List (Call F)) (w : World F) → Inv w.db → Inv (serve_all setup calls w).db
  unfolding serve_all
  serve_all-Inv [] w v = v
  serve_all-Inv (call ∷ calls) w v = serve_all-Inv calls _ (serve-Inv call w v)
