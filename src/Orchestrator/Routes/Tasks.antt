-- ===== src/Orchestrator/Routes/Tasks.antt =====
-- orchestrator/src/routes/tasks.rs: a node submits the result of a sub-task and receives a signed
-- receipt.
pub mod Accepted
pub mod Receipts
use decentralized_hive_mind.Prelude.{
  ℕ, ◌+◌, ◌*◌, not, ◌&&◌, ◌||◌, Option, none, some, List, [], ◌∷◌, ◌++◌, map, filter, find, any,
  Text, Bytes, as_bytes, text, text_eq, unwrap_or, ◌==◌, if◌then◌else◌,
}
use decentralized_hive_mind.Prelude.Int.{pos}
use decentralized_hive_mind.Common.Float64.{Float64, zero_f}
use decentralized_hive_mind.Common.Crypto.{Digest, Ed25519}
use decentralized_hive_mind.Common.Identity.{sign_hex}
use decentralized_hive_mind.Common.Types.{
  Uuid, DateTime, edge, CreditReceipt, ReceiptPayload, signable_bytes, complete, is_complete,
  parse_role, parse_tier, as_i32, as_u32,
}
use decentralized_hive_mind.Common.Credits.{Contribution, node_credit_share}
use decentralized_hive_mind.Orchestrator.Error.{not_found, bad_request}
use decentralized_hive_mind.Orchestrator.Validator.{TextTools, validate_output}
use decentralized_hive_mind.Orchestrator.Db.{
  NodeRow, JobRow, SubTaskRow, task_complete, Db, Action, pure, ◌>>=◌, ◌>>◌, lift, ok_or, guard,
  or_else, sql, query, execute,
}
use decentralized_hive_mind.Orchestrator.Db.Rows.{find_task, update_task, insert_event}
use decentralized_hive_mind.Orchestrator.TaskManager.Finish.{
  event, row_not_found, finalize_job_if_ready,
}

pub record TaskResultRequest : Type 0 where
  pub output : Text
  pub proof_hash : Text
  pub node_pubkey : Text
  pub tokens_in : Option ℕ
  pub tokens_out : Option ℕ

-- `SELECT role, tokens_in, tokens_out FROM sub_tasks WHERE job_id = $1 AND status = 'complete'`, as
-- contributions. The tier of a completed task is not stored: it counts as `Edge`.
abbrev contribution : SubTaskRow → Contribution
contribution t = (
  as_u32 (unwrap_or t.tokens_in (pos 0)),
  as_u32 (unwrap_or t.tokens_out (pos 0)),
  parse_role t.role,
  edge,
)

abbrev job_contributions : {F : Type 0} → Uuid → Db F → List Contribution
job_contributions job db =
    map contribution (filter (λ t. t.job_id == job && is_complete t.status) db.sub_tasks)

-- The UPDATE of the handler.
abbrev pub store_result : Text → Uuid → ℕ → ℕ → DateTime → SubTaskRow → SubTaskRow
store_result output node_id tokens_in tokens_out now t = record t {
  status = complete;
  result = some output;
  assigned_node_id = some node_id;
  tokens_in = some (as_i32 tokens_in);
  tokens_out = some (as_i32 tokens_out);
  updated_at = now;
  completed_at = some now;
}

abbrev pub one_hour : ℕ
one_hour = 60 * 60 * 1000

module _ {F : Type 0} where
  -- `SELECT .. FROM nodes WHERE pubkey_hex = $1 AND is_banned = FALSE`
  abbrev pub find_active_node : Text → Db F → Option (NodeRow F)
  find_active_node pubkey db =
      find (λ (n : NodeRow F). text_eq n.pubkey_hex pubkey && not n.is_banned) db.nodes

  -- `SELECT budget_cap_credits FROM jobs WHERE id = $1`
  abbrev find_budget : Uuid → Db F → Option (JobRow F)
  find_budget job db = find (λ (j : JobRow F). j.id == job) db.jobs

  -- `INSERT INTO credit_receipts`: the id is the primary key, and the nonce is unique. The foreign keys
  -- hold, as the sub-task is there, and its job.
  abbrev pub insert_receipt : CreditReceipt F → Db F → Option (Unit {0} × Db F)
  insert_receipt r db =
      if any (λ (s : CreditReceipt F). s.id == r.id || text_eq s.nonce_hex r.nonce_hex)
        db.credit_receipts
      then none
      else some (tt, record db { credit_receipts = db.credit_receipts ++ r ∷ [] })

module _ {F K : Type 0} ⦃d : Digest⦄ ⦃c : Ed25519 K⦄ (to_vec : ReceiptPayload F → Bytes)
    (signing_key : K) where
  -- Steps 6 and 7: the receipt, signed over its other fields.
  unfoldable pub build_receipt :
      Uuid → Uuid → Text → F → ℕ → ℕ → Bytes → Uuid → DateTime → CreditReceipt F
  build_receipt task_id job_id node_pubkey credits tokens_in tokens_out nonce receipt_id now =
      let receipt : CreditReceipt F = record {
        id = receipt_id;
        job_id = job_id;
        sub_task_id = task_id;
        node_pubkey_hex = node_pubkey;
        credits = credits;
        tokens_in = tokens_in;
        tokens_out = tokens_out;
        nonce_hex = d.hex_encode nonce;
        issued_at = now;
        expires_at = now + one_hour;
        orchestrator_sig_hex = [];
      } in
      record receipt { orchestrator_sig_hex = sign_hex signing_key (signable_bytes to_vec receipt) }

module _ {F K : Type 0} ⦃o : Float64 F⦄ ⦃d : Digest⦄ ⦃c : Ed25519 K⦄ (tools : TextTools)
    (show_uuid : Uuid → Text) (to_vec : ReceiptPayload F → Bytes) (signing_key : K) where
  -- Steps 6 to 9, after the task has been marked complete. The id of the receipt and its nonce are
  -- random, and the time is that of `Utc::now()`.
  unfoldable pub pay :
      Uuid
      → NodeRow F
      → SubTaskRow
      → TaskResultRequest
      → Uuid
      → Bytes
      → DateTime
      → Action F (CreditReceipt F)
  pay task_id node task req receipt_id nonce now = do
    let tokens_in = unwrap_or req.tokens_in 0
    let tokens_out = unwrap_or req.tokens_out 0
    all_tasks ← query (job_contributions task.job_id)
    total_payout ←
        or_else
          (do
            job ← query (find_budget task.job_id)
            row ← ok_or job row_not_found
            pure row.budget_cap_credits)
          zero_f
    let credits =
        node_credit_share tokens_in tokens_out (parse_role task.role) (parse_tier node.tier)
          all_tasks total_payout node.jobs_completed
    let receipt =
        build_receipt to_vec signing_key task_id task.job_id req.node_pubkey credits tokens_in
          tokens_out nonce receipt_id now
    sql (insert_receipt receipt)
    finalize_job_if_ready task.job_id now
    pure receipt

  unfoldable pub submit_task_result :
      Uuid → TaskResultRequest → Uuid → Bytes → DateTime → Action F (CreditReceipt F)
  submit_task_result task_id req receipt_id nonce now = do
    found_node ← query (find_active_node req.node_pubkey)
    node ← ok_or found_node (bad_request (text "unknown or banned node"))
    found_task ← query (find_task task_id)
    task ← ok_or found_task not_found
    guard (not (is_complete task.status)) (bad_request (text "task already completed"))
    lift (
        validate_output tools (record {
          role = parse_role task.role;
          prompt_shard_bytes = as_bytes task.prompt_shard;
          output = req.output;
          node_proof_hash_hex = req.proof_hash;
        }))
    execute (
        update_task task_id (
          store_result req.output node.id (unwrap_or req.tokens_in 0) (unwrap_or req.tokens_out 0)
            now))
    let reason = text "task " ++ (show_uuid task_id ++ text " completed")
    sql (insert_event (event task_complete (pos 1) node.id reason now))
    pay task_id node task req receipt_id nonce now
