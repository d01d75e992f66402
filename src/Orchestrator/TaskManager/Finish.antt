-- ===== src/Orchestrator/TaskManager/Finish.antt =====
-- orchestrator/src/task_manager.rs: how sub-tasks and jobs complete and fail.
pub mod Jobs
pub mod Failures
use decentralized_hive_mind.Prelude.{
  ℕ, zero, suc, ◌+◌, ◌-◌, ◌%◌, ◌^◌, Bool, true, false, not, ◌&&◌, ◌||◌, Option, none, some, List,
  [], ◌∷◌, ◌++◌, map, filter, any, find, take, length, sort_by, Text, text, text_eq, ltb, ◌==◌,
  as_bytes, ◌*◌, if◌then◌else◌,
}
use decentralized_hive_mind.Prelude.Int.{ℤ, pos, negsuc}
use decentralized_hive_mind.Common.Float64.{Float64, zero_f, one_f}
use decentralized_hive_mind.Common.Types.{
  Uuid, DateTime, CreditReceipt, SubTaskStatus, pending, dispatched, complete, failed, is_pending,
  is_complete, parse_role,
}
use decentralized_hive_mind.Common.Crypto.{Digest}
use decentralized_hive_mind.Orchestrator.Validator.{TextTools, validate_output}
use decentralized_hive_mind.Common.Credits.{sum_from}
use decentralized_hive_mind.Orchestrator.Error.{AppError, AppResult, ok, err, redis, database}
use decentralized_hive_mind.Orchestrator.Db.{
  NodeRow, JobRow, job_complete, job_failed, SubTaskRow, ReputationEvent, EventType, task_complete,
  task_fail, NonceRow, Db, StreamEntry, World, Action, next_fault, pure, ◌>>=◌, ◌>>◌, or_else, sql,
  query, execute, ok_or, lift,
}
use decentralized_hive_mind.Orchestrator.Db.Rows.{
  find_task, update_task, update_job, has_node, insert_event,
}

abbrev pub max_retries : ℕ
max_retries = 3

abbrev pub complete_row : Text → Uuid → DateTime → SubTaskRow → SubTaskRow
complete_row output node_id now t = record t {
  status = complete;
  result = some output;
  assigned_node_id = some node_id;
  updated_at = now;
}

-- `fetch_one` of a row that is not there
abbrev pub row_not_found : AppError
row_not_found =
    database (text "no rows returned by a query that expected to return at least one row")

abbrev pub retry_row : DateTime → SubTaskRow → SubTaskRow
retry_row now t = record t {
  status = pending;
  retry_count = t.retry_count + 1;
  assigned_node_id = none;
  updated_at = now;
}

abbrev pub fail_row : DateTime → SubTaskRow → SubTaskRow
fail_row now t = record t { status = failed; updated_at = now }

-- `SELECT .. FROM sub_tasks WHERE job_id = $1 AND status != 'complete'`
abbrev pub incomplete : Uuid → List SubTaskRow → List SubTaskRow
incomplete job = filter (λ t. t.job_id == job && not (is_complete t.status))

module _ {F : Type 0} ⦃o : Float64 F⦄ where
  -- `SELECT COALESCE(SUM(credits), 0.0) FROM credit_receipts WHERE job_id = $1`
  unfoldable pub job_cost : Uuid → Db F → F
  job_cost job db =
      let receipts = filter (λ (r : CreditReceipt F). r.job_id == job) db.credit_receipts in
      sum_from zero_f (map (λ (r : CreditReceipt F). r.credits) receipts)

  abbrev pub complete_job : DateTime → F → JobRow F → JobRow F
  complete_job now cost j = record j {
    status = job_complete;
    total_cost_credits = some cost;
    completed_at = some now;
    updated_at = now;
  }

  -- The branch of `finalize_job_if_ready` for a count of zero.
  unfoldable pub finish_job : Uuid → DateTime → Action F (Unit {0})
  finish_job job now = do
    total_cost ← or_else (query (job_cost job)) zero_f
    execute (update_job job (complete_job now total_cost))

  unfoldable pub finalize_job_if_ready : Uuid → DateTime → Action F (Unit {0})
  finalize_job_if_ready job now = do
    pending_count ← query (λ db. length (incomplete job db.sub_tasks))
    if pending_count == 0 then finish_job job now else pure tt

  -- The UPDATE of `complete_task`; the node is a foreign key.
  abbrev complete_stmt : Uuid → Text → Uuid → DateTime → Db F → Option (Unit {0} × Db F)
  complete_stmt task_id output node_id now db =
      if has_node node_id db
      then some (tt, update_task task_id (complete_row output node_id now) db)
      else none

  abbrev pub event : EventType → ℤ → Uuid → Text → DateTime → ReputationEvent F
  event kind delta node_id reason now = record {
    node_id = node_id;
    event_type = kind;
    delta = o.hundredths delta;
    reason = reason;
    occurred_at = now;
  }

  abbrev pub fail_job : DateTime → JobRow F → JobRow F
  fail_job now j = record j { status = job_failed; updated_at = now }

  unfoldable pub retry_or_fail : Uuid → SubTaskRow → DateTime → Action F (Unit {0})
  retry_or_fail task_id task now =
      if ltb task.retry_count max_retries
      then execute (update_task task_id (retry_row now))
      else execute (update_task task_id (fail_row now))
        >> execute (update_job task.job_id (fail_job now))

  module _ (tools : TextTools) ⦃d : Digest⦄ (show_uuid : Uuid → Text) where
    unfoldable pub complete_task : Uuid → Uuid → Text → Text → DateTime → Action F (Unit {0})
    complete_task task_id node_id output proof_hash now = do
      found ← query (find_task task_id)
      task ← ok_or found row_not_found
      lift (
          validate_output tools (record {
            role = parse_role task.role;
            prompt_shard_bytes = as_bytes task.prompt_shard;
            output = output;
            node_proof_hash_hex = proof_hash;
          }))
      sql (complete_stmt task_id output node_id now)
      let reason = text "task " ++ (show_uuid task_id ++ text " completed")
      sql (insert_event (event task_complete (pos 1) node_id reason now))
      finalize_job_if_ready task.job_id now

  module _ (show_uuid : Uuid → Text) where
    unfoldable pub fail_task : Uuid → Uuid → Text → DateTime → Action F (Unit {0})
    fail_task task_id node_id reason now = do
      found ← query (find_task task_id)
      task ← ok_or found row_not_found
      let why = text "task " ++ (show_uuid task_id ++ (text " failed: " ++ reason))
      sql (insert_event (event task_fail (negsuc 4) node_id why now))
      retry_or_fail task_id task now
