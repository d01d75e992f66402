-- ===== src/Orchestrator/TaskManager/Dispatch.antt =====
-- orchestrator/src/task_manager.rs: the dispatcher.
pub mod Claims
pub mod Picked
pub mod Effects
use decentralized_hive_mind.Prelude.{
  ℕ, zero, suc, ◌+◌, ◌-◌, ◌%◌, ◌^◌, Bool, true, false, not, ◌&&◌, ◌||◌, Option, none, some, List,
  [], ◌∷◌, ◌++◌, map, filter, any, find, take, length, sort_by, Text, text, text_eq, ltb, ◌==◌,
  as_bytes, ◌*◌, if◌then◌else◌,
}
use decentralized_hive_mind.Prelude.Int.{ℤ, pos, negsuc}
use decentralized_hive_mind.Common.Float64.{Float64, zero_f, one_f}
use decentralized_hive_mind.Common.Types.{
  Uuid, DateTime, CreditReceipt, SubTaskStatus, pending, dispatched, complete, failed, is_pending,
  is_complete, parse_role,
}
use decentralized_hive_mind.Common.Crypto.{Digest}
use decentralized_hive_mind.Orchestrator.Validator.{TextTools, validate_output}
use decentralized_hive_mind.Common.Credits.{sum_from}
use decentralized_hive_mind.Orchestrator.Error.{AppError, AppResult, ok, err, redis, database}
use decentralized_hive_mind.Orchestrator.Db.{
  NodeRow, JobRow, job_complete, job_failed, SubTaskRow, ReputationEvent, EventType, task_complete,
  task_fail, NonceRow, Db, StreamEntry, World, Action, next_fault, pure, ◌>>=◌, ◌>>◌, or_else, sql,
  query, execute, ok_or, lift,
}
use decentralized_hive_mind.Orchestrator.Db.Rows.{
  find_task, update_task, update_job, has_node, insert_event,
}

abbrev pub dispatch_limit : ℕ
dispatch_limit = 50

-- The sub-query of `NOT EXISTS`: a task of the same job that comes earlier and is not complete.
abbrev pub holds_back : SubTaskRow → SubTaskRow → Bool
holds_back st dep =
    dep.job_id == st.job_id && ltb dep.position st.position && not (is_complete dep.status)

abbrev pub is_eligible : List SubTaskRow → SubTaskRow → Bool
is_eligible tasks st = is_pending st.status && not (any (holds_back st) tasks)

-- `eligible`: the ids of at most 50 rows, the oldest first. Rows that another replica has locked
-- are skipped; rows of one age come in the order of the table.
unfoldable pub eligible : (Uuid → Bool) → List SubTaskRow → List Uuid
eligible locked tasks =
    map (λ t. t.id)
      (take dispatch_limit (
        sort_by (λ t. t.created_at) (filter (λ t. is_eligible tasks t && not (locked t.id)) tasks)))

abbrev pub mem_id : List Uuid → Uuid → Bool
mem_id ids id = any (λ i. i == id) ids

abbrev pub dispatch_row : List Uuid → DateTime → SubTaskRow → SubTaskRow
dispatch_row ids now t =
    if mem_id ids t.id then record t { status = dispatched; updated_at = now } else t

abbrev pub entry_of : SubTaskRow → StreamEntry
entry_of t = record {
  task_id = t.id;
  job_id = t.job_id;
  role = t.role;
  prompt_shard = t.prompt_shard;
  min_tier = t.min_tier;
  agent_index = t.agent_index;
}

module _ {F : Type 0} where
  -- The statement that claims the rows and returns them.
  unfoldable pub claim : (Uuid → Bool) → DateTime → Db F → List StreamEntry × Db F
  claim locked now db =
      let ids = eligible locked db.sub_tasks in
      (
        map entry_of (filter (λ t. mem_id ids t.id) db.sub_tasks),
        record db { sub_tasks = map (dispatch_row ids now) db.sub_tasks },
      )

  -- `XADD subtasks * payload ..`
  unfoldable pub xadd : StreamEntry → Action F (Unit {0})
  xadd e w =
      let (fault, w') = next_fault w in
      elim fault [
        | none ↦ (ok tt, record w' { stream = w'.stream ++ e ∷ [] })
        | some msg ↦ (err (redis msg), w')
      ]

  unfoldable pub push_all : List StreamEntry → Action F (Unit {0})
  push_all [] = pure tt
  push_all (e ∷ es) = xadd e >>= λ _. push_all es

  unfoldable pub dispatch_ready_tasks : (Uuid → Bool) → DateTime → Action F (Unit {0})
  dispatch_ready_tasks locked now = do
    ready ← sql (λ db. some (claim locked now db))
    push_all ready
