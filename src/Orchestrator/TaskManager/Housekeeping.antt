-- ===== src/Orchestrator/TaskManager/Housekeeping.antt =====
-- orchestrator/src/task_manager.rs: the periodic jobs, and the loop that runs them.
pub mod Scores
use decentralized_hive_mind.Orchestrator.TaskManager.Dispatch.{dispatch_ready_tasks}
use decentralized_hive_mind.Prelude.{
  ℕ, zero, suc, ◌+◌, ◌-◌, ◌%◌, ◌^◌, Bool, true, false, not, ◌&&◌, ◌||◌, Option, none, some, List,
  [], ◌∷◌, ◌++◌, map, filter, any, find, take, length, sort_by, Text, text, text_eq, ltb, ◌==◌,
  as_bytes, ◌*◌, if◌then◌else◌,
}
use decentralized_hive_mind.Prelude.Int.{ℤ, pos, negsuc}
use decentralized_hive_mind.Common.Float64.{Float64, zero_f, one_f}
use decentralized_hive_mind.Common.Types.{
  Uuid, DateTime, CreditReceipt, SubTaskStatus, pending, dispatched, complete, failed, is_pending,
  is_complete, parse_role,
}
use decentralized_hive_mind.Common.Crypto.{Digest}
use decentralized_hive_mind.Orchestrator.Validator.{TextTools, validate_output}
use decentralized_hive_mind.Common.Credits.{sum_from}
use decentralized_hive_mind.Orchestrator.Error.{AppError, AppResult, ok, err, redis, database}
use decentralized_hive_mind.Orchestrator.Db.{
  NodeRow, JobRow, job_complete, job_failed, SubTaskRow, ReputationEvent, EventType, task_complete,
  task_fail, NonceRow, Db, StreamEntry, World, Action, next_fault, pure, ◌>>=◌, ◌>>◌, or_else, sql,
  query, execute, ok_or, lift,
}
use decentralized_hive_mind.Orchestrator.Db.Rows.{
  find_task, update_task, update_job, has_node, insert_event,
}

abbrev thirty_days : ℕ
thirty_days = 30 * 24 * 60 * 60 * 1000

abbrev pub housekeeping_every_n : ℕ
housekeeping_every_n = 120

module _ {F : Type 0} ⦃o : Float64 F⦄ where
  -- Housekeeping
  abbrev drop_expired : DateTime → Db F → Db F
  drop_expired now db = record db {
    request_nonces = filter (λ n. not (ltb n.expires_at now)) db.request_nonces;
  }

  unfoldable pub cleanup_expired_nonces : DateTime → Action F (Unit {0})
  cleanup_expired_nonces now = execute (drop_expired now)

  -- `LEAST(1.0, GREATEST(0.0, x))`
  unfoldable pub least_greatest : F → F
  least_greatest x =
      let y = if o.le zero_f x then x else zero_f in if o.le y one_f then y else one_f

  abbrev is_recent : Uuid → DateTime → ReputationEvent F → Bool
  is_recent node now e = e.node_id == node && ltb now (e.occurred_at + thirty_days)

  unfoldable pub node_score : DateTime → Db F → Uuid → F
  node_score now db node =
      let deltas =
        map (λ (e : ReputationEvent F). e.delta)
          (filter (is_recent node now) db.reputation_events) in
      least_greatest (o.add (o.hundredths (pos 50)) (sum_from zero_f deltas))

  abbrev pub rescore : DateTime → Db F → NodeRow F → NodeRow F
  rescore now db n =
      if n.is_banned then n else record n { reputation_score = node_score now db n.id }

  unfoldable pub recompute_reputation_scores : DateTime → Action F (Unit {0})
  recompute_reputation_scores now =
      execute (λ db. record db { nodes = map (rescore now db) db.nodes })

  -- One round of the loop of `spawn_task_manager`: errors are logged, and do not stop it.
  unfoldable pub round : (Uuid → Bool) → DateTime → ℕ → World F → ℕ × World F
  round locked now tick w =
      let w₁ = (dispatch_ready_tasks locked now w).1 in
      let w₂ =
        if tick % housekeeping_every_n == 0
        then (recompute_reputation_scores now (cleanup_expired_nonces now w₁).1).1
        else w₁ in
      ((tick + 1) % 2 ^ 64, w₂)
