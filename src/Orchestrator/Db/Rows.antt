-- ===== src/Orchestrator/Db/Rows.antt =====
-- The SQL that several handlers share: rows by key, and appended rows.
use decentralized_hive_mind.Prelude.{
  Bool, Option, none, some, [], ◌∷◌, ◌++◌, map, find, any, ◌==◌, if◌then◌else◌,
}
use decentralized_hive_mind.Common.Types.{Uuid}
use decentralized_hive_mind.Orchestrator.Db.{NodeRow, JobRow, SubTaskRow, ReputationEvent, Db}

module _ {F : Type 0} where
  -- `SELECT .. FROM sub_tasks WHERE id = $1`
  abbrev pub find_task : Uuid → Db F → Option SubTaskRow
  find_task id db = find (λ t. t.id == id) db.sub_tasks

  -- `UPDATE sub_tasks SET .. WHERE id = $1`
  abbrev pub update_task : Uuid → (SubTaskRow → SubTaskRow) → Db F → Db F
  update_task id f db = record db {
    sub_tasks = map (λ t. if t.id == id then f t else t) db.sub_tasks;
  }

  -- `UPDATE jobs SET .. WHERE id = $1`
  abbrev pub update_job : Uuid → (JobRow F → JobRow F) → Db F → Db F
  update_job id f db = record db { jobs = map (λ j. if j.id == id then f j else j) db.jobs }

  abbrev pub has_node : Uuid → Db F → Bool
  has_node id db = any (λ (n : NodeRow F). n.id == id) db.nodes

  -- `INSERT INTO reputation_events`; the node is a foreign key.
  abbrev pub insert_event : ReputationEvent F → Db F → Option (Unit {0} × Db F)
  insert_event e db =
      if has_node e.node_id db
      then some (tt, record db { reputation_events = db.reputation_events ++ e ∷ [] })
      else none
