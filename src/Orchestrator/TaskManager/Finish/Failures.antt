-- ===== src/Orchestrator/TaskManager/Finish/Failures.antt =====
-- What orchestrator/src/task_manager.rs does when a task has failed.
use decentralized_hive_mind.Prelude.{
  ◌+◌, ◌≡◌, ◌≢◌, ◌<◌, ◌≤◌, refl, true, none, some, [], ◌∷◌, ◌++◌, Text, arith, if◌then◌else◌, ◌==◌,
  ltb, text, ◌⊎◌, Pointwise, Pointwise-map, inl, inr, Bool-cases,
}
use decentralized_hive_mind.Prelude.Int.{negsuc}
use decentralized_hive_mind.Common.Float64.{Float64}
use decentralized_hive_mind.Common.Types.{Uuid, DateTime, pending, failed}
use decentralized_hive_mind.Orchestrator.Error.{ok}
use decentralized_hive_mind.Orchestrator.Db.{
  JobRow, job_failed, SubTaskRow, ReputationEvent, Db, World, actions, task_fail,
}
use decentralized_hive_mind.Orchestrator.Db.Rows.{update_job, update_task, find_task, has_node}
use decentralized_hive_mind.Orchestrator.TaskManager.Finish.{
  fail_task, retry_or_fail, retry_row, fail_row, fail_job, max_retries,
}

-- The row of the task waits again, one try more, with no node; any other row is as before.
abbrev pub IsRetried : Uuid → DateTime → SubTaskRow → SubTaskRow → Type 0
IsRetried task_id now old new =
    ((old.id ≡ task_id)
      × (new ≡ record old {
        status = pending;
        retry_count = old.retry_count + 1;
        assigned_node_id = none;
        updated_at = now;
      }))
    ⊎ ((old.id ≢ task_id) × (new ≡ old))

-- The row of the task has failed; any other row is as before.
abbrev pub IsFailed : Uuid → DateTime → SubTaskRow → SubTaskRow → Type 0
IsFailed task_id now old new =
    ((old.id ≡ task_id) × (new ≡ record old { status = failed; updated_at = now }))
    ⊎ ((old.id ≢ task_id) × (new ≡ old))

module _ (F : Type 0) ⦃o : Float64 F⦄ where
  -- The row of the job has failed; any other row is as before.
  abbrev pub IsGivenUp : Uuid → DateTime → JobRow F → JobRow F → Type 0
  IsGivenUp job now old new =
      ((old.id ≡ job) × (new ≡ record old { status = job_failed; updated_at = now }))
      ⊎ ((old.id ≢ job) × (new ≡ old))

  -- An event that takes 0.05 from the score of a node.
  abbrev pub loss : Uuid → Text → DateTime → ReputationEvent F
  loss node_id reason now = record {
    node_id = node_id;
    event_type = task_fail;
    delta = o.hundredths (negsuc 4);
    reason = reason;
    occurred_at = now;
  }

  -- What a failure of a task makes of the tables, its event apart.
  abbrev changed : Uuid → SubTaskRow → DateTime → Db F → Db F
  changed task_id task now db =
      if ltb task.retry_count max_retries
      then update_task task_id (retry_row now) db
      else update_job task.job_id (fail_job now) (update_task task_id (fail_row now) db)

  failed_as :
      (show_uuid : Uuid → Text) (task_id node_id : Uuid) (reason : Text) (now : DateTime)
      (task : SubTaskRow) (w : World F)
      → w.faults ≡ []
      → find_task task_id w.db ≡ some task
      → has_node node_id w.db ≡ true
      → let why = text "task " ++ (show_uuid task_id ++ (text " failed: " ++ reason)) in
        fail_task show_uuid task_id node_id reason now w ≡ (
          ok tt,
          record w {
            db = changed task_id task now (record (w.db) {
              reputation_events = w.db.reputation_events ++ loss node_id why now ∷ [];
            });
          },
        )
  unfolding fail_task retry_or_fail actions
  failed_as show_uuid task_id node_id reason now task w h found known = ground arith

  retry_row-IsRetried :
      (task_id : Uuid) (now : DateTime) (db : Db F)
      → Pointwise
          (IsRetried task_id now)
          db.sub_tasks
          (update_task task_id (retry_row now) db).sub_tasks
  retry_row-IsRetried task_id now db =
      Pointwise-map (IsRetried task_id now) (λ t. if t.id == task_id then retry_row now t else t)
        db.sub_tasks
        (λ t. elim (Bool-cases (t.id == task_id)) [
          | inl e ↦ inl (ground arith, rw e refl)
          | inr n ↦ inr (λ e. ground arith, rw n refl)
        ])

  fail_row-IsFailed :
      (task_id : Uuid) (now : DateTime) (db : Db F)
      → Pointwise
          (IsFailed task_id now)
          db.sub_tasks
          (update_task task_id (fail_row now) db).sub_tasks
  fail_row-IsFailed task_id now db =
      Pointwise-map (IsFailed task_id now) (λ t. if t.id == task_id then fail_row now t else t)
        db.sub_tasks
        (λ t. elim (Bool-cases (t.id == task_id)) [
          | inl e ↦ inl (ground arith, rw e refl)
          | inr n ↦ inr (λ e. ground arith, rw n refl)
        ])

  fail_job-IsGivenUp :
      (job : Uuid) (now : DateTime) (db : Db F)
      → Pointwise (IsGivenUp job now) db.jobs (update_job job (fail_job now) db).jobs
  fail_job-IsGivenUp job now db =
      Pointwise-map (IsGivenUp job now) (λ j. if j.id == job then fail_job now j else j) db.jobs
        (λ j. elim (Bool-cases (j.id == job)) [
          | inl e ↦ inl (ground arith, rw e refl)
          | inr n ↦ inr (λ e. ground arith, rw n refl)
        ])

  -- Without failures of calls, for a task and a node that exist: an event that takes 0.05 from the
  -- node's score is appended; if the task has been tried again fewer than three times, its row waits
  -- again, with one try more and no node, and the jobs are as before; else its row and its job's row
  -- have failed. Other rows, and all else, are as before.
  pub fail_task_ok :
      (show_uuid : Uuid → Text) (task_id node_id : Uuid) (reason : Text) (now : DateTime)
      (task : SubTaskRow) (w : World F)
      → w.faults ≡ []
      → find_task task_id w.db ≡ some task
      → has_node node_id w.db ≡ true
      → let after = fail_task show_uuid task_id node_id reason now w in
        let why = text "task " ++ (show_uuid task_id ++ (text " failed: " ++ reason)) in
        (((task.retry_count < 3)
            × Pointwise (IsRetried task_id now) w.db.sub_tasks after.1.db.sub_tasks
            × (after.1.db.jobs ≡ w.db.jobs))
          ⊎ ((3 ≤ task.retry_count)
              × Pointwise (IsFailed task_id now) w.db.sub_tasks after.1.db.sub_tasks
              × Pointwise (IsGivenUp task.job_id now) w.db.jobs after.1.db.jobs))
        × (after ≡ (
          ok tt,
          record w {
            db = record (w.db) {
              sub_tasks = after.1.db.sub_tasks;
              jobs = after.1.db.jobs;
              reputation_events = w.db.reputation_events ++ loss node_id why now ∷ [];
            };
          },
        ))
  fail_task_ok show_uuid task_id node_id reason now task w h found known =
      let done = failed_as show_uuid task_id node_id reason now task w h found known in
      elim (Bool-cases (ltb task.retry_count max_retries)) [
        | inl few ↦ (
          inl (
            ground arith,
            rw (done, few) (retry_row-IsRetried task_id now w.db),
            rw (done, few) refl,
          ),
          rw (done, few) refl,
        )
        | inr many ↦ (
          inr (
            ground arith,
            rw (done, many) (fail_row-IsFailed task_id now w.db),
            rw (done, many) (fail_job-IsGivenUp task.job_id now w.db),
          ),
          rw (done, many) refl,
        )
      ]
