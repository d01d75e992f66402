-- ===== src/Orchestrator/Tests/Rounds.antt =====
-- Examples of the background work of the orchestrator: dispatch, the end of a job, a failure.
use decentralized_hive_mind.Prelude.{
  ◌≡◌, ◌≢◌, ◌<◌, ◌≤◌, refl, inl, inr, true, false, none, some, List, [], ◌∷◌, ◌++◌, In, text, arith,
  Pointwise, ◌⊎◌,
}
use decentralized_hive_mind.Prelude.Int.{ℤ, pos, ◌+ℤ◌}
use decentralized_hive_mind.Common.Float64.{zero_f}
use decentralized_hive_mind.Common.Float64.Fixed.{fixed}
use decentralized_hive_mind.Common.Crypto.Sample.{sample_digest, sample}
use decentralized_hive_mind.Common.Types.{complete, CreditReceipt}
use decentralized_hive_mind.Orchestrator.Error.{ok, err, redis}
use decentralized_hive_mind.Orchestrator.Db.{SubTaskRow, World}
use decentralized_hive_mind.Orchestrator.Routes.Tasks.{build_receipt}
use decentralized_hive_mind.Orchestrator.TaskManager.Dispatch.{dispatch_ready_tasks}
use decentralized_hive_mind.Orchestrator.TaskManager.Dispatch.Picked.{IsPicked, IsMarked}
use decentralized_hive_mind.Orchestrator.TaskManager.Dispatch.Effects.{dispatch_ready_tasks_lost}
use decentralized_hive_mind.Orchestrator.TaskManager.Finish.{finalize_job_if_ready, fail_task}
use decentralized_hive_mind.Orchestrator.TaskManager.Finish.Jobs.{
  AllComplete, added, IsCompleted, finalize_job_if_ready_ok,
}
use decentralized_hive_mind.Orchestrator.TaskManager.Finish.Failures.{
  IsRetried, IsFailed, IsGivenUp, loss, fail_task_ok,
}
use decentralized_hive_mind.Orchestrator.Tests.Fixtures.{
  show_uuid, to_vec, node_key, first_task, second_task, db, world, nonce,
}

-- The first task is complete, and the second can be dispatched.
abbrev halfway : World ℤ
halfway = record world {
  db = record db { sub_tasks = record first_task { status = complete } ∷ second_task ∷ [] };
}

abbrev unlucky : World ℤ
unlucky = record halfway { faults = none ∷ some (text "down") ∷ [] }

dispatch_ready_tasks_lost_example :
    let after = dispatch_ready_tasks (λ i. false) 40 unlucky in
    (rows : List SubTaskRow) × IsPicked (λ i. false) unlucky.db.sub_tasks rows
    × ((s : SubTaskRow) × In s rows)
    × Pointwise (IsMarked rows 40) unlucky.db.sub_tasks after.1.db.sub_tasks
    × (after ≡ (
      err (redis (text "down")),
      record unlucky { db = record (unlucky.db) { sub_tasks = after.1.db.sub_tasks }; faults = [] },
    ))
dispatch_ready_tasks_lost_example =
    dispatch_ready_tasks_lost (λ i. false) 40 unlucky (text "down") [] second_task refl
      (inr (inl refl)) (refl, λ d m j p. ground arith) refl

-- Both tasks of the job 10 are complete, and each has been paid.
abbrev receipt : CreditReceipt ℤ
receipt = build_receipt to_vec true 100 10 node_key (pos 30) 3 4 nonce 500 30

abbrev finished : World ℤ
finished = record world {
  db = record db {
    sub_tasks =
        record first_task { status = complete } ∷ record second_task { status = complete } ∷ [];
    credit_receipts = receipt ∷ record receipt { sub_task_id = 101; credits = pos 12 } ∷ [];
  };
}

finished_cost : added ℤ 10 zero_f finished.db.credit_receipts ≡ pos 42
unfolding build_receipt ◌+ℤ◌
finished_cost = refl

finalize_job_if_ready_ok_example :
    let after = finalize_job_if_ready 10 40 finished in
    (AllComplete 10 finished.db.sub_tasks
      × Pointwise
          (IsCompleted ℤ 10 40 (added ℤ 10 zero_f finished.db.credit_receipts))
          finished.db.jobs
          after.1.db.jobs
      × (after ≡ (ok tt, record finished { db = record (finished.db) { jobs = after.1.db.jobs } })))
    ⊎ (((t : SubTaskRow) × In t finished.db.sub_tasks × (t.job_id ≡ 10) × (t.status ≢ complete))
        × (after ≡ (ok tt, finished)))
finalize_job_if_ready_ok_example = finalize_job_if_ready_ok ℤ 10 40 finished refl

all_complete : AllComplete 10 finished.db.sub_tasks
all_complete t m e = ground arith

fail_task_ok_example :
    let after = fail_task show_uuid 100 1 (text "late") 40 world in
    let why = text "task " ++ (show_uuid 100 ++ (text " failed: " ++ text "late")) in
    (((first_task.retry_count < 3)
        × Pointwise (IsRetried 100 40) world.db.sub_tasks after.1.db.sub_tasks
        × (after.1.db.jobs ≡ world.db.jobs))
      ⊎ ((3 ≤ first_task.retry_count)
          × Pointwise (IsFailed 100 40) world.db.sub_tasks after.1.db.sub_tasks
          × Pointwise (IsGivenUp ℤ 10 40) world.db.jobs after.1.db.jobs))
    × (after ≡ (
      ok tt,
      record world {
        db = record (world.db) {
          sub_tasks = after.1.db.sub_tasks;
          jobs = after.1.db.jobs;
          reputation_events = loss ℤ 1 why 40 ∷ [];
        };
      },
    ))
fail_task_ok_example =
    fail_task_ok ℤ show_uuid 100 1 (text "late") 40 first_task world refl refl refl
