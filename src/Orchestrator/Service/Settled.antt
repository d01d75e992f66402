-- ===== src/Orchestrator/Service/Settled.antt =====
-- Complete jobs, and the requests and rounds of the orchestrator.
use decentralized_hive_mind.Prelude.{
  ◌≡◌, sym, true, not, some, List, map, arith, ◌==◌, In, In-left, In-map_of, find-In, subst,
  if◌then◌else◌,
}
use decentralized_hive_mind.Common.Float64.{Float64}
use decentralized_hive_mind.Common.Crypto.{Digest, Ed25519}
use decentralized_hive_mind.Common.Types.{Uuid, is_complete}
use decentralized_hive_mind.Orchestrator.Db.{JobRow, job_complete, SubTaskRow, Db, World}
use decentralized_hive_mind.Orchestrator.Db.Rows.{find_task}
use decentralized_hive_mind.Orchestrator.TaskManager.Finish.{complete_job}
use decentralized_hive_mind.Orchestrator.Invariant.{Inv}
use decentralized_hive_mind.Orchestrator.Service.{Setup, Call, serve_all}
use decentralized_hive_mind.Orchestrator.Service.JobTable.{JobProperty, Closes}
use decentralized_hive_mind.Orchestrator.Service.JobSteps.{serve_all-Kept}

module _ (F : Type 0) ⦃o : Float64 F⦄ (j : JobRow F) where
  -- The row is in the table.
  abbrev stays : JobProperty F
  stays = record {
    Good = λ jobs. In j jobs;
    grows = λ req id prompt deadline now jobs m. In-left jobs _ j m;
  }

  update_job-other : (job : Uuid) → ¬ (j.id ≡ job) → Closes F stays job
  update_job-other job other now cost db m =
      let g = λ (k : JobRow F). if k.id == job then complete_job now cost k else k in
      let kept_row : g j ≡ j = ground arith in
      subst (λ k. In k (map g db.jobs)) kept_row (In-map_of g db.jobs j m)

  -- An open task is not one of a complete job.
  other_job :
      (task_id : Uuid) (task : SubTaskRow) (db : Db F)
      → Inv db
      → In j db.jobs
      → j.status ≡ job_complete
      → find_task task_id db ≡ some task
      → not (is_complete task.status) ≡ true
      → ¬ (j.id ≡ task.job_id)
  other_job task_id task db v m done found open_ same =
      let stored = find-In (λ (t : SubTaskRow). t.id == task_id) db.sub_tasks found in
      ground (arith, v.sound j task m stored done (sym same))

module _ (F K : Type 0) ⦃o : Float64 F⦄ ⦃d : Digest⦄ ⦃c : Ed25519 K⦄ (setup : Setup F K)
    (j : JobRow F) (done : j.status ≡ job_complete) where
  -- A complete job is settled: from tables that satisfy the invariant, whatever requests and rounds
  -- the orchestrator serves, and whichever calls fail, its row stays in the table as it is, with its
  -- status, its cost and the time of its completion.
  pub serve_all-In :
      (calls : List (Call F)) (w : World F)
      → Inv w.db
      → In j w.db.jobs
      → In j (serve_all setup calls w).db.jobs
  serve_all-In calls w v m =
      serve_all-Kept F K setup (stays F j)
        (λ task_id task db u b found open_.
          update_job-other F j task.job_id (other_job F j task_id task db u b done found open_))
        calls w v m
