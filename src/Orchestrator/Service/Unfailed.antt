-- ===== src/Orchestrator/Service/Unfailed.antt =====
-- The statuses that jobs reach while the orchestrator serves requests and rounds.
use decentralized_hive_mind.Prelude.{
  ◌≡◌, refl, ◌⊎◌, inl, inr, Bool, true, false, List, [], ◌∷◌, map, ◌==◌, All, All-append,
  if◌then◌else◌,
}
use decentralized_hive_mind.Common.Float64.{Float64}
use decentralized_hive_mind.Common.Crypto.{Digest, Ed25519}
use decentralized_hive_mind.Common.Types.{Uuid, DateTime}
use decentralized_hive_mind.Orchestrator.Db.{JobRow, job_pending, job_complete, World}
use decentralized_hive_mind.Orchestrator.TaskManager.Finish.{complete_job}
use decentralized_hive_mind.Orchestrator.Invariant.{Inv}
use decentralized_hive_mind.Orchestrator.Service.{Setup, Call, serve_all}
use decentralized_hive_mind.Orchestrator.Service.JobTable.{JobProperty, Closes}
use decentralized_hive_mind.Orchestrator.Service.JobSteps.{serve_all-Kept}

-- The job waits for its sub-tasks, or it is complete.
abbrev pub IsUnfailed : {F : Type 0} → JobRow F → Type 0
IsUnfailed j = (j.status ≡ job_pending) ⊎ (j.status ≡ job_complete)

module _ (F : Type 0) ⦃o : Float64 F⦄ where
  abbrev unfailed : JobProperty F
  unfailed = record {
    Good = All IsUnfailed;
    grows = λ req id prompt deadline now jobs h. All-append IsUnfailed jobs _ h (inl refl, tt);
  }

  complete_one :
      (job : Uuid) (now : DateTime) (cost : F) (k : JobRow F)
      → IsUnfailed k
      → IsUnfailed (if k.id == job then complete_job now cost k else k)
  complete_one job now cost k h = at (k.id == job)
    where
      at : (b : Bool) → IsUnfailed (if b then complete_job now cost k else k)
      at true = inr refl
      at false = h

  complete_any : (job : Uuid) → Closes F unfailed job
  complete_any job now cost db h = go db.jobs h
    where
      go :
          (jobs : List (JobRow F))
          → All IsUnfailed jobs
          → All IsUnfailed
              (map (λ (k : JobRow F). if k.id == job then complete_job now cost k else k) jobs)
      go [] h = tt
      go (k ∷ jobs) h = (complete_one job now cost k h.0, go jobs h.1)

module _ (F K : Type 0) ⦃o : Float64 F⦄ ⦃d : Digest⦄ ⦃c : Ed25519 K⦄ (setup : Setup F K) where
  -- No request and no round reports that a job has failed: if all jobs are pending or complete, so
  -- are they after any sequence of requests and rounds, whichever calls fail and however late it is.
  pub serve_all-IsUnfailed :
      (calls : List (Call F)) (w : World F)
      → Inv w.db
      → All IsUnfailed w.db.jobs
      → All IsUnfailed (serve_all setup calls w).db.jobs
  serve_all-IsUnfailed calls w v h =
      serve_all-Kept F K setup (unfailed F)
        (λ task_id task db u b found open_. complete_any F task.job_id) calls w v h
