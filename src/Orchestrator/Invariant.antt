-- ===== src/Orchestrator/Invariant.antt =====
-- The invariant of the tables of orchestrator/migrations/001_initial.sql: how the rows of jobs, of
-- sub-tasks and of receipts agree with one another.
pub mod Statements
pub mod Handlers
pub mod Submit
use decentralized_hive_mind.Prelude.{ℕ, ◌≤◌, ◌≡◌, List, In}
use decentralized_hive_mind.Common.Types.{CreditReceipt, complete}
use decentralized_hive_mind.Orchestrator.Db.{JobRow, job_complete, SubTaskRow, Db}
use decentralized_hive_mind.Orchestrator.TaskManager.Finish.{max_retries}
use decentralized_hive_mind.Orchestrator.TaskManager.Dispatch.Claims.{IsKeyed, IsOrdered}

pub record Agrees {F : Type 0} (jobs : List (JobRow F)) (tasks : List SubTaskRow)
    (receipts : List (CreditReceipt F)) : Type 0 where
  -- Ids are unique.
  pub keyed : IsKeyed tasks
  -- Foreign keys: a sub-task belongs to a job, and a receipt to a sub-task.
  pub owned : (t : SubTaskRow) → In t tasks → (j : JobRow F) × In j jobs × (j.id ≡ t.job_id)
  pub rooted :
      (r : CreditReceipt F) → In r receipts → (t : SubTaskRow) × In t tasks × (t.id ≡ r.sub_task_id)
  -- No task is dispatched before the earlier tasks of its job are complete.
  pub ordered : IsOrdered tasks
  -- A complete job has complete tasks only.
  pub sound :
      (j : JobRow F) (t : SubTaskRow)
      → In j jobs
      → In t tasks
      → j.status ≡ job_complete
      → t.job_id ≡ j.id
      → t.status ≡ complete
  -- No task is retried more than three times.
  pub capped : (t : SubTaskRow) → In t tasks → t.retry_count ≤ max_retries
  -- What has been paid for is complete.
  pub paid :
      (r : CreditReceipt F) (t : SubTaskRow)
      → In r receipts
      → In t tasks
      → t.id ≡ r.sub_task_id
      → t.status ≡ complete
  -- No task is paid for twice.
  pub once :
      (r s : CreditReceipt F)
      → In r receipts
      → In s receipts
      → r.sub_task_id ≡ s.sub_task_id
      → r ≡ s

abbrev pub Inv : {F : Type 0} → Db F → Type 0
Inv db = Agrees db.jobs db.sub_tasks db.credit_receipts
