-- ===== src/Orchestrator/TaskManager/Finish/Jobs.antt =====
-- When orchestrator/src/task_manager.rs marks a job complete.
use decentralized_hive_mind.Prelude.{
  ◌≡◌, ◌≢◌, refl, false, some, List, [], ◌∷◌, map, filter, length, arith, if◌then◌else◌, ◌==◌, In,
  not, ◌&&◌, subst, In-filter_of, any, any_sound, any_of_In, ◌⊎◌, Pointwise, Pointwise-map, inl,
  inr, Bool-cases,
}
use decentralized_hive_mind.Common.Float64.{Float64, zero_f}
use decentralized_hive_mind.Common.Types.{
  Uuid, DateTime, CreditReceipt, SubTaskStatus, complete, is_complete,
}
use decentralized_hive_mind.Common.Credits.{sum_from}
use decentralized_hive_mind.Orchestrator.Error.{ok}
use decentralized_hive_mind.Orchestrator.Db.{JobRow, job_complete, SubTaskRow, Db, World, actions}
use decentralized_hive_mind.Orchestrator.Db.Rows.{update_job}
use decentralized_hive_mind.Orchestrator.TaskManager.Finish.{
  incomplete, job_cost, complete_job, finish_job, finalize_job_if_ready,
}

complete_is_complete : (s : SubTaskStatus) → is_complete s ≡ false → s ≢ complete
complete_is_complete s h e = ground arith

abbrev pub AllComplete : Uuid → List SubTaskRow → Type 0
AllComplete job tasks = (t : SubTaskRow) → In t tasks → t.job_id ≡ job → t.status ≡ complete

complete_or :
    (job : Uuid) (tasks : List SubTaskRow)
    → AllComplete job tasks
      ⊎ ((t : SubTaskRow) × In t tasks × (t.job_id ≡ job) × (t.status ≢ complete))
complete_or job tasks =
    elim (Bool-cases (any (λ t. t.job_id == job && not (is_complete t.status)) tasks)) [
      | inl found ↦
          let (t, m, h) =
            any_sound (λ t. t.job_id == job && not (is_complete t.status)) tasks found in
          inr (t, m, ground arith, complete_is_complete t.status (ground arith))
      | inr free ↦ inl (λ t m e. elim (Bool-cases (is_complete t.status)) [
        | inl c ↦ ground arith
        | inr n ↦
            let found =
              any_of_In (λ t. t.job_id == job && not (is_complete t.status)) tasks m
                (ground arith) in
            cc
      ])
    ]

incomplete_none :
    (job : Uuid) (tasks : List SubTaskRow)
    → AllComplete job tasks
    → length (incomplete job tasks) ≡ 0
incomplete_none job [] h = refl
incomplete_none job (t ∷ tasks) h =
    let rest = incomplete_none job tasks (λ u m. h u (inr m)) in ground (arith, h t (inl refl))

length-In : {A : Type 0} (xs : List A) (a : A) → In a xs → (length xs == 0) ≡ false
length-In [] a m = elim m [ ]
length-In (x ∷ xs) a m = ground arith

incomplete_some :
    (tasks : List SubTaskRow) (t : SubTaskRow)
    → In t tasks
    → t.status ≢ complete
    → (length (incomplete t.job_id tasks) == 0) ≡ false
incomplete_some tasks t m n = elim (Bool-cases (is_complete t.status)) [
  | inl c ↦ absurd (n (ground arith))
  | inr w ↦ length-In (incomplete t.job_id tasks) t (
      In-filter_of (λ u. u.job_id == t.job_id && not (is_complete u.status)) tasks t m
        (ground arith))
]

module _ (F : Type 0) ⦃o : Float64 F⦄ where
  -- The credits of a job's receipts, added up from a start in the order of the table.
  abbrev pub added : Uuid → F → List (CreditReceipt F) → F
  added job sum [] = sum
  added job sum (r ∷ rs) =
      let counted = added job (o.add sum r.credits) rs in
      let skipped = added job sum rs in if r.job_id == job then counted else skipped

  added-sum_from :
      (job : Uuid) (sum : F) (rs : List (CreditReceipt F))
      → sum_from sum (
          map
            (λ (r : CreditReceipt F). r.credits)
            (filter (λ (r : CreditReceipt F). r.job_id == job) rs))
        ≡ added job sum rs
  unfolding sum_from
  added-sum_from job sum [] = refl
  added-sum_from job sum (r ∷ rs) = elim (Bool-cases (r.job_id == job)) [
    | inl t ↦ rw t (added-sum_from job (o.add sum r.credits) rs)
    | inr f ↦ rw f (added-sum_from job sum rs)
  ]

  job_cost-added : (job : Uuid) (db : Db F) → job_cost job db ≡ added job zero_f db.credit_receipts
  unfolding job_cost
  job_cost-added job db = added-sum_from job zero_f db.credit_receipts

  -- The row of the job is complete, with a cost and the time; any other row is as before.
  abbrev pub IsCompleted : Uuid → DateTime → F → JobRow F → JobRow F → Type 0
  IsCompleted job now cost old new =
      ((old.id ≡ job)
        × (new ≡ record old {
          status = job_complete;
          total_cost_credits = some cost;
          completed_at = some now;
          updated_at = now;
        }))
      ⊎ ((old.id ≢ job) × (new ≡ old))

  finalized :
      (job : Uuid) (now : DateTime) (w : World F)
      → w.faults ≡ []
      → finalize_job_if_ready job now w ≡ (
        ok tt,
        record w {
          db =
              if length (incomplete job w.db.sub_tasks) == 0
              then update_job job (complete_job now (job_cost job w.db)) w.db
              else w.db;
        },
      )
  unfolding finalize_job_if_ready finish_job actions
  finalized job now w h = ground arith

  complete_job-IsCompleted :
      (job : Uuid) (now : DateTime) (db : Db F)
      → Pointwise
          (IsCompleted job now (added job zero_f db.credit_receipts))
          db.jobs
          (update_job job (complete_job now (job_cost job db)) db).jobs
  complete_job-IsCompleted job now db =
      Pointwise-map (IsCompleted job now (added job zero_f db.credit_receipts))
        (λ j. if j.id == job then complete_job now (job_cost job db) j else j) db.jobs
        (λ j. elim (Bool-cases (j.id == job)) [
          | inl e ↦ inl (ground arith, rw (e, job_cost-added job db) refl)
          | inr n ↦ inr (λ e. ground arith, rw n refl)
        ])

  -- Without failures, either every sub-task of a job is complete, and the rows of the job become
  -- complete, with the sum of the credits of its receipts as the cost, and nothing else changes; or
  -- one of them is not complete, and nothing changes.
  pub finalize_job_if_ready_ok :
      (job : Uuid) (now : DateTime) (w : World F)
      → w.faults ≡ []
      → let after = finalize_job_if_ready job now w in
        (AllComplete job w.db.sub_tasks
          × Pointwise
              (IsCompleted job now (added job zero_f w.db.credit_receipts))
              w.db.jobs
              after.1.db.jobs
          × (after ≡ (ok tt, record w { db = record (w.db) { jobs = after.1.db.jobs } })))
        ⊎ (((t : SubTaskRow) × In t w.db.sub_tasks × (t.job_id ≡ job) × (t.status ≢ complete))
            × (after ≡ (ok tt, w)))
  finalize_job_if_ready_ok job now w h =
      let done = finalized job now w h in
      elim (complete_or job w.db.sub_tasks) [
        | inl all ↦
            let none_left = incomplete_none job w.db.sub_tasks all in
            inl (
              all,
              rw (done, none_left) (complete_job-IsCompleted job now w.db),
              rw (done, none_left) refl,
            )
        | inr (t, m, e, n) ↦
            let left = incomplete_some w.db.sub_tasks t m n in
            let left' = subst (λ j. (length (incomplete j w.db.sub_tasks) == 0) ≡ false) e left in
            inr ((t, m, e, n), rw (done, left') refl)
      ]
