-- ===== src/Orchestrator/Routes/Jobs/Seeded.antt =====
-- The invariant of the tables, and the statements of orchestrator/src/routes/jobs.rs.
use decentralized_hive_mind.Prelude.{
  ℕ, suc, ◌≡◌, refl, inl, inr, Bool, true, false, none, some, List, [], ◌∷◌, ◌++◌, any, In, In-snoc,
  In-left, In-end, any_of_In, Text, Bytes, arith, ◌==◌, if◌then◌else◌, ◌∙◌, sym,
}
use decentralized_hive_mind.Common.Float64.{Float64}
use decentralized_hive_mind.Common.Crypto.{Digest}
use decentralized_hive_mind.Common.Types.{Uuid, DateTime, AgentRole, CreditReceipt, pending}
use decentralized_hive_mind.Orchestrator.Db.{JobRow, job_pending, SubTaskRow, Db}
use decentralized_hive_mind.Orchestrator.Db.Contracts.{
  Contract, Promises, sql_rule, pure_rule, guard_rule, bind_rule,
}
use decentralized_hive_mind.Orchestrator.Invariant.{Agrees, Inv}
use decentralized_hive_mind.Orchestrator.Privacy.{PiiTools}
use decentralized_hive_mind.Orchestrator.Routes.Jobs.{
  SubmitJobRequest, insert_job, new_task, insert_task, seed, submit_job,
}

module _ {F : Type 0} {jobs : List (JobRow F)} {tasks : List SubTaskRow}
    {receipts : List (CreditReceipt F)} (v : Agrees jobs tasks receipts) where
  -- A new job that is pending.
  job-Agrees : (j : JobRow F) → j.status ≡ job_pending → Agrees (jobs ++ j ∷ []) tasks receipts
  job-Agrees j waiting = record {
    keyed = v.keyed;
    owned = λ t mt. let (k, k_in, k_eq) = v.owned t mt in (k, In-left jobs (j ∷ []) k k_in, k_eq);
    rooted = v.rooted;
    ordered = v.ordered;
    sound = λ k t mk mt e same. elim (In-snoc jobs j k mk) [
      | inl old ↦ v.sound k t old mt e same
      | inr new ↦ ground arith
    ];
    capped = v.capped;
    paid = v.paid;
    once = v.once;
  }

  -- A new sub-task that is pending, of a job of which nothing has started.
  task-Agrees :
      (t : SubTaskRow)
      → t.status ≡ pending
      → t.retry_count ≡ 0
      → ((u : SubTaskRow) → In u tasks → ¬ (u.id ≡ t.id))
      → ((j : JobRow F) × In j jobs × (j.id ≡ t.job_id))
      → ((u : SubTaskRow) → In u tasks → u.job_id ≡ t.job_id → u.status ≡ pending)
      → ((j : JobRow F) → In j jobs → j.id ≡ t.job_id → j.status ≡ job_pending)
      → Agrees jobs (tasks ++ t ∷ []) receipts
  task-Agrees t waiting fresh_count fresh owner siblings open_job = record {
    keyed = λ x y mx my e. elim (In-snoc tasks t x mx) [
      | inl x_old ↦ elim (In-snoc tasks t y my) [
        | inl y_old ↦ v.keyed x y x_old y_old e
        | inr y_new ↦ absurd (fresh x x_old (ground arith))
      ]
      | inr x_new ↦ elim (In-snoc tasks t y my) [
        | inl y_old ↦ absurd (fresh y y_old (ground arith))
        | inr y_new ↦ x_new ∙ sym y_new
      ]
    ];
    owned = λ x mx. elim (In-snoc tasks t x mx) [
      | inl old ↦ v.owned x old
      | inr new ↦ let (j, j_in, j_eq) = owner in (j, j_in, ground arith)
    ];
    rooted =
        λ r mr. let (u, u_in, u_eq) = v.rooted r mr in (u, In-left tasks (t ∷ []) u u_in, u_eq);
    ordered = λ x y mx my is_dispatched same_job earlier. elim (In-snoc tasks t x mx) [
      | inr x_new ↦ ground arith
      | inl x_old ↦ elim (In-snoc tasks t y my) [
        | inl y_old ↦ v.ordered x y x_old y_old is_dispatched same_job earlier
        | inr y_new ↦ ground (arith, siblings x x_old)
      ]
    ];
    sound = λ j x mj mx e same. elim (In-snoc tasks t x mx) [
      | inl old ↦ v.sound j x mj old e same
      | inr new ↦ ground (arith, open_job j mj)
    ];
    capped =
        λ x mx. elim (In-snoc tasks t x mx) [ inl old ↦ v.capped x old | inr new ↦ ground arith ];
    paid = λ r x mr mx e. elim (In-snoc tasks t x mx) [
      | inl old ↦ v.paid r x mr old e
      | inr new ↦ let (u, u_in, u_eq) = v.rooted r mr in absurd (fresh u u_in (ground arith))
    ];
    once = v.once;
  }

-- While the sub-tasks of a job are inserted: the job is there and pending, and so are its sub-tasks.
abbrev Seeding : {F : Type 0} → Uuid → Db F → Type 0
Seeding {F} job db =
    Inv db
    × ((j : JobRow F) × In j db.jobs × (j.id ≡ job))
    × ((u : SubTaskRow) → In u db.sub_tasks → u.job_id ≡ job → u.status ≡ pending)
    × ((j : JobRow F) → In j db.jobs → j.id ≡ job → j.status ≡ job_pending)

module _ {F A : Type 0} (Q : A → Db F → Type 0) (I : Db F → Type 0) where
  -- A statement that runs if a constraint holds, of which the promise may make use.
  Promises-when :
      (b : Bool) (db : Db F) (a : A) (db' : Db F)
      → I db
      → (b ≡ true → Q a db')
      → Promises Q I db (if b then some (a, db') else none)
  Promises-when true db a db' i q = q refl
  Promises-when false db a db' i q = i

  Promises-unused :
      (b : Bool) (db : Db F) (a : A) (db' : Db F)
      → I db
      → (b ≡ false → Q a db')
      → Promises Q I db (if b then none else some (a, db'))
  Promises-unused true db a db' i q = i
  Promises-unused false db a db' i q = q refl

module _ (F : Type 0) ⦃o : Float64 F⦄ where
  unused_job :
      (id : Uuid) (db : Db F)
      → any (λ (k : JobRow F). k.id == id) db.jobs ≡ false
      → (k : JobRow F) → In k db.jobs
      → ¬ (k.id ≡ id)
  unused_job id db free k m e =
      ground (arith, any_of_In (λ (k : JobRow F). k.id == id) db.jobs {a = k} m)

  unused_task :
      (id : Uuid) (tasks : List SubTaskRow)
      → any (λ (u : SubTaskRow). u.id == id) tasks ≡ false
      → (u : SubTaskRow) → In u tasks
      → ¬ (u.id ≡ id)
  unused_task id tasks free u m e =
      ground (arith, any_of_In (λ (u : SubTaskRow). u.id == id) tasks {a = u} m)

  insert_job-Seeding :
      (j : JobRow F) (db : Db F)
      → j.status ≡ job_pending
      → Inv db
      → Promises Seeding Inv db (insert_job j db)
  insert_job-Seeding j db waiting v =
      Promises-unused Seeding Inv (any (λ (k : JobRow F). k.id == j.id) db.jobs) db j.id _ v λ free.
        (
          job-Agrees v j waiting,
          (j, In-end db.jobs j, refl),
          λ u mu same.
              let (k, k_in, k_eq) = v.owned u mu in
              absurd (unused_job j.id db free k k_in (ground arith)),
          λ k mk same. elim (In-snoc db.jobs j k mk) [
            | inl old ↦ absurd (unused_job j.id db free k old same)
            | inr new ↦ ground arith
          ],
        )

  insert_task-Seeding :
      (t : SubTaskRow) (job : Uuid) (db : Db F)
      → t.status ≡ pending
      → t.retry_count ≡ 0
      → t.job_id ≡ job
      → Seeding job db
      → Promises (λ _. Seeding job) Inv db (insert_task t db)
  insert_task-Seeding t job db waiting fresh_count mine p =
      let (v, (j, j_in, j_eq), siblings, open_job) = p in
      Promises-when (λ _. Seeding job) Inv _ db tt _ v
        λ free. (
          task-Agrees v t waiting fresh_count (unused_task t.id db.sub_tasks (ground arith))
              (j, j_in, ground arith) (λ u mu same. siblings u mu (ground arith))
              (λ k mk same. open_job k mk (ground arith)),
          (j, j_in, j_eq),
          λ u mu same. elim (In-snoc db.sub_tasks t u mu) [
            | inl old ↦ siblings u old same
            | inr new ↦ ground arith
          ],
          open_job,
        )

  seed_contract :
      (task_ids : ℕ → Uuid) (job : Uuid) (prompt min_tier : Text) (now : DateTime) (i : ℕ)
      (plan : List (AgentRole × ℕ × ℕ))
      → Contract {F = F} (Seeding job) (seed task_ids job prompt min_tier now i plan) (λ _. Inv) Inv
  unfolding seed
  seed_contract task_ids job prompt min_tier now i [] = pure_rule tt (λ db p. p.0)
  seed_contract task_ids job prompt min_tier now i (p ∷ plan) =
      bind_rule {Q = λ _. Seeding job} _ _
        (sql_rule _ (λ db q. q.0)
          (λ db q.
            insert_task-Seeding (new_task (task_ids i) job prompt min_tier now p) job db refl refl
              refl q))
        λ _. seed_contract task_ids job prompt min_tier now (suc i) plan

  -- A submitted job keeps the invariant, wherever the handler stops.
  pub submit_job_contract :
      ⦃d : Digest⦄ (tools : PiiTools) (describe : SubmitJobRequest F → Text)
      (encrypt : Text → Text → Bytes) (key : Text) (req : SubmitJobRequest F) (new_id : Uuid)
      (task_ids : ℕ → Uuid) (new_v4 : ℕ → Text) (now : DateTime)
      → Contract Inv
          (submit_job tools describe encrypt key req new_id task_ids new_v4 now)
          (λ _. Inv)
          Inv
  unfolding submit_job
  submit_job_contract tools describe encrypt key req new_id task_ids new_v4 now =
      bind_rule {Q = λ _. Inv} _ _ (guard_rule _ _ (λ db v. v) (λ db e v. v)) λ _.
        bind_rule {Q = λ _. Inv} _ _ (guard_rule _ _ (λ db v. v) (λ db e v. v)) λ _.
          bind_rule {Q = λ _. Inv} _ _ (guard_rule _ _ (λ db v. v) (λ db e v. v)) λ _.
            bind_rule {Q = Seeding} _ _
              (sql_rule _ (λ db v. v) (λ db v. insert_job-Seeding _ db refl v))
              λ row.
                bind_rule {Q = λ _. Inv} _ _ (seed_contract task_ids row _ _ now 0 _)
                  λ _. pure_rule row (λ db v. v)
