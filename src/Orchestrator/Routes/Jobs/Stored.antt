-- ===== src/Orchestrator/Routes/Jobs/Stored.antt =====
-- What a successful submission of orchestrator/src/routes/jobs.rs has stored.
use decentralized_hive_mind.Prelude.{
  ℕ, suc, ◌+◌, ◌*◌, ◌≡◌, refl, inl, inr, ◌⊎◌, true, List, [], ◌∷◌, ◌++◌, take, In, In-left, In-end,
  Text, Bytes,
}
use decentralized_hive_mind.Common.Float64.{Float64}
use decentralized_hive_mind.Common.Crypto.{Digest}
use decentralized_hive_mind.Common.Types.{Uuid, DateTime, AgentRole, role_name, pending}
use decentralized_hive_mind.Orchestrator.Error.{ok}
use decentralized_hive_mind.Orchestrator.Auth.{is_hex64}
use decentralized_hive_mind.Orchestrator.Db.{JobRow, SubTaskRow, Db, World}
use decentralized_hive_mind.Orchestrator.Db.Contracts.{
  Contract, Promises, Promises-if, Promises-unless, sql_rule, pure_rule, guard_rule, bind_rule,
  post_rule, frame_rule, Anything, returned,
}
use decentralized_hive_mind.Orchestrator.Privacy.{PiiTools}
use decentralized_hive_mind.Orchestrator.Routes.Jobs.{
  SubmitJobRequest, is_valid, is_allowed, final_prompt, min_tier_of, subtask_plan, new_job,
  new_task, insert_task, seed, submit_job,
}

abbrev Entry : Type 0
Entry = AgentRole × ℕ × ℕ

-- A pending row of the job for an entry of the plan.
pub record HasTask {F : Type 0} (job : Uuid) (prompt min_tier : Text) (e : Entry) (db : Db F)
    : Type 0 where
  pub row : SubTaskRow
  pub stored : In row db.sub_tasks
  pub of_job : row.job_id ≡ job
  pub waiting : row.status ≡ pending
  pub has_role : row.role ≡ role_name e.0
  pub has_position : row.position ≡ e.1
  pub has_index : row.agent_index ≡ e.2
  pub has_prompt : row.prompt_shard ≡ prompt
  pub has_tier : row.min_tier ≡ min_tier

module _ {F : Type 0} ⦃o : Float64 F⦄ (job : Uuid) (prompt min_tier : Text) where
  HasTask-append :
      (e : Entry) (db : Db F) (t : SubTaskRow)
      → HasTask job prompt min_tier e db
      → HasTask job prompt min_tier e (record db { sub_tasks = db.sub_tasks ++ t ∷ [] })
  HasTask-append e db t h = record {
    row = h.row;
    stored = In-left db.sub_tasks (t ∷ []) h.row h.stored;
    of_job = h.of_job;
    waiting = h.waiting;
    has_role = h.has_role;
    has_position = h.has_position;
    has_index = h.has_index;
    has_prompt = h.has_prompt;
    has_tier = h.has_tier;
  }

  HasTask-new :
      (e : Entry) (id : Uuid) (now : DateTime) (db : Db F)
      → HasTask job prompt min_tier e
          (record db { sub_tasks = db.sub_tasks ++ new_task id job prompt min_tier now e ∷ [] })
  HasTask-new e id now db = record {
    row = new_task id job prompt min_tier now e;
    stored = In-end db.sub_tasks _;
    of_job = refl;
    waiting = refl;
    has_role = refl;
    has_position = refl;
    has_index = refl;
    has_prompt = refl;
    has_tier = refl;
  }

  -- What is there after the entries of `D`, for a job whose row is `j`.
  abbrev Planted : JobRow F → (Entry → Type 0) → Db F → Type 0
  Planted j D db = In j db.jobs × ((e : Entry) → D e → HasTask job prompt min_tier e db)

  insert_task-Planted :
      (j : JobRow F) (D : Entry → Type 0) (e : Entry) (id : Uuid) (now : DateTime) (db : Db F)
      → Planted j D db
      → Promises
          (λ _. Planted j (λ x. D x ⊎ (x ≡ e)))
          Anything
          db
          (insert_task (new_task id job prompt min_tier now e) db)
  insert_task-Planted j D e id now db p =
      let t = new_task id job prompt min_tier now e in
      Promises-if (λ _. Planted j (λ x. D x ⊎ (x ≡ e))) Anything _ db tt _ tt
        (
          p.0,
          λ x h. elim h [
            | inl old ↦ HasTask-append x db t (p.1 x old)
            | inr new ↦ rw new (HasTask-new e id now db)
          ],
        )

  seed-Planted :
      (task_ids : ℕ → Uuid) (now : DateTime) (i : ℕ) (plan : List Entry) (j : JobRow F)
      (D : Entry → Type 0)
      → Contract
          (Planted j D)
          (seed task_ids job prompt min_tier now i plan)
          (λ _. Planted j (λ x. D x ⊎ In x plan))
          Anything
  unfolding seed
  seed-Planted task_ids now i [] j D =
      pure_rule tt (λ db p. (p.0, λ x h. elim h [ inl d ↦ p.1 x d | inr m ↦ elim m [ ] ]))
  seed-Planted task_ids now i (e ∷ plan) j D =
      bind_rule {Q = λ _. Planted j (λ x. D x ⊎ (x ≡ e))} _ _
        (sql_rule _ (λ db p. tt) (λ db p. insert_task-Planted j D e (task_ids i) now db p))
        λ _.
          post_rule _
            (λ a db p. (
              p.0,
              λ x h. p.1 x (elim h [
                | inl d ↦ inl (inl d)
                | inr m ↦ elim m [ inl here ↦ inl (inr here) | inr there ↦ inr there ]
              ]),
            ))
            (seed-Planted task_ids now (suc i) plan j (λ x. D x ⊎ (x ≡ e)))

module _ (F : Type 0) ⦃o : Float64 F⦄ ⦃d : Digest⦄ (tools : PiiTools)
    (describe : SubmitJobRequest F → Text) (encrypt : Text → Text → Bytes) (key : Text)
    (req : SubmitJobRequest F) (new_id : Uuid) (task_ids : ℕ → Uuid) (new_v4 : ℕ → Text)
    (now : DateTime) where
  abbrev prompt_of : Text
  prompt_of = final_prompt tools new_v4 req.tier req.prompt

  abbrev row_of : JobRow F
  row_of = new_job req new_id (encrypt prompt_of (take 32 key)) (now + req.deadline_secs * 1000) now

  -- The request has passed the checks, the row of the job is stored, and each entry of the plan of
  -- its tier has a pending sub-task.
  pub record IsSubmitted (id : Uuid) (db : Db F) : Type 0 where
    pub same_id : id ≡ new_id
    pub valid : is_valid req ≡ true
    pub allowed : is_allowed req.model_hint ≡ true
    pub signed : is_hex64 req.submitter_pubkey_hex ≡ true
    pub stored : In row_of db.jobs
    pub planted :
        (e : Entry)
        → In e (subtask_plan req.tier)
        → HasTask new_id prompt_of (min_tier_of req.tier) e db

  abbrev Checked : Type 0
  Checked =
      (is_valid req ≡ true)
      × (is_allowed req.model_hint ≡ true)
      × (is_hex64 req.submitter_pubkey_hex ≡ true)

  finished :
      (row : Uuid) (db : Db F)
      → (Checked × (row ≡ new_id))
        × Planted row prompt_of
            (min_tier_of req.tier)
            row_of
            (λ e. ⊥ ⊎ In e (subtask_plan req.tier))
            db
      → IsSubmitted row db
  finished row db ((checks, same), p) = record {
    same_id = same;
    valid = checks.0;
    allowed = checks.1;
    signed = checks.2;
    stored = p.0;
    planted = λ e m. rw⁻¹ same (p.1 e (inr m));
  }

  submit_job-Planted :
      Contract Anything
        (submit_job tools describe encrypt key req new_id task_ids new_v4 now)
        IsSubmitted
        Anything
  unfolding submit_job
  submit_job-Planted =
      bind_rule {Q = λ _ db. is_valid req ≡ true} _ _ (guard_rule _ _ (λ db p. tt) (λ db e p. e))
        λ _.
          bind_rule {Q = λ _ db. (is_valid req ≡ true) × (is_allowed req.model_hint ≡ true)} _ _
            (guard_rule _ _ (λ db p. tt) (λ db e p. (p, e)))
            λ _.
              bind_rule {Q = λ _ db. Checked} _ _
                (guard_rule _ _ (λ db p. tt) (λ db e p. (p.0, p.1, e)))
                λ _.
                  bind_rule
                    {Q = λ row db.
                      (Checked × (row ≡ new_id))
                      × Planted row prompt_of (min_tier_of req.tier) row_of (λ e. ⊥) db}
                    _ _
                    (sql_rule _ (λ db p. tt)
                      (λ db p.
                        Promises-unless
                          (λ row db.
                            (Checked × (row ≡ new_id))
                            × Planted row prompt_of (min_tier_of req.tier) row_of (λ e. ⊥) db)
                          Anything _ db new_id _ tt
                          ((p, refl), (In-end db.jobs row_of, λ e m. elim m [ ]))))
                    λ row.
                      bind_rule _ _
                        (frame_rule (Checked × (row ≡ new_id)) _ (
                          seed-Planted row prompt_of (min_tier_of req.tier) task_ids now 0
                            (subtask_plan req.tier) row_of (λ e. ⊥)))
                        λ _. pure_rule row (λ db p. finished row db p)

  -- If a submission returns an id, then the request has passed the three checks, the row of the job
  -- is stored, with the prompt of its tier encrypted, and each entry of the plan of its tier has a
  -- pending sub-task of that job.
  pub submit_job-IsSubmitted :
      (w : World F) (id : Uuid)
      → let after = submit_job tools describe encrypt key req new_id task_ids new_v4 now w in
        after.0 ≡ ok id → IsSubmitted id after.1.db
  submit_job-IsSubmitted w id h = returned _ submit_job-Planted w tt id h
