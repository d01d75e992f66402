-- ===== src/Orchestrator/Routes/Jobs.antt =====
-- orchestrator/src/routes/jobs.rs: a job is validated, stored and split into sub-tasks.
pub mod Seeded
pub mod Stored
use decentralized_hive_mind.Prelude.{
  ℕ, suc, ◌+◌, ◌*◌, ◌≡◌, Bool, true, false, not, ◌&&◌, Option, none, some, List, [], ◌∷◌, ◌++◌, any,
  take, map, filter, find, length, Text, Bytes, text, text_eq, leb, ◌==◌, if◌then◌else◌,
}
use decentralized_hive_mind.Prelude.Int.{pos}
use decentralized_hive_mind.Common.Float64.{Float64}
use decentralized_hive_mind.Common.Crypto.{Digest}
use decentralized_hive_mind.Common.Types.{
  Uuid, DateTime, JobTier, standard, paid, premium, job_tier_name, AgentRole, planner, coder,
  critic, summarizer, aggregator, role_name, pending,
}
use decentralized_hive_mind.Orchestrator.Error.{AppError, bad_request, not_found}
use decentralized_hive_mind.Orchestrator.Db.{
  JobRow, JobStatus, job_pending, SubTaskRow, Db, Action, pure, ◌>>=◌, ◌>>◌, guard, ok_or, sql,
  query,
}
use decentralized_hive_mind.Orchestrator.Auth.{is_hex64}
use decentralized_hive_mind.Orchestrator.Privacy.{PiiTools, PiiMap, tokenise}

pub record SubmitJobRequest (F : Type 0) : Type 0 where
  pub prompt : Text
  pub model_hint : Option Text
  pub budget_cap_credits : F
  pub tier : JobTier
  pub deadline_secs : ℕ
  pub submitter_pubkey_hex : Text

abbrev pub allowed_models : List Text
allowed_models =
    text "llama3-8b"
    ∷ text "llama3-70b"
    ∷ text "mistral-7b"
    ∷ text "phi-3-mini"
    ∷ text "qwen2-7b"
    ∷ text "deepseek-coder-7b"
    ∷ []

abbrev pub is_allowed : Option Text → Bool
is_allowed none = true
is_allowed (some model) = any (λ m. text_eq m model) allowed_models

abbrev disallowed : Option Text → AppError
disallowed none = bad_request []
disallowed (some model) = bad_request (text "model '" ++ (model ++ text "' not in allow-list"))

abbrev pub short_hint : Option Text → Bool
short_hint none = true
short_hint (some model) = leb (length model) 64

-- `(role_str, position, agent_index)`, as the tier has it.
unfoldable pub subtask_plan : JobTier → List (AgentRole × ℕ × ℕ)
subtask_plan standard = (planner, 0, 0) ∷ (coder, 1, 0) ∷ (summarizer, 2, 0) ∷ []
subtask_plan paid = (planner, 0, 0) ∷ (coder, 1, 0) ∷ (critic, 2, 0) ∷ []
subtask_plan premium =
    (planner, 0, 0) ∷ (coder, 1, 0) ∷ (coder, 1, 1) ∷ (critic, 2, 0) ∷ (aggregator, 3, 0) ∷ []

abbrev pub min_tier_of : JobTier → Text
min_tier_of premium = text "Pro"
min_tier_of _ = text "Edge"

-- The prompt that is stored: that of a paying job has its sensitive values replaced.
unfoldable pub final_prompt : PiiTools → (ℕ → Text) → JobTier → Text → Text
final_prompt tools new_v4 standard prompt = prompt
final_prompt tools new_v4 paid prompt = (tokenise tools new_v4 prompt).0
final_prompt tools new_v4 premium prompt = (tokenise tools new_v4 prompt).0

abbrev pub new_task : Uuid → Uuid → Text → Text → DateTime → AgentRole × ℕ × ℕ → SubTaskRow
new_task id job_id prompt min_tier now (role, position, agent_index) = record {
  id = id;
  job_id = job_id;
  role = role_name role;
  prompt_shard = prompt;
  min_tier = min_tier;
  position = position;
  agent_index = agent_index;
  assigned_node_id = none;
  status = pending;
  result = none;
  proof_hash_hex = none;
  tokens_in = none;
  tokens_out = none;
  retry_count = 0;
  created_at = now;
  updated_at = now;
  completed_at = none;
}

module _ {F : Type 0} ⦃o : Float64 F⦄ where
  -- `req.validate()`: the attributes of the fields.
  unfoldable pub is_valid : SubmitJobRequest F → Bool
  is_valid req =
      leb 1 (length req.prompt)
      && leb (length req.prompt) 32768
      && short_hint req.model_hint
      && o.le (o.hundredths (pos 1)) req.budget_cap_credits
      && o.le req.budget_cap_credits (o.hundredths (pos 10_000_000))
      && leb 10 req.deadline_secs
      && leb req.deadline_secs 86400

  abbrev pub new_job : SubmitJobRequest F → Uuid → Bytes → DateTime → DateTime → JobRow F
  new_job req id prompt deadline now = record {
    id = id;
    submitter_pubkey_hex = req.submitter_pubkey_hex;
    prompt_encrypted = prompt;
    model_hint = req.model_hint;
    budget_cap_credits = req.budget_cap_credits;
    tier = job_tier_name req.tier;
    deadline_at = deadline;
    status = job_pending;
    total_cost_credits = none;
    created_at = now;
    updated_at = now;
    completed_at = none;
  }

  -- `INSERT INTO jobs .. RETURNING id`; the random id is the primary key.
  abbrev pub insert_job : JobRow F → Db F → Option (Uuid × Db F)
  insert_job j db =
      if any (λ (k : JobRow F). k.id == j.id) db.jobs
      then none
      else some (j.id, record db { jobs = db.jobs ++ j ∷ [] })

  -- `INSERT INTO sub_tasks`; the random id is the primary key, and the job is a foreign key.
  abbrev pub insert_task : SubTaskRow → Db F → Option (Unit {0} × Db F)
  insert_task t db =
      if any (λ (j : JobRow F). j.id == t.job_id) db.jobs
        && not (any (λ (u : SubTaskRow). u.id == t.id) db.sub_tasks)
      then some (tt, record db { sub_tasks = db.sub_tasks ++ t ∷ [] })
      else none

  -- The loop over the plan; `task_ids i` is the id of the sub-task number `i`.
  unfoldable pub seed :
      (ℕ → Uuid)
      → Uuid
      → Text
      → Text
      → DateTime
      → ℕ
      → List (AgentRole × ℕ × ℕ)
      → Action F (Unit {0})
  seed task_ids job_id prompt min_tier now i [] = pure tt
  seed task_ids job_id prompt min_tier now i (p ∷ plan) =
      sql (insert_task (new_task (task_ids i) job_id prompt min_tier now p))
      >> seed task_ids job_id prompt min_tier now (suc i) plan

  -- The message of the crate `validator`, and `pgp_sym_encrypt` of PostgreSQL, are parameters; the
  -- key is the hexadecimal signing key, of which the first 32 characters are used.
  module _ (tools : PiiTools) (describe : SubmitJobRequest F → Text)
      (pgp_sym_encrypt : Text → Text → Bytes) (signing_key_hex : Text) where
    unfoldable pub submit_job :
        ⦃d : Digest⦄
        → SubmitJobRequest F
        → Uuid
        → (ℕ → Uuid)
        → (ℕ → Text)
        → DateTime
        → Action F Uuid
    submit_job req new_id task_ids new_v4 now = do
      guard (is_valid req) (bad_request (describe req))
      guard (is_allowed req.model_hint) (disallowed req.model_hint)
      guard (is_hex64 req.submitter_pubkey_hex) (bad_request (text "invalid submitter_pubkey_hex"))
      let deadline_at = now + req.deadline_secs * 1000
      let prompt = final_prompt tools new_v4 req.tier req.prompt
      let encrypted = pgp_sym_encrypt prompt (take 32 signing_key_hex)
      row ← sql (insert_job (new_job req new_id encrypted deadline_at now))
      seed task_ids row prompt (min_tier_of req.tier) now 0 (subtask_plan req.tier)
      pure row

  -- `job_status`: the row that the response is made of.
  unfoldable pub job_status : Uuid → Action F (JobRow F)
  job_status job_id = do
    found ← query (λ db. find (λ (j : JobRow F). j.id == job_id) db.jobs)
    ok_or found not_found
