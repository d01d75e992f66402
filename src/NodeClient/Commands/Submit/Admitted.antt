-- ===== src/NodeClient/Commands/Submit/Admitted.antt =====
-- What the orchestrator makes of the requests of `job submit` in node-client/src/main.rs.
use decentralized_hive_mind.Prelude.{
  ℕ, suc, ◌≤◌, ◌≡◌, refl, Bool, true, false, Option, none, some, List, [], ◌∷◌, length, Text, Bytes,
  text, text_eq_sound, text_eq, All, subst, any, inl, inr, leb, arith, Bool-cases,
}
use decentralized_hive_mind.Prelude.Int.{pos}
use decentralized_hive_mind.Common.Float64.{Float64}
use decentralized_hive_mind.Common.Crypto.{Digest, Ed25519}
use decentralized_hive_mind.Common.Identity.{pubkey_hex}
use decentralized_hive_mind.Common.Types.{JobTier, Uuid, DateTime, AgentRole}
use decentralized_hive_mind.Orchestrator.Error.{AppResult, ok, err, AppError, database}
use decentralized_hive_mind.Orchestrator.Db.{
  World, Db, Action, sql, sql_at, run, fault_at, pure, guard, ◌>>=◌,
}
use decentralized_hive_mind.Orchestrator.Auth.{is_hex64}
use decentralized_hive_mind.Orchestrator.Privacy.{PiiTools}
use decentralized_hive_mind.Orchestrator.Routes.Jobs.{
  SubmitJobRequest, is_valid, is_allowed, short_hint, allowed_models, seed, submit_job, insert_task,
  new_task, subtask_plan,
}
use decentralized_hive_mind.NodeClient.Effect.{Outcome, effects}
use decentralized_hive_mind.NodeClient.Effect as Effect
use decentralized_hive_mind.NodeClient.Http.{Outside}
use decentralized_hive_mind.NodeClient.Config.{NodeConfig}
use decentralized_hive_mind.NodeClient.Terminal.{Session, say_all}
use decentralized_hive_mind.NodeClient.Commands.{CommandTools, resolve_prompt, read_prompt, trimmed}
use decentralized_hive_mind.NodeClient.Commands.Submit.{SubmitArgs, job_request, read_args}

-- An allowed model has a short name.
model-short :
    (models : List Text) (model : Text)
    → any (λ m. text_eq m model) models ≡ true
    → All (λ (m : Text). length m ≤ 64) models
    → length model ≤ 64
model-short [] model h short = cc
model-short (m ∷ models) model h short = elim (Bool-cases (text_eq m model)) [
  | inl same ↦ subst (λ (t : Text). length t ≤ 64) (text_eq_sound m model same) short.0
  | inr other ↦ model-short models model (ground arith) short.1
]

le→leb : (a b : ℕ) → a ≤ b → leb a b ≡ true
le→leb a b h = ground arith

short_hint-is_allowed : (hint : Option Text) → is_allowed hint ≡ true → short_hint hint ≡ true
short_hint-is_allowed none h = refl
short_hint-is_allowed (some model) h =
    le→leb (length model) 64 (model-short allowed_models model h (omega arith))

is_hex64-pubkey_hex :
    (K : Type 0) ⦃d : Digest⦄ ⦃c : Ed25519 K⦄ (k : K) → is_hex64 (pubkey_hex k) ≡ true
unfolding is_hex64 pubkey_hex
is_hex64-pubkey_hex K ⦃d⦄ ⦃c⦄ k = ground (
  arith,
  d.decode-encode (c.verifying_key k) (c.verifying_key_bytes k),
  d.len-hex_encode (c.verifying_key k) (c.verifying_key_bytes k),
  c.length-verifying_key k,
)

-- A result that is no error but one of the database.
abbrev pub IsServed : {A : Type 0} → AppResult A → Type 0
IsServed (ok _) = Unit {0}
IsServed (err e) = (message : Text) × (e ≡ database message)

abbrev Serves : {F A : Type 0} → Action F A → Type 0
Serves {F} m = (w : World F) → IsServed (m w).0

module _ {F : Type 0} where
  IsServed-sql_at :
      {A : Type 0} (stmt : Db F → Option (A × Db F)) (o : Option (A × Db F)) (w : World F)
      → IsServed (run o w).0
  IsServed-sql_at stmt (some (a, db)) w = tt
  IsServed-sql_at stmt none w = (text "constraint violated", refl)

  IsServed-faults :
      {A : Type 0} (stmt : Db F → Option (A × Db F)) (faults : List (Option Text)) (w : World F)
      → IsServed (sql_at stmt (fault_at faults w)).0
  IsServed-faults stmt [] w = IsServed-sql_at stmt (stmt w.db) w
  IsServed-faults stmt (none ∷ rest) w =
      IsServed-sql_at stmt (stmt w.db) (record w { faults = rest })
  IsServed-faults stmt (some m ∷ rest) w = (m, refl)

  Serves-sql : {A : Type 0} (stmt : Db F → Option (A × Db F)) → Serves (sql stmt)
  unfolding sql
  Serves-sql stmt w = IsServed-faults stmt w.faults w

  Serves-outcome :
      {A B : Type 0} (f : A → Action F B) (r : AppResult A) (w : World F)
      → IsServed r
      → ((a : A) → Serves (f a))
      → IsServed (elim r as (λ _. AppResult B × World F) [ ok a ↦ f a w | err e ↦ (err e, w) ]).0
  Serves-outcome f (ok a) w h k = k a w
  Serves-outcome f (err e) w h k = h

  Serves-bind :
      {A B : Type 0} (m : Action F A) (f : A → Action F B)
      → Serves m
      → ((a : A) → Serves (f a))
      → Serves (m >>= f)
  unfolding ◌>>=◌
  Serves-bind m f h k w = Serves-outcome f (m w).0 (m w).1 (h w) k

  Serves-guard : (b : Bool) (e : AppError) → b ≡ true → Serves {F = F} (guard b e)
  unfolding guard
  Serves-guard true e h w = tt
  Serves-guard false e h w = cc

  Serves-seed :
      ⦃o : Float64 F⦄ (task_ids : ℕ → Uuid) (job_id : Uuid) (prompt min_tier : Text)
      (now : DateTime) (i : ℕ) (plan : List (AgentRole × ℕ × ℕ))
      → Serves {F = F} (seed task_ids job_id prompt min_tier now i plan)
  unfolding seed pure
  Serves-seed task_ids job_id prompt min_tier now i [] = λ w. tt
  Serves-seed task_ids job_id prompt min_tier now i (p ∷ plan) =
      Serves-bind (sql (insert_task (new_task (task_ids i) job_id prompt min_tier now p)))
        (λ _. seed task_ids job_id prompt min_tier now (suc i) plan)
        (Serves-sql (insert_task (new_task (task_ids i) job_id prompt min_tier now p)))
        (λ _. Serves-seed task_ids job_id prompt min_tier now (suc i) plan)

-- A prompt that is resolved is not empty.
resolve_prompt-ne-nil :
    (trim : Text → Text) (o : Outcome Text) (prompt : Text)
    → trimmed trim o ≡ Effect.ok prompt
    → 1 ≤ length prompt
resolve_prompt-ne-nil trim (Effect.ok s) prompt h = ground arith
resolve_prompt-ne-nil trim (Effect.fail m) prompt h = ground arith
resolve_prompt-ne-nil trim Effect.panic prompt h = ground arith

-- Options within the limits of the orchestrator.
pub record IsWithin {F : Type 0} ⦃o : Float64 F⦄ (args : SubmitArgs F) : Type 0 where
  pub model_allowed : is_allowed args.model ≡ true
  pub budget_low : o.le (o.hundredths (pos 1)) args.budget ≡ true
  pub budget_high : o.le args.budget (o.hundredths (pos 10_000_000)) ≡ true
  pub deadline_low : 10 ≤ args.deadline
  pub deadline_high : args.deadline ≤ 86400

module _ (E F K : Type 0) ⦃o : Float64 F⦄ ⦃out : Outside E⦄ ⦃d : Digest⦄ ⦃c : Ed25519 K⦄
    (tools : CommandTools F) (config : NodeConfig) (signing_key : K) (args : SubmitArgs F)
    (prompt : Text) (tier : JobTier) where
  read_args-ne-nil :
      (s s' : Session E)
      → read_args tools config signing_key args s ≡ (Effect.ok (prompt, tier), s')
      → 1 ≤ length prompt
  unfolding read_args effects say_all resolve_prompt
  read_args-ne-nil s s' h =
      resolve_prompt-ne-nil tools.trim (read_prompt args.prompt args.file args.stdin) prompt
        (ground arith)

  is_valid-job_request :
      IsWithin args
      → 1 ≤ length prompt
      → length prompt ≤ 32768
      → is_valid (job_request signing_key args prompt tier) ≡ true
  unfolding is_valid
  is_valid-job_request within low high =
      let l = le→leb 1 (length prompt) low in
      let h = le→leb (length prompt) 32768 high in
      let m = short_hint-is_allowed args.model within.model_allowed in
      let dl = le→leb 10 args.deadline within.deadline_low in
      let dh = le→leb args.deadline 86400 within.deadline_high in
      rw (l, h, m, within.budget_low, within.budget_high, dl, dh) refl

  -- The handler stores such a job, or a call of its database fails.
  pub job_request-IsServed :
      (pii : PiiTools) (describe : SubmitJobRequest F → Text)
      (pgp_sym_encrypt : Text → Text → Bytes) (signing_key_hex : Text) (s s' : Session E)
      (new_id : Uuid) (task_ids : ℕ → Uuid) (new_v4 : ℕ → Text) (now : DateTime) (w : World F)
      → read_args tools config signing_key args s ≡ (Effect.ok (prompt, tier), s')
      → length prompt ≤ 32768
      → IsWithin args
      → IsServed
          (submit_job pii describe pgp_sym_encrypt signing_key_hex
            (job_request signing_key args prompt tier)
            new_id
            task_ids
            new_v4
            now
            w).0
  unfolding submit_job pure
  job_request-IsServed pii describe pgp key_hex s s' new_id task_ids new_v4 now w read size within =
      let req = job_request signing_key args prompt tier in
      let valid = is_valid-job_request within (read_args-ne-nil s s' read) size in
      Serves-bind _ _ (Serves-guard (is_valid req) _ valid)
        (λ _. Serves-bind _ _ (Serves-guard (is_allowed args.model) _ within.model_allowed) (λ _.
          Serves-bind _ _
            (Serves-guard (is_hex64 (pubkey_hex signing_key)) _ (is_hex64-pubkey_hex K signing_key))
            (λ _. Serves-bind _ _ (Serves-sql _) (λ row.
              Serves-bind _ _ (Serves-seed task_ids row _ _ now 0 (subtask_plan tier))
                (λ _ w. tt)))))
        w
