-- ===== src/NodeClient/Commands/Submit.antt =====
-- node-client/src/main.rs: `job submit`.
pub mod Admitted
pub mod Answered
use decentralized_hive_mind.Prelude.{
  ℕ, ◌≡◌, Bool, true, false, Option, none, some, List, [], ◌∷◌, ◌++◌, take, Text, text, text_eq,
  as_bytes, unwrap_or, if◌then◌else◌,
}
use decentralized_hive_mind.Common.Crypto.{Digest, Ed25519}
use decentralized_hive_mind.Common.Identity.{pubkey_hex}
use decentralized_hive_mind.Common.Types.{JobTier, standard, paid, premium}
use decentralized_hive_mind.Orchestrator.Routes.Jobs.{SubmitJobRequest}
use decentralized_hive_mind.NodeClient.Config.{NodeConfig}
use decentralized_hive_mind.NodeClient.Effect.{
  Outcome, ok, fail, panic, Effect, pure, lift, context, ◌>>=◌, ◌>>◌,
}
use decentralized_hive_mind.NodeClient.Http.{Reply, Outside}
use decentralized_hive_mind.NodeClient.Terminal.{
  Line, hint, action, success, field, gap, Session, say_all, status_colored,
}
use decentralized_hive_mind.NodeClient.Commands.{
  JobReply, CommandTools, resolve_prompt, refused, on_status, submit,
}
use decentralized_hive_mind.NodeClient.Commands.Jobs.{body_of, cmd_job_wait}

-- The three names that `--tier` accepts, in lower case.
abbrev tier_of : Text → Option JobTier
tier_of name =
    if text_eq name (text "standard")
    then some standard
    else if text_eq name (text "paid")
    then some paid
    else if text_eq name (text "premium")
    then some premium
    else none

-- The options of the command, and what the file, if it is given, and the terminal hold.
pub record SubmitArgs (F : Type 0) : Type 0 where
  pub prompt : Option Text
  pub file : Option (Outcome Text)
  pub stdin : Outcome Text
  pub tier : Text
  pub budget : F
  pub deadline : ℕ
  pub model : Option Text
  pub wait : Bool

abbrev prompt_lines : Option Text → Option (Outcome Text) → List Line
prompt_lines none none = hint (text "Reading prompt from stdin (Ctrl-D to finish):") ∷ []
prompt_lines _ _ = []

-- The object that becomes the body.
abbrev pub job_request :
    {F K : Type 0} ⦃d : Digest⦄ ⦃c : Ed25519 K⦄
    → K
    → SubmitArgs F
    → Text
    → JobTier
    → SubmitJobRequest F
job_request signing_key args prompt tier = record {
  prompt = prompt;
  model_hint = args.model;
  budget_cap_credits = args.budget;
  tier = tier;
  deadline_secs = args.deadline;
  submitter_pubkey_hex = pubkey_hex signing_key;
}

module _ {E F : Type 0} ⦃out : Outside E⦄ (tools : CommandTools F) (config : NodeConfig)
    {K : Type 0} ⦃d : Digest⦄ ⦃c : Ed25519 K⦄ (signing_key : K) where
  -- The prompt and the tier of a request.
  unfoldable pub read_args : SubmitArgs F → Effect (Session E) (Text × JobTier)
  read_args args = do
    say_all (prompt_lines args.prompt args.file)
    prompt ← lift (resolve_prompt tools.trim args.prompt args.file args.stdin)
    tier ← context (tier_of (tools.to_lowercase args.tier)) (
        text "unknown tier '"
        ++ (tools.to_lowercase args.tier ++ text "': choose standard | paid | premium"))
    pure (prompt, tier)

  -- The command up to the reply, with the id of the job.
  unfoldable send_job : SubmitArgs F → Effect (Session E) Text
  unfolding refused submit
  send_job args = do
    (prompt, tier) ← read_args args
    say_all (
        action (text "Submitting job…")
        ∷ gap
        ∷ field (text "Tier") args.tier
        ∷ field (text "Budget") (tools.show_1 args.budget ++ text " credits")
        ∷ field (text "Model") (unwrap_or args.model (text "any"))
        ∷ field (text "Prompt") (take 60 prompt ++ text "…")
        ∷ gap
        ∷ [])
    resp ←
        submit signing_key (config.orchestrator_url ++ text "/jobs/submit")
          (as_bytes (tools.submit_to_string (job_request signing_key args prompt tier)))
          (text "job submit request failed")
    let shown = do
      val ← context (body_of tools.job_from_str resp.body) (text "json")
      let job_id = unwrap_or val.job_id (text "unknown")
      let status = unwrap_or val.status (text "pending")
      say_all (
          success (text "Job submitted!")
          ∷ gap
          ∷ field (text "Job ID") job_id
          ∷ field (text "Status") (status_colored tools.to_lowercase status)
          ∷ gap
          ∷ hint (text "Track:  node-client job status " ++ job_id)
          ∷ gap
          ∷ [])
      pure job_id
    on_status resp shown (refused (text "Job submit failed (") (text "job submit failed") resp)

  abbrev then_wait : ℕ → Bool → Outcome Text × Session E → Option (Outcome (Unit {0}) × Session E)
  then_wait turns true (ok job_id, s) = cmd_job_wait tools config signing_key turns job_id 3 s
  then_wait turns false (ok job_id, s) = some (ok tt, s)
  then_wait turns _ (fail m, s) = some (fail m, s)
  then_wait turns _ (panic, s) = some (panic, s)

  -- The command, with a number of turns for the loop that `--wait` enters.
  unfoldable pub cmd_job_submit :
      ℕ → SubmitArgs F → Session E → Option (Outcome (Unit {0}) × Session E)
  unfolding send_job
  cmd_job_submit turns args s = then_wait turns args.wait (send_job args s)
