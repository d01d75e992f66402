-- ===== src/NodeClient/Commands.antt =====
-- node-client/src/main.rs: the commands that send requests to the orchestrator, and what they print.
pub mod Jobs
pub mod Submit
pub mod Local
use decentralized_hive_mind.Prelude.{
  ℕ, zero, suc, ◌≡◌, Bool, true, false, ◌||◌, Option, none, some, List, [], ◌∷◌, ◌++◌, map, take,
  length, Text, Bytes, text, text_eq, as_bytes, unwrap_or, ◌==◌, if◌then◌else◌,
}
use decentralized_hive_mind.Prelude.Decimal.{show_ℕ}
use decentralized_hive_mind.Common.Crypto.{Digest, Ed25519}
use decentralized_hive_mind.Common.Identity.{pubkey_hex}
use decentralized_hive_mind.Common.Types.{JobTier, standard, paid, premium, job_tier_name}
use decentralized_hive_mind.Orchestrator.Routes.Jobs.{SubmitJobRequest}
use decentralized_hive_mind.NodeClient.Config.{NodeConfig}
use decentralized_hive_mind.NodeClient.Effect.{
  Outcome, ok, fail, panic, Effect, pure, lift, context, ◌>>=◌, ◌>>◌,
}
use decentralized_hive_mind.NodeClient.Http.{
  HttpRequest, Reply, Outside, is_success, send_request, build_client, sign, post_request,
  get_request,
}
use decentralized_hive_mind.NodeClient.Terminal.{
  Line, section, hint, action, success, failure, field, gap, table, Session, say, say_all, outside,
  status_colored, truncate_hex, short, or_panic,
}

-- The fields of the JSON replies of the orchestrator that the commands read, `none` where a field is
-- missing or has another type.
pub record JobReply (F : Type 0) : Type 0 where
  pub job_id : Option Text
  pub status : Option Text
  pub total_cost_credits : Option F
  pub created_at : Option Text
  pub completed_at : Option Text

-- The body of a registration; the roles are fixed, and `vram_mb` is null.
pub record RegisterBody : Type 0 where
  pub pubkey_hex : Text
  pub roles : List Text
  pub models : List Text
  pub tier : Text

-- What the commands take from libraries: JSON, the Unicode tables, and `{:.1}` and `{:.4}`. The tier
-- of a submission is one of three literals, each the name of a tier of the orchestrator.
pub record CommandTools (F : Type 0) : Type 0 where
  pub submit_to_string : SubmitJobRequest F → Text
  pub register_to_string : RegisterBody → Text
  pub job_from_str : Text → Option (JobReply F)
  pub jobs_from_str : Text → Option (List (JobReply F))
  pub trim : Text → Text
  pub to_lowercase : Text → Text
  pub to_uppercase : ℕ → Text
  pub show_1 : F → Text
  pub show_4 : F → Text

-- `capitalise`
abbrev capitalise : (ℕ → Text) → Text → Text
capitalise to_uppercase [] = []
capitalise to_uppercase (c ∷ s) = to_uppercase c ++ s

-- Where the prompt comes from: the text of the terminal and that of a file may fail to be read.
abbrev pub read_prompt : Option Text → Option (Outcome Text) → Outcome Text → Outcome Text
read_prompt (some p) file stdin = if text_eq p (text "-") then stdin else ok p
read_prompt none (some content) stdin = content
read_prompt none none stdin = stdin

abbrev pub trimmed : (Text → Text) → Outcome Text → Outcome Text
trimmed trim (ok s) = if length (trim s) == 0 then fail (text "prompt is empty") else ok (trim s)
trimmed trim (fail m) = fail m
trimmed trim panic = panic

-- `resolve_prompt`
unfoldable pub resolve_prompt :
    (Text → Text) → Option Text → Option (Outcome Text) → Outcome Text → Outcome Text
resolve_prompt trim prompt file stdin = trimmed trim (read_prompt prompt file stdin)

module _ {E : Type 0} where
  -- The message of a refusal, which is printed before the command fails.
  unfoldable pub refused : {A : Type 0} → Text → Text → Reply → Effect (Session E) A
  refused message short_message reply =
      say (failure (message ++ (show_ℕ reply.status ++ (text "): " ++ unwrap_or reply.body []))))
      >> lift (fail short_message)

  abbrev pub on_status :
      {A : Type 0} → Reply → Effect (Session E) A → Effect (Session E) A → Effect (Session E) A
  on_status reply yes_m no_m = if is_success reply.status then yes_m else no_m

module _ {E : Type 0} ⦃out : Outside E⦄ {K : Type 0} ⦃d : Digest⦄ ⦃c : Ed25519 K⦄
    (signing_key : K) where
  -- The request of a command that reads.
  unfoldable pub fetch : Text → Text → Effect (Session E) Reply
  fetch url message = do
    outside build_client
    parts ← outside (sign signing_key [])
    outside (send_request (get_request signing_key url parts) message)

  -- The request of a command that writes.
  unfoldable pub submit : Text → Bytes → Text → Effect (Session E) Reply
  submit url body message = do
    outside build_client
    parts ← outside (sign signing_key body)
    outside (send_request (post_request signing_key url body parts) message)

unfoldable register_body :
    {K F : Type 0} ⦃d : Digest⦄ ⦃c : Ed25519 K⦄ → CommandTools F → NodeConfig → K → RegisterBody
register_body tools config signing_key = record {
  pubkey_hex = pubkey_hex signing_key;
  roles = text "Coder" ∷ text "Summarizer" ∷ [];
  models = config.model_id ∷ [];
  tier = capitalise tools.to_uppercase config.node_tier;
}

module _ {E F : Type 0} ⦃out : Outside E⦄ (tools : CommandTools F) (config : NodeConfig)
    {K : Type 0} ⦃d : Digest⦄ ⦃c : Ed25519 K⦄ (signing_key : K) where
  unfoldable pub cmd_register : Effect (Session E) (Unit {0})
  unfolding refused submit register_body
  cmd_register = do
    say_all (
        action (text "Registering node with orchestrator…")
        ∷ gap
        ∷ field (text "Tier") config.node_tier
        ∷ field (text "Model") config.model_id
        ∷ [])
    pubkey ← or_panic (truncate_hex (pubkey_hex signing_key) 16)
    say_all (field (text "Pubkey") pubkey ∷ field (text "URL") config.orchestrator_url ∷ gap ∷ [])
    resp ←
        submit signing_key (config.orchestrator_url ++ text "/nodes/register")
          (as_bytes (tools.register_to_string (register_body tools config signing_key)))
          (text "registration request failed")
    on_status resp
        (say_all (
          success (text "Node registered successfully.")
          ∷ gap
          ∷ hint (text "Run  node-client start  to begin accepting tasks.")
          ∷ gap
          ∷ []))
        (refused (text "Registration failed (") (text "registration failed") resp)

  -- `cmd_start` up to the loop, with the URL at which the loop reads.
  unfoldable pub cmd_start : Effect (Session E) Text
  cmd_start = do
    redis_url ← context config.redis_url (text "REDIS_URL must be set to run the worker")
    say_all (section (text "Worker Node") ∷ gap ∷ [])
    pubkey ← or_panic (truncate_hex (pubkey_hex signing_key) 16)
    say_all (
        field (text "Pubkey") pubkey
        ∷ field (text "Tier") config.node_tier
        ∷ field (text "Model") config.model_id
        ∷ field (text "Stream") (text "redis › subtasks")
        ∷ gap
        ∷ action (text "Listening for tasks…")
        ∷ gap
        ∷ [])
    outside build_client
    pure redis_url
