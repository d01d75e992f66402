-- ===== src/Orchestrator/Service.antt =====
-- The orchestrator as a state machine: the requests of orchestrator/src/routes, and the rounds of the
-- loop of orchestrator/src/task_manager.rs, one after the other. Any call of the database may fail.
pub mod Bans
pub mod Nodes
pub mod Safety
pub mod JobTable
pub mod JobSteps
pub mod Settled
pub mod Unfailed
use decentralized_hive_mind.Prelude.{ℕ, Bool, true, false, Option, List, [], ◌∷◌, Text, Bytes}
use decentralized_hive_mind.Common.Float64.{Float64}
use decentralized_hive_mind.Common.Crypto.{Digest, Ed25519}
use decentralized_hive_mind.Common.Types.{Uuid, DateTime, ReceiptPayload}
use decentralized_hive_mind.Orchestrator.Validator.{TextTools}
use decentralized_hive_mind.Orchestrator.Db.{World}
use decentralized_hive_mind.Orchestrator.TaskManager.Housekeeping.{round}
use decentralized_hive_mind.Orchestrator.Routes.Tasks.{TaskResultRequest, submit_task_result}
use decentralized_hive_mind.Orchestrator.Privacy.{PiiTools}
use decentralized_hive_mind.Orchestrator.Routes.Jobs.{SubmitJobRequest, submit_job, job_status}
use decentralized_hive_mind.Orchestrator.Routes.Listings.{list_nodes, flagged_nodes, list_jobs}
use decentralized_hive_mind.Orchestrator.Routes.Nodes.{
  RegisterRequest, BanRequest, register_node, heartbeat, ban_node, unban_node,
}

-- What a process of the orchestrator is started with: its keys, and the libraries that are parameters.
pub record Setup (F K : Type 0) : Type 0 where
  pub tools : TextTools
  pub pii : PiiTools
  pub trim : Text → Text
  pub show_uuid : Uuid → Text
  pub to_vec : ReceiptPayload F → Bytes
  pub describe : SubmitJobRequest F → Text
  pub pgp_sym_encrypt : Text → Text → Bytes
  pub signing_key : K
  pub signing_key_hex : Text

-- A request, or a round of the task manager.
pub data Call (F : Type 0) : Type 0 where
  register : RegisterRequest → Uuid → DateTime → Call F
  alive : Uuid → DateTime → Call F
  ban_request : BanRequest → DateTime → Call F
  unban_request : Uuid → Call F
  nodes_query : DateTime → Call F
  flagged_query : Call F
  jobs_query : Option Text → Call F
  job_query : Uuid → Call F
  job_request : SubmitJobRequest F → Uuid → (ℕ → Uuid) → (ℕ → Text) → DateTime → Call F
  result : Uuid → TaskResultRequest → Uuid → Bytes → DateTime → Call F
  tick : (Uuid → Bool) → DateTime → ℕ → Call F

abbrev pub is_unban : {F : Type 0} → Call F → Bool
is_unban (unban_request _) = true
is_unban _ = false

module _ {F K : Type 0} ⦃o : Float64 F⦄ ⦃d : Digest⦄ ⦃c : Ed25519 K⦄ (setup : Setup F K) where
  unfoldable pub serve : Call F → World F → World F
  serve (register req id now) w = (register_node req id now w).1
  serve (alive id now) w = (heartbeat id now w).1
  serve (ban_request req now) w = (ban_node setup.trim req now w).1
  serve (unban_request id) w = (unban_node id w).1
  serve (nodes_query now) w = (list_nodes now w).1
  serve flagged_query w = (flagged_nodes w).1
  serve (jobs_query header) w = (list_jobs header w).1
  serve (job_query id) w = (job_status id w).1
  serve (job_request req id task_ids new_v4 now) w =
      (submit_job setup.pii setup.describe setup.pgp_sym_encrypt setup.signing_key_hex req id
        task_ids new_v4 now w).1
  serve (result task_id req receipt_id nonce now) w =
      (submit_task_result setup.tools setup.show_uuid setup.to_vec setup.signing_key task_id req
        receipt_id nonce now w).1
  serve (tick locked now n) w = (round locked now n w).1

  unfoldable pub serve_all : List (Call F) → World F → World F
  serve_all [] w = w
  serve_all (call ∷ calls) w = serve_all calls (serve call w)
