-- ===== src/Orchestrator/Tests/Fixtures.antt =====
-- Rows and requests for the examples: a job of two sub-tasks, the first of them dispatched, and one
-- node of the highest tier.
use decentralized_hive_mind.Prelude.{true, false, none, some, [], ◌∷◌, Text, Bytes, text, as_bytes}
use decentralized_hive_mind.Prelude.Int.{ℤ, pos}
use decentralized_hive_mind.Common.Float64.Fixed.{fixed}
use decentralized_hive_mind.Common.Crypto.Sample.{sample_digest, sample}
use decentralized_hive_mind.Common.Identity.{pubkey_hex}
use decentralized_hive_mind.Common.Types.{Uuid, cluster, coder, pending, dispatched, ReceiptPayload}
use decentralized_hive_mind.Orchestrator.Service.{Setup}
use decentralized_hive_mind.Orchestrator.Routes.Jobs.{SubmitJobRequest}
use decentralized_hive_mind.Common.Types.{premium}
use decentralized_hive_mind.Prelude.{refl, ◌++◌, Bool}
use decentralized_hive_mind.Prelude.{arith, inl}
use decentralized_hive_mind.Orchestrator.Invariant.{Inv}
use decentralized_hive_mind.Orchestrator.Validator.{TextTools, expected_hex}
use decentralized_hive_mind.Orchestrator.Db.{NodeRow, JobRow, job_pending, SubTaskRow, Db, World}
use decentralized_hive_mind.Orchestrator.Routes.Tasks.{TaskResultRequest}

abbrev pub tools : TextTools
tools = record {
  injection_match = λ s. false;
  strip_ansi = λ s. s;
  is_json = λ s. true;
  strip_ansi-In = λ s c m. m;
}

abbrev pub show_uuid : Uuid → Text
show_uuid n = n ∷ []

abbrev pub to_vec : ReceiptPayload ℤ → Bytes
to_vec p = p.id ∷ p.sub_task_id ∷ []

abbrev pub node_key : Text
node_key = pubkey_hex true

abbrev pub node : NodeRow ℤ
node = record {
  id = 1;
  pubkey_hex = node_key;
  capabilities = record { roles = coder ∷ []; models = []; vram_mb = none; tier = cluster };
  tier = text "Cluster";
  reputation_score = pos 500_000;
  jobs_completed = 100;
  is_banned = false;
  ban_reason = none;
  ban_expires_at = none;
  registered_at = 0;
  last_seen_at = 0;
}

abbrev pub job : JobRow ℤ
job = record {
  id = 10;
  submitter_pubkey_hex = node_key;
  prompt_encrypted = [];
  model_hint = none;
  budget_cap_credits = pos 100_000_000;
  tier = text "Standard";
  deadline_at = 1000;
  status = job_pending;
  total_cost_credits = none;
  created_at = 0;
  updated_at = 0;
  completed_at = none;
}

abbrev pub first_task : SubTaskRow
first_task = record {
  id = 100;
  job_id = 10;
  role = text "Coder";
  prompt_shard = text "p";
  min_tier = text "Edge";
  position = 0;
  agent_index = 0;
  assigned_node_id = none;
  status = dispatched;
  result = none;
  proof_hash_hex = none;
  tokens_in = none;
  tokens_out = none;
  retry_count = 0;
  created_at = 5;
  updated_at = 5;
  completed_at = none;
}

abbrev pub second_task : SubTaskRow
second_task = record first_task { id = 101; position = 1; status = pending }

abbrev pub db : Db ℤ
db = record {
  nodes = node ∷ [];
  jobs = job ∷ [];
  sub_tasks = first_task ∷ second_task ∷ [];
  credit_receipts = [];
  reputation_events = [];
  request_nonces = [];
}

abbrev pub world : World ℤ
world = record { db = db; stream = []; faults = [] }

-- The result of the first task.
abbrev pub req : TaskResultRequest
req = record {
  output = text "o";
  proof_hash = expected_hex (as_bytes (text "p")) (text "o");
  node_pubkey = node_key;
  tokens_in = some 3;
  tokens_out = some 4;
}

abbrev pub nonce : Bytes
nonce = 7 ∷ []

abbrev pub setup : Setup ℤ Bool
setup = record {
  tools = tools;
  pii = record { find_iter = λ label s. ([], s); join-find_iter = λ label s. refl };
  trim = λ s. s;
  show_uuid = show_uuid;
  to_vec = to_vec;
  describe = λ r. text "invalid";
  pgp_sym_encrypt = λ s key. s ++ key;
  signing_key = true;
  signing_key_hex = node_key;
}

abbrev pub job_req : SubmitJobRequest ℤ
job_req = record {
  prompt = text "do it";
  model_hint = some (text "phi-3-mini");
  budget_cap_credits = pos 5_000_000;
  tier = premium;
  deadline_secs = 60;
  submitter_pubkey_hex = node_key;
}

pub db-Inv : Inv db
db-Inv = record {
  keyed = λ t u mt mu e. ground arith;
  owned = λ t mt. (job, inl refl, ground arith);
  rooted = λ r mr. absurd mr;
  ordered = λ t u mt mu d j p. ground arith;
  sound = λ j t mj mt e k. ground arith;
  capped = λ t mt. ground arith;
  paid = λ r t mr mt e. absurd mr;
  once = λ r s mr ms e. absurd mr;
}
