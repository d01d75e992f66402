-- ===== src/NodeClient/Runner.antt =====
-- node-client/src/runner.rs: the entries of the stream that a node receives, and the result that it
-- reports.
pub mod Received
use decentralized_hive_mind.Prelude.{
  ℕ, Option, none, some, List, [], ◌∷◌, ◌++◌, Text, Bytes, as_bytes,
}
use decentralized_hive_mind.Common.Crypto.{Digest, Ed25519}
use decentralized_hive_mind.Common.Identity.{pubkey_hex}
use decentralized_hive_mind.Orchestrator.Routes.Tasks.{TaskResultRequest}

-- `redis::Value`: the variants that the code looks at, and the rest.
mutual
  pub data Value : Type 0 where
    bulk_string : Bytes → Value
    array : Values → Value
    other : Value

  pub data Values : Type 0 where
    nil : Values
    cons : Value → Values → Values

-- `String::from_utf8_lossy` is a parameter: it puts U+FFFD for what is not UTF-8.
module _ (lossy : Bytes → Text) where
  -- `[id, [key, value, ..]]`, with strings as the id, the key and the value
  abbrev fields_entry : Bytes → Values → Option (Text × Text)
  fields_entry id (cons (bulk_string key) (cons (bulk_string payload) rest)) =
      some (lossy id, lossy payload)
  fields_entry id _ = none

  abbrev stream_entry : Values → Option (Text × Text)
  stream_entry (cons (bulk_string id) (cons (array fields) nil)) = fields_entry id fields
  stream_entry _ = none

  -- The entry, if there is one, else what the items hold.
  abbrev entry_or : Option (Text × Text) → List (Text × Text) → List (Text × Text)
  entry_or none inner = inner
  entry_or (some e) inner = e ∷ []

  unfoldable mutual
    pub walk : Value → List (Text × Text)
    walk (bulk_string b) = []
    walk (array items) = entry_or (stream_entry items) (walk_all items)
    walk other = []

    pub walk_all : Values → List (Text × Text)
    walk_all nil = []
    walk_all (cons v items) = walk v ++ walk_all items

  -- `extract_stream_entries`; what `walk` pushes onto `out` is what it returns here.
  abbrev pub extract_stream_entries : Values → List (Text × Text)
  extract_stream_entries values = walk_all values

-- `TaskResult`, of `process_task`
pub record TaskResult : Type 0 where
  pub task_id : Text
  pub output : Text
  pub proof_hash : Text
  pub node_pubkey : Text

-- What `process_task` reports of a task, once the inference has returned its output.
unfoldable pub process_result :
    {K : Type 0} ⦃d : Digest⦄ ⦃c : Ed25519 K⦄ → K → Text → Text → Text → TaskResult
process_result ⦃d⦄ signing_key task_id prompt_shard output = record {
  task_id = task_id;
  output = output;
  proof_hash = d.hex_encode (d.sha256 (as_bytes prompt_shard ++ as_bytes output));
  node_pubkey = pubkey_hex signing_key;
}

-- The JSON object of a `TaskResult`, as the orchestrator reads it: the token counts are missing.
abbrev received : TaskResult → TaskResultRequest
received r = record {
  output = r.output;
  proof_hash = r.proof_hash;
  node_pubkey = r.node_pubkey;
  tokens_in = none;
  tokens_out = none;
}
