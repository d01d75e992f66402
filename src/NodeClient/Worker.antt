-- ===== src/NodeClient/Worker.antt =====
-- node-client/src/runner.rs: the loop that takes tasks from the stream, runs them and reports their
-- results.
pub mod Delivery
use decentralized_hive_mind.Prelude.{
  ℕ, zero, suc, ◌≡◌, ◌≢◌, Bool, true, false, Option, none, some, List, [], ◌∷◌, ◌++◌, Text, Bytes,
  text, as_bytes, is_some, unwrap_or, In, ◌⊎◌, if◌then◌else◌,
}
use decentralized_hive_mind.Common.Crypto.{Digest, Ed25519}
use decentralized_hive_mind.Common.Identity.{pubkey_hex}
use decentralized_hive_mind.Orchestrator.Auth.{Request}
use decentralized_hive_mind.NodeClient.Effect.{
  Outcome, ok, fail, Effect, pure, lift, context, ◌>>=◌, ◌>>◌,
}
use decentralized_hive_mind.NodeClient.Runner.{
  Values, nil, extract_stream_entries, TaskResult, process_result,
}
use decentralized_hive_mind.NodeClient.Http.{
  HttpRequest, post, Reply, Outside, is_error, send_request, sign, post_request,
}
use decentralized_hive_mind.NodeClient.Signing.{with_content_type}

pub record TaskPayload : Type 0 where
  pub task_id : Text
  pub job_id : Text
  pub role : Text
  pub prompt_shard : Text
  pub min_tier : Text
  pub agent_index : ℕ

-- The fields of `NodeConfig` that the worker reads.
pub record WorkerConfig : Type 0 where
  pub orchestrator_url : Text
  pub llama_server_url : Text

-- The temperature is in hundredths.
pub record CompletionRequest : Type 0 where
  pub prompt : Text
  pub max_tokens : ℕ
  pub temperature : ℕ

-- `serde_json`: a payload, the request for a completion and its reply, which is read as the texts of
-- its choices, and a result.
pub record WorkerJson : Type 0 where
  pub payload_from_str : Text → Option TaskPayload
  pub completion_to_vec : CompletionRequest → Bytes
  pub choices_from_str : Text → Option (List Text)
  pub result_to_string : TaskResult → Text

-- `choices.into_iter().next()`
abbrev first_choice : List Text → Option Text
first_choice [] = none
first_choice (t ∷ _) = some t

-- A reply's body, read as JSON
abbrev json : {A : Type 0} → (Text → Option A) → Option Text → Option A
json from_str none = none
json from_str (some s) = from_str s

-- `response.error_for_status().context(message)?`
abbrev for_status : Reply → Text → Outcome Reply
for_status reply message = if is_error reply.status then fail message else ok reply

module _ {E : Type 0} ⦃out : Outside E⦄ (tools : WorkerJson) (config : WorkerConfig) where
  -- `run_inference`, which without the feature `llama-direct` is this one.
  unfoldable pub run_inference_server : Text → Effect E Text
  run_inference_server prompt = do
    resp ←
        send_request
          (record {
            method = post;
            url = config.llama_server_url ++ text "/v1/completions";
            request = record {
              header = with_content_type (λ name. none);
              body = some (
                  tools.completion_to_vec
                    (record { prompt = prompt; max_tokens = 512; temperature = 20 }));
            };
          })
          (text "llama-server request failed")
    good ← lift (for_status resp (text "llama-server returned error status"))
    choices ←
        context (json tools.choices_from_str good.body)
          (text "failed to parse llama-server response")
    context (first_choice choices) (text "llama-server returned empty choices")

  module _ {K : Type 0} ⦃d : Digest⦄ ⦃c : Ed25519 K⦄ (signing_key : K) where
    -- The end of `process_task`: the result is signed and reported.
    unfoldable pub report : Text → TaskResult → Effect E (Unit {0})
    report task_id result = do
      let body = as_bytes (tools.result_to_string result)
      parts ← sign signing_key body
      let url = config.orchestrator_url ++ (text "/tasks/" ++ (task_id ++ text "/result"))
      resp ←
          send_request (post_request signing_key url body parts) (text "failed to POST task result")
      accepted ← lift (for_status resp (text "orchestrator rejected task result"))
      pure tt

    unfoldable pub process_task : Text → Effect E (Unit {0})
    process_task payload_json = do
      task ← context (tools.payload_from_str payload_json) (text "failed to parse task payload")
      output ← run_inference_server task.prompt_shard
      report task.task_id (process_result signing_key task.task_id task.prompt_shard output)

-- The consumer group of Redis, as the node sees it: a state of a type `S` with the entries that were
-- delivered and not acknowledged, and those that left these without this node's acknowledgement:
-- another node of the group acknowledged them, also while a call of this node waits, or they were
-- deleted from the stream, which XAUTOCLAIM notices. `none` is a call that fails.
pub record Streams (S : Type 0) : Type 0 where
  pub pending : S → List (Text × Text)
  pub dropped : S → List (Text × Text)
  pub xgroup_create : S → S
  pub xautoclaim : Text → S → Option Values × S
  pub xreadgroup : Text → S → Option Values × S
  pub xack : Text → S → S
  -- A dropped entry has been dropped for good.
  pub dropped-xgroup_create :
      (s : S) (e : Text × Text) → In e (dropped s) → In e (dropped (xgroup_create s))
  pub dropped-xautoclaim :
      (consumer : Text) (s : S) (e : Text × Text)
      → In e (dropped s)
      → In e (dropped (xautoclaim consumer s).1)
  pub dropped-xreadgroup :
      (consumer : Text) (s : S) (e : Text × Text)
      → In e (dropped s)
      → In e (dropped (xreadgroup consumer s).1)
  pub dropped-xack :
      (id : Text) (s : S) (e : Text × Text) → In e (dropped s) → In e (dropped (xack id s))
  -- A pending entry stays pending unless it is dropped, or acknowledged by this node by its id.
  pub pending-xgroup_create :
      (s : S) (e : Text × Text)
      → In e (pending s)
      → In e (pending (xgroup_create s)) ⊎ In e (dropped (xgroup_create s))
  pub pending-xautoclaim :
      (consumer : Text) (s : S) (e : Text × Text)
      → In e (pending s)
      → In e (pending (xautoclaim consumer s).1) ⊎ In e (dropped (xautoclaim consumer s).1)
  pub pending-xreadgroup :
      (consumer : Text) (s : S) (e : Text × Text)
      → In e (pending s)
      → In e (pending (xreadgroup consumer s).1) ⊎ In e (dropped (xreadgroup consumer s).1)
  pub pending-xack :
      (id : Text) (s : S) (e : Text × Text)
      → In e (pending s)
      → e.0 ≢ id
      → In e (pending (xack id s)) ⊎ In e (dropped (xack id s))

-- The state of a worker with its connections, with the entries whose processing has succeeded.
pub record Worker (S E : Type 0) : Type 0 where
  pub redis : S
  pub outside : E
  pub finished : List (Text × Text)

module _ {S E : Type 0} ⦃r : Streams S⦄ ⦃out : Outside E⦄ {K : Type 0} ⦃d : Digest⦄ ⦃c : Ed25519 K⦄
    (lossy : Bytes → Text) (tools : WorkerJson) (config : WorkerConfig) (signing_key : K) where
  abbrev pub settle : Text × Text → Outcome (Unit {0}) × E → Worker S E → Worker S E
  settle (id, payload) (ok _, e) w = record {
    redis = r.xack id w.redis;
    outside = e;
    finished = (id, payload) ∷ w.finished;
  }
  settle _ (_, e) w = record w { outside = e }

  -- One turn of the loop over the entries.
  abbrev pub handle : Text × Text → Worker S E → Worker S E
  handle (id, payload) w =
      settle (id, payload) (process_task tools config signing_key payload w.outside) w

  unfoldable pub handle_all : List (Text × Text) → Worker S E → Worker S E
  handle_all [] w = w
  handle_all (entry ∷ entries) w = handle_all entries (handle entry w)

  -- One round of the loop: first the entries claimed, then the fresh ones.
  unfoldable pub round : Worker S E → Worker S E
  round w =
      let consumer = pubkey_hex signing_key in
      let (pending, s₁) = r.xautoclaim consumer w.redis in
      let claimed = extract_stream_entries lossy (unwrap_or pending nil) in
      let (fresh, s₂) = r.xreadgroup consumer s₁ in
      let fresh_entries = extract_stream_entries lossy (unwrap_or fresh nil) in
      handle_all (claimed ++ fresh_entries) (record w { redis = s₂ })

  -- The first rounds of a loop that does not end.
  unfoldable pub rounds : ℕ → Worker S E → Worker S E
  rounds zero w = w
  rounds (suc n) w = rounds n (round w)

  unfoldable pub run_worker_loop : ℕ → S → E → Worker S E
  run_worker_loop n redis outside =
      rounds n (record { redis = r.xgroup_create redis; outside = outside; finished = [] })
