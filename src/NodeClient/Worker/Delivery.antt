-- ===== src/NodeClient/Worker/Delivery.antt =====
-- What the loop of node-client/src/runner.rs does with the entries of the stream.
use decentralized_hive_mind.Prelude.{
  ℕ, zero, suc, ◌≡◌, refl, false, some, List, [], ◌∷◌, ◌++◌, Text, Bytes, text, as_bytes, In, inl,
  inr, ◌⊎◌, arith, unwrap_or, Option-cases, Bool-cases, text_eq, text_eq_sound, text_eq_refl,
}
use decentralized_hive_mind.Common.Crypto.{Digest, Ed25519}
use decentralized_hive_mind.Common.Identity.{pubkey_hex}
use decentralized_hive_mind.NodeClient.Effect.{Outcome, ok, fail, panic, effects}
use decentralized_hive_mind.NodeClient.Runner.{nil, extract_stream_entries, process_result}
use decentralized_hive_mind.NodeClient.Signing.{sign_request}
use decentralized_hive_mind.NodeClient.Http.{
  HttpRequest, Reply, Outside, is_error, send_request, sign, post_request,
}
use decentralized_hive_mind.NodeClient.Worker.{
  TaskPayload, WorkerConfig, WorkerJson, report, process_task, run_inference_server, Streams,
  Worker, settle, handle_all, round, rounds, run_worker_loop,
}

module _ (E : Type 0) ⦃out : Outside E⦄ (tools : WorkerJson) (config : WorkerConfig) (K : Type 0)
    ⦃d : Digest⦄ ⦃c : Ed25519 K⦄ (signing_key : K) where
  -- A report that succeeds was answered by the orchestrator without an error.
  abbrev IsReported : Text → Text → Text → E → Type 0
  IsReported task_id prompt output after =
      (request : HttpRequest) × (reply : Reply) × (sent : E) × (request.url
        ≡ config.orchestrator_url ++ (text "/tasks/" ++ (task_id ++ text "/result")))
      × (request.request.body
          ≡ some (
              as_bytes (tools.result_to_string (process_result signing_key task_id prompt output))))
      × (out.send request sent ≡ (some reply, after))
      × (is_error reply.status ≡ false)

  report-IsReported :
      (task_id prompt output : Text) (e e' : E)
      → report tools config signing_key task_id (process_result signing_key task_id prompt output) e
        ≡ (ok tt, e')
      → IsReported task_id prompt output e'
  unfolding report effects sign send_request
  report-IsReported task_id prompt output e e' h =
      let result = process_result signing_key task_id prompt output in
      let body = as_bytes (tools.result_to_string result) in
      let url = config.orchestrator_url ++ (text "/tasks/" ++ (task_id ++ text "/result")) in
      let (now, e₁) = out.clock e in
      let (random, e₂) = out.random e₁ in
      let request = post_request signing_key url body (sign_request signing_key body random now) in
      elim (Option-cases (out.send request e₂).0) [
        | inl silent ↦ ground arith
        | inr (reply, answered) ↦ (request, reply, e₂, refl, refl, ground arith, ground arith)
      ]

  abbrev IsProcessed : Text → E → E → Type 0
  IsProcessed payload e e' =
      (task : TaskPayload) × (output : Text) × (between : E) × (tools.payload_from_str payload
        ≡ some task)
      × (run_inference_server tools config task.prompt_shard e ≡ (ok output, between))
      × IsReported task.task_id task.prompt_shard output e'

  process_task-inferred :
      (payload : Text) (task : TaskPayload) (e between e' : E) (o : Outcome Text)
      → tools.payload_from_str payload ≡ some task
      → run_inference_server tools config task.prompt_shard e ≡ (o, between)
      → process_task tools config signing_key payload e ≡ (ok tt, e')
      → IsProcessed payload e e'
  unfolding process_task effects
  process_task-inferred payload task e between e' (fail m) p q h = ground arith
  process_task-inferred payload task e between e' panic p q h = ground arith
  process_task-inferred payload task e between e' (ok output) p q h = (
    task,
    output,
    between,
    p,
    q,
    report-IsReported task.task_id task.prompt_shard output between e' (ground arith),
  )

  -- A task whose processing succeeds has been read from its payload, an output has been inferred from
  -- its prompt, and the orchestrator has answered the report of that output without an error.
  process_task-IsProcessed :
      (payload : Text) (e e' : E)
      → process_task tools config signing_key payload e ≡ (ok tt, e')
      → IsProcessed payload e e'
  unfolding process_task effects
  process_task-IsProcessed payload e e' h = elim (Option-cases (tools.payload_from_str payload)) [
    | inl unread ↦ ground arith
    | inr (task, there) ↦
        let inferred = run_inference_server tools config task.prompt_shard e in
        process_task-inferred payload task e inferred.1 e' inferred.0 there refl h
  ]

module _ (S E : Type 0) ⦃r : Streams S⦄ ⦃out : Outside E⦄ (K : Type 0) ⦃d : Digest⦄ ⦃c : Ed25519 K⦄
    (lossy : Bytes → Text) (tools : WorkerJson) (config : WorkerConfig) (signing_key : K)
    (entry : Text × Text) where
  -- An entry has been processed with its id.
  abbrev IsFinished : List (Text × Text) → Type 0
  IsFinished finished =
      (payload : Text) × (before : E) × (after : E) × In (entry.0, payload) finished
      × IsProcessed E tools config K signing_key payload before after

  -- An entry is still to be acknowledged, or it left the group without this node.
  abbrev pub IsHeld : S → Type 0
  IsHeld s = In entry (r.pending s) ⊎ In entry (r.dropped s)

  abbrev pub IsKept : Worker S E → Type 0
  IsKept w = IsFinished w.finished ⊎ IsHeld w.redis

  xautoclaim-IsHeld : (consumer : Text) (s : S) → IsHeld s → IsHeld (r.xautoclaim consumer s).1
  xautoclaim-IsHeld consumer s (inl m) = r.pending-xautoclaim consumer s entry m
  xautoclaim-IsHeld consumer s (inr m) = inr (r.dropped-xautoclaim consumer s entry m)

  xreadgroup-IsHeld : (consumer : Text) (s : S) → IsHeld s → IsHeld (r.xreadgroup consumer s).1
  xreadgroup-IsHeld consumer s (inl m) = r.pending-xreadgroup consumer s entry m
  xreadgroup-IsHeld consumer s (inr m) = inr (r.dropped-xreadgroup consumer s entry m)

  settle-IsKept :
      (id payload : Text) (w : Worker S E) (o : Outcome (Unit {0})) (after : E)
      → process_task tools config signing_key payload w.outside ≡ (o, after)
      → IsKept w
      → IsKept (settle lossy tools config signing_key (id, payload) (o, after) w)
  settle-IsKept id payload w (fail m) after h k = k
  settle-IsKept id payload w panic after h k = k
  settle-IsKept id payload w (ok _) after h (inl (p, b, a, m, done)) = inl (p, b, a, inr m, done)
  settle-IsKept id payload w (ok tt) after h (inr (inr m)) =
      inr (inr (r.dropped-xack id w.redis entry m))
  settle-IsKept id payload w (ok tt) after h (inr (inl m)) =
      elim (Bool-cases (text_eq entry.0 id)) [
        | inl same ↦
            let processed =
              process_task-IsProcessed E tools config K signing_key payload w.outside after h in
            inl (payload, w.outside, after, inl (cc (text_eq_sound entry.0 id same)), processed)
        | inr other ↦ inr (r.pending-xack id w.redis entry m (λ e. cc (text_eq_refl id)))
      ]

  handle_all-IsKept :
      (entries : List (Text × Text)) (w : Worker S E)
      → IsKept w
      → IsKept (handle_all lossy tools config signing_key entries w)
  unfolding handle_all
  handle_all-IsKept [] w k = k
  handle_all-IsKept ((id, payload) ∷ entries) w k =
      let reply = process_task tools config signing_key payload w.outside in
      handle_all-IsKept entries (settle lossy tools config signing_key (id, payload) reply w)
        (settle-IsKept id payload w reply.0 reply.1 refl k)

  round-IsKept : (w : Worker S E) → IsKept w → IsKept (round lossy tools config signing_key w)
  unfolding round
  round-IsKept w k =
      let consumer = pubkey_hex signing_key in
      let (pending, s₁) = r.xautoclaim consumer w.redis in
      let (fresh, s₂) = r.xreadgroup consumer s₁ in
      handle_all-IsKept
        (extract_stream_entries lossy (unwrap_or pending nil)
          ++ extract_stream_entries lossy (unwrap_or fresh nil))
        (record w { redis = s₂ }) (read k)
    where
      read :
          IsKept w
          → IsKept (record w {
            redis =
                (r.xreadgroup
                  (pubkey_hex signing_key)
                  (r.xautoclaim (pubkey_hex signing_key) w.redis).1).1;
          })
      read (inl done) = inl done
      read (inr m) =
          let key = pubkey_hex signing_key in
          inr (xreadgroup-IsHeld key (r.xautoclaim key w.redis).1 (xautoclaim-IsHeld key w.redis m))

  rounds-IsKept :
      (n : ℕ) (w : Worker S E) → IsKept w → IsKept (rounds lossy tools config signing_key n w)
  unfolding rounds
  rounds-IsKept zero w k = k
  rounds-IsKept (suc n) w k =
      rounds-IsKept n (round lossy tools config signing_key w) (round-IsKept w k)

  -- The worker loses no entry: after any number of rounds of its loop, whatever calls fail, an entry
  -- that the stream had delivered to some node without an acknowledgement is still unacknowledged, or
  -- it left the group without this node (another acknowledged it, or it was deleted), or an entry with
  -- its id has been processed, its output inferred from its prompt and reported to the orchestrator,
  -- which answered without an error.
  pub run_worker_loop-IsKept :
      (n : ℕ) (redis : S) (outside : E)
      → In entry (r.pending redis)
      → IsKept (run_worker_loop lossy tools config signing_key n redis outside)
  unfolding run_worker_loop
  run_worker_loop-IsKept n redis outside m =
      rounds-IsKept n (record { redis = r.xgroup_create redis; outside = outside; finished = [] })
        (inr (r.pending-xgroup_create redis entry m))
