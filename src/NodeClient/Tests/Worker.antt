-- ===== src/NodeClient/Tests/Worker.antt =====
-- A worker with a stream of two entries, of which one is acknowledged.
use decentralized_hive_mind.Prelude.{
  ◌⊎◌, ◌++◌, In-left, In-right, text_eq_refl, ◌≢◌, refl, true, false, Bool, Bool-cases, Option,
  none, some, List, [], ◌∷◌, filter, In, In-filter_of, inl, inr, Text, text, text_eq, replicate,
  as_bytes, text_eq_sound, if◌then◌else◌,
}
use decentralized_hive_mind.Common.Crypto.Sample.{sample_digest, sample}
use decentralized_hive_mind.NodeClient.Http.{Reply, Outside}
use decentralized_hive_mind.NodeClient.Runner.Received.{claim_reply}
use decentralized_hive_mind.NodeClient.Worker.{WorkerConfig, WorkerJson, Streams, run_worker_loop}
use decentralized_hive_mind.NodeClient.Worker.Delivery.{IsKept, run_worker_loop-IsKept}

-- The replies that are to come.
abbrev pub Replies : Type 0
Replies = List (Option Reply)

abbrev next_reply : Replies → Option Reply × Replies
next_reply [] = (none, [])
next_reply (r ∷ rest) = (r, rest)

instance abbrev pub replies : Outside Replies
replies = record {
  send = λ request e. next_reply e;
  clock = λ e. (20, e);
  random = λ e. (replicate 32 7, e);
  sleep = λ n e. e;
  instant = λ e. 0;
  builds = λ e. true;
}

abbrev without_id : Text → List (Text × Text) → List (Text × Text)
without_id id s = filter (λ e. if text_eq e.0 id then false else true) s

In-without_id :
    (id : Text) (s : List (Text × Text)) (e : Text × Text)
    → In e s
    → e.0 ≢ id
    → In e (without_id id s)
In-without_id id s e m other =
    In-filter_of (λ (a : Text × Text). if text_eq a.0 id then false else true) s e m
      (elim (Bool-cases (text_eq e.0 id)) [
        | inl same ↦ absurd (other (text_eq_sound e.0 id same))
        | inr f ↦ rw f refl
      ])

-- The entries that are not acknowledged, and those that left them without this worker. Each round
-- claims all that are not acknowledged; while the worker reads fresh entries, another worker
-- acknowledges the entry with the id 2-0.
pub record Group : Type 0 where
  pub held : List (Text × Text)
  pub gone : List (Text × Text)

abbrev other : Text
other = text "2-0"

abbrev with_id : Text → List (Text × Text) → List (Text × Text)
with_id id s = filter (λ e. text_eq e.0 id) s

abbrev released : Group → Group
released g = record { held = without_id other g.held; gone = with_id other g.held ++ g.gone }

In-released :
    (g : Group) (e : Text × Text) → In e g.held → In e (released g).held ⊎ In e (released g).gone
In-released g e m = elim (Bool-cases (text_eq e.0 other)) [
  | inl same ↦ inr (
      In-left (with_id other g.held) g.gone e
        (In-filter_of (λ a. text_eq a.0 other) g.held e m same))
  | inr differs ↦ inl (In-without_id other g.held e m (λ q. cc (text_eq_refl other)))
]

instance abbrev entries : Streams Group
entries = record {
  pending = λ g. g.held;
  dropped = λ g. g.gone;
  xgroup_create = λ g. g;
  xautoclaim = λ consumer g. (some (claim_reply (text "0-0") (text "payload") g.held []), g);
  xreadgroup = λ consumer g. (none, released g);
  xack = λ id g. record g { held = without_id id g.held };
  dropped-xgroup_create = λ g e m. m;
  dropped-xautoclaim = λ consumer g e m. m;
  dropped-xreadgroup = λ consumer g e m. In-right (with_id other g.held) g.gone e m;
  dropped-xack = λ id g e m. m;
  pending-xgroup_create = λ g e m. inl m;
  pending-xautoclaim = λ consumer g e m. inl m;
  pending-xreadgroup = λ consumer g e m. In-released g e m;
  pending-xack = λ id g e m n. inl (In-without_id id g.held e m n);
}

abbrev tools : WorkerJson
tools = record {
  payload_from_str = λ s. some (record {
    task_id = s;
    job_id = text "j";
    role = text "Coder";
    prompt_shard = text "p";
    min_tier = text "Edge";
    agent_index = 0;
  });
  completion_to_vec = λ r. as_bytes r.prompt;
  choices_from_str = λ s. some (s ∷ []);
  result_to_string = λ r. r.output;
}

abbrev config : WorkerConfig
config = record { orchestrator_url = text "https://o"; llama_server_url = text "http://l" }

-- The first task is inferred and reported; the server answers the second with an error.
abbrev outcomes : Replies
outcomes =
    some (record { status = 200; body = some (text "out") })
    ∷ some (record { status = 200; body = some [] })
    ∷ some (record { status = 500; body = none })
    ∷ []

abbrev stream : Group
stream = record { held = (text "1-0", text "a") ∷ (text "2-0", text "b") ∷ []; gone = [] }

run_worker_loop-IsKept_example :
    IsKept Group Replies Bool
      (λ b. b)
      tools
      config
      true
      (text "1-0", text "a")
      (run_worker_loop (λ b. b) tools config true 1 stream outcomes)
run_worker_loop-IsKept_example =
    run_worker_loop-IsKept Group Replies Bool (λ b. b) tools config true (text "1-0", text "a") 1
      stream outcomes (inl refl)
