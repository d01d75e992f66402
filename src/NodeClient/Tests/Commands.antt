-- ===== src/NodeClient/Tests/Commands.antt =====
-- Examples of the commands.
use decentralized_hive_mind.Prelude.{
  Option, as_bytes, replicate, len, Bool, ◌≡◌, ◌<◌, ◌≤◌, ◌⊎◌, refl, true, false, none, some, [],
  ◌∷◌, Text, text, arith,
}
use decentralized_hive_mind.Prelude.Int.{ℤ, pos}
use decentralized_hive_mind.Common.Float64.Fixed.{fixed}
use decentralized_hive_mind.Common.Crypto.Sample.{sample_digest, sample}
use decentralized_hive_mind.Common.Types.{premium}
use decentralized_hive_mind.Orchestrator.Routes.Jobs.{SubmitJobRequest}
use decentralized_hive_mind.Orchestrator.Tests.Fixtures.{setup, world}
use decentralized_hive_mind.Orchestrator.Tests.Served.{extract, draws}
use decentralized_hive_mind.Orchestrator.Auth as Auth
use decentralized_hive_mind.Orchestrator.Auth.{allow, deny}
use decentralized_hive_mind.Orchestrator.Error.{respond}
use decentralized_hive_mind.Orchestrator.Router.{Extract, post, app}
use decentralized_hive_mind.NodeClient.Signing.{signed}
use decentralized_hive_mind.NodeClient.Effect.{ok, effects}
use decentralized_hive_mind.NodeClient.Http.{build_client, sign, send_request}
use decentralized_hive_mind.NodeClient.Config.{NodeConfig}
use decentralized_hive_mind.NodeClient.Terminal.{Session, say_all, outside, short}
use decentralized_hive_mind.NodeClient.Commands.{JobReply, CommandTools, resolve_prompt}
use decentralized_hive_mind.NodeClient.Commands.Jobs.{poll, finish, cmd_job_wait}
use decentralized_hive_mind.NodeClient.Commands.Jobs.Waiting.{at_once, once_more, cmd_job_wait_ends}
use decentralized_hive_mind.NodeClient.Commands.Submit.{SubmitArgs, job_request, read_args}
use decentralized_hive_mind.NodeClient.Commands.Submit.Answered.{IsAnswered, app-IsAnswered}
use decentralized_hive_mind.NodeClient.Tests.Worker.{Replies, replies}

abbrev reply : Text → JobReply ℤ
reply status = record {
  job_id = some (text "j");
  status = some status;
  total_cost_credits = none;
  created_at = none;
  completed_at = none;
}

abbrev pub tools : CommandTools ℤ
tools = record {
  submit_to_string = λ r. r.prompt;
  register_to_string = λ r. r.tier;
  job_from_str = λ s. some (reply s);
  jobs_from_str = λ s. some (reply s ∷ []);
  trim = λ s. s;
  to_lowercase = λ s. s;
  to_uppercase = λ c. c ∷ [];
  show_1 = λ f. text "1.0";
  show_4 = λ f. text "1.0000";
}

abbrev config : NodeConfig
config = record {
  orchestrator_url = text "https://o";
  wallet_path = text "w/key";
  ca_cert_path = none;
  node_cert_path = none;
  node_key_path = none;
  model_id = text "phi-3-mini";
  model_path = [];
  llama_server_url = text "http://l";
  redis_url = none;
  node_tier = text "edge";
  solana_wallet = none;
}

-- The orchestrator reports that a job runs, and then that it is complete.
abbrev before : Session Replies
before = record {
  outside =
      some (record { status = 200; body = some (text "running") })
      ∷ some (record { status = 200; body = some (text "complete") })
      ∷ [];
  printed = [];
}

abbrev between : Session Replies
between = record before {
  outside = some (record { status = 200; body = some (text "complete") }) ∷ [];
}

abbrev after : Session Replies
after = record before { outside = [] }

runs : poll tools config true 3 (text "12345678-9") before ≡ (ok (reply (text "running")), between)
unfolding poll effects outside build_client sign send_request
runs = refl

completes :
    poll tools config true 3 (text "12345678-9") between ≡ (ok (reply (text "complete")), after)
unfolding poll effects outside build_client sign send_request
completes = refl

shortened : short 8 (text "12345678-9") ≡ some (text "12345678…")
unfolding short len
shortened = refl

cmd_job_wait_ends_example :
    ((1 < 5)
      × (cmd_job_wait tools config true 5 (text "12345678-9") 3 before
          ≡ some (finish tools config true (text "12345678…") 0 (reply (text "complete")) after)))
    ⊎ ((5 ≤ 1) × (cmd_job_wait tools config true 5 (text "12345678-9") 3 before ≡ none))
cmd_job_wait_ends_example =
    cmd_job_wait_ends Replies ℤ tools config Bool true 3 (text "12345678-9") 1 5 before between
      after (reply (text "complete")) (text "12345678…") shortened
      (once_more (reply (text "running")) runs refl (at_once between)) completes refl

abbrev args : SubmitArgs ℤ
args = record {
  prompt = some (text "do it");
  file = none;
  stdin = ok [];
  tier = text "premium";
  budget = pos 5_000_000;
  deadline = 60;
  model = some (text "phi-3-mini");
  wait = false;
}

args_read : read_args tools config true args before ≡ (ok (text "do it", premium), before)
unfolding read_args effects say_all resolve_prompt
args_read = refl

-- A body is read if its type is there.
abbrev by_type : Option Text → Auth.Outcome (SubmitJobRequest ℤ)
by_type none = deny (respond 415 [])
by_type (some t) = allow (job_request true args (text "do it") premium)

abbrev reader : Extract ℤ
reader = record extract { submit_from = λ r. by_type (r.header (text "Content-Type")) }

app-IsAnswered_example :
    IsAnswered
      (app setup reader draws true post
        (text "jobs" ∷ text "submit" ∷ [])
        (signed true (as_bytes (text "do it")) (replicate 32 7) 1000)
        world).0
unfolding as_bytes
app-IsAnswered_example =
    app-IsAnswered Replies ℤ Bool tools config true args (text "do it") premium setup reader draws
      (λ r h b. rw h refl) before before true (replicate 32 7) 1000 world args_read (omega arith)
      (record {
        model_allowed = refl;
        budget_low = refl;
        budget_high = refl;
        deadline_low = omega arith;
        deadline_high = omega arith;
      })
      (ground arith) refl (ground arith) (ground arith) (ground arith) (ground arith) (ground arith)
      refl refl
