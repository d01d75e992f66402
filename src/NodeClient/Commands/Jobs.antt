-- ===== src/NodeClient/Commands/Jobs.antt =====
-- node-client/src/main.rs: `job submit`, `job status`, `job list` and `job wait`.
pub mod Waiting
use decentralized_hive_mind.Prelude.{
  ℕ, zero, suc, ◌-◌, ◌≡◌, Bool, true, false, ◌||◌, Option, none, some, List, [], ◌∷◌, ◌++◌, map,
  take, length, Text, Bytes, text, text_eq, as_bytes, unwrap_or, ◌==◌, if◌then◌else◌,
}
use decentralized_hive_mind.Prelude.Decimal.{show_ℕ}
use decentralized_hive_mind.Common.Crypto.{Digest, Ed25519}
use decentralized_hive_mind.Common.Identity.{pubkey_hex}
use decentralized_hive_mind.Common.Types.{JobTier, standard, paid, premium}
use decentralized_hive_mind.Orchestrator.Routes.Jobs.{SubmitJobRequest}
use decentralized_hive_mind.NodeClient.Config.{NodeConfig}
use decentralized_hive_mind.NodeClient.Effect.{
  Outcome, ok, fail, panic, Effect, pure, lift, context, ◌>>=◌, ◌>>◌,
}
use decentralized_hive_mind.NodeClient.Http.{Reply, Outside}
use decentralized_hive_mind.NodeClient.Terminal.{
  Line, section, hint, action, success, failure, field, gap, table, Session, say, say_all, outside,
  status_colored, short, or_panic,
}
use decentralized_hive_mind.NodeClient.Commands.{
  JobReply, CommandTools, resolve_prompt, refused, on_status, fetch, submit,
}

-- `matches!(status, "complete" | "failed" | "expired")`
abbrev pub is_terminal : Text → Bool
is_terminal s =
    text_eq s (text "complete") || text_eq s (text "failed") || text_eq s (text "expired")

abbrev dash : Option Text → Text
dash o = unwrap_or o (text "-")

abbrev pub body_of : {A : Type 0} → (Text → Option A) → Option Text → Option A
body_of from_str none = none
body_of from_str (some s) = from_str s

abbrev done_line : Option Text → List Line
done_line none = []
done_line (some at) = field (text "Done") at ∷ []

abbrev pub status_of : {F : Type 0} → JobReply F → Text
status_of val = unwrap_or val.status (text "unknown")

module _ {F : Type 0} (tools : CommandTools F) where
  abbrev cost_line : Option F → List Line
  cost_line none = []
  cost_line (some cost) = field (text "Cost") (tools.show_4 cost ++ text " credits") ∷ []

  abbrev cost_cell : Option F → Text
  cost_cell none = text "—"
  cost_cell (some cost) = tools.show_4 cost

  abbrev job_row : JobReply F → List Text
  job_row j =
      dash j.job_id ∷ dash j.status ∷ cost_cell j.total_cost_credits ∷ dash j.created_at ∷ []

  abbrev job_lines : List (JobReply F) → List Line
  job_lines [] = hint (text "No jobs found for your wallet key.") ∷ []
  job_lines (j ∷ jobs) =
      table
        ((text "JOB ID", 36)
          ∷ (text "STATUS", 10)
          ∷ (text "CREDITS", 10)
          ∷ (text "CREATED", 26)
          ∷ [])
        (map job_row (j ∷ jobs))
      ∷ []

module _ {E F : Type 0} ⦃out : Outside E⦄ (tools : CommandTools F) (config : NodeConfig)
    {K : Type 0} ⦃d : Digest⦄ ⦃c : Ed25519 K⦄ (signing_key : K) where
  unfoldable pub cmd_job_status : Text → Effect (Session E) (Unit {0})
  unfolding refused fetch
  cmd_job_status job_id = do
    resp ←
        fetch signing_key (config.orchestrator_url ++ (text "/jobs/" ++ job_id))
          (text "job status request failed")
    let shown = do
      val ← context (body_of tools.job_from_str resp.body) (text "json")
      say_all (
          section (text "Job Status")
            ∷ gap
            ∷ field (text "Job ID") (dash val.job_id)
            ∷ field (text "Status") (status_colored tools.to_lowercase (dash val.status))
            ∷ cost_line tools val.total_cost_credits
          ++ (field (text "Created") (dash val.created_at)
              ∷ (done_line val.completed_at ++ (gap ∷ []))))
    on_status resp shown (refused (text "Job status failed (") (text "job status failed") resp)

  unfoldable pub cmd_job_list : Effect (Session E) (Unit {0})
  unfolding refused fetch
  cmd_job_list = do
    resp ←
        fetch signing_key (config.orchestrator_url ++ text "/jobs") (text "job list request failed")
    let shown = do
      jobs ← context (body_of tools.jobs_from_str resp.body) (text "json")
      say_all (section (text "Your Jobs") ∷ gap ∷ job_lines tools jobs)
    on_status resp shown (refused (text "Job list failed (") (text "job list failed") resp)

  -- One turn of the loop of `cmd_job_wait`, up to the status that the orchestrator reports.
  unfoldable pub poll : ℕ → Text → Effect (Session E) (JobReply F)
  unfolding refused fetch
  poll interval_secs job_id = do
    outside (λ e. (ok tt, out.sleep interval_secs e))
    resp ←
        fetch signing_key (config.orchestrator_url ++ (text "/jobs/" ++ job_id))
          (text "poll request failed")
    on_status resp (context (body_of tools.job_from_str resp.body) (text "json"))
        (refused (text "Poll failed (") (text "poll failed") resp)

  unfoldable pub finish : Text → ℕ → JobReply F → Effect (Session E) (Unit {0})
  finish short_id start val s =
      let elapsed = out.instant s.outside - start in
      say_all
        (success
            (text "Job " ++ (short_id ++ (text " finished in " ++ (show_ℕ elapsed ++ text "s"))))
          ∷ gap
          ∷ field (text "Status") (status_colored tools.to_lowercase (status_of val))
          ∷ (cost_line tools val.total_cost_credits ++ (gap ∷ [])))
        s

  -- What the loop makes of a turn: it returns, or it goes on.
  abbrev pub turn :
      Text
      → ℕ
      → Outcome (JobReply F) × Session E
      → Option (Outcome (Unit {0}) × Session E)
      → Option (Outcome (Unit {0}) × Session E)
  turn short_id start (ok val, s) again =
      if is_terminal (status_of val) then some (finish short_id start val s) else again
  turn short_id start (fail m, s) again = some (fail m, s)
  turn short_id start (panic, s) again = some (panic, s)

  -- The loop, for a number of turns; `none` is a loop that goes on.
  unfoldable pub wait_loop :
      ℕ → Text → ℕ → ℕ → Text → Session E → Option (Outcome (Unit {0}) × Session E)
  wait_loop zero short_id start interval_secs job_id s = none
  wait_loop (suc turns) short_id start interval_secs job_id s =
      let polled = poll interval_secs job_id s in
      let again = wait_loop turns short_id start interval_secs job_id polled.1 in
      turn short_id start polled again

  abbrev wait_as : ℕ → Option Text → ℕ → Text → Session E → Option (Outcome (Unit {0}) × Session E)
  wait_as turns none interval_secs job_id s = some (panic, s)
  wait_as turns (some short_id) interval_secs job_id s =
      wait_loop turns short_id (out.instant s.outside) interval_secs job_id s

  unfoldable pub cmd_job_wait : ℕ → Text → ℕ → Session E → Option (Outcome (Unit {0}) × Session E)
  unfolding short
  cmd_job_wait turns job_id interval_secs s = wait_as turns (short 8 job_id) interval_secs job_id s
