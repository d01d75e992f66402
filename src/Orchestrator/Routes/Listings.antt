-- ===== src/Orchestrator/Routes/Listings.antt =====
-- The handlers that list rows: `list_nodes` of orchestrator/src/routes/nodes.rs, `flagged_nodes` of
-- orchestrator/src/routes/admin.rs and `list_jobs` of orchestrator/src/routes/jobs.rs.
pub mod Selected
use decentralized_hive_mind.Prelude.{
  ℕ, ◌+◌, ◌*◌, Bool, true, false, not, ◌&&◌, ◌||◌, Option, none, some, List, map, Text, text,
  text_eq, ltb, leb, select_top,
}
use decentralized_hive_mind.Prelude.Int.{pos}
use decentralized_hive_mind.Common.Float64.{Float64, lt}
use decentralized_hive_mind.Common.Crypto.{Digest}
use decentralized_hive_mind.Common.Types.{Uuid, DateTime}
use decentralized_hive_mind.Orchestrator.Error.{bad_request}
use decentralized_hive_mind.Orchestrator.Db.{
  NodeRow, JobRow, JobStatus, job_pending, job_running, job_complete, job_failed, Db, Action, pure,
  ◌>>=◌, ◌>>◌, guard, ok_or, query,
}
use decentralized_hive_mind.Orchestrator.Auth.{is_hex64}

pub record NodeSummary (F : Type 0) : Type 0 where
  pub id : Uuid
  pub tier : Text
  pub reputation_score : F
  pub jobs_completed : ℕ
  pub last_seen_at : DateTime

pub record FlaggedNode (F : Type 0) : Type 0 where
  pub id : Uuid
  pub pubkey_hex : Text
  pub tier : Text
  pub reputation_score : F
  pub is_banned : Bool
  pub ban_reason : Option Text

pub record JobStatusResponse (F : Type 0) : Type 0 where
  pub job_id : Uuid
  pub status : Text
  pub total_cost_credits : Option F
  pub created_at : DateTime
  pub completed_at : Option DateTime

abbrev five_minutes : ℕ
five_minutes = 5 * 60 * 1000

-- The texts of the column `status`.
abbrev status_name : JobStatus → Text
status_name job_pending = text "pending"
status_name job_running = text "running"
status_name job_complete = text "complete"
status_name job_failed = text "failed"

module _ {F : Type 0} where
  abbrev pub node_summary : NodeRow F → NodeSummary F
  node_summary n = record {
    id = n.id;
    tier = n.tier;
    reputation_score = n.reputation_score;
    jobs_completed = n.jobs_completed;
    last_seen_at = n.last_seen_at;
  }

  abbrev pub flagged_node : NodeRow F → FlaggedNode F
  flagged_node n = record {
    id = n.id;
    pubkey_hex = n.pubkey_hex;
    tier = n.tier;
    reputation_score = n.reputation_score;
    is_banned = n.is_banned;
    ban_reason = n.ban_reason;
  }

  abbrev pub job_response : JobRow F → JobStatusResponse F
  job_response j = record {
    job_id = j.id;
    status = status_name j.status;
    total_cost_credits = j.total_cost_credits;
    created_at = j.created_at;
    completed_at = j.completed_at;
  }

  -- `ORDER BY created_at DESC`
  abbrev pub newer : JobRow F → JobRow F → Bool
  newer a b = leb b.created_at a.created_at

  abbrev pub submitted_by : Text → JobRow F → Bool
  submitted_by key j = text_eq j.submitter_pubkey_hex key

  -- The argument is the header `X-Pubkey`.
  unfoldable pub list_jobs : ⦃d : Digest⦄ → Option Text → Action F (List (JobStatusResponse F))
  list_jobs header = do
    pubkey_hex ← ok_or header (bad_request (text "missing X-Pubkey header"))
    guard (is_hex64 pubkey_hex) (bad_request (text "invalid X-Pubkey format"))
    rows ← query (λ db. select_top newer 50 (submitted_by pubkey_hex) db.jobs)
    pure (map job_response rows)

module _ {F : Type 0} ⦃o : Float64 F⦄ where
  -- `ORDER BY reputation_score DESC`, and `ASC`
  abbrev pub higher : NodeRow F → NodeRow F → Bool
  higher a b = o.le b.reputation_score a.reputation_score

  abbrev pub lower : NodeRow F → NodeRow F → Bool
  lower a b = o.le a.reputation_score b.reputation_score

  abbrev pub is_active : DateTime → NodeRow F → Bool
  is_active now n = not n.is_banned && ltb now (n.last_seen_at + five_minutes)

  unfoldable pub list_nodes : DateTime → Action F (List (NodeSummary F))
  list_nodes now = do
    rows ← query (λ db. select_top higher 100 (is_active now) db.nodes)
    pure (map node_summary rows)

  abbrev pub is_flagged : NodeRow F → Bool
  is_flagged n = lt n.reputation_score (o.hundredths (pos 30)) || n.is_banned

  unfoldable pub flagged_nodes : Action F (List (FlaggedNode F))
  flagged_nodes = do
    rows ← query (λ db. select_top lower 200 is_flagged db.nodes)
    pure (map flagged_node rows)
