-- ===== src/Orchestrator/Routes/Listings/Selected.antt =====
-- Which rows the listings of the orchestrator show.
use decentralized_hive_mind.Prelude.{
  ◌≡◌, refl, true, Option, none, some, List, map, Text, inl, inr, ◌⊎◌, arith, Bool-cases, IsTop,
  select_top, select_top-IsTop,
}
use decentralized_hive_mind.Common.Float64.{Float64}
use decentralized_hive_mind.Common.Crypto.{Digest}
use decentralized_hive_mind.Common.Types.{Uuid, DateTime}
use decentralized_hive_mind.Orchestrator.Error.{ok}
use decentralized_hive_mind.Orchestrator.Db.{NodeRow, JobRow, World, actions}
use decentralized_hive_mind.Orchestrator.Auth.{is_hex64}
use decentralized_hive_mind.Orchestrator.Routes.Jobs.{job_status}
use decentralized_hive_mind.Orchestrator.Routes.Listings.{
  NodeSummary, FlaggedNode, JobStatusResponse, node_summary, flagged_node, job_response, newer,
  submitted_by, list_jobs, higher, lower, is_active, list_nodes, is_flagged, flagged_nodes,
}

module _ {F : Type 0} where
  newer_total : (a b : JobRow F) → (newer a b ≡ true) ⊎ (newer b a ≡ true)
  newer_total a b = elim (Bool-cases (newer a b)) [ inl t ↦ inl t | inr f ↦ inr (ground arith) ]

  newer_trans : (a b c : JobRow F) → newer a b ≡ true → newer b c ≡ true → newer a c ≡ true
  newer_trans a b c p q = ground arith

  -- A listing that is returned is that of the fifty newest jobs of the key in the header, which is a
  -- key, the newest first; no other job is shown, and nothing is changed.
  pub list_jobs-IsTop :
      ⦃d : Digest⦄ (header : Option Text) (w : World F) (shown : List (JobStatusResponse F))
      → (list_jobs header w).0 ≡ ok shown
      → (key : Text) × (rows : List (JobRow F)) × (header ≡ some key)
        × (is_hex64 key ≡ true)
        × (shown ≡ map job_response rows)
        × IsTop newer 50 (submitted_by key) w.db.jobs rows
        × ((list_jobs header w).1.db ≡ w.db)
  unfolding list_jobs actions
  list_jobs-IsTop none w shown h = cc
  list_jobs-IsTop (some key) w shown h =
      let rows = select_top newer 50 (submitted_by key) w.db.jobs in
      let top = select_top-IsTop newer newer_total newer_trans 50 (submitted_by key) w.db.jobs in
      (key, rows, refl, ground arith, ground arith, top, ground arith)

module _ {F : Type 0} ⦃o : Float64 F⦄ where
  -- The nodes that are shown are the hundred with the highest scores, the highest first, of those
  -- that are not banned and were seen in the last five minutes; nothing is changed.
  list_nodes-IsTop :
      (now : DateTime) (w : World F) (shown : List (NodeSummary F))
      → (list_nodes now w).0 ≡ ok shown
      → (rows : List (NodeRow F)) × (shown ≡ map node_summary rows)
        × IsTop higher 100 (is_active now) w.db.nodes rows
        × ((list_nodes now w).1.db ≡ w.db)
  unfolding list_nodes actions
  list_nodes-IsTop now w shown h = (
    select_top higher 100 (is_active now) w.db.nodes,
    ground arith,
    select_top-IsTop higher (λ a b. o.le_total b.reputation_score a.reputation_score)
        (λ a b c p q. o.le_trans c.reputation_score b.reputation_score a.reputation_score q p) 100
        (is_active now) w.db.nodes,
    ground arith,
  )

  -- The flagged nodes that are shown are the two hundred with the lowest scores, the lowest first, of
  -- those that are banned or have a score below 0.3; nothing is changed.
  flagged_nodes-IsTop :
      (w : World F) (shown : List (FlaggedNode F))
      → (flagged_nodes w).0 ≡ ok shown
      → (rows : List (NodeRow F)) × (shown ≡ map flagged_node rows)
        × IsTop lower 200 is_flagged w.db.nodes rows
        × ((flagged_nodes w).1.db ≡ w.db)
  unfolding flagged_nodes actions
  flagged_nodes-IsTop w shown h = (
    select_top lower 200 is_flagged w.db.nodes,
    ground arith,
    select_top-IsTop lower (λ a b. o.le_total a.reputation_score b.reputation_score)
        (λ a b c p q. o.le_trans a.reputation_score b.reputation_score c.reputation_score p q) 200
        is_flagged w.db.nodes,
    ground arith,
  )

-- The handlers that read leave the tables alone, whatever they answer.
module _ {F : Type 0} where
  pub list_jobs-db :
      ⦃d : Digest⦄ (header : Option Text) (w : World F) → (list_jobs header w).1.db ≡ w.db
  unfolding list_jobs actions
  list_jobs-db none w = refl
  list_jobs-db (some key) w = ground arith

  pub job_status-db : ⦃o : Float64 F⦄ (id : Uuid) (w : World F) → (job_status id w).1.db ≡ w.db
  unfolding job_status actions
  job_status-db id w = ground arith

module _ {F : Type 0} ⦃o : Float64 F⦄ where
  pub list_nodes-db : (now : DateTime) (w : World F) → (list_nodes now w).1.db ≡ w.db
  unfolding list_nodes actions
  list_nodes-db now w = ground arith

  pub flagged_nodes-db : (w : World F) → (flagged_nodes w).1.db ≡ w.db
  unfolding flagged_nodes actions
  flagged_nodes-db w = ground arith
