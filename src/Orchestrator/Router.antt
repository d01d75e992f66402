-- ===== src/Orchestrator/Router.antt =====
-- The routes of orchestrator/src/main.rs with their layers, and the handlers behind them.
pub mod Signed
use decentralized_hive_mind.Prelude.{
  ℕ, Bool, true, false, ◌&&◌, Option, none, some, List, [], ◌∷◌, Text, Bytes, text, text_eq, ◌==◌,
  if◌then◌else◌,
}
use decentralized_hive_mind.Common.Float64.{Float64}
use decentralized_hive_mind.Common.Crypto.{Digest, Ed25519}
use decentralized_hive_mind.Common.Types.{Uuid, DateTime, CreditReceipt}
use decentralized_hive_mind.Orchestrator.Error.{AppResult, ok, err, respond, into_response}
use decentralized_hive_mind.Orchestrator.Db.{World, Action, query}
use decentralized_hive_mind.Orchestrator.Auth.{
  Request, Outcome, allow, deny, Service, verify_signed_request, admin_route,
}
use decentralized_hive_mind.Orchestrator.Routes.Tasks.{TaskResultRequest, submit_task_result}
use decentralized_hive_mind.Orchestrator.Routes.Jobs.{SubmitJobRequest, submit_job, job_status}
use decentralized_hive_mind.Orchestrator.Routes.Listings.{
  NodeSummary, FlaggedNode, JobStatusResponse, job_response, list_nodes, flagged_nodes, list_jobs,
}
use decentralized_hive_mind.Orchestrator.Routes.Nodes.{
  RegisterRequest, BanRequest, register_node, heartbeat, ban_node, unban_node,
}
use decentralized_hive_mind.Orchestrator.Service.{Setup}

-- The methods that a route can have; axum answers HEAD as GET.
pub data Method : Type 0 where
  get post other : Method

-- The paths that have a route behind the layers; two of them have a parameter.
pub data Endpoint : Type 0 where
  register alive nodes jobs submit ban unban flagged : Endpoint
  status result : Text → Endpoint

abbrev method_of : Endpoint → Method
method_of register = post
method_of alive = post
method_of submit = post
method_of ban = post
method_of unban = post
method_of (result _) = post
method_of nodes = get
method_of jobs = get
method_of flagged = get
method_of (status _) = get

abbrev same_method : Method → Method → Bool
same_method get get = true
same_method post post = true
same_method _ _ = false

abbrev pub is_admin_path : Endpoint → Bool
is_admin_path ban = true
is_admin_path unban = true
is_admin_path flagged = true
is_admin_path _ = false

-- The segments of a path, which starts with a slash; a route without a parameter comes first.
abbrev nodes_path : Text → Option Endpoint
nodes_path name =
    if text_eq name (text "register")
    then some register
    else if text_eq name (text "heartbeat")
    then some alive
    else none

abbrev jobs_path : Text → Option Endpoint
jobs_path name = if text_eq name (text "submit") then some submit else some (status name)

abbrev admin_path : Text → Option Endpoint
admin_path name =
    if text_eq name (text "ban")
    then some ban
    else if text_eq name (text "unban")
    then some unban
    else if text_eq name (text "flagged")
    then some flagged
    else none

abbrev pub endpoint_of : List Text → Option Endpoint
endpoint_of (a ∷ []) =
    if text_eq a (text "nodes")
    then some nodes
    else if text_eq a (text "jobs")
    then some jobs
    else none
endpoint_of (a ∷ b ∷ []) =
    if text_eq a (text "nodes")
    then nodes_path b
    else if text_eq a (text "jobs")
    then jobs_path b
    else none
endpoint_of (a ∷ b ∷ c ∷ []) =
    if text_eq a (text "tasks") && text_eq c (text "result")
    then some (result b)
    else if text_eq a (text "admin") && text_eq b (text "nodes")
    then admin_path c
    else none
endpoint_of _ = none

-- The bodies of the replies that succeed.
pub data Reply (F : Type 0) : Type 0 where
  registered submitted : Uuid → Reply F
  done : Reply F
  node_list : List (NodeSummary F) → Reply F
  flagged_list : List (FlaggedNode F) → Reply F
  job_list : List (JobStatusResponse F) → Reply F
  job : JobStatusResponse F → Reply F
  receipt : CreditReceipt F → Reply F
  health : Bool → Reply F

-- The extractors of axum, which refuse a body or a parameter that is not as it should be.
pub record Extract (F : Type 0) : Type 0 where
  pub register_from : Request → Outcome RegisterRequest
  pub node_id_from : Request → Outcome Uuid
  pub submit_from : Request → Outcome (SubmitJobRequest F)
  pub result_from : Request → Outcome TaskResultRequest
  pub ban_from : Request → Outcome BanRequest
  pub path_id : Text → Outcome Uuid

-- The times of the two layers and of the handler, and what the handler draws.
pub record Draws : Type 0 where
  pub outer : DateTime
  pub inner : DateTime
  pub now : DateTime
  pub new_id : Uuid
  pub task_ids : ℕ → Uuid
  pub new_v4 : ℕ → Text
  pub nonce : Bytes

abbrev db_ok : AppResult (Unit {0}) → Bool
db_ok (ok _) = true
db_ok (err _) = false

module _ {F : Type 0} where
  abbrev verdict : {A : Type 0} → (A → Reply F) → AppResult A → Outcome (Reply F)
  verdict f (ok a) = allow (f a)
  verdict f (err e) = deny (into_response e)

  -- The response to what a handler returns.
  abbrev pub answer :
      {A : Type 0} → (A → Reply F) → AppResult A × World F → Outcome (Reply F) × World F
  answer f r = (verdict f r.0, r.1)

  -- A handler runs on what has been extracted.
  abbrev pub extracted :
      {A : Type 0}
      → Outcome A
      → (A → World F → Outcome (Reply F) × World F)
      → World F
      → Outcome (Reply F) × World F
  extracted (deny r) next w = (deny r, w)
  extracted (allow a) next w = next a w

  abbrev pub not_found : Service F (Reply F)
  not_found req w = (deny (respond 404 []), w)

  -- `health_check`
  unfoldable pub health_check : World F → Outcome (Reply F) × World F
  health_check w = let (r, w') = query (λ db. tt) w in (allow (health (db_ok r)), w')

module _ {F K : Type 0} ⦃o : Float64 F⦄ ⦃d : Digest⦄ ⦃c : Ed25519 K⦄ (setup : Setup F K)
    (extract : Extract F) (draws : Draws) where
  unfoldable pub handle : Endpoint → Service F (Reply F)
  handle register req w =
      extracted (extract.register_from req)
        (λ r w. answer registered (register_node r draws.new_id draws.now w)) w
  handle alive req w =
      extracted (extract.node_id_from req) (λ id w. answer (λ _. done) (heartbeat id draws.now w)) w
  handle nodes req w = answer node_list (list_nodes draws.now w)
  handle jobs req w = answer job_list (list_jobs (req.header (text "X-Pubkey")) w)
  handle submit req w =
      extracted (extract.submit_from req)
        (λ r w. answer submitted (
          submit_job setup.pii setup.describe setup.pgp_sym_encrypt setup.signing_key_hex r
            draws.new_id draws.task_ids draws.new_v4 draws.now w))
        w
  handle (status id) req w =
      extracted (extract.path_id id)
        (λ id w. answer (λ row. job (job_response row)) (job_status id w)) w
  handle (result id) req w =
      extracted (extract.path_id id)
        (λ id. extracted (extract.result_from req) (λ r w. answer receipt (
          submit_task_result setup.tools setup.show_uuid setup.to_vec setup.signing_key id r
            draws.new_id draws.nonce draws.now w)))
        w
  handle ban req w =
      extracted (extract.ban_from req)
        (λ r w. answer (λ _. done) (ban_node setup.trim r draws.now w)) w
  handle unban req w =
      extracted (extract.node_id_from req) (λ id w. answer (λ _. done) (unban_node id w)) w
  handle flagged req w = answer flagged_list (flagged_nodes w)

  -- A path that exists, with a method that it has not.
  abbrev pub routed : Method → Endpoint → Service F (Reply F)
  routed method e req w =
      if same_method method (method_of e) then handle e req w else (deny (respond 405 []), w)

  -- `protected`, with the nested router of the administrator
  abbrev protected : K → Method → Endpoint → Service F (Reply F)
  protected admin_key method e =
      if is_admin_path e
      then admin_route admin_key draws.outer draws.inner (routed method e)
      else verify_signed_request K draws.outer (routed method e)

  -- `layer` also wraps the answer to a path that has no route, and `merge` takes it over.
  abbrev pub app_at : K → Method → Option Endpoint → Service F (Reply F)
  app_at admin_key method none req w = verify_signed_request K draws.outer not_found req w
  app_at admin_key method (some e) req w = protected admin_key method e req w

  -- `app`; the probe is the one route without a layer.
  unfoldable pub app : K → Method → List Text → Service F (Reply F)
  app admin_key method (a ∷ []) req w =
      if text_eq a (text "health")
      then (if same_method method get then health_check w else (deny (respond 405 []), w))
      else app_at admin_key method (endpoint_of (a ∷ [])) req w
  app admin_key method path req w = app_at admin_key method (endpoint_of path) req w
