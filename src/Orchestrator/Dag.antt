-- ===== src/Orchestrator/Dag.antt =====
-- orchestrator/src/dag.rs: the graph of sub-tasks that a planner's output describes.
pub mod Planned
use decentralized_hive_mind.Prelude.{
  ℕ, zero, suc, ◌+◌, ◌<◌, ◌≡◌, Bool, true, false, ◌&&◌, ◌||◌, Option, none, some, List, [], ◌∷◌,
  ◌++◌, length, map, All, Text, text, leb, ltb, ◌==◌, if◌then◌else◌,
}
use decentralized_hive_mind.Prelude.Decimal.{show_ℕ}
use decentralized_hive_mind.Common.Types.{Uuid, DateTime, AgentRole, NodeTier, SubTask, pending}
use decentralized_hive_mind.Common.Types.Dag.{
  Edge, TaskDag, new, Digraph, to_digraph, ready_indices,
}
use decentralized_hive_mind.Orchestrator.Error.{
  AppError, bad_request, AppResult, ok, err, ◌>>=◌, ◌>>◌,
}

pub record PlannerTask : Type 0 where
  pub role : AgentRole
  pub prompt_shard : Text
  pub min_tier : NodeTier

pub record PlannerOutput : Type 0 where
  pub tasks : List PlannerTask
  pub edges : List Edge

-- The place of a node in an order.
abbrev pub index_of : List ℕ → ℕ → ℕ
index_of [] i = 0
index_of (j ∷ order) i = let rest = index_of order i in if j == i then 0 else suc rest

-- The crates `serde_json` and `petgraph`: a topological sort puts the source of each arc before its
-- target, and fails if the graph has a cycle.
pub record PlanTools : Type 0 where
  pub from_str : Text → Option PlannerOutput
  -- The message of an error of `serde_json`
  pub parse_error : Text → Text
  pub toposort : Digraph → Option (List ℕ)
  pub toposort_sound :
      (g : Digraph) (order : List ℕ)
      → toposort g ≡ some order
      → All (λ (e : Edge). index_of order e.0 < index_of order e.1) g.arcs

-- The loop over the edges.
abbrev out_of_bounds : ℕ → Edge → AppError
out_of_bounds n (from, to) = bad_request (
    text "edge ("
    ++ (show_ℕ from
        ++ (text "," ++ (show_ℕ to ++ (text ") out of bounds (n=" ++ (show_ℕ n ++ text ")"))))))

abbrev check_edge : ℕ → Edge → AppResult (Unit {0})
check_edge n (from, to) =
    if leb n from || leb n to
    then err (out_of_bounds n (from, to))
    else if from == to
    then err (bad_request (text "self-loop in DAG"))
    else ok tt

unfoldable pub check_edges : ℕ → List Edge → AppResult (Unit {0})
check_edges n [] = ok tt
check_edges n (e ∷ es) = check_edge n e >> check_edges n es

abbrev pub check_size : ℕ → AppResult (Unit {0})
check_size n =
    if n == 0
    then err (bad_request (text "planner returned no tasks"))
    else if ltb 64 n
    then err (bad_request (text "DAG too large (max 64 nodes)"))
    else ok tt

-- The ids are random: `new_v4 i` is the id of the task number `i`.
abbrev sub_task : (ℕ → Uuid) → Uuid → DateTime → ℕ → PlannerTask → SubTask
sub_task new_v4 job_id now i pt = record {
  id = new_v4 i;
  job_id = job_id;
  role = pt.role;
  prompt_shard = pt.prompt_shard;
  min_tier = pt.min_tier;
  assigned_node_id = none;
  status = pending;
  output = none;
  proof_hash_hex = none;
  tokens_in = none;
  tokens_out = none;
  created_at = now;
  completed_at = none;
}

unfoldable pub sub_tasks : (ℕ → Uuid) → Uuid → DateTime → ℕ → List PlannerTask → List SubTask
sub_tasks new_v4 job_id now i [] = []
sub_tasks new_v4 job_id now i (pt ∷ pts) =
    sub_task new_v4 job_id now i pt ∷ sub_tasks new_v4 job_id now (suc i) pts

abbrev pub parsed : Text → Option PlannerOutput → AppResult PlannerOutput
parsed msg none = err (bad_request (text "invalid planner output: " ++ msg))
parsed msg (some plan) = ok plan

-- `to_digraph` panics on an edge out of bounds; the loop has refused those.
abbrev pub sorted_by : Option (List ℕ) → Option (AppResult (Unit {0}))
sorted_by none = some (err (bad_request (text "DAG contains a cycle")))
sorted_by (some _) = some (ok tt)

abbrev pub sorted : PlanTools → Option Digraph → Option (AppResult (Unit {0}))
sorted tools none = none
sorted tools (some g) = sorted_by (tools.toposort g)

abbrev pub with_sort : TaskDag → Option (AppResult (Unit {0})) → Option (AppResult TaskDag)
with_sort dag none = none
with_sort dag (some (err e)) = some (err e)
with_sort dag (some (ok _)) = some (ok dag)

module _ (tools : PlanTools) (new_v4 : ℕ → Uuid) where
  abbrev pub build :
      Uuid → DateTime → PlannerOutput → AppResult (Unit {0}) → Option (AppResult TaskDag)
  build job_id now plan (err e) = some (err e)
  build job_id now plan (ok _) =
      let dag = new (sub_tasks new_v4 job_id now 0 plan.tasks) plan.edges in
      with_sort dag (sorted tools (to_digraph dag))

  abbrev pub checked_plan : Uuid → DateTime → AppResult PlannerOutput → Option (AppResult TaskDag)
  checked_plan job_id now (err e) = some (err e)
  checked_plan job_id now (ok plan) =
      let n = length plan.tasks in build job_id now plan (check_size n >> check_edges n plan.edges)

  -- `none` is a panic.
  unfoldable pub build_dag : Uuid → Text → DateTime → Option (AppResult TaskDag)
  build_dag job_id planner_output now =
      checked_plan job_id now
        (parsed (tools.parse_error planner_output) (tools.from_str planner_output))

-- `ready_to_dispatch`
abbrev pub ready_to_dispatch : TaskDag → Option (List ℕ)
ready_to_dispatch dag = ready_indices dag
