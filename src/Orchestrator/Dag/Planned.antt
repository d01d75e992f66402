-- ===== src/Orchestrator/Dag/Planned.antt =====
-- What orchestrator/src/dag.rs accepts.
use decentralized_hive_mind.Prelude.{
  ℕ, suc, ◌<◌, ◌≤◌, ◌≡◌, ◌≢◌, refl, true, Option, none, some, List, [], ◌∷◌, length, map, All, Text,
  arith, any, all, length-map,
}
use decentralized_hive_mind.Common.Types.{Uuid, DateTime, SubTask, is_pending}
use decentralized_hive_mind.Common.Types.Dag.{Edge, TaskDag, new, add_edges, to_digraph, InBounds}
use decentralized_hive_mind.Common.Types.Dag.Progress.{IsAcyclic, settled, ready_indices-ne-nil}
use decentralized_hive_mind.Orchestrator.Error.{AppResult, ok, err, ◌>>◌}
use decentralized_hive_mind.Orchestrator.Dag.{
  PlannerTask, PlannerOutput, PlanTools, index_of, check_edges, check_size, sub_tasks, parsed,
  sorted_by, sorted, with_sort, build, checked_plan, build_dag, ready_to_dispatch,
}

check_edges-InBounds : (n : ℕ) (es : List Edge) → check_edges n es ≡ ok tt → InBounds n es
unfolding check_edges
check_edges-InBounds n [] h = tt
check_edges-InBounds n ((from, to) ∷ es) h =
    ((ground arith, ground arith), check_edges-InBounds n es (ground arith))

length-sub_tasks :
    (new_v4 : ℕ → Uuid) (job_id : Uuid) (now : DateTime) (i : ℕ) (pts : List PlannerTask)
    → length (sub_tasks new_v4 job_id now i pts) ≡ length pts
unfolding sub_tasks
length-sub_tasks new_v4 job_id now i [] = refl
length-sub_tasks new_v4 job_id now i (pt ∷ pts) =
    rw (length-sub_tasks new_v4 job_id now (suc i) pts) refl

all-sub_tasks :
    (new_v4 : ℕ → Uuid) (job_id : Uuid) (now : DateTime) (i : ℕ) (pts : List PlannerTask)
    → all (λ (t : SubTask). is_pending t.status) (sub_tasks new_v4 job_id now i pts) ≡ true
unfolding sub_tasks
all-sub_tasks new_v4 job_id now i [] = refl
all-sub_tasks new_v4 job_id now i (pt ∷ pts) = all-sub_tasks new_v4 job_id now (suc i) pts

-- Edges in bounds become arcs, in the reverse order.
add_edges-All :
    (n : ℕ) (es : List Edge)
    → InBounds n es
    → (arcs : List Edge) × (add_edges n es ≡ some arcs)
      × ((P : Edge → Type 0) → All P arcs → All P es)
unfolding add_edges
add_edges-All n [] b = ([], refl, λ P h. h)
add_edges-All n ((from, to) ∷ es) (here, b) =
    let (arcs, e, back) = add_edges-All n es b in
    ((from, to) ∷ arcs, ground arith, λ P h. (h.0, back P h.1))

-- A graph of one to 64 tasks, without cycles, of which no task has been started.
pub record IsPlanned (dag : TaskDag) : Type 0 where
  pub nonempty : 0 < length dag.tasks
  pub bounded : length dag.tasks ≤ 64
  pub waiting : all (λ (t : SubTask). is_pending t.status) dag.tasks ≡ true
  pub acyclic : IsAcyclic (length dag.tasks) dag.edges

with_sort-ok :
    (d dag : TaskDag) (r : Option (AppResult (Unit {0})))
    → with_sort d r ≡ some (ok dag)
    → (r ≡ some (ok tt)) × (dag ≡ d)
with_sort-ok d dag none h = cc
with_sort-ok d dag (some (err e)) h = cc
with_sort-ok d dag (some (ok tt)) h = (refl, ground arith)

module _ (tools : PlanTools) (new_v4 : ℕ → Uuid) where
  toposort-IsAcyclic :
      (dag : TaskDag) (arcs : List Edge) (ids : List Uuid) (found : Option (List ℕ))
      → InBounds (length dag.tasks) dag.edges
      → ((P : Edge → Type 0) → All P arcs → All P dag.edges)
      → tools.toposort (record { nodes = ids; arcs = arcs }) ≡ found
      → sorted_by found ≡ some (ok tt)
      → IsAcyclic (length dag.tasks) dag.edges
  toposort-IsAcyclic dag arcs ids none b back e h = cc
  toposort-IsAcyclic dag arcs ids (some order) b back e h = record {
    in_bounds = b;
    rank = index_of order;
    ranked = back _ (tools.toposort_sound _ order e);
  }

  sorted-IsAcyclic :
      (dag : TaskDag)
      → InBounds (length dag.tasks) dag.edges
      → sorted tools (to_digraph dag) ≡ some (ok tt)
      → IsAcyclic (length dag.tasks) dag.edges
  unfolding to_digraph
  sorted-IsAcyclic dag b h =
      let ids = map (λ (t : SubTask). t.id) dag.tasks in
      let n = length-map (λ (t : SubTask). t.id) dag.tasks in
      let (arcs, e, back) = add_edges-All (length dag.tasks) dag.edges b in
      toposort-IsAcyclic dag arcs ids (tools.toposort (record { nodes = ids; arcs = arcs })) b back
        refl (rw (n, e) at h)

  build-ok :
      (job_id : Uuid) (now : DateTime) (plan : PlannerOutput) (r : AppResult (Unit {0}))
      (dag : TaskDag)
      → build tools new_v4 job_id now plan r ≡ some (ok dag)
      → let d = new (sub_tasks new_v4 job_id now 0 plan.tasks) plan.edges in
        (r ≡ ok tt) × (with_sort d (sorted tools (to_digraph d)) ≡ some (ok dag))
  build-ok job_id now plan (err e) dag h = cc
  build-ok job_id now plan (ok tt) dag h = (refl, h)

  checked_plan-IsPlanned :
      (job_id : Uuid) (now : DateTime) (plan : AppResult PlannerOutput) (dag : TaskDag)
      → checked_plan tools new_v4 job_id now plan ≡ some (ok dag)
      → IsPlanned dag
  unfolding new
  checked_plan-IsPlanned job_id now (err e) dag h = cc
  checked_plan-IsPlanned job_id now (ok plan) dag h =
      let tasks = sub_tasks new_v4 job_id now 0 plan.tasks in
      let n = length-sub_tasks new_v4 job_id now 0 plan.tasks in
      let built = new tasks plan.edges in
      let (guards, graph) =
        build-ok job_id now plan
          (check_size (length plan.tasks) >> check_edges (length plan.tasks) plan.edges) dag h in
      let (sort, same) = with_sort-ok built dag (sorted tools (to_digraph built)) graph in
      let edges = check_edges-InBounds (length plan.tasks) plan.edges (ground arith) in
      let acyclic = sorted-IsAcyclic built (rw n edges) sort in
      rw same (record {
        nonempty = ground arith;
        bounded = ground arith;
        waiting = all-sub_tasks new_v4 job_id now 0 plan.tasks;
        acyclic = acyclic;
      })

  -- An accepted plan is a graph of one to 64 pending tasks without cycles.
  pub build_dag-IsPlanned :
      (job_id : Uuid) (planner_output : Text) (now : DateTime) (dag : TaskDag)
      → build_dag tools new_v4 job_id planner_output now ≡ some (ok dag)
      → IsPlanned dag
  unfolding build_dag
  build_dag-IsPlanned job_id planner_output now dag h =
      checked_plan-IsPlanned job_id now
        (parsed (tools.parse_error planner_output) (tools.from_str planner_output)) dag h

settled_of_pending :
    (tasks : List SubTask)
    → all (λ (t : SubTask). is_pending t.status) tasks ≡ true
    → all settled tasks ≡ true
settled_of_pending [] h = refl
settled_of_pending (t ∷ tasks) h = ground (arith, settled_of_pending tasks)

any_of_pending :
    (tasks : List SubTask)
    → 0 < length tasks
    → all (λ (t : SubTask). is_pending t.status) tasks ≡ true
    → any (λ (t : SubTask). is_pending t.status) tasks ≡ true
any_of_pending [] l h = ground arith
any_of_pending (t ∷ tasks) l h = ground arith

-- Of an accepted plan at least one task can be dispatched at once.
pub build_dag-ready_to_dispatch :
    (tools : PlanTools) (new_v4 : ℕ → Uuid) (job_id : Uuid) (planner_output : Text) (now : DateTime)
    (dag : TaskDag)
    → build_dag tools new_v4 job_id planner_output now ≡ some (ok dag)
    → (ready : List ℕ) × (ready_to_dispatch dag ≡ some ready) × (ready ≢ [])
build_dag-ready_to_dispatch tools new_v4 job_id planner_output now dag h =
    let p = build_dag-IsPlanned tools new_v4 job_id planner_output now dag h in
    ready_indices-ne-nil dag p.acyclic (settled_of_pending dag.tasks p.waiting)
      (any_of_pending dag.tasks p.nonempty p.waiting)
