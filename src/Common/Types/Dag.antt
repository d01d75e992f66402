-- ===== src/Common/Types/Dag.antt =====
-- `TaskDag` of common/src/types.rs. An index out of range panics, which is `none` here.
pub mod Ready
pub mod Progress
use decentralized_hive_mind.Prelude.{
  ℕ, suc, ◌+◌, ◌≡◌, ◌<◌, Bool, true, false, ◌&&◌, ◌||◌, not, Option, none, some, List, [], ◌∷◌, map,
  length, get_elem?, set, replicate, filter, range, ltb, ◌==◌, if◌then◌else◌, ◌>>=◌, All,
}
use decentralized_hive_mind.Common.Types.{Uuid, SubTask, is_pending, is_complete}

-- `(from, to)`: the task `from` must complete before the task `to`.
abbrev pub Edge : Type 0
Edge = ℕ × ℕ

pub record TaskDag : Type 0 where
  pub tasks : List SubTask
  pub edges : List Edge

-- `TaskDag::new`
unfoldable pub new : List SubTask → List Edge → TaskDag
new tasks edges = record { tasks = tasks; edges = edges }

-- `blocked[to] = true`
abbrev block : List Bool → ℕ → Option (List Bool)
block blocked to = if ltb to (length blocked) then some (set blocked to true) else none

-- One round of the loop over the edges.
unfoldable pub mark_edge : List SubTask → List Bool → Edge → Option (List Bool)
mark_edge tasks blocked (from, to) = do
  task ← get_elem? tasks from
  if is_complete task.status then some blocked else block blocked to

unfoldable pub mark_edges : List SubTask → List Edge → List Bool → Option (List Bool)
mark_edges tasks [] blocked = some blocked
mark_edges tasks (e ∷ es) blocked = mark_edge tasks blocked e >>= λ b. mark_edges tasks es b

-- The closure of `filter`. The indices are below the length of both lists, so neither access fails.
abbrev pub is_ready : List SubTask → List Bool → ℕ → Bool
is_ready tasks blocked i = elim (get_elem? blocked i) [
  | none ↦ false
  | some b ↦ elim (get_elem? tasks i) [ none ↦ false | some t ↦ not b && is_pending t.status ]
]

-- `TaskDag::ready_indices`
unfoldable pub ready_indices : TaskDag → Option (List ℕ)
unfolding mark_edges mark_edge
ready_indices dag = do
  let n = length dag.tasks
  blocked ← mark_edges dag.tasks dag.edges (replicate n false)
  some (filter (is_ready dag.tasks blocked) (range 0 n))

-- A `petgraph` graph: the weights of its nodes and its edges.
pub record Digraph : Type 0 where
  pub nodes : List Uuid
  pub arcs : List Edge

-- `g.add_edge(nodes[from], nodes[to], ())`; the node added as number i has the index i.
abbrev add_edge : ℕ → List Edge → Edge → Option (List Edge)
add_edge n arcs (from, to) = if ltb from n && ltb to n then some ((from, to) ∷ arcs) else none

unfoldable pub add_edges : ℕ → List Edge → Option (List Edge)
add_edges n [] = some []
add_edges n (e ∷ es) = add_edges n es >>= λ arcs. add_edge n arcs e

-- `TaskDag::to_digraph`
unfoldable pub to_digraph : TaskDag → Option Digraph
unfolding add_edges
to_digraph dag = do
  let nodes = map (λ (t : SubTask). t.id) dag.tasks
  arcs ← add_edges (length nodes) dag.edges
  some (record { nodes = nodes; arcs = arcs })

-- Every edge joins two tasks.
abbrev pub InBounds : ℕ → List Edge → Type 0
InBounds n = All (λ (e : Edge). (e.0 < n) × (e.1 < n))
