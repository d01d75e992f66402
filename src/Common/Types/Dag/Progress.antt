-- ===== src/Common/Types/Dag/Progress.antt =====
-- Acyclic graphs of common/src/types.rs.
use decentralized_hive_mind.Prelude.{
  ℕ, zero, suc, ◌≡◌, ◌≢◌, ◌<◌, inl, inr, Bool, true, false, ◌||◌, some, List, [], ◌∷◌, length,
  filter, range, all, any, All, arith, Bool-cases, filter-range-ne-nil,
}
use decentralized_hive_mind.Common.Types.{SubTask, is_pending, is_complete}
use decentralized_hive_mind.Common.Types.Dag.{Edge, TaskDag, ready_indices, InBounds}
use decentralized_hive_mind.Common.Types.Dag.Ready.{
  pending_at, complete_at, edge_passes, is_unblocked, ready_indices_lem,
}

-- The edges are in bounds, and a rank puts each task above those that must precede it.
pub record IsAcyclic (n : ℕ) (edges : List Edge) : Type 0 where
  pub in_bounds : InBounds n edges
  pub rank : ℕ → ℕ
  pub ranked : All (λ (e : Edge). rank e.0 < rank e.1) edges

-- No task is dispatched, running or failed.
abbrev pub settled : SubTask → Bool
settled t = is_pending t.status || is_complete t.status

settled_at :
    (tasks : List SubTask) (i : ℕ)
    → all settled tasks ≡ true
    → i < length tasks
    → complete_at tasks i ≡ false
    → pending_at tasks i ≡ true
settled_at [] i h l c = elim l [ ]
settled_at (t ∷ tasks) zero h l c = ground arith
settled_at (t ∷ tasks) (suc i) h l c = ground (arith, settled_at tasks i)

-- An edge that blocks the task `i` comes from a task that is not complete, of a smaller rank.
blocker :
    (tasks : List SubTask) (rank : ℕ → ℕ) (i : ℕ) (es : List Edge)
    → InBounds (length tasks) es
    → All (λ (e : Edge). rank e.0 < rank e.1) es
    → all (edge_passes tasks i) es ≡ false
    → (j : ℕ) × (j < length tasks) × (rank j < rank i) × (complete_at tasks j ≡ false)
blocker tasks rank i [] b r h = cc
blocker tasks rank i ((from, to) ∷ es) b r h = elim (Bool-cases (edge_passes tasks i (from, to))) [
  | inl passes ↦ blocker tasks rank i es b.1 r.1 (ground arith)
  | inr stops ↦ (from, b.0.0, ground arith, ground arith)
]

module _ (dag : TaskDag) (acyclic : IsAcyclic (length dag.tasks) dag.edges)
    (quiet : all settled dag.tasks ≡ true) where
  -- Below a pending task there is one that nothing blocks.
  unblocked_below :
      (bound i : ℕ)
      → acyclic.rank i < bound
      → i < length dag.tasks
      → pending_at dag.tasks i ≡ true
      → (j : ℕ) × (j < length dag.tasks) × (is_unblocked dag j ≡ true)
  unblocked_below zero i r l p = elim r [ ]
  unblocked_below (suc bound) i r l p =
      elim (Bool-cases (all (edge_passes dag.tasks i) dag.edges)) [
        | inl free ↦ (i, l, ground arith)
        | inr blocked ↦
            let (j, jl, jr, jc) =
              blocker dag.tasks acyclic.rank i dag.edges acyclic.in_bounds acyclic.ranked blocked in
            unblocked_below bound j (omega arith) jl (settled_at dag.tasks j quiet jl jc)
      ]

pending_index :
    (tasks : List SubTask)
    → any (λ t. is_pending t.status) tasks ≡ true
    → (i : ℕ) × (i < length tasks) × (pending_at tasks i ≡ true)
pending_index [] h = cc
pending_index (t ∷ tasks) h = elim (Bool-cases (is_pending t.status)) [
  | inl p ↦ (0, omega arith, p)
  | inr n ↦ let (i, l, p) = pending_index tasks (ground arith) in (suc i, omega arith, p)
]

-- In an acyclic graph where every task is pending or complete, and some task is pending,
-- `ready_indices` returns at least one task: the dispatch never gets stuck.
pub ready_indices-ne-nil :
    (dag : TaskDag)
    → IsAcyclic (length dag.tasks) dag.edges
    → all settled dag.tasks ≡ true
    → any (λ t. is_pending t.status) dag.tasks ≡ true
    → (ready : List ℕ) × (ready_indices dag ≡ some ready) × (ready ≢ [])
ready_indices-ne-nil dag acyclic quiet waiting =
    let n = length dag.tasks in
    let (i, il, ip) = pending_index dag.tasks waiting in
    let (j, jl, free) =
      unblocked_below dag acyclic quiet (suc (acyclic.rank i)) i (omega arith) il ip in
    (
      filter (is_unblocked dag) (range 0 n),
      ready_indices_lem dag acyclic.in_bounds,
      filter-range-ne-nil (is_unblocked dag) 0 n j (omega arith) (omega arith) free,
    )
