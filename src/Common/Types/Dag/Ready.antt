-- ===== src/Common/Types/Dag/Ready.antt =====
-- `TaskDag::ready_indices` of common/src/types.rs, and a direct description of its result.
use decentralized_hive_mind.Prelude.{
  ℕ, zero, suc, ◌≡◌, refl, ◌<◌, ◌∙◌, ap, inl, inr, Bool-cases, Bool, true, false, ◌&&◌, ◌||◌, not,
  none, some, List, [], ◌∷◌, length, get_elem?, set, replicate, filter, range, ◌==◌, all, arith,
  length-set, length-replicate, filter-range_congr,
}
use decentralized_hive_mind.Common.Types.{SubTask, is_pending, is_complete}
use decentralized_hive_mind.Common.Types.Dag.{
  Edge, TaskDag, mark_edge, mark_edges, is_ready, ready_indices, InBounds,
}

-- The task at an index has a status that passes a test; there is no such task out of range.
abbrev pub complete_at : List SubTask → ℕ → Bool
complete_at tasks i = elim (get_elem? tasks i) [ none ↦ false | some t ↦ is_complete t.status ]

abbrev pub pending_at : List SubTask → ℕ → Bool
pending_at tasks i = elim (get_elem? tasks i) [ none ↦ false | some t ↦ is_pending t.status ]

-- The edge does not hold the task `i` back.
abbrev pub edge_passes : List SubTask → ℕ → Edge → Bool
edge_passes tasks i (from, to) = not (to == i) || complete_at tasks from

-- The specification: the task is pending, and every task that must precede it is complete.
abbrev pub is_unblocked : TaskDag → ℕ → Bool
is_unblocked dag i = pending_at dag.tasks i && all (edge_passes dag.tasks i) dag.edges

get_elem?_lt {ℓ} :
    {A : Type ℓ} (xs : List A) (i : ℕ) → i < length xs → (a : A) × (get_elem? xs i ≡ some a)
get_elem?_lt [] i h = elim h [ ]
get_elem?_lt (x ∷ xs) zero h = (x, refl)
get_elem?_lt (x ∷ xs) (suc i) h = get_elem?_lt xs i (omega arith)

-- A flag after a write of `true`.
get_elem?-set-true :
    (xs : List Bool) (i j : ℕ)
    → get_elem? (set xs j true) i
      ≡ elim (get_elem? xs i) [ none ↦ none | some b ↦ some (b || (j == i)) ]
get_elem?-set-true [] i j = refl
get_elem?-set-true (x ∷ xs) zero zero = ground arith
get_elem?-set-true (x ∷ xs) zero (suc j) = ground arith
get_elem?-set-true (x ∷ xs) (suc i) zero = ground arith
get_elem?-set-true (x ∷ xs) (suc i) (suc j) = ground (arith, get_elem?-set-true xs i j)

get_elem?-replicate : (n i : ℕ) → i < n → get_elem? (replicate n false) i ≡ some false
get_elem?-replicate zero i h = elim h [ ]
get_elem?-replicate (suc n) zero h = refl
get_elem?-replicate (suc n) (suc i) h = get_elem?-replicate n i (omega arith)

-- The loop does not panic, keeps the number of flags, and raises those that an edge blocks.
mark_edges_lem :
    (tasks : List SubTask) (es : List Edge) (flags : List Bool)
    → InBounds (length tasks) es
    → length flags ≡ length tasks
    → (marked : List Bool) × (mark_edges tasks es flags ≡ some marked)
      × ((i : ℕ) (b : Bool)
          → get_elem? flags i ≡ some b
          → get_elem? marked i ≡ some (b || not (all (edge_passes tasks i) es)))
unfolding mark_edges mark_edge
mark_edges_lem tasks [] flags h n = (flags, refl, λ i b e. ground arith)
mark_edges_lem tasks ((from, to) ∷ es) flags h n =
    let (t, found) = get_elem?_lt tasks from h.0.0 in
    elim (Bool-cases (is_complete t.status)) [
      | inl done ↦
          let (marked, runs, spec) = mark_edges_lem tasks es flags h.1 n in
          (marked, ground (arith, found), λ i b e. ground (arith, found, spec i b e))
      | inr open_ ↦
          let flags' = set flags to true in
          let (marked, runs, spec) =
            mark_edges_lem tasks es flags' h.1 (length-set flags to true ∙ n) in
          (
            marked,
            ground arith,
            λ i b e. ground (arith, found, get_elem?-set-true flags i to, spec i (b || (to == i))),
          )
    ]

-- In a graph whose edges are in bounds, `ready_indices` does not panic, and it lists in ascending
-- order exactly the indices of the pending tasks whose predecessors are all complete.
pub ready_indices_lem :
    (dag : TaskDag)
    → InBounds (length dag.tasks) dag.edges
    → ready_indices dag ≡ some (filter (is_unblocked dag) (range 0 (length dag.tasks)))
unfolding ready_indices
ready_indices_lem dag h =
    let n = length dag.tasks in
    let (marked, runs, spec) =
      mark_edges_lem dag.tasks dag.edges (replicate n false) h (length-replicate n false) in
    rw runs (
      ap some (
        filter-range_congr (is_ready dag.tasks marked) (is_unblocked dag) 0 n
          λ i l. ground (arith, spec i false (get_elem?-replicate n i (omega arith)))))
