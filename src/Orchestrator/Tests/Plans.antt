-- ===== src/Orchestrator/Tests/Plans.antt =====
-- Examples of the checks of a result and of plans.
use decentralized_hive_mind.Prelude.{
  ℕ, ◌+◌, ◌<◌, ◌≡◌, ◌↔◌, refl, inl, inr, Bool, true, Option, none, some, List, [], ◌∷◌, Bytes, text,
  as_bytes, arith, All, all, ltb, Bool-cases, subst, range, if◌then◌else◌,
}
use decentralized_hive_mind.Common.Crypto.Sample.{sample_digest, sample}
use decentralized_hive_mind.Common.Types.{planner, coder, nano, Uuid}
use decentralized_hive_mind.Common.Types.Dag.{
  Edge, TaskDag, Digraph, new, ready_indices, to_digraph,
}
use decentralized_hive_mind.Orchestrator.Error.{ok}
use decentralized_hive_mind.Orchestrator.Validator.{
  ValidationInput, validate_output, expected_hex, constant_time_eq,
}
use decentralized_hive_mind.Orchestrator.Validator.ConstantTime.{constant_time_eq_iff}
use decentralized_hive_mind.Orchestrator.Dag.{
  PlannerTask, PlanTools, index_of, check_edges, sub_tasks, build_dag, ready_to_dispatch,
}
use decentralized_hive_mind.Orchestrator.Dag.Planned.{IsPlanned, build_dag-IsPlanned}
use decentralized_hive_mind.Orchestrator.Tests.Fixtures.{tools}

abbrev input : ValidationInput
input = record {
  role = planner;
  prompt_shard_bytes = text "p";
  output = text "o";
  node_proof_hash_hex = expected_hex (text "p") (text "o");
}

accepted : validate_output tools input ≡ ok (record { clean_output = text "o" })
unfolding validate_output constant_time_eq as_bytes
accepted = refl

abbrev left : Bytes
left = 1 ∷ 2 ∷ []

abbrev right : Bytes
right = 1 ∷ 3 ∷ []

constant_time_eq_iff_example : (constant_time_eq left right ≡ true) ↔ (left ≡ right)
constant_time_eq_iff_example = constant_time_eq_iff left right

-- A sort for the examples: a fixed order, if it serves.
abbrev order : List ℕ
order = range 0 4

abbrev in_order : List Edge → Bool
in_order arcs = all (λ (e : Edge). ltb (index_of order e.0) (index_of order e.1)) arcs

in_order-All :
    (arcs : List Edge)
    → in_order arcs ≡ true
    → All (λ (e : Edge). index_of order e.0 < index_of order e.1) arcs
in_order-All [] h = tt
in_order-All (e ∷ arcs) h = (ground arith, in_order-All arcs (ground arith))

abbrev toposort : Digraph → Option (List ℕ)
toposort g = if in_order g.arcs then some order else none

toposort_sound :
    (g : Digraph) (found : List ℕ)
    → toposort g ≡ some found
    → All (λ (e : Edge). index_of found e.0 < index_of found e.1) g.arcs
toposort_sound g found h = elim (Bool-cases (in_order g.arcs)) [
  | inl t ↦
      let same : order ≡ found = ground arith in
      subst (λ xs. All (λ (e : Edge). index_of xs e.0 < index_of xs e.1) g.arcs) same
        (in_order-All g.arcs t)
  | inr f ↦ ground arith
]

abbrev task : PlannerTask
task = record { role = coder; prompt_shard = []; min_tier = nano }

abbrev plan_tools : PlanTools
plan_tools = record {
  from_str = λ s. some (record { tasks = task ∷ task ∷ task ∷ []; edges = (0, 1) ∷ (1, 2) ∷ [] });
  parse_error = λ s. s;
  toposort = toposort;
  toposort_sound = toposort_sound;
}

abbrev new_v4 : ℕ → Uuid
new_v4 i = 900 + i

abbrev planned : TaskDag
planned = new (sub_tasks new_v4 10 30 0 (task ∷ task ∷ task ∷ [])) ((0, 1) ∷ (1, 2) ∷ [])

built : build_dag plan_tools new_v4 10 [] 30 ≡ some (ok planned)
unfolding build_dag check_edges to_digraph new sub_tasks
built = refl

build_dag-IsPlanned_example : IsPlanned planned
build_dag-IsPlanned_example = build_dag-IsPlanned plan_tools new_v4 10 [] 30 planned built

ready_first : ready_to_dispatch planned ≡ some (0 ∷ [])
unfolding ready_indices new sub_tasks
ready_first = refl
