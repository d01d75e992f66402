-- ===== src/Orchestrator/TaskManager/Dispatch/Picked.antt =====
-- Which sub-tasks a round of the dispatcher of orchestrator/src/task_manager.rs takes, and what it
-- makes of the table, said without the code's own functions.
use decentralized_hive_mind.Prelude.{
  ◌≡◌, ◌≤◌, ◌<◌, refl, inl, inr, ◌⊎◌, Bool, true, false, not, ◌&&◌, List, map, any, length, ◌==◌,
  leb, arith, Bool-cases, In, IsSorted, IsTop, select_top, select_top-IsTop, All, any_sound,
  any_of_In, Pointwise, Pointwise-map,
}
use decentralized_hive_mind.Common.Types.{
  Uuid, DateTime, SubTaskStatus, pending, dispatched, complete, is_complete,
}
use decentralized_hive_mind.Orchestrator.Db.{SubTaskRow, StreamEntry}
use decentralized_hive_mind.Orchestrator.TaskManager.Dispatch.{
  holds_back, is_eligible, eligible, dispatch_row, entry_of,
}

-- A task that waits, and whose job has completed every earlier task.
abbrev pub IsReady : List SubTaskRow → SubTaskRow → Type 0
IsReady tasks t =
    (t.status ≡ pending)
    × ((d : SubTaskRow)
        → In d tasks
        → d.job_id ≡ t.job_id
        → d.position < t.position
        → d.status ≡ complete)

abbrev pub older : SubTaskRow → SubTaskRow → Bool
older a b = leb a.created_at b.created_at

-- The rows are the oldest ready ones that no other replica has locked, at most fifty.
pub record IsPicked (locked : Uuid → Bool) (tasks rows : List SubTaskRow) : Type 0 where
  pub ordered : IsSorted older rows
  pub limited : length rows ≤ 50
  pub ready : (t : SubTaskRow) → In t rows → In t tasks × IsReady tasks t × (locked t.id ≡ false)
  pub oldest :
      (t : SubTaskRow)
      → In t tasks
      → IsReady tasks t
      → locked t.id ≡ false
      → In t rows ⊎ ((length rows ≡ 50) × All (λ y. older y t ≡ true) rows)

-- Whether a row has the id of one of the rows taken.
abbrev pub is_taken : List SubTaskRow → SubTaskRow → Bool
is_taken rows t = any (λ (id : Uuid). id == t.id) (map (λ (r : SubTaskRow). r.id) rows)

-- The row of a task that is taken is dispatched; any other is as before.
abbrev pub IsMarked : List SubTaskRow → DateTime → SubTaskRow → SubTaskRow → Type 0
IsMarked rows now old new =
    ((is_taken rows old ≡ true) × (new ≡ record old { status = dispatched; updated_at = now }))
    ⊎ ((is_taken rows old ≡ false) × (new ≡ old))

abbrev pub IsEntryOf : SubTaskRow → StreamEntry → Type 0
IsEntryOf t e =
    (e.task_id ≡ t.id)
    × (e.job_id ≡ t.job_id)
    × (e.role ≡ t.role)
    × (e.prompt_shard ≡ t.prompt_shard)
    × (e.min_tier ≡ t.min_tier)
    × (e.agent_index ≡ t.agent_index)

is_complete_sound : (s : SubTaskStatus) → is_complete s ≡ true → s ≡ complete
is_complete_sound s h = ground arith

module _ (tasks : List SubTaskRow) (t : SubTaskRow) where
  is_eligible-IsReady : is_eligible tasks t ≡ true → IsReady tasks t
  is_eligible-IsReady h =
      let free : any (holds_back t) tasks ≡ false = ground arith in
      (
        ground arith,
        λ d m j p. elim (Bool-cases (is_complete d.status)) [
          | inl c ↦ is_complete_sound d.status c
          | inr n ↦
              let holds : holds_back t d ≡ true = ground arith in
              let blocked = any_of_In (holds_back t) tasks m holds in ground arith
        ],
      )

  IsReady-is_eligible : IsReady tasks t → is_eligible tasks t ≡ true
  IsReady-is_eligible h = elim (Bool-cases (any (holds_back t) tasks)) [
    | inl blocked ↦
        let (d, m, holds) = any_sound (holds_back t) tasks blocked in
        let done = h.1 d m (ground arith) (ground arith) in ground arith
    | inr free ↦ let waits = h.0 in ground arith
  ]

module _ (locked : Uuid → Bool) (tasks : List SubTaskRow) where
  abbrev pub picked : List SubTaskRow
  picked = select_top older 50 (λ t. is_eligible tasks t && not (locked t.id)) tasks

  pub picked-ids : eligible locked tasks ≡ map (λ (t : SubTaskRow). t.id) picked
  unfolding eligible
  picked-ids = refl

  pub picked-IsPicked : IsPicked locked tasks picked
  picked-IsPicked =
      let test = λ (t : SubTaskRow). is_eligible tasks t && not (locked t.id) in
      let top : IsTop older 50 test tasks picked =
        select_top-IsTop older
          (λ a b. elim (Bool-cases (older a b)) [ inl t ↦ inl t | inr f ↦ inr (ground arith) ])
          (λ a b c p q. ground arith) 50 test tasks in
      record {
        ordered = top.ordered;
        limited = top.limited;
        ready = λ t m.
            let (there, passes) = top.selected t m in
            (there, is_eligible-IsReady tasks t (ground arith), ground arith);
        oldest =
            λ t m r free. let e = IsReady-is_eligible tasks t r in top.complete t m (ground arith);
      }

  pub dispatch_row-IsMarked :
      (now : DateTime)
      → Pointwise
          (IsMarked picked now)
          tasks
          (map (dispatch_row (map (λ (t : SubTaskRow). t.id) picked) now) tasks)
  dispatch_row-IsMarked now =
      Pointwise-map (IsMarked picked now) (dispatch_row (map (λ (t : SubTaskRow). t.id) picked) now)
        tasks
        (λ t. elim (Bool-cases (is_taken picked t)) [
          | inl h ↦ inl (h, rw h refl)
          | inr h ↦ inr (h, rw h refl)
        ])

pub entry_of-IsEntryOf : (taken : List SubTaskRow) → Pointwise IsEntryOf taken (map entry_of taken)
entry_of-IsEntryOf taken =
    Pointwise-map IsEntryOf entry_of taken (λ t. (refl, refl, refl, refl, refl, refl))
