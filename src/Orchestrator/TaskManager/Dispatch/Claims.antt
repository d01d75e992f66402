-- ===== src/Orchestrator/TaskManager/Dispatch/Claims.antt =====
-- Which rows the dispatcher of orchestrator/src/task_manager.rs claims.
use decentralized_hive_mind.Prelude.{
  ◌≡◌, ◌<◌, ◌≤◌, inl, inr, Bool, true, false, not, ◌&&◌, List, map, filter, take, sort_by, length,
  ◌==◌, arith, Bool-cases, In, In-map, In-filter, In-take, In-sort_by, any_sound, any_of_In,
  length-take-le, length-map, subst, sym,
}
use decentralized_hive_mind.Common.Types.{
  Uuid, DateTime, pending, dispatched, complete, is_complete,
}
use decentralized_hive_mind.Orchestrator.Db.{SubTaskRow}
use decentralized_hive_mind.Orchestrator.TaskManager.Dispatch.{
  dispatch_limit, holds_back, is_eligible, eligible, mem_id, dispatch_row,
}

-- `id` is the primary key of the table.
abbrev pub IsKeyed : List SubTaskRow → Type 0
IsKeyed tasks = (t u : SubTaskRow) → In t tasks → In u tasks → t.id ≡ u.id → t ≡ u

-- A task that has been dispatched has all the earlier tasks of its job behind it.
abbrev pub IsOrdered : List SubTaskRow → Type 0
IsOrdered tasks =
    (t u : SubTaskRow)
    → In t tasks
    → In u tasks
    → t.status ≡ dispatched
    → u.job_id ≡ t.job_id
    → u.position < t.position
    → u.status ≡ complete

-- At most 50 rows are claimed at once.
pub length-eligible-le :
    (locked : Uuid → Bool) (tasks : List SubTaskRow) → length (eligible locked tasks) ≤ 50
unfolding eligible
length-eligible-le locked tasks = rw length-map (
    length-take-le dispatch_limit
      (sort_by (λ t. t.created_at) (filter (λ t. is_eligible tasks t && not (locked t.id)) tasks)))

module _ (locked : Uuid → Bool) (tasks : List SubTaskRow) where
  -- A claimed id belongs to an eligible row that is not locked.
  eligible-In :
      (id : Uuid)
      → In id (eligible locked tasks)
      → (t : SubTaskRow) × In t tasks
        × (t.id ≡ id)
        × (is_eligible tasks t ≡ true)
        × (locked t.id ≡ false)
  unfolding eligible
  eligible-In id m =
      let key = λ (t : SubTaskRow). t.created_at in
      let test = λ (t : SubTaskRow). is_eligible tasks t && not (locked t.id) in
      let (t, taken, e) =
        In-map (λ (t : SubTaskRow). t.id) (take dispatch_limit (sort_by key (filter test tasks)))
          m in
      let sorted = In-take dispatch_limit (sort_by key (filter test tasks)) t taken in
      let (found, passes) =
        In-filter test tasks {a = t} (In-sort_by key (filter test tasks) t sorted) in
      (t, found, sym e, ground arith, ground arith)

  module _ (keyed : IsKeyed tasks) (t : SubTaskRow) (stored : In t tasks) where
    -- A row whose id is claimed is eligible itself.
    claimed-is_eligible : mem_id (eligible locked tasks) t.id ≡ true → is_eligible tasks t ≡ true
    claimed-is_eligible m =
        let (id, listed, same) = any_sound (λ i. i == t.id) (eligible locked tasks) m in
        let (s, found, e, passes, _) = eligible-In id listed in
        let same_row : s ≡ t = keyed s t found stored (ground arith) in
        subst (λ r. is_eligible tasks r ≡ true) same_row passes

    -- A row that is claimed waits, and every earlier task of its job is complete.
    claimed_row :
        mem_id (eligible locked tasks) t.id ≡ true
        → (t.status ≡ pending)
          × ((u : SubTaskRow)
              → In u tasks
              → u.job_id ≡ t.job_id
              → u.position < t.position
              → u.status ≡ complete)
    claimed_row m =
        let passes = claimed-is_eligible m in
        (
          ground arith,
          λ u k same_job earlier. elim (Bool-cases (is_complete u.status)) [
            | inl c ↦ ground arith
            | inr n ↦ ground (arith, any_of_In (holds_back t) tasks {a = u} k)
          ],
        )

    -- A complete row stays as it is.
    pub dispatch_row-complete :
        (now : DateTime) → t.status ≡ complete → dispatch_row (eligible locked tasks) now t ≡ t
    dispatch_row-complete now c = ground (arith, claimed-is_eligible)

  -- A claim keeps the order of the jobs: it dispatches no task before the earlier ones are complete.
  pub claim-IsOrdered :
      (now : DateTime)
      → IsKeyed tasks
      → IsOrdered tasks
      → IsOrdered (map (dispatch_row (eligible locked tasks) now) tasks)
  claim-IsOrdered now keyed ordered t' u' mt mu is_dispatched same_job earlier =
      let ids = eligible locked tasks in
      let (t, t_in, t_eq) = In-map (dispatch_row ids now) tasks {b = t'} mt in
      let (u, u_in, u_eq) = In-map (dispatch_row ids now) tasks {b = u'} mu in
      let done : u.status ≡ complete = elim (Bool-cases (mem_id ids t.id)) [
        | inl claimed ↦ (claimed_row keyed t t_in claimed).1 u u_in (ground arith) (ground arith)
        | inr kept ↦ ordered t u t_in u_in (ground arith) (ground arith) (ground arith)
      ] in
      ground (arith, dispatch_row-complete keyed u u_in now done)
