-- ===== src/Orchestrator/TaskManager/Dispatch/Effects.antt =====
-- What one call of `dispatch_ready_tasks` of orchestrator/src/task_manager.rs does, failures included.
use decentralized_hive_mind.Prelude.{
  ℕ, zero, suc, ◌≡◌, refl, ◌<◌, inl, inr, Bool, true, Option, none, some, List, [], ◌∷◌, map,
  filter, any, Text, arith, Bool-cases, In, any_sound, ◌⊎◌, false, ap, any_of_In, Pointwise,
}
use decentralized_hive_mind.Common.Types.{Uuid, DateTime, pending, complete}
use decentralized_hive_mind.Orchestrator.Error.{err, redis}
use decentralized_hive_mind.Orchestrator.Db.{SubTaskRow, StreamEntry, World, actions}
use decentralized_hive_mind.Orchestrator.TaskManager.Dispatch.{
  holds_back, is_eligible, eligible, entry_of, claim, xadd, push_all, dispatch_ready_tasks,
}
use decentralized_hive_mind.Orchestrator.TaskManager.Dispatch.Picked.{
  IsReady, IsPicked, is_taken, IsMarked, picked, picked-IsPicked, dispatch_row-IsMarked,
}

map-filter_cons :
    {A B : Type 0} (p : A → Bool) (f : A → B) (xs : List A)
    → any p xs ≡ true
    → (b : B) × (bs : List B) × (map f (filter p xs) ≡ b ∷ bs)
map-filter_cons p f [] h = cc
map-filter_cons p f (x ∷ xs) h = elim (Bool-cases (p x)) [
  | inl t ↦ (f x, map f (filter p xs), rw t)
  | inr n ↦ rw n (map-filter_cons p f xs (rw n at h))
]

picked-taken :
    (locked : Uuid → Bool) (tasks rows : List SubTaskRow) (t : SubTaskRow)
    → IsPicked locked tasks rows
    → In t tasks
    → IsReady tasks t
    → locked t.id ≡ false
    → (s : SubTaskRow) × In s rows
picked-taken locked tasks [] t p m r free = elim (p.oldest t m r free) [
  | inl k ↦ elim k [ ]
  | inr full ↦ absurd (omega (arith, full.0))
]
picked-taken locked tasks (s ∷ rows) t p m r free = (s, inl refl)

In-is_taken : (rows : List SubTaskRow) (s : SubTaskRow) → In s rows → is_taken rows s ≡ true
In-is_taken [] s m = elim m [ ]
In-is_taken (r ∷ rows) s (inl e) =
    let ids : s.id ≡ r.id = ap (λ (t : SubTaskRow). t.id) e in ground arith
In-is_taken (r ∷ rows) s (inr m) = ground (arith, In-is_taken rows s m)

module _ {F : Type 0} where
  push_all-db : (es : List StreamEntry) (w : World F) → (push_all es w).1.db ≡ w.db
  unfolding push_all xadd actions
  push_all-db [] w = refl
  push_all-db (e ∷ es) w = grind (arith, push_all-db es)

  -- Whatever fails, the tables are as before, or one claim has been made.
  pub dispatch-db :
      (locked : Uuid → Bool) (now : DateTime) (w : World F)
      → ((dispatch_ready_tasks locked now w).1.db ≡ w.db)
        ⊎ ((dispatch_ready_tasks locked now w).1.db ≡ (claim locked now w.db).1)
  unfolding actions dispatch_ready_tasks
  dispatch-db locked now w = grind (arith, push_all-db)

  dispatched_none :
      (locked : Uuid → Bool) (now : DateTime) (w : World F) (msg : Text) (rest : List (Option Text))
      (e : StreamEntry) (es : List StreamEntry)
      → w.faults ≡ none ∷ some msg ∷ rest
      → (claim locked now w.db).0 ≡ e ∷ es
      → dispatch_ready_tasks locked now w
        ≡ (err (redis msg), record w { db = (claim locked now w.db).1; faults = rest })
  unfolding actions dispatch_ready_tasks push_all xadd
  dispatched_none locked now w msg rest e es h split = ground arith

  -- If the statement succeeds and the first XADD fails while a ready task waits that is not locked,
  -- the error is that of Redis, and the oldest ready tasks are marked as dispatched, at least one,
  -- though no entry is in the stream for any of them: the claim is not undone.
  pub dispatch_ready_tasks_lost :
      (locked : Uuid → Bool) (now : DateTime) (w : World F) (msg : Text) (rest : List (Option Text))
      (t : SubTaskRow)
      → w.faults ≡ none ∷ some msg ∷ rest
      → In t w.db.sub_tasks
      → IsReady w.db.sub_tasks t
      → locked t.id ≡ false
      → let after = dispatch_ready_tasks locked now w in
        (rows : List SubTaskRow) × IsPicked locked w.db.sub_tasks rows
        × ((s : SubTaskRow) × In s rows)
        × Pointwise (IsMarked rows now) w.db.sub_tasks after.1.db.sub_tasks
        × (after ≡ (
          err (redis msg),
          record w { db = record (w.db) { sub_tasks = after.1.db.sub_tasks }; faults = rest },
        ))
  unfolding claim eligible
  dispatch_ready_tasks_lost locked now w msg rest t h m ready free =
      let tasks = w.db.sub_tasks in
      let rows = picked locked tasks in
      let p = picked-IsPicked locked tasks in
      let (s, k) = picked-taken locked tasks rows t p m ready free in
      let waiting = any_of_In (is_taken rows) tasks (p.ready s k).0 (In-is_taken rows s k) in
      let (e, es, split) = map-filter_cons (is_taken rows) entry_of tasks waiting in
      let done = dispatched_none locked now w msg rest e es h split in
      let marked = dispatch_row-IsMarked locked tasks now in
      (rows, p, (s, k), rw done marked, rw done refl)

module _ (tasks : List SubTaskRow) (job : Uuid)
    (quiet : (u : SubTaskRow)
      → In u tasks
      → u.job_id ≡ job
      → (u.status ≡ pending) ⊎ (u.status ≡ complete)) where
  -- Where each task of a job is pending or complete, and one of them is pending, one is eligible.
  pub is_eligible-exists :
      (bound : ℕ) (t : SubTaskRow)
      → t.position < bound
      → In t tasks
      → t.job_id ≡ job
      → t.status ≡ pending
      → (s : SubTaskRow) × In s tasks × (s.job_id ≡ job) × (is_eligible tasks s ≡ true)
  is_eligible-exists zero t l m j p = elim l [ ]
  is_eligible-exists (suc bound) t l m j p = elim (Bool-cases (any (holds_back t) tasks)) [
    | inl blocked ↦
        let (u, k, holds) = any_sound (holds_back t) tasks blocked in
        is_eligible-exists bound u (ground arith) k (ground arith)
          (elim (quiet u k (ground arith)) [ inl w ↦ w | inr c ↦ ground arith ])
    | inr free ↦ (t, m, j, ground arith)
  ]
