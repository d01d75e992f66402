-- ===== src/Orchestrator/Invariant/Statements.antt =====
-- The invariant, and the statements that change sub-tasks, jobs and receipts.
use decentralized_hive_mind.Prelude.{
  ◌≡◌, inl, inr, Bool, List, [], ◌∷◌, ◌++◌, map, length, arith, In, In-map, In-map_of, In-snoc,
  if◌then◌else◌, ◌==◌, ap, sym, ◌∙◌,
}
use decentralized_hive_mind.Common.Types.{Uuid, DateTime, CreditReceipt, complete}
use decentralized_hive_mind.Orchestrator.Db.{JobRow, SubTaskRow}
use decentralized_hive_mind.Orchestrator.TaskManager.Finish.{incomplete}
use decentralized_hive_mind.Orchestrator.TaskManager.Dispatch.{eligible, dispatch_row}
use decentralized_hive_mind.Orchestrator.TaskManager.Dispatch.Claims.{
  claim-IsOrdered, dispatch_row-complete,
}
use decentralized_hive_mind.Orchestrator.Invariant.{Agrees}

-- An update that completes a row and leaves its place in the job alone.
pub record Completes (f : SubTaskRow → SubTaskRow) : Type 0 where
  pub same_id : (t : SubTaskRow) → (f t).id ≡ t.id
  pub same_job : (t : SubTaskRow) → (f t).job_id ≡ t.job_id
  pub same_position : (t : SubTaskRow) → (f t).position ≡ t.position
  pub same_count : (t : SubTaskRow) → (f t).retry_count ≡ t.retry_count
  pub completes : (t : SubTaskRow) → (f t).status ≡ complete

abbrev pub at_id : Uuid → (SubTaskRow → SubTaskRow) → SubTaskRow → SubTaskRow
at_id id f t = if t.id == id then f t else t

-- A count of zero means that every sub-task of the job is complete.
incomplete-nil :
    (job : Uuid) (tasks : List SubTaskRow) (t : SubTaskRow)
    → length (incomplete job tasks) ≡ 0
    → In t tasks
    → t.job_id ≡ job
    → t.status ≡ complete
incomplete-nil job [] t n m e = elim m [ ]
incomplete-nil job (x ∷ tasks) t n (inl h) e = ground arith
incomplete-nil job (x ∷ tasks) t n (inr m) e = ground (arith, incomplete-nil job tasks t)

module _ {F : Type 0} {jobs : List (JobRow F)} {tasks : List SubTaskRow}
    {receipts : List (CreditReceipt F)} (v : Agrees jobs tasks receipts) where
  -- A completed row.
  pub complete-Agrees :
      (id : Uuid) (f : SubTaskRow → SubTaskRow)
      → Completes f
      → Agrees jobs (map (at_id id f) tasks) receipts
  complete-Agrees id f c = record {
    keyed = λ t' u' mt mu e.
        let (t, t_in, t_eq) = In-map (at_id id f) tasks {b = t'} mt in
        let (u, u_in, u_eq) = In-map (at_id id f) tasks {b = u'} mu in
        let same : t ≡ u = v.keyed t u t_in u_in (ground (arith, c.same_id t, c.same_id u)) in
        t_eq ∙ ap (at_id id f) same ∙ sym u_eq;
    owned = λ t' mt.
        let (t, t_in, t_eq) = In-map (at_id id f) tasks {b = t'} mt in
        let (j, j_in, j_eq) = v.owned t t_in in (j, j_in, ground (arith, c.same_job t));
    rooted = λ r mr.
        let (t, t_in, t_eq) = v.rooted r mr in
        (at_id id f t, In-map_of (at_id id f) tasks t t_in, ground (arith, c.same_id t));
    ordered = λ t' u' mt mu d j p.
        let (t, t_in, t_eq) = In-map (at_id id f) tasks {b = t'} mt in
        let (u, u_in, u_eq) = In-map (at_id id f) tasks {b = u'} mu in
        ground (
          arith,
          v.ordered t u t_in u_in,
          c.completes t,
          c.completes u,
          c.same_job t,
          c.same_job u,
          c.same_position t,
          c.same_position u,
        );
    sound = λ j t' mj mt e k.
        let (t, t_in, t_eq) = In-map (at_id id f) tasks {b = t'} mt in
        ground (arith, v.sound j t mj t_in e, c.completes t, c.same_job t);
    capped = λ t' mt.
        let (t, t_in, t_eq) = In-map (at_id id f) tasks {b = t'} mt in
        ground (arith, v.capped t t_in, c.same_count t);
    paid = λ r t' mr mt e.
        let (t, t_in, t_eq) = In-map (at_id id f) tasks {b = t'} mt in
        ground (arith, v.paid r t mr t_in, c.completes t, c.same_id t);
    once = v.once;
  }

  -- A claim of the dispatcher.
  pub claim-Agrees :
      (locked : Uuid → Bool) (now : DateTime)
      → Agrees jobs (map (dispatch_row (eligible locked tasks) now) tasks) receipts
  claim-Agrees locked now =
      let f = dispatch_row (eligible locked tasks) now in
      record {
        keyed = λ t' u' mt mu e.
            let (t, t_in, t_eq) = In-map f tasks {b = t'} mt in
            let (u, u_in, u_eq) = In-map f tasks {b = u'} mu in
            let same : t ≡ u = v.keyed t u t_in u_in (ground arith) in t_eq ∙ ap f same ∙ sym u_eq;
        owned = λ t' mt.
            let (t, t_in, t_eq) = In-map f tasks {b = t'} mt in
            let (j, j_in, j_eq) = v.owned t t_in in (j, j_in, ground arith);
        rooted = λ r mr.
            let (t, t_in, t_eq) = v.rooted r mr in (f t, In-map_of f tasks t t_in, ground arith);
        ordered = claim-IsOrdered locked tasks now v.keyed v.ordered;
        sound = λ j t' mj mt e k.
            let (t, t_in, t_eq) = In-map f tasks {b = t'} mt in
            let done : t.status ≡ complete = v.sound j t mj t_in e (ground arith) in
            ground (arith, dispatch_row-complete locked tasks v.keyed t t_in now done);
        capped = λ t' mt.
            let (t, t_in, t_eq) = In-map f tasks {b = t'} mt in ground (arith, v.capped t t_in);
        paid = λ r t' mr mt e.
            let (t, t_in, t_eq) = In-map f tasks {b = t'} mt in
            let done : t.status ≡ complete = v.paid r t mr t_in (ground arith) in
            ground (arith, dispatch_row-complete locked tasks v.keyed t t_in now done);
        once = v.once;
      }

  -- A job of which no incomplete sub-task is left is marked complete.
  pub finish-Agrees :
      (job : Uuid) (f : JobRow F → JobRow F)
      → ((j : JobRow F) → (f j).id ≡ j.id)
      → length (incomplete job tasks) ≡ 0
      → Agrees (map (λ j. if j.id == job then f j else j) jobs) tasks receipts
  finish-Agrees job f same_id none_left = record {
    keyed = v.keyed;
    owned = λ t mt.
        let g = λ (j : JobRow F). if j.id == job then f j else j in
        let (j, j_in, j_eq) = v.owned t mt in
        (g j, In-map_of g jobs j j_in, ground (arith, same_id j));
    rooted = v.rooted;
    ordered = v.ordered;
    sound = λ j' t mj mt e k.
        let (j, j_in, j_eq) = In-map (λ j. if j.id == job then f j else j) jobs {b = j'} mj in
        ground (arith, v.sound j t j_in mt, incomplete-nil job tasks t none_left mt, same_id j);
    capped = v.capped;
    paid = v.paid;
    once = v.once;
  }

  -- A receipt for a complete task that has none yet.
  pub receipt-Agrees :
      (r : CreditReceipt F)
      → ((t : SubTaskRow) × In t tasks × (t.id ≡ r.sub_task_id))
      → ((t : SubTaskRow) → In t tasks → t.id ≡ r.sub_task_id → t.status ≡ complete)
      → ((s : CreditReceipt F) → In s receipts → ¬ (s.sub_task_id ≡ r.sub_task_id))
      → Agrees jobs tasks (receipts ++ r ∷ [])
  receipt-Agrees r root done fresh = record {
    keyed = v.keyed;
    owned = v.owned;
    rooted = λ s ms. elim (In-snoc receipts r s ms) [
      | inl old ↦ v.rooted s old
      | inr new ↦ let (t, t_in, t_eq) = root in (t, t_in, ground arith)
    ];
    ordered = v.ordered;
    sound = v.sound;
    capped = v.capped;
    paid = λ s t ms mt e. elim (In-snoc receipts r s ms) [
      | inl old ↦ v.paid s t old mt e
      | inr new ↦ done t mt (ground arith)
    ];
    once = λ s q ms mq e. elim (In-snoc receipts r s ms) [
      | inl s_old ↦ elim (In-snoc receipts r q mq) [
        | inl q_old ↦ v.once s q s_old q_old e
        | inr q_new ↦ absurd (fresh s s_old (ground arith))
      ]
      | inr s_new ↦ elim (In-snoc receipts r q mq) [
        | inl q_old ↦ absurd (fresh q q_old (ground arith))
        | inr q_new ↦ s_new ∙ sym q_new
      ]
    ];
  }
