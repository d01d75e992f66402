-- ===== src/Orchestrator/TaskManager/Housekeeping/Scores.antt =====
-- The reputation scores that orchestrator/src/task_manager.rs recomputes.
use decentralized_hive_mind.Prelude.{◌≡◌, refl, true, false, map, In, In-map, arith, if◌then◌else◌}
use decentralized_hive_mind.Prelude.Int.{pos}
use decentralized_hive_mind.Common.Float64.{Float64, zero_f, one_f}
use decentralized_hive_mind.Common.Types.{DateTime, Uuid}
use decentralized_hive_mind.Orchestrator.Error.{ok}
use decentralized_hive_mind.Orchestrator.Db.{NodeRow, Db, World, actions}
use decentralized_hive_mind.Orchestrator.TaskManager.Housekeeping.{
  least_greatest, rescore, node_score, recompute_reputation_scores,
}

module _ (F : Type 0) ⦃o : Float64 F⦄ where
  abbrev InUnit : F → Type 0
  InUnit x = (o.le zero_f x ≡ true) × (o.le x one_f ≡ true)

  least_greatest-InUnit : (x : F) → InUnit (least_greatest x)
  unfolding least_greatest
  least_greatest-InUnit x =
      let zero_one = o.hundredths_mono (pos 0) (pos 100) (ground arith) in
      let refl_zero = o.le_refl zero_f in
      let refl_one = o.le_refl one_f in let total = o.le_total x one_f in ground arith

  node_score-InUnit : (now : DateTime) (db : Db F) (node : Uuid) → InUnit (node_score now db node)
  unfolding node_score
  node_score-InUnit now db node = least_greatest-InUnit _

  -- A row after the statement stands for one before: the row of a banned node is as it was, any
  -- other has its score in the unit interval, and all but its score as it was.
  pub record IsRescored (old new : NodeRow F) : Type 0 where
    pub banned : old.is_banned ≡ true → new ≡ old
    pub bounded : old.is_banned ≡ false → InUnit new.reputation_score
    pub same : record new { reputation_score = old.reputation_score } ≡ old

  rescore-IsRescored :
      (now : DateTime) (db : Db F) (n : NodeRow F) → IsRescored n (rescore now db n)
  rescore-IsRescored now db n =
      let bounds = node_score-InUnit now db n.id in
      record {
        banned = λ b. rw b refl;
        bounded = λ b. rw b bounds;
        same =
            elim n.is_banned
              as (λ b.
                record (if b then n else record n { reputation_score = node_score now db n.id }) {
                  reputation_score = n.reputation_score;
                }
                ≡ n) [ true ↦ refl | false ↦ refl ];
      }

  recompute-nodes :
      (now : DateTime) (w : World F)
      → (recompute_reputation_scores now w).0 ≡ ok tt
      → (recompute_reputation_scores now w).1.db.nodes ≡ map (rescore now w.db) w.db.nodes
  unfolding recompute_reputation_scores actions
  recompute-nodes now w h = ground arith

  -- If the statement runs, each node after it stands for one before: a banned node is as it was, and
  -- any other has a score between 0 and 1 and is else as it was.
  pub recompute_reputation_scores-IsRescored :
      (now : DateTime) (w : World F) (new : NodeRow F)
      → (recompute_reputation_scores now w).0 ≡ ok tt
      → In new (recompute_reputation_scores now w).1.db.nodes
      → (old : NodeRow F) × In old w.db.nodes × IsRescored old new
  recompute_reputation_scores-IsRescored now w new h m =
      let (old, k, e) =
        In-map (rescore now w.db) w.db.nodes {b = new} (rw (recompute-nodes now w h) at m) in
      (old, k, rw e (rescore-IsRescored now w.db old))
