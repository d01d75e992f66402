-- ===== src/Common/Tests.antt =====
-- Examples of common/src.
use decentralized_hive_mind.Prelude.{
  ℕ, ◌≡◌, ◌≢◌, refl, Bool, true, none, some, List, [], ◌∷◌, ◌++◌, text, arith, filter, range,
}
use decentralized_hive_mind.Prelude.Int.{ℤ, pos}
use decentralized_hive_mind.Common.Float64.Fixed.{fixed}
use decentralized_hive_mind.Common.Crypto.Sample.{sample_digest, sample}
use decentralized_hive_mind.Common.Identity.{ok, pubkey_hex, sign_hex, verify_signature}
use decentralized_hive_mind.Common.Identity.Roundtrip.{verify_signature-sign_hex}
use decentralized_hive_mind.Common.Types.{SubTask, coder, critic, edge, pending, complete}
use decentralized_hive_mind.Common.Types.Dag.{TaskDag, ready_indices}
use decentralized_hive_mind.Common.Types.Dag.Ready.{is_unblocked, ready_indices_lem}
use decentralized_hive_mind.Common.Types.Dag.Progress.{IsAcyclic, ready_indices-ne-nil}
use decentralized_hive_mind.Common.Credits.{Contribution, node_credit_share}
use decentralized_hive_mind.Common.Credits.Bounds.{node_credit_share_bounds, node_credit_share_zero}

abbrev waiting : SubTask
waiting = record {
  id = 1;
  job_id = 10;
  role = coder;
  prompt_shard = [];
  min_tier = edge;
  assigned_node_id = none;
  status = pending;
  output = none;
  proof_hash_hex = none;
  tokens_in = none;
  tokens_out = none;
  created_at = 0;
  completed_at = none;
}

abbrev done : SubTask
done = record waiting { status = complete }

-- The middle one of three tasks can start.
abbrev chain : TaskDag
chain = record { tasks = done ∷ waiting ∷ waiting ∷ []; edges = (0, 1) ∷ (1, 2) ∷ [] }

ready_indices_lem_example : ready_indices chain ≡ some (filter (is_unblocked chain) (range 0 3))
ready_indices_lem_example = ready_indices_lem chain (ground arith)

second_ready : ready_indices chain ≡ some (1 ∷ [])
unfolding ready_indices
second_ready = refl

chain-IsAcyclic : IsAcyclic 3 chain.edges
chain-IsAcyclic = record { in_bounds = ground arith; rank = λ i. i; ranked = ground arith }

ready_indices-ne-nil_example : (ready : List ℕ) × (ready_indices chain ≡ some ready) × (ready ≢ [])
ready_indices-ne-nil_example = ready_indices-ne-nil chain chain-IsAcyclic refl refl

abbrev others : List Contribution
others = (5, 6, critic, edge) ∷ []

node_credit_share_bounds_example :
    let share =
      node_credit_share 3 4 coder edge (others ++ (3, 4, coder, edge) ∷ []) (pos 100_000_000) 7 in
    (fixed.le (pos 0) share ≡ true)
    × (fixed.le share (fixed.mul (fixed.hundredths (pos 70)) (pos 100_000_000)) ≡ true)
node_credit_share_bounds_example =
    node_credit_share_bounds ℤ 3 4 coder edge others [] (pos 100_000_000) 7 refl

node_credit_share_zero_example :
    node_credit_share 3 4 coder edge ((0, 0, critic, edge) ∷ []) (pos 100_000_000) 7 ≡ pos 0
node_credit_share_zero_example =
    node_credit_share_zero ℤ 3 4 coder edge ((0, 0, critic, edge) ∷ []) (pos 100_000_000) 7
      (refl, tt)

signed_ok : verify_signature Bool (pubkey_hex true) (text "m") (sign_hex true (text "m")) ≡ ok tt
signed_ok = verify_signature-sign_hex Bool true (text "m")
