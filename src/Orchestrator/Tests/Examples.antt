-- ===== src/Orchestrator/Tests/Examples.antt =====
-- Examples of the state machine of the orchestrator: dispatch, results, bans.
use decentralized_hive_mind.Prelude.{
  ◌≡◌, refl, inl, inr, Bool, true, false, [], ◌∷◌, In, text_eq_refl, as_bytes, arith,
}
use decentralized_hive_mind.Prelude.Int.{ℤ, pos, ◌+ℤ◌}
use decentralized_hive_mind.Common.Float64.Fixed.{fixed}
use decentralized_hive_mind.Common.Crypto.Sample.{sample_digest, sample}
use decentralized_hive_mind.Common.Types.{
  complete, CreditReceipt, coder, cluster, edge, parse_role, parse_tier, weight,
}
use decentralized_hive_mind.Common.Credits.{
  node_credit_share, total_score, node_weighted_score, sum_from, tier_multiplier,
}
use decentralized_hive_mind.Orchestrator.Error.{ok}
use decentralized_hive_mind.Orchestrator.Db.{NodeRow, SubTaskRow, World, actions}
use decentralized_hive_mind.Orchestrator.Invariant.{Inv}
use decentralized_hive_mind.Orchestrator.Routes.Tasks.{submit_task_result, pay, build_receipt}
use decentralized_hive_mind.Orchestrator.Routes.Tasks.Accepted.{
  IsStored, IsPaid, submit_task_result-IsPaid,
}
use decentralized_hive_mind.Orchestrator.Service.{register, alive, result, tick, serve_all}
use decentralized_hive_mind.Orchestrator.Service.Safety.{serve_all-Inv}
use decentralized_hive_mind.Orchestrator.Service.Nodes.{
  IsRefusal, serve_all-Banned, submit_task_result-refused,
}
use decentralized_hive_mind.Orchestrator.Validator.{validate_output, constant_time_eq}
use decentralized_hive_mind.Common.Identity.{pubkey_hex}
use decentralized_hive_mind.Orchestrator.TaskManager.Dispatch.{is_eligible}
use decentralized_hive_mind.Orchestrator.TaskManager.Dispatch.Effects.{is_eligible-exists}
use decentralized_hive_mind.Orchestrator.TaskManager.Finish.{finalize_job_if_ready}
use decentralized_hive_mind.Orchestrator.TaskManager.Housekeeping.{
  rescore, recompute_reputation_scores,
}
use decentralized_hive_mind.Orchestrator.TaskManager.Housekeeping.Scores.{
  IsRescored, recompute_reputation_scores-IsRescored,
}
use decentralized_hive_mind.Orchestrator.Routes.Nodes.{RegisterRequest}
use decentralized_hive_mind.Orchestrator.Routes.Nodes.Bans.{Banned}
use decentralized_hive_mind.Prelude.{◌+◌}
use decentralized_hive_mind.Orchestrator.Service.{job_request}
use decentralized_hive_mind.Orchestrator.Tests.Fixtures.{
  db-Inv, setup, job_req, tools, show_uuid, to_vec, node_key, node, first_task, second_task, db,
  world, req, nonce,
}

serve_all-Inv_example :
    Inv
      (serve_all setup
        (tick (λ i. false) 20 0
          ∷ job_request job_req 11 (λ i. 200 + i) (λ i. []) 25
          ∷ result 100 req 500 nonce 30
          ∷ tick (λ i. false) 40 1
          ∷ [])
        world).db
serve_all-Inv_example =
    serve_all-Inv ℤ Bool setup
      (tick (λ i. false) 20 0
        ∷ job_request job_req 11 (λ i. 200 + i) (λ i. []) 25
        ∷ result 100 req 500 nonce 30
        ∷ tick (λ i. false) 40 1
        ∷ [])
      world db-Inv

-- The receipt for the first task.
abbrev receipt : CreditReceipt ℤ
receipt =
    build_receipt to_vec true 100 10 node_key
      (node_credit_share 3 4 coder cluster ((3, 4, coder, edge) ∷ []) (pos 100_000_000) 100) 3 4
      nonce 500 30

submitted :
    (submit_task_result tools show_uuid to_vec true 100 req 500 nonce 30 world).0 ≡ ok receipt
unfolding submit_task_result pay actions pubkey_hex validate_output constant_time_eq as_bytes
    parse_role finalize_job_if_ready parse_tier
submitted = refl

-- The node counts at the tier Cluster and the sum at the tier Edge: of a budget of 100 credits the
-- node receives 560.
overpaid : receipt.credits ≡ pos 560_000_000
unfolding build_receipt node_credit_share total_score node_weighted_score sum_from tier_multiplier
    ◌+ℤ◌ weight
overpaid = refl

submit_task_result-IsPaid_example :
    IsStored tools 100 req
      (submit_task_result tools show_uuid to_vec true 100 req 500 nonce 30 world).1.db
    × IsPaid 100 req receipt
        (submit_task_result tools show_uuid to_vec true 100 req 500 nonce 30 world).1.db
submit_task_result-IsPaid_example =
    submit_task_result-IsPaid ℤ Bool tools show_uuid to_vec true 100 req 500 nonce 30 world receipt
      submitted

abbrev barred_world : World ℤ
barred_world = record world { db = record db { nodes = record node { is_banned = true } ∷ [] } }

barred_world-Banned : Banned node_key barred_world.db
barred_world-Banned = ground (arith, text_eq_refl node_key)

abbrev again : RegisterRequest
again = record { pubkey_hex = node_key; capabilities = node.capabilities }

serve_all-Banned_example :
    Banned node_key
      (serve_all setup
        (register again 2 50 ∷ alive 1 60 ∷ tick (λ i. false) 70 0 ∷ [])
        barred_world).db
serve_all-Banned_example =
    serve_all-Banned ℤ Bool setup node_key
      (register again 2 50 ∷ alive 1 60 ∷ tick (λ i. false) 70 0 ∷ []) barred_world
      (refl, (refl, (refl, tt))) barred_world-Banned

submit_task_result-refused_example :
    let after = submit_task_result tools show_uuid to_vec true 100 req 500 nonce 30 barred_world in
    IsRefusal after.0 × (after.1.db ≡ barred_world.db) × (after.1.stream ≡ barred_world.stream)
submit_task_result-refused_example =
    submit_task_result-refused ℤ Bool tools show_uuid to_vec true node_key 100 req 500 nonce 30
      barred_world refl barred_world-Banned

-- The first task is complete, and the second can be dispatched.
abbrev halfway : World ℤ
halfway = record world {
  db = record db { sub_tasks = record first_task { status = complete } ∷ second_task ∷ [] };
}

is_eligible-exists_example :
    (s : SubTaskRow) × In s halfway.db.sub_tasks
    × (s.job_id ≡ 10)
    × (is_eligible halfway.db.sub_tasks s ≡ true)
is_eligible-exists_example =
    is_eligible-exists halfway.db.sub_tasks 10 (λ u m e. ground arith) 2 second_task (ground arith)
      (inr (inl refl)) refl refl

recompute_reputation_scores-IsRescored_example :
    (old : NodeRow ℤ) × In old world.db.nodes × IsRescored ℤ old (rescore 40 db node)
unfolding recompute_reputation_scores actions
recompute_reputation_scores-IsRescored_example =
    recompute_reputation_scores-IsRescored ℤ 40 world (rescore 40 db node) refl (inl refl)
