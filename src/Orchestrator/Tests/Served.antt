-- ===== src/Orchestrator/Tests/Served.antt =====
-- A result that is sent to the router.
use decentralized_hive_mind.Prelude.{
  ◌+◌, ◌≡◌, refl, arith, ◌≢◌, ◌⊎◌, none, Bool, true, List, [], ◌∷◌, text, Text, replicate,
}
use decentralized_hive_mind.Prelude.Int.{ℤ}
use decentralized_hive_mind.Common.Float64.Fixed.{fixed}
use decentralized_hive_mind.Common.Crypto.Sample.{sample_digest, sample}
use decentralized_hive_mind.Common.Types.{coder, edge}
use decentralized_hive_mind.Orchestrator.Auth.{Request, allow}
use decentralized_hive_mind.Orchestrator.Router.{Extract, Draws, post, result, routed, app}
use decentralized_hive_mind.Orchestrator.Router.Signed.{IsSigned, IsUntouched, app-IsSigned}
use decentralized_hive_mind.Orchestrator.Tests.Fixtures.{
  setup, world, node_key, req, job_req, nonce,
}
use decentralized_hive_mind.NodeClient.Signing.{signed}
use decentralized_hive_mind.NodeClient.Signing.Served.{with_nonce, app-signed}

abbrev pub extract : Extract ℤ
extract = record {
  register_from = λ r. allow (record {
    pubkey_hex = node_key;
    capabilities = record { roles = coder ∷ []; models = []; vram_mb = none; tier = edge };
  });
  node_id_from = λ r. allow 1;
  submit_from = λ r. allow job_req;
  result_from = λ r. allow req;
  ban_from = λ r. allow (record { node_id = 1; reason = text "spam"; ban_expires_at = none });
  path_id = λ s. allow 100;
}

abbrev pub draws : Draws
draws = record {
  outer = 2000;
  inner = 2000;
  now = 2000;
  new_id = 500;
  task_ids = λ i. 200 + i;
  new_v4 = λ i. [];
  nonce = nonce;
}

abbrev request : Request
request = signed true (text "b") (replicate 32 7) 1000

abbrev path : List Text
path = text "tasks" ∷ text "100" ∷ text "result" ∷ []

not_health : path ≢ text "health" ∷ []
not_health e = cc

app-IsSigned_example :
    IsSigned Bool request 2000
    ⊎ IsUntouched world (app setup extract draws true post path request world)
app-IsSigned_example =
    app-IsSigned ℤ Bool setup extract draws true post request world path not_health

app-signed_example :
    app setup extract draws true post path request world
    ≡ routed setup extract draws post
        (result (text "100"))
        request
        (with_nonce (sample_digest.hex_encode (replicate 32 7)) 2000 world)
app-signed_example =
    app-signed ℤ Bool setup extract draws true post world true (text "b") (replicate 32 7) 1000 path
      (result (text "100")) refl refl (ground arith) refl (ground arith) (ground arith)
      (ground arith) (ground arith) (ground arith) refl refl
