-- ===== src/Orchestrator/Tests/Requests.antt =====
-- Examples of signed requests, and of the checks of a result.
use decentralized_hive_mind.Prelude.{
  ◌+◌, ◌-◌, ◌≡◌, ◌≤◌, ◌↔◌, ◌^◌, refl, Bool, true, [], ◌∷◌, Bytes, text, arith, replicate, len,
}
use decentralized_hive_mind.Prelude.Decimal.{show_ℕ}
use decentralized_hive_mind.Common.Identity.{verify_signature, pubkey_hex, sign_hex}
use decentralized_hive_mind.Prelude.Int.{ℤ, pos, negsuc}
use decentralized_hive_mind.Common.Float64.Fixed.{fixed}
use decentralized_hive_mind.Common.Crypto.Sample.{sample_digest, sample}
use decentralized_hive_mind.Orchestrator.Db.{sql}
use decentralized_hive_mind.Orchestrator.Auth.{
  Request, allow, Service, validate_and_consume, admin_route, check_headers, in_window, parse_i64,
  is_hex64, request_hash, consume_nonce,
}
use decentralized_hive_mind.Orchestrator.Auth.Nonces.{is_denied}
use decentralized_hive_mind.Orchestrator.Auth.Window.{in_window_iff}
use decentralized_hive_mind.Orchestrator.Auth.Replay.{
  attempt, cleanup, Steps, after, validate_and_consume-once,
}
use decentralized_hive_mind.Orchestrator.Auth.Layers.{Refused, admin_route-Refused}
use decentralized_hive_mind.NodeClient.Signing.{signed, sign_request}
use decentralized_hive_mind.NodeClient.Signing.Accepted.{check_headers-signed}
use decentralized_hive_mind.Orchestrator.Tests.Fixtures.{world, to_vec, nonce}
use decentralized_hive_mind.Common.Identity
use decentralized_hive_mind.Common.Types.{signable_bytes, is_valid_time}
use decentralized_hive_mind.Orchestrator.Routes.Tasks.{build_receipt, one_hour}
use decentralized_hive_mind.Orchestrator.Routes.Tasks.Receipts.{build_receipt-IsValid}

abbrev random : Bytes
random = replicate 32 7

-- A request of the body `b`, signed at 1000.
abbrev request : Request
request = signed true (text "b") random 1000

check_headers-signed_example :
    check_headers Bool request (text "b") 2000 ≡ allow (sample_digest.hex_encode random)
check_headers-signed_example =
    check_headers-signed Bool true (text "b") random 1000 2000 (ground arith) refl (ground arith)
      (ground arith) (ground arith) (ground arith)

accepted : (validate_and_consume Bool request (text "b") 2000 world).0 ≡ allow tt
unfolding validate_and_consume check_headers signed parse_i64 sign_request show_ℕ in_window is_hex64
    len verify_signature pubkey_hex sign_hex request_hash consume_nonce sql
accepted = refl

abbrev between : Steps
between = (attempt request (text "b"), 2500) ∷ (cleanup, 2600) ∷ []

validate_and_consume-once_example :
    is_denied
      (validate_and_consume Bool request
        (text "b")
        3000
        (after ℤ Bool between (validate_and_consume Bool request (text "b") 2000 world).1)).0
    ≡ true
validate_and_consume-once_example =
    validate_and_consume-once ℤ Bool request request (text "b") (text "b") 2000 3000 between world
      (ground arith) (ground arith) (ground arith) refl refl accepted

abbrev open_handler : Service ℤ (Unit {0})
open_handler req w = (allow tt, w)

abbrev other_handler : Service ℤ (Unit {0})
other_handler req w = (allow tt, record w { faults = [] })

admin_route-Refused_example :
    Refused
      (admin_route true 2000 2000 open_handler request world)
      (admin_route true 2000 2000 other_handler request world)
admin_route-Refused_example =
    admin_route-Refused ℤ (Unit {0}) Bool true 2000 2000 open_handler other_handler request world

in_window_iff_example :
    (in_window 50000 (pos 80000) ≡ true) ↔ ((50000 ≤ 80000 + 30_000) × (80000 ≤ 50000 + 30_000))
in_window_iff_example = in_window_iff 50000 (pos 80000) (ground arith) (ground arith)

-- A timestamp 2^63 milliseconds before the time wraps around, and passes.
in_window_wraps : in_window 50000 (negsuc (2 ^ 63 - 50001)) ≡ true
unfolding in_window
in_window_wraps = refl

build_receipt-IsValid_example :
    let r = build_receipt to_vec true 100 10 (text "k") (pos 5) 3 4 nonce 500 30 in
    (verify_signature Bool (pubkey_hex true) (signable_bytes to_vec r) r.orchestrator_sig_hex
      ≡ Identity.ok tt)
    × ((is_valid_time r 31 ≡ true) ↔ ((30 ≤ 31) × (31 ≤ 30 + one_hour)))
build_receipt-IsValid_example =
    build_receipt-IsValid ℤ Bool to_vec true 100 10 (text "k") (pos 5) 3 4 nonce 500 30 31
