-- ===== src/NodeClient/Commands/Submit/Answered.antt =====
-- The request of `job submit` in node-client/src/main.rs on its way through the router of
-- orchestrator/src/main.rs.
use decentralized_hive_mind.Prelude.{
  ◌+◌, ◌≡◌, ◌<◌, ◌≤◌, ◌^◌, refl, false, some, [], ◌∷◌, length, Text, text, as_bytes, Bytes,
}
use decentralized_hive_mind.Common.Float64.{Float64}
use decentralized_hive_mind.Common.Crypto.{IsBytes, Digest, Ed25519}
use decentralized_hive_mind.Common.Types.{JobTier, Uuid, DateTime}
use decentralized_hive_mind.Orchestrator.Error.{AppResult, ok, err, database, into_response}
use decentralized_hive_mind.Orchestrator.Db.{World}
use decentralized_hive_mind.Orchestrator.Auth.{
  Request, Outcome, allow, deny, has_nonce, max_clock_skew_ms, body_limit,
}
use decentralized_hive_mind.Orchestrator.Service.{Setup}
use decentralized_hive_mind.Orchestrator.Router.{
  Reply, submitted, Extract, Draws, post, submit, answer, handle, app,
}
use decentralized_hive_mind.Orchestrator.Routes.Jobs.{submit_job}
use decentralized_hive_mind.NodeClient.Effect as Effect
use decentralized_hive_mind.NodeClient.Http.{Outside}
use decentralized_hive_mind.NodeClient.Config.{NodeConfig}
use decentralized_hive_mind.NodeClient.Terminal.{Session}
use decentralized_hive_mind.NodeClient.Signing.{signed}
use decentralized_hive_mind.NodeClient.Signing.Served.{with_nonce, app-signed}
use decentralized_hive_mind.NodeClient.Commands.{CommandTools}
use decentralized_hive_mind.NodeClient.Commands.Submit.{SubmitArgs, job_request, read_args}
use decentralized_hive_mind.NodeClient.Commands.Submit.Admitted.{
  IsServed, IsWithin, job_request-IsServed,
}

-- The id of the job that is stored, or the response to a failure of the database.
abbrev pub IsAnswered : {F : Type 0} → Outcome (Reply F) → Type 0
IsAnswered (allow r) = (id : Uuid) × (r ≡ submitted id)
IsAnswered (deny r) = (message : Text) × (r ≡ into_response (database message))

answer-IsAnswered :
    {F : Type 0} (r : AppResult Uuid × World F) → IsServed r.0 → IsAnswered (answer submitted r).0
answer-IsAnswered (ok id, w) h = (id, refl)
answer-IsAnswered (err e, w) h = let (message, same) = h in rw same (message, refl)

module _ (E F K : Type 0) ⦃o : Float64 F⦄ ⦃out : Outside E⦄ ⦃d : Digest⦄ ⦃c : Ed25519 K⦄
    (tools : CommandTools F) (config : NodeConfig) (signing_key : K) (args : SubmitArgs F)
    (prompt : Text) (tier : JobTier) (setup : Setup F K) (extract : Extract F) (draws : Draws)
    (reads : (r : Request)
      → r.header (text "Content-Type") ≡ some (text "application/json")
      → r.body ≡ some (as_bytes (tools.submit_to_string (job_request signing_key args prompt tier)))
      → extract.submit_from r ≡ allow (job_request signing_key args prompt tier)) where
  handle-IsAnswered :
      (s s' : Session E) (random : Bytes) (sent : DateTime) (w : World F)
      → read_args tools config signing_key args s ≡ (Effect.ok (prompt, tier), s')
      → length prompt ≤ 32768
      → IsWithin args
      → let body = as_bytes (tools.submit_to_string (job_request signing_key args prompt tier)) in
        IsAnswered (handle setup extract draws submit (signed signing_key body random sent) w).0
  unfolding handle signed
  handle-IsAnswered s s' random sent w read size within =
      let body = as_bytes (tools.submit_to_string (job_request signing_key args prompt tier)) in
      let req = job_request signing_key args prompt tier in
      let served =
        job_request-IsServed E F K tools config signing_key args prompt tier setup.pii
          setup.describe setup.pgp_sym_encrypt setup.signing_key_hex s s' draws.new_id
          draws.task_ids draws.new_v4 draws.now w read size within in
      rw (reads (signed signing_key body random sent) refl refl) (
        answer-IsAnswered
          (submit_job setup.pii setup.describe setup.pgp_sym_encrypt setup.signing_key_hex req
            draws.new_id draws.task_ids draws.new_v4 draws.now w)
          served)

  -- The request of `job submit`, signed with 32 random bytes and with its content type, is answered
  -- with the id of the job or with a failure of the database, never refused, if the prompt has at most
  -- 32768 characters, the options are within the limits, the body has at most 64 KiB, the orchestrator
  -- reads JSON as the client writes it, the two clocks differ by at most 30 seconds, the nonce is
  -- unused, and no call of the database is to fail.
  pub app-IsAnswered :
      (s s' : Session E) (admin_key : K) (random : Bytes) (sent : DateTime) (w : World F)
      → read_args tools config signing_key args s ≡ (Effect.ok (prompt, tier), s')
      → length prompt ≤ 32768
      → IsWithin args
      → IsBytes random
      → length random ≡ 32
      → sent < 2 ^ 63
      → draws.outer + max_clock_skew_ms < 2 ^ 63
      → draws.outer ≤ sent + max_clock_skew_ms
      → sent ≤ draws.outer + max_clock_skew_ms
      → length (as_bytes (tools.submit_to_string (job_request signing_key args prompt tier)))
        ≤ body_limit
      → has_nonce (d.hex_encode random) w.db ≡ false
      → w.faults ≡ []
      → let body = as_bytes (tools.submit_to_string (job_request signing_key args prompt tier)) in
        IsAnswered
          (app setup extract draws admin_key post
            (text "jobs" ∷ text "submit" ∷ [])
            (signed signing_key body random sent)
            w).0
  app-IsAnswered s s' admin_key random sent w read size within bytes long below n late early small
        fresh calm =
      let body = as_bytes (tools.submit_to_string (job_request signing_key args prompt tier)) in
      let reached =
        app-signed F K setup extract draws admin_key post w signing_key body random sent
          (text "jobs" ∷ text "submit" ∷ []) submit refl refl bytes long below n late early small
          fresh calm in
      rw reached (
        handle-IsAnswered s s' random sent (with_nonce (d.hex_encode random) draws.outer w) read
          size within)
