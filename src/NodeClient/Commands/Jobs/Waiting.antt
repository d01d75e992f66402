-- ===== src/NodeClient/Commands/Jobs/Waiting.antt =====
-- The loop of `job wait` in node-client/src/main.rs: when it ends, and with what.
use decentralized_hive_mind.Prelude.{
  ℕ, zero, suc, ltb, ◌<◌, ◌≤◌, ◌⊎◌, ◌≡◌, refl, true, false, none, some, Text, arith, inl, inr,
  Bool-cases,
}
use decentralized_hive_mind.Common.Crypto.{Digest, Ed25519}
use decentralized_hive_mind.NodeClient.Config.{NodeConfig}
use decentralized_hive_mind.NodeClient.Effect.{ok}
use decentralized_hive_mind.NodeClient.Http.{Outside}
use decentralized_hive_mind.NodeClient.Terminal.{Session, short}
use decentralized_hive_mind.NodeClient.Commands.{JobReply, CommandTools}
use decentralized_hive_mind.NodeClient.Commands.Jobs.{
  is_terminal, status_of, poll, finish, turn, wait_loop, cmd_job_wait,
}

module _ (E F : Type 0) ⦃out : Outside E⦄ (tools : CommandTools F) (config : NodeConfig)
    (K : Type 0) ⦃d : Digest⦄ ⦃c : Ed25519 K⦄ (signing_key : K) (interval_secs : ℕ)
    (job_id : Text) where
  -- A number of polls, each of which is answered with a status that is not the last.
  pub data Waits : ℕ → Session E → Session E → Type 0 where
    at_once : (s : Session E) → Waits zero s s
    once_more :
        {n : ℕ} {s s₁ s₂ : Session E} (val : JobReply F)
        → poll tools config signing_key interval_secs job_id s ≡ (ok val, s₁)
        → is_terminal (status_of val) ≡ false
        → Waits n s₁ s₂
        → Waits (suc n) s s₂

  wait_loop_ends :
      (turns : ℕ) (short_id : Text) (start : ℕ) (s'' : Session E) (val : JobReply F) {n : ℕ}
      {s s' : Session E}
      → Waits n s s'
      → poll tools config signing_key interval_secs job_id s' ≡ (ok val, s'')
      → is_terminal (status_of val) ≡ true
      → n < turns
      → wait_loop tools config signing_key turns short_id start interval_secs job_id s
        ≡ some (finish tools config signing_key short_id start val s'')
  unfolding wait_loop
  wait_loop_ends zero short_id start s'' val w p t l = absurd (omega arith)
  wait_loop_ends (suc turns) short_id start s'' val (at_once s) p t l = rw (p, turn) (rw t refl)
  wait_loop_ends (suc turns) short_id start s'' val (once_more earlier q f w) p t l =
      rw (q, turn) (rw f (wait_loop_ends turns short_id start s'' val w p t (omega arith)))

  wait_loop_goes_on :
      (turns : ℕ) (short_id : Text) (start : ℕ) {n : ℕ} {s s' : Session E}
      → Waits n s s'
      → turns ≤ n
      → wait_loop tools config signing_key turns short_id start interval_secs job_id s ≡ none
  unfolding wait_loop
  wait_loop_goes_on zero short_id start w l = refl
  wait_loop_goes_on (suc turns) short_id start (at_once s) l = absurd (omega arith)
  wait_loop_goes_on (suc turns) short_id start (once_more earlier q f w) l =
      rw (q, turn) (rw f (wait_loop_goes_on turns short_id start w (omega arith)))

  -- If a number of polls are answered with statuses that are not the last, and the poll after them
  -- with a last status, then `job wait` ends with that poll and prints its status; it has not ended
  -- after any smaller number of turns. The first eight bytes of the job's id end with a character.
  pub cmd_job_wait_ends :
      (n turns : ℕ) (s s' s'' : Session E) (val : JobReply F) (short_id : Text)
      → short 8 job_id ≡ some short_id
      → Waits n s s'
      → poll tools config signing_key interval_secs job_id s' ≡ (ok val, s'')
      → is_terminal (status_of val) ≡ true
      → ((n < turns)
          × (cmd_job_wait tools config signing_key turns job_id interval_secs s
              ≡ some (finish tools config signing_key short_id (out.instant s.outside) val s'')))
        ⊎ ((turns ≤ n)
            × (cmd_job_wait tools config signing_key turns job_id interval_secs s ≡ none))
  unfolding cmd_job_wait
  cmd_job_wait_ends n turns s s' s'' val short_id e w p t =
      let start = out.instant s.outside in
      elim (Bool-cases (ltb n turns)) [
        | inl more ↦
            let enough : n < turns = ground arith in
            inl (enough, ground (arith, wait_loop_ends turns short_id start s'' val w p t enough))
        | inr less ↦
            let few : turns ≤ n = ground arith in
            inr (few, ground (arith, wait_loop_goes_on turns short_id start w few))
      ]
