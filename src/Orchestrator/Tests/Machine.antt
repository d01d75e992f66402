-- ===== src/Orchestrator/Tests/Machine.antt =====
-- Examples of listings, of complete jobs, and of limits.
use decentralized_hive_mind.Prelude.{
  ℕ, ◌+◌, ◌≡◌, refl, inl, true, false, none, some, List, [], ◌∷◌, map, In, All, IsTop, Text, Option,
  text, text_eq, len, ltb, ◌-◌, if◌then◌else◌, arith,
}
use decentralized_hive_mind.Prelude.Decimal.{show_ℕ}
use decentralized_hive_mind.Prelude.Int.{ℤ, pos}
use decentralized_hive_mind.Common.Float64.Fixed.{fixed}
use decentralized_hive_mind.Common.Crypto.Sample.{sample_digest, sample}
use decentralized_hive_mind.Common.Identity.{pubkey_hex}
use decentralized_hive_mind.Common.Types.{complete}
use decentralized_hive_mind.Orchestrator.Auth.{is_hex64}
use decentralized_hive_mind.Orchestrator.Error.{ok, respond}
use decentralized_hive_mind.Orchestrator.Db.{JobRow, job_complete, World, actions}
use decentralized_hive_mind.Orchestrator.Invariant.{Inv}
use decentralized_hive_mind.Orchestrator.RateLimit.{
  Limiter, keyed_limiter, job_submit_limiter, passed, refused,
}
use decentralized_hive_mind.Orchestrator.Routes.Listings.{
  list_jobs, job_response, newer, submitted_by,
}
use decentralized_hive_mind.Orchestrator.Routes.Listings.Selected.{list_jobs-IsTop}
use decentralized_hive_mind.Orchestrator.Service.{
  result, tick, job_request, unban_request, serve_all,
}
use decentralized_hive_mind.Orchestrator.Service.Settled.{serve_all-In}
use decentralized_hive_mind.Orchestrator.Service.Unfailed.{IsUnfailed, serve_all-IsUnfailed}
use decentralized_hive_mind.Orchestrator.Tests.Fixtures.{
  db-Inv, setup, job_req, node_key, job, first_task, second_task, db, world, req, nonce,
}

abbrev newer_job : JobRow ℤ
newer_job = record job { id = 12; created_at = 8 }

abbrev other_job : JobRow ℤ
other_job = record job { id = 13; submitter_pubkey_hex = []; created_at = 9 }

abbrev busy : World ℤ
busy = record world { db = record db { jobs = job ∷ newer_job ∷ other_job ∷ [] } }

listed : (list_jobs (some node_key) busy).0 ≡ ok (map job_response (newer_job ∷ job ∷ []))
unfolding list_jobs actions is_hex64 pubkey_hex len
listed = refl

list_jobs-IsTop_example :
    (key : List ℕ) × (rows : List (JobRow ℤ)) × (some node_key ≡ some key)
    × (is_hex64 key ≡ true)
    × (map job_response (newer_job ∷ job ∷ []) ≡ map job_response rows)
    × IsTop newer 50 (submitted_by key) busy.db.jobs rows
    × ((list_jobs (some node_key) busy).1.db ≡ busy.db)
list_jobs-IsTop_example =
    list_jobs-IsTop (some node_key) busy (map job_response (newer_job ∷ job ∷ [])) listed

abbrev settled_job : JobRow ℤ
settled_job = record job {
  status = job_complete;
  total_cost_credits = some (pos 7);
  completed_at = some 9;
}

-- Both tasks of the job are complete.
abbrev finished : World ℤ
finished = record world {
  db = record db {
    jobs = settled_job ∷ [];
    sub_tasks =
        record first_task { status = complete } ∷ record second_task { status = complete } ∷ [];
  };
}

finished-Inv : Inv finished.db
finished-Inv = record {
  keyed = λ t u mt mu e. ground arith;
  owned = λ t mt. (settled_job, inl refl, ground arith);
  rooted = λ r mr. absurd mr;
  ordered = λ t u mt mu d j p. ground arith;
  sound = λ j t mj mt e k. ground arith;
  capped = λ t mt. ground arith;
  paid = λ r t mr mt e. absurd mr;
  once = λ r s mr ms e. absurd mr;
}

serve_all-In_example :
    In settled_job
      (serve_all setup
        (tick (λ i. false) 20 0
          ∷ job_request job_req 11 (λ i. 200 + i) (λ i. []) 25
          ∷ result 100 req 500 nonce 30
          ∷ unban_request 1
          ∷ [])
        finished).db.jobs
serve_all-In_example =
    serve_all-In ℤ _ setup settled_job refl
      (tick (λ i. false) 20 0
        ∷ job_request job_req 11 (λ i. 200 + i) (λ i. []) 25
        ∷ result 100 req 500 nonce 30
        ∷ unban_request 1
        ∷ [])
      finished finished-Inv (inl refl)

serve_all-IsUnfailed_example :
    All IsUnfailed
      (serve_all setup (tick (λ i. false) 20 0 ∷ result 100 req 500 nonce 30 ∷ []) world).db.jobs
serve_all-IsUnfailed_example =
    serve_all-IsUnfailed ℤ _ setup (tick (λ i. false) 20 0 ∷ result 100 req 500 nonce 30 ∷ []) world
      db-Inv (inl refl, tt)

-- A limiter: its period, and when each key was last let through.
abbrev Gate : Type 0
Gate = ℕ × (Text → Option ℕ)

abbrev pass : Text → ℕ → Gate → Option ℕ × Gate
pass key now (period, last) = (none, (period, λ k. if text_eq k key then some now else last k))

abbrev check_at : Option ℕ → Text → ℕ → Gate → Option ℕ × Gate
check_at none key now gate = pass key now gate
check_at (some t) key now gate =
    if ltb now (t + gate.0) then (some (t + gate.0 - now), gate) else pass key now gate

abbrev check : Text → ℕ → Gate → Option ℕ × Gate
check key now gate = check_at (gate.1 key) key now gate

check-period : (key : Text) (now : ℕ) (gate : Gate) → (check key now gate).1.0 ≡ gate.0
check-period key now (period, last) = ground arith

instance abbrev gate_limiter : Limiter Gate
gate_limiter = record {
  with_period = λ p. (p, λ key. none);
  check_key = check;
  period_of = λ gate. gate.0;
  period-with_period = λ p. refl;
  period-check_key = check-period;
}

abbrev ten_a_minute : Gate
ten_a_minute = (6_000_000_000, λ key. none)

built : keyed_limiter 10 60_000_000_000 ≡ some ten_a_minute
unfolding keyed_limiter
built = refl

first_passes : (job_submit_limiter (some node_key) 0 ten_a_minute).0 ≡ passed
unfolding job_submit_limiter pubkey_hex
first_passes = refl

then_refused :
    (job_submit_limiter
      (some node_key)
      2_000_000_000
      (job_submit_limiter (some node_key) 0 ten_a_minute).1).0
    ≡ refused (respond 429 (text "rate limited")) (some (show_ℕ 4))
unfolding job_submit_limiter pubkey_hex
then_refused = refl

other_passes :
    (job_submit_limiter none 2_000_000_000 (job_submit_limiter (some node_key) 0 ten_a_minute).1).0
    ≡ passed
unfolding job_submit_limiter pubkey_hex
other_passes = refl
