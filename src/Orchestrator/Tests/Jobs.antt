-- ===== src/Orchestrator/Tests/Jobs.antt =====
-- Examples of submitted jobs.
use decentralized_hive_mind.Prelude.{ℕ, ◌+◌, ◌≡◌, refl, [], Text, len}
use decentralized_hive_mind.Prelude.Int.{ℤ}
use decentralized_hive_mind.Common.Float64.Fixed.{fixed}
use decentralized_hive_mind.Common.Crypto.Sample.{sample_digest, sample}
use decentralized_hive_mind.Common.Identity.{pubkey_hex}
use decentralized_hive_mind.Orchestrator.Error.{ok}
use decentralized_hive_mind.Orchestrator.Auth.{is_hex64}
use decentralized_hive_mind.Orchestrator.Db.{actions}
use decentralized_hive_mind.Orchestrator.Routes.Jobs.{submit_job, seed, is_valid, subtask_plan}
use decentralized_hive_mind.Orchestrator.Routes.Jobs.Stored.{IsSubmitted, submit_job-IsSubmitted}
use decentralized_hive_mind.Prelude.Int.{ℤ}
use decentralized_hive_mind.Orchestrator.Tests.Fixtures.{setup, job_req, world}

abbrev task_ids : ℕ → ℕ
task_ids i = 200 + i

abbrev no_ids : ℕ → Text
no_ids i = []

submitted :
    (submit_job setup.pii setup.describe setup.pgp_sym_encrypt setup.signing_key_hex job_req 11
      task_ids no_ids 25 world).0
    ≡ ok 11
unfolding submit_job actions is_valid is_hex64 len pubkey_hex seed subtask_plan
submitted = refl

submit_job-IsSubmitted_example :
    IsSubmitted ℤ setup.pii setup.describe setup.pgp_sym_encrypt setup.signing_key_hex job_req 11
      task_ids no_ids 25 11
      (submit_job setup.pii setup.describe setup.pgp_sym_encrypt setup.signing_key_hex job_req 11
        task_ids no_ids 25 world).1.db
submit_job-IsSubmitted_example =
    submit_job-IsSubmitted ℤ setup.pii setup.describe setup.pgp_sym_encrypt setup.signing_key_hex
      job_req 11 task_ids no_ids 25 world 11 submitted
