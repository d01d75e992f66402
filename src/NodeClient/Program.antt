-- ===== src/NodeClient/Program.antt =====
-- `main` of node-client/src/main.rs: the configuration, the key, and the commands.
pub mod SameKey
use decentralized_hive_mind.Prelude.{ℕ, Option, none, some, List, Text, text}
use decentralized_hive_mind.Common.Float64.{Float64}
use decentralized_hive_mind.Common.Crypto.{Digest, Ed25519}
use decentralized_hive_mind.Common.Identity.{IdentityError}
use decentralized_hive_mind.Common.Types.{Uuid, DateTime, CreditReceipt}
use decentralized_hive_mind.NodeClient.Effect.{Outcome, ok, fail, panic, Effect, pure, lift, ◌>>=◌}
use decentralized_hive_mind.NodeClient.Disk.{Disk}
use decentralized_hive_mind.NodeClient.Http.{Outside}
use decentralized_hive_mind.NodeClient.Config.{NodeConfig, from_env}
use decentralized_hive_mind.NodeClient.Terminal.{Line, Session}
use decentralized_hive_mind.NodeClient.Wallet.{load_or_create_key}
use decentralized_hive_mind.NodeClient.Commands.{CommandTools, cmd_register, cmd_start}
use decentralized_hive_mind.NodeClient.Commands.Jobs.{cmd_job_status, cmd_job_list, cmd_job_wait}
use decentralized_hive_mind.NodeClient.Commands.Local.{
  Answers, cmd_setup, wallet_show, wallet_receipts,
}
use decentralized_hive_mind.NodeClient.Commands.Submit.{SubmitArgs, cmd_job_submit}

-- What a command runs in: the files, what is outside, and what has been printed.
pub record Program (E : Type 0) : Type 0 where
  pub disk : Disk
  pub outside : E
  pub printed : List Line

-- `Commands`, `WalletAction` and `JobAction`, but for `setup`, which needs no configuration. What the
-- terminal and the file of a prompt hold comes with `submit`.
pub data Command (F : Type 0) : Type 0 where
  register start show receipts list : Command F
  submit : SubmitArgs F → Command F
  status : Text → Command F
  wait : Text → ℕ → Command F

-- The libraries that are parameters.
pub record ProgramTools (F : Type 0) : Type 0 where
  pub commands : CommandTools F
  pub show_error : IdentityError → Text
  pub trim : Text → Text
  pub receipt_from_str : Text → Option (CreditReceipt F)
  pub show_uuid : Uuid → Text
  pub show_time : DateTime → Text

-- `result.context(message)`
abbrev with_context : {A : Type 0} → Outcome A → Text → Outcome A
with_context (ok a) message = ok a
with_context (fail _) message = fail message
with_context panic message = panic

-- A command that ends, and one that may go on.
abbrev Run : Type 0 → Type 0
Run E = Program E → Option (Outcome (Unit {0}) × Program E)

module _ {E : Type 0} where
  abbrev pub on_disk : {A : Type 0} → Effect (Session Disk) A → Effect (Program E) A
  on_disk m p =
      let (r, s) = m (record { outside = p.disk; printed = p.printed }) in
      (r, record p { disk = s.outside; printed = s.printed })

  abbrev pub on_net : {A : Type 0} → Effect (Session E) A → Effect (Program E) A
  on_net m p =
      let (r, s) = m (record { outside = p.outside; printed = p.printed }) in
      (r, record p { outside = s.outside; printed = s.printed })

  abbrev pub placed :
      Option (Outcome (Unit {0}) × Session E) → Program E → Option (Outcome (Unit {0}) × Program E)
  placed none p = none
  placed (some (r, s)) p = some (r, record p { outside = s.outside; printed = s.printed })

  abbrev pub ends : Effect (Program E) (Unit {0}) → Run E
  ends m p = some (m p)

  -- The loop of a worker goes on after the preparations.
  abbrev pub works : Outcome Text × Program E → Option (Outcome (Unit {0}) × Program E)
  works (ok _, p) = none
  works (fail m, p) = some (fail m, p)
  works (panic, p) = some (panic, p)

abbrev load :
    {F K : Type 0} ⦃d : Digest⦄ ⦃c : Ed25519 K⦄ → ProgramTools F → K → Text → Effect Disk K
load tools drawn path disk =
    let (r, disk') = load_or_create_key tools.show_error tools.trim drawn path disk in
    (with_context r (text "failed to load wallet key"), disk')

module _ {E F K : Type 0} ⦃o : Float64 F⦄ ⦃out : Outside E⦄ ⦃d : Digest⦄ ⦃c : Ed25519 K⦄
    (tools : ProgramTools F) where
  -- The configuration and the key; `var` is `env::var`.
  unfoldable pub prepare : (Text → Option Text) → K → Effect (Program E) (NodeConfig × K)
  prepare var drawn = do
    config ← lift (
        with_context (from_env var)
          (text "failed to load config — run `node-client setup` to configure"))
    key ← λ p.
        let (r, disk) = load tools drawn config.wallet_path p.disk in (r, record p { disk = disk })
    pure (config, key)

  unfoldable pub run : ℕ → Command F → NodeConfig × K → Run E
  run turns register (config, key) p = ends (on_net (cmd_register tools.commands config key)) p
  run turns start (config, key) p = works (on_net (cmd_start tools.commands config key) p)
  run turns show (config, key) p = ends (on_disk (wallet_show config key)) p
  run turns receipts (config, key) p =
      ends
        (on_disk (
          wallet_receipts tools.receipt_from_str tools.commands.show_4 tools.show_uuid
            tools.show_time config))
        p
  run turns (submit args) (config, key) p =
      placed
        (cmd_job_submit tools.commands config key turns args
          (record { outside = p.outside; printed = p.printed }))
        p
  run turns (status id) (config, key) p =
      ends (on_net (cmd_job_status tools.commands config key id)) p
  run turns list (config, key) p = ends (on_net (cmd_job_list tools.commands config key)) p
  run turns (wait id interval) (config, key) p =
      placed
        (cmd_job_wait tools.commands config key turns id interval
          (record { outside = p.outside; printed = p.printed }))
        p

  abbrev prepared :
      ℕ → Command F → Outcome (NodeConfig × K) × Program E → Option (Outcome (Unit {0}) × Program E)
  prepared turns command (ok loaded, p) = run turns command loaded p
  prepared turns command (fail m, p) = some (fail m, p)
  prepared turns command (panic, p) = some (panic, p)

  -- `main`: `none` is the command `setup`.
  unfoldable main : (Text → Option Text) → K → ℕ → Answers → Option (Command F) → Run E
  main var drawn turns answers none p = ends (on_disk (cmd_setup answers)) p
  main var drawn turns answers (some command) p = prepared turns command (prepare var drawn p)
