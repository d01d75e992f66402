-- ===== src/NodeClient/Program/SameKey.antt =====
-- The key that the commands of node-client/src/main.rs run with.
use decentralized_hive_mind.Prelude.{
  ℕ, ◌≡◌, subst, sym, ap, ◌∙◌, Option, none, some, [], ◌∷◌, Text, text, arith, unwrap_or, inl, inr,
}
use decentralized_hive_mind.Common.Float64.{Float64}
use decentralized_hive_mind.Common.Crypto.{Digest, Ed25519}
use decentralized_hive_mind.Common.Types.{CreditReceipt, Uuid, DateTime}
use decentralized_hive_mind.Common.Identity.{IdentityError, to_hex}
use decentralized_hive_mind.NodeClient.Effect.{Outcome, ok, fail, panic, Effect, effects}
use decentralized_hive_mind.NodeClient.Disk.{
  File, parent, find_file, Disk, write, read_to_string, set_permissions, create_dir_all, join_dir,
}
use decentralized_hive_mind.NodeClient.Http.{Outside}
use decentralized_hive_mind.NodeClient.Config.{NodeConfig, from_env}
use decentralized_hive_mind.NodeClient.Terminal.{Session, say_all, outside}
use decentralized_hive_mind.NodeClient.Wallet.{load_or_create_key, new_store, total_credits}
use decentralized_hive_mind.NodeClient.Wallet.Keys.{
  load_or_create_key-again, load_or_create_key-find_file,
}
use decentralized_hive_mind.NodeClient.Wallet.Listing.{list_all_lem}
use decentralized_hive_mind.NodeClient.Commands.{cmd_register, cmd_start}
use decentralized_hive_mind.NodeClient.Commands.Jobs.{cmd_job_status, cmd_job_list, cmd_job_wait}
use decentralized_hive_mind.NodeClient.Commands.Submit.{cmd_job_submit}
use decentralized_hive_mind.NodeClient.Commands.Local.{wallet_show, wallet_receipts}
use decentralized_hive_mind.NodeClient.Program.{
  Program, Command, ProgramTools, register, start, show, receipts, list, submit, status, wait,
  on_disk, on_net, placed, ends, works, prepare, run,
}

-- The files are those of before, and no failure is to come.
abbrev IsSame : Disk → Disk → Type 0
IsSame d d' = (d'.files ≡ d.files) × (d'.fates ≡ [])

module _ (K : Type 0) ⦃dg : Digest⦄ ⦃c : Ed25519 K⦄ (show_error : IdentityError → Text)
    (trim : Text → Text) (drawn key : K) (path : Text) where
  load_or_create_key-IsSame :
      (d d' : Disk) (f : File)
      → find_file path d.files ≡ some f
      → d.fates ≡ []
      → IsSame d d'
      → (load_or_create_key show_error trim drawn path d).0 ≡ ok key
      → (load_or_create_key show_error trim drawn path d').0 ≡ ok key
  unfolding load_or_create_key effects read_to_string write set_permissions create_dir_all
  load_or_create_key-IsSame d d' f there calm same h = ground (arith, same.0, same.1)

IsSame-disk : (d d' : Disk) → d.fates ≡ [] → d' ≡ d → IsSame d d'
IsSame-disk d d' calm e = (ap (λ (x : Disk). x.files) e, ap (λ (x : Disk). x.fates) e ∙ calm)

module _ {E : Type 0} where
  on_net-disk :
      (m : Effect (Session E) (Unit {0})) (p p' : Program E) (r : Outcome (Unit {0}))
      → ends (on_net m) p ≡ some (r, p')
      → p'.disk ≡ p.disk
  on_net-disk m p p' r h = ground arith

  on_disk-disk :
      (m : Effect (Session Disk) (Unit {0})) (p p' : Program E) (r : Outcome (Unit {0}))
      → ends (on_disk m) p ≡ some (r, p')
      → p'.disk ≡ (m (record { outside = p.disk; printed = p.printed })).1.outside
  on_disk-disk m p p' r h = ground arith

  placed-disk :
      (o : Option (Outcome (Unit {0}) × Session E)) (p p' : Program E) (r : Outcome (Unit {0}))
      → placed o p ≡ some (r, p')
      → p'.disk ≡ p.disk
  placed-disk none p p' r h = cc
  placed-disk (some (a, s)) p p' r h = ground arith

  works-disk :
      (o : Outcome Text) (p p' : Program E) (r : Outcome (Unit {0}))
      → works (o, p) ≡ some (r, p')
      → p'.disk ≡ p.disk
  works-disk (ok a) p p' r h = cc
  works-disk (fail m) p p' r h = ground arith
  works-disk panic p p' r h = ground arith

module _ (F : Type 0) ⦃o : Float64 F⦄ (from_str : Text → Option (CreditReceipt F))
    (show_4 : F → Text) (show_uuid : Uuid → Text) (show_time : DateTime → Text)
    (config : NodeConfig) where
  receipts-IsSame :
      (s : Session Disk)
      → s.outside.fates ≡ []
      → IsSame s.outside (wallet_receipts from_str show_4 show_uuid show_time config s).1.outside
  unfolding wallet_receipts effects outside say_all create_dir_all new_store total_credits
  receipts-IsSame s calm =
      let wallet_dir = unwrap_or (parent config.wallet_path) (text ".") in
      let dir = join_dir wallet_dir (text "receipts") in
      let disk = record s.outside { dirs = dir ∷ s.outside.dirs } in
      elim (list_all_lem from_str dir disk calm) [
        | inl (_, (rs, listed, _)) ↦ ground (arith, listed)
        | inr (_, failed) ↦ ground (arith, failed)
      ]

module _ (E F K : Type 0) ⦃o : Float64 F⦄ ⦃out : Outside E⦄ ⦃d : Digest⦄ ⦃c : Ed25519 K⦄
    (tools : ProgramTools F) where
  run-IsSame :
      (turns : ℕ) (command : Command F) (config : NodeConfig) (key : K) (p p' : Program E)
      (r : Outcome (Unit {0}))
      → p.disk.fates ≡ []
      → run tools turns command (config, key) p ≡ some (r, p')
      → IsSame p.disk p'.disk
  unfolding run wallet_show say_all
  run-IsSame turns register config key p p' r calm h =
      IsSame-disk p.disk p'.disk calm
        (on_net-disk (cmd_register tools.commands config key) p p' r h)
  run-IsSame turns start config key p p' r calm h =
      let m = on_net (cmd_start tools.commands config key) p in
      IsSame-disk p.disk p'.disk calm (works-disk m.0 m.1 p' r h)
  run-IsSame turns show config key p p' r calm h =
      IsSame-disk p.disk p'.disk calm (on_disk-disk (wallet_show config key) p p' r h)
  run-IsSame turns receipts config key p p' r calm h =
      let m =
        wallet_receipts tools.receipt_from_str tools.commands.show_4 tools.show_uuid tools.show_time
          config in
      subst (IsSame p.disk) (sym (on_disk-disk m p p' r h)) (
        receipts-IsSame F tools.receipt_from_str tools.commands.show_4 tools.show_uuid
          tools.show_time config (record { outside = p.disk; printed = p.printed }) calm)
  run-IsSame turns (submit args) config key p p' r calm h =
      let s : Session E = record { outside = p.outside; printed = p.printed } in
      IsSame-disk p.disk p'.disk calm
        (placed-disk (cmd_job_submit tools.commands config key turns args s) p p' r h)
  run-IsSame turns (status id) config key p p' r calm h =
      IsSame-disk p.disk p'.disk calm
        (on_net-disk (cmd_job_status tools.commands config key id) p p' r h)
  run-IsSame turns list config key p p' r calm h =
      IsSame-disk p.disk p'.disk calm
        (on_net-disk (cmd_job_list tools.commands config key) p p' r h)
  run-IsSame turns (wait id interval) config key p p' r calm h =
      let s : Session E = record { outside = p.outside; printed = p.printed } in
      IsSame-disk p.disk p'.disk calm
        (placed-disk (cmd_job_wait tools.commands config key turns id interval s) p p' r h)

  prepare-loads :
      (var : Text → Option Text) (drawn : K) (config : NodeConfig) (key : K) (p p₁ : Program E)
      → prepare tools var drawn p ≡ (ok (config, key), p₁)
      → (from_env var ≡ ok config)
        × (load_or_create_key tools.show_error tools.trim drawn config.wallet_path p.disk
            ≡ (ok key, p₁.disk))
  unfolding prepare effects
  prepare-loads var drawn config key p p₁ h = ground arith

  loads-prepare :
      (var : Text → Option Text) (drawn : K) (config : NodeConfig) (key : K) (p : Program E)
      → from_env var ≡ ok config
      → (load_or_create_key tools.show_error tools.trim drawn config.wallet_path p.disk).0 ≡ ok key
      → (prepare tools var drawn p).0 ≡ ok (config, key)
  unfolding prepare effects
  loads-prepare var drawn config key p e h = ground (arith, e, h)

  -- Whatever command a node has run, if the disk does not fail then, the next command runs with the
  -- same configuration and the same key. The hexadecimal digits of a key have no space around them.
  pub prepare-same :
      (var : Text → Option Text) (drawn drawn' : K) (turns : ℕ) (command : Command F)
      (config : NodeConfig) (key : K) (p p₁ p₂ : Program E) (r : Outcome (Unit {0}))
      → tools.trim (to_hex drawn) ≡ to_hex drawn
      → prepare tools var drawn p ≡ (ok (config, key), p₁)
      → p₁.disk.fates ≡ []
      → run tools turns command (config, key) p₁ ≡ some (r, p₂)
      → (prepare tools var drawn' p₂).0 ≡ ok (config, key)
  prepare-same var drawn drawn' turns command config key p p₁ p₂ r trimmed h calm ran =
      let (configured, loaded) = prepare-loads var drawn config key p p₁ h in
      let (f, there) =
        load_or_create_key-find_file K tools.show_error tools.trim drawn key config.wallet_path
          p.disk p₁.disk loaded in
      let again =
        load_or_create_key-again K tools.show_error tools.trim drawn drawn' key config.wallet_path
          p.disk p₁.disk trimmed loaded calm in
      loads-prepare var drawn' config key p₂ configured (
        load_or_create_key-IsSame K tools.show_error tools.trim drawn' key config.wallet_path
          p₁.disk p₂.disk f there calm (run-IsSame turns command config key p₁ p₂ r calm ran)
          again.0)
