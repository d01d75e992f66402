-- ===== src/NodeClient/Tests/Programs.antt =====
-- Two commands of one node.
use decentralized_hive_mind.Prelude.{
  ◌≡◌, refl, Bool, true, false, Option, none, some, [], ◌∷◌, Text, text, text_eq, if◌then◌else◌,
}
use decentralized_hive_mind.Prelude.Int.{ℤ}
use decentralized_hive_mind.Common.Float64.Fixed.{fixed}
use decentralized_hive_mind.Common.Crypto.Sample.{sample_digest, sample}
use decentralized_hive_mind.NodeClient.Effect.{ok, effects}
use decentralized_hive_mind.NodeClient.Disk.{create_dir_all, write, set_permissions}
use decentralized_hive_mind.NodeClient.Config.{NodeConfig, from_env}
use decentralized_hive_mind.NodeClient.Wallet.{load_or_create_key}
use decentralized_hive_mind.NodeClient.Commands.Local.{wallet_show}
use decentralized_hive_mind.NodeClient.Terminal.{say_all}
use decentralized_hive_mind.NodeClient.Program.{Program, ProgramTools, show, on_disk, prepare, run}
use decentralized_hive_mind.NodeClient.Program.SameKey.{prepare-same}
use decentralized_hive_mind.NodeClient.Tests.Store.{show_error, empty_disk, written_disk, key_path}
use decentralized_hive_mind.NodeClient.Tests.Worker.{Replies, replies}
use decentralized_hive_mind.NodeClient.Tests.Commands.{tools}

abbrev program_tools : ProgramTools ℤ
program_tools = record {
  commands = tools;
  show_error = show_error;
  trim = λ s. s;
  receipt_from_str = λ s. none;
  show_uuid = λ id. id ∷ [];
  show_time = λ t. t ∷ [];
}

abbrev var : Text → Option Text
var name =
    if text_eq name (text "ORCHESTRATOR_URL")
    then some (text "https://o")
    else if text_eq name (text "WALLET_PATH")
    then some key_path
    else none

abbrev config : NodeConfig
config = record {
  orchestrator_url = text "https://o";
  wallet_path = key_path;
  ca_cert_path = none;
  node_cert_path = none;
  node_key_path = none;
  model_id = text "llama3-8b";
  model_path = [];
  llama_server_url = text "http://127.0.0.1:8080";
  redis_url = none;
  node_tier = text "edge";
  solana_wallet = none;
}

abbrev fresh : Program Replies
fresh = record { disk = empty_disk; outside = []; printed = [] }

abbrev keyed : Program Replies
keyed = record fresh { disk = written_disk }

abbrev shown : Program Replies
shown = (on_disk (wallet_show config true) keyed).1

prepares : prepare program_tools var true fresh ≡ (ok (config, true), keyed)
unfolding prepare effects from_env load_or_create_key create_dir_all write set_permissions
prepares = refl

shows : run program_tools 5 show (config, true) keyed ≡ some (ok tt, shown)
unfolding run wallet_show say_all
shows = refl

prepare-same_example : (prepare program_tools var false shown).0 ≡ ok (config, true)
prepare-same_example =
    prepare-same Replies ℤ Bool program_tools var true false 5 show config true fresh keyed shown
      (ok tt) refl prepares refl shows
