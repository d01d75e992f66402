-- ===== src/NodeClient/Config.antt =====
-- node-client/src/config.rs: the configuration that the environment gives.
use decentralized_hive_mind.Prelude.{Option, none, some, ◌++◌, Text, text, unwrap_or, []}
use decentralized_hive_mind.NodeClient.Effect.{Outcome, ok, fail}

pub record NodeConfig : Type 0 where
  pub orchestrator_url : Text
  pub wallet_path : Text
  pub ca_cert_path : Option Text
  pub node_cert_path : Option Text
  pub node_key_path : Option Text
  pub model_id : Text
  pub model_path : Text
  pub llama_server_url : Text
  pub redis_url : Option Text
  pub node_tier : Text
  pub solana_wallet : Option Text

abbrev configured : (Text → Option Text) → Text → NodeConfig
configured var url =
    let home = unwrap_or (var (text "HOME")) (text "/root") in
    record {
      orchestrator_url = url;
      wallet_path = unwrap_or (var (text "WALLET_PATH")) (home ++ text "/.node-client/wallet.key");
      ca_cert_path = var (text "CA_CERT_PATH");
      node_cert_path = var (text "NODE_CERT_PATH");
      node_key_path = var (text "NODE_KEY_PATH");
      model_id = unwrap_or (var (text "MODEL_ID")) (text "llama3-8b");
      model_path = unwrap_or (var (text "MODEL_PATH")) [];
      llama_server_url = unwrap_or (var (text "LLAMA_SERVER_URL")) (text "http://127.0.0.1:8080");
      redis_url = var (text "REDIS_URL");
      node_tier = unwrap_or (var (text "NODE_TIER")) (text "edge");
      solana_wallet = var (text "SOLANA_WALLET");
    }

abbrev configured_at : (Text → Option Text) → Option Text → Outcome NodeConfig
configured_at var none = fail (text "ORCHESTRATOR_URL is required")
configured_at var (some url) = ok (configured var url)

-- `NodeConfig::from_env`; `var` is `env::var`.
unfoldable pub from_env : (Text → Option Text) → Outcome NodeConfig
from_env var = configured_at var (var (text "ORCHESTRATOR_URL"))
