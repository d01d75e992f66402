-- ===== src/Common/Types.antt =====
-- common/src/types.rs: the domain types that the orchestrator and the node client share.
pub mod Dag
use decentralized_hive_mind.Prelude.{
  ℕ, ◌-◌, ◌^◌, ◌<◌, ◌≡◌, refl, Bool, false, true, ◌&&◌, Option, List, [], ◌∷◌, leb, ltb, Text,
  Bytes, text, text_eq, find, unwrap_or, if◌then◌else◌, arith,
}
use decentralized_hive_mind.Prelude.Int.{ℤ, pos, negsuc}
use decentralized_hive_mind.Common.Float64.{Float64}

-- `Uuid`, as its 128-bit value
abbrev pub Uuid : Type 0
Uuid = ℕ

-- `DateTime<Utc>`, in milliseconds since the epoch
abbrev pub DateTime : Type 0
DateTime = ℕ

pub data NodeTier : Type 0 where
  nano edge pro cluster : NodeTier

pub data AgentRole : Type 0 where
  planner researcher coder critic summarizer aggregator api_relay : AgentRole

-- `AgentRole::weight`
unfoldable pub weight : {F : Type 0} ⦃o : Float64 F⦄ → AgentRole → F
weight ⦃o⦄ planner = o.hundredths (pos 200)
weight ⦃o⦄ aggregator = o.hundredths (pos 200)
weight ⦃o⦄ coder = o.hundredths (pos 150)
weight ⦃o⦄ researcher = o.hundredths (pos 150)
weight ⦃o⦄ critic = o.hundredths (pos 120)
weight ⦃o⦄ summarizer = o.hundredths (pos 80)
weight ⦃o⦄ api_relay = o.hundredths (pos 100)

pub record NodeCapabilities : Type 0 where
  pub roles : List AgentRole
  pub models : List Text
  pub vram_mb : Option ℕ
  pub tier : NodeTier

pub data JobTier : Type 0 where
  standard paid premium : JobTier

pub data SubTaskStatus : Type 0 where
  pending dispatched running complete failed : SubTaskStatus

abbrev pub is_pending : SubTaskStatus → Bool
is_pending pending = true
is_pending _ = false

abbrev pub is_complete : SubTaskStatus → Bool
is_complete complete = true
is_complete _ = false

pub record SubTask : Type 0 where
  pub id : Uuid
  pub job_id : Uuid
  pub role : AgentRole
  pub prompt_shard : Text
  pub min_tier : NodeTier
  pub assigned_node_id : Option Uuid
  pub status : SubTaskStatus
  pub output : Option Text
  pub proof_hash_hex : Option Text
  pub tokens_in : Option ℕ
  pub tokens_out : Option ℕ
  pub created_at : DateTime
  pub completed_at : Option DateTime

pub record CreditReceipt (F : Type 0) : Type 0 where
  pub id : Uuid
  pub job_id : Uuid
  pub sub_task_id : Uuid
  pub node_pubkey_hex : Text
  pub credits : F
  pub tokens_in : ℕ
  pub tokens_out : ℕ
  pub nonce_hex : Text
  pub issued_at : DateTime
  pub expires_at : DateTime
  pub orchestrator_sig_hex : Text

-- `CreditReceipt::is_valid_time`, at the time `now`
unfoldable pub is_valid_time : {F : Type 0} → CreditReceipt F → DateTime → Bool
is_valid_time r now = leb r.issued_at now && leb now r.expires_at

-- The JSON object that `CreditReceipt::signable_bytes` serialises: all fields but the signature.
pub record ReceiptPayload (F : Type 0) : Type 0 where
  pub id : Uuid
  pub job_id : Uuid
  pub sub_task_id : Uuid
  pub node_pubkey_hex : Text
  pub credits : F
  pub tokens_in : ℕ
  pub tokens_out : ℕ
  pub nonce_hex : Text
  pub issued_at : DateTime
  pub expires_at : DateTime

-- `CreditReceipt::signable_bytes`; `to_vec` is `serde_json::to_vec`.
unfoldable pub signable_bytes : {F : Type 0} → (ReceiptPayload F → Bytes) → CreditReceipt F → Bytes
signable_bytes to_vec r = to_vec (record {
  id = r.id;
  job_id = r.job_id;
  sub_task_id = r.sub_task_id;
  node_pubkey_hex = r.node_pubkey_hex;
  credits = r.credits;
  tokens_in = r.tokens_in;
  tokens_out = r.tokens_out;
  nonce_hex = r.nonce_hex;
  issued_at = r.issued_at;
  expires_at = r.expires_at;
})

-- The name that `{:?}` and serde give a role or a tier.
unfoldable pub role_name : AgentRole → Text
role_name planner = text "Planner"
role_name researcher = text "Researcher"
role_name coder = text "Coder"
role_name critic = text "Critic"
role_name summarizer = text "Summarizer"
role_name aggregator = text "Aggregator"
role_name api_relay = text "ApiRelay"

unfoldable pub tier_name : NodeTier → Text
tier_name nano = text "Nano"
tier_name edge = text "Edge"
tier_name pro = text "Pro"
tier_name cluster = text "Cluster"

unfoldable pub job_tier_name : JobTier → Text
job_tier_name standard = text "Standard"
job_tier_name paid = text "Paid"
job_tier_name premium = text "Premium"

abbrev all_roles : List AgentRole
all_roles = planner ∷ researcher ∷ coder ∷ critic ∷ summarizer ∷ aggregator ∷ api_relay ∷ []

abbrev all_tiers : List NodeTier
all_tiers = nano ∷ edge ∷ pro ∷ cluster ∷ []

-- `serde_json::from_str(&format!("\"{}\"", name)).unwrap_or(AgentRole::Coder)`
unfoldable pub parse_role : Text → AgentRole
unfolding role_name
parse_role name = unwrap_or (find (λ r. text_eq (role_name r) name) all_roles) coder

-- The same with `NodeTier` and `NodeTier::Edge`
unfoldable pub parse_tier : Text → NodeTier
unfolding tier_name
parse_tier name = unwrap_or (find (λ t. text_eq (tier_name t) name) all_tiers) edge

-- `n as i32` of a `u32`, and `n as u32` of an `i32`: the same 32 bits.
abbrev pub as_i32 : ℕ → ℤ
as_i32 n = if ltb n (2 ^ 31) then pos n else negsuc (2 ^ 32 - n - 1)

abbrev pub as_u32 : ℤ → ℕ
as_u32 (pos n) = n
as_u32 (negsuc n) = 2 ^ 32 - 1 - n

-- A count that is stored in an INTEGER column is read back as it was.
as_u32-as_i32 : (n : ℕ) → n < 2 ^ 32 → as_u32 (as_i32 n) ≡ n
as_u32-as_i32 n h = ground arith

-- A role is read back as it was written.
parse_role-role_name : (r : AgentRole) → parse_role (role_name r) ≡ r
unfolding parse_role
parse_role-role_name planner = refl
parse_role-role_name researcher = refl
parse_role-role_name coder = refl
parse_role-role_name critic = refl
parse_role-role_name summarizer = refl
parse_role-role_name aggregator = refl
parse_role-role_name api_relay = refl

-- A tier is read back as it was written.
parse_tier-tier_name : (t : NodeTier) → parse_tier (tier_name t) ≡ t
unfolding parse_tier
parse_tier-tier_name nano = refl
parse_tier-tier_name edge = refl
parse_tier-tier_name pro = refl
parse_tier-tier_name cluster = refl
