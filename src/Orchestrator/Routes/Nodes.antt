-- ===== src/Orchestrator/Routes/Nodes.antt =====
-- orchestrator/src/routes/nodes.rs and orchestrator/src/routes/admin.rs: nodes register, report that
-- they are alive, and are banned.
pub mod Bans
use decentralized_hive_mind.Prelude.{
  ℕ, ◌+◌, ◌*◌, Bool, true, false, not, ◌&&◌, ◌||◌, Option, none, some, List, [], ◌∷◌, ◌++◌, map,
  filter, find, any, take, length, Text, text, text_eq, len, is_some, ltb, ◌==◌, if◌then◌else◌,
}
use decentralized_hive_mind.Prelude.Int.{ℤ, negsuc, pos}
use decentralized_hive_mind.Common.Float64.{Float64, lt}
use decentralized_hive_mind.Common.Crypto.{Digest}
use decentralized_hive_mind.Common.Types.{Uuid, DateTime, NodeCapabilities, tier_name}
use decentralized_hive_mind.Orchestrator.Error.{not_found, bad_request}
use decentralized_hive_mind.Orchestrator.Db.{
  NodeRow, ban, Db, Action, pure, ◌>>=◌, ◌>>◌, guard, sql, query, execute,
}
use decentralized_hive_mind.Orchestrator.Db.Rows.{insert_event}
use decentralized_hive_mind.Orchestrator.TaskManager.Finish.{event}
use decentralized_hive_mind.Orchestrator.Auth.{is_hex64}

pub record RegisterRequest : Type 0 where
  pub pubkey_hex : Text
  pub capabilities : NodeCapabilities

pub record BanRequest : Type 0 where
  pub node_id : Uuid
  pub reason : Text
  pub ban_expires_at : Option DateTime

-- The part of the upsert for a key that is there.
abbrev pub renew : {F : Type 0} → RegisterRequest → DateTime → NodeRow F → NodeRow F
renew req now n = record n {
  capabilities = req.capabilities;
  tier = tier_name req.capabilities.tier;
  last_seen_at = now;
}

-- `UPDATE nodes SET .. WHERE ..`, with the number of rows that it changes
abbrev update_nodes :
    {F : Type 0} → (NodeRow F → Bool) → (NodeRow F → NodeRow F) → Db F → Option (ℕ × Db F)
update_nodes p f db =
    some
      (length (filter p db.nodes), record db { nodes = map (λ n. if p n then f n else n) db.nodes })

module _ {F : Type 0} where
  abbrev pub has_key : Text → NodeRow F → Bool
  has_key key n = text_eq n.pubkey_hex key

  abbrev renewed : RegisterRequest → DateTime → List (NodeRow F) → List (NodeRow F)
  renewed req now = map (λ n. if has_key req.pubkey_hex n then renew req now n else n)

module _ {F : Type 0} ⦃o : Float64 F⦄ where
  -- The row that the table's defaults make of a new key; the id is random.
  abbrev pub new_node : RegisterRequest → Uuid → DateTime → NodeRow F
  new_node req id now = record {
    id = id;
    pubkey_hex = req.pubkey_hex;
    capabilities = req.capabilities;
    tier = tier_name req.capabilities.tier;
    reputation_score = o.hundredths (pos 50);
    jobs_completed = 0;
    is_banned = false;
    ban_reason = none;
    ban_expires_at = none;
    registered_at = now;
    last_seen_at = now;
  }

  abbrev pub upsert_row :
      Option (NodeRow F) → RegisterRequest → Uuid → DateTime → Db F → Option (Uuid × Db F)
  upsert_row (some n) req id now db = some (n.id, record db { nodes = renewed req now db.nodes })
  upsert_row none req id now db =
      if any (λ (n : NodeRow F). n.id == id) db.nodes
      then none
      else some (id, record db { nodes = db.nodes ++ new_node req id now ∷ [] })

  -- `INSERT .. ON CONFLICT (pubkey_hex) DO UPDATE .. RETURNING id`; the new id is a primary key.
  unfoldable pub upsert : RegisterRequest → Uuid → DateTime → Db F → Option (Uuid × Db F)
  upsert req id now db = upsert_row (find (has_key req.pubkey_hex) db.nodes) req id now db

  unfoldable pub register_node : ⦃d : Digest⦄ → RegisterRequest → Uuid → DateTime → Action F Uuid
  register_node req id now = do
    guard (is_hex64 req.pubkey_hex) (bad_request (text "invalid pubkey_hex"))
    sql (upsert req id now)

  unfoldable pub heartbeat : Uuid → DateTime → Action F (Unit {0})
  heartbeat id now = do
    rows ←
        sql
          (update_nodes (λ n. n.id == id && not n.is_banned) (λ n. record n { last_seen_at = now }))
    guard (not (rows == 0)) not_found

  abbrev pub banned : BanRequest → NodeRow F → NodeRow F
  banned req n = record n {
    is_banned = true;
    ban_reason = some (req.reason);
    ban_expires_at = req.ban_expires_at;
  }

  -- `str::trim` is a parameter: it reads the Unicode tables.
  unfoldable pub ban_node : (Text → Text) → BanRequest → DateTime → Action F (Unit {0})
  ban_node trim req now = do
    guard (not (length (trim req.reason) == 0)) (bad_request (text "ban reason is required"))
    rows ← sql (update_nodes (λ n. n.id == req.node_id) (banned req))
    guard (not (rows == 0)) not_found
    sql (insert_event (event ban (negsuc 99) req.node_id req.reason now))

  abbrev unbanned : NodeRow F → NodeRow F
  unbanned n = record n { is_banned = false; ban_reason = none; ban_expires_at = none }

  unfoldable pub unban_node : Uuid → Action F (Unit {0})
  unban_node id = do rows ← sql (update_nodes (λ n. n.id == id) unbanned); pure tt
