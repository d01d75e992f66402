-- ===== src/Orchestrator/Routes/Nodes/Bans.antt =====
-- What the statements of orchestrator/src/routes/nodes.rs, of orchestrator/src/routes/admin.rs and
-- of the housekeeping do to a banned node.
use decentralized_hive_mind.Prelude.{
  ◌≡◌, refl, inl, inr, Bool, true, false, not, ◌&&◌, ◌||◌, Option, none, some, List, [], ◌∷◌, ◌++◌,
  map, find, any, all, Text, text_eq, text_eq_sound, arith, Bool-cases, if◌then◌else◌, ◌==◌,
}
use decentralized_hive_mind.Common.Float64.{Float64}
use decentralized_hive_mind.Common.Crypto.{Digest}
use decentralized_hive_mind.Common.Types.{Uuid, DateTime}
use decentralized_hive_mind.Orchestrator.Db.{NodeRow, Db}
use decentralized_hive_mind.Orchestrator.Db.Rows.{has_node}
use decentralized_hive_mind.Orchestrator.Db.Contracts.{
  Contract, Promises, sql_rule, guard_rule, bind_rule, Promises-if, Promises-unless,
}
use decentralized_hive_mind.Orchestrator.TaskManager.Housekeeping.{
  rescore, recompute_reputation_scores, cleanup_expired_nonces,
}
use decentralized_hive_mind.Orchestrator.Routes.Nodes.{
  RegisterRequest, BanRequest, renew, new_node, has_key, upsert_row, upsert, register_node,
  heartbeat, ban_node, banned,
}

module _ {F : Type 0} where
  -- A row with the key is there.
  abbrev known : Text → List (NodeRow F) → Bool
  known key = any (λ n. text_eq n.pubkey_hex key)

  -- The rows with the key are banned.
  abbrev barred : Text → List (NodeRow F) → Bool
  barred key = all (λ n. not (text_eq n.pubkey_hex key) || n.is_banned)

  pub record IsBanned (key : Text) (nodes : List (NodeRow F)) : Type 0 where
    pub is_known : known key nodes ≡ true
    pub is_barred : barred key nodes ≡ true

  -- A change of a row that leaves its key, and a ban.
  abbrev KeepsBan : (NodeRow F → NodeRow F) → Type 0
  KeepsBan f =
      (n : NodeRow F)
      → ((f n).pubkey_hex ≡ n.pubkey_hex) × (n.is_banned ≡ true → (f n).is_banned ≡ true)

  known-map :
      (key : Text) (f : NodeRow F → NodeRow F) (nodes : List (NodeRow F))
      → KeepsBan f
      → known key nodes ≡ true
      → known key (map f nodes) ≡ true
  known-map key f [] k h = h
  known-map key f (n ∷ nodes) k h = let same = (k n).0 in ground (arith, known-map key f nodes k)

  barred-map :
      (key : Text) (f : NodeRow F → NodeRow F) (nodes : List (NodeRow F))
      → KeepsBan f
      → barred key nodes ≡ true
      → barred key (map f nodes) ≡ true
  barred-map key f [] k h = h
  barred-map key f (n ∷ nodes) k h =
      let same = (k n).0 in ground (arith, (k n).1, barred-map key f nodes k)

  map-IsBanned :
      (key : Text) (f : NodeRow F → NodeRow F) (nodes : List (NodeRow F))
      → KeepsBan f
      → IsBanned key nodes
      → IsBanned key (map f nodes)
  map-IsBanned key f nodes k b = record {
    is_known = known-map key f nodes k b.is_known;
    is_barred = barred-map key f nodes k b.is_barred;
  }

  KeepsBan-if :
      (p : NodeRow F → Bool) (f g : NodeRow F → NodeRow F)
      → KeepsBan f
      → KeepsBan g
      → KeepsBan (λ n. if p n then f n else g n)
  KeepsBan-if p f g k l n =
      elim (p n)
        as (λ b.
          ((if b then f n else g n).pubkey_hex ≡ n.pubkey_hex)
          × (n.is_banned ≡ true → (if b then f n else g n).is_banned ≡ true)) [
            | true ↦ k n
            | false ↦ l n
          ]

  keeps_all : KeepsBan (λ n. n)
  keeps_all n = (refl, λ h. h)

  -- A new row with another key.
  snoc-IsBanned :
      (key : Text) (nodes : List (NodeRow F)) (n : NodeRow F)
      → text_eq n.pubkey_hex key ≡ false
      → IsBanned key nodes
      → IsBanned key (nodes ++ n ∷ [])
  snoc-IsBanned key nodes n other b = record {
    is_known = known_snoc nodes b.is_known;
    is_barred = barred_snoc nodes b.is_barred;
  }
    where
      known_snoc : (ns : List (NodeRow F)) → known key ns ≡ true → known key (ns ++ n ∷ []) ≡ true
      known_snoc [] h = cc
      known_snoc (x ∷ ns) h = ground (arith, known_snoc ns)

      barred_snoc :
          (ns : List (NodeRow F)) → barred key ns ≡ true → barred key (ns ++ n ∷ []) ≡ true
      barred_snoc [] h = ground (arith, other)
      barred_snoc (x ∷ ns) h = ground (arith, barred_snoc ns)

  known-find :
      (key : Text) (nodes : List (NodeRow F))
      → find (λ (n : NodeRow F). text_eq n.pubkey_hex key) nodes ≡ none
      → known key nodes ≡ false
  known-find key [] h = refl
  known-find key (n ∷ nodes) h = ground (arith, known-find key nodes)

  -- No active node has the key.
  pub find_active_node-none :
      (key : Text) (nodes : List (NodeRow F))
      → barred key nodes ≡ true
      → find (λ (n : NodeRow F). text_eq n.pubkey_hex key && not n.is_banned) nodes ≡ none
  find_active_node-none key [] h = refl
  find_active_node-none key (n ∷ nodes) h = ground (arith, find_active_node-none key nodes)

-- The ban of a key, in the tables.
abbrev pub Banned : {F : Type 0} → Text → Db F → Type 0
Banned key db = IsBanned key db.nodes

module _ {F : Type 0} ⦃o : Float64 F⦄ where
  other_key :
      (key new : Text) (nodes : List (NodeRow F))
      → known key nodes ≡ true
      → find (has_key new) nodes ≡ none
      → text_eq new key ≡ false
  other_key key new nodes k e = elim (Bool-cases (text_eq new key)) [
    | inr f ↦ f
    | inl t ↦ ground (arith, text_eq_sound new key t, known-find new nodes e)
  ]

  upsert_row-Banned :
      (key : Text) (found : Option (NodeRow F)) (req : RegisterRequest) (id : Uuid) (now : DateTime)
      (db : Db F)
      → find (has_key req.pubkey_hex) db.nodes ≡ found
      → Banned key db
      → Promises (λ _. Banned key) (Banned key) db (upsert_row found req id now db)
  upsert_row-Banned key (some n) req id now db e b =
      map-IsBanned key _ db.nodes
        (KeepsBan-if (has_key req.pubkey_hex) (renew req now) _ (λ n. (refl, λ h. h)) keeps_all) b
  upsert_row-Banned key none req id now db e b =
      Promises-unless (λ _. Banned key) (Banned key) _ db id _ b
        (snoc-IsBanned key db.nodes (new_node req id now)
          (other_key key req.pubkey_hex db.nodes b.is_known e) b)

  pub register_contract :
      ⦃d : Digest⦄ (key : Text) (req : RegisterRequest) (id : Uuid) (now : DateTime)
      → Contract {F = F} (Banned key) (register_node req id now) (λ _. Banned key) (Banned key)
  unfolding register_node upsert
  register_contract key req id now =
      bind_rule {Q = λ _. Banned key} _ _ (guard_rule _ _ (λ db b. b) (λ db e b. b)) λ _.
        sql_rule _ (λ db b. b)
          (λ db b.
            upsert_row-Banned key (find (has_key req.pubkey_hex) db.nodes) req id now db refl b)

  pub heartbeat_contract :
      (key : Text) (id : Uuid) (now : DateTime)
      → Contract {F = F} (Banned key) (heartbeat id now) (λ _. Banned key) (Banned key)
  unfolding heartbeat
  heartbeat_contract key id now =
      bind_rule {Q = λ _. Banned key} _ _
        (sql_rule _ (λ db b. b)
          (λ db b.
            map-IsBanned key _ db.nodes
              (KeepsBan-if (λ n. n.id == id && not n.is_banned) _ _ (λ n. (refl, λ h. h)) keeps_all)
              b))
        λ rows. guard_rule _ _ (λ db b. b) (λ db e b. b)

  pub ban_contract :
      (key : Text) (trim : Text → Text) (req : BanRequest) (now : DateTime)
      → Contract {F = F} (Banned key) (ban_node trim req now) (λ _. Banned key) (Banned key)
  unfolding ban_node
  ban_contract key trim req now =
      bind_rule {Q = λ _. Banned key} _ _ (guard_rule _ _ (λ db b. b) (λ db e b. b)) λ _.
        bind_rule {Q = λ _. Banned key} _ _
          (sql_rule _ (λ db b. b)
            (λ db b.
              map-IsBanned key _ db.nodes
                (KeepsBan-if (λ n. n.id == req.node_id) (banned req) _ (λ n. (refl, λ h. refl))
                  keeps_all)
                b))
          λ rows.
            bind_rule {Q = λ _. Banned key} _ _ (guard_rule _ _ (λ db b. b) (λ db e b. b)) λ _.
              sql_rule _ (λ db b. b)
                (λ db b.
                  Promises-if (λ _. Banned key) (Banned key) (has_node req.node_id db) db tt _ b b)

  pub recompute_contract :
      (key : Text) (now : DateTime)
      → Contract {F = F}
          (Banned key)
          (recompute_reputation_scores now)
          (λ _. Banned key)
          (Banned key)
  unfolding recompute_reputation_scores
  recompute_contract key now =
      sql_rule _ (λ db b. b)
        (λ db b.
          map-IsBanned key (rescore now db) db.nodes
            (KeepsBan-if (λ n. n.is_banned) _ _ keeps_all (λ n. (refl, λ h. h))) b)

  pub cleanup_contract :
      (key : Text) (now : DateTime)
      → Contract {F = F} (Banned key) (cleanup_expired_nonces now) (λ _. Banned key) (Banned key)
  unfolding cleanup_expired_nonces
  cleanup_contract key now = sql_rule _ (λ db b. b) (λ db b. b)
