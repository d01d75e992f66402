-- ===== src/NodeClient/Runner/Received.antt =====
-- The replies of Redis that node-client/src/runner.rs reads, and the results that it reports.
use mathlib.Core.List.{append-nil}
use decentralized_hive_mind.Prelude.{◌≡◌, refl, List, [], ◌∷◌, map, Text, Bytes, ap, ◌∙◌}
use decentralized_hive_mind.NodeClient.Runner.{
  Value, bulk_string, array, Values, nil, cons, walk, walk_all, extract_stream_entries,
}

-- An entry of a stream as Redis sends it: the id, and one field.
abbrev entry_value : Bytes → Bytes × Bytes → Value
entry_value key (id, payload) = array (
    cons (bulk_string id)
      (cons (array (cons (bulk_string key) (cons (bulk_string payload) nil))) nil))

abbrev entry_values : Bytes → List (Bytes × Bytes) → Values
entry_values key [] = nil
entry_values key (e ∷ es) = cons (entry_value key e) (entry_values key es)

abbrev id_values : List Bytes → Values
id_values [] = nil
id_values (id ∷ ids) = cons (bulk_string id) (id_values ids)

-- The reply of XREADGROUP for one stream, and that of XAUTOCLAIM.
abbrev pub read_reply : Bytes → Bytes → List (Bytes × Bytes) → Values
read_reply stream key es =
    cons (array (cons (bulk_string stream) (cons (array (entry_values key es)) nil))) nil

abbrev pub claim_reply : Bytes → Bytes → List (Bytes × Bytes) → List Bytes → Values
claim_reply cursor key es deleted =
    cons (bulk_string cursor)
      (cons (array (entry_values key es)) (cons (array (id_values deleted)) nil))

module _ (lossy : Bytes → Text) where
  abbrev pub read : Bytes × Bytes → Text × Text
  read (id, payload) = (lossy id, lossy payload)

  walk_all-entry_values :
      (key : Bytes) (es : List (Bytes × Bytes)) → walk_all lossy (entry_values key es) ≡ map read es
  unfolding walk_all walk
  walk_all-entry_values key [] = refl
  walk_all-entry_values key (e ∷ es) = ap (λ xs. read e ∷ xs) (walk_all-entry_values key es)

  -- A list of entries is not taken for an entry.
  walk-entry_values :
      (key : Bytes) (es : List (Bytes × Bytes))
      → walk lossy (array (entry_values key es)) ≡ map read es
  unfolding walk_all walk
  walk-entry_values key [] = refl
  walk-entry_values key (e ∷ es) = ap (λ xs. read e ∷ xs) (walk_all-entry_values key es)

  walk_all-id_values : (ids : List Bytes) → walk_all lossy (id_values ids) ≡ []
  unfolding walk_all walk
  walk_all-id_values [] = refl
  walk_all-id_values (id ∷ ids) = walk_all-id_values ids

  walk-id_values : (ids : List Bytes) → walk lossy (array (id_values ids)) ≡ []
  unfolding walk_all walk
  walk-id_values [] = refl
  walk-id_values (a ∷ []) = refl
  walk-id_values (a ∷ b ∷ ids) = walk_all-id_values ids

  -- The name and the entries of a stream are not taken for an entry.
  walk-stream :
      (stream key : Bytes) (es : List (Bytes × Bytes))
      → walk lossy (array (cons (bulk_string stream) (cons (array (entry_values key es)) nil)))
        ≡ map read es
  unfolding walk_all walk
  walk-stream stream key [] = refl
  walk-stream stream key (e ∷ es) = append-nil _ ∙ walk-entry_values key (e ∷ es)

  -- From the reply of XREADGROUP for one stream, and from that of XAUTOCLAIM, exactly the entries are
  -- read, in their order.
  pub extract_stream_entries-reply :
      (stream key cursor : Bytes) (es : List (Bytes × Bytes)) (deleted : List Bytes)
      → (extract_stream_entries lossy (read_reply stream key es) ≡ map read es)
        × (extract_stream_entries lossy (claim_reply cursor key es deleted) ≡ map read es)
  unfolding walk_all walk
  extract_stream_entries-reply stream key cursor es deleted = (
    append-nil _ ∙ walk-stream stream key es,
    rw (walk-entry_values key es, walk-id_values deleted) (append-nil (map read es)),
  )
