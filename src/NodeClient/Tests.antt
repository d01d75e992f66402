-- ===== src/NodeClient/Tests.antt =====
-- Examples of the node client.
mod Store
mod Worker
mod Commands
mod Programs
use decentralized_hive_mind.Prelude.{◌≡◌, List, [], ◌∷◌, map, true, false, Bytes, text}
use decentralized_hive_mind.Common.Crypto.Sample.{sample_digest, sample}
use decentralized_hive_mind.Orchestrator.Validator.{TextTools}
use decentralized_hive_mind.NodeClient.Runner.{extract_stream_entries}
use decentralized_hive_mind.NodeClient.Runner.Received.{
  read_reply, claim_reply, read, extract_stream_entries-reply,
}

abbrev entries : List (Bytes × Bytes)
entries = (text "1-0", text "a") ∷ (text "2-0", text "b") ∷ []

extract_stream_entries-reply_example :
    (extract_stream_entries (λ b. b) (read_reply (text "subtasks") (text "payload") entries)
      ≡ map (read (λ b. b)) entries)
    × (extract_stream_entries
          (λ b. b)
          (claim_reply (text "0-0") (text "payload") entries (text "3-0" ∷ text "4-0" ∷ []))
        ≡ map (read (λ b. b)) entries)
extract_stream_entries-reply_example =
    extract_stream_entries-reply (λ b. b) (text "subtasks") (text "payload") (text "0-0") entries
      (text "3-0" ∷ text "4-0" ∷ [])

abbrev tools : TextTools
tools = record {
  injection_match = λ s. false;
  strip_ansi = λ s. s;
  is_json = λ s. true;
  strip_ansi-In = λ s c m. m;
}
