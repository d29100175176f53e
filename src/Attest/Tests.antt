-- ===== src/Attest/Tests.antt =====
-- A queue of two entries, of which one is anchored, and a response whose first mark no time follows.
-- The digests are stand-ins: the first 32 bytes, padded with zeros.
use axm_embodied.Common.{
  ℕ, zero, suc, ◌≡◌, refl, Bool, true, false, String, [], ◌∷◌, ◌++◌, Option, none, some, Bytes, All,
  IsByte, ok, replicate, hex, bytes_eq, arith,
}
use axm_embodied.Common.Json.{Json, string, object, field, end}
use axm_embodied.Attest.{
  Queue, Storing, both_written, EntryDir, AttestRecord, AttestationEntry, der, der_len, to_bytes,
  encode_tsq, entry_of, queue_attestation, update_entry, check_entry, verify_entry_matches_shard,
  extract_rfc3161_gentime, gentime_loop,
}
use axm_embodied.Attest.Der.{read_der, read_der-der}
use axm_embodied.Attest.Entries.{IsQueued, or_new, queue_attestation-IsQueued}
use axm_embodied.Attest.Gentime.{first_time, extract_rfc3161_gentime_first}
use axm_embodied.Attest.Sealing.{IsAttested, build_attestation_shard-IsAttested}
use axm_embodied.Attest.Shard.{ShardConfig, ShardRequest, build_attestation_shard}
use axm_embodied.FrameCapture.Tests.{padded}

All-IsByte-replicate : (n b : ℕ) → IsByte b → All IsByte (replicate n b)
All-IsByte-replicate zero b h = tt
All-IsByte-replicate (suc n) b h = (h, All-IsByte-replicate n b h)

read_der-der_example :
    All IsByte (der 4 (replicate 200 7))
    × (read_der (der 4 (replicate 200 7) ++ (1 ∷ [])) ≡ some (4, replicate 200 7, 1 ∷ []))
read_der-der_example =
    read_der-der 4 (replicate 200 7) (1 ∷ []) (omega arith)
      (All-IsByte-replicate 200 7 (omega arith)) (omega arith)

-- Two marks; fourteen digits and a Z follow the second.
abbrev response : Bytes
response =
    1 ∷ 24 ∷ 15 ∷ 24 ∷ 15 ∷ b'2' ∷ b'0' ∷ b'2' ∷ b'6' ∷ b'0' ∷ b'1' ∷ b'0' ∷ b'2' ∷ b'1' ∷ b'0'
    ∷ b'3' ∷ b'0' ∷ b'5' ∷ b'9' ∷ b'Z' ∷ []

gentime :
    extract_rfc3161_gentime response
    ≡ some (
        b'2' ∷ b'0' ∷ b'2' ∷ b'6' ∷ b'-' ∷ b'0' ∷ b'1' ∷ b'-' ∷ b'0' ∷ b'2' ∷ b'T' ∷ b'1' ∷ b'0'
        ∷ b':' ∷ b'3' ∷ b'0' ∷ b':' ∷ b'5' ∷ b'9' ∷ b'Z' ∷ [])
unfolding extract_rfc3161_gentime gentime_loop
gentime = refl

extract_rfc3161_gentime_first_example : extract_rfc3161_gentime response ≡ first_time response
extract_rfc3161_gentime_first_example = extract_rfc3161_gentime_first response

abbrev manifest : Bytes
manifest = 3 ∷ 4 ∷ []

abbrev loads : Bytes → Option Json
loads b = some (
    object (
      field "integrity" (object (field "merkle_root" (string "root") end)) (
        field "publisher" (object (field "id" (string "@p") end))
          (field "metadata" (object (field "created_at" (string "now") end)) end))))

abbrev queued : AttestationEntry
queued = record {
  path = hex (padded manifest);
  shard_id = hex (padded manifest);
  manifest_sha256 = hex (padded manifest);
  anchored = false;
}

-- Nothing is queued yet.
queues : (queue_attestation padded padded loads (some manifest) "note" "now" []).0 ≡ ok queued
unfolding queue_attestation encode_tsq der der_len to_bytes update_entry
queues = refl

queue_attestation-IsQueued_example :
    let id = hex (padded manifest) in
    let q' = (queue_attestation padded padded loads (some manifest) "note" "now" []).1 in
    ((e' : EntryDir) × (entry_of id q' ≡ some e')
      × IsQueued padded padded loads manifest (or_new (entry_of id [])) e'
      × (verify_entry_matches_shard padded padded e' (some (some manifest)) ≡ ok true))
    × ((j : Bytes) → bytes_eq id j ≡ false → entry_of j q' ≡ entry_of j [])
queue_attestation-IsQueued_example =
    queue_attestation-IsQueued padded padded loads manifest "note" "now" [] queues

abbrev rec : AttestRecord
rec = record {
  shard_id = hex (padded manifest);
  manifest_sha256 = hex (padded manifest);
  merkle_root = string "root";
  publisher_id = string "@p";
  created_at_claimed = string "now";
  queued_at_local_clock = "now";
  note = "";
  anchors = some [];
}

abbrev query : Bytes
query =
    48
    ∷ 57
    ∷ 2
    ∷ 1
    ∷ 1
    ∷ 48
    ∷ 49
    ∷ 48
    ∷ 13
    ∷ 6
    ∷ 9
    ∷ 96
    ∷ 134
    ∷ 72
    ∷ 1
    ∷ 101
    ∷ 3
    ∷ 4
    ∷ 2
    ∷ 1
    ∷ 5
    ∷ 0
    ∷ 4
    ∷ 32
    ∷ (padded manifest ++ (1 ∷ 1 ∷ 255 ∷ []))

encodes : encode_tsq (padded manifest) ≡ ok query
unfolding encode_tsq der der_len to_bytes
encodes = refl

abbrev open_entry : EntryDir
open_entry = record {
  manifest_json = some manifest;
  manifest_tsq = some query;
  manifest_tsr = none;
  record_json = some rec;
}

abbrev anchored_entry : EntryDir
anchored_entry = record {
  manifest_json = some manifest;
  manifest_tsq = some query;
  manifest_tsr = some response;
  record_json = some rec;
}

abbrev queue : Queue
queue = (2 ∷ [], open_entry) ∷ (1 ∷ [], anchored_entry) ∷ (3 ∷ [], open_entry) ∷ []

-- The first request is answered, the second one is not.
abbrev post : ℕ → Bytes → Option Bytes
post n tsq = elim n [ zero ↦ some response | suc m ↦ none ]

abbrev storing : ℕ → Storing
storing n = both_written

abbrev clock : ℕ → String
clock n = "now"

abbrev text_of : Bytes → String
text_of b = "text"

abbrev utf8 : String → Bytes
utf8 s = []

abbrev accepts : ShardConfig → Bool × Option Bytes
accepts cfg = (true, some (7 ∷ []))

abbrev request : ShardRequest
request = record {
  out_dir = "shard";
  secret_key = [];
  publisher_id = "@p";
  publisher_name = "P";
  timestamp = none;
  now = "now";
}

builds :
    build_attestation_shard text_of utf8 padded padded accepts request anchored_entry
    ≡ ok (hex (padded (7 ∷ [])))
unfolding build_attestation_shard verify_entry_matches_shard check_entry encode_tsq der der_len
    to_bytes
builds = refl

build_attestation_shard-IsAttested_example :
    IsAttested padded padded text_of utf8 accepts request anchored_entry (hex (padded (7 ∷ [])))
build_attestation_shard-IsAttested_example =
    build_attestation_shard-IsAttested padded padded text_of utf8 accepts request anchored_entry
      builds
