-- ===== src/Streams.antt =====
-- src/axm_embodied/streams.py: `StrictJudge`, which reads the two binary streams of a capsule back,
-- and `build_streams_evidence`. A file is its bytes, and a file object its bytes with a position.
-- Warnings are left out. `sha256` is the digest of hashlib and `parse_int` the text case of `int`.
pub mod Search
pub mod Residuals
pub mod Latents
pub mod Evidence
pub mod Recorded
pub mod Tests
use axm_embodied.Common.{
  ℕ, zero, suc, ◌+◌, ◌-◌, ◌*◌, String, Bool, true, false, not, List, [], ◌∷◌, ◌++◌, Option, none,
  some, Bytes, ltb, ◌==◌, if◌then◌else◌, length, Result, Error, ok, err, bytes_eq, read_at, find,
  hex, out_of_fuel, resid_version, resid_size, struct_range, latent_file, latent_status,
  key_missing, bad_int, seek_negative, no_file,
}
use axm_embodied.Common.Dict
use axm_embodied.Common.Dict.{Dict}
use axm_embodied.Common.Int.{ℤ, pos, negsuc, eq_ℤ, neg_ℕ, int_of}
use axm_embodied.Common.Json.{Fields}
use axm_embodied.Common.Decode.{◌>>=◌, key, key_object, to_int}
use axm_embodied.Protocol.{
  Header, unpack_header, magic_latent_file, magic_latent_rec, magic_resid_rec, version,
  rec_header_len, default_max_residual_size, default_max_resync_bytes, latent_dim, file_header_len,
  latent_rec_len,
}
use axm_embodied.Recorder.{last_n}

-- What `_resync_to_magic` returns; `not_found` is its -1.
pub data Resync : Type 0 where
  found : ℕ → Resync
  not_found : Resync
  exhausted : Resync

-- Its loop: `at` is the position of the file, `scanned` counts the bytes read so far.
unfoldable pub resync_loop : ℕ → Bytes → Bytes → ℕ → ℕ → ℕ → ℕ → Bytes → Resync
resync_loop zero content magic chunk_size limit at scanned prev_tail = exhausted
resync_loop (suc fuel) content magic chunk_size limit at scanned prev_tail =
    let chunk = read_at content at chunk_size in
    let hay = prev_tail ++ chunk in
    let end_off = at + length chunk in
    let overlap = length magic - 1 in
    let rest =
      resync_loop fuel content magic chunk_size limit end_off (scanned + length chunk)
        (last_n overlap hay) in
    if not (ltb scanned limit)
    then not_found
    else if length chunk == 0
    then not_found
    else elim (find magic hay) [ some p ↦ found (end_off - length hay + p) | none ↦ rest ]

-- Every round but the last reads a byte.
unfoldable pub resync_to_magic : Bytes → Bytes → ℕ → Resync
resync_to_magic content magic start_pos =
    resync_loop (length content + 2) content magic (64 * 1024) default_max_resync_bytes start_pos 0
      []

pub record ResidualRecord : Type 0 where
  pub offset : ℕ
  pub len : ℕ
  pub content_hash : Bytes

pub record ScanStats : Type 0 where
  pub corrupt_headers : ℕ
  pub garbage_bytes : ℕ
  pub resyncs : ℕ
  pub records : ℕ

pub record Scan : Type 0 where
  pub residual_index : Dict ResidualRecord
  pub scan_stats : ScanStats

abbrev pub new_scan : Scan
new_scan = record {
  residual_index = [];
  scan_stats = record { corrupt_headers = 0; garbage_bytes = 0; resyncs = 0; records = 0 };
}

abbrev pub count_corrupt : Scan → Scan
count_corrupt s =
    let t = s.scan_stats in
    record s { scan_stats = record t { corrupt_headers = t.corrupt_headers + 1 } }

abbrev pub count_resync : ℕ → Scan → Scan
count_resync garbage s =
    let t = s.scan_stats in
    record s {
      scan_stats = record t { garbage_bytes = t.garbage_bytes + garbage; resyncs = t.resyncs + 1 };
    }

abbrev pub add_record : ℕ → ResidualRecord → Scan → Scan
add_record fid rec s =
    let t = s.scan_stats in
    record s {
      residual_index = Dict.insert fid rec s.residual_index;
      scan_stats = record t { records = t.records + 1 };
    }

pub data Status : Type 0 where
  offset_mismatch len_mismatch eof bad_magic bad_version drift bad_dim torn_write : Status
  verified : Bytes → Status

-- A row of ext/streams@1.
pub data Stream : Type 0 where
  latents residuals : Stream

pub record Row : Type 0 where
  pub frame_id : ℤ
  pub stream : Stream
  pub offset : ℤ
  pub len : ℤ
  pub content_hash : Bytes

-- The files of a capsule; `events` are the objects that the lines of events.jsonl decode to.
pub record Capsule : Type 0 where
  pub cam_latents : Option Bytes
  pub cam_residuals : Option Bytes
  pub events : List Fields

pub record StrictJudge : Type 0 where
  pub scan : Scan
  pub f_lat : Bytes

-- `4 + fid * LATENT_REC_LEN`
abbrev pub math_offset : ℤ → ℤ
math_offset (pos fid) = pos (file_header_len + fid * latent_rec_len)
math_offset (negsuc n) = negsuc (suc n * latent_rec_len - file_header_len - 1)

-- Physical verification at an offset that the checks on the claim have let through.
unfoldable pub verify_header : Header → ℤ → Status
verify_header h expected_fid =
    if not (bytes_eq h.magic magic_latent_rec)
    then bad_magic
    else if not (h.ver == version)
    then bad_version
    else if not (eq_ℤ (pos h.frame_id) expected_fid)
    then drift
    else if not (h.dlen == latent_dim)
    then bad_dim
    else verified []

-- How a round of the scan ends: by `break`, by a raise, or with a new position.
pub data Round : Type 0 where
  stop : Scan → Round
  raised : Error → Round
  again : ℕ → Scan → Round

-- The row of the residual that a frame has in the index, if it has one.
abbrev pub residual_rows : ℤ → Dict ResidualRecord → List Row
residual_rows (negsuc n) index = []
residual_rows (pos fid) index = elim (Dict.lookup fid index) [
  | none ↦ []
  | some rec ↦
      record {
        frame_id = pos fid;
        stream = residuals;
        offset = pos rec.offset;
        len = pos rec.len;
        content_hash = rec.content_hash;
      }
      ∷ []
]

module _ (sha256 : Bytes → Bytes) where
  -- A record whose header is sound: its payload is read, or it is torn and the scan stops.
  unfoldable pub indexed : ℕ → ℕ → Bytes → Scan → Scan
  indexed start_off fid payload s =
      add_record fid
        (record {
          offset = start_off;
          len = rec_header_len + length payload;
          content_hash = hex (sha256 payload);
        })
        s

  -- What a round does with the header `h` that it has read at `start_off`.
  unfoldable pub scan_record : Bytes → ℕ → Scan → Header → Round
  scan_record content start_off s h =
      let payload = read_at content (start_off + rec_header_len) h.dlen in
      if not (bytes_eq h.magic magic_resid_rec)
      then elim (resync_to_magic content magic_resid_rec (start_off + 1)) [
        | found next_off ↦ again next_off (count_resync (next_off - start_off) (count_corrupt s))
        | not_found ↦ stop (count_corrupt s)
        | exhausted ↦ raised out_of_fuel
      ]
      else if not (h.ver == version)
      then raised resid_version
      else if ltb default_max_residual_size h.dlen
      then raised resid_size
      else if not (length payload == h.dlen)
      then stop s
      else again (start_off + rec_header_len + h.dlen) (indexed start_off h.frame_id payload s)

  -- One round of the `while True` of `_scan_residuals`, from position `start_off` on.
  unfoldable pub scan_round : Bytes → ℕ → Scan → Round
  scan_round content start_off s =
      let header = read_at content start_off rec_header_len in
      if ltb (length header) rec_header_len then stop s else elim (unpack_header header) [
        | none ↦ raised struct_range
        | some h ↦ scan_record content start_off s h
      ]

  unfoldable pub scan_loop : ℕ → Bytes → ℕ → Scan → Result Scan
  scan_loop zero content start_off s = err out_of_fuel
  scan_loop (suc fuel) content start_off s = elim (scan_round content start_off s) [
    | stop s' ↦ ok s'
    | raised e ↦ err e
    | again next_off s' ↦ scan_loop fuel content next_off s'
  ]

  unfoldable pub scan_residuals : Option Bytes → Result Scan
  scan_residuals none = ok new_scan
  scan_residuals (some content) = scan_loop (length content + 1) content 0 new_scan

  -- `StrictJudge.__init__`: the residuals are scanned, then the latent file is opened.
  unfoldable pub judge : Capsule → Result StrictJudge
  judge c = do
    scan ← scan_residuals c.cam_residuals
    elim c.cam_latents [
      | none ↦ err no_file
      | some content ↦
          if bytes_eq (read_at content 0 file_header_len) magic_latent_file
          then ok (record { scan = scan; f_lat = content })
          else err latent_file
    ]

  -- The last check, once those on the header have been passed.
  unfoldable pub verify_payload : Bytes → Status → Status
  verify_payload payload (verified _) =
      if length payload == latent_dim then verified (hex (sha256 payload)) else torn_write
  verify_payload payload status = status

  -- The part of `verify_latent` that reads the file.
  unfoldable pub verify_at : Bytes → ℕ → ℤ → Status
  verify_at f_lat offset expected_fid =
      let header = read_at f_lat offset rec_header_len in
      let payload = read_at f_lat (offset + rec_header_len) latent_dim in
      if ltb (length header) rec_header_len then eof else elim (unpack_header header) [
        | none ↦ eof
        | some h ↦ verify_payload payload (verify_header h expected_fid)
      ]

  -- `verify_latent`; a seek before the start of the file raises.
  unfoldable pub verify_latent : Bytes → ℤ → ℤ → ℤ → Result Status
  verify_latent f_lat claimed_offset claimed_len expected_fid =
      if not (eq_ℤ claimed_offset (math_offset expected_fid))
      then ok offset_mismatch
      else if not (eq_ℤ claimed_len (pos latent_rec_len))
      then ok len_mismatch
      else elim claimed_offset [
        | pos offset ↦ ok (verify_at f_lat offset expected_fid)
        | negsuc n ↦ err seek_negative
      ]

  -- The rows of one event.
  unfoldable pub event_rows : (String → Option ℤ) → StrictJudge → Fields → Result (List Row)
  event_rows parse_int j evt = do
    fid ← to_int parse_int (← key "frame_id" evt)
    l_ref ← key_object "latents" (← key_object "stream_refs" evt)
    offset ← to_int parse_int (← key "offset" l_ref)
    len ← to_int parse_int (← key "length" l_ref)
    status ← verify_latent j.f_lat offset len fid
    elim status [
      | verified hash ↦ ok (
          record {
            frame_id = fid;
            stream = latents;
            offset = offset;
            len = len;
            content_hash = hash;
          }
          ∷ residual_rows fid j.scan.residual_index)
      | _ ↦ err latent_status
    ]

  unfoldable pub all_rows : (String → Option ℤ) → StrictJudge → List Fields → Result (List Row)
  all_rows parse_int j [] = ok []
  all_rows parse_int j (evt ∷ evts) = do
    rows ← event_rows parse_int j evt
    rest ← all_rows parse_int j evts
    ok (rows ++ rest)

  unfoldable pub build_streams_evidence : (String → Option ℤ) → Capsule → Result (List Row)
  unfolding all_rows
  build_streams_evidence parse_int c = do j ← judge c; all_rows parse_int j c.events
