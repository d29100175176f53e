-- ===== src/FrameCapture/Judge.antt =====
-- `FrameJudge` of src/axm_embodied/frame_capture.py. A log line that is no frame_kept entry, or whose
-- fields do not decode, is not in the model.
use axm_embodied.Common.{
  ℕ, zero, suc, ◌+◌, String, Bool, true, false, not, ◌||◌, ◌&&◌, List, [], ◌∷◌, Option, none, some,
  Bytes, ltb, leb, ◌==◌, if◌then◌else◌, length, Result, Error, ok, err, bytes_eq, read_at, hex,
  out_of_fuel, struct_range, frame_file, frame_header, frame_magic, frame_version, frame_limit,
  frame_order, frame_torn, frame_hash, frame_chain, log_absent, log_ref, log_hash, log_chain,
  log_missing, no_file,
}
use axm_embodied.Common.Decode.{◌>>=◌, ◌>>◌}
use axm_embodied.Common.Dict
use axm_embodied.Common.Dict.{Dict}
use axm_embodied.FrameCapture.{
  Texts, KeptFrameRef, LogEntry, CaptureManifest, frame_kept, chain_genesis, chain_next,
  magic_frame_file, magic_frame_rec, hash_len, frame_rec_fixed_len,
}
use axm_embodied.Protocol.{Header, unpack_header, rec_header_len, version}

-- How a round of `_scan_frames` ends: at a clean end of the file, by a raise, or with a record, the
-- position behind it and the new link of the chain.
pub data FrameRound : Type 0 where
  clean_end : FrameRound
  raised : Error → FrameRound
  kept : KeptFrameRef → ℕ → Bytes → FrameRound

-- `int(fid) <= last_fid`, with `none` for the -1 before the first record.
abbrev pub out_of_order : ℕ → Option ℕ → Bool
out_of_order fid none = false
out_of_order fid (some last) = leb fid last

module _ (t : Texts) (max_frame_bytes : ℕ) where
  -- The checks on the payload and on its two hashes.
  unfoldable pub check_payload : ℕ → Header → Bytes → Bytes → Bytes → Bytes → FrameRound
  check_payload offset h claimed_hash claimed_chain payload chain =
      let actual_hash = t.sha256 payload in
      if ltb (length claimed_hash) hash_len
        || (ltb (length claimed_chain) hash_len || not (length payload == h.dlen))
      then raised frame_torn
      else if not (bytes_eq actual_hash claimed_hash)
      then raised frame_hash
      else elim (chain_next t chain actual_hash h.frame_id) [
        | none ↦ raised struct_range
        | some next ↦
            if not (bytes_eq next claimed_chain)
            then raised frame_chain
            else kept
                (record {
                  frame_id = h.frame_id;
                  offset = offset;
                  len = frame_rec_fixed_len + h.dlen;
                  content_sha256 = hex actual_hash;
                  chain = hex next;
                })
                (offset + frame_rec_fixed_len + h.dlen) next
      ]

  -- The checks on the header.
  unfoldable pub check_header : Bytes → ℕ → Bytes → Option ℕ → Header → FrameRound
  check_header content offset chain last_fid h =
      if not (bytes_eq h.magic magic_frame_rec)
      then raised frame_magic
      else if not (h.ver == version)
      then raised frame_version
      else if ltb max_frame_bytes h.dlen
      then raised frame_limit
      else if out_of_order h.frame_id last_fid
      then raised frame_order
      else check_payload offset h (read_at content (offset + rec_header_len) hash_len)
          (read_at content (offset + rec_header_len + hash_len) hash_len)
          (read_at content (offset + frame_rec_fixed_len) h.dlen) chain

  unfoldable pub frame_round : Bytes → ℕ → Bytes → Option ℕ → FrameRound
  frame_round content offset chain last_fid =
      let header = read_at content offset rec_header_len in
      if length header == 0
      then clean_end
      else if ltb (length header) rec_header_len
      then raised frame_header
      else elim (unpack_header header) [
        | none ↦ raised struct_range
        | some h ↦ check_header content offset chain last_fid h
      ]

  unfoldable pub frame_loop : ℕ → Bytes → ℕ → Bytes → Option ℕ → Result (List KeptFrameRef)
  frame_loop zero content offset chain last_fid = err out_of_fuel
  frame_loop (suc fuel) content offset chain last_fid =
      elim (frame_round content offset chain last_fid) [
        | clean_end ↦ ok []
        | raised e ↦ err e
        | kept ref next_off next ↦ do
          rest ← frame_loop fuel content next_off next (some ref.frame_id)
          ok (ref ∷ rest)
      ]

  unfoldable pub scan_frames : Bytes → String → Result (List KeptFrameRef)
  scan_frames content session_id =
      if not (bytes_eq (read_at content 0 4) magic_frame_file)
      then err frame_file
      else frame_loop (length content + 1) content 4 (chain_genesis t session_id) none

-- `{r["frame_id"]: r for r in records}`
abbrev pub by_frame_id : List KeptFrameRef → Dict KeptFrameRef → Dict KeptFrameRef
by_frame_id [] d = d
by_frame_id (r ∷ rs) d = by_frame_id rs (Dict.insert r.frame_id r d)

-- One frame_kept line against the record on disk.
unfoldable pub check_claim : KeptFrameRef → Option KeptFrameRef → Result (Unit {0})
check_claim claim none = err log_absent
check_claim claim (some rec) =
    if not (claim.offset == rec.offset) || not (claim.len == rec.len)
    then err log_ref
    else if not (bytes_eq claim.content_sha256 rec.content_sha256)
    then err log_hash
    else if not (bytes_eq claim.chain rec.chain)
    then err log_chain
    else ok tt

unfoldable pub check_claims : Dict KeptFrameRef → List LogEntry → Result (List ℕ)
check_claims records [] = ok []
check_claims records (frame_kept claim sensor_id ∷ entries) = do
  check_claim claim (Dict.lookup claim.frame_id records)
  rest ← check_claims records entries
  ok (claim.frame_id ∷ rest)
check_claims records (entry ∷ entries) = check_claims records entries

abbrev pub elem : ℕ → List ℕ → Bool
elem x [] = false
elem x (y ∷ ys) = (y == x) || elem x ys

-- `set(by_fid) - claimed_fids` is empty.
abbrev pub all_claimed : List ℕ → List KeptFrameRef → Bool
all_claimed claimed [] = true
all_claimed claimed (r ∷ rs) = elem r.frame_id claimed && all_claimed claimed rs

unfoldable pub cross_check_log : List KeptFrameRef → List LogEntry → Result (Unit {0})
cross_check_log records log = do
  claimed ← check_claims (by_frame_id records []) log
  if not (all_claimed claimed records) then err log_missing else ok tt

-- The session id of capture_manifest.json, which has to be there.
abbrev pub session_of : Option CaptureManifest → Result String
session_of none = err no_file
session_of (some manifest) = ok manifest.session_id

module _ (t : Texts) (max_frame_bytes : ℕ) where
  -- `FrameJudge.verify`. The arguments are what it comes to to read the session id of
  -- capture_manifest.json, frames.bin, and the entries of events.jsonl.
  unfoldable pub verify :
      Result String → Result Bytes → Result (List LogEntry) → Result (List KeptFrameRef)
  verify manifest frames events = do
    session_id ← manifest
    content ← frames
    records ← scan_frames t max_frame_bytes content session_id
    log ← events
    cross_check_log records log
    ok records
