-- ===== src/Compile/Frames.antt =====
-- src/axm_embodied/frame_compile.py: a capture of camera frames becomes claims and a shard, once
-- `FrameJudge` of frame_capture.py has accepted it. A capture directory is its three files.
pub mod Sealing
use axm_embodied.Common.{
  ℕ, ◌==◌, leb, ◌||◌, ◌&&◌, String, Bool, true, false, List, [], ◌∷◌, Option, none, some, Bytes,
  map, if◌then◌else◌, not, Result, Error, ok, err, str_eq, no_events, no_file, no_candidates,
  capture_tier, log_absent, log_ref, log_hash, log_chain, bad_text, bad_json,
}
use axm_embodied.Common.Decode.{◌>>=◌, ◌>>◌, key, key_object, key_text, to_int}
use axm_embodied.Common.Int.{ℤ, pos, negsuc}
use axm_embodied.Common.Json
use axm_embodied.Common.Json.{Json, string, Fields}
use axm_embodied.Compile.{
  Texts, Candidate, claim, get_or, is_evt, as_object, decode_line, draw_candidates, split_lines,
  file_lines, CompilerConfig, Kernel, CompileRequest, created_at_of, ext_of, compiled,
}
use axm_embodied.FrameCapture as Capture
use axm_embodied.FrameCapture.{KeptFrameRef, LogEntry, frame_kept, default_max_frame_bytes}
use axm_embodied.FrameCapture.Judge.{verify}
use Prim.Native.String.{◌++◌ as ◌⧺◌}

abbrev pub physical_tier : String
physical_tier = "physical_capture"

-- A row of streams@1.
pub record FrameRow : Type 0 where
  pub frame_id : ℕ
  pub stream : String
  pub file : String
  pub offset : ℕ
  pub len : ℕ
  pub status : String
  pub content_hash : Bytes

-- `FrameJudge.streams_rows`
abbrev pub streams_row : KeptFrameRef → FrameRow
streams_row r = record {
  frame_id = r.frame_id;
  stream = "frames";
  file = "frames.bin";
  offset = r.offset;
  len = r.len;
  status = "VERIFIED";
  content_hash = r.content_sha256;
}

pub record CaptureDir : Type 0 where
  pub events_jsonl : Option Bytes
  pub capture_manifest : Option Bytes
  pub frames : Option Bytes

-- `not line.strip()`, for a line of bytes: all of them are white space.
abbrev pub is_blank_bytes : Bytes → Bool
is_blank_bytes [] = true
is_blank_bytes (b ∷ bs) = (b == 32 || (leb 9 b && leb b 13)) && is_blank_bytes bs

-- A number that can only be that of a frame or a place if it is not negative.
abbrev pub natural : Error → ℤ → Result ℕ
natural e (pos n) = ok n
natural e (negsuc n) = err e

-- `evt.get(name)`, to be compared with a digest: a value that is no text differs from it.
abbrev pub digest_text : (String → Bytes) → Error → Option Json → Result Bytes
digest_text utf8 e (some (string s)) = ok (utf8 s)
digest_text utf8 e v = err e

-- A capture of another tier is refused.
unfoldable pub check_tier : Option Json → Result (Unit {0})
check_tier (some (string tier)) = if str_eq tier physical_tier then ok tt else err capture_tier
check_tier v = err capture_tier

abbrev pub capture_config :
    CompileRequest
    → Bytes
    → Bytes
    → Bytes
    → List Candidate
    → List KeptFrameRef
    → CompilerConfig FrameRow
capture_config req events manifest frames candidates refs = record {
  source = events;
  candidates = candidates;
  out_dir = req.out_path;
  private_key = req.secret_key;
  publisher_id = "@axm_embodied";
  publisher_name = "AXM Embodied";
  namespace = "embodied/capture";
  created_at = created_at_of req;
  title = "Frame capture capsule " ⧺ req.name;
  license_spdx = "Apache-2.0";
  profiles = [];
  extra_content = ("frames.bin", frames) ∷ ("capture_manifest.json", manifest) ∷ [];
  extra_ext = ext_of (map streams_row refs);
}

module _ (t : Texts) (ft : Capture.Texts) where
  -- What an event of a capture claims.
  unfoldable pub capture_claims : String → Fields → Result (List Candidate)
  capture_claims text evt =
      let sensor = get_or "sensor_id" (string "sensor-unknown") evt in
      if is_evt "capture_trigger" evt
      then (do
        fid ← key "frame_id" evt
        ok (
            claim sensor "declared_trigger" (string (t.str (get_or "reason" (string "") evt)))
              "literal:string" 1 text
            ∷ claim (string ("trigger/frame-" ⧺ t.str fid)) "trigger_source"
                (string (t.str (get_or "source" (string "") evt))) "literal:string" 1 text
            ∷ []))
      else if is_evt "capture_window_opened" evt
      then (do
        fid ← key "frame_id" evt
        ok (
            claim sensor "opened_capture_window"
              (string ("frame-" ⧺ t.str (get_or "first_kept_frame_id" fid evt))) "literal:string" 1
              text
            ∷ []))
      else if is_evt "capture_window_closed" evt
      then (do
        fid ← key "frame_id" evt
        ok (
            claim sensor "closed_capture_window" (string ("frame-" ⧺ t.str fid)) "literal:string" 1
              text
            ∷ []))
      else if is_evt "frame_kept" evt
      then (do
        fid ← key "frame_id" evt
        ok (
            claim (string ("frame-" ⧺ t.str fid)) "content_sha256"
              (string (t.str (get_or "content_sha256" (string "") evt))) "literal:string" 1 text
            ∷ []))
      else ok []

  module _ (parse_int : String → Option ℤ) where
    -- The claim of a frame_kept line, for the judge.
    unfoldable pub kept_claim : Fields → Result LogEntry
    kept_claim evt = do
      fid ← to_int parse_int (← key "frame_id" evt)
      frame_id ← natural log_absent fid
      ref ← key_object "frames" (← key_object "stream_refs" evt)
      off ← to_int parse_int (← key "offset" ref)
      offset ← natural log_ref off
      n ← to_int parse_int (← key "length" ref)
      len ← natural log_ref n
      content_sha256 ← digest_text ft.utf8 log_hash (Json.lookup "content_sha256" evt)
      chain ← digest_text ft.utf8 log_chain (Json.lookup "chain" evt)
      ok (
          frame_kept
            (record {
              frame_id = frame_id;
              offset = offset;
              len = len;
              content_sha256 = content_sha256;
              chain = chain;
            })
            "")

    -- The claims of a log. A line of white space is passed over, and so is any other event. The log
    -- is decoded as a whole, before it is compared: of two errors, the other one is raised.
    unfoldable pub read_log : List Bytes → Result (List LogEntry)
    read_log [] = ok []
    read_log (b ∷ bs) = do
      rest ← read_log bs
      if is_blank_bytes b then ok rest else (do
        line ← decode_line t b
        if not (is_evt "frame_kept" line.1)
            then ok rest
            else (do entry ← kept_claim line.1; ok (entry ∷ rest)))

    -- `FrameJudge(capsule_path).verify()`, on the bytes of events.jsonl, the manifest and frames.bin.
    unfoldable pub judged_frames : Bytes → Fields → Option Bytes → Result (List KeptFrameRef)
    judged_frames events manifest frames =
        verify ft default_max_frame_bytes (key_text "session_id" manifest)
          (elim frames [ none ↦ err no_file | some content ↦ ok content ])
          (read_log (file_lines (split_lines events)))

    module _ (blake3 : Bytes → Bytes) where
      -- A capture that the judge has accepted.
      unfoldable pub seal_capture :
          Kernel FrameRow
          → CompileRequest
          → Bytes
          → Bytes
          → Option Bytes
          → List KeptFrameRef
          → List Candidate
          → Result Bytes
      seal_capture kernel req events manifest frames refs [] = err no_candidates
      seal_capture kernel req events manifest none refs (c ∷ cs) = err no_file
      seal_capture kernel req events manifest (some content) refs (c ∷ cs) =
          compiled blake3 (kernel (capture_config req events manifest content (c ∷ cs) refs))

      -- A capture whose log and manifest are there.
      unfoldable pub compile_capture :
          Kernel FrameRow → CompileRequest → Bytes → Bytes → Option Bytes → Result Bytes
      compile_capture kernel req events manifest frames = do
        line ← decode_line t manifest
        check_tier (Json.lookup "evidence_tier" line.1)
        refs ← judged_frames events line.1 frames
        candidates ← draw_candidates t capture_claims events
        seal_capture kernel req events manifest frames refs candidates

      -- The log and the manifest have to be there.
      unfoldable pub compile_files :
          Kernel FrameRow
          → CompileRequest
          → Option Bytes
          → Option Bytes
          → Option Bytes
          → Result Bytes
      compile_files kernel req frames none manifest = err no_events
      compile_files kernel req frames (some events) none = err no_events
      compile_files kernel req frames (some events) (some manifest) =
          compile_capture kernel req events manifest frames

      unfoldable pub compile_frame_capsule :
          Kernel FrameRow → CompileRequest → CaptureDir → Result Bytes
      compile_frame_capsule kernel req dir =
          compile_files kernel req dir.frames dir.events_jsonl dir.capture_manifest
