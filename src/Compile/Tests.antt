-- ===== src/Compile/Tests.antt =====
-- A log of three lines, of which the last repeats the first, and a capture of one frame. A line is one
-- letter, which `loads` spells out.
use axm_embodied.Common.{
  true, false, List, [], ◌∷◌, none, some, Bytes, All, if◌then◌else◌, ok, hex, str_eq, bytes_eq, ◌≡◌,
  refl,
}
use axm_embodied.Common.Json.{string, integer, object, Fields, field, end}
use axm_embodied.Compile.{
  Texts, Candidate, claim, breach_claim, add, add_all, decode_line, kind_claims, action_claims,
  event_claims, extract_lines, draw_candidates, extract_candidates, split_lines, CompileRequest,
  CapsuleDir, Kernel, decode_events, judged_rows, compile_claims, compile_capsule,
}
use axm_embodied.Compile.Breach.{IsWitnessed, IsCited, extract_candidates_cites}
use axm_embodied.Compile.Claims.{AreDrawn, Mem, keys_of, draw_candidates-AreDrawn}
use axm_embodied.Compile.Frames.{
  CaptureDir, capture_claims, check_tier, kept_claim, read_log, judged_frames, seal_capture,
  compile_capture, compile_files, compile_frame_capsule,
}
use axm_embodied.Compile.Frames.Sealing.{IsSealedCapture, compile_frame_capsule-IsSealed}
use axm_embodied.Compile.Sealing.{IsSealed, compile_capsule-IsSealed}
use axm_embodied.FrameCapture as Capture
use axm_embodied.FrameCapture.{chain_next}
use axm_embodied.FrameCapture.Judge.{
  verify, scan_frames, frame_loop, frame_round, check_header, check_payload, cross_check_log,
  check_claims, check_claim,
}
use axm_embodied.FrameCapture.Tests.{padded, payload, link, capture}
use axm_embodied.Protocol.{unpack_header}
use axm_embodied.Streams.{
  build_streams_evidence, all_rows, event_rows, judge, scan_residuals, scan_loop, scan_round,
  scan_record, indexed, verify_latent, verify_at, verify_header, verify_payload,
}
use axm_embodied.Streams.Tests.{step_event, one_latent, torn_file, first_two, no_texts}

abbrev breach_event : Fields
breach_event = field "evt" (string "envelope_breach") (
    field "robot_id" (string "r1")
      (field "action" (string "SAFE") (field "l_inf" (integer 9) step_event)))

abbrev slip_event : Fields
slip_event = field "evt" (string "wheel_slip") step_event

abbrev manifest_fields : Fields
manifest_fields =
    field "evidence_tier" (string "physical_capture") (field "session_id" (string "s1") end)

abbrev kept_event : Fields
kept_event = field "evt" (string "frame_kept") (
    field "frame_id" (integer 3) (
      field "content_sha256" (string "hash") (
        field "chain" (string "link") (
          field "stream_refs"
            (object (
              field "frames" (object (field "offset" (integer 4) (field "length" (integer 79) end)))
                end))
            end))))

abbrev texts : Texts
texts = record {
  decode = λ b. some (
      if bytes_eq b (b'B' ∷ [])
      then "B"
      else if bytes_eq b (b'M' ∷ [])
      then "M"
      else if bytes_eq b (b'K' ∷ [])
      then "K"
      else "S");
  loads = λ s. some (
      object (
        if str_eq s "B"
        then breach_event
        else if str_eq s "M"
        then manifest_fields
        else if str_eq s "K"
        then kept_event
        else slip_event));
  str = λ v. elim v [ string s ↦ s | _ ↦ "?" ];
  dumps = λ v. "{}";
}

abbrev log : Bytes
log = b'B' ∷ 10 ∷ b'S' ∷ 10 ∷ b'B' ∷ []

abbrev id : Bytes
id = 1 ∷ 2 ∷ []

abbrev drawn : List Candidate
drawn =
    breach_claim texts (some id) (string "r1") "B" breach_event
    ∷ claim (string "breach/frame-?") "observed_l_inf" (string "?") "literal:decimal" 1 "B"
    ∷ claim (string "robot-001") "observed" (string "wheel_slip") "entity" 2 "S"
    ∷ []

draws : extract_candidates texts (some id) log ≡ ok drawn
unfolding draw_candidates extract_lines decode_line event_claims kind_claims action_claims add_all
    add
draws = refl

draw_candidates-AreDrawn_example : AreDrawn texts (event_claims texts (some id)) log drawn
draw_candidates-AreDrawn_example =
    draw_candidates-AreDrawn texts (event_claims texts (some id)) log draws

extract_candidates_cites_example :
    ((c : Candidate) → Mem c drawn → IsWitnessed texts (some id) (split_lines log) c)
    × All (IsCited texts (some id) (keys_of texts drawn)) (split_lines log)
extract_candidates_cites_example = extract_candidates_cites texts (some id) log draws

abbrev request : CompileRequest
request = record {
  name = "flight";
  out_path = "shard";
  secret_key = [];
  timestamp = none;
  now = "2026-01-01T00:00:00Z";
}

abbrev dir : CapsuleDir
dir = record {
  events_jsonl = some (b'B' ∷ 10 ∷ []);
  cam_latents = some one_latent;
  cam_residuals = some torn_file;
}

abbrev accepts : {R : Type 0} → Kernel R
accepts cfg = (true, some (7 ∷ []))

abbrev same : Bytes → Bytes
same b = b

compiles :
    compile_capsule texts first_two no_texts same accepts (some id) request dir ≡ ok (hex (7 ∷ []))
unfolding compile_capsule compile_claims judged_rows decode_events draw_candidates extract_lines
    decode_line event_claims kind_claims action_claims add_all add build_streams_evidence all_rows
    event_rows judge scan_residuals scan_loop scan_round scan_record indexed verify_latent verify_at
    verify_header verify_payload unpack_header
compiles = refl

compile_capsule-IsSealed_example :
    IsSealed texts first_two no_texts same accepts (some id) request dir (hex (7 ∷ []))
compile_capsule-IsSealed_example =
    compile_capsule-IsSealed texts first_two no_texts same accepts (some id) request dir compiles

abbrev capture_texts : Capture.Texts
capture_texts = record {
  sha256 = padded;
  utf8 = λ s.
      if str_eq s "hash"
      then hex (padded payload)
      else if str_eq s "link"
      then hex link
      else 1 ∷ [];
  is_blank = λ s. false;
}

abbrev capture_dir : CaptureDir
capture_dir = record {
  events_jsonl = some (b'K' ∷ 10 ∷ []);
  capture_manifest = some (b'M' ∷ []);
  frames = some capture;
}

compiles_frames :
    compile_frame_capsule texts capture_texts no_texts same accepts request capture_dir
    ≡ ok (hex (7 ∷ []))
unfolding compile_frame_capsule compile_files compile_capture seal_capture judged_frames read_log
    kept_claim check_tier capture_claims draw_candidates extract_lines decode_line add_all add
    verify scan_frames frame_loop frame_round check_header check_payload chain_next unpack_header
    cross_check_log check_claims check_claim
compiles_frames = refl

compile_frame_capsule-IsSealed_example :
    IsSealedCapture texts capture_texts no_texts same accepts request capture_dir (hex (7 ∷ []))
compile_frame_capsule-IsSealed_example =
    compile_frame_capsule-IsSealed texts capture_texts no_texts same accepts request capture_dir
      compiles_frames
