-- ===== src/Compile/Frames/Sealing.antt =====
-- `compile_frame_capsule` of src/axm_embodied/frame_compile.py: what has been checked of a capture
-- whose shard it reports.
use axm_embodied.Common.{
  ◌≡◌, ◌≢◌, refl, subst, String, List, [], ◌∷◌, Option, none, some, Bytes, Result, ok, err, no_file,
  arith, read_at, str_eq_iff,
}
use axm_embodied.Common.Decode.{bind_inv, key_text}
use axm_embodied.Common.Int.{ℤ}
use axm_embodied.Common.Json
use axm_embodied.Common.Json.{Json, string, Fields}
use axm_embodied.Compile.{
  Texts, Candidate, CompileRequest, Kernel, decode_line, draw_candidates, split_lines, file_lines,
}
use axm_embodied.Compile.Claims.{AreDrawn, draw_candidates-AreDrawn}
use axm_embodied.Compile.Frames.{
  FrameRow, CaptureDir, physical_tier, check_tier, capture_claims, read_log, judged_frames,
  capture_config, seal_capture, compile_capture, compile_files, compile_frame_capsule,
}
use axm_embodied.Compile.Sealing.{IsAccepted, compiled-IsAccepted}
use axm_embodied.FrameCapture as Capture
use axm_embodied.FrameCapture.{
  KeptFrameRef, LogEntry, magic_frame_file, chain_genesis, default_max_frame_bytes,
}
use axm_embodied.FrameCapture.Evidence.{AreKept, scan_frames-AreKept}
use axm_embodied.FrameCapture.Judge.{scan_frames, cross_check_log, verify}

check_tier_inv :
    (v : Option Json) {u : Unit {0}} → check_tier v ≡ ok u → v ≡ some (string physical_tier)
unfolding check_tier
check_tier_inv none e = absurd (ground arith)
check_tier_inv (some (string tier)) e = ground (arith, str_eq_iff tier physical_tier)
check_tier_inv (some v) e = absurd (ground arith)

module _ (t : Texts) (ft : Capture.Texts) (parse_int : String → Option ℤ) where
  -- What the judge has accepted: the file is whole records in one chain, and the log claims them.
  pub record IsJudged (events : Bytes) (manifest : Fields) (content : Bytes)
      (refs : List KeptFrameRef) : Type 0 where
    pub session_id : String
    pub session : key_text "session_id" manifest ≡ ok session_id
    pub magic_eq : read_at content 0 4 ≡ magic_frame_file
    pub kept : AreKept ft default_max_frame_bytes content 4 (chain_genesis ft session_id) none refs
    pub log : List LogEntry
    pub log_eq : read_log t ft parse_int (file_lines (split_lines events)) ≡ ok log
    pub agreed : cross_check_log refs log ≡ ok tt

  verify_inv :
      (manifest : Result String) (frames : Result Bytes) (events : Result (List LogEntry))
      {refs : List KeptFrameRef}
      → verify ft default_max_frame_bytes manifest frames events ≡ ok refs
      → (session_id : String) × (content : Bytes) × (log : List LogEntry) × (manifest
          ≡ ok session_id)
        × (frames ≡ ok content)
        × (events ≡ ok log)
        × (scan_frames ft default_max_frame_bytes content session_id ≡ ok refs)
        × (cross_check_log refs log ≡ ok tt)
  unfolding verify
  verify_inv manifest frames events {refs} e =
      let (session_id, session, e₁) = bind_inv manifest _ e in
      let (content, there, e₂) = bind_inv frames _ e₁ in
      let (found, scanned, e₃) =
        bind_inv (scan_frames ft default_max_frame_bytes content session_id) _ e₂ in
      let (log, read, e₄) = bind_inv events _ e₃ in
      let (u, agreed, e₅) = bind_inv (cross_check_log found log) _ e₄ in
      let same : found ≡ refs = ground arith in
      (session_id, content, log, session, there, read, rw same at scanned, rw same at agreed)

  opened_inv :
      (frames : Option Bytes) {content : Bytes}
      → (elim frames [ none ↦ err no_file | some c ↦ ok c ]) ≡ ok content
      → frames ≡ some content
  opened_inv none e = absurd (ground arith)
  opened_inv (some c) e = ground arith

  judged_frames-IsJudged :
      (events : Bytes) (manifest : Fields) (frames : Option Bytes) {refs : List KeptFrameRef}
      → judged_frames t ft parse_int events manifest frames ≡ ok refs
      → (content : Bytes) × (frames ≡ some content) × IsJudged events manifest content refs
  unfolding judged_frames
  judged_frames-IsJudged events manifest frames e =
      let (session_id, content, log, session, there, read, scanned, agreed) =
        verify_inv (key_text "session_id" manifest) _
          (read_log t ft parse_int (file_lines (split_lines events))) e in
      let (magic, kept) =
        scan_frames-AreKept ft default_max_frame_bytes content session_id scanned in
      (
        content,
        opened_inv frames there,
        record {
          session_id = session_id;
          session = session;
          magic_eq = magic;
          kept = kept;
          log = log;
          log_eq = read;
          agreed = agreed;
        },
      )

  module _ (blake3 : Bytes → Bytes) where
    -- A shard of a capture that is reported: the three files are there, the manifest states the tier,
    -- the judge has accepted the records, the log claims something, and the kernel was given just
    -- these claims, these records and the bytes of these files, and accepted.
    pub record IsSealedCapture (kernel : Kernel FrameRow) (req : CompileRequest) (dir : CaptureDir)
        (id : Bytes) : Type 0 where
      pub events : Bytes
      pub events_there : dir.events_jsonl ≡ some events
      pub manifest : Bytes
      pub manifest_there : dir.capture_manifest ≡ some manifest
      pub content : Bytes
      pub content_there : dir.frames ≡ some content
      pub text : String
      pub fields : Fields
      pub decoded : decode_line t manifest ≡ ok (text, fields)
      pub tier : Json.lookup "evidence_tier" fields ≡ some (string physical_tier)
      pub refs : List KeptFrameRef
      pub judged : IsJudged events fields content refs
      pub candidates : List Candidate
      pub drawn : AreDrawn t (capture_claims t ft) events candidates
      pub some_claim : candidates ≢ []
      pub accepted :
          IsAccepted blake3 (kernel (capture_config req events manifest content candidates refs)) id

    seal_capture_inv :
        (kernel : Kernel FrameRow) (req : CompileRequest) (events manifest content : Bytes)
        (refs : List KeptFrameRef) (candidates : List Candidate) {id : Bytes}
        → seal_capture t ft parse_int blake3 kernel req events manifest
            (some content)
            refs
            candidates
          ≡ ok id
        → (candidates ≢ [])
          × IsAccepted blake3
              (kernel (capture_config req events manifest content candidates refs))
              id
    unfolding seal_capture
    seal_capture_inv kernel req events manifest content refs [] e = cc
    seal_capture_inv kernel req events manifest content refs (c ∷ cs) e =
        ((λ empty. cc), compiled-IsAccepted blake3 _ e)

    compile_capture-IsSealed :
        (kernel : Kernel FrameRow) (req : CompileRequest) (dir : CaptureDir)
        (events manifest : Bytes) {id : Bytes}
        → dir.events_jsonl ≡ some events
        → dir.capture_manifest ≡ some manifest
        → compile_capture t ft parse_int blake3 kernel req events manifest dir.frames ≡ ok id
        → IsSealedCapture kernel req dir id
    unfolding compile_capture
    compile_capture-IsSealed kernel req dir events manifest {id} he hm e =
        let ((text, fields), decoded, e₁) = bind_inv (decode_line t manifest) _ e in
        let (u, tier, e₂) = bind_inv (check_tier (Json.lookup "evidence_tier" fields)) _ e₁ in
        let (refs, j, e₃) = bind_inv (judged_frames t ft parse_int events fields dir.frames) _ e₂ in
        let (candidates, drawn, e₄) =
          bind_inv (draw_candidates t (capture_claims t ft) events) _ e₃ in
        let (content, there, judged) = judged_frames-IsJudged events fields dir.frames j in
        let (some_claim, accepted) =
          seal_capture_inv kernel req events manifest content refs candidates (
            subst
              (λ f.
                seal_capture t ft parse_int blake3 kernel req events manifest f refs candidates
                ≡ ok id)
              there e₄) in
        record {
          events = events;
          events_there = he;
          manifest = manifest;
          manifest_there = hm;
          content = content;
          content_there = there;
          text = text;
          fields = fields;
          decoded = decoded;
          tier = check_tier_inv (Json.lookup "evidence_tier" fields) tier;
          refs = refs;
          judged = judged;
          candidates = candidates;
          drawn = draw_candidates-AreDrawn t (capture_claims t ft) events drawn;
          some_claim = some_claim;
          accepted = accepted;
        }

    compile_files-IsSealed :
        (kernel : Kernel FrameRow) (req : CompileRequest) (dir : CaptureDir) (x y : Option Bytes)
        {id : Bytes}
        → dir.events_jsonl ≡ x
        → dir.capture_manifest ≡ y
        → compile_files t ft parse_int blake3 kernel req dir.frames x y ≡ ok id
        → IsSealedCapture kernel req dir id
    unfolding compile_files
    compile_files-IsSealed kernel req dir none y hx hy e = absurd (ground arith)
    compile_files-IsSealed kernel req dir (some events) none hx hy e = absurd (ground arith)
    compile_files-IsSealed kernel req dir (some events) (some manifest) hx hy e =
        compile_capture-IsSealed kernel req dir events manifest hx hy e

    -- The id of a shard is returned only for a capture whose manifest states the physical tier, whose
    -- frames.bin is whole records in one chain from the session on, as its log claims them, and whose
    -- log makes a claim; and only if the kernel, given just these, accepts.
    pub compile_frame_capsule-IsSealed :
        (kernel : Kernel FrameRow) (req : CompileRequest) (dir : CaptureDir) {id : Bytes}
        → compile_frame_capsule t ft parse_int blake3 kernel req dir ≡ ok id
        → IsSealedCapture kernel req dir id
    unfolding compile_frame_capsule
    compile_frame_capsule-IsSealed kernel req dir e =
        compile_files-IsSealed kernel req dir dir.events_jsonl dir.capture_manifest refl refl e
