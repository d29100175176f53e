-- ===== src/FrameCapture/Tests.antt =====
-- A capture of one kept frame. The digest is a stand-in: the first 32 bytes, padded with zeros.
use axm_embodied.Common.{
  ℕ, zero, suc, ◌≡◌, ◌≢◌, refl, true, false, [], ◌∷◌, ◌++◌, none, Bytes, take, hex, le32, read_at,
  ok, err, out_of_fuel, List, length, length-take, length-append, arith,
}
use axm_embodied.FrameCapture.{
  Texts, KeptFrameRef, chain_genesis, chain_next, magic_frame_file, magic_frame_rec,
}
use axm_embodied.FrameCapture.Judge.{
  scan_frames, frame_loop, frame_round, check_header, check_payload,
}
use axm_embodied.FrameCapture.Evidence.{AreKept, scan_frames-AreKept, scan_frames-ne-out_of_fuel}
use axm_embodied.FrameCapture.{
  FrameCaptureConfig, new_capture, observe_frame, observe_kept, observe_buffered, trigger,
  open_window, flush, write_record, close_window, close,
}
use axm_embodied.FrameCapture.Calls.{IsCapture, session-IsCapture}
use axm_embodied.FrameCapture.Invariant.{Setting}
use axm_embodied.FrameCapture.Judge.{session_of, verify}
use axm_embodied.FrameCapture.Records.{kept_refs}
use axm_embodied.FrameCapture.RoundTrip.{verify-run}
use axm_embodied.FrameCapture.Session.{Op, observe, declare, finish, run_op, run}
use axm_embodied.Protocol.{header_bytes, pack_header, unpack_header}

abbrev zeros : ℕ → Bytes
zeros zero = []
zeros (suc n) = 0 ∷ zeros n

abbrev pub padded : Bytes → Bytes
padded b = take 32 (b ++ zeros 32)

abbrev pub texts : Texts
texts = record { sha256 = padded; utf8 = λ s. 1 ∷ []; is_blank = λ s. false }

abbrev pub payload : Bytes
payload = 4 ∷ 5 ∷ []

abbrev pub link : Bytes
link = padded (chain_genesis texts "s1" ++ padded payload ++ le32 3)

abbrev pub capture : Bytes
capture =
    magic_frame_file ++ (header_bytes magic_frame_rec 3 2 ++ (padded payload ++ (link ++ payload)))

abbrev pub kept_frame : KeptFrameRef
kept_frame = record {
  frame_id = 3;
  offset = 4;
  len = 79;
  content_sha256 = hex (padded payload);
  chain = hex link;
}

accepted : scan_frames texts 1000 capture "s1" ≡ ok (kept_frame ∷ [])
unfolding scan_frames frame_loop frame_round check_header check_payload chain_next unpack_header
accepted = refl

scan_frames-AreKept_example :
    (read_at capture 0 4 ≡ magic_frame_file)
    × AreKept texts 1000 capture 4 (chain_genesis texts "s1") none (kept_frame ∷ [])
scan_frames-AreKept_example = scan_frames-AreKept texts 1000 capture "s1" accepted

scan_frames-ne-out_of_fuel_example : scan_frames texts 1000 capture "s1" ≢ err out_of_fuel
scan_frames-ne-out_of_fuel_example = scan_frames-ne-out_of_fuel texts 1000 capture "s1"

abbrev small_config : FrameCaptureConfig
small_config = record { pre_window_frames = 1; post_window_frames = 1; max_frame_bytes = 100 }

padded_size : (b : Bytes) → length (padded b) ≡ 32
padded_size b = omega (arith, length-take 32 (b ++ zeros 32), length-append b (zeros 32))

abbrev setting : Setting
setting = record {
  t = texts;
  hash_size = padded_size;
  session_id = "s1";
  config = small_config;
  small = omega arith;
}

-- Two frames before the trigger, two after it, an empty frame, and the end inside no window.
abbrev calls : List Op
calls =
    observe (1 ∷ [])
    ∷ observe (2 ∷ [])
    ∷ declare "motion" "pir"
    ∷ observe (3 ∷ [])
    ∷ observe []
    ∷ observe (4 ∷ [])
    ∷ finish
    ∷ []

session-IsCapture_example :
    IsCapture setting (run texts calls (new_capture texts "cam" "s1" "now" small_config))
session-IsCapture_example = session-IsCapture setting calls "cam" "now"

ended : (run texts calls (new_capture texts "cam" "s1" "now" small_config)).closed ≡ true
unfolding run run_op new_capture observe_frame observe_kept observe_buffered trigger open_window
    flush write_record chain_next pack_header close_window close
ended = refl

verify-run_example :
    let r = run texts calls (new_capture texts "cam" "s1" "now" small_config) in
    verify texts 1000 (session_of r.manifest) (ok r.f_frames.content) (ok r.f_log)
    ≡ ok (kept_refs r.f_log)
verify-run_example = verify-run setting calls "cam" "now" 1000 (omega arith) ended
