-- ===== src/Recorder/Tests.antt =====
-- A short session: two frames, a freeze, a frame with a payload of another size, one more frame.
use axm_embodied.Common.{
  ℕ, zero, suc, ◌+◌, ◌*◌, ◌≡◌, refl, true, List, [], ◌∷◌, ◌++◌, map, some, Bytes, take, concat, ok,
  arith,
}
use axm_embodied.Common.Json.{string, field, end}
use axm_embodied.Protocol.{file_header_len, latent_rec_len}
use axm_embodied.Recorder.{
  CapsuleRecorder, Frame, RecorderConfig, new_recorder, record_frame, trigger, last_n,
}
use axm_embodied.Recorder.Frames.{IsRecordable, hot_blob, record_frame_ok}
use axm_embodied.Recorder.Freeze.{blobs, session_freeze}
use axm_embodied.Recorder.Hot.{
  IsHot, payloads, IsHot-stream_gap_free, record_frame_acknowledged, new_recorder-IsHot,
}
use axm_embodied.Recorder.Session.{Op, frame, freeze, finish, run}

abbrev bytes_of : ℕ → ℕ → Bytes
bytes_of zero b = []
bytes_of (suc n) b = b ∷ bytes_of n b

abbrev frame_of : ℕ → Frame
frame_of b = record {
  latents = bytes_of 256 b;
  selected_action = "walk";
  action_distribution = end;
  residual = some (b ∷ []);
  event = some (field "evt" (string "step") end);
}

abbrev short_frame : Frame
short_frame = record (frame_of 9) { latents = 1 ∷ [] }

abbrev small_config : RecorderConfig
small_config = record { pre_window_frames = 1; post_window_frames = 1; fsync_every_frame = true }

abbrev recorder : CapsuleRecorder
recorder = new_recorder "r1" "s1" "out" "t" small_config

abbrev session : List Op
session =
    frame (frame_of 1)
    ∷ frame (frame_of 2)
    ∷ freeze
    ∷ frame short_frame
    ∷ frame (frame_of 3)
    ∷ finish
    ∷ []

IsHot-stream_gap_free_example : IsHot (payloads session recorder) (run session recorder)
IsHot-stream_gap_free_example = IsHot-stream_gap_free session "r1" "s1" "out" "t" small_config

-- Of two frames before the freeze and two after it, the middle two reach the cold stream.
session_freeze_example :
    (run
      (map frame (frame_of 3 ∷ frame_of 4 ∷ []))
      (trigger (run (map frame (frame_of 1 ∷ frame_of 2 ∷ [])) recorder)).1).residuals.f.content
    ≡ concat (last_n 1 (blobs 0 (frame_of 1 ∷ frame_of 2 ∷ [])))
      ++ concat (take 1 (blobs 2 (frame_of 3 ∷ frame_of 4 ∷ [])))
session_freeze_example =
    session_freeze (frame_of 1 ∷ frame_of 2 ∷ []) (frame_of 3 ∷ frame_of 4 ∷ []) "r1" "s1" "out" "t"
      small_config ((refl, omega arith), ((refl, omega arith), tt))
      ((refl, omega arith), ((refl, omega arith), tt)) (omega arith)

recorder_takes : IsRecordable (frame_of 1) recorder
unfolding new_recorder
recorder_takes = record {
  open_session = refl;
  dim = refl;
  id_fits = omega arith;
  residual_fits = omega arith;
}

first_ref :
    (record_frame (frame_of 1) recorder).0
    ≡ ok (record { frame_id = 0; offset = 4; len = latent_rec_len })
unfolding new_recorder
first_ref = rw (record_frame_ok (frame_of 1) recorder recorder_takes)

record_frame_acknowledged_example :
    (0 ≡ recorder.next_frame_id)
    × (4 ≡ file_header_len + 0 * latent_rec_len)
    × ((record_frame (frame_of 1) recorder).1.f_lat.durable ≡ 4 + latent_rec_len)
    × ((record_frame (frame_of 1) recorder).1.f_lat.content
        ≡ recorder.f_lat.content ++ hot_blob 0 (frame_of 1).latents)
unfolding new_recorder
record_frame_acknowledged_example =
    record_frame_acknowledged (frame_of 1) [] recorder
      (new_recorder-IsHot "r1" "s1" "out" "t" small_config) refl first_ref
