-- ===== src/Recorder/Freeze.antt =====
-- Flash Freeze at the level of a session: which residuals reach cam_residuals.bin.
use axm_embodied.Common.{
  ℕ, ◌+◌, ◌^◌, ◌≤◌, ◌≡◌, refl, ap, ◌∙◌, false, List, [], ◌∷◌, ◌++◌, map, none, some, Bytes, length,
  take, concat, arith, All, String,
}
use axm_embodied.Recorder.{
  CapsuleRecorder, ResidualBuffer, Frame, trigger, new_recorder, RecorderConfig, last_n,
}
use axm_embodied.Recorder.Cold.{push_all, freeze_content}
use axm_embodied.Recorder.Frames.{
  resid_blob, ResidualFits, IsRecordable, record_frame_ok, recorded, pushed, frozen, trigger_open,
}
use axm_embodied.Recorder.Hot.{IsLatent}
use axm_embodied.Recorder.Session.{frame, run_op, run}

-- The cold-stream records of frames that begin at id `k`; a frame may carry no residual.
abbrev pub blobs : ℕ → List Frame → List Bytes
blobs k [] = []
blobs k (fr ∷ frs) = elim fr.residual [
  | none ↦ blobs (k + 1) frs
  | some payload ↦ resid_blob k payload ∷ blobs (k + 1) frs
]

abbrev pub IsFit : Frame → Type 0
IsFit fr = IsLatent fr.latents × ResidualFits fr.residual

pub record IsRecorded (frs : List Frame) (r r' : CapsuleRecorder) : Type 0 where
  pub cold : r'.residuals ≡ push_all (blobs r.next_frame_id frs) r.residuals
  pub next_id : r'.next_frame_id ≡ r.next_frame_id + length frs
  pub still_open : r'.closed ≡ false

push_first :
    (k : ℕ) (fr : Frame) (frs : List Frame) (b : ResidualBuffer)
    → push_all (blobs (k + 1) frs) (pushed k fr.residual b) ≡ push_all (blobs k (fr ∷ frs)) b
unfolding push_all
push_first k fr frs b = ground arith

frames_cold :
    (frs : List Frame) (r : CapsuleRecorder)
    → All IsFit frs
    → r.closed ≡ false
    → r.next_frame_id + length frs ≤ 2 ^ 32
    → IsRecorded frs r (run (map frame frs) r)
unfolding run run_op push_all
frames_cold [] r h c n = record { cold = refl; next_id = omega arith; still_open = c }
frames_cold (fr ∷ frs) r (hf, h) c n =
    let ih = frames_cold frs (recorded fr r) h c (omega arith) in
    let fits : IsRecordable fr r = record {
      open_session = c;
      dim = hf.0;
      id_fits = omega arith;
      residual_fits = hf.1;
    } in
    rw (record_frame_ok fr r fits, run, run_op)
      (record {
        cold = ih.cold ∙ push_first r.next_frame_id fr frs r.residuals;
        next_id = omega (arith, ih.next_id);
        still_open = ih.still_open;
      })

-- The pre-window and the post-window of a session of at most 2^32 frames that the recorder
-- takes. Before the freeze the frames `xs` are recorded, after it the frames `ys`: the cold
-- stream then holds the newest residuals of `xs`, as many as the pre-window, followed by the
-- first of `ys`, as many as the post-window, and nothing else.
pub session_freeze :
    (xs ys : List Frame) (robot_id session_id path started_at : String) (config : RecorderConfig)
    → All IsFit xs
    → All IsFit ys
    → length xs + length ys ≤ 2 ^ 32
    → let before = run (map frame xs) (new_recorder robot_id session_id path started_at config) in
      (run (map frame ys) (trigger before).1).residuals.f.content
      ≡ concat (last_n config.pre_window_frames (blobs 0 xs))
        ++ concat (take config.post_window_frames (blobs (length xs) ys))
unfolding new_recorder
session_freeze xs ys robot_id session_id path started_at config hx hy n =
    let r = new_recorder robot_id session_id path started_at config in
    let before = run (map frame xs) r in
    let x = frames_cold xs r hx refl (omega arith) in
    let y = frames_cold ys (frozen before) hy x.still_open (omega (arith, x.next_id)) in
    let next : before.next_frame_id ≡ length xs = omega (arith, x.next_id) in
    ap (λ t. (run (map frame ys) t.1).residuals.f.content) (trigger_open before x.still_open)
    ∙ ap (λ b. b.f.content) y.cold
    ∙ rw (next, x.cold)
        (freeze_content (blobs 0 xs) (blobs (length xs) ys) r.residuals refl (omega arith))
