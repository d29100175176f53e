-- ===== src/FrameCapture/Session.antt =====
-- A capture session as its caller drives it: any sequence of calls, those that raise included.
use axm_embodied.Common.{String, List, [], ◌∷◌, Bytes}
use axm_embodied.FrameCapture.{Texts, FrameCaptureRecorder, observe_frame, trigger, close}

pub data Op : Type 0 where
  observe : Bytes → Op
  declare : String → String → Op
  finish : Op

module _ (t : Texts) where
  -- A caller that catches what a call raises goes on with the recorder as it was left.
  unfoldable pub run_op : Op → FrameCaptureRecorder → FrameCaptureRecorder
  run_op (observe frame) r = (observe_frame t frame r).1
  run_op (declare reason source) r = (trigger t reason source r).1
  run_op finish r = close t r

  unfoldable pub run : List Op → FrameCaptureRecorder → FrameCaptureRecorder
  run [] r = r
  run (op ∷ ops) r = run ops (run_op op r)
