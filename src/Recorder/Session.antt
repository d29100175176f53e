-- ===== src/Recorder/Session.antt =====
-- A session as its caller drives it: any sequence of calls, those that raise included.
use axm_embodied.Common.{List, [], ◌∷◌}
use axm_embodied.Recorder.{CapsuleRecorder, Frame, record_frame, trigger, close}

pub data Op : Type 0 where
  frame : Frame → Op
  freeze : Op
  finish : Op

-- A caller that catches what a call raises goes on with the recorder as it was left.
unfoldable pub run_op : Op → CapsuleRecorder → CapsuleRecorder
run_op (frame fr) r = (record_frame fr r).1
run_op freeze r = (trigger r).1
run_op finish r = close r

unfoldable pub run : List Op → CapsuleRecorder → CapsuleRecorder
run [] r = r
run (op ∷ ops) r = run ops (run_op op r)
