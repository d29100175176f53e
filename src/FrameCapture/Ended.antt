-- ===== src/FrameCapture/Ended.antt =====
-- A session that has been closed has left its manifest, with its session id.
use axm_embodied.Common.{
  ℕ, ◌+◌, ◌≡◌, refl, true, String, List, [], ◌∷◌, Bytes, Bool-cases, inl, inr, ok, arith,
}
use axm_embodied.FrameCapture.{
  Texts, FrameCaptureConfig, FrameCaptureRecorder, new_capture, write_record, observe_kept,
  observe_buffered, observe_frame, close_window, flush, open_window, trigger, close,
  capture_manifest, log, first_kept, capture_trigger, capture_window_opened,
}
use axm_embodied.FrameCapture.Judge.{session_of}
use axm_embodied.FrameCapture.Session.{Op, observe, declare, finish, run_op, run}

-- Once closed, the manifest is there, and states the session.
pub record IsEnded (r : FrameCaptureRecorder) : Type 0 where
  pub stated : r.closed ≡ true → session_of r.manifest ≡ ok r.session_id

module _ (t : Texts) where
  closed-write_record :
      (fid : ℕ) (payload : Bytes) (r : FrameCaptureRecorder)
      → (write_record t fid payload r).1.closed ≡ r.closed
  unfolding write_record
  closed-write_record fid payload r = ground arith

  closed-flush :
      (buf : List (ℕ × Bytes)) (r : FrameCaptureRecorder) → (flush t buf r).1.closed ≡ r.closed
  unfolding flush
  closed-flush [] r = refl
  closed-flush ((fid, payload) ∷ rest) r =
      let r₁ : FrameCaptureRecorder = record r { buffer = rest } in
      ground (
        arith,
        closed-write_record fid payload r₁,
        closed-flush rest (write_record t fid payload r₁).1,
      )

  closed-close_window :
      (fid : ℕ) (r : FrameCaptureRecorder) → (close_window fid r).closed ≡ r.closed
  unfolding close_window
  closed-close_window fid r = ground arith

  closed-open_window :
      (fid : ℕ) (r : FrameCaptureRecorder) → (open_window t fid r).1.closed ≡ r.closed
  unfolding open_window
  closed-open_window fid r =
      let r₁ : FrameCaptureRecorder =
        record (log (capture_window_opened fid (first_kept fid r.buffer) r.sensor_id) r) {
          window_open = true;
        } in
      ground (arith, closed-flush r.buffer r₁)

  -- A call on an open recorder leaves it open.
  closed-observe_frame :
      (frame : Bytes) (r : FrameCaptureRecorder) → (observe_frame t frame r).1.closed ≡ r.closed
  unfolding observe_frame observe_kept observe_buffered
  closed-observe_frame frame r = grind (arith, closed-write_record, closed-close_window)

  closed-trigger :
      (reason source : String) (r : FrameCaptureRecorder)
      → (trigger t reason source r).1.closed ≡ r.closed
  unfolding trigger
  closed-trigger reason source r =
      let r₁ =
        log (capture_trigger r.next_frame_id reason source r.sensor_id)
          (record r { triggers = r.triggers + 1 }) in
      ground (arith, closed-open_window r.next_frame_id r₁)

  shut-observe_frame :
      (frame : Bytes) (r : FrameCaptureRecorder) → r.closed ≡ true → (observe_frame t frame r).1 ≡ r
  unfolding observe_frame
  shut-observe_frame frame r shut = ground arith

  shut-trigger :
      (reason source : String) (r : FrameCaptureRecorder)
      → r.closed ≡ true
      → (trigger t reason source r).1 ≡ r
  unfolding trigger
  shut-trigger reason source r shut = ground arith

  -- A step that does nothing on a closed recorder, and leaves an open one open.
  step-IsEnded :
      (r r' : FrameCaptureRecorder)
      → r'.closed ≡ r.closed
      → (r.closed ≡ true → r' ≡ r)
      → IsEnded r
      → IsEnded r'
  step-IsEnded r r' same unchanged h = elim (Bool-cases r.closed) [
    | inl shut ↦ rw (unchanged shut) h
    | inr live ↦ record { stated = λ shut. absurd (ground arith) }
  ]

  close-IsEnded : (r : FrameCaptureRecorder) → IsEnded r → IsEnded (close t r)
  unfolding close capture_manifest
  close-IsEnded r h = elim (Bool-cases r.closed) [
    | inl shut ↦ record { stated = λ x. ground (arith, h.stated shut) }
    | inr live ↦ record { stated = λ x. ground arith }
  ]

  run_op-IsEnded : (op : Op) (r : FrameCaptureRecorder) → IsEnded r → IsEnded (run_op t op r)
  unfolding run_op
  run_op-IsEnded (observe frame) r h =
      step-IsEnded r _ (closed-observe_frame frame r) (shut-observe_frame frame r) h
  run_op-IsEnded (declare reason source) r h =
      step-IsEnded r _ (closed-trigger reason source r) (shut-trigger reason source r) h
  run_op-IsEnded finish r h = close-IsEnded r h

  run-IsEnded : (ops : List Op) (r : FrameCaptureRecorder) → IsEnded r → IsEnded (run t ops r)
  unfolding run
  run-IsEnded [] r h = h
  run-IsEnded (op ∷ ops) r h = run-IsEnded ops (run_op t op r) (run_op-IsEnded op r h)

  pub session-IsEnded :
      (ops : List Op) (sensor_id session_id started_at : String) (config : FrameCaptureConfig)
      → IsEnded (run t ops (new_capture t sensor_id session_id started_at config))
  unfolding new_capture
  session-IsEnded ops sensor_id session_id started_at config =
      run-IsEnded ops _ (record { stated = λ shut. absurd (ground arith) })
