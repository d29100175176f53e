-- ===== src/FrameCapture/Calls.antt =====
-- Every call of a capture session keeps the invariant, whether it returns or raises.
use axm_embodied.Common.{
  ℕ, ◌+◌, ◌≤◌, ◌<◌, ◌^◌, ◌≡◌, refl, ap, ◌∙◌, true, false, List, [], ◌∷◌, ◌++◌, append-nil,
  append_assoc, ◌⊎◌, inl, inr, Bool-cases, Bytes, length, ltb, ◌==◌, ◌||◌, ok, err, Result, arith,
  String,
}
use axm_embodied.Common.Disk.{fdatasync}
use axm_embodied.Common.Int.{pos}
use axm_embodied.FrameCapture.{
  FrameCaptureRecorder, LogEntry, capture_trigger, capture_window_opened, capture_window_closed,
  new_capture, observe_kept, observe_buffered, observe_frame, close_window, flush, open_window,
  trigger, close, log, first_kept, previous,
}
use axm_embodied.FrameCapture.Records.{
  Kept, kept_refs, kept_refs-append, IsOrdered, IsOrdered-snoc, IsOrdered-le, IsOrdered-append_drop,
}
use axm_embodied.FrameCapture.Session.{Op, observe, declare, finish, run_op, run}
use native.Mathlib.Decide.{dec_lt}
use axm_embodied.FrameCapture.Invariant.{
  written, write_record_ok, write_record_id, Setting, IsWritten, IsCaptured, IsSame, same-IsWritten,
  written-IsWritten, IsFlushed, flush-IsFlushed,
}

module _ (s : Setting) where
  open s use {t, hash_size, session_id, config, small}

  -- Some frames of which all that holds.
  pub record IsCapture (r : FrameCaptureRecorder) : Type 0 where
    pub frames : List Kept
    pub captured : IsCaptured s frames r

  -- The id of a new frame is taken.
  abbrev taken : FrameCaptureRecorder → FrameCaptureRecorder
  taken r = record r { next_frame_id = r.next_frame_id + 1 }

  observe_frame_cases :
      (frame : Bytes) (r : FrameCaptureRecorder)
      → ((observe_frame t frame r).1 ≡ r)
        ⊎ ((length frame ≤ r.config.max_frame_bytes)
            × (0 < r.post_left)
            × ((observe_frame t frame r).1 ≡ (observe_kept t r.next_frame_id frame (taken r)).1))
        ⊎ ((length frame ≤ r.config.max_frame_bytes)
            × (r.post_left ≡ 0)
            × ((observe_frame t frame r).1
                ≡ (observe_buffered t r.next_frame_id frame (taken r)).1))
  unfolding observe_frame
  observe_frame_cases frame r = elim (Bool-cases r.closed) [
    | inl shut ↦ inl (ground arith)
    | inr live ↦ elim (Bool-cases (length frame == 0)) [
      | inl empty ↦ inl (ground arith)
      | inr some_bytes ↦ elim (Bool-cases (ltb r.config.max_frame_bytes (length frame))) [
        | inl long ↦ inl (ground arith)
        | inr fits ↦ elim (Bool-cases (ltb 0 r.post_left)) [
          | inl inside ↦ inr (inl (ground arith, ground arith, ground arith))
          | inr outside ↦ inr (inr (ground arith, ground arith, ground arith))
        ]
      ]
    ]
  ]

  observe_kept_ok :
      (fid : ℕ) (frame : Bytes) (r : FrameCaptureRecorder)
      → fid < 2 ^ 32
      → length frame < 2 ^ 32
      → (observe_kept t fid frame r).1 ≡ close_window fid (written t (fid, frame) r)
  unfolding observe_kept
  observe_kept_ok fid frame r hf hp = cc (write_record_ok t fid frame r hf hp)

  observe_kept_id :
      (fid : ℕ) (frame : Bytes) (r : FrameCaptureRecorder)
      → 2 ^ 32 ≤ fid
      → (observe_kept t fid frame r).1 ≡ r
  unfolding observe_kept
  observe_kept_id fid frame r hf = cc (write_record_id t fid frame r hf)

  -- A log line that is no frame_kept entry.
  kept_refs_other :
      (entry : LogEntry) (log : List LogEntry)
      → kept_refs (entry ∷ []) ≡ []
      → kept_refs (log ++ (entry ∷ [])) ≡ kept_refs log
  kept_refs_other entry log h =
      kept_refs-append log (entry ∷ [])
      ∙ ap (λ x. kept_refs log ++ x) h
      ∙ append-nil (kept_refs log)

  close_window-IsSame :
      (fid : ℕ) (r : FrameCaptureRecorder)
      → IsSame s r (close_window fid r)
        × ((close_window fid r).buffer ≡ r.buffer)
        × ((close_window fid r).next_frame_id ≡ r.next_frame_id)
  unfolding close_window kept_refs
  close_window-IsSame fid r =
      ground
        (arith, kept_refs_other (capture_window_closed (pos fid) false r.sensor_id) r.f_log refl)

  close_window-IsCaptured :
      (l : List Kept) (fid : ℕ) (r : FrameCaptureRecorder)
      → IsWritten s l r
      → IsOrdered config.max_frame_bytes 0 (l ++ r.buffer) r.next_frame_id
      → r.buffer ≡ []
      → IsCaptured s l (close_window fid r)
  close_window-IsCaptured l fid r w o e =
      let (same, buffer, next) = close_window-IsSame fid r in
      record {
        written_all = same-IsWritten s l r (close_window fid r) w same;
        ordered = rw (buffer, next) o;
        apart = inl (buffer ∙ e);
      }

  -- A frame inside a window.
  observe_kept-IsCapture :
      (l : List Kept) (frame : Bytes) (r : FrameCaptureRecorder)
      → IsCaptured s l r
      → length frame ≤ config.max_frame_bytes
      → 0 < r.post_left
      → IsCapture (observe_kept t r.next_frame_id frame (taken r)).1
  observe_kept-IsCapture l frame r h n inside =
      let empty : r.buffer ≡ [] = elim h.apart [ inl e ↦ e | inr e ↦ absurd (omega arith) ] in
      let fid = r.next_frame_id in
      let w = same-IsWritten s l r (taken r) h.written_all (refl, refl, refl, refl, refl, refl) in
      let o : IsOrdered config.max_frame_bytes 0 l fid = rw (empty, append-nil l) at h.ordered in
      elim (dec_lt fid (2 ^ 32)) [
        | yes fits ↦ rw (observe_kept_ok fid frame (taken r) fits (omega (arith, small))) (record {
          frames = l ++ ((fid, frame) ∷ []);
          captured =
              close_window-IsCaptured (l ++ ((fid, frame) ∷ [])) fid
                (written t (fid, frame) (taken r))
                (written-IsWritten s l (fid, frame) (taken r) w fits)
                (rw (empty, append-nil (l ++ ((fid, frame) ∷ [])))
                  (IsOrdered-snoc config.max_frame_bytes 0 fid l frame o n))
                empty;
        })
        | no big ↦ rw (observe_kept_id fid frame (taken r) (omega arith)) (record {
          frames = l;
          captured = record {
            written_all = w;
            ordered =
                IsOrdered-le config.max_frame_bytes 0 fid (fid + 1) (l ++ r.buffer) h.ordered
                  (omega arith);
            apart = h.apart;
          };
        })
      ]

  -- A frame outside every window.
  observe_buffered-IsCapture :
      (l : List Kept) (frame : Bytes) (r : FrameCaptureRecorder)
      → IsCaptured s l r
      → length frame ≤ config.max_frame_bytes
      → r.post_left ≡ 0
      → IsCapture (observe_buffered t r.next_frame_id frame (taken r)).1
  unfolding observe_buffered
  observe_buffered-IsCapture l frame r h n outside =
      let fid = r.next_frame_id in
      record {
        frames = l;
        captured = record {
          written_all = same-IsWritten s l r _ h.written_all (refl, refl, refl, refl, refl, refl);
          ordered =
              IsOrdered-append_drop config.max_frame_bytes 0 (fid + 1) _ l
                (r.buffer ++ ((fid, frame) ∷ []))
                (rw (append_assoc l r.buffer ((fid, frame) ∷ [])) at
                  (IsOrdered-snoc config.max_frame_bytes 0 fid (l ++ r.buffer) frame h.ordered n));
          apart = inr outside;
        };
      }

  observe_frame-IsCapture :
      (frame : Bytes) (r : FrameCaptureRecorder)
      → IsCapture r
      → IsCapture (observe_frame t frame r).1
  observe_frame-IsCapture frame r h =
      let c : r.config.max_frame_bytes ≡ config.max_frame_bytes =
        ap (λ c. c.max_frame_bytes) h.captured.written_all.config_eq in
      elim (observe_frame_cases frame r) [
        | inl same ↦ rw same h
        | inr (inl (n, inside, e)) ↦
            rw e (observe_kept-IsCapture h.frames frame r h.captured (omega (arith, c)) inside)
        | inr (inr (n, outside, e)) ↦
            rw e (observe_buffered-IsCapture h.frames frame r h.captured (omega (arith, c)) outside)
      ]

  -- The state in which a new window starts to write its history.
  abbrev opening : ℕ → FrameCaptureRecorder → FrameCaptureRecorder
  opening fid r = record (log (capture_window_opened fid (first_kept fid r.buffer) r.sensor_id) r) {
    window_open = true;
  }

  -- What `open_window` does with the outcome of the flush.
  abbrev opened : Result (Unit {0}) × FrameCaptureRecorder → FrameCaptureRecorder
  opened (ok x, r) = record r {
    f_frames = fdatasync r.f_frames;
    post_left = r.config.post_window_frames;
  }
  opened (err e, r) = r

  open_window_lem :
      (fid : ℕ) (r : FrameCaptureRecorder)
      → (open_window t fid r).1 ≡ opened (flush t r.buffer (opening fid r))
  unfolding open_window
  open_window_lem fid r = ground arith

  opened-IsCapture :
      (r : FrameCaptureRecorder) (result : Result (Unit {0})) (r' : FrameCaptureRecorder)
      → IsFlushed s r result r'
      → r.post_left ≡ 0
      → IsCapture (opened (result, r'))
  opened-IsCapture r (ok x) r' f outside = record {
    frames = f.frames;
    captured = record {
      written_all =
          same-IsWritten s f.frames r' _ f.written_all (refl, refl, refl, refl, refl, refl);
      ordered = rw f.same_next f.ordered;
      apart = inl (f.emptied refl);
    };
  }
  opened-IsCapture r (err e) r' f outside = record {
    frames = f.frames;
    captured = record {
      written_all = f.written_all;
      ordered = rw f.same_next f.ordered;
      apart = inr (f.same_left ∙ outside);
    };
  }

  open_window-IsCapture :
      (l : List Kept) (r : FrameCaptureRecorder)
      → IsCaptured s l r
      → r.post_left ≡ 0
      → IsCapture (open_window t r.next_frame_id r).1
  unfolding kept_refs
  open_window-IsCapture l r h outside =
      let fid = r.next_frame_id in
      let w = same-IsWritten s l r (opening fid r) h.written_all (
        refl,
        refl,
        refl,
        refl,
        kept_refs_other (capture_window_opened fid (first_kept fid r.buffer) r.sensor_id) r.f_log
            refl,
        refl,
      ) in
      rw (open_window_lem fid r) (
        opened-IsCapture (opening fid r) _ _
          (flush-IsFlushed s r.buffer l (opening fid r) w h.ordered refl) outside)

  -- The state once a trigger has been declared.
  abbrev declared : String → String → FrameCaptureRecorder → FrameCaptureRecorder
  declared reason source r =
      log (capture_trigger r.next_frame_id reason source r.sensor_id)
        (record r { triggers = r.triggers + 1 })

  trigger_cases :
      (reason source : String) (r : FrameCaptureRecorder)
      → ((trigger t reason source r).1 ≡ r)
        ⊎ ((trigger t reason source r).1
            ≡ record (declared reason source r) { post_left = r.config.post_window_frames })
          × (0 < r.post_left)
        ⊎ ((trigger t reason source r).1
            ≡ (open_window t r.next_frame_id (declared reason source r)).1)
          × (r.post_left ≡ 0)
  unfolding trigger
  trigger_cases reason source r = elim (Bool-cases r.closed) [
    | inl shut ↦ inl (ground arith)
    | inr live ↦ elim (Bool-cases (t.is_blank reason || t.is_blank source)) [
      | inl blank ↦ inl (ground arith)
      | inr said ↦ elim (Bool-cases (ltb 0 r.post_left)) [
        | inl inside ↦ inr (inl (ground arith, ground arith))
        | inr outside ↦ inr (inr (ground arith, ground arith))
      ]
    ]
  ]

  trigger-IsCapture :
      (reason source : String) (r : FrameCaptureRecorder)
      → IsCapture r
      → IsCapture (trigger t reason source r).1
  unfolding kept_refs
  trigger-IsCapture reason source r h =
      let l = h.frames in
      let r' = declared reason source r in
      let same : IsSame s r r' = (
        refl,
        refl,
        refl,
        refl,
        kept_refs_other (capture_trigger r.next_frame_id reason source r.sensor_id) r.f_log refl,
        refl,
      ) in
      let w = same-IsWritten s l r r' h.captured.written_all same in
      elim (trigger_cases reason source r) [
        | inl none_done ↦ rw none_done h
        | inr (inl (e, inside)) ↦ rw e (record {
          frames = l;
          captured = record {
            written_all = same-IsWritten s l r' _ w (refl, refl, refl, refl, refl, refl);
            ordered = h.captured.ordered;
            apart = elim h.captured.apart [
              | inl empty ↦ inl empty
              | inr zero_left ↦ absurd (omega arith)
            ];
          };
        })
        | inr (inr (e, outside)) ↦ rw e (
            open_window-IsCapture l r'
              (record { written_all = w; ordered = h.captured.ordered; apart = h.captured.apart })
              outside)
      ]

  close-IsSame :
      (r : FrameCaptureRecorder)
      → IsSame s r (close t r)
        × ((close t r).buffer ≡ r.buffer)
        × ((close t r).next_frame_id ≡ r.next_frame_id)
        × ((close t r).post_left ≡ r.post_left)
  unfolding close kept_refs
  close-IsSame r = ground (
    arith,
    kept_refs_other (capture_window_closed (previous r.next_frame_id) true r.sensor_id) r.f_log
        refl,
  )

  close-IsCapture : (r : FrameCaptureRecorder) → IsCapture r → IsCapture (close t r)
  close-IsCapture r h =
      let (same, buffer, next, left) = close-IsSame r in
      record {
        frames = h.frames;
        captured = record {
          written_all = same-IsWritten s h.frames r (close t r) h.captured.written_all same;
          ordered = rw (buffer, next) h.captured.ordered;
          apart = rw (buffer, left) h.captured.apart;
        };
      }

  pub run_op-IsCapture :
      (op : Op) (r : FrameCaptureRecorder) → IsCapture r → IsCapture (run_op t op r)
  unfolding run_op
  run_op-IsCapture (observe frame) r h = observe_frame-IsCapture frame r h
  run_op-IsCapture (declare reason source) r h = trigger-IsCapture reason source r h
  run_op-IsCapture finish r h = close-IsCapture r h

  pub run-IsCapture :
      (ops : List Op) (r : FrameCaptureRecorder) → IsCapture r → IsCapture (run t ops r)
  unfolding run
  run-IsCapture [] r h = h
  run-IsCapture (op ∷ ops) r h = run-IsCapture ops (run_op t op r) (run_op-IsCapture op r h)

  pub new_capture-IsCapture :
      (sensor_id started_at : String)
      → IsCapture (new_capture t sensor_id session_id started_at config)
  unfolding new_capture kept_refs
  new_capture-IsCapture sensor_id started_at = record {
    frames = [];
    captured = record {
      written_all = record {
        session_eq = refl;
        config_eq = refl;
        image = refl;
        link_eq = refl;
        refs = refl;
        count = refl;
        ids = tt;
      };
      ordered = omega arith;
      apart = inl refl;
    };
  }

  -- After any calls, whichever of them raise, frames.bin, the chain, the count and the frame_kept
  -- lines are those of one list of frames. The kept frames and then the buffered ones have increasing
  -- ids below the next one and sizes within the limit, and a buffer goes with a closed window.
  pub session-IsCapture :
      (ops : List Op) (sensor_id started_at : String)
      → IsCapture (run t ops (new_capture t sensor_id session_id started_at config))
  session-IsCapture ops sensor_id started_at =
      run-IsCapture ops (new_capture t sensor_id session_id started_at config)
        (new_capture-IsCapture sensor_id started_at)
