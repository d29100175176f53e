-- ===== src/Runtime/Guard.antt =====
-- `guard`, frame by frame: when the motors may move, and what is recorded either way.
use axm_embodied.Common.{
  ◌≡◌, ◌≢◌, refl, sym, ap, ◌∙◌, true, false, List, [], Option, none, some, String, All, arith,
  Result, ok, err, Option-cases, inl, inr, ◌⊎◌, buffer_size,
}
use axm_embodied.Common.Float.{Float, from_buffer}
use axm_embodied.Envelope.{bound_for}
use axm_embodied.Recorder.{CapsuleRecorder, Frame, FrameRef, record_frame}
use axm_embodied.Recorder.Frames.{IsRecordable, recorded, record_frame_ok, frozen, trigger_open}
use axm_embodied.Runtime.{
  ShadowRuntime, RuntimeState, armed, estop, Decision, permit, stop, permitted, Reason,
  prior_breach, within_envelope, latent_l_inf, breach_reason, Formatting, breach_event, with_event,
  stopped, breach, guard_stopped, guard_permitted, guard_armed, guard,
}
use axm_embodied.Runtime.Norm.{IsWithin, latent_l_inf-IsWithin, latent_l_inf_both}

-- A frame in the signed envelope: its latents are float32s, at least one, the action has a signed
-- bound, and every component is finite and at most as large as the bound.
pub record IsSafe (fr : Frame) (r : ShadowRuntime) : Type 0 where
  pub lat : List Float
  pub lat_eq : from_buffer fr.latents ≡ some lat
  pub bound : Float
  pub bound_eq : bound_for r.envelope fr.selected_action ≡ some bound
  pub nonempty : lat ≢ []
  pub within_bound : All (IsWithin bound) lat

breach_reason-none :
    (action : String) (lat : List Float) (bound : Option Float)
    → breach_reason action (latent_l_inf lat) bound ≡ none
    → (b : Float) × (bound ≡ some b) × (lat ≢ []) × All (IsWithin b) lat
unfolding breach_reason
breach_reason-none action lat none e = cc
breach_reason-none action lat (some b) e =
    let (n, w) = latent_l_inf-IsWithin lat b (ground arith) (ground arith) in (b, refl, n, w)

breach_reason_within :
    (action : String) (lat : List Float) (b : Float)
    → lat ≢ []
    → All (IsWithin b) lat
    → breach_reason action (latent_l_inf lat) (some b) ≡ none
unfolding breach_reason
breach_reason_within action lat b n w = let (h, g) = latent_l_inf_both lat b n w in rw (h, g)

pub RuntimeState-cases : (s : RuntimeState) → (s ≡ armed) ⊎ (s ≡ estop)
RuntimeState-cases armed = inl refl
RuntimeState-cases estop = inr refl

module _ (fmt : Formatting) where
  guard_armed_inv :
      (fr : Frame) (l_inf : Float) (bound : Option Float) (r : ShadowRuntime) {d : Decision}
      → (guard_armed fmt fr l_inf bound r).0 ≡ ok d
      → permitted d ≡ true
      → (breach_reason fr.selected_action l_inf bound ≡ none)
        × (d.action ≡ fr.selected_action)
        × (d.frame_id ≡ r.recorder.next_frame_id)
  unfolding guard_armed guard_permitted breach
  guard_armed_inv fr l_inf bound r e p =
      elim (Option-cases (breach_reason fr.selected_action l_inf bound)) [
        | inl within ↦ (within, ground arith, ground arith)
        | inr (reason, out) ↦ absurd (ground arith)
      ]

  pub guard_armed_lem :
      (fr : Frame) (r : ShadowRuntime) {lat : List Float}
      → from_buffer fr.latents ≡ some lat
      → r.state ≡ armed
      → guard fmt fr r
        ≡ guard_armed fmt fr (latent_l_inf lat) (bound_for r.envelope fr.selected_action) r
  unfolding guard
  guard_armed_lem fr r l s = rw (l, s)

  pub guard_estop_lem :
      (fr : Frame) (r : ShadowRuntime) {lat : List Float}
      → from_buffer fr.latents ≡ some lat
      → r.state ≡ estop
      → guard fmt fr r ≡ guard_stopped fmt fr (latent_l_inf lat) r
  unfolding guard
  guard_estop_lem fr r l s = rw (l, s)

  pub guard_buffer :
      (fr : Frame) (r : ShadowRuntime)
      → from_buffer fr.latents ≡ none
      → guard fmt fr r ≡ (err buffer_size, r)
  unfolding guard
  guard_buffer fr r l = rw l

  pub guard_stopped-ne-permit :
      (fr : Frame) (l_inf : Float) (r : ShadowRuntime) {d : Decision}
      → (guard_stopped fmt fr l_inf r).0 ≡ ok d
      → permitted d ≡ false
  unfolding guard_stopped
  guard_stopped-ne-permit fr l_inf r e = ground arith

  -- No proof, no motion: a returned permit means that the runtime was armed and that every
  -- component of the frame is finite and within the signed bound of its action, which is the
  -- action permitted, under the id of the frame that is recorded.
  pub guard_permit :
      (fr : Frame) (r : ShadowRuntime) {d : Decision}
      → (guard fmt fr r).0 ≡ ok d
      → permitted d ≡ true
      → (r.state ≡ armed)
        × (d.action ≡ fr.selected_action)
        × (d.frame_id ≡ r.recorder.next_frame_id)
        × IsSafe fr r
  guard_permit fr r {d} e p = elim (Option-cases (from_buffer fr.latents)) [
    | inl bad ↦ cc (guard_buffer fr r bad)
    | inr (lat, l) ↦ elim (RuntimeState-cases r.state) [
      | inr dead ↦ cc (
          guard_stopped-ne-permit fr (latent_l_inf lat) r
            (sym (ap (λ x. x.0) (guard_estop_lem fr r l dead)) ∙ e))
      | inl live ↦
          let (ok_reason, action, id) =
            guard_armed_inv fr _ _ r (sym (ap (λ x. x.0) (guard_armed_lem fr r l live)) ∙ e) p in
          let (b, b_eq, n, w) = breach_reason-none fr.selected_action lat _ ok_reason in
          (
            live,
            action,
            id,
            record {
              lat = lat;
              lat_eq = l;
              bound = b;
              bound_eq = b_eq;
              nonempty = n;
              within_bound = w;
            },
          )
    ]
  ]

  pub guard_permitted_ok :
      (fr : Frame) (l_inf : Float) (bound : Option Float) (r : ShadowRuntime)
      → IsRecordable fr r.recorder
      → guard_permitted fmt fr l_inf bound r ≡ (
        ok (record {
          frame_id = r.recorder.next_frame_id;
          verdict = permit;
          action = fr.selected_action;
          l_inf = l_inf;
          bound = bound;
          reason = within_envelope;
        }),
        record r { recorder = recorded fr r.recorder },
      )
  unfolding guard_permitted
  guard_permitted_ok fr l_inf bound r h = cc (record_frame_ok fr r.recorder h)

  abbrev pub stopped_ruling : Frame → Float → ShadowRuntime → Decision
  stopped_ruling fr l_inf r = record {
    frame_id = r.recorder.next_frame_id;
    verdict = stop;
    action = "emergency_stop";
    l_inf = l_inf;
    bound = bound_for r.envelope fr.selected_action;
    reason = prior_breach;
  }

  -- What a runtime does with the outcome of `record_frame` when it changes nothing else.
  abbrev pub recorded_end :
      Decision → ShadowRuntime → Result FrameRef × CapsuleRecorder → Result Decision × ShadowRuntime
  recorded_end d r (ok ref, rec) = (ok d, record r { recorder = rec })
  recorded_end d r (err e, rec) = (err e, record r { recorder = rec })

  pub guard_stopped_lem :
      (fr : Frame) (l_inf : Float) (r : ShadowRuntime)
      → guard_stopped fmt fr l_inf r
        ≡ recorded_end (stopped_ruling fr l_inf r) r (record_frame (stopped fr fr.event) r.recorder)
  unfolding guard_stopped
  guard_stopped_lem fr l_inf r = ground arith

  pub guard_stopped_ok :
      (fr : Frame) (l_inf : Float) (r : ShadowRuntime)
      → IsRecordable fr r.recorder
      → guard_stopped fmt fr l_inf r ≡ (
        ok (stopped_ruling fr l_inf r),
        record r { recorder = recorded (stopped fr fr.event) r.recorder },
      )
  guard_stopped_ok fr l_inf r h =
      guard_stopped_lem fr l_inf r
      ∙ ap (recorded_end (stopped_ruling fr l_inf r) r) (
          record_frame_ok (stopped fr fr.event) r.recorder (record {
            open_session = h.open_session;
            dim = h.dim;
            id_fits = h.id_fits;
            residual_fits = h.residual_fits;
          }))

  pub guard_within :
      (fr : Frame) (r : ShadowRuntime) (lat : List Float)
      → r.state ≡ armed
      → IsRecordable fr r.recorder
      → from_buffer fr.latents ≡ some lat
      → breach_reason fr.selected_action
          (latent_l_inf lat)
          (bound_for r.envelope fr.selected_action)
        ≡ none
      → guard fmt fr r ≡ (
        ok (record {
          frame_id = r.recorder.next_frame_id;
          verdict = permit;
          action = fr.selected_action;
          l_inf = latent_l_inf lat;
          bound = bound_for r.envelope fr.selected_action;
          reason = within_envelope;
        }),
        record r { recorder = recorded fr r.recorder },
      )
  unfolding guard_armed
  guard_within fr r lat live h l e =
      guard_armed_lem fr r l live
      ∙ rw (guard_armed, e)
          (guard_permitted_ok fr (latent_l_inf lat) (bound_for r.envelope fr.selected_action) r h)

  -- The frame that `breach` records.
  abbrev pub breach_record : Frame → Float → Option Float → Reason → ShadowRuntime → Frame
  breach_record fr l_inf bound reason r = stopped fr (
      some (
        with_event fmt fr.event
          (breach_event fmt r.envelope fr.selected_action l_inf bound reason)))

  abbrev pub breach_ruling : Float → Option Float → Reason → ShadowRuntime → Decision
  breach_ruling l_inf bound reason r = record {
    frame_id = r.recorder.next_frame_id;
    verdict = stop;
    action = "emergency_stop";
    l_inf = l_inf;
    bound = bound;
    reason = reason;
  }

  -- What `breach` does with the outcome of `record_frame`.
  abbrev pub breach_end :
      Float
      → Option Float
      → Reason
      → ShadowRuntime
      → Result FrameRef × CapsuleRecorder
      → Result Decision × ShadowRuntime
  breach_end l_inf bound reason r (ok ref, rec) = (
    ok (breach_ruling l_inf bound reason r),
    record r {
      recorder = rec;
      state = estop;
      breach_frame = some r.recorder.next_frame_id;
      breach_decision = some (breach_ruling l_inf bound reason r);
    },
  )
  breach_end l_inf bound reason r (err e, rec) = (err e, record r { recorder = rec; state = estop })

  pub breach_lem :
      (fr : Frame) (l_inf : Float) (bound : Option Float) (reason : Reason) (r : ShadowRuntime)
      → r.recorder.closed ≡ false
      → breach fmt fr l_inf bound reason r
        ≡ breach_end l_inf bound reason r
            (record_frame (breach_record fr l_inf bound reason r) (frozen r.recorder))
  unfolding breach
  breach_lem fr l_inf bound reason r c = ground (arith, trigger_open r.recorder c)

  pub breach_ok :
      (fr : Frame) (l_inf : Float) (bound : Option Float) (reason : Reason) (r : ShadowRuntime)
      → IsRecordable (breach_record fr l_inf bound reason r) (frozen r.recorder)
      → breach fmt fr l_inf bound reason r ≡ (
        ok (breach_ruling l_inf bound reason r),
        record r {
          recorder = recorded (breach_record fr l_inf bound reason r) (frozen r.recorder);
          state = estop;
          breach_frame = some r.recorder.next_frame_id;
          breach_decision = some (breach_ruling l_inf bound reason r);
        },
      )
  breach_ok fr l_inf bound reason r h =
      breach_lem fr l_inf bound reason r h.open_session
      ∙ ap (breach_end l_inf bound reason r)
          (record_frame_ok (breach_record fr l_inf bound reason r) (frozen r.recorder) h)

  -- The other way: a safe frame that the recorder can take is permitted while the runtime is
  -- armed, and is recorded as it is.
  pub guard_safe :
      (fr : Frame) (r : ShadowRuntime)
      → r.state ≡ armed
      → IsRecordable fr r.recorder
      → (safe : IsSafe fr r)
      → guard fmt fr r ≡ (
        ok (record {
          frame_id = r.recorder.next_frame_id;
          verdict = permit;
          action = fr.selected_action;
          l_inf = latent_l_inf safe.lat;
          bound = some safe.bound;
          reason = within_envelope;
        }),
        record r { recorder = recorded fr r.recorder },
      )
  unfolding guard_armed
  guard_safe fr r live h safe =
      guard_armed_lem fr r safe.lat_eq live
      ∙ ap (λ b. guard_armed fmt fr (latent_l_inf safe.lat) b r) safe.bound_eq
      ∙ rw
          (
            guard_armed,
            breach_reason_within fr.selected_action safe.lat safe.bound safe.nonempty
                safe.within_bound,
          )
          (guard_permitted_ok fr (latent_l_inf safe.lat) (some safe.bound) r h)

  -- An armed runtime answers a frame with a breach that its recorder can take by a stop: the
  -- flash freeze comes first, then the frame is recorded with the breach event in its log line,
  -- and the runtime is left stopped with this frame as its breach.
  pub guard_breach :
      (fr : Frame) (r : ShadowRuntime) (lat : List Float) (reason : Reason)
      → r.state ≡ armed
      → IsRecordable fr r.recorder
      → from_buffer fr.latents ≡ some lat
      → let l_inf = latent_l_inf lat in
        let bound = bound_for r.envelope fr.selected_action in
        breach_reason fr.selected_action l_inf bound ≡ some reason
        → guard fmt fr r ≡ (
          ok (breach_ruling l_inf bound reason r),
          record r {
            recorder = recorded (breach_record fr l_inf bound reason r) (frozen r.recorder);
            state = estop;
            breach_frame = some r.recorder.next_frame_id;
            breach_decision = some (breach_ruling l_inf bound reason r);
          },
        )
  unfolding guard_armed
  guard_breach fr r lat reason live h l e =
      guard_armed_lem fr r l live
      ∙ rw (guard_armed, e)
          (breach_ok fr (latent_l_inf lat) (bound_for r.envelope fr.selected_action) reason r
            (record {
              open_session = h.open_session;
              dim = h.dim;
              id_fits = h.id_fits;
              residual_fits = h.residual_fits;
            }))
