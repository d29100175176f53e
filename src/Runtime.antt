-- ===== src/Runtime.antt =====
-- src/axm_embodied/runtime.py: the Shadow Runtime, and `latent_l_inf` of
-- src/axm_embodied/bounds.py, by which it measures a frame. How a number or a reason is written
-- out as text is a parameter (`Formatting`), and so is the compiler that `seal` hands the capsule.
pub mod Norm
pub mod Guard
pub mod Latch
pub mod Flight
pub mod Seal
mod Tests
use axm_embodied.Common.{
  ℕ, String, Bool, true, false, not, List, [], ◌∷◌, Option, none, some, Bytes, if◌then◌else◌,
  Action, Result, ok, err, pure, gets, or_raise, modify, within, ◌>>=◌, ◌>>◌, buffer_size,
}
use axm_embodied.Common.Float.{Float, infinite, is_finite, abs, maximum, gt, from_buffer}
use axm_embodied.Common.Json.{Json, string, number, Fields, field, end, update}
use axm_embodied.Envelope.{SafetyEnvelope, bound_for}
use axm_embodied.Gate.{Clearance}
use axm_embodied.Recorder.{CapsuleRecorder, Frame, FrameRef, record_frame, trigger, close}

-- `np.abs(latents).max()`, from the running maximum `m` on.
unfoldable pub fold_max : Float → List Float → Float
fold_max m [] = m
fold_max m (x ∷ xs) = fold_max (maximum m (abs x)) xs

abbrev pub clamp_finite : Float → Float
clamp_finite m = if is_finite m then m else infinite false

unfoldable pub latent_l_inf : List Float → Float
unfolding fold_max
latent_l_inf [] = infinite false
latent_l_inf (x ∷ xs) = clamp_finite (fold_max (abs x) xs)

pub data RuntimeState : Type 0 where
  armed estop : RuntimeState

pub data Verdict : Type 0 where
  permit stop : Verdict

pub data Reason : Type 0 where
  prior_breach non_finite within_envelope : Reason
  no_signed_bound : String → Reason
  exceeds : Float → Float → Reason

pub record Decision : Type 0 where
  pub frame_id : ℕ
  pub verdict : Verdict
  pub action : String
  pub l_inf : Float
  pub bound : Option Float
  pub reason : Reason

abbrev pub permitted : Decision → Bool
permitted d = elim d.verdict [ permit ↦ true | stop ↦ false ]

pub record ShadowRuntime : Type 0 where
  pub envelope : SafetyEnvelope
  pub recorder : CapsuleRecorder
  pub state : RuntimeState
  pub breach_frame : Option ℕ
  pub breach_decision : Option Decision

-- `ShadowRuntime.__init__`
unfoldable pub new_runtime : Clearance → CapsuleRecorder → ShadowRuntime
new_runtime c recorder = record {
  envelope = c.envelope;
  recorder = recorder;
  state = armed;
  breach_frame = none;
  breach_decision = none;
}

-- The breach, if the frame is one: the ladder of tests in `guard`.
unfoldable pub breach_reason : String → Float → Option Float → Option Reason
breach_reason action l_inf none = some (no_signed_bound action)
breach_reason action l_inf (some bound) =
    if not (is_finite l_inf)
    then some non_finite
    else if gt l_inf bound
    then some (exceeds l_inf bound)
    else none

-- `round(x, 6)`, the text of a reason, and "sh1_" with the digits of an id.
pub record Formatting : Type 0 where
  pub round6 : Float → Float
  pub reason_text : Reason → String
  pub shard_text : Bytes → String

abbrev put_recorder : CapsuleRecorder → ShadowRuntime → ShadowRuntime
put_recorder rec r = record r { recorder = rec }

abbrev pub recording : {A : Type 0} → Action CapsuleRecorder A → Action ShadowRuntime A
recording = within (λ r. r.recorder) put_recorder

-- What is recorded of a frame for which the motors are stopped.
abbrev pub stopped : Frame → Option Fields → Frame
stopped fr event = record fr { selected_action = "emergency_stop"; event = event }

module _ (fmt : Formatting) where
  abbrev pub breach_event : SafetyEnvelope → String → Float → Option Float → Reason → Fields
  breach_event envelope action l_inf bound reason = field "evt" (string "envelope_breach") (
      field "action" (string action) (
        field "l_inf" (if is_finite l_inf then number (fmt.round6 l_inf) else string "inf") (
          field "bound" (elim bound [ none ↦ string "none" | some b ↦ number b ])
            (field "envelope_shard_id" (string (fmt.shard_text envelope.shard_id))
              (field "reason" (string (fmt.reason_text reason)) end)))))

  -- `{**event, **breach_event}`
  abbrev pub with_event : Option Fields → Fields → Fields
  with_event none breach = breach
  with_event (some event) breach = update event breach

  unfoldable pub breach : Frame → Float → Option Float → Reason → Action ShadowRuntime Decision
  breach fr l_inf bound reason = do
    recording trigger
    modify (λ r. record r { state = estop })
    frame_id ← gets (λ r. r.recorder.next_frame_id)
    envelope ← gets (λ r. r.envelope)
    let event = breach_event envelope fr.selected_action l_inf bound reason
    recording (record_frame (stopped fr (some (with_event fr.event event))))
    let decision : Decision = record {
      frame_id = frame_id;
      verdict = stop;
      action = "emergency_stop";
      l_inf = l_inf;
      bound = bound;
      reason = reason;
    }
    modify (λ r. record r { breach_frame = some frame_id; breach_decision = some decision })
    pure decision

  -- A frame after the breach.
  unfoldable pub guard_stopped : Frame → Float → Action ShadowRuntime Decision
  guard_stopped fr l_inf = do
    frame_id ← gets (λ r. r.recorder.next_frame_id)
    envelope ← gets (λ r. r.envelope)
    recording (record_frame (stopped fr fr.event))
    pure (record {
      frame_id = frame_id;
      verdict = stop;
      action = "emergency_stop";
      l_inf = l_inf;
      bound = bound_for envelope fr.selected_action;
      reason = prior_breach;
    })

  -- A frame in the envelope.
  unfoldable pub guard_permitted : Frame → Float → Option Float → Action ShadowRuntime Decision
  guard_permitted fr l_inf bound = do
    frame_id ← gets (λ r. r.recorder.next_frame_id)
    recording (record_frame fr)
    pure (record {
      frame_id = frame_id;
      verdict = permit;
      action = fr.selected_action;
      l_inf = l_inf;
      bound = bound;
      reason = within_envelope;
    })

  unfoldable pub guard_armed : Frame → Float → Option Float → Action ShadowRuntime Decision
  guard_armed fr l_inf bound = elim (breach_reason fr.selected_action l_inf bound) [
    | none ↦ guard_permitted fr l_inf bound
    | some reason ↦ breach fr l_inf bound reason
  ]

  unfoldable pub guard : Frame → Action ShadowRuntime Decision
  guard fr = do
    lat ← or_raise (from_buffer fr.latents) buffer_size
    let l_inf = latent_l_inf lat
    state ← gets (λ r. r.state)
    envelope ← gets (λ r. r.envelope)
    elim state [
      | estop ↦ guard_stopped fr l_inf
      | armed ↦ guard_armed fr l_inf (bound_for envelope fr.selected_action)
    ]
