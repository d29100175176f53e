-- ===== src/Runtime/Seal.antt =====
-- `ShadowRuntime.seal` and what it says of a flight. The compiler of the incident shard and the
-- queue of attestations are an interface of two calls (`IncidentTools`).
use axm_embodied.Common.{
  ℕ, ◌+◌, ◌^◌, ◌≤◌, ◌<◌, ◌≡◌, ◌≢◌, ◌↔◌, refl, sym, ap, ◌∙◌, true, false, List, [], ◌∷◌, Option,
  none, some, String, Bytes, All, arith, Action, Result, ok, err, length, latent_length,
}
use axm_embodied.Common.Float.{Float, from_buffer}
use axm_embodied.Envelope.{bound_for}
use axm_embodied.Gate.{Clearance}
use axm_embodied.Protocol.{latent_dim}
use axm_embodied.Recorder.{CapsuleRecorder, RecorderConfig, Frame, trigger, close, new_recorder}
use axm_embodied.Recorder.Frames.{record_frame_dim, frozen, trigger_open}
use axm_embodied.Recorder.Freeze.{IsFit}
use axm_embodied.Runtime.{
  ShadowRuntime, armed, estop, Decision, permitted, Reason, Formatting, latent_l_inf, breach_reason,
  guard_armed, guard, new_runtime,
}
use axm_embodied.Runtime.Guard.{guard_armed_lem, breach_lem, breach_end, breach_record}
use axm_embodied.Runtime.Latch.{fly}
use axm_embodied.Runtime.Flight.{AreRulings, IsTracked, clean, dead, fly-IsFlown}

pub record Incident : Type 0 where
  pub capsule_path : String
  pub breach_frame : ℕ
  pub shard_path : Option String
  pub shard_id : Option Bytes
  pub envelope_shard_id : Bytes
  pub attestation_path : Option String

-- `compile_capsule` of the closed capsule to a directory with a key, citing an envelope, and
-- `queue_attestation` of the shard with its note (the breach frame and the envelope); the default
-- queue is a directory beside the shard.
pub record IncidentTools : Type 0 where
  pub compile_capsule : CapsuleRecorder → String → Bytes → Option String → Bytes → Result Bytes
  pub default_queue : String → String
  pub queue_attestation : String → String → ℕ → Bytes → Result String

-- What the caller asks for.
pub record SealRequest : Type 0 where
  pub shard_out : Option String
  pub secret_key : Option Bytes
  pub timestamp : Option String
  pub attest_queue : Option String

module _ (tools : IncidentTools) where
  abbrev pub incident : ℕ → ShadowRuntime → Incident
  incident k r = record {
    capsule_path = r.recorder.path;
    breach_frame = k;
    shard_path = none;
    shard_id = none;
    envelope_shard_id = r.envelope.shard_id;
    attestation_path = none;
  }

  -- The shard of the incident is compiled, then its attestation is queued.
  unfoldable pub compile_incident :
      SealRequest → String → Bytes → ℕ → ShadowRuntime → Result Incident
  compile_incident req out key k r =
      elim (tools.compile_capsule r.recorder out key req.timestamp r.envelope.shard_id) [
        | err e ↦ err e
        | ok id ↦
            elim (tools.queue_attestation out
              (elim req.attest_queue [ none ↦ tools.default_queue out | some q ↦ q ]) k
              r.envelope.shard_id) [
                | err e ↦ err e
                | ok path ↦ ok (record (incident k r) {
                  shard_path = some out;
                  shard_id = some id;
                  attestation_path = some path;
                })
              ]
      ]

  unfoldable pub incident_of :
      SealRequest → Option String → Option Bytes → ℕ → ShadowRuntime → Result Incident
  unfolding compile_incident
  incident_of req (some out) (some key) k r = compile_incident req out key k r
  incident_of req out key k r = ok (incident k r)

  abbrev to_option : Result Incident → Result (Option Incident)
  to_option (ok i) = ok (some i)
  to_option (err e) = err e

  unfoldable pub seal : SealRequest → Action ShadowRuntime (Option Incident)
  unfolding incident_of
  seal req r =
      let r' : ShadowRuntime = record r { recorder = close r.recorder } in
      elim r'.breach_frame [
        | none ↦ (ok none, r')
        | some k ↦ (to_option (incident_of req req.shard_out req.secret_key k r'), r')
      ]

  to_option-ne-none : (i : Result Incident) → to_option i ≢ ok none
  to_option-ne-none (ok i) e = cc
  to_option-ne-none (err x) e = cc

  seal-none :
      (req : SealRequest) (r : ShadowRuntime) → r.breach_frame ≡ none → (seal req r).0 ≡ ok none
  unfolding seal
  seal-none req r h = rw h refl

  seal-some :
      (req : SealRequest) (r : ShadowRuntime) (k : ℕ)
      → r.breach_frame ≡ some k
      → (seal req r).0 ≢ ok none
  unfolding seal
  seal-some req r k h = rw h (to_option-ne-none _)

-- Every ruling is a permit.
abbrev pub IsPermit : Result Decision → Type 0
IsPermit (ok d) = permitted d ≡ true
IsPermit (err e) = ⊥

All-IsPermit : (k : ℕ) (ds : List (Result Decision)) → AreRulings k none ds → All IsPermit ds
All-IsPermit k [] h = tt
All-IsPermit k (ok d ∷ ds) ((i, p), h) = (p, All-IsPermit (k + 1) ds h)
All-IsPermit k (err e ∷ ds) (i, h) = absurd i

not-All_permit :
    (k j : ℕ) (ds : List (Result Decision))
    → k ≤ j
    → j < k + length ds
    → AreRulings k (some j) ds
    → All IsPermit ds
    → ⊥
not-All_permit k j [] lo hi h p = omega arith
not-All_permit k j (ok d ∷ ds) lo hi ((i, e), h) (p, ps) =
    not-All_permit (k + 1) j ds (ground arith) (omega arith) h ps
not-All_permit k j (err e ∷ ds) lo hi (i, h) (p, ps) = absurd i

module _ (fmt : Formatting) (tools : IncidentTools) where
  sealed :
      (req : SealRequest) (ds : List (Result Decision)) (r' : ShadowRuntime)
      → AreRulings 0 r'.breach_frame ds
      → r'.recorder.next_frame_id ≡ length ds
      → IsTracked r'
      → ((seal tools req r').0 ≡ ok none) ↔ All IsPermit ds
  sealed req ds r' rulings next (clean live no_frame) =
      ((λ e. All-IsPermit 0 ds (rw no_frame at rulings)), (λ p. seal-none tools req r' no_frame))
  sealed req ds r' rulings next (dead k is_dead frame lt) = (
    (λ e. absurd (seal-some tools req r' k frame e)),
    (λ p.
        absurd (not-All_permit 0 k ds (omega arith) (omega (arith, next)) (rw frame at rulings) p)),
  )

  -- A flight with a fresh recorder, of at most 2^32 frames with latents of the frozen size and
  -- residuals of less than 2^32 bytes: `seal` then reports no incident exactly if every frame of
  -- the flight was permitted.
  pub seal_flight :
      (req : SealRequest) (frs : List Frame) (c : Clearance)
      (robot_id session_id path started_at : String) (config : RecorderConfig)
      → All IsFit frs
      → length frs ≤ 2 ^ 32
      → let r = new_runtime c (new_recorder robot_id session_id path started_at config) in
        let (ds, r') = fly fmt frs r in ((seal tools req r').0 ≡ ok none) ↔ All IsPermit ds
  unfolding new_runtime new_recorder
  seal_flight req frs c robot_id session_id path started_at config h n =
      let r = new_runtime c (new_recorder robot_id session_id path started_at config) in
      let flown = fly-IsFlown fmt frs r h refl (omega arith) (clean refl refl) in
      sealed req (fly fmt frs r).0 (fly fmt frs r).1 flown.rulings
        (omega (arith, flown.next_id, flown.one_each)) flown.tracked

  -- An armed runtime without a breach so far, with an open recorder, meets a breach on a frame
  -- whose latents have another size than the frozen one: the flash freeze and the stop happen,
  -- `record_frame` raises before the breach frame is kept, and `seal` then reports no incident
  -- although the motors were stopped by a breach.
  pub seal_breach_lost :
      (req : SealRequest) (fr : Frame) (r : ShadowRuntime) (lat : List Float) (reason : Reason)
      → r.state ≡ armed
      → r.breach_frame ≡ none
      → r.recorder.closed ≡ false
      → length fr.latents ≢ latent_dim
      → from_buffer fr.latents ≡ some lat
      → breach_reason fr.selected_action
          (latent_l_inf lat)
          (bound_for r.envelope fr.selected_action)
        ≡ some reason
      → let (d, r') = guard fmt fr r in
        (d ≡ err latent_length)
        × (r'.state ≡ estop)
        × (r'.recorder ≡ (trigger r.recorder).1)
        × ((seal tools req r').0 ≡ ok none)
  unfolding guard_armed
  seal_breach_lost req fr r lat reason live no_frame c dim l e =
      rw
        (guard_armed_lem fmt fr r l live
          ∙ rw (guard_armed, e)
              (breach_lem fmt fr (latent_l_inf lat) (bound_for r.envelope fr.selected_action) reason
                r c)
          ∙ ap
              (breach_end fmt (latent_l_inf lat) (bound_for r.envelope fr.selected_action) reason r)
              (record_frame_dim
                (breach_record fmt fr (latent_l_inf lat) (bound_for r.envelope fr.selected_action)
                  reason r)
                (frozen r.recorder) c dim))
        (
          refl,
          refl,
          sym (ap (λ x. x.1) (trigger_open r.recorder c)),
          seal-none tools req _ no_frame,
        )
