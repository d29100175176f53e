-- ===== src/Runtime/Flight.antt =====
-- A flight whose frames the recorder takes: every frame is ruled on, and the runtime knows the
-- frame of its breach exactly if it has stopped.
use axm_embodied.Common.{
  ℕ, zero, suc, ◌+◌, ◌*◌, ◌^◌, ◌≤◌, ◌<◌, ◌≡◌, refl, ◌∙◌, Bool, true, false, List, [], ◌∷◌, Option,
  none, some, String, Bytes, All, arith, Result, ok, err, length, ltb, Option-cases, inl, inr,
}
use axm_embodied.Common.Float.{Float, from_buffer}
use axm_embodied.Gate.{Clearance}
use axm_embodied.Envelope.{bound_for}
use axm_embodied.Recorder.{Frame, RecorderConfig, new_recorder}
use axm_embodied.Recorder.Frames.{IsRecordable}
use axm_embodied.Recorder.Freeze.{IsFit}
use axm_embodied.Runtime.{
  ShadowRuntime, armed, estop, Decision, permitted, Formatting, new_runtime, latent_l_inf,
  breach_reason, guard,
}
use axm_embodied.Runtime.Guard.{guard_estop_lem, guard_stopped_ok, guard_within, guard_breach}
use axm_embodied.Runtime.Latch.{fly}

-- A buffer of whole float32s is read.
from_buffer-some :
    (n : ℕ) (b : Bytes) → length b ≡ n * 4 → (lat : List Float) × (from_buffer b ≡ some lat)
unfolding from_buffer
from_buffer-some n [] h = ([], refl)
from_buffer-some zero (x ∷ b) h = absurd (omega arith)
from_buffer-some (suc n) (x ∷ y ∷ z ∷ w ∷ b) h =
    let (lat, e) = from_buffer-some n b (omega arith) in rw e (_, refl)
from_buffer-some (suc n) b h = absurd (omega arith)

-- Armed without a breach, or stopped at an earlier frame that is known.
pub data IsTracked (r : ShadowRuntime) : Type 0 where
  clean : r.state ≡ armed → r.breach_frame ≡ none → IsTracked r
  dead :
      (k : ℕ)
      → r.state ≡ estop
      → r.breach_frame ≡ some k
      → k < r.recorder.next_frame_id
      → IsTracked r

-- The frame `k` lies before the breach.
abbrev pub before : ℕ → Option ℕ → Bool
before k none = true
before k (some j) = ltb k j

-- A decision about frame `k`, which permits it exactly if it lies before the breach.
abbrev pub IsRuling : ℕ → Option ℕ → Result Decision → Type 0
IsRuling k frame (ok d) = (d.frame_id ≡ k) × (permitted d ≡ before k frame)
IsRuling k frame (err e) = ⊥

-- The rulings on the frames from `k` on.
abbrev pub AreRulings : ℕ → Option ℕ → List (Result Decision) → Type 0
AreRulings k frame [] = Unit {0}
AreRulings k frame (d ∷ ds) = IsRuling k frame d × AreRulings (k + 1) frame ds

-- A breach frame stays; a new one is not before frame `n`.
abbrev pub IsOnward : ℕ → Option ℕ → Option ℕ → Type 0
IsOnward n (some k) frame = frame ≡ some k
IsOnward n none none = Unit {0}
IsOnward n none (some j) = n ≤ j

IsOnward-trans : (n : ℕ) (f g h : Option ℕ) → IsOnward n f g → IsOnward (n + 1) g h → IsOnward n f h
IsOnward-trans n (some k) g h a b = ground arith
IsOnward-trans n none none none a b = tt
IsOnward-trans n none none (some j) a b = omega arith
IsOnward-trans n none (some i) none a b = cc
IsOnward-trans n none (some i) (some j) a b = ground arith

IsRuling-onward :
    (n : ℕ) (f g : Option ℕ) (d : Result Decision)
    → IsOnward (n + 1) f g
    → IsRuling n f d
    → IsRuling n g d
IsRuling-onward n (some k) g (ok d) a (i, p) = (i, ground arith)
IsRuling-onward n none none (ok d) a (i, p) = (i, p)
IsRuling-onward n none (some j) (ok d) a (i, p) = (i, ground arith)
IsRuling-onward n f g (err e) a b = b

IsOnward-refl : (n : ℕ) (f : Option ℕ) → IsOnward n f f
IsOnward-refl n none = tt
IsOnward-refl n (some k) = refl

-- One frame: what is ruled, and how the runtime is left.
pub record IsRuled (r : ShadowRuntime) (d : Result Decision) (r' : ShadowRuntime) : Type 0 where
  pub ruling : IsRuling r.recorder.next_frame_id r'.breach_frame d
  pub onward : IsOnward r.recorder.next_frame_id r.breach_frame r'.breach_frame
  pub tracked : IsTracked r'
  pub still_open : r'.recorder.closed ≡ false
  pub next_id : r'.recorder.next_frame_id ≡ r.recorder.next_frame_id + 1

-- A flight: the same of its rulings.
pub record IsFlown (frs : List Frame) (r : ShadowRuntime) (ds : List (Result Decision))
    (r' : ShadowRuntime) : Type 0 where
  pub rulings : AreRulings r.recorder.next_frame_id r'.breach_frame ds
  pub one_each : length ds ≡ length frs
  pub onward : IsOnward r.recorder.next_frame_id r.breach_frame r'.breach_frame
  pub tracked : IsTracked r'
  pub still_open : r'.recorder.closed ≡ false
  pub next_id : r'.recorder.next_frame_id ≡ r.recorder.next_frame_id + length frs

module _ (fmt : Formatting) where
  IsRuled-dead :
      (fr : Frame) (lat : List Float) (r : ShadowRuntime) (k : ℕ)
      → from_buffer fr.latents ≡ some lat
      → IsRecordable fr r.recorder
      → r.state ≡ estop
      → r.breach_frame ≡ some k
      → k < r.recorder.next_frame_id
      → IsRuled r (guard fmt fr r).0 (guard fmt fr r).1
  IsRuled-dead fr lat r k l fits is_dead frame lt =
      rw (guard_estop_lem fmt fr r l is_dead ∙ guard_stopped_ok fmt fr (latent_l_inf lat) r fits)
        (record {
          ruling = (refl, ground arith);
          onward = ground arith;
          tracked = dead k is_dead frame (omega arith);
          still_open = fits.open_session;
          next_id = refl;
        })

  IsRuled-clean :
      (fr : Frame) (lat : List Float) (r : ShadowRuntime)
      → from_buffer fr.latents ≡ some lat
      → IsRecordable fr r.recorder
      → r.state ≡ armed
      → r.breach_frame ≡ none
      → IsRuled r (guard fmt fr r).0 (guard fmt fr r).1
  IsRuled-clean fr lat r l fits live no_frame =
      elim (Option-cases (
        breach_reason fr.selected_action (latent_l_inf lat)
          (bound_for r.envelope fr.selected_action))) [
            | inl safe ↦ rw (guard_within fmt fr r lat live fits l safe) (record {
              ruling = (refl, ground arith);
              onward = ground arith;
              tracked = clean live no_frame;
              still_open = fits.open_session;
              next_id = refl;
            })
            | inr (reason, out) ↦ rw (guard_breach fmt fr r lat reason live fits l out) (record {
              ruling = (refl, ground arith);
              onward = ground arith;
              tracked = dead r.recorder.next_frame_id refl refl (omega arith);
              still_open = fits.open_session;
              next_id = refl;
            })
          ]

  guard-IsRuled :
      (fr : Frame) (r : ShadowRuntime)
      → IsFit fr
      → r.recorder.closed ≡ false
      → r.recorder.next_frame_id < 2 ^ 32
      → IsTracked r
      → IsRuled r (guard fmt fr r).0 (guard fmt fr r).1
  guard-IsRuled fr r h c n (clean live no_frame) =
      let (lat, l) = from_buffer-some 64 fr.latents h.0 in
      IsRuled-clean fr lat r l
        (record { open_session = c; dim = h.0; id_fits = n; residual_fits = h.1 }) live no_frame
  guard-IsRuled fr r h c n (dead k is_dead frame lt) =
      let (lat, l) = from_buffer-some 64 fr.latents h.0 in
      IsRuled-dead fr lat r k l
        (record { open_session = c; dim = h.0; id_fits = n; residual_fits = h.1 }) is_dead frame lt

  pub fly-IsFlown :
      (frs : List Frame) (r : ShadowRuntime)
      → All IsFit frs
      → r.recorder.closed ≡ false
      → r.recorder.next_frame_id + length frs ≤ 2 ^ 32
      → IsTracked r
      → IsFlown frs r (fly fmt frs r).0 (fly fmt frs r).1
  unfolding fly
  fly-IsFlown [] r h c n t = record {
    rulings = tt;
    one_each = refl;
    onward = IsOnward-refl r.recorder.next_frame_id r.breach_frame;
    tracked = t;
    still_open = c;
    next_id = omega arith;
  }
  fly-IsFlown (fr ∷ frs) r (hf, h) c n t =
      let one = guard-IsRuled fr r hf c (omega arith) t in
      let r₁ = (guard fmt fr r).1 in
      let rest = fly-IsFlown frs r₁ h one.still_open (omega (arith, one.next_id)) one.tracked in
      let final = (fly fmt frs r₁).1.breach_frame in
      let onward : IsOnward (r.recorder.next_frame_id + 1) r₁.breach_frame final =
        rw (← one.next_id) rest.onward in
      record {
        rulings = (
          IsRuling-onward r.recorder.next_frame_id r₁.breach_frame final (guard fmt fr r).0 onward
              one.ruling,
          rw (← one.next_id) rest.rulings,
        );
        one_each = omega (arith, rest.one_each);
        onward =
            IsOnward-trans r.recorder.next_frame_id r.breach_frame r₁.breach_frame final one.onward
              onward;
        tracked = rest.tracked;
        still_open = rest.still_open;
        next_id = omega (arith, rest.next_id, one.next_id);
      }

  -- A flight with a fresh recorder, of at most 2^32 frames with latents of the frozen size and
  -- residuals of less than 2^32 bytes: each frame is ruled on, with the ids 0, 1, 2, …, and a
  -- ruling is a permit exactly if its frame lies before the breach frame that the runtime
  -- reports afterwards.
  pub fly_rulings :
      (frs : List Frame) (c : Clearance) (robot_id session_id path started_at : String)
      (config : RecorderConfig)
      → All IsFit frs
      → length frs ≤ 2 ^ 32
      → let r = new_runtime c (new_recorder robot_id session_id path started_at config) in
        let (ds, r') = fly fmt frs r in (length ds ≡ length frs) × AreRulings 0 r'.breach_frame ds
  unfolding new_runtime new_recorder
  fly_rulings frs c robot_id session_id path started_at config h n =
      let flown =
        fly-IsFlown frs (new_runtime c (new_recorder robot_id session_id path started_at config)) h
          refl (omega arith) (clean refl refl) in
      (flown.one_each, flown.rulings)
