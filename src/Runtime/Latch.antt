-- ===== src/Runtime/Latch.antt =====
-- A flight: one call of `guard` after another. The stop is latched, and while the recorder takes
-- every frame the runtime knows the frame at which it stopped.
use axm_embodied.Common.{
  ◌≡◌, refl, ◌∙◌, false, List, [], ◌∷◌, All, Result, ok, err, Option-cases, inl, inr, Result-cases,
}
use axm_embodied.Common.Float.{Float, from_buffer}
use axm_embodied.Recorder.{Frame, record_frame}
use axm_embodied.Runtime.{
  stopped, ShadowRuntime, estop, Decision, permitted, Formatting, latent_l_inf, guard_stopped,
  guard,
}
use axm_embodied.Runtime.Guard.{guard_estop_lem, guard_buffer}

-- No permit: a stop or an exception.
abbrev pub IsNoPermit : Result Decision → Type 0
IsNoPermit (ok d) = permitted d ≡ false
IsNoPermit (err e) = Unit {0}

-- Stopped, with what is known of the breach unchanged.
pub record IsLatched (r r' : ShadowRuntime) : Type 0 where
  pub dead : r'.state ≡ estop
  pub frame_kept : r'.breach_frame ≡ r.breach_frame
  pub decision_kept : r'.breach_decision ≡ r.breach_decision
  pub envelope_kept : r'.envelope ≡ r.envelope

module _ (fmt : Formatting) where
  -- The rulings of a flight, and the runtime after it.
  unfoldable pub fly : List Frame → ShadowRuntime → List (Result Decision) × ShadowRuntime
  fly [] r = ([], r)
  fly (fr ∷ frs) r = let (d, r') = guard fmt fr r in let (ds, r'') = fly frs r' in (d ∷ ds, r'')

  guard_stopped-IsLatched :
      (fr : Frame) (l_inf : Float) (r : ShadowRuntime)
      → r.state ≡ estop
      → IsNoPermit (guard_stopped fmt fr l_inf r).0 × IsLatched r (guard_stopped fmt fr l_inf r).1
  unfolding guard_stopped record_frame
  guard_stopped-IsLatched fr l_inf r h =
      elim (Result-cases (record_frame (stopped fr fr.event) r.recorder).0) [
        | inl (ref, e) ↦ rw e (
          refl,
          record { dead = h; frame_kept = refl; decision_kept = refl; envelope_kept = refl },
        )
        | inr (x, e) ↦
            rw e (
              tt,
              record { dead = h; frame_kept = refl; decision_kept = refl; envelope_kept = refl },
            )
      ]

  guard-IsLatched :
      (fr : Frame) (r : ShadowRuntime)
      → r.state ≡ estop
      → IsNoPermit (guard fmt fr r).0 × IsLatched r (guard fmt fr r).1
  guard-IsLatched fr r h = elim (Option-cases (from_buffer fr.latents)) [
    | inl bad ↦
        rw (guard_buffer fmt fr r bad)
          (tt, record { dead = h; frame_kept = refl; decision_kept = refl; envelope_kept = refl })
    | inr (lat, l) ↦
        rw (guard_estop_lem fmt fr r l h) (guard_stopped-IsLatched fr (latent_l_inf lat) r h)
  ]

  -- The latch: once stopped, whatever frames follow and whichever of them the recorder refuses,
  -- no ruling is a permit, and the runtime stays stopped with the same breach frame and envelope.
  pub fly-IsLatched :
      (frs : List Frame) (r : ShadowRuntime)
      → r.state ≡ estop
      → All IsNoPermit (fly frs r).0 × IsLatched r (fly frs r).1
  unfolding fly
  fly-IsLatched [] r h =
      (tt, record { dead = h; frame_kept = refl; decision_kept = refl; envelope_kept = refl })
  fly-IsLatched (fr ∷ frs) r h =
      let (none_here, first) = guard-IsLatched fr r h in
      let (none_later, rest) = fly-IsLatched frs (guard fmt fr r).1 first.dead in
      (
        (none_here, none_later),
        record {
          dead = rest.dead;
          frame_kept = rest.frame_kept ∙ first.frame_kept;
          decision_kept = rest.decision_kept ∙ first.decision_kept;
          envelope_kept = rest.envelope_kept ∙ first.envelope_kept;
        },
      )
