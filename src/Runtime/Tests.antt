-- ===== src/Runtime/Tests.antt =====
-- A runtime cleared for one action: a calm frame, a frame of an action that has no signed bound, and
-- one whose latents are too short. Texts are formatted by stand-ins.
use axm_embodied.Common.{
  ℕ, zero, suc, ◌≡◌, ◌↔◌, refl, ap, false, List, [], ◌∷◌, none, some, Bytes, All, length, ok, err,
  latent_length, arith,
}
use axm_embodied.Common.Float.{Float, finite, from_buffer, float32_of_bits, gt, abs}
use axm_embodied.Common.Int.{pos}
use axm_embodied.Common.Json.{end}
use axm_embodied.Envelope.{bound_for}
use axm_embodied.Envelope.Samples.{envelope, half}
use axm_embodied.Gate.{Clearance}
use axm_embodied.Recorder.{CapsuleRecorder, Frame, new_recorder, default_config, trigger}
use axm_embodied.Recorder.Frames.{IsRecordable, recorded}
use axm_embodied.Recorder.Freeze.{IsFit}
use axm_embodied.Runtime.{
  ShadowRuntime, armed, estop, Decision, permit, within_envelope, no_signed_bound, Formatting,
  latent_l_inf, breach_reason, guard, new_runtime,
}
use axm_embodied.Runtime.Flight.{AreRulings, fly_rulings}
use axm_embodied.Runtime.Guard.{IsSafe, guard_permit, guard_safe}
use axm_embodied.Runtime.Latch.{IsNoPermit, IsLatched, fly, fly-IsLatched}
use axm_embodied.Runtime.Norm.{IsWithin}
use axm_embodied.Runtime.Seal.{
  IncidentTools, SealRequest, IsPermit, seal, seal_flight, seal_breach_lost,
}

abbrev zeros : ℕ → Bytes
zeros zero = []
zeros (suc n) = 0 ∷ zeros n

abbrev floats : ℕ → List Float
floats zero = []
floats (suc n) = finite false 0 ∷ floats n

abbrev calm : Frame
calm = record {
  latents = zeros 256;
  selected_action = "walk";
  action_distribution = end;
  residual = none;
  event = none;
}

abbrev jump : Frame
jump = record calm { selected_action = "jump" }

abbrev short_jump : Frame
short_jump = record jump { latents = zeros 4 }

abbrev clearance : Clearance
clearance = record { envelope = envelope; trusted_key = 7 ∷ 7 ∷ 1 ∷ []; max_actuation_tier = pos 2 }

abbrev recorder : CapsuleRecorder
recorder = new_recorder "r1" "s1" "out" "t" default_config

abbrev runtime : ShadowRuntime
runtime = new_runtime clearance recorder

abbrev formatting : Formatting
formatting = record { round6 = λ x. x; reason_text = λ r. "reason"; shard_text = λ b. "shard" }

abbrev tools : IncidentTools
tools = record {
  compile_capsule = λ r out key time id. ok (1 ∷ []);
  default_queue = λ out. "queue";
  queue_attestation = λ out queue k id. ok "entry";
}

abbrev request : SealRequest
request = record {
  shard_out = some "shard";
  secret_key = some (1 ∷ []);
  timestamp = none;
  attest_queue = none;
}

takes : (fr : Frame) → IsFit fr → IsRecordable fr recorder
unfolding new_recorder
takes fr h = record { open_session = refl; dim = h.0; id_fits = omega arith; residual_fits = h.1 }

floats-IsWithin : (n : ℕ) → All (IsWithin half) (floats n)
unfolding gt abs
floats-IsWithin zero = tt
floats-IsWithin (suc n) = ((refl, refl), floats-IsWithin n)

calm_floats : from_buffer (zeros 256) ≡ some (floats 64)
unfolding from_buffer float32_of_bits
calm_floats = refl

calm_safe : IsSafe calm runtime
unfolding new_runtime
calm_safe = record {
  lat = floats 64;
  lat_eq = calm_floats;
  bound = half;
  bound_eq = refl;
  nonempty = λ e. cc;
  within_bound = floats-IsWithin 64;
}

abbrev calm_decision : Decision
calm_decision = record {
  frame_id = runtime.recorder.next_frame_id;
  verdict = permit;
  action = "walk";
  l_inf = latent_l_inf (floats 64);
  bound = some half;
  reason = within_envelope;
}

guard_safe_example :
    guard formatting calm runtime
    ≡ (ok calm_decision, record runtime { recorder = recorded calm runtime.recorder })
unfolding new_runtime calm_safe
guard_safe_example = guard_safe formatting calm runtime refl (takes calm (refl, tt)) calm_safe

guard_permit_example :
    (runtime.state ≡ armed)
    × (calm_decision.action ≡ calm.selected_action)
    × (calm_decision.frame_id ≡ runtime.recorder.next_frame_id)
    × IsSafe calm runtime
unfolding new_runtime calm_safe
guard_permit_example =
    guard_permit formatting calm runtime
      (ap (λ x. x.0) (guard_safe formatting calm runtime refl (takes calm (refl, tt)) calm_safe))
      refl

abbrev halted : ShadowRuntime
halted = record runtime { state = estop; breach_frame = some 0 }

fly-IsLatched_example :
    All IsNoPermit (fly formatting (calm ∷ short_jump ∷ []) halted).0
    × IsLatched halted (fly formatting (calm ∷ short_jump ∷ []) halted).1
fly-IsLatched_example = fly-IsLatched formatting (calm ∷ short_jump ∷ []) halted refl

fly_rulings_example :
    let (ds, r') = fly formatting (calm ∷ jump ∷ calm ∷ []) runtime in
    (length ds ≡ 3) × AreRulings 0 r'.breach_frame ds
fly_rulings_example =
    fly_rulings formatting (calm ∷ jump ∷ calm ∷ []) clearance "r1" "s1" "out" "t" default_config
      ((refl, tt), ((refl, tt), ((refl, tt), tt))) (omega arith)

seal_flight_example :
    let (ds, r') = fly formatting (calm ∷ jump ∷ calm ∷ []) runtime in
    ((seal tools request r').0 ≡ ok none) ↔ All IsPermit ds
seal_flight_example =
    seal_flight formatting tools request (calm ∷ jump ∷ calm ∷ []) clearance "r1" "s1" "out" "t"
      default_config ((refl, tt), ((refl, tt), ((refl, tt), tt))) (omega arith)

short_floats : from_buffer (zeros 4) ≡ some (floats 1)
unfolding from_buffer float32_of_bits
short_floats = refl

short_breaches :
    breach_reason "jump" (latent_l_inf (floats 1)) (bound_for runtime.envelope "jump")
    ≡ some (no_signed_bound "jump")
unfolding breach_reason new_runtime
short_breaches = refl

seal_breach_lost_example :
    let (d, r') = guard formatting short_jump runtime in
    (d ≡ err latent_length)
    × (r'.state ≡ estop)
    × (r'.recorder ≡ (trigger runtime.recorder).1)
    × ((seal tools request r').0 ≡ ok none)
unfolding new_runtime new_recorder
seal_breach_lost_example =
    seal_breach_lost formatting tools request short_jump runtime (floats 1) (no_signed_bound "jump")
      refl refl refl (λ e. cc) short_floats short_breaches
