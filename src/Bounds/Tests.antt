-- ===== src/Bounds/Tests.antt =====
-- Two training capsules, of which one has no log. The first frame is quiet, the second is not finite.
use axm_embodied.Common.{false, ℕ, List, [], ◌∷◌, ◌++◌, none, some, Bytes, replicate, hex}
use axm_embodied.Common.Float.{Float, finite}
use axm_embodied.Common.Json.{string, integer, object, Fields, field, end}
use axm_embodied.Bounds.{TrainingDir, Training}

abbrev walk : ℕ → Fields
walk offset = field "selected_action" (string "walk") (
    field "stream_refs"
      (object (field "latents" (object (field "offset" (integer offset) end)) end)) end)

-- The second latents are all NaN.
abbrev latent_file : Bytes
latent_file = replicate 17 0 ++ (replicate 256 0 ++ (replicate 13 0 ++ replicate 256 255))

abbrev capsules : List TrainingDir
capsules =
    record {
      name = "a";
      events_jsonl = some (1 ∷ [], walk 4 ∷ walk 273 ∷ []);
      cam_latents = some latent_file;
      cam_residuals = none;
    }
    ∷ record { name = "b"; events_jsonl = none; cam_latents = none; cam_residuals = none }
    ∷ []

abbrev same : Bytes → Bytes
same b = b

abbrev zero_distance : List Float → List Float → Float
zero_distance xs ys = finite false 0

abbrev training : Training
training = record {
  action_deltas = ("walk", finite false 0 ∷ []) ∷ [];
  training_capsules = ("a", hex (1 ∷ [])) ∷ [];
  skipped_nonfinite = 1;
}
