-- ===== src/Bounds/Finite.antt =====
-- Where the norms come from that the bounds are computed from: each is the finite norm of a frame of
-- a training capsule, whose action it stands under.
use axm_embodied.Common.{
  ◌≡◌, ◌≢◌, ◌⊎◌, String, true, List, [], ◌∷◌, Option, none, some, Bytes, All, length, ◌≤◌, ok,
}
use axm_embodied.Common.Float.{Float, is_finite}
use axm_embodied.Common.Int.{ℤ}
use axm_embodied.Common.Json.{Json, string, Fields}
use axm_embodied.Common.Table
use axm_embodied.Common.Table.{Table}
use axm_embodied.Bounds.{
  TrainingDir, get, get_object, offset_of, read_latent_payload, against_residual,
}
use axm_embodied.Runtime.{latent_l_inf}

abbrev pub IsFinite : Float → Type 0
IsFinite x = is_finite x ≡ true

-- One element has the property.
abbrev pub Any : {A : Type 0} → (A → Type 0) → List A → Type 0
Any P [] = ⊥
Any P (x ∷ xs) = P x ⊎ Any P xs

-- The norms of each action: there is one, and all of them have the property.
abbrev AreGood : (String → Float → Type 0) → Table (List Float) → Type 0
AreGood P t = All (λ (a, ds). (1 ≤ length ds) × All (P a) ds) t

module _ (sha256 : Bytes → Bytes) (distance : List Float → List Float → Float) where
  -- The norm is that of a frame of this action: finite, of latents that have been read, and either
  -- the distance to the frame's residual or, without a residual to compare with, the norm of the
  -- latents, every component of which is finite then.
  pub record IsFrameNorm (lat_file : Bytes) (res_file : Option Bytes) (action : String) (x : Float)
      (evt : Fields) : Type 0 where
    pub finite_norm : IsFinite x
    pub action_eq : get "selected_action" evt ≡ string action
    pub refs : Fields
    pub refs_eq : get_object "stream_refs" evt ≡ ok refs
    pub offset : ℤ
    pub offset_eq : offset_of (get "latents" refs) ≡ ok offset
    pub lat : List Float
    pub lat_eq : read_latent_payload lat_file offset ≡ ok lat
    pub nonempty : lat ≢ []
    pub compared : Option Float
    pub compared_eq : against_residual sha256 distance lat res_file refs ≡ ok compared
    pub measured :
        (compared ≡ some x) ⊎ ((compared ≡ none) × (x ≡ latent_l_inf lat) × All IsFinite lat)

  -- The frame is one of the capsule.
  pub record IsCapsuleNorm (action : String) (x : Float) (dir : TrainingDir) : Type 0 where
    pub bytes : Bytes
    pub evts : List Fields
    pub log : dir.events_jsonl ≡ some (bytes, evts)
    pub lat_file : Bytes
    pub there : dir.cam_latents ≡ some lat_file
    pub frame : Any (IsFrameNorm lat_file dir.cam_residuals action x) evts

  -- The norms of an action: there is one, and each is that of a frame of one of the capsules.
  abbrev pub AreUsable : List TrainingDir → String × List Float → Type 0
  AreUsable dirs (action, deltas) =
      (1 ≤ length deltas) × All (λ x. Any (IsCapsuleNorm action x) dirs) deltas
