-- ===== src/Bounds.antt =====
-- src/axm_embodied/bounds.py: how `compile_bounds` takes in the training capsules. `latent_l_inf` stands
-- in Runtime. The lines of events.jsonl are taken as decoded, with the blank ones left out, and an action
-- that is no text raises. `distance` is the largest absolute difference that numpy works out.
pub mod Finite
mod Tests
use axm_embodied.Common.{
  ℕ, suc, ◌+◌, ◌-◌, ◌*◌, ◌/◌, String, Bool, true, false, not, List, [], ◌∷◌, ◌++◌, Option, none,
  some, Bytes, min, ltb, ◌==◌, if◌then◌else◌, length, take, read_at, Result, ok, err, hex, str_eq,
  buffer_size, struct_range, no_deltas, key_missing, bad_int, bad_text, no_object, seek_negative,
}
use axm_embodied.Common.Decode.{◌>>=◌, key}
use axm_embodied.Common.Float.{Float, finite, infinite, nan, is_finite, from_buffer}
use axm_embodied.Common.Int.{ℤ, pos, negsuc}
use axm_embodied.Common.Json
use axm_embodied.Common.Json.{
  Json, null, boolean, integer, negative, number, string, array, object, nil, cons, Fields, field,
  end,
}
use axm_embodied.Common.Table
use axm_embodied.Common.Table.{Table}
use axm_embodied.Protocol.{rec_header_len, latent_dim, unpack_header}
use axm_embodied.Runtime.{latent_l_inf}

-- `bool(v)`
abbrev pub truthy : Json → Bool
truthy null = false
truthy (boolean b) = b
truthy (integer n) = not (n == 0)
truthy (negative n) = true
truthy (number (finite s n)) = not (n == 0)
truthy (number x) = true
truthy (string s) = not (str_eq s "")
truthy (array nil) = false
truthy (array (cons v vs)) = true
truthy (object end) = false
truthy (object (field k v d)) = true

-- `d.get(k)`, with `None` for a missing key
abbrev pub get : String → Fields → Json
get k d = elim (Json.lookup k d) [ none ↦ null | some v ↦ v ]

-- `evt.get(k, {})`, where an object is expected
abbrev pub get_object : String → Fields → Result Fields
get_object k d = elim (Json.lookup k d) [
  | none ↦ ok end
  | some (object e) ↦ ok e
  | some v ↦ err no_object
]

abbrev pub as_fields : Json → Result Fields
as_fields (object d) = ok d
as_fields v = err no_object

-- An argument of `seek`; a `bool` is an `int`.
abbrev pub as_offset : Json → Result ℤ
as_offset (integer n) = ok (pos n)
as_offset (negative n) = ok (negsuc n)
as_offset (boolean b) = ok (pos (if b then 1 else 0))
as_offset v = err bad_int

-- `ref["offset"]`
abbrev pub offset_of : Json → Result ℤ
offset_of ref = do d ← as_fields ref; v ← key "offset" d; as_offset v

-- `offset + k`, where a file is read; before its start, the seek raises.
abbrev pub place : ℤ → ℕ → Result ℕ
place (pos n) k = ok (n + k)
place (negsuc n) k = if ltb k (suc n) then err seek_negative else ok (k - suc n)

abbrev pub floats : Bytes → Result (List Float)
floats b = elim (from_buffer b) [ none ↦ err buffer_size | some xs ↦ ok xs ]

-- `_read_latent_payload` of a file that is there
unfoldable pub read_latent_payload : Bytes → ℤ → Result (List Float)
read_latent_payload content offset = do
  at ← place offset rec_header_len
  let bytes = read_at content at latent_dim
  if ltb (length bytes) latent_dim then ok [] else floats bytes

-- `_read_residual_payload` of a file that is there
unfoldable pub read_residual_payload : Bytes → ℤ → Result (List Float)
read_residual_payload content offset = do
  at ← place offset 0
  let header = read_at content at rec_header_len
  if ltb (length header) rec_header_len then ok [] else elim (unpack_header header) [
    | none ↦ err struct_range
    | some h ↦
        let bytes = read_at content (at + rec_header_len) h.dlen in
        floats (take (length bytes / 4 * 4) bytes)
  ]

-- A capsule directory.
pub record TrainingDir : Type 0 where
  pub name : String
  pub events_jsonl : Option (Bytes × List Fields)
  pub cam_latents : Option Bytes
  pub cam_residuals : Option Bytes

-- What has been taken in.
pub record Training : Type 0 where
  pub action_deltas : Table (List Float)
  pub training_capsules : List (String × Bytes)
  pub skipped_nonfinite : ℕ

abbrev pub no_training : Training
no_training = record { action_deltas = []; training_capsules = []; skipped_nonfinite = 0 }

abbrev pub or_empty : Option (List Float) → List Float
or_empty none = []
or_empty (some ds) = ds

-- `action_deltas[action].append(l_inf)`, unless the norm is not finite
unfoldable pub add_delta : String → Float → Training → Training
add_delta action l_inf tr =
    if not (is_finite l_inf)
    then record tr { skipped_nonfinite = tr.skipped_nonfinite + 1 }
    else record tr {
      action_deltas =
          Table.insert action (or_empty (Table.lookup action tr.action_deltas) ++ (l_inf ∷ []))
            tr.action_deltas;
    }

abbrev pub as_action : Json → Result String
as_action (string s) = ok s
as_action v = err bad_text

module _ (sha256 : Bytes → Bytes) (distance : List Float → List Float → Float) where
  -- The distance to the residual: `none` where it has no floats.
  abbrev pub residual_delta : List Float → List Float → Option Float
  residual_delta lat_arr [] = none
  residual_delta lat_arr (x ∷ xs) =
      let min_dim = min (length lat_arr) (length (x ∷ xs)) in
      some (distance (take min_dim lat_arr) (take min_dim (x ∷ xs)))

  -- The part that reads the residuals, where the file has a byte.
  unfoldable pub against_residual : List Float → Option Bytes → Fields → Result (Option Float)
  against_residual lat_arr (some (b ∷ bs)) refs =
      let res_ref = get "residuals" refs in
      if not (truthy res_ref) then ok none else (do
        offset ← offset_of res_ref
        res_arr ← read_residual_payload (b ∷ bs) offset
        ok (residual_delta lat_arr res_arr))
  against_residual lat_arr file refs = ok none

  -- The norm of a frame; `none` where its latents cannot be read.
  unfoldable pub frame_delta : Bytes → Option Bytes → Fields → Json → Result (Option Float)
  frame_delta lat_file res_file refs lat_ref = do
    offset ← offset_of lat_ref
    lat_arr ← read_latent_payload lat_file offset
    if length lat_arr == 0 then ok none else (do
      against ← against_residual lat_arr res_file refs
      ok (some (elim against [ none ↦ latent_l_inf lat_arr | some l_inf ↦ l_inf ])))

  -- One line of a log.
  unfoldable pub ingest_event : Bytes → Option Bytes → Fields → Training → Result Training
  ingest_event lat_file res_file evt tr = do
    let action = get "selected_action" evt
    refs ← get_object "stream_refs" evt
    let lat_ref = get "latents" refs
    if not (truthy action) then ok tr else if not (truthy lat_ref) then ok tr else (do
      delta ← frame_delta lat_file res_file refs lat_ref
      elim delta [
        | none ↦ ok tr
        | some l_inf ↦ do name ← as_action action; ok (add_delta name l_inf tr)
      ])

  unfoldable pub ingest_events : Bytes → Option Bytes → List Fields → Training → Result Training
  ingest_events lat_file res_file [] tr = ok tr
  ingest_events lat_file res_file (evt ∷ evts) tr = do
    tr' ← ingest_event lat_file res_file evt tr
    ingest_events lat_file res_file evts tr'

  -- One directory; it is passed over without a log or without latents.
  unfoldable pub ingest_capsule : TrainingDir → Training → Result Training
  ingest_capsule dir tr = elim dir.events_jsonl [
    | none ↦ ok tr
    | some (bytes, evts) ↦ elim dir.cam_latents [
      | none ↦ ok tr
      | some lat_file ↦ ingest_events lat_file dir.cam_residuals evts (record tr {
        training_capsules = tr.training_capsules ++ ((dir.name, hex (sha256 bytes)) ∷ []);
      })
    ]
  ]

  -- The directories, in the order of their names.
  unfoldable pub ingest_capsules : List TrainingDir → Training → Result Training
  ingest_capsules [] tr = ok tr
  ingest_capsules (dir ∷ dirs) tr = do tr' ← ingest_capsule dir tr; ingest_capsules dirs tr'

-- The actions and their norms; there must be one.
unfoldable pub ingest :
    (Bytes → Bytes) → (List Float → List Float → Float) → List TrainingDir → Result Training
ingest sha256 distance dirs = do
  tr ← ingest_capsules sha256 distance dirs no_training
  elim tr.action_deltas [ [] ↦ err no_deltas | d ∷ ds ↦ ok tr ]
