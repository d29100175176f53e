-- ===== src/Envelope.antt =====
-- src/axm_embodied/envelope.py: the safety envelope, as the loader reads it out of a bounds shard.
-- The verifier of the kernel (`axm_verify.logic.verify_shard`), the digests, `int` of a text and
-- `float` of a JSON value are parameters. JSON texts are taken as decoded, and a table as the list of its rows.
pub mod Load
pub mod Samples
mod Tests
use axm_embodied.Common.{
  ℕ, String, Bool, true, false, not, List, [], ◌∷◌, Option, none, some, Bytes, hex, if◌then◌else◌,
  Result, ok, err, str_eq, envelope_rejected, envelope_namespace, envelope_object_type,
  envelope_empty, bad_float, no_file,
}
use axm_embodied.Common.Decode.{◌>>=◌, key, key_object, key_text, to_int}
use axm_embodied.Common.Float.{Float}
use axm_embodied.Common.Int.{ℤ, pos, max_ℤ}
use axm_embodied.Common.Json
use axm_embodied.Common.Json.{Json, string, Fields}
use axm_embodied.Common.Table
use axm_embodied.Common.Table.{Table}
use Prim.Native.String.{slice, len}
use text.Mathlib.Text.{starts_with}

-- A shard directory: the bytes that are hashed, and the decoded manifest and core tables.
pub record Shard : Type 0 where
  pub manifest_bytes : Bytes
  pub manifest : Fields
  pub publisher_pub : Option Bytes
  pub entities : List Fields
  pub claims : List Fields

-- The library functions that the loader calls: `verify_shard(...)["status"] == "PASS"`, the two
-- digests, `int` of a text and `float` of a JSON value.
pub record Kernel : Type 0 where
  pub verify_shard : Shard → Bytes → Bool
  pub sha256 : Bytes → Bytes
  pub blake3 : Bytes → Bytes
  pub parse_int : String → Option ℤ
  pub parse_float : Json → Option Float

-- `shard_id` is "sh1_" and the hex digest; the prefix is left out.
pub record SafetyEnvelope : Type 0 where
  pub shard_id : Bytes
  pub publisher_id : String
  pub publisher_fingerprint : Bytes
  pub bounds : Table Float
  pub sample_counts : Table ℤ
  pub max_tier : ℤ

abbrev pub bound_for : SafetyEnvelope → String → Option Float
bound_for env action = Table.lookup action env.bounds

-- What the loop over the claims has gathered.
pub record Gathered : Type 0 where
  pub bounds : Table Float
  pub counts : Table ℤ
  pub max_tier : ℤ

abbrev pub no_claims : Gathered
no_claims = record { bounds = []; counts = []; max_tier = pos 0 }

abbrev pub bounds_prefix : String
bounds_prefix = "bounds/"

-- `subj_label[len("bounds/"):]`
abbrev pub action_of : String → String
action_of label = slice label (len bounds_prefix) (len label)

-- `labels.get(subject, "")`
abbrev pub label_of : Table String → String → String
label_of labels subject = elim (Table.lookup subject labels) [ none ↦ "" | some label ↦ label ]

unfoldable pub read_labels : List Fields → Table String → Result (Table String)
read_labels [] labels = ok labels
read_labels (row ∷ rows) labels = do
  id ← key_text "entity_id" row
  label ← key_text "label" row
  read_labels rows (Table.insert id label labels)

module _ (k : Kernel) where
  abbrev to_float : Json → Result Float
  to_float v = elim (k.parse_float v) [ none ↦ err bad_float | some x ↦ ok x ]

  -- The claim that bounds an action class.
  unfoldable pub read_bound : String → Fields → Gathered → Result Gathered
  read_bound action row g = do
    object_type ← key_text "object_type" row
    if not (str_eq object_type "literal:decimal") then err envelope_object_type else do
      bound ← to_float (← key "object" row)
      tier ← to_int k.parse_int (← key "tier" row)
      ok (record g {
        bounds = Table.insert action bound g.bounds;
        max_tier = max_ℤ g.max_tier tier;
      })

  unfoldable pub read_count : String → Fields → Gathered → Result Gathered
  read_count action row g = do
    count ← to_int k.parse_int (← key "object" row)
    ok (record g { counts = Table.insert action count g.counts })

  -- One row of claims.jsonl.
  unfoldable pub read_claim : Table String → Fields → Gathered → Result Gathered
  read_claim labels row g = do
    subject ← key_text "subject" row
    let label = label_of labels subject
    if not (starts_with label bounds_prefix) then ok g else do
      predicate ← key_text "predicate" row
      if str_eq predicate "max_latent_delta_linf"
          then read_bound (action_of label) row g
          else if str_eq predicate "sample_count"
          then read_count (action_of label) row g
          else ok g

  unfoldable pub read_claims : Table String → List Fields → Gathered → Result Gathered
  read_claims labels [] g = ok g
  read_claims labels (row ∷ rows) g = do g' ← read_claim labels row g; read_claims labels rows g'

  abbrev is_bounds_namespace : Fields → Bool
  is_bounds_namespace metadata = elim (Json.lookup "namespace" metadata) [
    | some (string s) ↦ str_eq s "embodied/bounds"
    | _ ↦ false
  ]

  -- The last argument is `g.bounds`, on which `if not bounds` decides.
  unfoldable pub build_envelope : Shard → Bytes → Gathered → Table Float → Result SafetyEnvelope
  build_envelope shard pub_bytes g [] = err envelope_empty
  build_envelope shard pub_bytes g (b ∷ bs) = do
    publisher_id ← key_text "id" (← key_object "publisher" shard.manifest)
    ok (record {
      shard_id = hex (k.blake3 shard.manifest_bytes);
      publisher_id = publisher_id;
      publisher_fingerprint = hex (k.sha256 pub_bytes);
      bounds = g.bounds;
      sample_counts = g.counts;
      max_tier = g.max_tier;
    })

  -- What `load` makes of a shard that has verified and of its publisher's key.
  unfoldable pub read_envelope : Shard → Bytes → Result SafetyEnvelope
  read_envelope shard pub_bytes = do
    metadata ← key_object "metadata" shard.manifest
    if not (is_bounds_namespace metadata) then err envelope_namespace else do
      labels ← read_labels shard.entities []
      g ← read_claims labels shard.claims no_claims
      build_envelope shard pub_bytes g g.bounds

  -- `SafetyEnvelope.load`, given the key of the anchor.
  unfoldable pub load : Shard → Bytes → Result SafetyEnvelope
  load shard trusted_key =
      if not (k.verify_shard shard trusted_key)
      then err envelope_rejected
      else elim shard.publisher_pub [
        | none ↦ err no_file
        | some pub_bytes ↦ read_envelope shard pub_bytes
      ]
