-- ===== src/Gate.antt =====
-- src/axm_embodied/gate.py: the Law Gate. The governance directory is its decoded files; a
-- fingerprint is the codes of its hex text. The time of a clearance is left out.
pub mod Authorize
pub mod Enroll
mod Tests
use axm_embodied.Common.{
  String, Bool, true, false, not, ◌||◌, List, [], ◌∷◌, ◌++◌, Option, none, some, Bytes, bytes_eq,
  hex, if◌then◌else◌, Result, Error, ok, err, envelope_rejected, envelope_namespace,
  envelope_object_type, envelope_empty, gate_trust_store, gate_publishers, gate_publisher_key,
  gate_anchors, gate_not_enrolled, gate_envelope, gate_tier, key_missing,
}
use axm_embodied.Common.Decode.{◌>>=◌, to_int}
use axm_embodied.Common.Int.{ℤ, pos, gt_ℤ}
use axm_embodied.Common.Json
use axm_embodied.Common.Json.{Fields}
use axm_embodied.Common.Table
use axm_embodied.Common.Table.{Table}
use axm_embodied.Envelope.{Shard, Kernel, SafetyEnvelope, load}

-- `trust_store` is none if the file is missing, and `some none` if it has no "trusted_publishers";
-- `keys` are the names and bytes of trusted_keys/*.pub in sorted order, if it is a directory.
pub record Governance : Type 0 where
  pub trust_store : Option (Option (List Bytes))
  pub local_policy : Option Fields
  pub keys : Option (Table Bytes)

pub record LawGate : Type 0 where
  pub trusted_fingerprints : List Bytes
  pub max_actuation_tier : ℤ
  pub keys : Option (Table Bytes)

pub record Clearance : Type 0 where
  pub envelope : SafetyEnvelope
  pub trusted_key : Bytes
  pub max_actuation_tier : ℤ

-- `fp in fingerprints`
abbrev pub contains : Bytes → List Bytes → Bool
contains fp [] = false
contains fp (x ∷ xs) = bytes_eq x fp || contains fp xs

-- A `dict` from fingerprints to keys.
abbrev pub Anchors : Type 0
Anchors = List (Bytes × Bytes)

abbrev pub anchor_for : Bytes → Anchors → Option Bytes
anchor_for fp [] = none
anchor_for fp ((x, key) ∷ d) = if bytes_eq x fp then some key else anchor_for fp d

abbrev pub add_anchor : Bytes → Bytes → Anchors → Anchors
add_anchor fp key [] = (fp, key) ∷ []
add_anchor fp key ((x, old) ∷ d) =
    if bytes_eq x fp then (x, key) ∷ d else (x, old) ∷ add_anchor fp key d

-- `except EnvelopeError as e: raise GateError(...)`; any other exception goes through.
unfoldable pub refuse : Error → Error
refuse envelope_rejected = gate_envelope
refuse envelope_namespace = gate_envelope
refuse envelope_object_type = gate_envelope
refuse envelope_empty = gate_envelope
refuse e = e

module _ (k : Kernel) where
  -- `int(policy.get("max_actuation_tier", 0))`
  unfoldable pub policy_tier : Option Fields → Result ℤ
  policy_tier none = ok (pos 0)
  policy_tier (some policy) = elim (Json.lookup "max_actuation_tier" policy) [
    | none ↦ ok (pos 0)
    | some v ↦ to_int k.parse_int v
  ]

  -- `LawGate.__init__`
  unfoldable pub law_gate : Governance → Result LawGate
  law_gate gov = elim gov.trust_store [
    | none ↦ err gate_trust_store
    | some none ↦ err gate_publishers
    | some (some []) ↦ err gate_publishers
    | some (some (fp ∷ fps)) ↦ do
      tier ← policy_tier gov.local_policy
      ok (record { trusted_fingerprints = fp ∷ fps; max_actuation_tier = tier; keys = gov.keys })
  ]

  -- The loop of `_trusted_keys`.
  unfoldable pub collect_keys : List Bytes → Table Bytes → Anchors → Anchors
  collect_keys trusted [] out = out
  collect_keys trusted ((name, key) ∷ keys) out =
      let fp = hex (k.sha256 key) in
      collect_keys trusted keys (if contains fp trusted then add_anchor fp key out else out)

  unfoldable pub trusted_keys : LawGate → Anchors
  trusted_keys gate = elim gate.keys [
    | none ↦ []
    | some keys ↦ collect_keys gate.trusted_fingerprints keys []
  ]

  -- The end of `authorize`, with the anchor that the shard's fingerprint has.
  unfoldable pub clear : LawGate → Shard → Bytes → Result Clearance
  clear gate shard anchor = elim (load k shard anchor) [
    | err e ↦ err (refuse e)
    | ok env ↦
        if gt_ℤ env.max_tier gate.max_actuation_tier
        then err gate_tier
        else ok (record {
          envelope = env;
          trusted_key = anchor;
          max_actuation_tier = gate.max_actuation_tier;
        })
  ]

  unfoldable pub authorize : LawGate → Shard → Result Clearance
  authorize gate shard = elim shard.publisher_pub [
    | none ↦ err gate_publisher_key
    | some pub_bytes ↦ elim (trusted_keys gate) [
      | [] ↦ err gate_anchors
      | a ∷ as' ↦ elim (anchor_for (hex (k.sha256 pub_bytes)) (trusted_keys gate)) [
        | none ↦ err gate_not_enrolled
        | some anchor ↦ clear gate shard anchor
      ]
    ]
  ]

  abbrev add_fingerprint : Bytes → List Bytes → List Bytes
  add_fingerprint fp fps = if contains fp fps then fps else fps ++ (fp ∷ [])

  -- `enroll_key` with the name of the anchor: the key file is written first.
  unfoldable pub enroll_key : Governance → String → Bytes → Result Bytes × Governance
  enroll_key gov name blob =
      let fp = hex (k.sha256 blob) in
      let keys : Table Bytes = elim gov.keys [ none ↦ [] | some d ↦ d ] in
      let written : Governance = record gov { keys = some (Table.insert name blob keys) } in
      elim gov.trust_store [
        | none ↦ (ok fp, record written { trust_store = some (some (add_fingerprint fp [])) })
        | some none ↦ (err key_missing, written)
        | some (some fps) ↦
            (ok fp, record written { trust_store = some (some (add_fingerprint fp fps)) })
      ]
