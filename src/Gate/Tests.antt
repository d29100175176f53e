-- ===== src/Gate/Tests.antt =====
-- A gate with one enrolled key, and the enrolment of another.
use axm_embodied.Common.{◌≡◌, refl, String, ◌||◌, [], ◌∷◌, none, some, Bytes, bytes_eq, hex, ok}
use axm_embodied.Common.Int.{pos}
use axm_embodied.Common.Table
use axm_embodied.Common.Table.{Table}
use axm_embodied.Envelope.{
  load, read_envelope, read_labels, read_claims, read_claim, read_bound, build_envelope,
}
use axm_embodied.Envelope.Load.{IsSigned}
use axm_embodied.Envelope.Samples.{half, kernel, lab_key, shard, envelope}
use axm_embodied.Gate.{
  Governance, LawGate, Clearance, contains, authorize, trusted_keys, collect_keys, clear,
  enroll_key,
}
use axm_embodied.Gate.Authorize.{IsCleared, authorize-IsCleared, authorize-bound}
use axm_embodied.Gate.Enroll.{listed, enroll_key_lem}

abbrev gate : LawGate
gate = record {
  trusted_fingerprints = hex (7 ∷ 7 ∷ []) ∷ [];
  max_actuation_tier = pos 2;
  keys = some (("lab.pub", lab_key) ∷ []);
}

abbrev clearance : Clearance
clearance = record { envelope = envelope; trusted_key = lab_key; max_actuation_tier = pos 2 }

clears : authorize kernel gate shard ≡ ok clearance
unfolding authorize trusted_keys collect_keys clear load read_envelope read_labels read_claims
    read_claim read_bound build_envelope
clears = refl

authorize-IsCleared_example : IsCleared kernel gate shard clearance
authorize-IsCleared_example = authorize-IsCleared kernel gate shard clearance clears

authorize-bound_example :
    (labels : Table String) × (read_labels shard.entities [] ≡ ok labels)
    × IsSigned kernel labels shard.claims (pos 2) "walk" half
authorize-bound_example = authorize-bound kernel gate shard clearance "walk" half clears refl

abbrev governance : Governance
governance = record {
  trust_store = some (some (hex (7 ∷ 7 ∷ []) ∷ []));
  local_policy = none;
  keys = some (("lab.pub", lab_key) ∷ []);
}

abbrev new_key : Bytes
new_key = 8 ∷ 9 ∷ 1 ∷ []

enrolled : (enroll_key kernel governance "fleet.pub" new_key).0 ≡ ok (hex (8 ∷ 9 ∷ []))
unfolding enroll_key
enrolled = refl

enroll_key_lem_example :
    let gov' = (enroll_key kernel governance "fleet.pub" new_key).1 in
    (hex (8 ∷ 9 ∷ []) ≡ hex (kernel.sha256 new_key))
    × ((x : Bytes)
        → contains x (listed kernel gov'.trust_store)
          ≡ (contains x (listed kernel governance.trust_store) || bytes_eq (hex (8 ∷ 9 ∷ [])) x))
    × (gov'.keys ≡ some (Table.insert "fleet.pub" new_key (("lab.pub", lab_key) ∷ [])))
    × (gov'.local_policy ≡ none)
enroll_key_lem_example =
    enroll_key_lem kernel governance "fleet.pub" new_key (hex (8 ∷ 9 ∷ [])) enrolled
