-- ===== src/Envelope/Samples.antt =====
-- A bounds shard with one signed bound, and stand-ins for what the loader calls.
use axm_embodied.Common.{
  ◌^◌, false, [], ◌∷◌, none, some, Option, Bool, Bytes, bytes_eq, hex, take, str_eq, if◌then◌else◌,
}
use axm_embodied.Common.Float.{Float, finite}
use axm_embodied.Common.Int.{pos}
use axm_embodied.Common.Json.{Json, Fields, string, integer, object, field, end}
use axm_embodied.Envelope.{Shard, Kernel, SafetyEnvelope}

abbrev pub half : Float
half = finite false (2 ^ 1073)

abbrev parse_half : Json → Option Float
parse_half v = elim v [ string s ↦ if str_eq s "0.5" then some half else none | _ ↦ none ]

abbrev verify_own_key : Shard → Bytes → Bool
verify_own_key shard key = bytes_eq key (7 ∷ 7 ∷ 1 ∷ [])

abbrev pub kernel : Kernel
kernel = record {
  verify_shard = verify_own_key;
  sha256 = take 2;
  blake3 = take 2;
  parse_int = λ s. none;
  parse_float = parse_half;
}

abbrev pub lab_key : Bytes
lab_key = 7 ∷ 7 ∷ 1 ∷ []

abbrev pub walk_claim : Fields
walk_claim = field "subject" (string "e1") (
    field "predicate" (string "max_latent_delta_linf") (
      field "object" (string "0.5")
        (field "object_type" (string "literal:decimal") (field "tier" (integer 1) end))))

abbrev pub shard : Shard
shard = record {
  manifest_bytes = 1 ∷ 2 ∷ 3 ∷ [];
  manifest =
      field "metadata" (object (field "namespace" (string "embodied/bounds") end))
        (field "publisher" (object (field "id" (string "lab") end)) end);
  publisher_pub = some lab_key;
  entities = field "entity_id" (string "e1") (field "label" (string "bounds/walk") end) ∷ [];
  claims = walk_claim ∷ [];
}

abbrev pub envelope : SafetyEnvelope
envelope = record {
  shard_id = hex (1 ∷ 2 ∷ []);
  publisher_id = "lab";
  publisher_fingerprint = hex (7 ∷ 7 ∷ []);
  bounds = ("walk", half) ∷ [];
  sample_counts = [];
  max_tier = pos 1;
}
