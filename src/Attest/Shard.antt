-- ===== src/Attest/Shard.antt =====
-- `build_attestation_shard` of src/axm_embodied/attest.py: an anchored entry becomes a shard of its own.
-- `text_of` reads ASCII bytes as a text, and `utf8` encodes a text; the file of the candidates is again
-- the list of them.
use axm_embodied.Common.{
  Bool, true, false, String, List, [], ◌∷◌, Option, none, some, Bytes, Result, ok, err, str_eq,
  if◌then◌else◌, no_file, key_missing, entry_inconsistent,
}
use axm_embodied.Common.Decode.{◌>>=◌}
use axm_embodied.Common.Json.{string}
use axm_embodied.Attest.{
  EntryDir, AttestRecord, Anchor, extract_rfc3161_gentime, verify_entry_matches_shard,
}
use axm_embodied.Compile.{Candidate, Reference, claim, compiled}
use Prim.Native.String.{◌++◌ as ◌⧺◌}

abbrev pub default_tsa_url : String
default_tsa_url = "https://freetsa.org/tsr"

-- A row of attestations@1.
pub record AttestationRow : Type 0 where
  pub target_shard_id : String
  pub kind : String
  pub authority : String
  pub digest_sha256 : String
  pub anchored_at : String
  pub proof_path : String

-- What the kernel compiler is asked for, as far as it is given.
pub record ShardConfig : Type 0 where
  pub source : Bytes
  pub candidates : List Candidate
  pub out_dir : String
  pub private_key : Bytes
  pub publisher_id : String
  pub publisher_name : String
  pub namespace : String
  pub created_at : String
  pub title : String
  pub license_spdx : String
  pub extra_content : List (String × Bytes)
  pub extra_ext : String × List AttestationRow

-- The arguments of a caller; `now` is the clock.
pub record ShardRequest : Type 0 where
  pub out_dir : String
  pub secret_key : Bytes
  pub publisher_id : String
  pub publisher_name : String
  pub timestamp : Option String
  pub now : String

-- The first anchor of kind rfc3161.
abbrev pub first_anchor : List Anchor → Option Anchor
first_anchor [] = none
first_anchor (a ∷ anchors) =
    let rest = first_anchor anchors in if str_eq a.kind "rfc3161" then some a else rest

abbrev pub anchors_in : AttestRecord → List Anchor
anchors_in rec = elim rec.anchors [ none ↦ [] | some anchors ↦ anchors ]

abbrev pub join_lines : List String → String
join_lines [] = ""
join_lines (line ∷ lines) = line ⧺ "\n" ⧺ join_lines lines

-- What an attestation says: its target, the digest, the authority and the time.
pub record Attestation : Type 0 where
  pub target_id : String
  pub digest : String
  pub authority : String
  pub anchored_at : String

abbrev pub anchor_line : Attestation → String
anchor_line a = "kind: rfc3161 authority: " ⧺ a.authority ⧺ " gen_time: " ⧺ a.anchored_at

abbrev pub source_lines : Attestation → List String
source_lines a =
    "ATTESTATION RECORD: PROOF OF EXISTENCE"
    ∷ "======================================"
    ∷ ("target: " ⧺ a.target_id)
    ∷ ("digest_sha256: " ⧺ a.digest)
    ∷ anchor_line a
    ∷ "The raw proof (content/manifest.tsr) is authoritative; verify with:"
    ∷ "openssl ts -verify -queryfile manifest.tsq -in manifest.tsr -CAfile <tsa-ca>"
    ∷ []

abbrev pub target_ref : Bytes → List Reference
target_ref id =
    record {
      dst_shard_id = id;
      relation_type = "cites";
      dst_object_type = "shard";
      dst_object_id = "";
      confidence = "1.0";
      note = "shard whose existence this attestation anchors in time";
    }
    ∷ []

abbrev attested : Attestation → String → String → String → Candidate
attested a pred obj ev =
    claim (string ("anchor/" ⧺ a.target_id)) pred (string obj) "literal:string" 1 ev

-- The five claims; the first one cites the target, whose id is `id`.
unfoldable pub attestation_candidates : Bytes → Attestation → List Candidate
attestation_candidates id a =
    let target = attested a "target_shard_id" a.target_id ("target: " ⧺ a.target_id) in
    record target { references = target_ref id }
    ∷ attested a "digest_sha256" a.digest ("digest_sha256: " ⧺ a.digest)
    ∷ attested a "anchor_kind" "rfc3161" (anchor_line a)
    ∷ attested a "anchor_authority" a.authority (anchor_line a)
    ∷ attested a "anchored_at" a.anchored_at (anchor_line a)
    ∷ []

abbrev pub attestation_row : Attestation → AttestationRow
attestation_row a = record {
  target_shard_id = a.target_id;
  kind = "rfc3161";
  authority = a.authority;
  digest_sha256 = a.digest;
  anchored_at = a.anchored_at;
  proof_path = "content/manifest.tsr";
}

-- `a or b`
abbrev pub or_text : Option String → String → String
or_text none b = b
or_text (some a) b = if str_eq a "" then b else a

abbrev pub needed {ℓ} : {A : Type ℓ} → Option A → Result A
needed none = err no_file
needed (some a) = ok a

-- `record["anchors"]`
abbrev pub has_anchors : AttestRecord → Result (Unit {0})
has_anchors rec = elim rec.anchors [ none ↦ err key_missing | some anchors ↦ ok tt ]

abbrev pub consistent : Bool → Result (Unit {0})
consistent false = err entry_inconsistent
consistent true = ok tt

module _ (text_of : Bytes → String) (utf8 : String → Bytes) where
  -- The time of the response, or else the one that the anchor notes.
  unfoldable pub attestation_of : AttestRecord → Bytes → Attestation
  attestation_of rec tsr =
      let anchor = first_anchor (anchors_in rec) in
      record {
        target_id = "sh1_" ⧺ text_of rec.shard_id;
        digest = text_of rec.manifest_sha256;
        authority = elim anchor [ none ↦ default_tsa_url | some a ↦ a.tsa ];
        anchored_at = elim (extract_rfc3161_gentime tsr) [
          | some time ↦ text_of time
          | none ↦ elim anchor [ none ↦ "" | some a ↦ a.anchored_at_local_clock ]
        ];
      }

  abbrev pub shard_config : ShardRequest → AttestRecord → Bytes → Bytes → Bytes → ShardConfig
  shard_config req rec manifest tsq tsr =
      let a = attestation_of rec tsr in
      record {
        source = utf8 (join_lines (source_lines a));
        candidates = attestation_candidates rec.shard_id a;
        out_dir = req.out_dir;
        private_key = req.secret_key;
        publisher_id = req.publisher_id;
        publisher_name = req.publisher_name;
        namespace = "embodied/attestation";
        created_at = or_text req.timestamp req.now;
        title = "Attestation of " ⧺ a.target_id;
        license_spdx = "Apache-2.0";
        extra_content =
            ("target-manifest.json", manifest) ∷ ("manifest.tsq", tsq) ∷ ("manifest.tsr", tsr) ∷ [];
        extra_ext = ("attestations@1", attestation_row a ∷ []);
      }

  module _ (sha256 blake3 : Bytes → Bytes) (kernel : ShardConfig → Bool × Option Bytes) where
    unfoldable pub build_attestation_shard : ShardRequest → EntryDir → Result Bytes
    build_attestation_shard req e = do
      matches ← verify_entry_matches_shard sha256 blake3 e none
      one ← consistent matches
      tsr ← needed e.manifest_tsr
      rec ← needed e.record_json
      two ← has_anchors rec
      manifest ← needed e.manifest_json
      tsq ← needed e.manifest_tsq
      compiled blake3 (kernel (shard_config req rec manifest tsq tsr))
