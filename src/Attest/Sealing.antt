-- ===== src/Attest/Sealing.antt =====
-- What `build_attestation_shard` of src/axm_embodied/attest.py has checked of an entry whose
-- attestation shard it reports.
use axm_embodied.Common.{
  ◌≡◌, refl, sym, ap, subst, ◌∙◌, inl, inr, Bool, true, false, String, List, [], ◌∷◌, Option, none,
  some, Bytes, All, Option-cases, Result-cases, Bool-cases, ok, arith, ◌⊎◌, hex, bytes_eq_iff,
}
use axm_embodied.Common.Decode.{bind_inv}
use axm_embodied.Attest.{
  EntryDir, AttestRecord, encode_tsq, check_entry, verify_entry_matches_shard,
}
use axm_embodied.Attest.Gentime.{first_time, extract_rfc3161_gentime_first}
use axm_embodied.Attest.Shard.{
  ShardConfig, ShardRequest, Attestation, source_lines, attestation_candidates, attestation_of,
  shard_config, needed, has_anchors, consistent, build_attestation_shard,
}
use axm_embodied.Compile.Sealing.{IsAccepted, compiled-IsAccepted}

-- A text is one of the lines.
abbrev pub IsLine : String → List String → Type 0
IsLine text [] = ⊥
IsLine text (line ∷ lines) = (line ≡ text) ⊎ IsLine text lines

needed_inv : {A : Type 0} (o : Option A) {a : A} → needed o ≡ ok a → o ≡ some a
needed_inv none e = absurd (ground arith)
needed_inv (some b) e = ground arith

consistent_inv : (b : Bool) {u : Unit {0}} → consistent b ≡ ok u → b ≡ true
consistent_inv true e = refl
consistent_inv false e = absurd (ground arith)

candidates-IsLine :
    (id : Bytes) (a : Attestation)
    → All (λ c. IsLine c.evidence (source_lines a)) (attestation_candidates id a)
unfolding attestation_candidates
candidates-IsLine id a = (
  inr (inr (inl refl)),
  (
    inr (inr (inr (inl refl))),
    (
      inr (inr (inr (inr (inl refl)))),
      (inr (inr (inr (inr (inl refl)))), (inr (inr (inr (inr (inl refl)))), tt)),
    ),
  ),
)

module _ (sha256 blake3 : Bytes → Bytes) where
  -- The files of an entry agree.
  pub record IsMatch (e : EntryDir) (manifest : Bytes) (rec : AttestRecord) (tsq : Bytes)
      : Type 0 where
    pub manifest_there : e.manifest_json ≡ some manifest
    pub record_there : e.record_json ≡ some rec
    pub tsq_there : e.manifest_tsq ≡ some tsq
    pub digest_eq : rec.manifest_sha256 ≡ hex (sha256 manifest)
    pub shard_id_eq : rec.shard_id ≡ hex (blake3 manifest)
    pub tsq_eq : encode_tsq (sha256 manifest) ≡ ok tsq

  check_entry_inv :
      (manifest : Bytes) (rec : AttestRecord) (query : Option Bytes)
      → check_entry sha256 blake3 manifest rec query ≡ ok true
      → (tsq : Bytes) × (query ≡ some tsq)
        × (rec.manifest_sha256 ≡ hex (sha256 manifest))
        × (rec.shard_id ≡ hex (blake3 manifest))
        × (encode_tsq (sha256 manifest) ≡ ok tsq)
  unfolding check_entry
  check_entry_inv manifest rec none e = absurd (ground arith)
  check_entry_inv manifest rec (some tsq) e = elim (Result-cases (encode_tsq (sha256 manifest))) [
    | inr (x, failed) ↦ absurd (ground arith)
    | inl (expected, encoded) ↦
        let same : tsq ≡ expected = ground (arith, bytes_eq_iff tsq expected) in
        (
          tsq,
          refl,
          ground (arith, bytes_eq_iff rec.manifest_sha256 (hex (sha256 manifest))),
          ground (arith, bytes_eq_iff rec.shard_id (hex (blake3 manifest))),
          encoded ∙ ap ok (sym same),
        )
  ]

  verify_inv :
      (e : EntryDir)
      → verify_entry_matches_shard sha256 blake3 e none ≡ ok true
      → (manifest : Bytes) × (rec : AttestRecord) × (tsq : Bytes) × IsMatch e manifest rec tsq
  unfolding verify_entry_matches_shard
  verify_inv e v = elim (Option-cases e.manifest_json) [
    | inl missing ↦ absurd (ground arith)
    | inr (manifest, m) ↦ elim (Option-cases e.record_json) [
      | inl missing ↦ absurd (ground arith)
      | inr (rec, r) ↦ elim (Result-cases (check_entry sha256 blake3 manifest rec e.manifest_tsq)) [
        | inr (x, failed) ↦ absurd (ground arith)
        | inl (b, checked) ↦
            let right : b ≡ true = elim (Bool-cases b) [
              | inl agree ↦ agree
              | inr differ ↦ absurd (ground arith)
            ] in
            let (tsq, q, d, i, t) =
              check_entry_inv manifest rec e.manifest_tsq (checked ∙ ap ok right) in
            (
              manifest,
              rec,
              tsq,
              record {
                manifest_there = m;
                record_there = r;
                tsq_there = q;
                digest_eq = d;
                shard_id_eq = i;
                tsq_eq = t;
              },
            )
      ]
    ]
  ]

  module _ (text_of : Bytes → String) (utf8 : String → Bytes)
      (kernel : ShardConfig → Bool × Option Bytes) where
    -- An attestation that is reported.
    pub record IsAttested (req : ShardRequest) (e : EntryDir) (id : Bytes) : Type 0 where
      pub manifest : Bytes
      pub rec : AttestRecord
      pub tsq : Bytes
      pub tsr : Bytes
      pub matched : IsMatch e manifest rec tsq
      pub tsr_there : e.manifest_tsr ≡ some tsr
      pub accepted :
          IsAccepted blake3 (kernel (shard_config text_of utf8 req rec manifest tsq tsr)) id
      pub borne_out :
          All
            (λ c. IsLine c.evidence (source_lines (attestation_of text_of utf8 rec tsr)))
            (attestation_candidates rec.shard_id (attestation_of text_of utf8 rec tsr))
      pub timed :
          (time : Bytes)
          → first_time tsr ≡ some time
          → (attestation_of text_of utf8 rec tsr).anchored_at ≡ text_of time

    attested_time :
        (rec : AttestRecord) (tsr time : Bytes)
        → first_time tsr ≡ some time
        → (attestation_of text_of utf8 rec tsr).anchored_at ≡ text_of time
    unfolding attestation_of
    attested_time rec tsr time h = ground (arith, extract_rfc3161_gentime_first tsr, h)

    same_of : {A : Type 0} (o : Option A) {a b : A} → o ≡ some a → o ≡ some b → a ≡ b
    same_of o h g = ground arith

    -- The id of an attestation shard is returned only for an entry that has a response and whose
    -- manifest, record and query agree; and only if the kernel accepts the three files with claims of
    -- which each has a line of the source as its evidence. The time that is claimed is the first one
    -- of the response, if it has one.
    pub build_attestation_shard-IsAttested :
        (req : ShardRequest) (e : EntryDir) {id : Bytes}
        → build_attestation_shard text_of utf8 sha256 blake3 kernel req e ≡ ok id
        → IsAttested req e id
    unfolding build_attestation_shard
    build_attestation_shard-IsAttested req e {id} h =
        let (b, v, e₁) = bind_inv (verify_entry_matches_shard sha256 blake3 e none) _ h in
        let (u, c, e₂) = bind_inv (consistent b) _ e₁ in
        let (tsr, t, e₃) = bind_inv (needed e.manifest_tsr) _ e₂ in
        let (rec', r, e₄) = bind_inv (needed e.record_json) _ e₃ in
        let (two, a, e₅) = bind_inv (has_anchors rec') _ e₄ in
        let (manifest', m, e₆) = bind_inv (needed e.manifest_json) _ e₅ in
        let (tsq', q, e₇) = bind_inv (needed e.manifest_tsq) _ e₆ in
        let (manifest, rec, tsq, matched) = verify_inv e (v ∙ ap ok (consistent_inv b c)) in
        let config : shard_config text_of utf8 req rec' manifest' tsq' tsr
            ≡ shard_config text_of utf8 req rec manifest tsq tsr =
          ap (λ x. shard_config text_of utf8 req x manifest' tsq' tsr)
            (same_of e.record_json (needed_inv e.record_json r) matched.record_there)
          ∙ ap (λ x. shard_config text_of utf8 req rec x tsq' tsr)
              (same_of e.manifest_json (needed_inv e.manifest_json m) matched.manifest_there)
          ∙ ap (λ x. shard_config text_of utf8 req rec manifest x tsr)
              (same_of e.manifest_tsq (needed_inv e.manifest_tsq q) matched.tsq_there) in
        record {
          manifest = manifest;
          rec = rec;
          tsq = tsq;
          tsr = tsr;
          matched = matched;
          tsr_there = needed_inv e.manifest_tsr t;
          accepted =
              subst (λ x. IsAccepted blake3 (kernel x) id) config (compiled-IsAccepted blake3 _ e₇);
          borne_out = candidates-IsLine rec.shard_id (attestation_of text_of utf8 rec tsr);
          timed = attested_time rec tsr;
        }
