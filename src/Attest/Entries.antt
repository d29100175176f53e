-- ===== src/Attest/Entries.antt =====
-- `queue_attestation` and `verify_entry_matches_shard` of src/axm_embodied/attest.py.
use axm_embodied.Common.{
  ◌≡◌, refl, ap, ◌∙◌, inl, inr, true, false, String, [], ◌∷◌, Option, none, some, Bytes,
  Result-cases, ok, bytes_eq, bytes_eq_iff, bytes_eq_refl, hex, if◌then◌else◌, arith,
}
use axm_embodied.Common.Json.{Json}
use axm_embodied.Attest.{
  Queue, EntryDir, AttestRecord, AttestationEntry, new_entry_dir, entry_of, update_entry,
  encode_tsq, queue_attestation, decoded, item_of, check_entry, verify_entry_matches_shard,
}

-- The entry, a new one where it is missing.
abbrev pub or_new : Option EntryDir → EntryDir
or_new none = new_entry_dir
or_new (some e) = e

pub entry_of-update_entry :
    (id j : Bytes) (f : EntryDir → EntryDir) (q : Queue)
    → entry_of j (update_entry id f q)
      ≡ (if bytes_eq id j then some (f (or_new (entry_of id q))) else entry_of j q)
unfolding update_entry
entry_of-update_entry id j f [] = refl
entry_of-update_entry id j f ((i, e) ∷ q) =
    ground (
      arith,
      bytes_eq_iff id j,
      bytes_eq_iff i id,
      bytes_eq_iff i j,
      entry_of-update_entry id j f q,
    )

module _ (sha256 blake3 : Bytes → Bytes) (loads : Bytes → Option Json) where
  -- An entry directory as queueing leaves it, if it was `e` before.
  pub record IsQueued (manifest_bytes : Bytes) (e e' : EntryDir) : Type 0 where
    pub tsq : Bytes
    pub encoded : encode_tsq (sha256 manifest_bytes) ≡ ok tsq
    pub manifest_eq : e'.manifest_json ≡ some manifest_bytes
    pub tsq_eq : e'.manifest_tsq ≡ some tsq
    pub tsr_eq : e'.manifest_tsr ≡ e.manifest_tsr
    pub rec : AttestRecord
    pub rec_eq : e'.record_json ≡ some rec
    pub shard_id_eq : rec.shard_id ≡ hex (blake3 manifest_bytes)
    pub digest_eq : rec.manifest_sha256 ≡ hex (sha256 manifest_bytes)
    pub no_anchors : rec.anchors ≡ some []

  -- The record that is written.
  abbrev new_record : Bytes → String → String → Json → Json → Json → AttestRecord
  new_record manifest_bytes note now merkle_root publisher_id created_at = record {
    shard_id = hex (blake3 manifest_bytes);
    manifest_sha256 = hex (sha256 manifest_bytes);
    merkle_root = merkle_root;
    publisher_id = publisher_id;
    created_at_claimed = created_at;
    queued_at_local_clock = now;
    note = note;
    anchors = some [];
  }

  -- The queue after the three files have been written.
  abbrev written : Bytes → Bytes → AttestRecord → Queue → Queue
  written manifest_bytes tsq rec q =
      let id = hex (blake3 manifest_bytes) in
      update_entry id (λ e. record e { record_json = some rec })
        (update_entry id (λ e. record e { manifest_tsq = some tsq })
          (update_entry id (λ e. record e { manifest_json = some manifest_bytes }) q))

  entry_of-written :
      (manifest_bytes tsq j : Bytes) (rec : AttestRecord) (q : Queue)
      → entry_of j (written manifest_bytes tsq rec q) ≡ (
          if bytes_eq (hex (blake3 manifest_bytes)) j
          then some (record (or_new (entry_of (hex (blake3 manifest_bytes)) q)) {
            manifest_json = some manifest_bytes;
            manifest_tsq = some tsq;
            record_json = some rec;
          })
          else entry_of j q)
  entry_of-written manifest_bytes tsq j rec q =
      let id = hex (blake3 manifest_bytes) in
      rw
        (
          entry_of-update_entry id j (λ e. record e { record_json = some rec })
              (update_entry id (λ e. record e { manifest_tsq = some tsq })
                (update_entry id (λ e. record e { manifest_json = some manifest_bytes }) q)),
          entry_of-update_entry id id (λ e. record e { manifest_tsq = some tsq })
              (update_entry id (λ e. record e { manifest_json = some manifest_bytes }) q),
          entry_of-update_entry id j (λ e. record e { manifest_tsq = some tsq })
              (update_entry id (λ e. record e { manifest_json = some manifest_bytes }) q),
          entry_of-update_entry id id (λ e. record e { manifest_json = some manifest_bytes }) q,
          entry_of-update_entry id j (λ e. record e { manifest_json = some manifest_bytes }) q,
          bytes_eq_refl id,
        )
        (ground arith)

  queue_attestation_inv :
      (manifest_bytes : Bytes) (note now : String) (q : Queue) {entry : AttestationEntry}
      → (queue_attestation sha256 blake3 loads (some manifest_bytes) note now q).0 ≡ ok entry
      → (tsq : Bytes) × (rec : AttestRecord) × (encode_tsq (sha256 manifest_bytes) ≡ ok tsq)
        × (rec.shard_id ≡ hex (blake3 manifest_bytes))
        × (rec.manifest_sha256 ≡ hex (sha256 manifest_bytes))
        × (rec.anchors ≡ some [])
        × ((queue_attestation sha256 blake3 loads (some manifest_bytes) note now q).1
            ≡ written manifest_bytes tsq rec q)
  unfolding queue_attestation
  queue_attestation_inv manifest_bytes note now q e =
      elim (Result-cases (decoded (loads manifest_bytes))) [
        | inr (x, d) ↦ absurd (ground arith)
        | inl (manifest, d) ↦ elim (Result-cases (encode_tsq (sha256 manifest_bytes))) [
          | inr (x, t) ↦ absurd (ground arith)
          | inl (tsq, t) ↦ elim (Result-cases (item_of "integrity" "merkle_root" manifest)) [
            | inr (x, i) ↦ absurd (ground arith)
            | inl (merkle_root, i) ↦ elim (Result-cases (item_of "publisher" "id" manifest)) [
              | inr (x, p) ↦ absurd (ground arith)
              | inl (publisher_id, p) ↦
                  elim (Result-cases (item_of "metadata" "created_at" manifest)) [
                    | inr (x, c) ↦ absurd (ground arith)
                    | inl (created_at, c) ↦ (
                      tsq,
                      new_record manifest_bytes note now merkle_root publisher_id created_at,
                      t,
                      refl,
                      refl,
                      refl,
                      ground arith,
                    )
                  ]
            ]
          ]
        ]
      ]

  verify-IsQueued :
      (manifest_bytes : Bytes) (e e' : EntryDir)
      → IsQueued manifest_bytes e e'
      → verify_entry_matches_shard sha256 blake3 e' (some (some manifest_bytes)) ≡ ok true
  unfolding verify_entry_matches_shard check_entry
  verify-IsQueued manifest_bytes e e' h = ground (
    arith,
    h.encoded,
    h.manifest_eq,
    h.tsq_eq,
    h.rec_eq,
    h.shard_id_eq,
    h.digest_eq,
    bytes_eq_refl (hex (sha256 manifest_bytes)),
    bytes_eq_refl (hex (blake3 manifest_bytes)),
    bytes_eq_refl h.tsq,
    bytes_eq_refl manifest_bytes,
  )

  -- A shard that is queued: its entry has the manifest, the query for its digest and a record of both
  -- digests without anchors, it keeps a response that was there before, it matches the shard, and the
  -- other entries are as before.
  pub queue_attestation-IsQueued :
      (manifest_bytes : Bytes) (note now : String) (q : Queue) {entry : AttestationEntry}
      → (queue_attestation sha256 blake3 loads (some manifest_bytes) note now q).0 ≡ ok entry
      → let id = hex (blake3 manifest_bytes) in
        let q' = (queue_attestation sha256 blake3 loads (some manifest_bytes) note now q).1 in
        ((e' : EntryDir) × (entry_of id q' ≡ some e')
          × IsQueued manifest_bytes (or_new (entry_of id q)) e'
          × (verify_entry_matches_shard sha256 blake3 e' (some (some manifest_bytes)) ≡ ok true))
        × ((j : Bytes) → bytes_eq id j ≡ false → entry_of j q' ≡ entry_of j q)
  queue_attestation-IsQueued manifest_bytes note now q e =
      let id = hex (blake3 manifest_bytes) in
      let (tsq, rec, encoded, i, d, a, out) = queue_attestation_inv manifest_bytes note now q e in
      let old = or_new (entry_of id q) in
      let e' : EntryDir = record old {
        manifest_json = some manifest_bytes;
        manifest_tsq = some tsq;
        record_json = some rec;
      } in
      let queued : IsQueued manifest_bytes old e' = record {
        tsq = tsq;
        encoded = encoded;
        manifest_eq = refl;
        tsq_eq = refl;
        tsr_eq = refl;
        rec = rec;
        rec_eq = refl;
        shard_id_eq = i;
        digest_eq = d;
        no_anchors = a;
      } in
      (
        (
          e',
          ap (entry_of id) out
              ∙ entry_of-written manifest_bytes tsq id rec q
              ∙ ap (λ b. if b then some e' else entry_of id q) (bytes_eq_refl id),
          queued,
          verify-IsQueued manifest_bytes old e' queued,
        ),
        λ j other.
            ap (entry_of j) out
            ∙ entry_of-written manifest_bytes tsq j rec q
            ∙ ap (λ b. if b then some e' else entry_of j q) other,
      )
