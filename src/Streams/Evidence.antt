-- ===== src/Streams/Evidence.antt =====
-- Disk is truth: what stands behind each row that `build_streams_evidence` returns.
use axm_embodied.Common.{
  ℕ, ◌+◌, ◌*◌, ◌≡◌, refl, sym, subst, inl, inr, String, List, [], ◌∷◌, ◌++◌, Option, none, some,
  Bytes, All, Result, ok, err, arith, Option-cases, latent_status,
}
use axm_embodied.Common.Dict
use axm_embodied.Common.Decode.{bind_inv, key, key_object, to_int}
use axm_embodied.Common.Int.{ℤ, pos, negsuc}
use axm_embodied.Common.Json.{Fields}
use axm_embodied.Protocol.{file_header_len, latent_rec_len}
use axm_embodied.Streams.{
  Capsule, StrictJudge, Scan, Row, latents, residuals, ResidualRecord, Status, verified,
  residual_rows, scan_residuals, judge, verify_latent, event_rows, all_rows, build_streams_evidence,
}
use axm_embodied.Streams.Latents.{IsLatentRecord, verify_latent_sound}
use axm_embodied.Streams.Residuals.{IsOnDisk, scan_residuals-IsIndexed}

module _ (sha256 : Bytes → Bytes) where
  -- A row of the latents: the file holds at its place a whole record of its frame, with its hash.
  pub record IsLatentRow (c : Capsule) (row : Row) : Type 0 where
    pub f_lat : Bytes
    pub file : c.cam_latents ≡ some f_lat
    pub k : ℕ
    pub fid_eq : row.frame_id ≡ pos k
    pub offset_eq : row.offset ≡ pos (file_header_len + k * latent_rec_len)
    pub len_eq : row.len ≡ pos latent_rec_len
    pub on_disk : IsLatentRecord sha256 f_lat k row.content_hash

  -- A row of the residuals: the same.
  pub record IsResidualRow (c : Capsule) (row : Row) : Type 0 where
    pub f_res : Bytes
    pub file : c.cam_residuals ≡ some f_res
    pub k : ℕ
    pub fid_eq : row.frame_id ≡ pos k
    pub rec : ResidualRecord
    pub offset_eq : row.offset ≡ pos rec.offset
    pub len_eq : row.len ≡ pos rec.len
    pub hash_eq : row.content_hash ≡ rec.content_hash
    pub on_disk : IsOnDisk sha256 f_res k rec

  abbrev pub IsBorneOut : Capsule → Row → Type 0
  IsBorneOut c row = elim row.stream [
    | latents ↦ IsLatentRow c row
    | residuals ↦ IsResidualRow c row
  ]

  -- What a judge has seen of its capsule.
  record IsJudge (c : Capsule) (j : StrictJudge) : Type 0 where
    f_lat_eq : c.cam_latents ≡ some j.f_lat
    index_true :
        (k : ℕ) (rec : ResidualRecord)
        → Dict.lookup k j.scan.residual_index ≡ some rec
        → (f_res : Bytes) × (c.cam_residuals ≡ some f_res) × IsOnDisk sha256 f_res k rec

  index_true_of :
      (file : Option Bytes) (scan : Scan)
      → scan_residuals sha256 file ≡ ok scan
      → (k : ℕ) (rec : ResidualRecord) → Dict.lookup k scan.residual_index ≡ some rec
      → (f_res : Bytes) × (file ≡ some f_res) × IsOnDisk sha256 f_res k rec
  unfolding scan_residuals
  index_true_of none scan e k rec l = absurd (ground arith)
  index_true_of (some f_res) scan e k rec l =
      (f_res, refl, scan_residuals-IsIndexed sha256 f_res e k rec l)

  judge-IsJudge : (c : Capsule) {j : StrictJudge} → judge sha256 c ≡ ok j → IsJudge c j
  unfolding judge scan_residuals
  judge-IsJudge c {j} e =
      let (scan, s, e₁) = bind_inv (scan_residuals sha256 c.cam_residuals) _ e in
      elim (Option-cases c.cam_latents) [
        | inl missing ↦ absurd (ground arith)
        | inr (f, there) ↦
            let made : (let j' : StrictJudge = record { scan = scan; f_lat = f } in j' ≡ j) =
              ground arith in
            subst (IsJudge c) made
              (record { f_lat_eq = there; index_true = index_true_of c.cam_residuals scan s })
      ]

  abbrev found_rows : ℕ → Option ResidualRecord → List Row
  found_rows k found = elim found [
    | none ↦ []
    | some rec ↦
        record {
          frame_id = pos k;
          stream = residuals;
          offset = pos rec.offset;
          len = pos rec.len;
          content_hash = rec.content_hash;
        }
        ∷ []
  ]

  residual_rows_true :
      (c : Capsule) (j : StrictJudge) (fid : ℤ)
      → IsJudge c j
      → All (IsBorneOut c) (residual_rows fid j.scan.residual_index)
  residual_rows_true c j (negsuc n) h = tt
  residual_rows_true c j (pos k) h = elim (Option-cases (Dict.lookup k j.scan.residual_index)) [
    | inl missing ↦ subst (λ o. All (IsBorneOut c) (found_rows k o)) (sym missing) tt
    | inr (rec, there) ↦
        let (f_res, file, on_disk) = h.index_true k rec there in
        subst (λ o. All (IsBorneOut c) (found_rows k o)) (sym there)
          (
            record {
              f_res = f_res;
              file = file;
              k = k;
              fid_eq = refl;
              rec = rec;
              offset_eq = refl;
              len_eq = refl;
              hash_eq = refl;
              on_disk = on_disk;
            },
            tt,
          )
  ]

  -- The rows of a claim, by what the judge says of it.
  abbrev claimed_rows : StrictJudge → ℤ → ℤ → ℤ → Status → Result (List Row)
  claimed_rows j fid offset len status = elim status [
    | verified hash ↦ ok (
        record { frame_id = fid; stream = latents; offset = offset; len = len; content_hash = hash }
        ∷ residual_rows fid j.scan.residual_index)
    | _ ↦ err latent_status
  ]

  claimed_rows_true :
      (c : Capsule) (j : StrictJudge) (fid offset len : ℤ) (status : Status) {rows : List Row}
      → IsJudge c j
      → verify_latent sha256 j.f_lat offset len fid ≡ ok status
      → claimed_rows j fid offset len status ≡ ok rows
      → All (IsBorneOut c) rows
  claimed_rows_true c j fid offset len (verified hash) {rows} h v e =
      let all : record {
        frame_id = fid;
        stream = latents;
        offset = offset;
        len = len;
        content_hash = hash;
      }
            ∷ residual_rows fid j.scan.residual_index
          ≡ rows =
        ground arith in
      let (k, f, o, l, on_disk) = verify_latent_sound sha256 j.f_lat offset len fid v in
      subst (All (IsBorneOut c)) all (
        record {
          f_lat = j.f_lat;
          file = h.f_lat_eq;
          k = k;
          fid_eq = f;
          offset_eq = o;
          len_eq = l;
          on_disk = on_disk;
        },
        residual_rows_true c j fid h,
      )
  claimed_rows_true c j fid offset len status h v e = absurd (ground arith)

  event_rows_true :
      (parse_int : String → Option ℤ) (c : Capsule) (j : StrictJudge) (evt : Fields)
      {rows : List Row}
      → IsJudge c j
      → event_rows sha256 parse_int j evt ≡ ok rows
      → All (IsBorneOut c) rows
  unfolding event_rows
  event_rows_true parse_int c j evt h e =
      let (fid_json, a, e₁) = bind_inv (key "frame_id" evt) _ e in
      let (fid, b, e₂) = bind_inv (to_int parse_int fid_json) _ e₁ in
      let (refs, d, e₃) = bind_inv (key_object "stream_refs" evt) _ e₂ in
      let (l_ref, f, e₄) = bind_inv (key_object "latents" refs) _ e₃ in
      let (offset_json, g, e₅) = bind_inv (key "offset" l_ref) _ e₄ in
      let (offset, i, e₆) = bind_inv (to_int parse_int offset_json) _ e₅ in
      let (len_json, m, e₇) = bind_inv (key "length" l_ref) _ e₆ in
      let (len, n, e₈) = bind_inv (to_int parse_int len_json) _ e₇ in
      let (status, v, e₉) = bind_inv (verify_latent sha256 j.f_lat offset len fid) _ e₈ in
      claimed_rows_true c j fid offset len status h v e₉

  All-append :
      (c : Capsule) (xs ys : List Row)
      → All (IsBorneOut c) xs
      → All (IsBorneOut c) ys
      → All (IsBorneOut c) (xs ++ ys)
  All-append c [] ys hx hy = hy
  All-append c (x ∷ xs) ys (h, hx) hy = (h, All-append c xs ys hx hy)

  all_rows_true :
      (parse_int : String → Option ℤ) (c : Capsule) (j : StrictJudge) (evts : List Fields)
      {rows : List Row}
      → IsJudge c j
      → all_rows sha256 parse_int j evts ≡ ok rows
      → All (IsBorneOut c) rows
  unfolding all_rows
  all_rows_true parse_int c j [] {rows} h e =
      let none_left : [] ≡ rows = ground arith in subst (All (IsBorneOut c)) none_left tt
  all_rows_true parse_int c j (evt ∷ evts) {rows} h e =
      let (first, f, e₁) = bind_inv (event_rows sha256 parse_int j evt) _ e in
      let (rest, r, e₂) = bind_inv (all_rows sha256 parse_int j evts) _ e₁ in
      let all : first ++ rest ≡ rows = ground arith in
      subst (All (IsBorneOut c)) all (
        All-append c first rest (event_rows_true parse_int c j evt h f)
          (all_rows_true parse_int c j evts h r))

  -- Disk is truth: every row of the evidence stands for a whole record of the capsule's files, at
  -- its offset and of its length, with its frame id in the header and the hash of its payload. No
  -- row rests on the log alone.
  pub build_streams_evidence-IsBorneOut :
      (parse_int : String → Option ℤ) (c : Capsule) {rows : List Row}
      → build_streams_evidence sha256 parse_int c ≡ ok rows
      → All (IsBorneOut c) rows
  unfolding build_streams_evidence
  build_streams_evidence-IsBorneOut parse_int c e =
      let (j, made, e₁) = bind_inv (judge sha256 c) _ e in
      all_rows_true parse_int c j c.events (judge-IsJudge c made) e₁
