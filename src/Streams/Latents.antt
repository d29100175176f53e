-- ===== src/Streams/Latents.antt =====
-- `verify_latent`: when it accepts a claim, and that it accepts every record of the recorder.
use axm_embodied.Common.{
  ℕ, zero, suc, ◌+◌, ◌*◌, ◌^◌, ◌≤◌, ◌<◌, ◌≡◌, refl, sym, ap, ◌∙◌, true, List, [], ◌∷◌, ◌++◌, some,
  Bytes, ltb, length, get_elem?, Result, ok, bytes_eq, bytes_eq→eq, read_at, arith, take, drop,
  drop-nil, drop-le, drop-drop, take-append_of_length, drop-append_of_length, All, hex, String,
  Bool-cases, inl, inr, Option-cases, ==_self,
}
use axm_embodied.Common.Int.{ℤ, pos, negsuc, eq_ℤ_iff}
use axm_embodied.Protocol.{
  Header, unpack_header, magic_latent_rec, version, rec_header_len, latent_dim, file_header_len,
  latent_rec_len, header_bytes,
}
use axm_embodied.Protocol.Laws.{unpack-pack}
use axm_embodied.Recorder.{RecorderConfig, new_recorder}
use axm_embodied.Recorder.Frames.{hot_blob}
use axm_embodied.Recorder.Hot.{
  hot_records, hot_image, IsLatent, payloads, IsHot-stream_gap_free, length-hot_blob,
}
use axm_embodied.Recorder.Session.{Op, run}
use axm_embodied.Streams.{
  Status, verified, eof, verify_header, verify_at, verify_payload, verify_latent, math_offset,
}

drop_records :
    (k j i : ℕ) (ps : List Bytes)
    → j + k ≡ i
    → All IsLatent ps
    → drop (k * latent_rec_len) (hot_records j ps) ≡ hot_records i (drop k ps)
drop_records zero j i ps e h = let e' : j ≡ i = omega arith in rw e'
drop_records (suc k) j i [] e h = drop-nil (suc k * latent_rec_len)
drop_records (suc k) j i (p ∷ ps) e (hp, h) =
    sym (drop-drop latent_rec_len (k * latent_rec_len) (suc k * latent_rec_len) _ (omega arith))
    ∙ ap (drop (k * latent_rec_len)) (
        drop-append_of_length latent_rec_len (hot_blob j p) (hot_records (suc j) ps)
          (length-hot_blob j p hp))
    ∙ drop_records k (suc j) i ps (omega arith) h

-- What the file holds from the place of record `k` on.
at_record :
    (k : ℕ) (ps : List Bytes)
    → All IsLatent ps
    → drop (file_header_len + k * latent_rec_len) (hot_image ps) ≡ hot_records k (drop k ps)
at_record k ps h =
    sym (drop-drop file_header_len (k * latent_rec_len) _ (hot_image ps) refl)
    ∙ drop_records k 0 k ps (omega arith) h

get_elem?-lt {ℓ} :
    {A : Type ℓ} (xs : List A) (k : ℕ) {x : A} → get_elem? xs k ≡ some x → k < length xs
get_elem?-lt [] k e = cc
get_elem?-lt (y ∷ xs) zero e = omega arith
get_elem?-lt (y ∷ xs) (suc k) e = omega (arith, get_elem?-lt xs k e)

All-get_elem? :
    (ps : List Bytes) (k : ℕ) {p : Bytes} → All IsLatent ps → get_elem? ps k ≡ some p → IsLatent p
All-get_elem? [] k h e = cc
All-get_elem? (q ∷ ps) zero h e = ground (arith, h.0)
All-get_elem? (q ∷ ps) (suc k) h e = All-get_elem? ps k h.1 e

drop-get_elem? {ℓ} :
    {A : Type ℓ} (k : ℕ) (xs : List A) {x : A}
    → get_elem? xs k ≡ some x
    → drop k xs ≡ x ∷ drop (suc k) xs
drop-get_elem? k [] e = cc
drop-get_elem? zero (y ∷ xs) e = ground arith
drop-get_elem? (suc k) (y ∷ xs) e = drop-get_elem? k xs e

verify_header_ok :
    (k : ℕ)
    → verify_header
        (record { magic = magic_latent_rec; ver = version; frame_id = k; dlen = latent_dim })
        (pos k)
      ≡ verified []
unfolding verify_header
verify_header_ok k = rw (==_self k)

module _ (sha256 : Bytes → Bytes) where
  verify_at_record :
      (f_lat rest p : Bytes) (k offset : ℕ)
      → drop offset f_lat ≡ hot_blob k p ++ rest
      → k < 2 ^ 32
      → IsLatent p
      → verify_at sha256 f_lat offset (pos k) ≡ verified (hex (sha256 p))
  unfolding verify_at verify_payload
  verify_at_record f_lat rest p k offset e hk hp =
      let header : read_at f_lat offset rec_header_len
          ≡ header_bytes magic_latent_rec k latent_dim =
        rw e refl in
      let after : drop (offset + rec_header_len) f_lat ≡ p ++ rest =
        sym (drop-drop offset rec_header_len _ f_lat refl) ∙ rw e refl in
      let payload : read_at f_lat (offset + rec_header_len) latent_dim ≡ p =
        ap (take latent_dim) after ∙ take-append_of_length latent_dim p rest hp in
      rw (
        header,
        unpack-pack b'A' b'X' b'L' b'R' k latent_dim hk (omega arith),
        verify_header_ok k,
        payload,
        hp,
      )

  -- The claim of the log for frame `k`, against a file that the recorder wrote.
  abbrev pub claim : Bytes → ℕ → Result Status
  claim f_lat k =
      verify_latent sha256 f_lat (pos (file_header_len + k * latent_rec_len)) (pos latent_rec_len)
        (pos k)

  claim_lem :
      (f_lat : Bytes) (k : ℕ)
      → claim f_lat k ≡ ok (verify_at sha256 f_lat (file_header_len + k * latent_rec_len) (pos k))
  unfolding verify_latent
  claim_lem f_lat k = rw (==_self (file_header_len + k * latent_rec_len))

  pub claim_image :
      (ps : List Bytes) (k : ℕ) {p : Bytes}
      → All IsLatent ps
      → length ps ≤ 2 ^ 32
      → get_elem? ps k ≡ some p
      → claim (hot_image ps) k ≡ ok (verified (hex (sha256 p)))
  claim_image ps k {p} h n e =
      let inside = get_elem?-lt ps k e in
      claim_lem (hot_image ps) k
      ∙ ap ok (
          verify_at_record (hot_image ps) (hot_records (suc k) (drop (suc k) ps)) p k _
            (at_record k ps h ∙ ap (hot_records k) (drop-get_elem? k ps e)) (omega arith)
            (All-get_elem? ps k h e))

  -- A frame that was not recorded is past the end of the file.
  pub claim_past :
      (ps : List Bytes) (k : ℕ) → All IsLatent ps → length ps ≤ k → claim (hot_image ps) k ≡ ok eof
  unfolding verify_at
  claim_past ps k h n = claim_lem (hot_image ps) k ∙ rw (at_record k ps h, drop-le k ps n)

  -- In any session, whatever its calls were, the judge accepts the claim of every accepted frame
  -- and gives the hash of the very payload that was recorded; a claim for a later frame is `EOF`.
  pub session_verified :
      (ops : List Op) (robot_id session_id path started_at : String) (config : RecorderConfig)
      (k : ℕ)
      → let r = new_recorder robot_id session_id path started_at config in
        ((p : Bytes)
          → get_elem? (payloads ops r) k ≡ some p
          → claim (run ops r).f_lat.content k ≡ ok (verified (hex (sha256 p))))
        × (length (payloads ops r) ≤ k → claim (run ops r).f_lat.content k ≡ ok eof)
  session_verified ops robot_id session_id path started_at config k =
      let h = IsHot-stream_gap_free ops robot_id session_id path started_at config in
      (
        (λ p e.
            ap (λ f. claim f k) h.image
            ∙ claim_image (payloads ops _) k h.sizes (omega (arith, h.count)) e),
        (λ n. ap (λ f. claim f k) h.image ∙ claim_past (payloads ops _) k h.sizes n),
      )

verify_header_inv :
    (h : Header) (fid : ℤ) {x : Bytes}
    → verify_header h fid ≡ verified x
    → (bytes_eq h.magic magic_latent_rec ≡ true)
      × (h.ver ≡ version)
      × (pos h.frame_id ≡ fid)
      × (h.dlen ≡ latent_dim)
unfolding verify_header
verify_header_inv h fid e = ground (arith, eq_ℤ_iff (pos h.frame_id) fid)

-- The bytes at the place of frame `k` are a whole latent record of frame `k` with payload hash `x`.
pub record IsLatentRecord (sha256 : Bytes → Bytes) (f_lat : Bytes) (k : ℕ) (x : Bytes)
    : Type 0 where
  pub header : Header
  pub unpacked :
      unpack_header (read_at f_lat (file_header_len + k * latent_rec_len) rec_header_len)
      ≡ some header
  pub magic_eq : header.magic ≡ magic_latent_rec
  pub ver_eq : header.ver ≡ version
  pub fid_eq : header.frame_id ≡ k
  pub dlen_eq : header.dlen ≡ latent_dim
  pub payload : Bytes
  pub read :
      read_at f_lat (file_header_len + k * latent_rec_len + rec_header_len) latent_dim ≡ payload
  pub whole : length payload ≡ latent_dim
  pub hash_eq : x ≡ hex (sha256 payload)

module _ (sha256 : Bytes → Bytes) where
  payload_inv :
      (payload : Bytes) (s : Status) {x : Bytes}
      → verify_payload sha256 payload s ≡ verified x
      → ((y : Bytes) × (s ≡ verified y))
        × (length payload ≡ latent_dim)
        × (x ≡ hex (sha256 payload))
  unfolding verify_payload
  payload_inv payload (verified y) e = ((y, refl), ground arith, ground arith)
  payload_inv payload s e = cc

  verify_at_inv :
      (f_lat : Bytes) (offset : ℕ) (fid : ℤ) (h : Header) {x : Bytes}
      → unpack_header (read_at f_lat offset rec_header_len) ≡ some h
      → verify_at sha256 f_lat offset fid ≡ verified x
      → ((y : Bytes) × (verify_header h fid ≡ verified y))
        × (length (read_at f_lat (offset + rec_header_len) latent_dim) ≡ latent_dim)
        × (x ≡ hex (sha256 (read_at f_lat (offset + rec_header_len) latent_dim)))
  unfolding verify_at
  verify_at_inv f_lat offset fid h {x} u e =
      let payload = read_at f_lat (offset + rec_header_len) latent_dim in
      elim (Bool-cases (ltb (length (read_at f_lat offset rec_header_len)) rec_header_len)) [
        | inl short ↦ cc
        | inr long ↦
            let e' : verify_payload sha256 payload (verify_header h fid) ≡ verified x =
              rw (long, u) at e in
            payload_inv payload (verify_header h fid) e'
      ]

  verify_at-unpacked :
      (f_lat : Bytes) (at : ℕ) (fid : ℤ) {x : Bytes}
      → verify_at sha256 f_lat at fid ≡ verified x
      → (h : Header) × (unpack_header (read_at f_lat at rec_header_len) ≡ some h)
  unfolding verify_at
  verify_at-unpacked f_lat at fid e =
      elim (Option-cases (unpack_header (read_at f_lat at rec_header_len))) [
        | inl missing ↦ absurd (ground arith)
        | inr found ↦ found
      ]

  claim_inv :
      (f_lat : Bytes) (offset len fid : ℤ) {x : Bytes}
      → verify_latent sha256 f_lat offset len fid ≡ ok (verified x)
      → (offset ≡ math_offset fid)
        × (len ≡ pos latent_rec_len)
        × (at : ℕ) × (offset ≡ pos at)
        × (verify_at sha256 f_lat at fid ≡ verified x)
  unfolding verify_latent
  claim_inv f_lat (pos at) len fid e = (
    ground (arith, eq_ℤ_iff (pos at) (math_offset fid)),
    ground (arith, eq_ℤ_iff len (pos latent_rec_len)),
    at,
    refl,
    ground arith,
  )
  claim_inv f_lat (negsuc n) len fid e = ground arith

  -- Strict offset math: a claim is accepted only if it names the place and the length that the
  -- frame id gives, and the file holds there a whole record of that frame.
  pub verify_latent_sound :
      (f_lat : Bytes) (offset len fid : ℤ) {x : Bytes}
      → verify_latent sha256 f_lat offset len fid ≡ ok (verified x)
      → (k : ℕ) × (fid ≡ pos k)
        × (offset ≡ pos (file_header_len + k * latent_rec_len))
        × (len ≡ pos latent_rec_len)
        × IsLatentRecord sha256 f_lat k x
  verify_latent_sound f_lat offset len fid e =
      let (o, l, at, place, v) = claim_inv f_lat offset len fid e in
      let (h, u) = verify_at-unpacked f_lat at fid v in
      let ((y, vh), whole, hash) = verify_at_inv f_lat at fid h u v in
      let (m, ver, f, d) = verify_header_inv h fid vh in
      let at_eq : file_header_len + h.frame_id * latent_rec_len ≡ at =
        ground (arith, ap math_offset f) in
      (
        h.frame_id,
        sym f,
        o ∙ ap math_offset (sym f),
        l,
        record {
          header = h;
          unpacked = rw at_eq u;
          magic_eq = bytes_eq→eq h.magic magic_latent_rec m;
          ver_eq = ver;
          fid_eq = refl;
          dlen_eq = d;
          payload = read_at f_lat (at + rec_header_len) latent_dim;
          read = rw at_eq;
          whole = whole;
          hash_eq = hash;
        },
      )
