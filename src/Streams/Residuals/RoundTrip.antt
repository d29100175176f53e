-- ===== src/Streams/Residuals/RoundTrip.antt =====
-- The scan reads back what the recorder wrote, also from a file whose last record is torn.
use axm_embodied.Common.{
  ℕ, zero, suc, ◌+◌, ◌-◌, ◌≤◌, ◌<◌, ◌≡◌, refl, sym, ap, ◌∙◌, List, [], ◌∷◌, ◌++◌, append_assoc, map,
  some, Bytes, length, length-append, length-take, length-drop, ok, read_at, arith, take, drop,
  drop-drop, take-append_of_length, take-append_of_ge, drop-append_of_length, concat, All,
}
use axm_embodied.Protocol.{magic_resid_rec, rec_header_len, header_bytes}
use axm_embodied.Protocol.Laws.{unpack-pack}
use axm_embodied.Recorder.Frames.{resid_blob}
use axm_embodied.Recorder.Stored.{Residual, blob_of, IsStorable}
use axm_embodied.Streams.{
  Scan, new_scan, scan_loop, scan_residuals, scan_round, scan_record, indexed, stop, again,
}
use axm_embodied.Streams.Residuals.{loop_step, round_short}
use native.Mathlib.Decide.{dec_lt}

module _ (sha256 : Bytes → Bytes) where
  -- The index of records that stand one after the other, the first at `at`.
  abbrev pub index_all : ℕ → List Residual → Scan → Scan
  index_all at [] s = s
  index_all at ((fid, payload) ∷ rs) s =
      index_all (at + (rec_header_len + length payload)) rs (indexed sha256 at fid payload s)

  module _ (pre post : Bytes) (fid : ℕ) (payload : Bytes) (content : Bytes)
      (file : content
        ≡ pre ++ (header_bytes magic_resid_rec fid (length payload) ++ (payload ++ post))) where
    at_header :
        drop (length pre) content
        ≡ header_bytes magic_resid_rec fid (length payload) ++ (payload ++ post)
    at_header = rw file (drop-append_of_length (length pre) pre _ refl)

    header_read :
        read_at content (length pre) rec_header_len
        ≡ header_bytes magic_resid_rec fid (length payload)
    header_read = rw at_header refl

    at_payload : drop (length pre + rec_header_len) content ≡ payload ++ post
    at_payload = sym (drop-drop (length pre) rec_header_len _ content refl) ∙ rw at_header refl

  -- A whole record is indexed, and the scan goes on behind it.
  round_record :
      (pre post : Bytes) (fid : ℕ) (payload : Bytes) (content : Bytes) (s : Scan)
      → content ≡ pre ++ (header_bytes magic_resid_rec fid (length payload) ++ (payload ++ post))
      → IsStorable (fid, payload)
      → scan_round sha256 content (length pre) s
        ≡ again
            (length pre + rec_header_len + length payload)
            (indexed sha256 (length pre) fid payload s)
  unfolding scan_round scan_record
  round_record pre post fid payload content s file (hf, hp) =
      let read =
        ap (take (length payload)) (at_payload pre post fid payload content file)
        ∙ take-append_of_length (length payload) payload post refl in
      ground (
        arith,
        header_read pre post fid payload content file,
        unpack-pack b'A' b'X' b'R' b'R' fid (length payload) hf (omega arith),
        read,
      )

  -- A record whose payload is cut short ends the scan, and so does a header that is cut short.
  round_cut_payload :
      (pre cut : Bytes) (fid : ℕ) (payload : Bytes) (content : Bytes) (s : Scan)
      → content ≡ pre ++ (header_bytes magic_resid_rec fid (length payload) ++ cut)
      → IsStorable (fid, payload)
      → length cut < length payload
      → scan_round sha256 content (length pre) s ≡ stop s
  unfolding scan_round scan_record
  round_cut_payload pre cut fid payload content s file (hf, hp) short =
      let at : drop (length pre) content
          ≡ header_bytes magic_resid_rec fid (length payload) ++ cut =
        rw file (drop-append_of_length (length pre) pre _ refl) in
      let header : read_at content (length pre) rec_header_len
          ≡ header_bytes magic_resid_rec fid (length payload) =
        rw at refl in
      let rest : drop (length pre + rec_header_len) content ≡ cut =
        sym (drop-drop (length pre) rec_header_len _ content refl) ∙ rw at refl in
      ground (
        arith,
        header,
        unpack-pack b'A' b'X' b'R' b'R' fid (length payload) hf (omega arith),
        length-take (length payload) (drop (length pre + rec_header_len) content),
        ap length rest,
      )

  round_cut_header :
      (pre cut : Bytes) (content : Bytes) (s : Scan)
      → content ≡ pre ++ cut
      → length cut < rec_header_len
      → scan_round sha256 content (length pre) s ≡ stop s
  round_cut_header pre cut content s file short = round_short sha256 content (length pre) s (
      omega (
        arith,
        length-take rec_header_len (drop (length pre) content),
        length-drop (length pre) content,
        ap length file,
        length-append pre cut,
      ))

  -- What a crash leaves of a record that was being written: its first `n` bytes, not all of them.
  pub record IsTorn (tail : Bytes) : Type 0 where
    pub torn : Residual
    pub storable : IsStorable torn
    pub n : ℕ
    pub partial : n < length (blob_of torn)
    pub tail_eq : tail ≡ take n (blob_of torn)

  round_torn :
      (pre tail : Bytes) (content : Bytes) (s : Scan)
      → content ≡ pre ++ tail
      → IsTorn tail
      → scan_round sha256 content (length pre) s ≡ stop s
  round_torn pre tail content s file t =
      let header = header_bytes magic_resid_rec t.torn.0 (length t.torn.1) in
      elim (dec_lt t.n rec_header_len) [
        | yes small ↦
            round_cut_header pre tail content s file
              (omega (arith, ap length t.tail_eq, length-take t.n (blob_of t.torn)))
        | no big ↦
            round_cut_payload pre (take (t.n - rec_header_len) t.torn.1) t.torn.0 t.torn.1 content s
              (file
                ∙ ap (λ x. pre ++ x)
                    (t.tail_eq
                      ∙ take-append_of_ge t.n (t.n - rec_header_len) header t.torn.1 (omega arith)))
              t.storable (omega (arith, t.partial, length-take (t.n - rec_header_len) t.torn.1))
      ]

  loop_records :
      (rs : List Residual) (fuel : ℕ) (pre tail : Bytes) (content : Bytes) (s : Scan)
      → content ≡ pre ++ (concat (map blob_of rs) ++ tail)
      → All IsStorable rs
      → IsTorn tail
      → length rs < fuel
      → scan_loop sha256 fuel content (length pre) s ≡ ok (index_all (length pre) rs s)
  loop_records rs zero pre tail content s file h t f = absurd (omega arith)
  loop_records [] (suc fuel) pre tail content s file h t f =
      loop_step sha256 fuel content (length pre) s (round_torn pre tail content s file t)
  loop_records ((fid, payload) ∷ rs) (suc fuel) pre tail content s file (hr, h) t f =
      let blob = resid_blob fid payload in
      let rest = concat (map blob_of rs) ++ tail in
      let header = header_bytes magic_resid_rec fid (length payload) in
      let file₁ : content ≡ pre ++ (header ++ (payload ++ rest)) =
        file
        ∙ ap (λ x. pre ++ x)
            (append_assoc blob (concat (map blob_of rs)) tail ∙ append_assoc header payload rest) in
      let file₂ : content ≡ (pre ++ blob) ++ rest =
        file₁
        ∙ ap (λ x. pre ++ x) (sym (append_assoc header payload rest))
        ∙ sym (append_assoc pre blob rest) in
      let size : length (pre ++ blob) ≡ length pre + (rec_header_len + length payload) =
        omega (arith, length-append pre blob, length-append header payload) in
      let place : length pre + rec_header_len + length payload ≡ length (pre ++ blob) =
        omega (arith, size) in
      loop_step sha256 fuel content (length pre) s
        (round_record pre rest fid payload content s file₁ hr)
      ∙ rw place (
          loop_records rs fuel (pre ++ blob) tail content
            (indexed sha256 (length pre) fid payload s) file₂ h t (omega arith)
          ∙ rw size)

  records_size : (rs : List Residual) → length rs ≤ length (concat (map blob_of rs))
  records_size [] = omega arith
  records_size (r ∷ rs) =
      omega (arith, length-append (blob_of r) (concat (map blob_of rs)), records_size rs)

  -- The scan of a file of whole records with ids of 32 bits and payloads of at most 10 MiB, with
  -- a torn record behind them or none: it indexes exactly the whole ones, each at its place and
  -- with the hash of its payload, and reports no corruption.
  pub scan-records :
      (rs : List Residual) (tail : Bytes)
      → All IsStorable rs
      → IsTorn tail
      → scan_residuals sha256 (some (concat (map blob_of rs) ++ tail))
        ≡ ok (index_all 0 rs new_scan)
  unfolding scan_residuals
  scan-records rs tail h t =
      loop_records rs _ [] tail _ new_scan refl h t
        (omega (arith, length-append (concat (map blob_of rs)) tail, records_size rs))
