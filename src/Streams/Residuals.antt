-- ===== src/Streams/Residuals.antt =====
-- The scan of cam_residuals.bin: it ends on every file, and what it indexes is on the disk.
pub mod RoundTrip
use axm_embodied.Common.{
  ℕ, zero, suc, ◌+◌, ◌-◌, ◌≤◌, ◌<◌, ◌≡◌, ◌≢◌, refl, sym, ap, subst, ◌∙◌, ◌⊎◌, inl, inr, Bool, true,
  false, not, List, [], ◌∷◌, Option, none, some, Bytes, ltb, ◌==◌, length, Result, ok, err,
  bytes_eq, bytes_eq→eq, read_at, arith, hex, out_of_fuel, Option-cases, Bool-cases, length-take,
  length-drop, take, drop, Error,
}
use axm_embodied.Common.Dict
use axm_embodied.Common.Dict.{Dict}
use axm_embodied.Protocol.{
  Header, unpack_header, magic_resid_rec, version, rec_header_len, default_max_residual_size,
}
use axm_embodied.Protocol.Laws.{unpack_header-total}
use axm_embodied.Streams.{
  Resync, found, not_found, exhausted, resync_to_magic, Scan, ResidualRecord, new_scan, scan_loop,
  scan_residuals, indexed, count_corrupt, count_resync, add_record, Round, stop, raised, again,
  scan_round, scan_record,
}
use axm_embodied.Streams.Search.{resync_to_magic_range, resync_to_magic-ne-exhausted}
use native.Mathlib.Decide.{dec_lt}

Round-cases :
    (r : Round)
    → ((s : Scan) × (r ≡ stop s))
      ⊎ (((e : Error) × (r ≡ raised e)) ⊎ ((next : ℕ) × (s : Scan) × (r ≡ again next s)))
Round-cases (stop s) = inl (s, refl)
Round-cases (raised e) = inr (inl (e, refl))
Round-cases (again next s) = inr (inr (next, s, refl))

module _ (sha256 : Bytes → Bytes) where
  -- What a round has seen that goes on behind a record.
  pub record IsSound (content : Bytes) (at : ℕ) (h : Header) : Type 0 where
    pub magic_eq : h.magic ≡ magic_resid_rec
    pub ver_eq : h.ver ≡ version
    pub small : h.dlen ≤ default_max_residual_size
    pub whole : length (read_at content (at + rec_header_len) h.dlen) ≡ h.dlen

  record_again :
      (content : Bytes) (at next : ℕ) (s s' : Scan) (h : Header)
      → scan_record sha256 content at s h ≡ again next s'
      → bytes_eq h.magic magic_resid_rec ≡ true
      → IsSound content at h
        × (next ≡ at + rec_header_len + h.dlen)
        × (s' ≡ indexed sha256 at h.frame_id (read_at content (at + rec_header_len) h.dlen) s)
  unfolding scan_record
  record_again content at next s s' h e m =
      let same = bytes_eq→eq h.magic magic_resid_rec m in
      (
        record {
          magic_eq = same;
          ver_eq = ground arith;
          small = ground arith;
          whole = ground arith;
        },
        ground arith,
        ground arith,
      )

  resync_again :
      (content : Bytes) (at next : ℕ) (s s' : Scan) (h : Header)
      → scan_record sha256 content at s h ≡ again next s'
      → bytes_eq h.magic magic_resid_rec ≡ false
      → (resync_to_magic content magic_resid_rec (at + 1) ≡ found next)
        × (s' ≡ count_resync (next - at) (count_corrupt s))
  unfolding scan_record
  resync_again content at next s s' h e m = ground arith

  round_header :
      (content : Bytes) (at : ℕ) (s : Scan)
      → rec_header_len ≤ length (read_at content at rec_header_len)
      → (h : Header) × (unpack_header (read_at content at rec_header_len) ≡ some h)
        × (scan_round sha256 content at s ≡ scan_record sha256 content at s h)
  unfolding scan_round
  round_header content at s big =
      let (h, e) =
        unpack_header-total (read_at content at rec_header_len)
          (omega (arith, length-take rec_header_len (drop at content))) in
      (h, e, ground arith)

  pub round_short :
      (content : Bytes) (at : ℕ) (s : Scan)
      → length (read_at content at rec_header_len) < rec_header_len
      → scan_round sha256 content at s ≡ stop s
  unfolding scan_round
  round_short content at s small = ground arith

  record-ne-exhausted :
      (content : Bytes) (at : ℕ) (s : Scan) (h : Header)
      → scan_record sha256 content at s h ≢ raised out_of_fuel
  unfolding scan_record
  record-ne-exhausted content at s h e =
      ground (arith, resync_to_magic-ne-exhausted content magic_resid_rec (at + 1) (omega arith))

  -- A round that goes on has moved forward and stays inside the file.
  again_range :
      (content : Bytes) (at next : ℕ) (s s' : Scan) (h : Header)
      → rec_header_len ≤ length (read_at content at rec_header_len)
      → scan_record sha256 content at s h ≡ again next s'
      → (at < next) × (next ≤ length content)
  again_range content at next s s' h big e = elim (Bool-cases (bytes_eq h.magic magic_resid_rec)) [
    | inl same ↦
        let (sound, place, _) = record_again content at next s s' h e same in
        let whole = sound.whole in
        (
          omega arith,
          omega (
            arith,
            length-take h.dlen (drop (at + rec_header_len) content),
            length-drop (at + rec_header_len) content,
            length-take rec_header_len (drop at content),
            length-drop at content,
          ),
        )
    | inr other ↦
        let (lo, hi) =
          resync_to_magic_range content magic_resid_rec (at + 1) (omega arith)
            (resync_again content at next s s' h e other).0 in
        (omega arith, omega arith)
  ]

  pub loop_step :
      (fuel : ℕ) (content : Bytes) (at : ℕ) (s : Scan) {r : Round}
      → scan_round sha256 content at s ≡ r
      → scan_loop sha256 (suc fuel) content at s ≡ elim r [
        | stop s' ↦ ok s'
        | raised e ↦ err e
        | again next s' ↦ scan_loop sha256 fuel content next s'
      ]
  unfolding scan_loop
  loop_step fuel content at s e = rw (e, scan_loop)

  loop-ne-out_of_fuel :
      (fuel : ℕ) (content : Bytes) (at : ℕ) (s : Scan)
      → at ≤ length content
      → length content < fuel + at
      → scan_loop sha256 fuel content at s ≢ err out_of_fuel
  loop-ne-out_of_fuel zero content at s le f = absurd (omega arith)
  loop-ne-out_of_fuel (suc fuel) content at s le f =
      elim (dec_lt (length (read_at content at rec_header_len)) rec_header_len) [
        | yes small ↦ rw (loop_step fuel content at s (round_short content at s small)) (λ e. cc)
        | no big ↦
            let (h, _, e) = round_header content at s (omega arith) in
            elim (Round-cases (scan_record sha256 content at s h)) [
              | inl (s', r) ↦ rw (loop_step fuel content at s (e ∙ r)) (λ x. cc)
              | inr (inl (x, r)) ↦
                  rw (loop_step fuel content at s (e ∙ r))
                    (λ y. record-ne-exhausted content at s h (r ∙ ground arith))
              | inr (inr (next, s', r)) ↦
                  let (lo, hi) = again_range content at next s s' h (omega arith) r in
                  rw (loop_step fuel content at s (e ∙ r))
                    (loop-ne-out_of_fuel fuel content next s' hi (omega arith))
            ]
      ]

  -- The scan of any file ends: it returns an index or raises one of the two fatal errors.
  pub scan_residuals-ne-out_of_fuel :
      (file : Option Bytes) → scan_residuals sha256 file ≢ err out_of_fuel
  unfolding scan_residuals
  scan_residuals-ne-out_of_fuel none = λ e. cc
  scan_residuals-ne-out_of_fuel (some content) =
      loop-ne-out_of_fuel (length content + 1) content 0 new_scan (omega arith) (omega arith)

  -- A row of the index, as the bytes of the file bear it out.
  pub record IsOnDisk (content : Bytes) (fid : ℕ) (rec : ResidualRecord) : Type 0 where
    pub header : Header
    pub unpacked : unpack_header (read_at content rec.offset rec_header_len) ≡ some header
    pub magic_eq : header.magic ≡ magic_resid_rec
    pub ver_eq : header.ver ≡ version
    pub fid_eq : header.frame_id ≡ fid
    pub len_eq : rec.len ≡ rec_header_len + header.dlen
    pub inside : rec.offset + rec.len ≤ length content
    pub hash_eq :
        rec.content_hash ≡ hex (sha256 (read_at content (rec.offset + rec_header_len) header.dlen))

  abbrev pub IsIndexed : Bytes → Scan → Type 0
  IsIndexed content s =
      (fid : ℕ) (rec : ResidualRecord)
      → Dict.lookup fid s.residual_index ≡ some rec
      → IsOnDisk content fid rec

  IsIndexed-same :
      (content : Bytes) (s s' : Scan)
      → IsIndexed content s
      → s'.residual_index ≡ s.residual_index
      → IsIndexed content s'
  IsIndexed-same content s s' h e fid rec l = h fid rec (rw e at l)

  record_stop :
      (content : Bytes) (at : ℕ) (s s' : Scan) (h : Header)
      → scan_record sha256 content at s h ≡ stop s'
      → s'.residual_index ≡ s.residual_index
  unfolding scan_record
  record_stop content at s s' h e = ground arith

  -- One more sound record keeps every row of the index true.
  indexed-IsIndexed :
      (content : Bytes) (at : ℕ) (s : Scan) (h : Header)
      → IsIndexed content s
      → unpack_header (read_at content at rec_header_len) ≡ some h
      → rec_header_len ≤ length (read_at content at rec_header_len)
      → IsSound content at h
      → IsIndexed content
          (indexed sha256 at h.frame_id (read_at content (at + rec_header_len) h.dlen) s)
  unfolding indexed
  indexed-IsIndexed content at s h ix u big sound fid rec l =
      elim (Bool-cases (h.frame_id == fid)) [
        | inr other ↦
            ix fid rec (ground (arith, Dict.lookup-insert h.frame_id fid new s.residual_index))
        | inl same ↦
            let is_new : new ≡ rec =
              ground (arith, Dict.lookup-insert h.frame_id fid new s.residual_index) in
            subst (IsOnDisk content fid) is_new (record {
              header = h;
              unpacked = u;
              magic_eq = sound.magic_eq;
              ver_eq = sound.ver_eq;
              fid_eq = ground arith;
              len_eq = ap (λ n. rec_header_len + n) sound.whole;
              inside = omega (
                arith,
                sound.whole,
                length-take h.dlen (drop (at + rec_header_len) content),
                length-drop (at + rec_header_len) content,
                length-take rec_header_len (drop at content),
                length-drop at content,
              );
              hash_eq = refl;
            })
      ]
    where
      new : ResidualRecord
      new = record {
        offset = at;
        len = rec_header_len + length (read_at content (at + rec_header_len) h.dlen);
        content_hash = hex (sha256 (read_at content (at + rec_header_len) h.dlen));
      }

  again-IsIndexed :
      (content : Bytes) (at next : ℕ) (s s' : Scan) (h : Header)
      → IsIndexed content s
      → unpack_header (read_at content at rec_header_len) ≡ some h
      → rec_header_len ≤ length (read_at content at rec_header_len)
      → scan_record sha256 content at s h ≡ again next s'
      → IsIndexed content s'
  again-IsIndexed content at next s s' h ix u big e =
      elim (Bool-cases (bytes_eq h.magic magic_resid_rec)) [
        | inl same ↦
            let (sound, _, is) = record_again content at next s s' h e same in
            rw is (indexed-IsIndexed content at s h ix u big sound)
        | inr other ↦
            IsIndexed-same content s s' ix (rw (resync_again content at next s s' h e other).1)
      ]

  loop-IsIndexed :
      (fuel : ℕ) (content : Bytes) (at : ℕ) (s s' : Scan)
      → IsIndexed content s
      → scan_loop sha256 fuel content at s ≡ ok s'
      → IsIndexed content s'
  loop-IsIndexed zero content at s s' h e = unfold scan_loop in cc
  loop-IsIndexed (suc fuel) content at s s' ix e =
      elim (dec_lt (length (read_at content at rec_header_len)) rec_header_len) [
        | yes small ↦
            let done = rw (loop_step fuel content at s (round_short content at s small)) at e in
            IsIndexed-same content s s' ix (ground arith)
        | no big ↦
            let (h, u, r) = round_header content at s (omega arith) in
            elim (Round-cases (scan_record sha256 content at s h)) [
              | inl (t, q) ↦
                  let done = rw (loop_step fuel content at s (r ∙ q)) at e in
                  IsIndexed-same content s s' ix (ground (arith, record_stop content at s t h q))
              | inr (inl (x, q)) ↦ let done = rw (loop_step fuel content at s (r ∙ q)) at e in cc
              | inr (inr (next, t, q)) ↦
                  loop-IsIndexed fuel content next t s'
                    (again-IsIndexed content at next s t h ix u (omega arith) q)
                    (rw (loop_step fuel content at s (r ∙ q)) at e)
            ]
      ]

  -- Disk is truth: every row of the index stands for a whole record of the file, with the magic,
  -- the version, the frame id and the length of its header and the hash of its payload.
  pub scan_residuals-IsIndexed :
      (content : Bytes) {s : Scan}
      → scan_residuals sha256 (some content) ≡ ok s
      → IsIndexed content s
  unfolding scan_residuals
  scan_residuals-IsIndexed content {s} e =
      loop-IsIndexed (length content + 1) content 0 new_scan s (λ fid rec l. cc) e
