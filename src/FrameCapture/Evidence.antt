-- ===== src/FrameCapture/Evidence.antt =====
-- What a capture that `FrameJudge` accepts is evidence of.
use axm_embodied.Common.{
  ℕ, zero, suc, ◌+◌, ◌≤◌, ◌<◌, ◌≡◌, ◌≢◌, refl, sym, ◌++◌, ◌==◌, length-take, length-drop, String,
  List, [], ◌∷◌, Option, none, some, Bytes, length, ok, err, bytes_eq_iff, read_at, drop, hex, le32,
  arith, Bool-cases, Option-cases, inl, inr, ◌⊎◌, out_of_fuel, Error, ◌-◌, subst, Result-cases,
}
use axm_embodied.FrameCapture.{
  Texts, KeptFrameRef, chain_genesis, chain_next, magic_frame_file, magic_frame_rec, hash_len,
  frame_rec_fixed_len,
}
use axm_embodied.FrameCapture.Judge.{
  FrameRound, clean_end, raised, kept, check_payload, check_header, frame_round, frame_loop,
  scan_frames,
}
use axm_embodied.Protocol.{Header, unpack_header, rec_header_len, version}

-- The id comes after the last one.
abbrev pub IsNext : ℕ → Option ℕ → Type 0
IsNext fid none = Unit {0}
IsNext fid (some last) = last < fid

module _ (t : Texts) (max_frame_bytes : ℕ) where
  -- A whole record at `offset`: its payload has the hash that is stored before it and that `ref`
  -- reports, and its link is the hash of the link `chain` before it, its payload hash and its id.
  pub record IsKept (content : Bytes) (offset : ℕ) (chain : Bytes) (last_fid : Option ℕ)
      (ref : KeptFrameRef) (next : Bytes) : Type 0 where
    pub header : Header
    pub unpacked : unpack_header (read_at content offset rec_header_len) ≡ some header
    pub magic_eq : header.magic ≡ magic_frame_rec
    pub ver_eq : header.ver ≡ version
    pub fid_eq : header.frame_id ≡ ref.frame_id
    pub small : header.dlen ≤ max_frame_bytes
    pub later : IsNext ref.frame_id last_fid
    pub offset_eq : ref.offset ≡ offset
    pub len_eq : ref.len ≡ frame_rec_fixed_len + header.dlen
    pub whole : length (read_at content (offset + frame_rec_fixed_len) header.dlen) ≡ header.dlen
    pub stored_hash :
        read_at content (offset + rec_header_len) hash_len
        ≡ t.sha256 (read_at content (offset + frame_rec_fixed_len) header.dlen)
    pub stored_chain : read_at content (offset + rec_header_len + hash_len) hash_len ≡ next
    pub link_eq :
        next
        ≡ t.sha256 (
            chain
            ++ t.sha256 (read_at content (offset + frame_rec_fixed_len) header.dlen)
            ++ le32 ref.frame_id)
    pub hash_eq :
        ref.content_sha256
        ≡ hex (t.sha256 (read_at content (offset + frame_rec_fixed_len) header.dlen))
    pub chain_eq : ref.chain ≡ hex next

  -- The records `refs` tile the file from `offset` to its end, and their links make one chain.
  pub AreKept : Bytes → ℕ → Bytes → Option ℕ → List KeptFrameRef → Type 0
  AreKept content offset chain last_fid [] = length content ≤ offset
  AreKept content offset chain last_fid (ref ∷ refs) =
      (next : Bytes) × IsKept content offset chain last_fid ref next
      × AreKept content (offset + ref.len) next (some ref.frame_id) refs

  check_payload_inv :
      (offset : ℕ) (h : Header) (claimed_hash claimed_chain payload chain : Bytes)
      {ref : KeptFrameRef} {off : ℕ} {next : Bytes}
      → check_payload t max_frame_bytes offset h claimed_hash claimed_chain payload chain
        ≡ kept ref off next
      → (length payload ≡ h.dlen)
        × (claimed_hash ≡ t.sha256 payload)
        × (claimed_chain ≡ next)
        × (next ≡ t.sha256 (chain ++ t.sha256 payload ++ le32 h.frame_id))
        × ((ref.frame_id ≡ h.frame_id)
            × (ref.offset ≡ offset)
            × (ref.len ≡ frame_rec_fixed_len + h.dlen))
        × ((ref.content_sha256 ≡ hex (t.sha256 payload))
            × (ref.chain ≡ hex next)
            × (off ≡ offset + ref.len))
  unfolding check_payload chain_next
  check_payload_inv offset h claimed_hash claimed_chain payload chain e = ground (
    arith,
    bytes_eq_iff (t.sha256 payload) claimed_hash,
    bytes_eq_iff (t.sha256 (chain ++ t.sha256 payload ++ le32 h.frame_id)) claimed_chain,
  )

  check_header_inv :
      (content : Bytes) (offset : ℕ) (chain : Bytes) (last_fid : Option ℕ) (h : Header)
      {ref : KeptFrameRef} {off : ℕ} {next : Bytes}
      → check_header t max_frame_bytes content offset chain last_fid h ≡ kept ref off next
      → (h.magic ≡ magic_frame_rec)
        × (h.ver ≡ version)
        × (h.dlen ≤ max_frame_bytes)
        × IsNext h.frame_id last_fid
        × (check_payload t max_frame_bytes offset h
              (read_at content (offset + rec_header_len) hash_len)
              (read_at content (offset + rec_header_len + hash_len) hash_len)
              (read_at content (offset + frame_rec_fixed_len) h.dlen)
              chain
            ≡ kept ref off next)
  unfolding check_header
  check_header_inv content offset chain none h e =
      ground (arith, bytes_eq_iff h.magic magic_frame_rec)
  check_header_inv content offset chain (some last) h e =
      ground (arith, bytes_eq_iff h.magic magic_frame_rec)

  frame_round_inv :
      (content : Bytes) (offset : ℕ) (chain : Bytes) (last_fid : Option ℕ) {ref : KeptFrameRef}
      {off : ℕ} {next : Bytes}
      → frame_round t max_frame_bytes content offset chain last_fid ≡ kept ref off next
      → (h : Header) × (unpack_header (read_at content offset rec_header_len) ≡ some h)
        × (check_header t max_frame_bytes content offset chain last_fid h ≡ kept ref off next)
  unfolding frame_round
  frame_round_inv content offset chain last_fid e =
      elim (Option-cases (unpack_header (read_at content offset rec_header_len))) [
        | inl missing ↦ absurd (ground arith)
        | inr (h, u) ↦ (h, u, ground arith)
      ]

  frame_round_end :
      (content : Bytes) (offset : ℕ) (chain : Bytes) (last_fid : Option ℕ)
      → frame_round t max_frame_bytes content offset chain last_fid ≡ clean_end
      → length content ≤ offset
  unfolding frame_round check_header check_payload
  frame_round_end content offset chain last_fid e =
      elim (Bool-cases (length (read_at content offset rec_header_len) == 0)) [
        | inl empty ↦
            ground
              (arith, length-take rec_header_len (drop offset content), length-drop offset content)
        | inr some_left ↦ absurd (ground arith)
      ]

  frame_round-IsKept :
      (content : Bytes) (offset : ℕ) (chain : Bytes) (last_fid : Option ℕ) {ref : KeptFrameRef}
      {off : ℕ} {next : Bytes}
      → frame_round t max_frame_bytes content offset chain last_fid ≡ kept ref off next
      → IsKept content offset chain last_fid ref next × (off ≡ offset + ref.len)
  frame_round-IsKept content offset chain last_fid e =
      let (h, u, e₁) = frame_round_inv content offset chain last_fid e in
      let (m, v, small, later, e₂) = check_header_inv content offset chain last_fid h e₁ in
      let (whole, stored, stored_link, link, (f, o, l), (x, c, off_eq)) =
        check_payload_inv offset h _ _ _ chain e₂ in
      (
        record {
          header = h;
          unpacked = u;
          magic_eq = m;
          ver_eq = v;
          fid_eq = sym f;
          small = small;
          later = rw f later;
          offset_eq = o;
          len_eq = l;
          whole = whole;
          stored_hash = stored;
          stored_chain = stored_link;
          link_eq = rw f link;
          hash_eq = x;
          chain_eq = c;
        },
        off_eq,
      )

  frame_round-ne-out_of_fuel :
      (content : Bytes) (offset : ℕ) (chain : Bytes) (last_fid : Option ℕ)
      → frame_round t max_frame_bytes content offset chain last_fid ≢ raised out_of_fuel
  unfolding frame_round check_header check_payload
  frame_round-ne-out_of_fuel content offset chain last_fid e = ground arith

  kept_inside :
      (content : Bytes) (offset : ℕ) (chain : Bytes) (last_fid : Option ℕ) {ref : KeptFrameRef}
      {off : ℕ} {next : Bytes}
      → frame_round t max_frame_bytes content offset chain last_fid ≡ kept ref off next
      → offset < length content
  unfolding frame_round
  kept_inside content offset chain last_fid e =
      elim (Bool-cases (length (read_at content offset rec_header_len) == 0)) [
        | inl empty ↦ absurd (ground arith)
        | inr some_left ↦
            ground
              (arith, length-take rec_header_len (drop offset content), length-drop offset content)
      ]

  FrameRound-cases :
      (x : FrameRound)
      → (x ≡ clean_end)
        ⊎ ((e : Error) × (x ≡ raised e))
        ⊎ ((ref : KeptFrameRef) × (off : ℕ) × (next : Bytes) × (x ≡ kept ref off next))
  FrameRound-cases clean_end = inl refl
  FrameRound-cases (raised e) = inr (inl (e, refl))
  FrameRound-cases (kept ref off next) = inr (inr (ref, off, next, refl))

  frame_loop-ne-out_of_fuel :
      (fuel : ℕ) (content : Bytes) (offset : ℕ) (chain : Bytes) (last_fid : Option ℕ)
      → length content - offset < fuel
      → frame_loop t max_frame_bytes fuel content offset chain last_fid ≢ err out_of_fuel
  unfolding frame_loop
  frame_loop-ne-out_of_fuel zero content offset chain last_fid n e = absurd (omega arith)
  frame_loop-ne-out_of_fuel (suc fuel) content offset chain last_fid n e =
      elim (FrameRound-cases (frame_round t max_frame_bytes content offset chain last_fid)) [
        | inl r ↦ absurd (ground arith)
        | inr (inl (x, r)) ↦ frame_round-ne-out_of_fuel content offset chain last_fid (ground arith)
        | inr (inr (ref, off, next, r)) ↦
            let (k, off_eq) = frame_round-IsKept content offset chain last_fid r in
            let inside = kept_inside content offset chain last_fid r in
            let rest =
              frame_loop-ne-out_of_fuel fuel content off next (some ref.frame_id)
                (omega (arith, off_eq, k.len_eq)) in
            ground arith
      ]

  frame_loop-AreKept :
      (fuel : ℕ) (content : Bytes) (offset : ℕ) (chain : Bytes) (last_fid : Option ℕ)
      {refs : List KeptFrameRef}
      → frame_loop t max_frame_bytes fuel content offset chain last_fid ≡ ok refs
      → AreKept content offset chain last_fid refs
  unfolding frame_loop AreKept
  frame_loop-AreKept zero content offset chain last_fid e = cc
  frame_loop-AreKept (suc fuel) content offset chain last_fid {refs} e =
      elim (FrameRound-cases (frame_round t max_frame_bytes content offset chain last_fid)) [
        | inl r ↦
            let none_left : [] ≡ refs = ground arith in
            subst (AreKept content offset chain last_fid) none_left
              (frame_round_end content offset chain last_fid r)
        | inr (inl (x, r)) ↦ absurd (ground arith)
        | inr (inr (ref, off, next, r)) ↦
            let (k, off_eq) = frame_round-IsKept content offset chain last_fid r in
            elim (Result-cases
              (frame_loop t max_frame_bytes fuel content off next (some ref.frame_id))) [
                | inr (x, failed) ↦ absurd (ground arith)
                | inl (rest, went) ↦
                    let all : ref ∷ rest ≡ refs = ground arith in
                    let ih = frame_loop-AreKept fuel content off next (some ref.frame_id) went in
                    subst (AreKept content offset chain last_fid) all (next, k, rw off_eq at ih)
              ]
      ]

  -- The scan of any file ends: it returns the records or raises one of its errors.
  pub scan_frames-ne-out_of_fuel :
      (content : Bytes) (session_id : String)
      → scan_frames t max_frame_bytes content session_id ≢ err out_of_fuel
  unfolding scan_frames
  scan_frames-ne-out_of_fuel content session_id e =
      let ends =
        frame_loop-ne-out_of_fuel (length content + 1) content 4 (chain_genesis t session_id) none
          (omega arith) in
      ground arith

  -- A file that the judge accepts is, behind its magic, nothing but whole records: each payload
  -- has its stored hash, the frame ids increase, and the links form one chain from the session on.
  pub scan_frames-AreKept :
      (content : Bytes) (session_id : String) {refs : List KeptFrameRef}
      → scan_frames t max_frame_bytes content session_id ≡ ok refs
      → (read_at content 0 4 ≡ magic_frame_file)
        × AreKept content 4 (chain_genesis t session_id) none refs
  unfolding scan_frames
  scan_frames-AreKept content session_id e = (
    ground (arith, bytes_eq_iff (read_at content 0 4) magic_frame_file),
    frame_loop-AreKept (length content + 1) content 4 (chain_genesis t session_id) none
        (ground arith),
  )
