-- ===== src/FrameCapture/RoundTrip.antt =====
-- The judge accepts what the recorder wrote.
use axm_embodied.Common.{
  ℕ, zero, suc, ◌+◌, ◌≤◌, ◌<◌, ◌^◌, ◌≡◌, refl, sym, ap, ◌∙◌, false, List, [], ◌∷◌, ◌++◌,
  append_assoc, Option, none, some, Bytes, All, length, take, drop, drop-drop,
  take-append_of_length, drop-append_of_length, length-append, bytes_eq_refl, read_at, le32, true,
  ltb-false, ok, arith, String,
}
use axm_embodied.Common.Decode.{◌>>=◌}
use axm_embodied.FrameCapture.{
  Texts, FrameCaptureRecorder, KeptFrameRef, magic_frame_file, magic_frame_rec, hash_len,
  frame_rec_fixed_len, chain_genesis, chain_next, new_capture,
}
use axm_embodied.FrameCapture.Calls.{IsCapture, session-IsCapture}
use axm_embodied.FrameCapture.CrossCheck.{AreIncreasing, cross_check_log-same}
use axm_embodied.FrameCapture.Ended.{session-IsEnded}
use axm_embodied.FrameCapture.Invariant.{Setting}
use axm_embodied.FrameCapture.Judge.{
  FrameRound, clean_end, kept, out_of_order, check_payload, check_header, frame_round, frame_loop,
  scan_frames, session_of, verify,
}
use axm_embodied.FrameCapture.Records.{
  Kept, kept_refs, IsOrdered, IsOrdered-bounds, HasId, link, frame_blob, kept_ref, frame_records,
  refs_of, length-frame_blob,
}
use axm_embodied.FrameCapture.Session.{Op, run}
use axm_embodied.Protocol.{Header, header_bytes, rec_header_len, version}
use axm_embodied.Protocol.Laws.{unpack-pack}

-- The id comes after the last one.
abbrev IsAfter : Option ℕ → ℕ → Type 0
IsAfter none fid = Unit {0}
IsAfter (some last) fid = last < fid

out_of_order-false : (fid : ℕ) (last : Option ℕ) → IsAfter last fid → out_of_order fid last ≡ false
out_of_order-false fid none h = refl
out_of_order-false fid (some last) h = ground arith

module _ (t : Texts) (max : ℕ) (hash_size : (b : Bytes) → length (t.sha256 b) ≡ hash_len) where
  abbrev frame_header : Kept → Header
  frame_header (fid, payload) = record {
    magic = magic_frame_rec;
    ver = version;
    frame_id = fid;
    dlen = length payload;
  }

  abbrev round_of : ℕ → Bytes → Kept → FrameRound
  round_of at chain k =
      kept (kept_ref t at (link t chain k) k) (at + frame_rec_fixed_len + length k.1)
        (link t chain k)

  check_payload_ok :
      (at : ℕ) (chain : Bytes) (k : Kept)
      → HasId k
      → check_payload t max at (frame_header k) (t.sha256 k.1) (link t chain k) k.1 chain
        ≡ round_of at chain k
  unfolding check_payload chain_next
  check_payload_ok at chain (fid, payload) h = ground (
    arith,
    hash_size payload,
    hash_size (chain ++ t.sha256 payload ++ le32 fid),
    bytes_eq_refl (t.sha256 payload),
    bytes_eq_refl (t.sha256 (chain ++ t.sha256 payload ++ le32 fid)),
  )

  module _ (pre post : Bytes) (chain : Bytes) (k : Kept) (content : Bytes)
      (file : content ≡ pre ++ (frame_blob t (link t chain k) k ++ post)) where
    abbrev header : Bytes
    header = header_bytes magic_frame_rec k.0 (length k.1)

    at_header :
        drop (length pre) content ≡ header ++ (t.sha256 k.1 ++ (link t chain k ++ (k.1 ++ post)))
    at_header =
        rw file (drop-append_of_length (length pre) pre _ refl)
        ∙ append_assoc (header ++ t.sha256 k.1 ++ link t chain k) k.1 post
        ∙ append_assoc (header ++ t.sha256 k.1) (link t chain k) (k.1 ++ post)
        ∙ append_assoc header (t.sha256 k.1) (link t chain k ++ (k.1 ++ post))

    at_hash :
        drop (length pre + rec_header_len) content
        ≡ t.sha256 k.1 ++ (link t chain k ++ (k.1 ++ post))
    at_hash =
        sym (drop-drop (length pre) rec_header_len _ content refl)
        ∙ ap (drop rec_header_len) at_header

    at_link :
        drop (length pre + rec_header_len + hash_len) content ≡ link t chain k ++ (k.1 ++ post)
    at_link =
        sym (drop-drop (length pre + rec_header_len) hash_len _ content refl)
        ∙ ap (drop hash_len) at_hash
        ∙ drop-append_of_length hash_len (t.sha256 k.1) _ (hash_size k.1)

    at_payload : drop (length pre + frame_rec_fixed_len) content ≡ k.1 ++ post
    at_payload =
        sym (drop-drop (length pre + rec_header_len + hash_len) hash_len _ content (omega arith))
        ∙ ap (drop hash_len) at_link
        ∙ drop-append_of_length hash_len (link t chain k) _ (hash_size _)

    check_header_ok :
        (last : Option ℕ)
        → HasId k
        → length k.1 ≤ max
        → IsAfter last k.0
        → check_header t max content (length pre) chain last (frame_header k)
          ≡ round_of (length pre) chain k
    unfolding check_header
    check_header_ok last h n later =
        let hash_read =
          ap (take hash_len) at_hash
          ∙ take-append_of_length hash_len (t.sha256 k.1) _ (hash_size k.1) in
        let link_read =
          ap (take hash_len) at_link
          ∙ take-append_of_length hash_len (link t chain k) _ (hash_size _) in
        let payload_read =
          ap (take (length k.1)) at_payload ∙ take-append_of_length (length k.1) k.1 post refl in
        rw
          (
            ltb-false max (length k.1) n,
            out_of_order-false k.0 last later,
            hash_read,
            link_read,
            payload_read,
          )
          (check_payload_ok (length pre) chain k h)

  frame_round_ok :
      (pre post : Bytes) (chain : Bytes) (k : Kept) (content : Bytes) (last : Option ℕ)
      → content ≡ pre ++ (frame_blob t (link t chain k) k ++ post)
      → HasId k
      → length k.1 ≤ max
      → length k.1 < 2 ^ 32
      → IsAfter last k.0
      → frame_round t max content (length pre) chain last ≡ round_of (length pre) chain k
  unfolding frame_round
  frame_round_ok pre post chain k content last file h n n32 later =
      let header_read : read_at content (length pre) rec_header_len
          ≡ header_bytes magic_frame_rec k.0 (length k.1) =
        ap (take rec_header_len) (at_header pre post chain k content file) in
      rw (header_read, unpack-pack b'A' b'X' b'F' b'R' k.0 (length k.1) h n32)
        (check_header_ok pre post chain k content file last h n later)

  frame_round_end :
      (content : Bytes) (at : ℕ) (chain : Bytes) (last : Option ℕ)
      → drop at content ≡ []
      → frame_round t max content at chain last ≡ clean_end
  unfolding frame_round
  frame_round_end content at chain last e = rw e

  frame_loop_kept :
      (fuel : ℕ) (content : Bytes) (at : ℕ) (chain : Bytes) (last : Option ℕ) {ref : KeptFrameRef}
      {off : ℕ} {next : Bytes}
      → frame_round t max content at chain last ≡ kept ref off next
      → frame_loop t max (suc fuel) content at chain last
        ≡ (frame_loop t max fuel content off next (some ref.frame_id) >>= λ rest. ok (ref ∷ rest))
  unfolding frame_loop
  frame_loop_kept fuel content at chain last e = rw (frame_loop, e)

  frame_loop_end :
      (fuel : ℕ) (content : Bytes) (at : ℕ) (chain : Bytes) (last : Option ℕ)
      → frame_round t max content at chain last ≡ clean_end
      → frame_loop t max (suc fuel) content at chain last ≡ ok []
  unfolding frame_loop
  frame_loop_end fuel content at chain last e = rw (frame_loop, e)

  -- Behind a record whose id is `fid` the ids start at `fid + 1`.
  abbrev IsFrom : Option ℕ → ℕ → Type 0
  IsFrom none lo = Unit {0}
  IsFrom (some last) lo = last < lo

  IsAfter-from : (last : Option ℕ) (lo fid : ℕ) → IsFrom last lo → lo ≤ fid → IsAfter last fid
  IsAfter-from none lo fid h n = tt
  IsAfter-from (some x) lo fid h n = omega arith

  frame_loop-records :
      (l : List Kept) (fuel limit lo hi : ℕ) (pre : Bytes) (chain : Bytes) (content : Bytes)
      (last : Option ℕ)
      → content ≡ pre ++ frame_records t chain l
      → limit ≤ max
      → limit < 2 ^ 32
      → IsOrdered limit lo l hi
      → All HasId l
      → IsFrom last lo
      → length l < fuel
      → frame_loop t max fuel content (length pre) chain last ≡ ok (refs_of t (length pre) chain l)
  frame_loop-records l zero limit lo hi pre chain content last file m m32 o h from f =
      absurd (omega arith)
  frame_loop-records [] (suc fuel) limit lo hi pre chain content last file m m32 o h from f =
      frame_loop_end fuel content (length pre) chain last (
        frame_round_end content (length pre) chain last
          (ap (drop (length pre)) file ∙ drop-append_of_length (length pre) pre [] refl))
  frame_loop-records (k ∷ l) (suc fuel) limit lo hi pre chain content last file m m32 (a, b, o)
        (hk, h) from f =
      let blob = frame_blob t (link t chain k) k in
      let size : length (pre ++ blob) ≡ length pre + frame_rec_fixed_len + length k.1 = omega (
        arith,
        length-append pre blob,
        length-frame_blob t hash_size (link t chain k) k (hash_size _),
      ) in
      let place : length pre + (frame_rec_fixed_len + length k.1) ≡ length (pre ++ blob) =
        omega (arith, size) in
      let rest =
        frame_loop-records l fuel limit (k.0 + 1) hi (pre ++ blob) (link t chain k) content
          (some k.0) (file ∙ sym (append_assoc pre blob (frame_records t (link t chain k) l))) m m32
          o h (omega arith) (omega arith) in
      frame_loop_kept fuel content (length pre) chain last (
        frame_round_ok pre (frame_records t (link t chain k) l) chain k content last file hk
          (omega arith) (omega arith) (IsAfter-from last lo k.0 from a))
      ∙ rw (← size, rest, place)

IsOrdered-left :
    (max lo hi : ℕ) (xs ys : List Kept) → IsOrdered max lo (xs ++ ys) hi → IsOrdered max lo xs hi
IsOrdered-left max lo hi [] ys h = IsOrdered-bounds max lo hi ys h
IsOrdered-left max lo hi ((fid, p) ∷ xs) ys (a, b, h) =
    (a, b, IsOrdered-left max (fid + 1) hi xs ys h)

module _ (t : Texts) where
  refs_of-AreIncreasing :
      (max lo hi at : ℕ) (chain : Bytes) (l : List Kept)
      → IsOrdered max lo l hi
      → AreIncreasing lo (refs_of t at chain l)
  refs_of-AreIncreasing max lo hi at chain [] h = tt
  refs_of-AreIncreasing max lo hi at chain (k ∷ l) (a, b, h) = (
    a,
    refs_of-AreIncreasing max (k.0 + 1) hi (at + (frame_rec_fixed_len + length k.1))
        (link t chain k) l h,
  )

  module _ (hash_size : (b : Bytes) → length (t.sha256 b) ≡ hash_len) where
    length-frame_records :
        (chain : Bytes) (l : List Kept) → length l ≤ length (frame_records t chain l)
    length-frame_records chain [] = omega arith
    length-frame_records chain (k ∷ l) = omega (
      arith,
      length-append (frame_blob t (link t chain k) k) (frame_records t (link t chain k) l),
      length-frame_blob t hash_size (link t chain k) k (hash_size _),
      length-frame_records (link t chain k) l,
    )

module _ (s : Setting) where
  open s use {t, hash_size, session_id, config, small}

  verify-IsCapture :
      (r : FrameCaptureRecorder) (max : ℕ)
      → IsCapture s r
      → config.max_frame_bytes ≤ max
      → session_of r.manifest ≡ ok session_id
      → verify t max (session_of r.manifest) (ok r.f_frames.content) (ok r.f_log)
        ≡ ok (kept_refs r.f_log)
  unfolding verify scan_frames
  verify-IsCapture r max h m stated =
      let l = h.frames in
      let w = h.captured.written_all in
      let genesis = chain_genesis t session_id in
      let o =
        IsOrdered-left config.max_frame_bytes 0 r.next_frame_id l r.buffer h.captured.ordered in
      let scan =
        frame_loop-records t max hash_size l (length r.f_frames.content + 1) config.max_frame_bytes
          0 r.next_frame_id magic_frame_file genesis r.f_frames.content none w.image m small o w.ids
          tt (omega (arith, ap length w.image, length-frame_records t hash_size genesis l)) in
      let agrees =
        cross_check_log-same (refs_of t 4 genesis l) r.f_log 0 w.refs
          (refs_of-AreIncreasing t config.max_frame_bytes 0 r.next_frame_id 4 genesis l o) in
      let magic : read_at r.f_frames.content 0 4 ≡ magic_frame_file = ap (take 4) w.image in
      rw (stated, magic, scan, agrees, w.refs)

  -- Whatever calls a session makes, and whichever of them raise, once it has been closed a judge
  -- whose limit is at least the recorder's accepts the capture by the manifest that it left, and
  -- returns the references that the log claims.
  pub verify-run :
      (ops : List Op) (sensor_id started_at : String) (max : ℕ)
      → config.max_frame_bytes ≤ max
      → (run t ops (new_capture t sensor_id session_id started_at config)).closed ≡ true
      → let r = run t ops (new_capture t sensor_id session_id started_at config) in
        verify t max (session_of r.manifest) (ok r.f_frames.content) (ok r.f_log)
        ≡ ok (kept_refs r.f_log)
  verify-run ops sensor_id started_at max m shut =
      let h = session-IsCapture s ops sensor_id started_at in
      let ended = session-IsEnded t ops sensor_id session_id started_at config in
      verify-IsCapture _ max h m (ended.stated shut ∙ ap ok h.captured.written_all.session_eq)
