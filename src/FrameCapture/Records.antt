-- ===== src/FrameCapture/Records.antt =====
-- frames.bin and the log entries as functions of the frames that are kept.
use axm_embodied.Common.{
  ℕ, zero, suc, ◌+◌, ◌≤◌, ◌<◌, ◌^◌, ◌≡◌, refl, sym, ap, ◌∙◌, List, [], ◌∷◌, ◌++◌, append-nil,
  append_assoc, Bytes, All, length, drop, length-append, hex, le32, arith, String,
}
use axm_embodied.FrameCapture.{
  Texts, KeptFrameRef, LogEntry, capture_trigger, capture_window_opened, capture_window_closed,
  frame_kept, magic_frame_rec, magic_frame_file, frame_rec_fixed_len, hash_len, chain_genesis,
}
use axm_embodied.Protocol.{header_bytes}
use axm_embodied.Protocol.Laws.{length-header_bytes}

-- A frame: its id and its bytes.
abbrev pub Kept : Type 0
Kept = ℕ × Bytes

-- The frame_kept lines of a log, in order.
unfoldable pub kept_refs : List LogEntry → List KeptFrameRef
kept_refs [] = []
kept_refs (frame_kept ref sensor_id ∷ log) = ref ∷ kept_refs log
kept_refs (capture_trigger fid reason source sensor_id ∷ log) = kept_refs log
kept_refs (capture_window_opened fid first sensor_id ∷ log) = kept_refs log
kept_refs (capture_window_closed fid note sensor_id ∷ log) = kept_refs log

pub kept_refs-append : (xs ys : List LogEntry) → kept_refs (xs ++ ys) ≡ kept_refs xs ++ kept_refs ys
unfolding kept_refs
kept_refs-append [] ys = refl
kept_refs-append (frame_kept ref sensor_id ∷ xs) ys = ap (λ l. ref ∷ l) (kept_refs-append xs ys)
kept_refs-append (capture_trigger a b c d ∷ xs) ys = kept_refs-append xs ys
kept_refs-append (capture_window_opened a b c ∷ xs) ys = kept_refs-append xs ys
kept_refs-append (capture_window_closed a b c ∷ xs) ys = kept_refs-append xs ys

-- Frames in the order of their ids, from `lo` on and below `hi`, none of them longer than `max`.
abbrev pub IsOrdered : ℕ → ℕ → List Kept → ℕ → Type 0
IsOrdered max lo [] hi = lo ≤ hi
IsOrdered max lo ((fid, payload) ∷ l) hi =
    (lo ≤ fid) × (length payload ≤ max) × IsOrdered max (fid + 1) l hi

pub IsOrdered-snoc :
    (max lo hi : ℕ) (l : List Kept) (payload : Bytes)
    → IsOrdered max lo l hi
    → length payload ≤ max
    → IsOrdered max lo (l ++ ((hi, payload) ∷ [])) (hi + 1)
IsOrdered-snoc max lo hi [] payload h n = (h, n, omega arith)
IsOrdered-snoc max lo hi ((fid, p) ∷ l) payload (a, b, h) n =
    (a, b, IsOrdered-snoc max (fid + 1) hi l payload h n)

pub IsOrdered-le :
    (max lo hi hi' : ℕ) (l : List Kept) → IsOrdered max lo l hi → hi ≤ hi' → IsOrdered max lo l hi'
IsOrdered-le max lo hi hi' [] h n = omega arith
IsOrdered-le max lo hi hi' ((fid, p) ∷ l) (a, b, h) n =
    (a, b, IsOrdered-le max (fid + 1) hi hi' l h n)

pub IsOrdered-bounds : (max lo hi : ℕ) (l : List Kept) → IsOrdered max lo l hi → lo ≤ hi
IsOrdered-bounds max lo hi [] h = h
IsOrdered-bounds max lo hi ((fid, p) ∷ l) (a, b, h) =
    omega (arith, IsOrdered-bounds max (fid + 1) hi l h)

-- Frames that come later may also start later.
IsOrdered-ge :
    (max lo lo' hi : ℕ) (l : List Kept) → IsOrdered max lo l hi → lo' ≤ lo → IsOrdered max lo' l hi
IsOrdered-ge max lo lo' hi [] h n = omega arith
IsOrdered-ge max lo lo' hi ((fid, p) ∷ l) (a, b, h) n = (omega arith, b, h)

IsOrdered-drop :
    (max lo hi n : ℕ) (l : List Kept) → IsOrdered max lo l hi → IsOrdered max lo (drop n l) hi
IsOrdered-drop max lo hi zero l h = h
IsOrdered-drop max lo hi (suc n) [] h = h
IsOrdered-drop max lo hi (suc n) ((fid, p) ∷ l) (a, b, h) =
    IsOrdered-ge max (fid + 1) lo hi (drop n l) (IsOrdered-drop max (fid + 1) hi n l h)
      (omega arith)

-- The oldest of the buffered frames may go.
pub IsOrdered-append_drop :
    (max lo hi n : ℕ) (xs ys : List Kept)
    → IsOrdered max lo (xs ++ ys) hi
    → IsOrdered max lo (xs ++ drop n ys) hi
IsOrdered-append_drop max lo hi n [] ys h = IsOrdered-drop max lo hi n ys h
IsOrdered-append_drop max lo hi n ((fid, p) ∷ xs) ys (a, b, h) =
    (a, b, IsOrdered-append_drop max (fid + 1) hi n xs ys h)

-- So may the first of them.
pub IsOrdered-skip :
    (max lo hi : ℕ) (xs : List Kept) (k : Kept) (ys : List Kept)
    → IsOrdered max lo (xs ++ (k ∷ ys)) hi
    → IsOrdered max lo (xs ++ ys) hi
IsOrdered-skip max lo hi xs k ys h = IsOrdered-append_drop max lo hi 1 xs (k ∷ ys) h

abbrev pub HasId : Kept → Type 0
HasId (fid, payload) = fid < 2 ^ 32

pub All-snoc : (l : List Kept) (k : Kept) → All HasId l → HasId k → All HasId (l ++ (k ∷ []))
All-snoc [] k h n = (n, tt)
All-snoc (x ∷ l) k (hx, h) n = (hx, All-snoc l k h n)

module _ (t : Texts) where
  -- The link of a frame after the link `chain`.
  abbrev pub link : Bytes → Kept → Bytes
  link chain (fid, payload) = t.sha256 (chain ++ t.sha256 payload ++ le32 fid)

  -- The record of a frame whose link is `chain`.
  abbrev pub frame_blob : Bytes → Kept → Bytes
  frame_blob chain (fid, payload) =
      header_bytes magic_frame_rec fid (length payload) ++ t.sha256 payload ++ chain ++ payload

  abbrev pub kept_ref : ℕ → Bytes → Kept → KeptFrameRef
  kept_ref at chain (fid, payload) = record {
    frame_id = fid;
    offset = at;
    len = frame_rec_fixed_len + length payload;
    content_sha256 = hex (t.sha256 payload);
    chain = hex chain;
  }

  abbrev pub last_link : Bytes → List Kept → Bytes
  last_link chain [] = chain
  last_link chain (k ∷ l) = last_link (link chain k) l

  abbrev pub frame_records : Bytes → List Kept → Bytes
  frame_records chain [] = []
  frame_records chain (k ∷ l) = frame_blob (link chain k) k ++ frame_records (link chain k) l

  -- The references of frames whose records stand one after the other, the first at `at`.
  abbrev pub refs_of : ℕ → Bytes → List Kept → List KeptFrameRef
  refs_of at chain [] = []
  refs_of at chain (k ∷ l) =
      kept_ref at (link chain k) k
      ∷ refs_of (at + (frame_rec_fixed_len + length k.1)) (link chain k) l

  -- The whole file of a session.
  abbrev pub capture_image : String → List Kept → Bytes
  capture_image session_id l = magic_frame_file ++ frame_records (chain_genesis t session_id) l

  pub last_link-snoc :
      (chain : Bytes) (l : List Kept) (k : Kept)
      → last_link chain (l ++ (k ∷ [])) ≡ link (last_link chain l) k
  last_link-snoc chain [] k = refl
  last_link-snoc chain (x ∷ l) k = last_link-snoc (link chain x) l k

  pub frame_records-snoc :
      (chain : Bytes) (l : List Kept) (k : Kept)
      → frame_records chain (l ++ (k ∷ []))
        ≡ frame_records chain l ++ frame_blob (link (last_link chain l) k) k
  frame_records-snoc chain [] k = append-nil (frame_blob (link chain k) k)
  frame_records-snoc chain (x ∷ l) k =
      ap (λ b. frame_blob (link chain x) x ++ b) (frame_records-snoc (link chain x) l k)
      ∙ sym (append_assoc (frame_blob (link chain x) x) (frame_records (link chain x) l) _)

  module _ (hash_size : (b : Bytes) → length (t.sha256 b) ≡ hash_len) where
    pub length-frame_blob :
        (chain : Bytes) (k : Kept)
        → length chain ≡ hash_len
        → length (frame_blob chain k) ≡ frame_rec_fixed_len + length k.1
    length-frame_blob chain (fid, payload) h = omega (
      arith,
      length-append (header_bytes magic_frame_rec fid (length payload) ++ t.sha256 payload ++ chain)
          payload,
      length-append (header_bytes magic_frame_rec fid (length payload) ++ t.sha256 payload) chain,
      length-append (header_bytes magic_frame_rec fid (length payload)) (t.sha256 payload),
      length-header_bytes magic_frame_rec fid (length payload) refl,
      hash_size payload,
    )

    pub refs_of-snoc :
        (at at' : ℕ) (chain : Bytes) (l : List Kept) (k : Kept)
        → at' ≡ at + length (frame_records chain l)
        → refs_of at chain (l ++ (k ∷ []))
          ≡ refs_of at chain l ++ (kept_ref at' (link (last_link chain l) k) k ∷ [])
    refs_of-snoc at at' chain [] k e = let e' : at' ≡ at = omega arith in rw e'
    refs_of-snoc at at' chain (x ∷ l) k e =
        ap (λ rest. kept_ref at (link chain x) x ∷ rest)
          (refs_of-snoc (at + (frame_rec_fixed_len + length x.1)) at' (link chain x) l k (
            omega (
              arith,
              e,
              length-append (frame_blob (link chain x) x) (frame_records (link chain x) l),
              length-frame_blob (link chain x) x (hash_size _),
            )))

    pub length-refs_of :
        (at : ℕ) (chain : Bytes) (l : List Kept) → length (refs_of at chain l) ≡ length l
    length-refs_of at chain [] = refl
    length-refs_of at chain (x ∷ l) =
        ap suc (length-refs_of (at + (frame_rec_fixed_len + length x.1)) (link chain x) l)
