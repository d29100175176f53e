-- ===== src/Recorder/Stored.antt =====
-- The cold stream of any session holds whole records, and so does its buffer, for residuals that are
-- not longer than the judge accepts.
use axm_embodied.Common.{
  ℕ, zero, suc, ◌-◌, ◌≤◌, ◌<◌, ◌^◌, ◌≡◌, refl, sym, ap, ◌∙◌, inl, inr, Bool, true, false, List, [],
  ◌∷◌, ◌++◌, map, append-nil, Bytes, All, Bool-cases, length, drop, concat, concat-append, ltb,
}
use axm_embodied.Protocol.{default_max_residual_size}
use axm_embodied.Recorder.{ResidualBuffer, push_blob, trigger_buffer}
use axm_embodied.Recorder.Cold.{content-write_all, content-write_through}
use axm_embodied.Recorder.Frames.{resid_blob}

-- A residual: the id of its frame and its bytes.
abbrev pub Residual : Type 0
Residual = ℕ × Bytes

abbrev pub blob_of : Residual → Bytes
blob_of (fid, payload) = resid_blob fid payload

-- A residual that the judge takes.
abbrev pub IsStorable : Residual → Type 0
IsStorable (fid, payload) = (fid < 2 ^ 32) × (length payload ≤ default_max_residual_size)

-- The cold stream and its buffer hold whole records.
pub record IsCold (b : ResidualBuffer) : Type 0 where
  pub rs : List Residual
  pub bs : List Residual
  pub file : b.f.content ≡ concat (map blob_of rs)
  pub rs_ok : All IsStorable rs
  pub held : b.buffer ≡ map blob_of bs
  pub bs_ok : All IsStorable bs

map-append_one : (xs ys : List Residual) → map blob_of (xs ++ ys) ≡ map blob_of xs ++ map blob_of ys
map-append_one [] ys = refl
map-append_one (x ∷ xs) ys = ap (λ l. blob_of x ∷ l) (map-append_one xs ys)

All-append :
    (xs ys : List Residual) → All IsStorable xs → All IsStorable ys → All IsStorable (xs ++ ys)
All-append [] ys hx hy = hy
All-append (x ∷ xs) ys (h, hx) hy = (h, All-append xs ys hx hy)

map-drop : (n : ℕ) (xs : List Residual) → drop n (map blob_of xs) ≡ map blob_of (drop n xs)
map-drop zero xs = refl
map-drop (suc n) [] = refl
map-drop (suc n) (x ∷ xs) = map-drop n xs

All-drop : (n : ℕ) (xs : List Residual) → All IsStorable xs → All IsStorable (drop n xs)
All-drop zero xs h = h
All-drop (suc n) [] h = h
All-drop (suc n) (x ∷ xs) (hx, h) = All-drop n xs h

concat_more :
    (xs ys : List Residual)
    → concat (map blob_of xs) ++ concat (map blob_of ys) ≡ concat (map blob_of (xs ++ ys))
concat_more xs ys =
    sym (ap concat (map-append_one xs ys) ∙ concat-append (map blob_of xs) (map blob_of ys))

pub push_blob-IsCold :
    (r : Residual) (b : ResidualBuffer)
    → IsStorable r
    → IsCold b
    → IsCold (push_blob (blob_of r) b).1
unfolding push_blob
push_blob-IsCold r b hr h = elim (Bool-cases (ltb 0 b.recording_frames_left)) [
  | inl inside ↦ rw inside (record {
    rs = h.rs ++ (r ∷ []);
    bs = h.bs;
    file =
        content-write_through (blob_of r) b
        ∙ ap (λ x. x ++ blob_of r) h.file
        ∙ ap (λ x. concat (map blob_of h.rs) ++ x) (sym (append-nil (blob_of r)))
        ∙ concat_more h.rs (r ∷ []);
    rs_ok = All-append h.rs (r ∷ []) h.rs_ok (hr, tt);
    held = h.held;
    bs_ok = h.bs_ok;
  })
  | inr outside ↦ rw outside (record {
    rs = h.rs;
    bs = drop (length (b.buffer ++ (blob_of r ∷ [])) - b.maxlen) (h.bs ++ (r ∷ []));
    file = h.file;
    rs_ok = h.rs_ok;
    held =
        ap (λ l. drop (length (b.buffer ++ (blob_of r ∷ [])) - b.maxlen) (l ++ (blob_of r ∷ [])))
          h.held
        ∙ ap (drop (length (b.buffer ++ (blob_of r ∷ [])) - b.maxlen))
            (sym (map-append_one h.bs (r ∷ [])))
        ∙ map-drop (length (b.buffer ++ (blob_of r ∷ [])) - b.maxlen) (h.bs ++ (r ∷ []));
    bs_ok = All-drop _ (h.bs ++ (r ∷ [])) (All-append h.bs (r ∷ []) h.bs_ok (hr, tt));
  })
]

pub trigger_buffer-IsCold :
    (file_closed : Bool) (b : ResidualBuffer) → IsCold b → IsCold (trigger_buffer file_closed b).1
unfolding trigger_buffer
trigger_buffer-IsCold true b h = elim (Bool-cases (ltb 0 b.recording_frames_left)) [
  | inl inside ↦ rw inside h
  | inr outside ↦ rw outside (record {
    rs = h.rs;
    bs = drop 1 h.bs;
    file = h.file;
    rs_ok = h.rs_ok;
    held = ap (drop 1) h.held ∙ map-drop 1 h.bs;
    bs_ok = All-drop 1 h.bs h.bs_ok;
  })
]
trigger_buffer-IsCold false b h = elim (Bool-cases (ltb 0 b.recording_frames_left)) [
  | inl inside ↦ rw inside h
  | inr outside ↦ rw outside (record {
    rs = h.rs ++ h.bs;
    bs = [];
    file =
        content-write_all b.buffer b.f
        ∙ ap (λ x. x ++ concat b.buffer) h.file
        ∙ ap (λ x. concat (map blob_of h.rs) ++ concat x) h.held
        ∙ concat_more h.rs h.bs;
    rs_ok = All-append h.rs h.bs h.rs_ok h.bs_ok;
    held = refl;
    bs_ok = tt;
  })
]
