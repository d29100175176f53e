-- ===== src/Recorder/Cold.antt =====
-- The ring buffer of the cold stream, and what reaches cam_residuals.bin.
use axm_embodied.Common.{
  ℕ, zero, suc, ◌-◌, ◌≤◌, ◌<◌, ◌≡◌, refl, sym, ap, ◌∙◌, false, List, [], ◌∷◌, ◌++◌, append-nil,
  append_assoc, Bytes, length, take, drop, length-append, length-drop, drop-drop, drop-append_le,
  arith, ok, ltb-false, lt→ltb, concat,
}
use axm_embodied.Common.Disk.{File, write, write_all, fdatasync}
use axm_embodied.Recorder.{
  ResidualBuffer, last_n, append_bounded, push_blob, write_through, trigger_buffer, written,
  buffered,
}

-- A deque never holds more than its `maxlen`.
pub length-last_n {ℓ} : {A : Type ℓ} (n : ℕ) (xs : List A) → length (last_n n xs) ≤ n
length-last_n n xs = omega (arith, length-drop (length xs - n) xs)

last_n-le {ℓ} : {A : Type ℓ} (n : ℕ) (xs : List A) → length xs ≤ n → last_n n xs ≡ xs
last_n-le n xs h = let e : length xs - n ≡ 0 = omega arith in rw e

-- Cutting to the newest `n` before an append changes nothing after it.
pub last_n-append {ℓ} :
    {A : Type ℓ} (n : ℕ) (xs ys : List A) → last_n n (last_n n xs ++ ys) ≡ last_n n (xs ++ ys)
last_n-append n xs ys = rw (← drop-append_le (length xs - n) xs ys (omega arith)) (
    drop-drop (length xs - n) _ (length (xs ++ ys) - n) (xs ++ ys)
      (omega (arith, length-drop (length xs - n) (xs ++ ys), length-append xs ys)))

unfoldable pub push_all : List Bytes → ResidualBuffer → ResidualBuffer
push_all [] b = b
push_all (x ∷ xs) b = push_all xs (push_blob x b).1

pub content-write_all :
    (bs : List Bytes) (f : File) → (write_all bs f).content ≡ f.content ++ concat bs
content-write_all [] f = sym (append-nil f.content)
content-write_all (b ∷ bs) f =
    content-write_all bs (write b f) ∙ append_assoc f.content b (concat bs)

push_blob_outside :
    (x : Bytes) (b : ResidualBuffer)
    → b.recording_frames_left ≡ 0
    → push_blob x b ≡ (ok buffered, record b { buffer = append_bounded b.maxlen x b.buffer })
unfolding push_blob
push_blob_outside x b h = rw (ltb-false 0 b.recording_frames_left (omega arith))

-- Outside a window the file is left alone and the buffer holds the newest records.
pub push_all_outside :
    (xs : List Bytes) (b : ResidualBuffer)
    → b.recording_frames_left ≡ 0
    → length b.buffer ≤ b.maxlen
    → push_all xs b ≡ record b { buffer = last_n b.maxlen (b.buffer ++ xs) }
unfolding push_all
push_all_outside [] b h hl = rw (append-nil b.buffer, last_n-le b.maxlen b.buffer hl)
push_all_outside (x ∷ xs) b h hl = rw (push_blob_outside x b h) (
    push_all_outside xs (record b { buffer = append_bounded b.maxlen x b.buffer }) h
      (length-last_n b.maxlen (b.buffer ++ (x ∷ [])))
    ∙ rw (last_n-append b.maxlen (b.buffer ++ (x ∷ [])) xs, append_assoc b.buffer (x ∷ []) xs))

push_blob_inside :
    (x : Bytes) (b : ResidualBuffer)
    → 0 < b.recording_frames_left
    → push_blob x b ≡ (ok written, write_through x b)
unfolding push_blob
push_blob_inside x b h = rw (lt→ltb 0 b.recording_frames_left h)

pub content-write_through :
    (x : Bytes) (b : ResidualBuffer) → (write_through x b).f.content ≡ b.f.content ++ x
unfolding write_through
content-write_through x b = ground arith

-- The records of a window, and what is buffered once it has closed.
abbrev IsFrozen : ResidualBuffer → ℕ → List Bytes → ResidualBuffer → Type 0
IsFrozen b left xs b' =
    (b'.f.content ≡ b.f.content ++ concat (take left xs))
    × (b'.buffer ≡ last_n b.maxlen (b.buffer ++ drop left xs))

pub push_all_inside :
    (xs : List Bytes) (left : ℕ) (b : ResidualBuffer)
    → b.recording_frames_left ≡ left
    → length b.buffer ≤ b.maxlen
    → IsFrozen b left xs (push_all xs b)
unfolding push_all write_through
push_all_inside xs zero b h hl =
    rw (push_all_outside xs b h hl) (sym (append-nil b.f.content), refl)
push_all_inside [] (suc left) b h hl =
    (sym (append-nil b.f.content), rw (append-nil b.buffer, last_n-le b.maxlen b.buffer hl))
push_all_inside (x ∷ xs) (suc left) b h hl =
    let (file, kept) = push_all_inside xs left (write_through x b) (omega arith) hl in
    rw (push_blob_inside x b (omega arith), push_all)
      (
        file ∙ rw (content-write_through x b, append_assoc b.f.content x (concat (take left xs))),
        kept,
      )

-- A trigger outside a window, in an open session, commits the history, empties the buffer and opens the window.
pub trigger_buffer_outside :
    (b : ResidualBuffer)
    → b.recording_frames_left ≡ 0
    → trigger_buffer false b ≡ (
      ok tt,
      record b {
        f = fdatasync (write_all b.buffer b.f);
        buffer = [];
        recording_frames_left = b.post_window;
      },
    )
unfolding trigger_buffer
trigger_buffer_outside b h = rw (ltb-false 0 b.recording_frames_left (omega arith))

-- A freeze after `xs` and before `ys`: the file gains the newest of `xs`, as many as the buffer
-- holds, and the first of `ys`, as many as the window is long.
pub freeze_content :
    (xs ys : List Bytes) (b : ResidualBuffer)
    → b.recording_frames_left ≡ 0
    → length b.buffer ≤ b.maxlen
    → (push_all ys (trigger_buffer false (push_all xs b)).1).f.content
      ≡ b.f.content ++ concat (last_n b.maxlen (b.buffer ++ xs)) ++ concat (take b.post_window ys)
freeze_content xs ys b h hl =
    let kept = last_n b.maxlen (b.buffer ++ xs) in
    let b' : ResidualBuffer = record b { buffer = kept } in
    rw (push_all_outside xs b h hl, trigger_buffer_outside b' h)
      ((push_all_inside ys b.post_window _ refl (omega arith)).0
        ∙ ap (λ c. c ++ concat (take b.post_window ys)) (content-write_all kept b.f))
