-- ===== src/Streams/Search.antt =====
-- `_resync_to_magic` reads in chunks and keeps the end of what it has seen, so that a magic split
-- between two chunks is found. It finds exactly what a plain search of the whole window finds.
use axm_embodied.Common.{
  ℕ, zero, suc, ◌+◌, ◌-◌, ◌*◌, ◌≤◌, ◌<◌, ◌≡◌, ◌≢◌, refl, sym, ap, ◌∙◌, ◌⊎◌, inl, inr, true, [], ◌∷◌,
  ◌++◌, append-nil, append_assoc, Option, none, some, Bytes, length, take, drop, read_at, find,
  starts_with, arith, Option-cases, length-append, length-take, length-drop, take-append-drop,
  drop-drop, drop-nil, take-drop-add, take-nil, length-zero, take-length-take,
}
use axm_embodied.Recorder.{last_n}
use axm_embodied.Recorder.Cold.{last_n-append}
use axm_embodied.Streams.{Resync, found, not_found, exhausted, resync_loop, resync_to_magic}
use axm_embodied.Protocol.{default_max_resync_bytes}
use mathlib.Core.Option
use native.Mathlib.Decide.{dec_lt}

shift : ℕ → Option ℕ → Option ℕ
shift k none = none
shift k (some p) = some (k + p)

shift-zero : (o : Option ℕ) → shift 0 o ≡ o
unfolding shift
shift-zero none = refl
shift-zero (some p) = ground arith

map-shift : (k : ℕ) (o : Option ℕ) → Option.map suc (shift k o) ≡ shift (suc k) o
unfolding shift
map-shift k none = refl
map-shift k (some p) = ground arith

starts_with-append : (m h y : Bytes) → starts_with m h ≡ true → starts_with m (h ++ y) ≡ true
starts_with-append [] h y e = refl
starts_with-append (a ∷ m) [] y e = cc
starts_with-append (a ∷ m) (b ∷ h) y e = ground (arith, starts_with-append m h y)

-- A text that is as long as the needle decides.
starts_with_long : (m h y : Bytes) → length m ≤ length h → starts_with m (h ++ y) ≡ starts_with m h
starts_with_long [] h y e = refl
starts_with_long (a ∷ m) [] y e = absurd (omega arith)
starts_with_long (a ∷ m) (b ∷ h) y e = rw (starts_with_long m h y (omega arith))

starts_with-length : (m h : Bytes) → starts_with m h ≡ true → length m ≤ length h
starts_with-length [] h e = omega arith
starts_with-length (a ∷ m) [] e = cc
starts_with-length (a ∷ m) (b ∷ h) e = ground (arith, starts_with-length m h)

find-length : (m h : Bytes) {p : ℕ} → find m h ≡ some p → length m + p ≤ length h
find-length m [] e = ground (arith, starts_with-length m [])
find-length m (b ∷ h) {p} e = elim (Option-cases (find m h)) [
  | inl missing ↦ ground (arith, starts_with-length m (b ∷ h))
  | inr (q, at) ↦ ground (arith, starts_with-length m (b ∷ h), find-length m h at)
]

find-append_some : (m h y : Bytes) {p : ℕ} → find m h ≡ some p → find m (h ++ y) ≡ some p
find-append_some [] [] [] e = e
find-append_some [] [] (b ∷ y) e = e
find-append_some (a ∷ m) [] y e = cc
find-append_some m (b ∷ h) y {p} e = elim (Option-cases (find m h)) [
  | inl missing ↦ ground (arith, starts_with-append m (b ∷ h) y)
  | inr (q, at) ↦
      ground (arith, find-length m h at, starts_with_long m (b ∷ h) y, find-append_some m h y at)
]

-- A needle that is not in `u ++ t` begins in `u` for no text that follows, once `t` is as long as
-- the needle but for one byte.
find-append_none :
    (m u t x : Bytes)
    → (0 < length u → length m ≤ length t + 1)
    → find m (u ++ t) ≡ none
    → find m (u ++ t ++ x) ≡ shift (length u) (find m (t ++ x))
find-append_none m [] t x h e = sym (shift-zero (find m (t ++ x)))
find-append_none m (b ∷ u) t x h e = elim (Option-cases (find m (u ++ t))) [
  | inl missing ↦ ground (
    arith,
    starts_with_long m (b ∷ (u ++ t)) x,
    length-append u t,
    find-append_none m u t x (λ _. h (omega arith)) missing,
    map-shift (length u) (find m (t ++ x)),
  )
  | inr (q, at) ↦ ground arith
]

-- So the last bytes of what was searched are all that has to be kept.
find-last_n :
    (m s x : Bytes)
    → 0 < length m
    → find m s ≡ none
    → find m (s ++ x)
      ≡ shift (length s - length (last_n (length m - 1) s)) (find m (last_n (length m - 1) s ++ x))
find-last_n m s x hm e =
    let d = length s - (length m - 1) in
    let split = take-append-drop d s in
    let lu = length-take d s in
    let lt = length-drop d s in
    let same : length (take d s) ≡ length s - length (drop d s) = omega (arith, lu, lt) in
    let found_in =
      find-append_none m (take d s) (drop d s) x
        (λ (nonempty : 0 < length (take d s)). omega (arith, lu, lt)) (rw split e) in
    rw (split, same) at found_in

-- What a search that began at `start` reports.
abbrev pub answer : ℕ → Option ℕ → Resync
answer start none = not_found
answer start (some p) = found (start + p)

module _ (content m : Bytes) (c limit start : ℕ) (hc : 0 < c) (hm : 0 < length m) where
  -- `s` has been searched and does not hold the magic, `r` is still to be read, and what is left
  -- of the budget is a whole number of chunks.
  record IsSearched (s r : Bytes) (k at scanned : ℕ) (tail : Bytes) : Type 0 where
    place : at ≡ start + length s
    counted : scanned ≡ length s
    kept : tail ≡ last_n (length m - 1) s
    missing : find m s ≡ none
    rest : drop at content ≡ r
    budget : (length s + k * c ≡ limit) ⊎ (r ≡ [])

  -- One round of the loop, by how it ends.
  round_end :
      (fuel at scanned : ℕ) (tail : Bytes)
      → (limit ≤ scanned) ⊎ (length (read_at content at c) ≡ 0)
      → resync_loop (suc fuel) content m c limit at scanned tail ≡ not_found
  unfolding resync_loop
  round_end fuel at scanned tail h = ground arith

  round_hit :
      (fuel at scanned p : ℕ) (tail : Bytes)
      → scanned < limit
      → 0 < length (read_at content at c)
      → find m (tail ++ read_at content at c) ≡ some p
      → resync_loop (suc fuel) content m c limit at scanned tail
        ≡ found (at + length (read_at content at c) - length (tail ++ read_at content at c) + p)
  unfolding resync_loop
  round_hit fuel at scanned p tail h e f = ground arith

  round_miss :
      (fuel at scanned : ℕ) (tail : Bytes)
      → scanned < limit
      → 0 < length (read_at content at c)
      → find m (tail ++ read_at content at c) ≡ none
      → resync_loop (suc fuel) content m c limit at scanned tail
        ≡ resync_loop fuel content m c limit
            (at + length (read_at content at c))
            (scanned + length (read_at content at c))
            (last_n (length m - 1) (tail ++ read_at content at c))
  unfolding resync_loop
  round_miss fuel at scanned tail h e f = ground arith

  answer_end :
      (s x : Bytes) → length x ≡ 0 → find m s ≡ none → answer start (find m (s ++ x)) ≡ not_found
  answer_end s x h e = rw (length-zero x h, append-nil s, e)

  -- The chunk that a round reads, and the budget that is left after it.
  room :
      (k : ℕ) (s r : Bytes)
      → (length s + k * c ≡ limit) ⊎ (r ≡ [])
      → length s < limit
      → length (take c r) ≤ limit - length s
  room zero s r (inl b) h = absurd (omega arith)
  room (suc k) s r (inl b) h = omega (arith, length-take c r)
  room k s r (inr e) h = rw (e, take-nil c) (omega arith)

  window_split :
      (k : ℕ) (s r : Bytes)
      → (length s + k * c ≡ limit) ⊎ (r ≡ [])
      → length s < limit
      → s ++ take (limit - length s) r
        ≡ (s ++ take c r) ++ take (limit - length (s ++ take c r)) (drop (length (take c r)) r)
  window_split k s r b h =
      let n = length (take c r) in
      let left = limit - length (s ++ take c r) in
      let sum : n + left ≡ limit - length s =
        omega (arith, room k s r b h, length-append s (take c r)) in
      ap (λ x. s ++ x) (sym (take-drop-add n left (limit - length s) r sum))
      ∙ rw (take-length-take c r) (sym (append_assoc s (take c r) _))

  next_budget :
      (k : ℕ) (s r : Bytes)
      → (length s + k * c ≡ limit) ⊎ (r ≡ [])
      → length s < limit
      → (length (s ++ take c r) + (k - 1) * c ≡ limit) ⊎ (drop (length (take c r)) r ≡ [])
  next_budget zero s r (inl b) h = absurd (omega arith)
  next_budget (suc k) s r (inl b) h = elim (dec_lt (length r) c) [
    | yes short ↦
        inr (length-zero _ (omega (arith, length-drop (length (take c r)) r, length-take c r)))
    | no full ↦ inl (grind (arith, length-append s (take c r), length-take c r))
  ]
  next_budget k s r (inr e) h = inr (rw e (drop-nil (length (take {A = ℕ} c []))))

  module _ (k : ℕ) (s r : Bytes) (at scanned : ℕ) (tail : Bytes)
      (h : IsSearched s r k at scanned tail) where
    chunk_eq : read_at content at c ≡ take c r
    chunk_eq = ap (take c) h.rest

    found_in : (x : Bytes) → find m (s ++ x) ≡ shift (length s - length tail) (find m (tail ++ x))
    found_in x = rw h.kept (find-last_n m s x hm h.missing)

    tail_le : length tail ≤ length s
    tail_le = rw h.kept (omega (arith, length-drop (length s - (length m - 1)) s))

    next-IsSearched :
        scanned < limit
        → find m (tail ++ take c r) ≡ none
        → IsSearched
            (s ++ take c r)
            (drop (length (take c r)) r)
            (k - 1)
            (at + length (take c r))
            (scanned + length (take c r))
            (last_n (length m - 1) (tail ++ take c r))
    unfolding shift
    next-IsSearched more miss = record {
      place = omega (arith, h.place, length-append s (take c r));
      counted = omega (arith, h.counted, length-append s (take c r));
      kept = rw h.kept (last_n-append (length m - 1) s (take c r));
      missing = found_in (take c r) ∙ ap (shift (length s - length tail)) miss;
      rest =
          sym (drop-drop at (length (take c r)) (at + length (take c r)) content refl)
          ∙ ap (drop (length (take c r))) h.rest;
      budget = next_budget k s r h.budget (omega (arith, h.counted));
    }

    answer_hit :
        (p : ℕ)
        → scanned < limit
        → find m (tail ++ take c r) ≡ some p
        → answer start (find m (s ++ take (limit - length s) r))
          ≡ found (at + length (take c r) - length (tail ++ take c r) + p)
    unfolding shift
    answer_hit p more hit =
        let in_s : find m (s ++ take c r) ≡ some (length s - length tail + p) =
          found_in (take c r) ∙ ap (shift (length s - length tail)) hit in
        let same : start + (length s - length tail + p)
            ≡ at + length (take c r) - length (tail ++ take c r) + p =
          omega (arith, h.place, length-append tail (take c r), tail_le) in
        rw
          (
            window_split k s r h.budget (omega (arith, h.counted)),
            find-append_some m (s ++ take c r) _ in_s,
          )
          (ap found same)

  loop_window :
      (fuel k : ℕ) (s r : Bytes) (at scanned : ℕ) (tail : Bytes)
      → IsSearched s r k at scanned tail
      → length r < fuel
      → resync_loop fuel content m c limit at scanned tail
        ≡ answer start (find m (s ++ take (limit - length s) r))
  loop_window zero k s r at scanned tail h f = absurd (omega arith)
  loop_window (suc fuel) k s r at scanned tail h f =
      let chunk = chunk_eq k s r at scanned tail h in
      let sizes = length-take (limit - length s) r in
      elim (dec_lt scanned limit) [
        | no spent ↦
            round_end fuel at scanned tail (inl (omega arith))
            ∙ sym (answer_end s _ (omega (arith, sizes, h.counted)) h.missing)
        | yes more ↦ elim (dec_lt 0 (length (take c r))) [
          | no empty ↦
              round_end fuel at scanned tail (inr (rw chunk (omega arith)))
              ∙ sym (answer_end s _ (omega (arith, length-take c r, sizes)) h.missing)
          | yes some_bytes ↦ elim (Option-cases (find m (tail ++ take c r))) [
            | inr (p, hit) ↦
                rw chunk at
                  (round_hit fuel at scanned p tail more (rw chunk some_bytes) (rw chunk hit))
                ∙ sym (answer_hit k s r at scanned tail h p more hit)
            | inl miss ↦
                rw chunk at
                  (round_miss fuel at scanned tail more (rw chunk some_bytes) (rw chunk miss))
                ∙ loop_window fuel (k - 1) (s ++ take c r) (drop (length (take c r)) r)
                    (at + length (take c r)) (scanned + length (take c r))
                    (last_n (length m - 1) (tail ++ take c r))
                    (next-IsSearched k s r at scanned tail h more miss)
                    (omega (arith, length-drop (length (take c r)) r, length-take c r))
                ∙ ap (λ x. answer start (find m x))
                    (sym (window_split k s r h.budget (omega (arith, h.counted))))
          ]
        ]
      ]

find-nil : (m : Bytes) → 0 < length m → find m [] ≡ none
find-nil [] h = absurd (omega arith)
find-nil (x ∷ m) h = refl

-- The chunked search for a magic that is not empty finds the first one in the next 64 MiB, also
-- one that is split between two chunks, and reports none exactly where there is none.
pub resync_to_magic-find :
    (content magic : Bytes) (start_pos : ℕ)
    → 0 < length magic
    → resync_to_magic content magic start_pos
      ≡ answer start_pos (find magic (read_at content start_pos default_max_resync_bytes))
unfolding resync_to_magic
resync_to_magic-find content magic start_pos hm =
    loop_window content magic (64 * 1024) default_max_resync_bytes start_pos (omega arith) hm
      (length content + 2) 1024 [] (drop start_pos content) start_pos 0 []
      (record {
        place = omega arith;
        counted = refl;
        kept = sym (drop-nil (0 - (length magic - 1)));
        missing = find-nil magic hm;
        rest = refl;
        budget = inl (omega arith);
      })
      (omega (arith, length-drop start_pos content))

-- A magic that was found lies behind the start and inside the file.
pub resync_to_magic_range :
    (content magic : Bytes) (start_pos : ℕ) {next : ℕ}
    → 0 < length magic
    → resync_to_magic content magic start_pos ≡ found next
    → (start_pos ≤ next) × (next + length magic ≤ length content)
resync_to_magic_range content magic start_pos {next} hm e =
    elim (Option-cases (find magic (read_at content start_pos default_max_resync_bytes))) [
      | inl missing ↦ cc (resync_to_magic-find content magic start_pos hm)
      | inr (p, at) ↦
          let r : Resync.found (start_pos + p) ≡ found next =
            cc (resync_to_magic-find content magic start_pos hm) in
          let n : start_pos + p ≡ next = ground arith in
          let size = find-length magic _ at in
          let cut = length-take default_max_resync_bytes (drop start_pos content) in
          let left = length-drop start_pos content in (omega arith, omega arith)
    ]

pub resync_to_magic-ne-exhausted :
    (content magic : Bytes) (start_pos : ℕ)
    → 0 < length magic
    → resync_to_magic content magic start_pos ≢ exhausted
resync_to_magic-ne-exhausted content magic start_pos hm e =
    elim (Option-cases (find magic (read_at content start_pos default_max_resync_bytes))) [
      | inl missing ↦ cc (resync_to_magic-find content magic start_pos hm)
      | inr (p, at) ↦ cc (resync_to_magic-find content magic start_pos hm)
    ]
