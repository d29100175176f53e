-- ===== src/Attest/Gentime.antt =====
-- `extract_rfc3161_gentime` of src/axm_embodied/attest.py finds the first time in a response, although
-- it goes on two bytes behind a mark that no time follows.
use axm_embodied.Common.{
  ℕ, zero, suc, ◌+◌, ◌≤◌, ◌<◌, ◌≡◌, refl, sym, ap, ◌∙◌, inl, inr, Bool, true, false, ◌&&◌, [], ◌∷◌,
  Option, none, some, Bytes, Bool-cases, Option-cases, length, take, drop, length-drop, drop-drop,
  subst, starts_with, find, if◌then◌else◌, arith,
}
use axm_embodied.Attest.{time_mark, is_time, rfc3339, gentime_loop, extract_rfc3161_gentime}

-- A time begins here: its mark, fourteen digits and a Z.
abbrev pub begins_time : Bytes → Bool
begins_time bytes = starts_with time_mark bytes && is_time (take 15 (drop 2 bytes))

-- The first position at which a time begins.
abbrev pub first_time : Bytes → Option Bytes
first_time [] = none
first_time (b ∷ bs) =
    if begins_time (b ∷ bs) then some (rfc3339 (take 15 (drop 2 (b ∷ bs)))) else first_time bs

first_time-none : (bytes : Bytes) → find time_mark bytes ≡ none → first_time bytes ≡ none
first_time-none [] e = refl
first_time-none (b ∷ bs) e = elim (Bool-cases (starts_with time_mark (b ∷ bs))) [
  | inl here ↦ absurd (ground arith)
  | inr there ↦ elim (Option-cases (find time_mark bs)) [
    | inl missing ↦ ground (arith, first_time-none bs missing)
    | inr (p, found) ↦ absurd (ground arith)
  ]
]

first_time_found :
    (bytes : Bytes) (p : ℕ)
    → find time_mark bytes ≡ some p
    → (first_time bytes ≡ first_time (drop p bytes)) × (starts_with time_mark (drop p bytes) ≡ true)
first_time_found [] p e = absurd (ground arith)
first_time_found (b ∷ bs) p e = elim (Bool-cases (starts_with time_mark (b ∷ bs))) [
  | inl here ↦ let at_0 : p ≡ 0 = ground arith in rw at_0 (refl, here)
  | inr there ↦ elim (Option-cases (find time_mark bs)) [
    | inl missing ↦ absurd (ground arith)
    | inr (q, found) ↦
        let (same, mark) = first_time_found bs q found in
        let at_q : p ≡ suc q = ground arith in rw at_q (ground (arith, same), mark)
  ]
]

-- A mark that no time follows.
first_time_mark :
    (bytes : Bytes)
    → starts_with time_mark bytes ≡ true
    → is_time (take 15 (drop 2 bytes)) ≡ false
    → first_time bytes ≡ first_time (drop 2 bytes)
first_time_mark [] m n = absurd (ground arith)
first_time_mark (b ∷ []) m n = absurd (ground arith)
first_time_mark (b ∷ c ∷ bs) m n =
    let second : c ≡ 15 = ground arith in rw (begins_time, m, n, second) refl

first_time_begins :
    (bytes : Bytes)
    → starts_with time_mark bytes ≡ true
    → is_time (take 15 (drop 2 bytes)) ≡ true
    → first_time bytes ≡ some (rfc3339 (take 15 (drop 2 bytes)))
first_time_begins [] m n = absurd (ground arith)
first_time_begins (b ∷ bs) m n = rw (begins_time, m, n) refl

mark-length : (bytes : Bytes) → starts_with time_mark bytes ≡ true → 2 ≤ length bytes
mark-length [] m = absurd (ground arith)
mark-length (b ∷ []) m = absurd (ground arith)
mark-length (b ∷ c ∷ bs) m = omega arith

gentime_loop_first :
    (fuel : ℕ) (bytes : Bytes) → length bytes < fuel → gentime_loop fuel bytes ≡ first_time bytes
unfolding gentime_loop
gentime_loop_first zero bytes h = absurd (omega arith)
gentime_loop_first (suc fuel) bytes h = elim (Option-cases (find time_mark bytes)) [
  | inl missing ↦ ground (arith, first_time-none bytes missing)
  | inr (p, found) ↦
      let (same, mark) = first_time_found bytes p found in
      let behind = drop-drop p 2 (p + 2) bytes refl in
      elim (Bool-cases (is_time (take 15 (drop (p + 2) bytes)))) [
        | inl time ↦
            let now =
              first_time_begins (drop p bytes) mark
                (subst (λ x. is_time (take 15 x) ≡ true) (sym behind) time) in
            rw (gentime_loop, found, time)
              (sym (same ∙ now ∙ ap (λ x. some (rfc3339 (take 15 x))) behind))
        | inr other ↦
            let later =
              first_time_mark (drop p bytes) mark
                (subst (λ x. is_time (take 15 x) ≡ false) (sym behind) other) in
            let shorter : length (drop (p + 2) bytes) < fuel = omega (
              arith,
              length-drop (p + 2) bytes,
              length-drop p bytes,
              mark-length (drop p bytes) mark,
            ) in
            rw (gentime_loop, found, other)
              (gentime_loop_first fuel (drop (p + 2) bytes) shorter
                ∙ sym (same ∙ later ∙ ap first_time behind))
      ]
]

-- The search of any response ends, and its result is the first time that begins in it, if one does.
pub extract_rfc3161_gentime_first :
    (tsr_bytes : Bytes) → extract_rfc3161_gentime tsr_bytes ≡ first_time tsr_bytes
unfolding extract_rfc3161_gentime
extract_rfc3161_gentime_first tsr_bytes =
    gentime_loop_first (length tsr_bytes + 1) tsr_bytes (omega arith)
