-- ===== src/Attest/Der.antt =====
-- The DER of src/axm_embodied/attest.py, read back by an independent reader of one element.
use axm_embodied.Common.{
  ℕ, zero, suc, ◌+◌, ◌-◌, ◌*◌, ◌/◌, ◌%◌, ◌^◌, ◌≤◌, ◌<◌, ◌≡◌, refl, ap, ◌∙◌, inl, inr, [], ◌∷◌, ◌++◌,
  append_assoc, Option, none, some, Bytes, Bool-cases, length, take, drop, length-append,
  take-append_of_length, drop-append_of_length, ltb, ltb-false, All, IsByte, ◌==◌, if◌then◌else◌,
  arith,
}
use native.Mathlib.Numerals.{unary_clauses}
use axm_embodied.Attest.{to_bytes, der_len, der}

-- The number that bytes encode, the most significant first, behind `n`.
abbrev pub from_bytes : ℕ → Bytes → ℕ
from_bytes n [] = n
from_bytes n (b ∷ bs) = from_bytes (n * 256 + b) bs

-- One element: its tag, its content and what follows it.
abbrev pub read_der : Bytes → Option (ℕ × Bytes × Bytes)
read_der [] = none
read_der (tag ∷ []) = none
read_der (tag ∷ n ∷ bs) =
    if ltb n 128
    then some (tag, take n bs, drop n bs)
    else let size = from_bytes 0 (take (n - 128) bs) in
      let rest = drop (n - 128) bs in some (tag, take size rest, drop size rest)

All-append : (xs ys : Bytes) → All IsByte xs → All IsByte ys → All IsByte (xs ++ ys)
All-append [] ys hx hy = hy
All-append (x ∷ xs) ys (h, hx) hy = (h, All-append xs ys hx hy)

from_bytes-snoc : (n b : ℕ) (bs : Bytes) → from_bytes n (bs ++ (b ∷ [])) ≡ from_bytes n bs * 256 + b
from_bytes-snoc n b [] = refl
from_bytes-snoc n b (c ∷ bs) = from_bytes-snoc (n * 256 + c) b bs

from_bytes-to_bytes : (fuel n : ℕ) → n ≤ fuel → from_bytes 0 (to_bytes fuel n) ≡ n
unfolding to_bytes
from_bytes-to_bytes zero n h = omega arith
from_bytes-to_bytes (suc fuel) n h = elim (Bool-cases (n == 0)) [
  | inl empty ↦ ground arith
  | inr full ↦
      let ih = from_bytes-to_bytes fuel (n / 256) (ground arith) in
      rw full (
        from_bytes-snoc 0 (n % 256) (to_bytes fuel (n / 256))
        ∙ ap (λ x. x * 256 + n % 256) ih
        ∙ omega arith)
]

div_lt : (n p : ℕ) → n < p * 256 → n / 256 < p
div_lt n p h = omega arith

power_suc : (n k : ℕ) → n < 256 ^ suc k → n < 256 ^ k * 256
power_suc n k h = simp unary_clauses at h

length-to_bytes : (k fuel n : ℕ) → n < 256 ^ k → length (to_bytes fuel n) ≤ k
unfolding to_bytes
length-to_bytes k zero n h = omega arith
length-to_bytes zero (suc fuel) n h = let empty : n ≡ 0 = omega arith in rw empty (omega arith)
length-to_bytes (suc k) (suc fuel) n h = elim (Bool-cases (n == 0)) [
  | inl empty ↦ rw empty (omega arith)
  | inr full ↦
      let ih = length-to_bytes k fuel (n / 256) (div_lt n (256 ^ k) (power_suc n k h)) in
      rw full (omega (arith, ih, length-append (to_bytes fuel (n / 256)) ((n % 256) ∷ [])))
]

to_bytes-IsByte : (fuel n : ℕ) → All IsByte (to_bytes fuel n)
unfolding to_bytes
to_bytes-IsByte zero n = tt
to_bytes-IsByte (suc fuel) n = elim (Bool-cases (n == 0)) [
  | inl empty ↦ rw empty tt
  | inr full ↦ rw full (
      All-append (to_bytes fuel (n / 256)) ((n % 256) ∷ []) (to_bytes-IsByte fuel (n / 256))
        (omega arith, tt))
]

der_len-IsByte : (n : ℕ) → n < 256 ^ 8 → All IsByte (der_len n)
unfolding der_len
der_len-IsByte n h = elim (Bool-cases (ltb n 128)) [
  | inl short ↦ rw short (ground arith, tt)
  | inr long ↦ rw long (omega (arith, length-to_bytes 8 n n h), to_bytes-IsByte n n)
]

read_long :
    (tag : ℕ) (body bs : Bytes)
    → read_der (tag ∷ (128 + length body) ∷ (body ++ bs))
      ≡ some (tag, take (from_bytes 0 body) bs, drop (from_bytes 0 body) bs)
read_long tag body bs =
    let size : 128 + length body - 128 ≡ length body = omega arith in
    rw
      (
        ltb-false (128 + length body) 128 (omega arith),
        size,
        take-append_of_length (length body) body bs refl,
        drop-append_of_length (length body) body bs refl,
      )
      refl

read_der_at :
    (tag : ℕ) (content rest : Bytes)
    → read_der (tag ∷ (der_len (length content) ++ (content ++ rest))) ≡ some (tag, content, rest)
unfolding der_len
read_der_at tag content rest =
    let whole = take-append_of_length (length content) content rest refl in
    let behind = drop-append_of_length (length content) content rest refl in
    elim (Bool-cases (ltb (length content) 128)) [
      | inl short ↦ rw (short, whole, behind, short) refl
      | inr long ↦
          let size = from_bytes-to_bytes (length content) (length content) (omega arith) in
          rw long (
            read_long tag (to_bytes (length content) (length content)) (content ++ rest)
            ∙ rw (size, whole, behind) refl)
    ]

-- An element whose length takes at most eight bytes, whatever follows it: its tag, its length and its
-- content are bytes, if the tag and the content are, and the reader finds the tag, the content and
-- what follows.
pub read_der-der :
    (tag : ℕ) (content rest : Bytes)
    → IsByte tag
    → All IsByte content
    → length content < 256 ^ 8
    → All IsByte (der tag content)
      × (read_der (der tag content ++ rest) ≡ some (tag, content, rest))
unfolding der
read_der-der tag content rest ht hc h = (
  (ht, All-append (der_len (length content)) content (der_len-IsByte (length content) h) hc),
  ap (λ x. read_der (tag ∷ x)) (append_assoc (der_len (length content)) content rest)
      ∙ read_der_at tag content rest,
)
