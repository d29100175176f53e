-- ===== src/Common/Lists.antt =====
-- Lists measured and cut by native numbers, under the library's names.
use Prim.Native.Nat.{ℕ, zero, suc, ◌+◌, ◌-◌, ◌≤◌, min}
use mathlib.Core.Path.{◌≡◌, refl, ap}
use mathlib.Core.List.{List, [], ◌∷◌, ◌++◌, append_assoc}
use mathlib.Core.Option.{Option, none, some}
use native.Mathlib.Omega.{arith}

module _ {ℓ} {A : Type ℓ} where
  abbrev pub length : List A → ℕ
  length [] = 0
  length (x ∷ xs) = suc (length xs)

  abbrev pub get_elem? : List A → ℕ → Option A
  get_elem? [] i = none
  get_elem? (x ∷ xs) zero = some x
  get_elem? (x ∷ xs) (suc i) = get_elem? xs i

  abbrev pub take : ℕ → List A → List A
  take zero xs = []
  take (suc n) [] = []
  take (suc n) (x ∷ xs) = x ∷ take n xs

  abbrev pub drop : ℕ → List A → List A
  drop zero xs = xs
  drop (suc n) [] = []
  drop (suc n) (x ∷ xs) = drop n xs

  abbrev pub replicate : ℕ → A → List A
  replicate zero a = []
  replicate (suc n) a = a ∷ replicate n a

  abbrev pub All {κ} : (A → Type κ) → List A → Type κ
  All P [] = Unit {κ}
  All P (x ∷ xs) = P x × All P xs

  pub length-append : (xs ys : List A) → length (xs ++ ys) ≡ length xs + length ys
  length-append [] ys = omega arith
  length-append (x ∷ xs) ys = omega (arith, length-append xs ys)

  pub length-take : (n : ℕ) (xs : List A) → length (take n xs) ≡ min n (length xs)
  length-take zero xs = omega arith
  length-take (suc n) [] = omega arith
  length-take (suc n) (x ∷ xs) = omega (arith, length-take n xs)

  pub length-drop : (n : ℕ) (xs : List A) → length (drop n xs) ≡ length xs - n
  length-drop zero xs = omega arith
  length-drop (suc n) [] = omega arith
  length-drop (suc n) (x ∷ xs) = omega (arith, length-drop n xs)

  pub take-append-drop : (n : ℕ) (xs : List A) → take n xs ++ drop n xs ≡ xs
  take-append-drop zero xs = refl
  take-append-drop (suc n) [] = refl
  take-append-drop (suc n) (x ∷ xs) = rw (take-append-drop n xs)

  pub length-replicate : (n : ℕ) (a : A) → length (replicate n a) ≡ n
  length-replicate zero a = refl
  length-replicate (suc n) a = ap suc (length-replicate n a)

module _ {ℓ} {A : Type ℓ} where
  -- A prefix whose length is known is cut off exactly.
  pub take-append_of_length : (n : ℕ) (xs ys : List A) → length xs ≡ n → take n (xs ++ ys) ≡ xs
  take-append_of_length zero [] ys h = refl
  take-append_of_length zero (x ∷ xs) ys h = absurd (omega arith)
  take-append_of_length (suc n) [] ys h = absurd (omega arith)
  take-append_of_length (suc n) (x ∷ xs) ys h = rw (take-append_of_length n xs ys (omega arith))

  pub drop-append_of_length : (n : ℕ) (xs ys : List A) → length xs ≡ n → drop n (xs ++ ys) ≡ ys
  drop-append_of_length zero [] ys h = refl
  drop-append_of_length zero (x ∷ xs) ys h = absurd (omega arith)
  drop-append_of_length (suc n) [] ys h = absurd (omega arith)
  drop-append_of_length (suc n) (x ∷ xs) ys h = drop-append_of_length n xs ys (omega arith)

  pub drop-nil : (n : ℕ) → drop {A = A} n [] ≡ []
  drop-nil zero = refl
  drop-nil (suc n) = refl

  pub drop-drop : (m n k : ℕ) (xs : List A) → m + n ≡ k → drop n (drop m xs) ≡ drop k xs
  drop-drop zero n k xs e = let e' : n ≡ k = omega arith in rw e'
  drop-drop (suc m) n zero xs e = absurd (omega arith)
  drop-drop (suc m) n (suc k) [] e = drop-nil n
  drop-drop (suc m) n (suc k) (x ∷ xs) e = drop-drop m n k xs (omega arith)

  pub take-le : (n : ℕ) (xs : List A) → length xs ≤ n → take n xs ≡ xs
  take-le zero [] h = refl
  take-le zero (x ∷ xs) h = absurd (omega arith)
  take-le (suc n) [] h = refl
  take-le (suc n) (x ∷ xs) h = rw (take-le n xs (omega arith))

  pub drop-le : (n : ℕ) (xs : List A) → length xs ≤ n → drop n xs ≡ []
  drop-le zero [] h = refl
  drop-le zero (x ∷ xs) h = absurd (omega arith)
  drop-le (suc n) [] h = refl
  drop-le (suc n) (x ∷ xs) h = drop-le n xs (omega arith)

  pub drop-append_le :
      (n : ℕ) (xs ys : List A) → n ≤ length xs → drop n (xs ++ ys) ≡ drop n xs ++ ys
  drop-append_le zero xs ys h = refl
  drop-append_le (suc n) [] ys h = absurd (omega arith)
  drop-append_le (suc n) (x ∷ xs) ys h = drop-append_le n xs ys (omega arith)

  abbrev pub concat : List (List A) → List A
  concat [] = []
  concat (x ∷ xs) = x ++ concat xs

  pub concat-append : (xs ys : List (List A)) → concat (xs ++ ys) ≡ concat xs ++ concat ys
  concat-append [] ys = refl
  concat-append (x ∷ xs) ys = rw (concat-append xs ys, append_assoc x (concat xs) (concat ys))

  pub take-nil : (n : ℕ) → take {A = A} n [] ≡ []
  take-nil zero = refl
  take-nil (suc n) = refl

  pub length-zero : (xs : List A) → length xs ≡ 0 → xs ≡ []
  length-zero [] h = refl
  length-zero (x ∷ xs) h = absurd (omega arith)

  -- A long prefix is a short one and a prefix of what follows.
  pub take-drop-add :
      (m n k : ℕ) (xs : List A) → m + n ≡ k → take m xs ++ take n (drop m xs) ≡ take k xs
  take-drop-add zero n k xs e = let e' : n ≡ k = omega arith in rw e'
  take-drop-add (suc m) n zero xs e = absurd (omega arith)
  take-drop-add (suc m) n (suc k) [] e = take-nil n
  take-drop-add (suc m) n (suc k) (x ∷ xs) e = rw (take-drop-add m n k xs (omega arith))

  pub take-length-take : (n : ℕ) (xs : List A) → take (length (take n xs)) xs ≡ take n xs
  take-length-take zero xs = refl
  take-length-take (suc n) [] = refl
  take-length-take (suc n) (x ∷ xs) = rw (take-length-take n xs)

  pub take-append_of_ge :
      (n k : ℕ) (xs ys : List A) → length xs + k ≡ n → take n (xs ++ ys) ≡ xs ++ take k ys
  take-append_of_ge n k [] ys h = let e : k ≡ n = omega arith in rw e
  take-append_of_ge zero k (x ∷ xs) ys h = absurd (omega arith)
  take-append_of_ge (suc n) k (x ∷ xs) ys h = rw (take-append_of_ge n k xs ys (omega arith))
