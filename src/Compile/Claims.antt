-- ===== src/Compile/Claims.antt =====
-- What `_extract_candidates` draws from a log, in src/axm_embodied/compile.py and in frame_compile.py:
-- no key twice, nothing that no line claims, and every claim of every line up to its key.
use axm_embodied.Common.{
  ◌≡◌, refl, sym, ap, subst, ◌∙◌, ◌⊎◌, inl, inr, String, true, false, ◌||◌, List, [], ◌∷◌, ◌++◌,
  map, Bytes, All, Result, ok, Bool-cases, str_eq_iff, arith,
}
use axm_embodied.Common.Decode.{bind_inv}
use axm_embodied.Common.Json.{Fields}
use axm_embodied.Compile.{
  Texts, Candidate, Drawn, nothing_drawn, is_seen, split_lines, key_of, add, add_all, decode_line,
  extract_lines, draw_candidates,
}

abbrev pub Mem : Candidate → List Candidate → Type 0
Mem x [] = ⊥
Mem x (y ∷ ys) = (y ≡ x) ⊎ Mem x ys

abbrev pub AreDistinct : List String → Type 0
AreDistinct [] = Unit {0}
AreDistinct (k ∷ ks) = (is_seen k ks ≡ false) × AreDistinct ks

Mem-append : (x : Candidate) (xs ys : List Candidate) → Mem x (xs ++ ys) → Mem x xs ⊎ Mem x ys
Mem-append x [] ys m = inr m
Mem-append x (z ∷ xs) ys (inl e) = inl (inl e)
Mem-append x (z ∷ xs) ys (inr m) = elim (Mem-append x xs ys m) [
  | inl left ↦ inl (inr left)
  | inr right ↦ inr right
]

is_seen-append :
    (k : String) (xs ys : List String) → is_seen k (xs ++ ys) ≡ (is_seen k xs || is_seen k ys)
is_seen-append k [] ys = refl
is_seen-append k (x ∷ xs) ys = ground (arith, is_seen-append k xs ys)

AreDistinct-snoc :
    (k : String) (ks : List String)
    → AreDistinct ks
    → is_seen k ks ≡ false
    → AreDistinct (ks ++ (k ∷ []))
AreDistinct-snoc k [] d e = (refl, tt)
AreDistinct-snoc k (j ∷ ks) (new, d) e = (
  ground (arith, is_seen-append j ks (k ∷ []), str_eq_iff j k, str_eq_iff k j),
  AreDistinct-snoc k ks d (ground arith),
)

module _ (t : Texts) where
  abbrev pub keys_of : List Candidate → List String
  keys_of cs = map (key_of t) cs

  keys_of-append : (xs ys : List Candidate) → keys_of (xs ++ ys) ≡ keys_of xs ++ keys_of ys
  keys_of-append [] ys = refl
  keys_of-append (x ∷ xs) ys = ap (λ l. key_of t x ∷ l) (keys_of-append xs ys)

  -- The keys that have been seen are those of the candidates, and no two of them agree.
  record IsTidy (s : Drawn) : Type 0 where
    same : (k : String) → is_seen k s.seen ≡ is_seen k (keys_of s.candidates)
    distinct : AreDistinct (keys_of s.candidates)

  -- What has been seen stays so.
  abbrev IsMore : Drawn → Drawn → Type 0
  IsMore s s' = (k : String) → is_seen k s.seen ≡ true → is_seen k s'.seen ≡ true

  add-IsTidy : (c : Candidate) (s : Drawn) → IsTidy s → IsTidy (add t c s)
  unfolding add
  add-IsTidy c s h = elim (Bool-cases (is_seen (key_of t c) s.seen)) [
    | inl old ↦ rw old h
    | inr new ↦
        let keys = keys_of-append s.candidates (c ∷ []) in
        rw new (record {
          same = λ k. ground (
            arith,
            h.same k,
            is_seen-append k (keys_of s.candidates) (key_of t c ∷ []),
            ap (is_seen k) keys,
          );
          distinct = rw keys (
              AreDistinct-snoc (key_of t c) (keys_of s.candidates) h.distinct
                (sym (h.same (key_of t c)) ∙ new));
        })
  ]

  add-IsMore : (c : Candidate) (s : Drawn) → IsMore s (add t c s)
  unfolding add
  add-IsMore c s k old = ground arith

  add_seen : (c : Candidate) (s : Drawn) → is_seen (key_of t c) (add t c s).seen ≡ true
  unfolding add
  add_seen c s = ground (arith, str_eq_iff (key_of t c) (key_of t c))

  add-Mem :
      (d c : Candidate) (s : Drawn) → Mem d (add t c s).candidates → Mem d s.candidates ⊎ (c ≡ d)
  unfolding add
  add-Mem d c s m = elim (Bool-cases (is_seen (key_of t c) s.seen)) [
    | inl old ↦ inl (rw old at m)
    | inr new ↦ elim (Mem-append d s.candidates (c ∷ []) (rw new at m)) [
      | inl before ↦ inl before
      | inr (inl e) ↦ inr e
      | inr (inr none) ↦ absurd none
    ]
  ]

  add_all-IsTidy : (cs : List Candidate) (s : Drawn) → IsTidy s → IsTidy (add_all t cs s)
  unfolding add_all
  add_all-IsTidy [] s h = h
  add_all-IsTidy (c ∷ cs) s h = add_all-IsTidy cs (add t c s) (add-IsTidy c s h)

  add_all-IsMore : (cs : List Candidate) (s : Drawn) → IsMore s (add_all t cs s)
  unfolding add_all
  add_all-IsMore [] s k old = old
  add_all-IsMore (c ∷ cs) s k old = add_all-IsMore cs (add t c s) k (add-IsMore c s k old)

  add_all_seen :
      (cs : List Candidate) (s : Drawn)
      → All (λ c. is_seen (key_of t c) (add_all t cs s).seen ≡ true) cs
  unfolding add_all
  add_all_seen [] s = tt
  add_all_seen (c ∷ cs) s =
      (add_all-IsMore cs (add t c s) (key_of t c) (add_seen c s), add_all_seen cs (add t c s))

  add_all-Mem :
      (d : Candidate) (cs : List Candidate) (s : Drawn)
      → Mem d (add_all t cs s).candidates
      → Mem d s.candidates ⊎ Mem d cs
  unfolding add_all
  add_all-Mem d [] s m = inl m
  add_all-Mem d (c ∷ cs) s m = elim (add_all-Mem d cs (add t c s) m) [
    | inr later ↦ inr (inr later)
    | inl m' ↦ elim (add-Mem d c s m') [ inl before ↦ inl before | inr e ↦ inr (inl e) ]
  ]

  module _ (draw : String → Fields → Result (List Candidate)) where
    -- What a line claims.
    pub record Claims (b : Bytes) (cs : List Candidate) : Type 0 where
      pub text : String
      pub evt : Fields
      pub decoded : decode_line t b ≡ ok (text, evt)
      pub claimed : draw text evt ≡ ok cs

    -- One of the lines claims the candidate.
    abbrev pub HasSource : Candidate → List Bytes → Type 0
    HasSource c [] = ⊥
    HasSource c (b ∷ bs) = ((cs : List Candidate) × Claims b cs × Mem c cs) ⊎ HasSource c bs

    -- All that a line claims is among the keys; an empty line claims nothing.
    abbrev pub IsRepresented : List String → Bytes → Type 0
    IsRepresented keys [] = Unit {0}
    IsRepresented keys (x ∷ xs) =
        (cs : List Candidate) × Claims (x ∷ xs) cs × All (λ c. is_seen (key_of t c) keys ≡ true) cs

    record IsExtracted (bs : List Bytes) (s s' : Drawn) : Type 0 where
      tidy : IsTidy s'
      more : IsMore s s'
      sourced : (c : Candidate) → Mem c s'.candidates → Mem c s.candidates ⊎ HasSource c bs
      represented : All (IsRepresented s'.seen) bs

    All-more :
        (cs : List Candidate) (s s' : Drawn)
        → IsMore s s'
        → All (λ c. is_seen (key_of t c) s.seen ≡ true) cs
        → All (λ c. is_seen (key_of t c) s'.seen ≡ true) cs
    All-more [] s s' more h = tt
    All-more (c ∷ cs) s s' more (hc, h) = (more (key_of t c) hc, All-more cs s s' more h)

    extract_lines-IsExtracted :
        (bs : List Bytes) (s : Drawn) {s' : Drawn}
        → IsTidy s
        → extract_lines t draw bs s ≡ ok s'
        → IsExtracted bs s s'
    unfolding extract_lines
    extract_lines-IsExtracted [] s {s'} h e =
        let same : s ≡ s' = ground arith in
        subst (IsExtracted [] s) same
          (record { tidy = h; more = λ k old. old; sourced = λ c m. inl m; represented = tt })
    extract_lines-IsExtracted ([] ∷ bs) s h e =
        let x = extract_lines-IsExtracted bs s h e in
        record {
          tidy = x.tidy;
          more = x.more;
          sourced =
              λ c m. elim (x.sourced c m) [ inl before ↦ inl before | inr later ↦ inr (inr later) ];
          represented = (tt, x.represented);
        }
    extract_lines-IsExtracted ((b ∷ bs') ∷ bs) s {s'} h e =
        let ((text, evt), decoded, e₁) = bind_inv (decode_line t (b ∷ bs')) _ e in
        let (cs, claimed, e₂) = bind_inv (draw text evt) _ e₁ in
        let x = extract_lines-IsExtracted bs (add_all t cs s) (add_all-IsTidy cs s h) e₂ in
        let line : Claims (b ∷ bs') cs = record {
          text = text;
          evt = evt;
          decoded = decoded;
          claimed = claimed;
        } in
        record {
          tidy = x.tidy;
          more = λ k old. x.more k (add_all-IsMore cs s k old);
          sourced = λ c m. elim (x.sourced c m) [
            | inr later ↦ inr (inr later)
            | inl here ↦ elim (add_all-Mem c cs s here) [
              | inl before ↦ inl before
              | inr mine ↦ inr (inl (cs, line, mine))
            ]
          ];
          represented = (
            (cs, line, All-more cs (add_all t cs s) s' x.more (add_all_seen cs s)),
            x.represented,
          );
        }

    IsRepresented-same :
        (ks js : List String) (bs : List Bytes)
        → ((k : String) → is_seen k ks ≡ is_seen k js)
        → All (IsRepresented ks) bs
        → All (IsRepresented js) bs
    IsRepresented-same ks js [] same h = tt
    IsRepresented-same ks js ([] ∷ bs) same (hb, h) = (tt, IsRepresented-same ks js bs same h)
    IsRepresented-same ks js ((x ∷ xs) ∷ bs) same ((cs, line, hc), h) =
        ((cs, line, All_same cs hc), IsRepresented-same ks js bs same h)
      where
        All_same :
            (cs : List Candidate)
            → All (λ c. is_seen (key_of t c) ks ≡ true) cs
            → All (λ c. is_seen (key_of t c) js ≡ true) cs
        All_same [] h = tt
        All_same (c ∷ cs) (hc, h) = (sym (same (key_of t c)) ∙ hc, All_same cs h)

    -- What is drawn from a log: no two candidates have the same key, each is the claim of a line,
    -- and each claim of each line has its key among them.
    pub record AreDrawn (raw_bytes : Bytes) (cs : List Candidate) : Type 0 where
      pub distinct : AreDistinct (keys_of cs)
      pub sourced : (c : Candidate) → Mem c cs → HasSource c (split_lines raw_bytes)
      pub represented : All (IsRepresented (keys_of cs)) (split_lines raw_bytes)

    pub draw_candidates-AreDrawn :
        (raw_bytes : Bytes) {cs : List Candidate}
        → draw_candidates t draw raw_bytes ≡ ok cs
        → AreDrawn raw_bytes cs
    unfolding draw_candidates
    draw_candidates-AreDrawn raw_bytes e =
        let (s, done, e₁) =
          bind_inv (extract_lines t draw (split_lines raw_bytes) nothing_drawn) _ e in
        let x =
          extract_lines-IsExtracted (split_lines raw_bytes) nothing_drawn
            (record { same = λ k. refl; distinct = tt }) done in
        let same : s.candidates ≡ _ = ground arith in
        subst (AreDrawn raw_bytes) same (record {
          distinct = x.tidy.distinct;
          sourced = λ c m. elim (x.sourced c m) [ inl none ↦ absurd none | inr there ↦ there ];
          represented =
              IsRepresented-same s.seen (keys_of s.candidates) (split_lines raw_bytes) x.tidy.same
                x.represented;
        })
