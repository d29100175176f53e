-- ===== src/Compile/Breach.antt =====
-- The breach claims of src/axm_embodied/compile.py: each breach event of a log is claimed with the
-- reference to its envelope, and no other claim has a reference.
use axm_embodied.Common.{
  ◌≡◌, refl, subst, subst₂, ◌⊎◌, inl, inr, String, true, false, List, [], ◌∷◌, ◌++◌, Option, some,
  Bytes, All, ok, Bool-cases, Option-cases, str_eq, str_eq_iff, arith, ◌&&◌,
}
use axm_embodied.Common.Decode.{bind_inv, key}
use axm_embodied.Common.Json
use axm_embodied.Common.Json.{Json, string, Fields, field, end}
use axm_embodied.Compile.{
  Texts, Candidate, has, is_evt, is_number, get_or, envelope_ref, split_lines, key_of, is_seen,
  as_object, slip_claims, recovery_claims, number_claims, breach_claim, breach_claims,
  considered_claims, action_claims, kind_claims, event_claims, decode_line, extract_candidates,
}
use axm_embodied.Compile.Claims.{Mem, HasSource, IsRepresented, keys_of, draw_candidates-AreDrawn}

-- A claim of a line: it has the line as its evidence, and a reference only if it is of a breach.
abbrev pub IsOwn : Option Bytes → String → Candidate → Type 0
IsOwn envelope text c =
    (c.evidence ≡ text)
    × ((c.references ≡ [])
        ⊎ ((c.predicate ≡ "breached_envelope") × (c.references ≡ envelope_ref envelope)))

All-append :
    (envelope : Option Bytes) (text : String) (xs ys : List Candidate)
    → All (IsOwn envelope text) xs
    → All (IsOwn envelope text) ys
    → All (IsOwn envelope text) (xs ++ ys)
All-append envelope text [] ys hx hy = hy
All-append envelope text (x ∷ xs) ys (h, hx) hy = (h, All-append envelope text xs ys hx hy)

All-Mem :
    (envelope : Option Bytes) (text : String) (c : Candidate) (xs : List Candidate)
    → All (IsOwn envelope text) xs
    → Mem c xs
    → IsOwn envelope text c
All-Mem envelope text c [] h m = absurd m
All-Mem envelope text c (x ∷ xs) (h, hx) (inl e) = subst (IsOwn envelope text) e h
All-Mem envelope text c (x ∷ xs) (h, hx) (inr m) = All-Mem envelope text c xs hx m

is_evt_other :
    (a b : String) (evt : Fields) → str_eq a b ≡ false → is_evt a evt ≡ true → is_evt b evt ≡ false
is_evt_other a b evt ne h = elim (Option-cases (Json.lookup "evt" evt)) [
  | inl missing ↦ ground arith
  | inr (v, there) ↦ other v there
]
  where
    other : (v : Json) → Json.lookup "evt" evt ≡ some v → is_evt b evt ≡ false
    other (string s) there = ground (arith, str_eq_iff s a, str_eq_iff s b, str_eq_iff a b)
    other v there = ground arith

module _ (t : Texts) (envelope : Option Bytes) (text : String) where
  -- The claims that a part of an event returned.
  IsOwn-of :
      (made : List Candidate) {cs : List Candidate}
      → All (IsOwn envelope text) made
      → ok made ≡ ok cs
      → All (IsOwn envelope text) cs
  IsOwn-of made {cs} h e =
      let same : made ≡ cs = ground arith in subst (All (IsOwn envelope text)) same h

  slip-IsOwn :
      (robot : Json) (evt : Fields) {cs : List Candidate}
      → slip_claims t robot text evt ≡ ok cs
      → All (IsOwn envelope text) cs
  slip-IsOwn robot evt e = elim (Option-cases (Json.lookup "surface" evt)) [
    | inl missing ↦ IsOwn-of _ ((refl, inl refl), tt) (rw missing at e)
    | inr (v, there) ↦ IsOwn-of _ ((refl, inl refl), ((refl, inl refl), tt)) (rw there at e)
  ]

  recovery-IsOwn :
      (evt : Fields) {cs : List Candidate}
      → recovery_claims t text evt ≡ ok cs
      → All (IsOwn envelope text) cs
  recovery-IsOwn evt e =
      let (action, a, e₁) = bind_inv (key "action" evt) _ e in
      let (value, v, e₂) = bind_inv (key "value" evt) _ e₁ in
      IsOwn-of _ ((refl, inl refl), ((refl, inl refl), tt)) e₂

  number-IsOwn :
      (name pred : String) (evt : Fields) {cs : List Candidate}
      → number_claims t name pred text evt ≡ ok cs
      → All (IsOwn envelope text) cs
  number-IsOwn name pred evt e = elim (Option-cases (Json.lookup name evt)) [
    | inl missing ↦ IsOwn-of [] tt (rw (number_claims, missing) at e)
    | inr (v, there) ↦ elim (Bool-cases (is_number v)) [
      | inr other ↦ IsOwn-of [] tt (rw (number_claims, there, other) at e)
      | inl num ↦
          let (fid, f, e₁) =
            bind_inv (key "frame_id" evt) _ (rw (number_claims, there, num) at e) in
          IsOwn-of _ ((refl, inl refl), tt) e₁
    ]
  ]

  -- A breach event: all of its claims are its own, and the breach is among them.
  breach-IsOwn :
      (robot : Json) (evt : Fields) {cs : List Candidate}
      → breach_claims t envelope robot text evt ≡ ok cs
      → All (IsOwn envelope text) cs × Mem (breach_claim t envelope robot text evt) cs
  breach-IsOwn robot evt {cs} e =
      let (norm, n, e₁) = bind_inv (number_claims t "l_inf" "observed_l_inf" text evt) _ e in
      let (bound, b, e₂) = bind_inv (number_claims t "bound" "envelope_bound" text evt) _ e₁ in
      let made = breach_claim t envelope robot text evt ∷ norm ++ bound in
      let same : made ≡ cs = ground arith in
      (
        IsOwn-of made
            (
              (refl, inr (refl, refl)),
              All-append envelope text norm bound (number-IsOwn "l_inf" "observed_l_inf" evt n)
                  (number-IsOwn "bound" "envelope_bound" evt b),
            )
            e₂,
        subst (Mem (breach_claim t envelope robot text evt)) same (inl refl),
      )

  considered-IsOwn :
      (robot : Json) (weights : Fields)
      → All (IsOwn envelope text) (considered_claims t robot text weights)
  considered-IsOwn robot end = tt
  considered-IsOwn robot (field action conf d) = ((refl, inl refl), considered-IsOwn robot d)

  action-IsOwn :
      (robot : Json) (evt : Fields) {cs : List Candidate}
      → action_claims t robot text evt ≡ ok cs
      → All (IsOwn envelope text) cs
  unfolding action_claims
  action-IsOwn robot evt e =
      elim (Bool-cases (has "selected_action" evt && has "action_distribution" evt)) [
        | inr neither ↦ IsOwn-of [] tt (rw neither at e)
        | inl both ↦
            let (selected, s, e₁) = bind_inv (key "selected_action" evt) _ (rw both at e) in
            let (dist, d, e₂) = bind_inv (key "action_distribution" evt) _ e₁ in
            let (weights, w, e₃) = bind_inv (as_object dist) _ e₂ in
            IsOwn-of _ ((refl, inl refl), considered-IsOwn robot weights) e₃
      ]

  kind_breach :
      (robot : Json) (evt : Fields)
      → is_evt "envelope_breach" evt ≡ true
      → kind_claims t envelope robot text evt ≡ breach_claims t envelope robot text evt
  unfolding kind_claims
  kind_breach robot evt h =
      rw
        (
          is_evt_other "envelope_breach" "wheel_slip" evt refl h,
          is_evt_other "envelope_breach" "recovery_action" evt refl h,
          is_evt_other "envelope_breach" "emergency_stop" evt refl h,
          h,
        )
        refl

  kind-IsOwn :
      (robot : Json) (evt : Fields) {cs : List Candidate}
      → kind_claims t envelope robot text evt ≡ ok cs
      → All (IsOwn envelope text) cs
  unfolding kind_claims
  kind-IsOwn robot evt e = elim (Bool-cases (is_evt "wheel_slip" evt)) [
    | inl slip ↦ slip-IsOwn robot evt (rw slip at e)
    | inr no_slip ↦ elim (Bool-cases (is_evt "recovery_action" evt)) [
      | inl recovery ↦ recovery-IsOwn evt (rw (no_slip, recovery) at e)
      | inr no_recovery ↦ elim (Bool-cases (is_evt "emergency_stop" evt)) [
        | inl stopped ↦ IsOwn-of _ ((refl, inl refl), tt) (rw (no_slip, no_recovery, stopped) at e)
        | inr moving ↦ elim (Bool-cases (is_evt "envelope_breach" evt)) [
          | inl breach ↦ (breach-IsOwn robot evt (rw (no_slip, no_recovery, moving, breach) at e)).0
          | inr other ↦ IsOwn-of [] tt (rw (no_slip, no_recovery, moving, other) at e)
        ]
      ]
    ]
  ]

  pub event_claims-IsOwn :
      (evt : Fields) {cs : List Candidate}
      → event_claims t envelope text evt ≡ ok cs
      → All (IsOwn envelope text) cs
  unfolding event_claims
  event_claims-IsOwn evt e =
      let robot = get_or "robot_id" (string "robot-001") evt in
      let (first, f, e₁) = bind_inv (kind_claims t envelope robot text evt) _ e in
      let (rest, r, e₂) = bind_inv (action_claims t robot text evt) _ e₁ in
      IsOwn-of (first ++ rest)
        (All-append envelope text first rest (kind-IsOwn robot evt f) (action-IsOwn robot evt r)) e₂

  Mem-left : (c : Candidate) (xs ys : List Candidate) → Mem c xs → Mem c (xs ++ ys)
  Mem-left c [] ys m = absurd m
  Mem-left c (x ∷ xs) ys (inl e) = inl e
  Mem-left c (x ∷ xs) ys (inr m) = inr (Mem-left c xs ys m)

  -- The claim of a breach event.
  abbrev pub breach_of : Fields → Candidate
  breach_of evt = breach_claim t envelope (get_or "robot_id" (string "robot-001") evt) text evt

  pub event_claims_breach :
      (evt : Fields) {cs : List Candidate}
      → is_evt "envelope_breach" evt ≡ true
      → event_claims t envelope text evt ≡ ok cs
      → Mem (breach_of evt) cs
  unfolding event_claims
  event_claims_breach evt {cs} h e =
      let robot = get_or "robot_id" (string "robot-001") evt in
      let (first, f, e₁) = bind_inv (kind_claims t envelope robot text evt) _ e in
      let (rest, r, e₂) = bind_inv (action_claims t robot text evt) _ e₁ in
      let same : first ++ rest ≡ cs = ground arith in
      let (own, there) = breach-IsOwn robot evt (rw (kind_breach robot evt h) at f) in
      subst (Mem (breach_of evt)) same (Mem-left (breach_of evt) first rest there)

module _ (t : Texts) (envelope : Option Bytes) where
  All-seen :
      (keys : List String) (c : Candidate) (cs : List Candidate)
      → All (λ d. is_seen (key_of t d) keys ≡ true) cs
      → Mem c cs
      → is_seen (key_of t c) keys ≡ true
  All-seen keys c [] h m = absurd m
  All-seen keys c (d ∷ ds) (hd, h) (inl e) = subst (λ x. is_seen (key_of t x) keys ≡ true) e hd
  All-seen keys c (d ∷ ds) (hd, h) (inr m) = All-seen keys c ds h m

  -- If the line is a breach event, its claim is among the keys.
  abbrev pub IsCited : List String → Bytes → Type 0
  IsCited keys [] = Unit {0}
  IsCited keys (x ∷ xs) =
      (text : String) (evt : Fields)
      → decode_line t (x ∷ xs) ≡ ok (text, evt)
      → is_evt "envelope_breach" evt ≡ true
      → is_seen (key_of t (breach_of t envelope text evt)) keys ≡ true

  -- The line claims the candidate: the event that it decodes to does, the text that it decodes to
  -- is the evidence, and there is a reference only if it is the claim of a breach.
  pub record IsClaimedBy (b : Bytes) (c : Candidate) : Type 0 where
    pub text : String
    pub evt : Fields
    pub decoded : decode_line t b ≡ ok (text, evt)
    pub cs : List Candidate
    pub claimed : event_claims t envelope text evt ≡ ok cs
    pub among : Mem c cs
    pub own : IsOwn envelope text c

  -- One of the lines claims the candidate.
  abbrev pub IsWitnessed : List Bytes → Candidate → Type 0
  IsWitnessed [] c = ⊥
  IsWitnessed (b ∷ bs) c = IsClaimedBy b c ⊎ IsWitnessed bs c

  source-IsWitnessed :
      (c : Candidate) (bs : List Bytes)
      → HasSource t (event_claims t envelope) c bs
      → IsWitnessed bs c
  source-IsWitnessed c [] nowhere = absurd nowhere
  source-IsWitnessed c (b ∷ bs) (inr later) = inr (source-IsWitnessed c bs later)
  source-IsWitnessed c (b ∷ bs) (inl (cs, line, m)) = inl (record {
    text = line.text;
    evt = line.evt;
    decoded = line.decoded;
    cs = cs;
    claimed = line.claimed;
    among = m;
    own =
        All-Mem envelope line.text c cs
          (event_claims-IsOwn t envelope line.text line.evt line.claimed) m;
  })

  represented-IsCited :
      (keys : List String) (b : Bytes)
      → IsRepresented t (event_claims t envelope) keys b
      → IsCited keys b
  represented-IsCited keys [] h = tt
  represented-IsCited keys (x ∷ xs) (cs, line, h) = λ text evt d breach.
      let same : (line.text ≡ text) × (line.evt ≡ evt) = ground (arith, line.decoded) in
      let m = event_claims_breach t envelope line.text line.evt (rw (same.1) breach) line.claimed in
      subst (λ c. is_seen (key_of t c) keys ≡ true)
        (subst₂ (λ x d. breach_of t envelope line.text line.evt ≡ breach_of t envelope x d) (same.0)
          (same.1) refl)
        (All-seen keys (breach_of t envelope line.text line.evt) cs h m)

  All-IsCited :
      (keys : List String) (bs : List Bytes)
      → All (IsRepresented t (event_claims t envelope) keys) bs
      → All (IsCited keys) bs
  All-IsCited keys [] h = tt
  All-IsCited keys (b ∷ bs) (hb, h) = (represented-IsCited keys b hb, All-IsCited keys bs h)

  -- The candidates of a log: each is claimed by the event of a line, with the text of that line as
  -- its evidence, and has a reference only if it is the claim of a breach, and then the one to the
  -- envelope; and each breach event of the log has the key of its claim among them.
  pub extract_candidates_cites :
      (raw_bytes : Bytes) {cs : List Candidate}
      → extract_candidates t envelope raw_bytes ≡ ok cs
      → ((c : Candidate) → Mem c cs → IsWitnessed (split_lines raw_bytes) c)
        × All (IsCited (keys_of t cs)) (split_lines raw_bytes)
  extract_candidates_cites raw_bytes {cs} e =
      let drawn = draw_candidates-AreDrawn t (event_claims t envelope) raw_bytes e in
      (
        λ c m. source-IsWitnessed c (split_lines raw_bytes) (drawn.sourced c m),
        All-IsCited (keys_of t cs) (split_lines raw_bytes) drawn.represented,
      )
