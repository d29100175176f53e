-- ===== src/Envelope/Load.antt =====
-- What an envelope that has loaded rests on.
use axm_embodied.Common.{
  ◌≡◌, refl, ap, ◌∙◌, ◌⊎◌, inl, inr, String, true, List, [], ◌∷◌, some, Bytes, hex, ok, str_eq,
  str_eq_iff, arith, All, ◌≢◌, subst, subst₂, Bool-cases, Option-cases,
}
use axm_embodied.Common.Decode.{bind_inv, key, key_object, key_text, to_int}
use axm_embodied.Common.Float.{Float}
use axm_embodied.Common.Int.{ℤ, max_ℤ, ◌≤ℤ◌, ≤ℤ_trans, le-max_left, le-max_right}
use axm_embodied.Common.Json.{Json, Fields}
use axm_embodied.Common.Table
use axm_embodied.Common.Table.{Table}
use axm_embodied.Envelope.{
  Shard, Kernel, SafetyEnvelope, Gathered, no_claims, bound_for, bounds_prefix, action_of, label_of,
  read_labels, to_float, read_bound, read_count, read_claim, read_claims, is_bounds_namespace,
  build_envelope, read_envelope, load,
}
use text.Mathlib.Text.{starts_with}

pub Among : Fields → List Fields → Type 0
Among row [] = ⊥
Among row (x ∷ xs) = (row ≡ x) ⊎ Among row xs

-- A row of claims.jsonl that bounds the action class `action` by `bound` at tier `tier`.
pub record IsBoundRow (k : Kernel) (labels : Table String) (row : Fields) (action : String)
    (bound : Float) (tier : ℤ) : Type 0 where
  pub subject : String
  pub subject_eq : key_text "subject" row ≡ ok subject
  pub prefixed : starts_with (label_of labels subject) bounds_prefix ≡ true
  pub action_eq : action_of (label_of labels subject) ≡ action
  pub predicate_eq : key_text "predicate" row ≡ ok "max_latent_delta_linf"
  pub decimal : key_text "object_type" row ≡ ok "literal:decimal"
  pub amount : Json
  pub amount_eq : key "object" row ≡ ok amount
  pub bound_eq : k.parse_float amount ≡ some bound
  pub tier_value : Json
  pub tier_key : key "tier" row ≡ ok tier_value
  pub tier_eq : to_int k.parse_int tier_value ≡ ok tier

module _ (k : Kernel) where
  -- What one claim does to what has been gathered.
  record Bounds (row : Fields) (labels : Table String) (g g' : Gathered) : Type 0 where
    action : String
    bound : Float
    tier : ℤ
    row_eq : IsBoundRow k labels row action bound tier
    bounds_eq : g'.bounds ≡ Table.insert action bound g.bounds
    tier_max : g'.max_tier ≡ max_ℤ g.max_tier tier

  to_float_inv : (v : Json) {x : Float} → to_float k v ≡ ok x → k.parse_float v ≡ some x
  to_float_inv v e = ground arith

  read_bound_inv :
      (labels : Table String) (row : Fields) (g g' : Gathered) (subject : String)
      → key_text "subject" row ≡ ok subject
      → starts_with (label_of labels subject) bounds_prefix ≡ true
      → key_text "predicate" row ≡ ok "max_latent_delta_linf"
      → read_bound k (action_of (label_of labels subject)) row g ≡ ok g'
      → Bounds row labels g g'
  unfolding read_bound
  read_bound_inv labels row g g' subject s p q e =
      let (ot, ot_eq, e₁) = bind_inv (key_text "object_type" row) _ e in
      elim (Bool-cases (str_eq ot "literal:decimal")) [
        | inr other ↦ absurd (ground arith)
        | inl decimal ↦
            let (amount, amount_eq, e₂) = bind_inv (key "object" row) _ (rw decimal at e₁) in
            let (bound, bound_eq, e₃) = bind_inv (to_float k amount) _ e₂ in
            let (value, value_eq, e₄) = bind_inv (key "tier" row) _ e₃ in
            let (tier, tier_eq, e₅) = bind_inv (to_int k.parse_int value) _ e₄ in
            record {
              action = action_of (label_of labels subject);
              bound = bound;
              tier = tier;
              row_eq = record {
                subject = subject;
                subject_eq = s;
                prefixed = p;
                action_eq = refl;
                predicate_eq = q;
                decimal = ot_eq ∙ ap ok ((str_eq_iff ot "literal:decimal").0 decimal);
                amount = amount;
                amount_eq = amount_eq;
                bound_eq = to_float_inv amount bound_eq;
                tier_value = value;
                tier_key = value_eq;
                tier_eq = tier_eq;
              };
              bounds_eq = ground arith;
              tier_max = ground arith;
            }
      ]

  read_count_inv :
      (action : String) (row : Fields) (g g' : Gathered)
      → read_count k action row g ≡ ok g'
      → (g'.bounds ≡ g.bounds) × (g'.max_tier ≡ g.max_tier)
  unfolding read_count
  read_count_inv action row g g' e =
      let (v, v_eq, e₁) = bind_inv (key "object" row) _ e in
      let (n, n_eq, e₂) = bind_inv (to_int k.parse_int v) _ e₁ in (ground arith, ground arith)

  -- Every claim bounds an action class, or leaves the bounds and the tier alone.
  read_claim_inv :
      (labels : Table String) (row : Fields) (g g' : Gathered)
      → read_claim k labels row g ≡ ok g'
      → Bounds row labels g g' ⊎ ((g'.bounds ≡ g.bounds) × (g'.max_tier ≡ g.max_tier))
  unfolding read_claim
  read_claim_inv labels row g g' e =
      let (s, s_eq, e₁) = bind_inv (key_text "subject" row) _ e in
      elim (Bool-cases (starts_with (label_of labels s) bounds_prefix)) [
        | inr other ↦ inr (ground arith, ground arith)
        | inl prefixed ↦
            let (p, p_eq, e₂) = bind_inv (key_text "predicate" row) _ (rw prefixed at e₁) in
            elim (Bool-cases (str_eq p "max_latent_delta_linf")) [
              | inl bound ↦ inl (
                  read_bound_inv labels row g g' s s_eq prefixed
                    (p_eq ∙ ap ok ((str_eq_iff p "max_latent_delta_linf").0 bound))
                    (rw bound at e₂))
              | inr other ↦ elim (Bool-cases (str_eq p "sample_count")) [
                | inl count ↦ inr (
                    read_count_inv (action_of (label_of labels s)) row g g'
                      (rw (other, count) at e₂))
                | inr unknown ↦ inr (ground arith, ground arith)
              ]
            ]
      ]

  -- Where a bound comes from: a bound row among `rows`, at a tier that `max_tier` covers.
  pub record IsSigned (labels : Table String) (rows : List Fields) (max_tier : ℤ) (action : String)
      (bound : Float) : Type 0 where
    pub row : Fields
    pub among : Among row rows
    pub tier : ℤ
    pub bounds : IsBoundRow k labels row action bound tier
    pub covered : tier ≤ℤ max_tier

  abbrev AllSigned : Table String → List Fields → Gathered → Type 0
  AllSigned labels rows g =
      (action : String) (bound : Float)
      → Table.lookup action g.bounds ≡ some bound
      → IsSigned labels rows g.max_tier action bound

  read_claim-AllSigned :
      (labels : Table String) (rows : List Fields) (row : Fields) (g g' : Gathered)
      → AllSigned labels rows g
      → Among row rows
      → read_claim k labels row g ≡ ok g'
      → AllSigned labels rows g'
  read_claim-AllSigned labels rows row g g' h m e action bound l =
      elim (read_claim_inv labels row g g' e) [
        | inr (same, tier) ↦ rw tier (h action bound (rw same at l))
        | inl b ↦ elim (Bool-cases (str_eq b.action action)) [
          | inl hit ↦
              let same : b.action ≡ action = (str_eq_iff b.action action).0 hit in
              let value : b.bound ≡ bound =
                ground (arith, Table.lookup-insert b.action action b.bound g.bounds, b.bounds_eq) in
              record {
                row = row;
                among = m;
                tier = b.tier;
                bounds = subst₂ (λ a x. IsBoundRow k labels row a x b.tier) same value b.row_eq;
                covered = rw b.tier_max (le-max_right g.max_tier b.tier);
              }
          | inr other ↦
              let old = h action bound (
                ground
                  (arith, Table.lookup-insert b.action action b.bound g.bounds, b.bounds_eq)) in
              record {
                row = old.row;
                among = old.among;
                tier = old.tier;
                bounds = old.bounds;
                covered =
                    rw b.tier_max
                      (≤ℤ_trans old.tier g.max_tier _ old.covered (le-max_left g.max_tier b.tier));
              }
        ]
      ]

  read_claims-AllSigned :
      (labels : Table String) (rows rest : List Fields) (g g' : Gathered)
      → AllSigned labels rows g
      → All (λ row. Among row rows) rest
      → read_claims k labels rest g ≡ ok g'
      → AllSigned labels rows g'
  unfolding read_claims
  read_claims-AllSigned labels rows [] g g' h m e =
      let same : g ≡ g' = ground arith in subst (AllSigned labels rows) same h
  read_claims-AllSigned labels rows (row ∷ rest) g g' h (m, ms) e =
      let (g₁, e₁, e₂) = bind_inv (read_claim k labels row g) _ e in
      read_claims-AllSigned labels rows rest g₁ g'
        (read_claim-AllSigned labels rows row g g₁ h m e₁) ms e₂

  -- What `load` has seen of the shard of an envelope that it returns.
  pub record IsLoaded (shard : Shard) (env : SafetyEnvelope) : Type 0 where
    pub pub_bytes : Bytes
    pub pub_eq : shard.publisher_pub ≡ some pub_bytes
    pub fingerprint_eq : env.publisher_fingerprint ≡ hex (k.sha256 pub_bytes)
    pub shard_id_eq : env.shard_id ≡ hex (k.blake3 shard.manifest_bytes)
    pub labels : Table String
    pub labels_eq : read_labels shard.entities [] ≡ ok labels
    pub nonempty : env.bounds ≢ []
    pub signed :
        (action : String) (bound : Float)
        → bound_for env action ≡ some bound
        → IsSigned labels shard.claims env.max_tier action bound

  build_envelope_inv :
      (shard : Shard) (pub_bytes : Bytes) (g : Gathered) (bs : Table Float) (env : SafetyEnvelope)
      → g.bounds ≡ bs
      → build_envelope k shard pub_bytes g bs ≡ ok env
      → (env.bounds ≢ [])
        × (env.bounds ≡ g.bounds)
        × (env.max_tier ≡ g.max_tier)
        × (env.publisher_fingerprint ≡ hex (k.sha256 pub_bytes))
        × (env.shard_id ≡ hex (k.blake3 shard.manifest_bytes))
  unfolding build_envelope
  build_envelope_inv shard pub_bytes g [] env b e = cc
  build_envelope_inv shard pub_bytes g (x ∷ xs) env b e =
      let (d, d_eq, e₁) = bind_inv (key_object "publisher" shard.manifest) _ e in
      let (id, id_eq, e₂) = bind_inv (key_text "id" d) _ e₁ in
      ((λ none_left. cc), ground arith, ground arith, ground arith, ground arith)

  All-Among :
      (rows rest : List Fields)
      → ((row : Fields) → Among row rest → Among row rows)
      → All (λ row. Among row rows) rest
  unfolding Among
  All-Among rows [] h = tt
  All-Among rows (x ∷ rest) h = (h x (inl refl), All-Among rows rest (λ row m. h row (inr m)))

  read_envelope-IsLoaded :
      (shard : Shard) (pub_bytes : Bytes) (env : SafetyEnvelope)
      → shard.publisher_pub ≡ some pub_bytes
      → read_envelope k shard pub_bytes ≡ ok env
      → IsLoaded shard env
  unfolding read_envelope
  read_envelope-IsLoaded shard pub_bytes env p e =
      let (metadata, m_eq, e₁) = bind_inv (key_object "metadata" shard.manifest) _ e in
      elim (Bool-cases (is_bounds_namespace k metadata)) [
        | inr other ↦ absurd (ground arith)
        | inl namespace ↦
            let (labels, l_eq, e₂) =
              bind_inv (read_labels shard.entities []) _ (rw namespace at e₁) in
            let (g, g_eq, e₃) = bind_inv (read_claims k labels shard.claims no_claims) _ e₂ in
            let (nonempty, bounds, tier, fingerprint, id) =
              build_envelope_inv shard pub_bytes g g.bounds env refl e₃ in
            let all : AllSigned labels shard.claims g =
              read_claims-AllSigned labels shard.claims shard.claims no_claims g (λ a x l. cc)
                (All-Among shard.claims shard.claims (λ row m. m)) g_eq in
            record {
              pub_bytes = pub_bytes;
              pub_eq = p;
              fingerprint_eq = fingerprint;
              shard_id_eq = id;
              labels = labels;
              labels_eq = l_eq;
              nonempty = nonempty;
              signed = λ a x l. rw tier (all a x (rw bounds at l));
            }
      ]

  -- An envelope comes only from a shard that the kernel verifies against the given key. Each of
  -- its bounds is the decimal of a bound claim of that shard, at a tier that `max_tier` covers.
  pub load-IsLoaded :
      (shard : Shard) (trusted_key : Bytes) (env : SafetyEnvelope)
      → load k shard trusted_key ≡ ok env
      → (k.verify_shard shard trusted_key ≡ true) × IsLoaded shard env
  unfolding load
  load-IsLoaded shard trusted_key env e = elim (Bool-cases (k.verify_shard shard trusted_key)) [
    | inr refused ↦ absurd (ground arith)
    | inl passed ↦ elim (Option-cases shard.publisher_pub) [
      | inl missing ↦ absurd (ground arith)
      | inr (pub_bytes, p) ↦
          (passed, read_envelope-IsLoaded shard pub_bytes env p (rw (passed, p) at e))
    ]
  ]
