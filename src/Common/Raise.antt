-- ===== src/Common/Raise.antt =====
-- A method call: it returns or raises, and what it changed before a raise stays changed.
use mathlib.Core.Bool.{Bool}
use mathlib.Core.Logic.{◌⊎◌, inl, inr}
use mathlib.Core.Path.{◌≡◌, refl}
use mathlib.Core.Option.{Option, none, some}
use axm_embodied.Common.Tests.{if◌then◌else◌}

-- One constructor for each `raise` of the modelled code, and for those of the library calls in it.
pub data Error : Type 0 where
  recorder_closed closed_file latent_length frame_type frame_size trigger_reason : Error
  struct_range buffer_size : Error
  resid_version resid_size latent_file latent_status : Error
  key_missing bad_int bad_text bad_float seek_negative no_file : Error
  envelope_rejected envelope_namespace envelope_object_type envelope_empty : Error
  gate_trust_store gate_publishers gate_publisher_key gate_anchors gate_not_enrolled : Error
  gate_envelope gate_tier : Error
  frame_file frame_header frame_magic frame_version frame_limit frame_order : Error
  frame_torn frame_hash frame_chain : Error
  log_absent log_ref log_hash log_chain log_missing : Error
  bad_json no_object no_events digest_size entry_inconsistent no_candidates no_deltas capture_tier
        kernel_rejected :
      Error
  -- No Python exception: the fuel of a loop ran out.
  out_of_fuel : Error

pub data Result {ℓ} (A : Type ℓ) : Type ℓ where
  ok : A → Result A
  err : Error → Result A

pub Result-cases {ℓ} :
    {A : Type ℓ} (r : Result A) → ((a : A) × (r ≡ ok a)) ⊎ ((e : Error) × (r ≡ err e))
Result-cases (ok a) = inl (a, refl)
Result-cases (err e) = inr (e, refl)

abbrev pub Action : Type 0 → Type 0 → Type 0
Action S A = S → Result A × S

module _ {S A : Type 0} where
  abbrev pub pure : A → Action S A
  pure a s = (ok a, s)

  abbrev pub raise : Error → Action S A
  raise e s = (err e, s)

  abbrev pub gets : (S → A) → Action S A
  gets f s = (ok (f s), s)

  abbrev pub or_raise : Option A → Error → Action S A
  or_raise none e = raise e
  or_raise (some a) e = pure a

infixl 5 ◌>>=◌ ◌>>◌
abbrev pub ◌>>=◌ : {S A B : Type 0} → Action S A → (A → Action S B) → Action S B
◌>>=◌ m f s = let (r, s') = m s in elim r [ ok a ↦ f a s' | err e ↦ raise e s' ]

abbrev pub ◌>>◌ : {S A B : Type 0} → Action S A → Action S B → Action S B
m >> k = m >>= λ _. k

module _ {S : Type 0} where
  abbrev pub raise_if : Bool → Error → Action S (Unit {0})
  raise_if c e s = (if c then err e else ok tt, s)

  abbrev pub modify : (S → S) → Action S (Unit {0})
  modify f s = (ok tt, f s)

  -- A method of an attribute: `get` reads the attribute, and `put` stores it back.
  abbrev pub within : {T A : Type 0} → (S → T) → (T → S → S) → Action T A → Action S A
  within get put m s = let (r, t) = m (get s) in (r, put t s)
