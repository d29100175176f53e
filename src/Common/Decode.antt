-- ===== src/Common/Decode.antt =====
-- Reading values out of decoded JSON: each access returns or raises.
use axm_embodied.Common.Int.{ℤ, int_of}
use axm_embodied.Common.Json
use axm_embodied.Common.Json.{Json, object, string, Fields}
use axm_embodied.Common.Raise.{Result, ok, err, key_missing, bad_int, bad_text}
use Prim.Native.String.{String}
use mathlib.Core.Path.{◌≡◌, refl}
use mathlib.Core.Option.{Option, none, some}

-- What follows a call that may raise.
infixl 5 ◌>>=◌
abbrev pub ◌>>=◌ {ℓ κ} : {A : Type ℓ} {B : Type κ} → Result A → (A → Result B) → Result B
err e >>= next = err e
ok result >>= next = next result

infixl 5 ◌>>◌
abbrev pub ◌>>◌ {ℓ κ} : {A : Type ℓ} {B : Type κ} → Result A → Result B → Result B
first >> second = first >>= λ result. second

-- A chain that returned: its first call did, and the rest of it from there.
pub bind_inv :
    {A B : Type 0} (first : Result A) (next : A → Result B) {result : B}
    → (first >>= next) ≡ ok result
    → (value : A) × (first ≡ ok value) × (next value ≡ ok result)
bind_inv (err e) next went = cc
bind_inv (ok value) next went = (value, refl, went)

-- `d[k]`
abbrev pub key : String → Fields → Result Json
key k d = elim (Json.lookup k d) [ none ↦ err key_missing | some v ↦ ok v ]

-- `d[k]` where an object is expected
abbrev pub key_object : String → Fields → Result Fields
key_object k d = elim (Json.lookup k d) [
  | none ↦ err key_missing
  | some (object e) ↦ ok e
  | some v ↦ err key_missing
]

-- `d[k]` where a text is expected
abbrev pub key_text : String → Fields → Result String
key_text k d = elim (Json.lookup k d) [
  | none ↦ err key_missing
  | some (string s) ↦ ok s
  | some v ↦ err bad_text
]

-- `int(v)`
abbrev pub to_int : (String → Option ℤ) → Json → Result ℤ
to_int parse_int v = elim (int_of parse_int v) [ none ↦ err bad_int | some n ↦ ok n ]
