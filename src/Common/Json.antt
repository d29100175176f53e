-- ===== src/Common/Json.antt =====
-- JSON values as Python holds them: `dict`s keep the order of insertion and their keys are texts.
use mathlib.Core.Path.{◌≡◌, refl}
use mathlib.Core.Bool.{Bool}
use mathlib.Core.Option.{Option, none, some}
use Prim.Native.Nat.{ℕ}
use Prim.Native.String.{String}
use text.Mathlib.Text.{◌==◌}
use text.Mathlib.TextEquality.{eq_iff}
use text.Mathlib.TextPositions.{eq_refl}
use native.Mathlib.Omega.{arith}
use axm_embodied.Common.Tests.{if◌then◌else◌}
use axm_embodied.Common.Float.{Float}

mutual
  pub data Json : Type 0 where
    null : Json
    boolean : Bool → Json
    integer : ℕ → Json
    -- `negative n` is -(n + 1).
    negative : ℕ → Json
    number : Float → Json
    string : String → Json
    array : Items → Json
    object : Fields → Json

  pub data Items : Type 0 where
    nil : Items
    cons : Json → Items → Items

  pub data Fields : Type 0 where
    end : Fields
    field : String → Json → Fields → Fields

-- `d.get(key)`
abbrev pub lookup : String → Fields → Option Json
lookup key end = none
lookup key (field k v d) = if k == key then some v else lookup key d

-- `d[key] = value`
abbrev pub insert : String → Json → Fields → Fields
insert key value end = field key value end
insert key value (field k v d) =
    if k == key then field k value d else field k v (insert key value d)

-- `d.update(e)`
abbrev pub update : Fields → Fields → Fields
update d end = d
update d (field k v e) = update (insert k v d) e

pub lookup-insert :
    (key j : String) (v : Json) (d : Fields)
    → lookup j (insert key v d) ≡ (if key == j then some v else lookup j d)
lookup-insert key j v end = refl
lookup-insert key j v (field i w d) =
    ground (arith, eq_iff key j, eq_iff i key, eq_iff i j, lookup-insert key j v d)

pub lookup-insert_self :
    (key : String) (v : Json) (d : Fields) → lookup key (insert key v d) ≡ some v
lookup-insert_self key v d = simp (lookup-insert, eq_refl)

-- A key that the update does not bring keeps its value.
pub lookup-update-none :
    (key : String) (d e : Fields) → lookup key e ≡ none → lookup key (update d e) ≡ lookup key d
lookup-update-none key d end h = refl
lookup-update-none key d (field k v e) h =
    ground (arith, eq_iff k key, lookup-insert k key v d, lookup-update-none key (insert k v d) e)
