-- ===== src/Common/Int.antt =====
-- Python's `int` where it can be negative, and `int(x)` of a value that came from JSON.
use axm_embodied.Common.Float.{finite, infinite, nan}
use axm_embodied.Common.Json.{Json, null, boolean, integer, negative, number, string, array, object}
use axm_embodied.Common.Tests.{ltb, ◌==◌, if◌then◌else◌}
use Prim.Native.Nat.{ℕ, ◌-◌, ◌/◌, ◌^◌}
use Prim.Native.String.{String}
use mathlib.Core.Bool.{Bool, true, false}
use mathlib.Core.Logic.{◌↔◌}
use mathlib.Core.Option.{Option, none, some}
use mathlib.Core.Path.{◌≡◌}
use native.Mathlib.Omega.{arith}

-- `negsuc n` is -(n + 1).
pub data ℤ : Type 0 where
  pos : ℕ → ℤ
  negsuc : ℕ → ℤ

abbrev pub eq_ℤ : ℤ → ℤ → Bool
eq_ℤ (pos a) (pos b) = a == b
eq_ℤ (pos a) (negsuc b) = false
eq_ℤ (negsuc a) (pos b) = false
eq_ℤ (negsuc a) (negsuc b) = a == b

pub eq_ℤ_iff : (a b : ℤ) → (eq_ℤ a b ≡ true) ↔ (a ≡ b)
eq_ℤ_iff a b = ground arith

-- -n
abbrev pub neg_ℕ : ℕ → ℤ
neg_ℕ n = if n == 0 then pos 0 else negsuc (n - 1)

-- `int(x)`; `none` is the exception that it raises. A float loses its fraction, and a text is read
-- by `parse_int`.
abbrev pub int_of : (String → Option ℤ) → Json → Option ℤ
int_of parse_int null = none
int_of parse_int (boolean b) = some (pos (if b then 1 else 0))
int_of parse_int (integer n) = some (pos n)
int_of parse_int (negative n) = some (negsuc n)
int_of parse_int (number (finite s n)) =
    some (if s then neg_ℕ (n / 2 ^ 1074) else pos (n / 2 ^ 1074))
int_of parse_int (number (infinite s)) = none
int_of parse_int (number nan) = none
int_of parse_int (string s) = parse_int s
int_of parse_int (array xs) = none
int_of parse_int (object d) = none

-- `a > b`
abbrev pub gt_ℤ : ℤ → ℤ → Bool
gt_ℤ (pos a) (pos b) = ltb b a
gt_ℤ (pos a) (negsuc b) = true
gt_ℤ (negsuc a) (pos b) = false
gt_ℤ (negsuc a) (negsuc b) = ltb a b

-- `max(a, b)`
abbrev pub max_ℤ : ℤ → ℤ → ℤ
max_ℤ a b = if gt_ℤ b a then b else a

-- `a ≤ b`, as the test that a comparison makes.
abbrev pub ◌≤ℤ◌ : ℤ → ℤ → Type 0
◌≤ℤ◌ a b = gt_ℤ a b ≡ false

infix 50 ◌≤ℤ◌
pub ≤ℤ_refl : (a : ℤ) → a ≤ℤ a
≤ℤ_refl a = ground arith

pub ≤ℤ_trans : (a b c : ℤ) → a ≤ℤ b → b ≤ℤ c → a ≤ℤ c
≤ℤ_trans a b c h k = ground arith

pub le-max_left : (a b : ℤ) → a ≤ℤ max_ℤ a b
le-max_left a b = ground arith

pub le-max_right : (a b : ℤ) → b ≤ℤ max_ℤ a b
le-max_right a b = ground arith
