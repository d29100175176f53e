-- ===== src/Common/Float.antt =====
-- Python's `float` and numpy's `float32`, exactly. A finite double is a whole multiple of 2^-1074,
-- and so is every finite float32: widening one to a double loses nothing. No arithmetic that
-- rounds is needed here, only absolute values, maxima and comparisons.
use Prim.Native.Nat.{ℕ, ◌+◌, ◌-◌, ◌*◌, ◌/◌, ◌%◌, ◌^◌}
use mathlib.Core.Bool.{Bool, true, false, not, ◌&&◌}
use mathlib.Core.List.{List, [], ◌∷◌}
use mathlib.Core.Option.{Option, none, some}
use axm_embodied.Common.Tests.{◌==◌, ltb, leb, if◌then◌else◌}
use axm_embodied.Common.ByteStrings.{Bytes, un_le32}

-- `finite negative n` is n * 2^-1074, with the sign that `negative` says.
pub data Float : Type 0 where
  finite : Bool → ℕ → Float
  infinite : Bool → Float
  nan : Float

-- `math.isfinite`
abbrev pub is_finite : Float → Bool
is_finite (finite s n) = true
is_finite (infinite s) = false
is_finite nan = false

-- `abs`
unfoldable pub abs : Float → Float
abs (finite s n) = finite false n
abs (infinite s) = infinite false
abs nan = nan

-- `x > y`; no comparison with a NaN holds.
unfoldable pub gt : Float → Float → Bool
gt (finite false m) (finite false n) = ltb n m
gt (finite false m) (finite true n) = not ((m == 0) && (n == 0))
gt (finite true m) (finite false n) = false
gt (finite true m) (finite true n) = ltb m n
gt (finite s m) (infinite t) = t
gt (infinite s) (finite t n) = not s
gt (infinite s) (infinite t) = not s && t
gt (finite s m) nan = false
gt (infinite s) nan = false
gt nan y = false

-- `np.maximum`: a NaN wins over everything.
unfoldable pub maximum : Float → Float → Float
unfolding gt
maximum (finite s m) (finite t n) = if gt (finite t n) (finite s m) then finite t n else finite s m
maximum (finite s m) (infinite t) = if t then finite s m else infinite t
maximum (infinite s) (finite t n) = if s then finite t n else infinite s
maximum (infinite s) (infinite t) = if s then infinite t else infinite s
maximum (finite s m) nan = nan
maximum (infinite s) nan = nan
maximum nan y = nan

-- A float32 from its bits: sign, eight bits of exponent, 23 bits of fraction. The value of a
-- finite one, in units of 2^-1074, is its value in units of 2^-149 times 2^925.
unfoldable pub float32_of_bits : ℕ → Float
float32_of_bits bits =
    let negative = leb (2 ^ 31) bits in
    let exponent = bits / 2 ^ 23 % 256 in
    let fraction = bits % 2 ^ 23 in
    if exponent == 255
    then (if fraction == 0 then infinite negative else nan)
    else if exponent == 0
    then finite negative (fraction * 2 ^ 925)
    else finite negative ((2 ^ 23 + fraction) * 2 ^ (exponent - 1) * 2 ^ 925)

-- `np.frombuffer(b, dtype=np.float32)`, which raises unless the length is a multiple of 4.
unfoldable pub from_buffer : Bytes → Option (List Float)
from_buffer [] = some []
from_buffer (a ∷ b ∷ c ∷ d ∷ rest) = elim (from_buffer rest) [
  | none ↦ none
  | some xs ↦ some (float32_of_bits (un_le32 a b c d) ∷ xs)
]
from_buffer (a ∷ rest) = none
