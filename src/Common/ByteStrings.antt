-- ===== src/Common/ByteStrings.antt =====
-- Byte strings, the comparison of two, and the little-endian 32-bit fields of `struct`.
use Prim.Native.Nat.{ℕ, suc, ◌+◌, ◌*◌, ◌/◌, ◌%◌, ◌^◌, ◌<◌}
use mathlib.Core.Path.{◌≡◌, refl}
use mathlib.Core.Logic.{◌↔◌}
use mathlib.Core.Bool.{Bool, true, false, ◌&&◌}
use mathlib.Core.Option
use mathlib.Core.Option.{Option, none, some}
use mathlib.Core.List.{List, [], ◌∷◌}
use native.Mathlib.Omega.{arith}
use axm_embodied.Common.Tests.{ltb, if◌then◌else◌, ◌==◌, ==_iff, &&-true, ==_self}
use axm_embodied.Common.Lists.{take, drop}

-- `bytes`: the values of the bytes, first to last.
abbrev pub Bytes : Type 0
Bytes = List ℕ

abbrev pub IsByte : ℕ → Type 0
IsByte b = b < 256

-- `xs == ys` on byte strings.
abbrev pub bytes_eq : Bytes → Bytes → Bool
bytes_eq [] [] = true
bytes_eq [] (y ∷ ys) = false
bytes_eq (x ∷ xs) [] = false
bytes_eq (x ∷ xs) (y ∷ ys) = (x == y) && bytes_eq xs ys

pub bytes_eq_refl : (xs : Bytes) → bytes_eq xs xs ≡ true
bytes_eq_refl [] = refl
bytes_eq_refl (x ∷ xs) = rw (==_self x) (bytes_eq_refl xs)

pub bytes_eq→eq : (xs ys : Bytes) → bytes_eq xs ys ≡ true → xs ≡ ys
bytes_eq→eq [] [] h = refl
bytes_eq→eq [] (y ∷ ys) h = cc
bytes_eq→eq (x ∷ xs) [] h = cc
bytes_eq→eq (x ∷ xs) (y ∷ ys) h =
    let (p, q) = &&-true (x == y) (bytes_eq xs ys) h in cc ((==_iff x y).0 p, bytes_eq→eq xs ys q)

pub bytes_eq_iff : (xs ys : Bytes) → (bytes_eq xs ys ≡ true) ↔ (xs ≡ ys)
bytes_eq_iff xs ys = (bytes_eq→eq xs ys, λ e. rw e (bytes_eq_refl ys))

-- `f.seek(pos)` and `f.read(n)`: short or empty where the file ends.
abbrev pub read_at : Bytes → ℕ → ℕ → Bytes
read_at content pos n = take n (drop pos content)

-- `struct.pack("<I", n)`, for an `n` in range.
abbrev pub le32 : ℕ → Bytes
le32 n = (n % 256) ∷ (n / 256 % 256) ∷ (n / 65536 % 256) ∷ (n / 16777216 % 256) ∷ []

-- `struct.unpack("<I", …)`
abbrev pub un_le32 : ℕ → ℕ → ℕ → ℕ → ℕ
un_le32 a b c d = a + 256 * b + 65536 * c + 16777216 * d

pub un_le32-le32 :
    (n : ℕ)
    → n < 2 ^ 32
    → un_le32 (n % 256) (n / 256 % 256) (n / 65536 % 256) (n / 16777216 % 256) ≡ n
un_le32-le32 n h = omega arith

-- `needle` begins `hay`.
abbrev pub starts_with : Bytes → Bytes → Bool
starts_with [] hay = true
starts_with (x ∷ xs) [] = false
starts_with (x ∷ xs) (y ∷ ys) = (x == y) && starts_with xs ys

-- `hay.find(needle)`, with `none` for -1.
abbrev pub find : Bytes → Bytes → Option ℕ
find needle [] = if starts_with needle [] then some 0 else none
find needle (y ∷ ys) =
    if starts_with needle (y ∷ ys) then some 0 else Option.map suc (find needle ys)

abbrev hex_digit : ℕ → ℕ
hex_digit d = if ltb d 10 then 48 + d else 87 + d

-- `b.hex()`, as the codes of its ASCII characters.
abbrev pub hex : Bytes → Bytes
hex [] = []
hex (b ∷ bs) = hex_digit (b / 16) ∷ hex_digit (b % 16) ∷ hex bs
