-- ===== src/Prelude/Words.antt =====
-- Machine words as native numbers. An `int` is its 32-bit pattern, a `uint64_t` its value, and bytes
-- are the numbers below 256; multi-byte values are stored with the lowest byte first.
use new_name_auction.Prelude.Tests.{ltb, leb}
use Prim.Native.Nat.{ℕ, zero, suc, ◌+◌, ◌-◌, ◌*◌, ◌/◌, ◌%◌, ◌^◌, ◌<◌}
use mathlib.Core.Path.{◌≡◌, refl}
use mathlib.Core.Bool.{Bool}
use mathlib.Core.List.{List, [], ◌∷◌}
use native.Mathlib.Omega.{arith}
use new_name_auction.Prelude.Lists.{length}

abbrev pub add32 : ℕ → ℕ → ℕ
add32 a b = (a + b) % 2 ^ 32

abbrev pub sub32 : ℕ → ℕ → ℕ
sub32 a b = (a + 2 ^ 32 - b) % 2 ^ 32

abbrev pub add64 : ℕ → ℕ → ℕ
add64 a b = (a + b) % 2 ^ 64

abbrev pub sub64 : ℕ → ℕ → ℕ
sub64 a b = (a + 2 ^ 64 - b) % 2 ^ 64

-- The value of an `int` pattern, plus 2 ^ 31: signed comparisons are comparisons of these.
abbrev pub bias32 : ℕ → ℕ
bias32 w = (w + 2 ^ 31) % 2 ^ 32

-- `a < b` and `a <= b` on `int`.
abbrev pub slt32 : ℕ → ℕ → Bool
slt32 a b = ltb (bias32 a) (bias32 b)

abbrev pub sle32 : ℕ → ℕ → Bool
sle32 a b = leb (bias32 a) (bias32 b)

-- An `int` that is -1.
abbrev pub minus_one : ℕ
minus_one = 0xffff_ffff

-- The `w` lowest bytes of a number.
abbrev pub le_bytes : ℕ → ℕ → List ℕ
le_bytes zero v = []
le_bytes (suc w) v = (v % 256) ∷ le_bytes w (v / 256)

abbrev pub of_le_bytes : List ℕ → ℕ
of_le_bytes [] = 0
of_le_bytes (b ∷ bs) = b + 256 * of_le_bytes bs

pub length-le_bytes : (w v : ℕ) → length (le_bytes w v) ≡ w
length-le_bytes zero v = refl
length-le_bytes (suc w) v = omega (arith, length-le_bytes w (v / 256))

-- Reading back what was stored, for a value that fits.
pub of_le_bytes-le_bytes : (w v : ℕ) → v < 256 ^ w → of_le_bytes (le_bytes w v) ≡ v
of_le_bytes-le_bytes zero v h = omega arith
of_le_bytes-le_bytes (suc w) v h = omega (arith, of_le_bytes-le_bytes w (v / 256) (fits w v h))
  where
    fits : (w v : ℕ) → v < 256 ^ suc w → v / 256 < 256 ^ w
    fits w v h = omega arith
