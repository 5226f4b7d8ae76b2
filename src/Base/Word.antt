-- ===== src/Base/Word.antt =====
-- Machine words as native numbers: casts by `%`, subtraction with its wrap written out, byte order
-- conversion on a little-endian host, shifts and single bits.
use Prim.Native.Nat.{ℕ, ◌+◌, ◌-◌, ◌*◌, ◌/◌, ◌%◌, ◌^◌}
use mathlib.Core.Bool.{Bool}
use knetutils.Base.Tests.{◌==◌, ltb, if◌then◌else◌}

abbrev pub u8 : ℕ → ℕ
u8 n = n % 2 ^ 8

abbrev pub u16 : ℕ → ℕ
u16 n = n % 2 ^ 16

abbrev pub u32 : ℕ → ℕ
u32 n = n % 2 ^ 32

abbrev pub u64 : ℕ → ℕ
u64 n = n % 2 ^ 64

abbrev pub sub32 : ℕ → ℕ → ℕ
sub32 a b = u32 (a + 2 ^ 32 - b)

abbrev pub sub64 : ℕ → ℕ → ℕ
sub64 a b = u64 (a + 2 ^ 64 - b)

-- The conversion of an `int`, given by its bit pattern below 2 ^ 32, to 64 bits.
abbrev pub sign_extend : ℕ → ℕ
sign_extend w = if ltb w (2 ^ 31) then w else w + 2 ^ 64 - 2 ^ 32

-- `htons` and `ntohs`.
abbrev pub swap16 : ℕ → ℕ
swap16 x = x % 256 * 256 + x / 256 % 256

-- Whether bit `k` of `x` is set.
abbrev pub has_bit : ℕ → ℕ → Bool
has_bit x k = x / 2 ^ k % 2 == 1
