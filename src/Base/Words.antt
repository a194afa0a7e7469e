-- ===== src/Base/Words.antt =====
-- Machine words as native numbers. A `size_t`, `uint64_t`, `uint32_t` or `uint16_t` is its value; an
-- `int` is its 32-bit two's complement pattern. `-` on ℕ stops at 0, so the modulus is added first.
use Prim.Native.Nat.{ℕ, ◌+◌, ◌-◌, ◌%◌, ◌^◌}
use mathlib.Core.Bool.{Bool}
use computer_network_labs.Base.Tests.{ltb, leb, if◌then◌else◌}

abbrev pub add64 : ℕ → ℕ → ℕ
add64 a b = (a + b) % 2 ^ 64

abbrev pub sub64 : ℕ → ℕ → ℕ
sub64 a b = (a + 2 ^ 64 - b) % 2 ^ 64

abbrev pub add32 : ℕ → ℕ → ℕ
add32 a b = (a + b) % 2 ^ 32

abbrev pub sub32 : ℕ → ℕ → ℕ
sub32 a b = (a + 2 ^ 32 - b) % 2 ^ 32

abbrev pub add16 : ℕ → ℕ → ℕ
add16 a b = (a + b) % 2 ^ 16

abbrev pub sub16 : ℕ → ℕ → ℕ
sub16 a b = (a + 2 ^ 16 - b) % 2 ^ 16

-- The conversion of a wider word to `int` keeps the low 32 bits.
abbrev pub to_int : ℕ → ℕ
to_int x = x % 2 ^ 32

-- Whether the `int` with this pattern is below 0.
abbrev pub is_negative : ℕ → Bool
is_negative w = leb (2 ^ 31) w

-- The conversion of an `int` to a 64-bit word extends the sign.
abbrev pub sign_extend : ℕ → ℕ
sign_extend w = if ltb w (2 ^ 31) then w else w + (2 ^ 64 - 2 ^ 32)
