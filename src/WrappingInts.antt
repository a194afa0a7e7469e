-- ===== src/WrappingInts.antt =====
-- libsponge/wrapping_integers.hh and wrapping_integers.cc: 32-bit sequence numbers. The class is its
-- one field, the raw value, a number below 2 ^ 32.
pub mod Laws
use computer_network_labs.Base.{
  ℕ, ◌+◌, ◌-◌, ◌%◌, ◌^◌, Bool, not, ◌==◌, leb, if◌then◌else◌, add64, sub32, add32, sign_extend,
}

abbrev pub WrappingInt32 : Type 0
WrappingInt32 = ℕ

-- `static_cast<uint32_t>(n) + isn.raw_value()`
unfoldable pub wrap : ℕ → WrappingInt32 → WrappingInt32
wrap n isn = add32 (n % 2 ^ 32) isn

-- `operator-(WrappingInt32, WrappingInt32)`: the pattern of an `int32_t`.
unfoldable pub offset : WrappingInt32 → WrappingInt32 → ℕ
offset a b = sub32 a b

-- `operator+(WrappingInt32, uint32_t)`
unfoldable pub advance : WrappingInt32 → ℕ → WrappingInt32
advance a b = add32 a b

-- `operator-(WrappingInt32, uint32_t)` is `a + -b`.
unfoldable pub retreat : WrappingInt32 → ℕ → WrappingInt32
unfolding advance
retreat a b = advance a (sub32 0 b)

-- The `int64_t` result is its pattern, which is negative from 2 ^ 63 on.
unfoldable pub unwrap : WrappingInt32 → WrappingInt32 → ℕ → ℕ
unfolding wrap offset
unwrap n isn checkpoint =
    let ret = add64 checkpoint (sign_extend (offset n (wrap checkpoint isn))) in
    if leb (2 ^ 63) ret then add64 ret (2 ^ 32) else ret
