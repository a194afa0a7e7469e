-- ===== src/Checksum.antt =====
-- libsponge/util/util.hh and util.cc: InternetChecksum, the ones' complement sum of 16-bit words.
pub mod Laws
use computer_network_labs.Base.{
  ltb, if◌then◌else◌, add32, ℕ, zero, suc, ◌+◌, ◌-◌, ◌*◌, ◌/◌, ◌%◌, ◌^◌, Bool, false, not, Option,
  none, some, List, [], ◌∷◌, map,
}

pub record InternetChecksum : Type 0 where
  pub sum : ℕ
  pub parity : Bool

unfoldable pub init : ℕ → InternetChecksum
init initial_sum = record { sum = initial_sum; parity = false }

-- One round of the loop of `add`: `val <<= 8` in `uint16_t`, unless the byte is a low one.
unfoldable pub add_byte : InternetChecksum → ℕ → InternetChecksum
add_byte c b = record {
  sum = add32 c.sum (if c.parity then b else b * 256 % 2 ^ 16);
  parity = not c.parity;
}

unfoldable pub add : InternetChecksum → List ℕ → InternetChecksum
unfolding add_byte
add c [] = c
add c (b ∷ bytes) = add (add_byte c b) bytes

-- `while (ret > 0xffff) ret = (ret >> 16) + (ret & 0xffff);` on fuel.
unfoldable pub fold_loop : ℕ → ℕ → ℕ
fold_loop zero ret = ret
fold_loop (suc fuel) ret =
    let rest = fold_loop fuel (ret / 2 ^ 16 + ret % 2 ^ 16) in if ltb 0xffff ret then rest else ret

-- Rounds that are enough for a sum of 32 bits.
abbrev pub fold_fuel : ℕ
fold_fuel = 2

-- `~ret`, as a `uint16_t`.
unfoldable pub value : InternetChecksum → ℕ
unfolding fold_loop
value c = 0xffff - fold_loop fold_fuel c.sum % 2 ^ 16
