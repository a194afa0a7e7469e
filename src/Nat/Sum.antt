-- ===== src/Nat/Sum.antt =====
-- include/checksum.h and include/hash.h of 03-nat.
pub mod Same
use Prim.Native.Nat.{bit_xor}
use computer_network_labs.Base.{
  ◌==◌, if◌then◌else◌, ℕ, zero, suc, ◌+◌, ◌-◌, ◌/◌, ◌%◌, ◌^◌, List, [], ◌∷◌,
}
use computer_network_labs.Router.Checksum.{sum_words}

-- `while (sum >> 16) sum = (sum >> 16) + (sum & 0xffff)`
unfoldable pub fold_loop : ℕ → ℕ → ℕ
fold_loop zero sum = sum
fold_loop (suc fuel) sum =
    if sum / 2 ^ 16 == 0 then sum else fold_loop fuel (sum / 2 ^ 16 + sum % 2 ^ 16)

-- Two rounds are enough for 32 bits.
unfoldable pub checksum : List ℕ → ℕ → ℕ
checksum bytes sum = 0xffff - fold_loop 2 (sum_words sum bytes) % 2 ^ 16

-- `result ^= buf[i]`
unfoldable pub hash_loop : ℕ → List ℕ → ℕ
hash_loop result [] = result
hash_loop result (b ∷ bytes) = hash_loop (bit_xor result b % 256) bytes

unfoldable pub hash8 : List ℕ → ℕ
hash8 bytes = hash_loop 0 bytes
