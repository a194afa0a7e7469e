-- ===== src/Router/Checksum.antt =====
-- include/checksum.h: the checksum of a block of memory, read as 16-bit words of a little-endian
-- machine. The code adds an odd last byte first; the sum is the same in any order.
pub mod Verify
use computer_network_labs.Base.{add32, ℕ, ◌+◌, ◌-◌, ◌*◌, ◌/◌, ◌%◌, ◌^◌, List, [], ◌∷◌}

-- `sum += *ptr++`
unfoldable pub sum_words : ℕ → List ℕ → ℕ
sum_words sum [] = sum
sum_words sum (b ∷ []) = add32 sum b
sum_words sum (b ∷ c ∷ bytes) = sum_words (add32 sum (b + 256 * c)) bytes

-- The two lines that fold the sum, and `(u16)~sum`.
unfoldable pub fold_words : ℕ → ℕ
fold_words sum =
    let once = sum / 2 ^ 16 + sum % 2 ^ 16 in 0xffff - add32 once (once / 2 ^ 16) % 2 ^ 16

unfoldable pub checksum : List ℕ → ℕ → ℕ
checksum bytes sum = fold_words (sum_words sum bytes)
