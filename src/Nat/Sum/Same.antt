-- ===== src/Nat/Sum/Same.antt =====
-- The loop of checksum.h of 03-nat against the two lines of checksum.h of 02-router.
use computer_network_labs.Router.Checksum
use computer_network_labs.Nat.Sum
use computer_network_labs.Router.Checksum.{sum_words, fold_words, checksum}
use computer_network_labs.Base.{
  add32, ℕ, zero, suc, ◌+◌, ◌-◌, ◌*◌, ◌%◌, ◌^◌, ◌<◌, ◌≡◌, refl, List, [], ◌∷◌, arith,
}

-- Further rounds of the loop change nothing.
fold_loop-enough :
    (fuel sum : ℕ) → sum < 2 ^ 32 → Sum.fold_loop (2 + fuel) sum ≡ Sum.fold_loop 2 sum
unfolding Sum.fold_loop
fold_loop-enough zero sum h = refl
fold_loop-enough (suc fuel) sum h = ground arith

fold_loop-eq : (sum : ℕ) → sum < 2 ^ 32 → 0xffff - Sum.fold_loop 2 sum % 2 ^ 16 ≡ fold_words sum
unfolding Sum.fold_loop fold_words
fold_loop-eq sum h = ground arith

sum_words-lt : (bytes : List ℕ) (sum : ℕ) → sum < 2 ^ 32 → sum_words sum bytes < 2 ^ 32
unfolding sum_words
sum_words-lt [] sum h = h
sum_words-lt (b ∷ []) sum h = omega arith
sum_words-lt (b ∷ c ∷ bytes) sum h = sum_words-lt bytes (add32 sum (b + 256 * c)) (omega arith)

-- Both programs compute the same checksum, from any 32-bit sum on.
pub checksum-checksum :
    (bytes : List ℕ) (sum : ℕ) → sum < 2 ^ 32 → Sum.checksum bytes sum ≡ Checksum.checksum bytes sum
unfolding Sum.checksum Checksum.checksum
checksum-checksum bytes sum h = fold_loop-eq (sum_words sum bytes) (sum_words-lt bytes sum h)
