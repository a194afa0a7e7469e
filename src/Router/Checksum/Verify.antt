-- ===== src/Router/Checksum/Verify.antt =====
-- include/checksum.h: sums without wrap-around, and a block that holds its own checksum.
use computer_network_labs.Base.{
  length, AllBytes, add32, ℕ, ◌+◌, ◌*◌, ◌^◌, ◌≤◌, ◌<◌, ◌≡◌, ap, ◌∙◌, List, [], ◌∷◌, arith,
}
use computer_network_labs.Router.Checksum.{sum_words, fold_words, checksum}

-- The little-endian words of a block, added up without bound.
abbrev pub word_total : List ℕ → ℕ
word_total [] = 0
word_total (b ∷ []) = b
word_total (b ∷ c ∷ bytes) = b + 256 * c + word_total bytes

pub word_total-le :
    (bytes : List ℕ) → AllBytes bytes → word_total bytes ≤ 0xff00 * length bytes + 0xff
word_total-le [] a = omega arith
word_total-le (b ∷ []) a = omega arith
word_total-le (b ∷ c ∷ bytes) a = omega (arith, word_total-le bytes a.1.1)

pub sum_words_lem :
    (sum : ℕ) (bytes : List ℕ)
    → sum + word_total bytes < 2 ^ 32
    → sum_words sum bytes ≡ sum + word_total bytes
unfolding sum_words
sum_words_lem sum [] h = omega arith
sum_words_lem sum (b ∷ []) h = omega arith
sum_words_lem sum (b ∷ c ∷ bytes) h =
    omega (arith, sum_words_lem (add32 sum (b + 256 * c)) bytes (omega arith))

-- Adding the checksum of a sum to the sum makes the checksum 0.
pub fold_words-add :
    (s : ℕ) → s + 0xffff < 2 ^ 32 → (fold_words s ≤ 0xffff) × (fold_words (s + fold_words s) ≡ 0)
unfolding fold_words
fold_words-add s h = (omega arith, omega arith)

pub checksum-eq-fold_words :
    (bytes : List ℕ) → word_total bytes < 2 ^ 32 → checksum bytes 0 ≡ fold_words (word_total bytes)
unfolding checksum
checksum-eq-fold_words bytes h = ap fold_words (sum_words_lem 0 bytes (omega arith) ∙ omega arith)

pub checksum-lt : (bytes : List ℕ) → word_total bytes + 0xffff < 2 ^ 32 → checksum bytes 0 < 2 ^ 16
checksum-lt bytes h =
    omega (arith, fold_words-add (word_total bytes) h, checksum-eq-fold_words bytes (omega arith))

-- A block that adds to the words of another one their checksum has the checksum 0.
pub checksum_self :
    (zeroed bytes : List ℕ)
    → word_total zeroed + 0xffff < 2 ^ 32
    → word_total bytes ≡ word_total zeroed + checksum zeroed 0
    → (checksum zeroed 0 < 2 ^ 16) × (checksum bytes 0 ≡ 0)
checksum_self zeroed bytes h e =
    let s = word_total zeroed in
    let (le, null) = fold_words-add s h in
    let c = checksum-eq-fold_words zeroed (omega arith) in
    (
      omega arith,
      checksum-eq-fold_words bytes (omega arith) ∙ ap fold_words (e ∙ ap (λ k. s + k) c) ∙ null,
    )
