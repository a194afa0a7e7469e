-- ===== src/WrappingInts/Laws.antt =====
-- wrap and unwrap of libsponge/wrapping_integers.cc: round trips and the distance from the checkpoint.
use computer_network_labs.WrappingInts.{WrappingInt32, wrap, offset, unwrap, advance, retreat}
use computer_network_labs.Base.{ℕ, ◌+◌, ◌-◌, ◌^◌, ◌≤◌, ◌<◌, ◌≡◌, arith}

pub wrap-lt : (n : ℕ) (isn : WrappingInt32) → wrap n isn < 2 ^ 32
unfolding wrap
wrap-lt n isn = omega arith

-- For 32-bit `n` and `isn` and a 64-bit checkpoint, what `unwrap` returns wraps to `n`.
pub wrap-unwrap :
    (n isn : WrappingInt32) (checkpoint : ℕ)
    → n < 2 ^ 32
    → isn < 2 ^ 32
    → checkpoint < 2 ^ 64
    → wrap (unwrap n isn checkpoint) isn ≡ n
unfolding unwrap
wrap-unwrap n isn c hn hi hc = ground arith

-- For a 32-bit `isn` and a checkpoint below 2 ^ 63 - 2 ^ 31, `unwrap` gives `m` back from its
-- wrapped number, if `m` is less than 2 ^ 31 above the checkpoint and at most 2 ^ 31 below it.
pub unwrap-wrap :
    (m checkpoint : ℕ) (isn : WrappingInt32)
    → isn < 2 ^ 32
    → checkpoint + 2 ^ 31 < 2 ^ 63
    → m < checkpoint + 2 ^ 31
    → checkpoint ≤ m + 2 ^ 31
    → unwrap (wrap m isn) isn checkpoint ≡ m
unfolding unwrap
unwrap-wrap m c isn hi hc h1 h2 = ground arith

abbrev pub distance : ℕ → ℕ → ℕ
distance a b = (a - b) + (b - a)

unwrap_nearest :
    (n isn : WrappingInt32) (checkpoint m : ℕ)
    → n < 2 ^ 32
    → isn < 2 ^ 32
    → checkpoint + 2 ^ 31 < 2 ^ 63
    → wrap m isn ≡ n
    → distance (unwrap n isn checkpoint) checkpoint ≤ distance m checkpoint
unfolding unwrap
unwrap_nearest n isn c m hn hi hc e = ground arith

-- For 32-bit `n` and `isn` and a checkpoint below 2 ^ 63 - 2 ^ 31, what `unwrap` returns wraps to
-- `n`, and no number that wraps to `n` is closer to the checkpoint.
pub unwrap_closest :
    (n isn : WrappingInt32) (checkpoint m : ℕ)
    → n < 2 ^ 32
    → isn < 2 ^ 32
    → checkpoint + 2 ^ 31 < 2 ^ 63
    → wrap m isn ≡ n
    → (wrap (unwrap n isn checkpoint) isn ≡ n)
      × (distance (unwrap n isn checkpoint) checkpoint ≤ distance m checkpoint)
unwrap_closest n isn c m hn hi hc e =
    (wrap-unwrap n isn c hn hi (omega arith), unwrap_nearest n isn c m hn hi hc e)

-- For a 32-bit `isn`, a checkpoint from 2 ^ 63 + 2 ^ 31 up to 2 ^ 64 - 2 ^ 33 and a number `m`
-- within 2 ^ 31 of it, `unwrap` does not give `m` back from its wrapped number but m + 2 ^ 32.
pub unwrap-wrap_high :
    (m checkpoint : ℕ) (isn : WrappingInt32)
    → isn < 2 ^ 32
    → 2 ^ 63 + 2 ^ 31 ≤ checkpoint
    → checkpoint + 2 ^ 33 < 2 ^ 64
    → m < checkpoint + 2 ^ 31
    → checkpoint ≤ m + 2 ^ 31
    → unwrap (wrap m isn) isn checkpoint ≡ m + 2 ^ 32
unfolding unwrap
unwrap-wrap_high m c isn hi h0 h1 h2 h3 = ground arith

-- `retreat` undoes `advance`; `offset` recovers the step
pub retreat-advance :
    (a : WrappingInt32) (b : ℕ)
    → a < 2 ^ 32
    → b < 2 ^ 32
    → (retreat (advance a b) b ≡ a) × (offset (advance a b) a ≡ b)
unfolding retreat offset
retreat-advance a b ha hb = omega arith

pub wrap_zero : (isn : WrappingInt32) → isn < 2 ^ 32 → wrap 0 isn ≡ isn
unfolding wrap
wrap_zero isn h = omega arith
