-- ===== src/Witnesses/Numbers.antt =====
-- Instances for wrapping_integers.cc and the checksum of util.cc.
use computer_network_labs.Base.{◌+◌, ◌^◌, ◌≤◌, ◌≡◌, refl, arith}
use computer_network_labs.WrappingInts.{wrap, unwrap}
use computer_network_labs.WrappingInts.Laws.{distance, unwrap_closest, unwrap-wrap_high}

unwrap_closest_example :
    (wrap (unwrap 17 4294967290 5000001000) 4294967290 ≡ 17)
    × (distance (unwrap 17 4294967290 5000001000) 5000001000 ≤ distance 23 5000001000)
unfolding wrap
unwrap_closest_example =
    unwrap_closest 17 4294967290 5000001000 23 (omega arith) (omega arith) (omega arith) wraps
  where
    wraps : wrap 23 4294967290 ≡ 17
    wraps = refl

unwrap-wrap_high_example :
    unwrap (wrap (2 ^ 63 + 2 ^ 32) 7) 7 (2 ^ 63 + 2 ^ 32) ≡ 2 ^ 63 + 2 ^ 32 + 2 ^ 32
unwrap-wrap_high_example =
    unwrap-wrap_high (2 ^ 63 + 2 ^ 32) (2 ^ 63 + 2 ^ 32) 7 (omega arith) (omega arith) (omega arith)
      (omega arith) (omega arith)
