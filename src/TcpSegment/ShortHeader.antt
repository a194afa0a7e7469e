-- ===== src/TcpSegment/ShortHeader.antt =====
-- tcp_segment.cc: `parse` returns the parser's error and drops the result of the header's `parse`, which
-- reports a short `doff` in its result only.
use computer_network_labs.TcpHeader
use computer_network_labs.TcpHeader.{parse_fields, parse_options}
use computer_network_labs.TcpSegment.{checksum_value, parse, TcpSegment}
use computer_network_labs.Base.{lt→ltb, length, drop, ℕ, ◌≤◌, ◌<◌, ◌≡◌, refl, ap, List, arith}
use computer_network_labs.NetParser.RoundTrip.{u8-at, u16-at, u32-at}
use computer_network_labs.NetParser.{ready, NetParser, no_error, header_too_short}

-- Twenty bytes are enough for the fields: the parser reports no error and has the rest.
pub parse_fields-ready :
    (bytes : List ℕ) → 20 ≤ length bytes → (parse_fields (ready bytes)).1 ≡ ready (drop 20 bytes)
unfolding parse_fields
parse_fields-ready bytes h = rw (
  u16-at bytes 0 (omega arith),
  u16-at bytes 2 (omega arith),
  u32-at bytes 4 (omega arith),
  u32-at bytes 8 (omega arith),
  u8-at bytes 12 (omega arith),
  u8-at bytes 13 (omega arith),
  u16-at bytes 14 (omega arith),
  u16-at bytes 16 (omega arith),
  u16-at bytes 18 (omega arith),
)

-- A segment with a good checksum, at least twenty bytes and a data offset below five is refused by
-- `TCPHeader::parse` and accepted by `TCPSegment::parse`.
pub parse-short_doff :
    (seg : TcpSegment) (bytes : List ℕ) (initial : ℕ)
    → checksum_value initial bytes ≡ 0
    → 20 ≤ length bytes
    → (parse_fields (ready bytes)).0.doff < 5
    → ((TcpHeader.parse (ready bytes)).0 ≡ header_too_short)
      × ((parse seg bytes initial).0 ≡ no_error)
unfolding parse TcpHeader.parse parse_options
parse-short_doff seg bytes initial e h d =
    rw (e, lt→ltb (parse_fields (ready bytes)).0.doff 5 d)
      (refl, ap (λ (p : NetParser). p.failure) (parse_fields-ready bytes h))
