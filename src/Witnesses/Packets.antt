-- ===== src/Witnesses/Packets.antt =====
-- Instances for tcp_header.cc and tcp_segment.cc.
use computer_network_labs.NetParser.{ready, no_error}
use computer_network_labs.TcpHeader
use computer_network_labs.TcpHeader.{TcpHeader, default_header}
use computer_network_labs.TcpHeader.RoundTrip.{IsValid, parse-serialize}
use computer_network_labs.TcpSegment
use computer_network_labs.TcpSegment.{TcpSegment, empty_segment, checksum_value}
use computer_network_labs.TcpSegment.RoundTrip.{parse-serialize_segment}
use computer_network_labs.Base.{
  length, AllBytes, ℕ, ◌*◌, ◌≡◌, true, some, List, [], ◌∷◌, ◌++◌, arith,
}

abbrev header : TcpHeader
header = record default_header {
  sport = 1234;
  dport = 80;
  seqno = 4294967290;
  ackno = 77;
  ack = true;
  fin = true;
  win = 65535;
  doff = 6;
}

header-IsValid : IsValid header
header-IsValid = ground arith

parse-serialize_example :
    (bytes : List ℕ) × (TcpHeader.serialize header ≡ some bytes)
    × (length bytes ≡ 4 * 6)
    × (TcpHeader.parse (ready (bytes ++ (9 ∷ []))) ≡ (no_error, header, ready (9 ∷ [])))
parse-serialize_example = parse-serialize header (9 ∷ []) header-IsValid

abbrev segment : TcpSegment
segment = record { header = header; payload = 72 ∷ 105 ∷ 33 ∷ [] }

segment-AllBytes : AllBytes (72 ∷ 105 ∷ 33 ∷ [])
segment-AllBytes = ground arith

parse-serialize_segment_example :
    (bytes : List ℕ) × (v : ℕ) × (TcpSegment.serialize segment 700 ≡ some bytes)
    × (TcpSegment.parse empty_segment bytes 700
        ≡ (no_error, record { header = record header { cksum = v }; payload = 72 ∷ 105 ∷ 33 ∷ [] }))
parse-serialize_segment_example =
    parse-serialize_segment segment empty_segment 700 header-IsValid segment-AllBytes (omega arith)
