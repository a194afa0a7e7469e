-- ===== src/Witnesses/Datagrams.antt =====
-- Inputs for the theorems on datagrams.
use computer_network_labs.NetParser.{int_bytes}
use computer_network_labs.NetParser.{ready, no_error, bad_checksum}
use computer_network_labs.TcpHeader.{default_header}
use computer_network_labs.TcpHeader.RoundTrip
use computer_network_labs.TcpSegment.{checksum_value, TcpSegment}
use computer_network_labs.Checksum
use computer_network_labs.Ipv4Header
use computer_network_labs.Ipv4Datagram
use computer_network_labs.FdAdapter.{empty_datagram}
use computer_network_labs.Base.{ℕ, ◌≡◌, refl, ◌≢◌, true, false, some, List, [], ◌∷◌, ◌++◌, arith}
use computer_network_labs.Ipv4Header.{parse, fo_val, serialize, Ipv4Header}
use computer_network_labs.Ipv4Header.Fields.{fixed_bytes, padding, IsValid}
use computer_network_labs.Ipv4Datagram.{Ipv4Datagram}
use computer_network_labs.Ipv4Datagram.RoundTrip.{parse-serialize_datagram, parse-bad_checksum}
use computer_network_labs.TcpOverIp.{TcpOverIpv4Adapter}

abbrev header : Ipv4Header
header = record Ipv4Header.default_header { len = 23; src = 0x0a000005; dst = 0x0a000107 }

header-IsValid : IsValid header
header-IsValid = record {
  ver_eq = refl;
  hlen_ge = omega arith;
  hlen_lt = omega arith;
  tos_lt = omega arith;
  len_lt = omega arith;
  id_lt = omega arith;
  offset_lt = omega arith;
  ttl_lt = omega arith;
  proto_lt = omega arith;
  cksum_lt = omega arith;
  src_lt = omega arith;
  dst_lt = omega arith;
}

abbrev datagram : Ipv4Datagram
datagram = record { header = header; payload = 1 ∷ 2 ∷ 3 ∷ [] }

parse-serialize_datagram_example :
    (bytes : List ℕ) × (k : ℕ) × (Ipv4Datagram.serialize datagram ≡ some bytes)
    × ((Ipv4Header.parse Ipv4Header.default_header (ready bytes)).0 ≡ no_error)
    × (Ipv4Datagram.parse empty_datagram bytes
        ≡ (no_error, record { header = record header { cksum = k }; payload = 1 ∷ 2 ∷ 3 ∷ [] }))
parse-serialize_datagram_example =
    parse-serialize_datagram datagram empty_datagram header-IsValid refl

header_value : checksum_value 0 (fixed_bytes header (padding header)) ≡ 58837
unfolding checksum_value Checksum.value Checksum.add Checksum.init fo_val int_bytes
header_value = refl

header_bad : checksum_value 0 (fixed_bytes header (padding header)) ≢ 0
header_bad e = omega (arith, header_value)

parse-bad_checksum_example :
    ((Ipv4Header.parse Ipv4Header.default_header
        (ready (fixed_bytes header (padding header) ++ (1 ∷ 2 ∷ 3 ∷ [])))).0
      ≡ bad_checksum)
    × (Ipv4Datagram.parse empty_datagram (fixed_bytes header (padding header) ++ (1 ∷ 2 ∷ 3 ∷ []))
        ≡ (no_error, record { header = header; payload = 1 ∷ 2 ∷ 3 ∷ [] }))
parse-bad_checksum_example =
    parse-bad_checksum empty_datagram header (1 ∷ 2 ∷ 3 ∷ []) header-IsValid refl header_bad

abbrev pub client : TcpOverIpv4Adapter
client = record {
  source = record { ipv4_numeric = 0x0a000005; port = 40000 };
  destination = record { ipv4_numeric = 0x0a000107; port = 80 };
  listening = false;
}

abbrev pub server : TcpOverIpv4Adapter
server = record {
  source = record { ipv4_numeric = 0; port = 80 };
  destination = record { ipv4_numeric = 0; port = 0 };
  listening = true;
}

abbrev pub opening : TcpSegment
opening = record { header = record default_header { seqno = 7; syn = true }; payload = [] }

pub opening-IsValid : RoundTrip.IsValid opening.header
opening-IsValid = record {
  sport_lt = omega arith;
  dport_lt = omega arith;
  seqno_lt = omega arith;
  ackno_lt = omega arith;
  doff_ge = omega arith;
  doff_lt = omega arith;
  win_lt = omega arith;
  cksum_lt = omega arith;
  uptr_lt = omega arith;
}
