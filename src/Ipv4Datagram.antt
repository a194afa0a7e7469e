-- ===== src/Ipv4Datagram.antt =====
-- libsponge/tcp_helpers/ipv4_datagram.hh and ipv4_datagram.cc. A BufferList is the list of its bytes.
pub mod RoundTrip
use computer_network_labs.Ipv4Header
use computer_network_labs.NetParser.{ready, ParseResult, packet_too_short}
use computer_network_labs.TcpSegment.{checksum_value}
use computer_network_labs.Ipv4Header.{payload_length, Ipv4Header}
use computer_network_labs.Base.{◌==◌, if◌then◌else◌, length, ℕ, not, Option, none, some, List, ◌++◌}

pub record Ipv4Datagram : Type 0 where
  pub header : Ipv4Header
  pub payload : List ℕ

-- The result of the header's `parse` is dropped.
unfoldable pub parse : Ipv4Datagram → List ℕ → ParseResult × Ipv4Datagram
parse old buffer =
    let (_result, h, p) = Ipv4Header.parse old.header (ready buffer) in
    let d : Ipv4Datagram = record { header = h; payload = p.buffer } in
    if not (length p.buffer == payload_length h) then (packet_too_short, d) else (p.failure, d)

-- `none` is an exception.
unfoldable pub serialize : Ipv4Datagram → Option (List ℕ)
serialize d =
    if not (length d.payload == payload_length d.header)
    then none
    else elim (Ipv4Header.serialize (record d.header { cksum = 0 })) [
      | none ↦ none
      | some zeroed ↦
          elim (Ipv4Header.serialize (record d.header { cksum = checksum_value 0 zeroed })) [
            | none ↦ none
            | some out ↦ some (out ++ d.payload)
          ]
    ]
