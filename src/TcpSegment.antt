-- ===== src/TcpSegment.antt =====
-- libsponge/tcp_helpers/tcp_segment.hh and tcp_segment.cc. A BufferList is the list of all its bytes.
pub mod Excerpt
pub mod RoundTrip
pub mod ShortHeader
use computer_network_labs.Checksum
use computer_network_labs.TcpHeader
use computer_network_labs.TcpHeader.{TcpHeader}
use computer_network_labs.Base.{
  ◌==◌, if◌then◌else◌, length, ℕ, ◌+◌, not, Option, none, some, List, [], ◌++◌,
}
use computer_network_labs.NetParser.{ready, ParseResult, bad_checksum}

pub record TcpSegment : Type 0 where
  pub header : TcpHeader
  pub payload : List ℕ

abbrev pub empty_segment : TcpSegment
empty_segment = record { header = TcpHeader.default_header; payload = [] }

unfoldable pub length_in_sequence_space : TcpSegment → ℕ
length_in_sequence_space seg =
    length seg.payload + (if seg.header.syn then 1 else 0) + (if seg.header.fin then 1 else 0)

-- `check(datagram_layer_checksum); check.add(bytes); check.value()`
unfoldable pub checksum_value : ℕ → List ℕ → ℕ
checksum_value initial bytes = Checksum.value (Checksum.add (Checksum.init initial) bytes)

-- The method writes the segment that it is called on. It drops the result of `TCPHeader::parse`, and
-- returns the parser's error.
unfoldable pub parse : TcpSegment → List ℕ → ℕ → ParseResult × TcpSegment
parse seg buffer datagram_layer_checksum =
    if not (checksum_value datagram_layer_checksum buffer == 0)
    then (bad_checksum, seg)
    else let (_result, h, p) = TcpHeader.parse (ready buffer) in
      (p.failure, record { header = h; payload = p.buffer })

-- `none` is the exception of `TCPHeader::serialize`.
unfoldable pub serialize : TcpSegment → ℕ → Option (List ℕ)
serialize seg datagram_layer_checksum =
    elim (TcpHeader.serialize (record seg.header { cksum = 0 })) [
      | none ↦ none
      | some zeroed ↦
          let check =
            Checksum.add (Checksum.add (Checksum.init datagram_layer_checksum) zeroed)
              seg.payload in
          elim (TcpHeader.serialize (record (seg.header) { cksum = Checksum.value check })) [
            | none ↦ none
            | some out ↦ some (out ++ seg.payload)
          ]
    ]
