-- ===== src/TcpOverIp.antt =====
-- libsponge/tcp_helpers/tcp_over_ip.hh and tcp_over_ip.cc, with the part of fd_adapter.hh and
-- tcp_config.hh that they use.
--
-- An Address is its two numbers: making one from the text of an address, which inet_ntoa writes, gives
-- the number back.
pub mod Peers
use computer_network_labs.Ipv4Header
use computer_network_labs.NetParser.{is_no_error}
use computer_network_labs.TcpSegment
use computer_network_labs.TcpSegment.{TcpSegment, empty_segment}
use computer_network_labs.Ipv4Header.{
  proto_tcp, default_header, parse, serialize, pseudo_cksum, Ipv4Header,
}
use computer_network_labs.Ipv4Datagram.{Ipv4Datagram}
use computer_network_labs.Base.{
  ◌==◌, if◌then◌else◌, length, ℕ, ◌+◌, ◌*◌, ◌%◌, ◌^◌, Bool, false, not, ◌&&◌, Option, none, some,
}

pub record Address : Type 0 where
  pub ipv4_numeric : ℕ
  pub port : ℕ

-- The adapter with its FdAdapterConfig.
pub record TcpOverIpv4Adapter : Type 0 where
  pub source : Address
  pub destination : Address
  pub listening : Bool

-- What follows once the segment is parsed.
unfoldable pub accept :
    TcpOverIpv4Adapter → Ipv4Header → TcpSegment → Option TcpSegment × TcpOverIpv4Adapter
accept a h seg =
    if not (seg.header.dport == a.source.port)
    then (none, a)
    else if a.listening
    then (if seg.header.syn && not seg.header.rst
        then (
          some seg,
          record {
            source = record { ipv4_numeric = h.dst; port = a.source.port };
            destination = record { ipv4_numeric = h.src; port = seg.header.sport };
            listening = false;
          },
        )
        else (none, a))
    else if not (seg.header.sport == a.destination.port)
    then (none, a)
    else (some seg, a)

unfoldable pub unwrap_tcp_in_ip :
    TcpOverIpv4Adapter → Ipv4Datagram → Option TcpSegment × TcpOverIpv4Adapter
unwrap_tcp_in_ip a d =
    if not a.listening && not (d.header.dst == a.source.ipv4_numeric)
    then (none, a)
    else if not a.listening && not (d.header.src == a.destination.ipv4_numeric)
    then (none, a)
    else if not (d.header.proto == proto_tcp)
    then (none, a)
    else let (result, seg) = TcpSegment.parse empty_segment d.payload (pseudo_cksum d.header) in
      if not (is_no_error result) then (none, a) else accept a d.header seg

-- The header of the datagram around a segment.
unfoldable pub wrap_header : TcpOverIpv4Adapter → TcpSegment → Ipv4Header
wrap_header a seg = record Ipv4Header.default_header {
  src = a.source.ipv4_numeric;
  dst = a.destination.ipv4_numeric;
  len = (Ipv4Header.default_header.hlen * 4 + seg.header.doff * 4 + length seg.payload) % 2 ^ 16;
}

-- The segment with its ports, which the method writes into it, and the datagram; `none` is the
-- exception of `TCPSegment::serialize`.
unfoldable pub wrap_tcp_in_ip : TcpOverIpv4Adapter → TcpSegment → TcpSegment × Option Ipv4Datagram
wrap_tcp_in_ip a seg =
    let seg' = record seg {
      header = record (seg.header) { sport = a.source.port; dport = a.destination.port };
    } in
    let h = wrap_header a seg' in
    (
      seg',
      (elim (TcpSegment.serialize seg' (pseudo_cksum h)) [
        | none ↦ none
        | some payload ↦ some (record { header = h; payload = payload })
      ]),
    )
