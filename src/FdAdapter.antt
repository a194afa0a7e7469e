-- ===== src/FdAdapter.antt =====
-- libsponge/tcp_helpers/fd_adapter.hh and fd_adapter.cc, lossy_fd_adapter.hh and tuntap_adapter.hh.
--
-- The state of FdAdapterBase is a TcpOverIpv4Adapter. What a socket or a device receives is an
-- argument, what it sends a result; `none` is an exception of `serialize`.
pub mod Reads
pub mod Rounds
pub mod Arrives
use computer_network_labs.TcpSegment
use computer_network_labs.TcpSegment.{TcpSegment, empty_segment}
use computer_network_labs.Ipv4Header
use computer_network_labs.Ipv4Datagram
use computer_network_labs.Base.{
  ltb, ◌==◌, if◌then◌else◌, ℕ, ◌%◌, ◌^◌, Bool, true, false, not, ◌&&◌, Option, none, some, List, [],
  ◌∷◌,
}
use computer_network_labs.Ipv4Datagram.{parse, serialize, Ipv4Datagram}
use computer_network_labs.TcpOverIp.{unwrap_tcp_in_ip, wrap_tcp_in_ip, Address, TcpOverIpv4Adapter}
use computer_network_labs.NetParser.{is_no_error}

unfoldable pub set_listening : Bool → TcpOverIpv4Adapter → TcpOverIpv4Adapter
set_listening l a = record a { listening = l }

-- A UDP datagram, with the address that it comes from or goes to.
pub record UdpDatagram : Type 0 where
  pub address : Address
  pub payload : List ℕ

-- `Address::operator==`
unfoldable pub same_address : Address → Address → Bool
same_address a b = (a.ipv4_numeric == b.ipv4_numeric) && (a.port == b.port)

-- What follows once the segment is parsed.
unfoldable pub udp_accept :
    TcpOverIpv4Adapter → Address → TcpSegment → Option TcpSegment × TcpOverIpv4Adapter
udp_accept a from seg =
    if a.listening
    then (if seg.header.syn && not seg.header.rst
        then (some seg, record a { destination = from; listening = false })
        else (none, a))
    else (some seg, a)

unfoldable pub udp_read : TcpOverIpv4Adapter → UdpDatagram → Option TcpSegment × TcpOverIpv4Adapter
unfolding same_address
udp_read a datagram =
    if not a.listening && not (same_address datagram.address a.destination)
    then (none, a)
    else let (result, seg) = TcpSegment.parse empty_segment datagram.payload 0 in
      if not (is_no_error result) then (none, a) else udp_accept a datagram.address seg

-- The method writes the ports into the segment.
unfoldable pub udp_write : TcpOverIpv4Adapter → TcpSegment → TcpSegment × Option UdpDatagram
udp_write a seg =
    let seg' = record seg {
      header = record (seg.header) { sport = a.source.port; dport = a.destination.port };
    } in
    (
      seg',
      (elim (TcpSegment.serialize seg' 0) [
        | none ↦ none
        | some payload ↦ some (record { address = a.destination; payload = payload })
      ]),
    )

abbrev pub empty_datagram : Ipv4Datagram
empty_datagram = record { header = Ipv4Header.default_header; payload = [] }

-- TCPOverIPv4OverTunFdAdapter, for the bytes that the device gives.
unfoldable pub tun_read : TcpOverIpv4Adapter → List ℕ → Option TcpSegment × TcpOverIpv4Adapter
tun_read a bytes =
    let (result, datagram) = Ipv4Datagram.parse empty_datagram bytes in
    if not (is_no_error result) then (none, a) else unwrap_tcp_in_ip a datagram

unfoldable pub tun_write : TcpOverIpv4Adapter → TcpSegment → TcpSegment × Option (List ℕ)
tun_write a seg =
    let (seg', wrapped) = wrap_tcp_in_ip a seg in
    (seg', (elim wrapped [ none ↦ none | some datagram ↦ Ipv4Datagram.serialize datagram ]))

-- The part of FdAdapterConfig that LossyFdAdapter reads.
pub record LossRates : Type 0 where
  pub loss_rate_dn : ℕ
  pub loss_rate_up : ℕ

-- `random` is what the generator returns.
unfoldable pub should_drop : LossRates → ℕ → Bool → Bool
should_drop cfg random uplink =
    let loss = if uplink then cfg.loss_rate_up else cfg.loss_rate_dn in
    not (loss == 0) && ltb (random % 2 ^ 16) loss

-- LossyFdAdapter, for what the adapter inside has read: its state has changed, dropped or not.
unfoldable pub lossy_read {ℓ} :
    {A : Type ℓ} → LossRates → ℕ → Option TcpSegment × A → Option TcpSegment × A
unfolding should_drop
lossy_read cfg random (ret, a) = if should_drop cfg random false then (none, a) else (ret, a)

-- The datagrams that go out: none when the segment is dropped, whose ports then stay.
unfoldable pub lossy_write {ℓ} :
    {A : Type ℓ}
    → LossRates
    → ℕ
    → (TcpSegment → TcpSegment × Option A)
    → TcpSegment
    → TcpSegment × Option (List A)
unfolding should_drop
lossy_write cfg random write seg =
    if should_drop cfg random true
    then (seg, some [])
    else let (seg', sent) = write seg in
      (seg', (elim sent [ none ↦ none | some datagram ↦ some (datagram ∷ []) ]))
