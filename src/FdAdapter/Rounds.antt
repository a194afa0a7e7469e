-- ===== src/FdAdapter/Rounds.antt =====
-- fd_adapter.cc and tuntap_adapter.hh: what one adapter writes, as another reads it.
use computer_network_labs.TcpHeader.RoundTrip.{IsValid}
use computer_network_labs.TcpSegment
use computer_network_labs.TcpSegment.{TcpSegment, empty_segment}
use computer_network_labs.TcpSegment.RoundTrip
use computer_network_labs.TcpSegment.RoundTrip.{parse-serialize_segment, length-serialize}
use computer_network_labs.Ipv4Header.Fields
use computer_network_labs.Ipv4Datagram
use computer_network_labs.Base.{
  length, AllBytes, ℕ, ◌+◌, ◌*◌, ◌^◌, ◌<◌, ◌≡◌, refl, sym, ap, ◌∙◌, subst, ◌⊎◌, true, false, Option,
  some, List, arith,
}
use computer_network_labs.Ipv4Header.{payload_length, pseudo_cksum}
use computer_network_labs.Ipv4Datagram.{Ipv4Datagram}
use computer_network_labs.Ipv4Datagram.RoundTrip.{Measures, parse-serialize_datagram}
use computer_network_labs.TcpOverIp.{
  unwrap_tcp_in_ip, wrap_header, wrap_tcp_in_ip, Address, TcpOverIpv4Adapter,
}
use computer_network_labs.TcpOverIp.Peers.{
  addressed, Fit, pseudo_cksum-le, peer, addressed-IsValid, Expects, unwrap_expected,
  wrap_tcp_in_ip-eq, wrap_header_fields,
}
use computer_network_labs.FdAdapter.Reads.{AtMost, unwrap_tcp_in_ip-AtMost}
use computer_network_labs.NetParser.{is_no_error, no_error}
use computer_network_labs.FdAdapter.{udp_write, empty_datagram, tun_read, tun_write}

-- A segment that fits a datagram, and the addresses of an adapter.
pub record IsSendable (a : TcpOverIpv4Adapter) (seg : TcpSegment) : Type 0 where
  pub valid : IsValid seg.header
  pub octets : AllBytes seg.payload
  pub short : length seg.payload < 2 ^ 15
  pub from_fits : Fit a.source
  pub to_fits : Fit a.destination

-- What arrives of a segment.
abbrev pub stamped : TcpOverIpv4Adapter → TcpSegment → ℕ → TcpSegment
stamped a seg k = record (addressed a seg) {
  header = record ((addressed a seg).header) { cksum = k };
}

pub udp_write-parse :
    (a : TcpOverIpv4Adapter) (seg : TcpSegment)
    → IsSendable a seg
    → (payload : List ℕ) × (k : ℕ) × (udp_write a seg
        ≡ (addressed a seg, some (record { address = a.destination; payload = payload })))
      × (TcpSegment.parse empty_segment payload 0 ≡ (no_error, stamped a seg k))
unfolding udp_write
udp_write-parse a seg s =
    let (payload, k, written, read) =
      parse-serialize_segment (addressed a seg) empty_segment 0
        (addressed-IsValid a seg s.valid s.from_fits s.to_fits) s.octets
        (omega (arith, s.short, s.valid.doff_lt)) in
    (payload, k, rw written refl, read)

wrap_header-IsValid :
    (a : TcpOverIpv4Adapter) (seg : TcpSegment)
    → Fit a.source
    → Fit a.destination
    → Fields.IsValid (wrap_header a seg)
unfolding wrap_header
wrap_header-IsValid a seg s t = record {
  ver_eq = refl;
  hlen_ge = omega arith;
  hlen_lt = omega arith;
  tos_lt = omega arith;
  len_lt = omega arith;
  id_lt = omega arith;
  offset_lt = omega arith;
  ttl_lt = omega arith;
  proto_lt = omega arith;
  cksum_lt = omega arith;
  src_lt = s.0;
  dst_lt = t.0;
}

wrap_header-Measures :
    (a : TcpOverIpv4Adapter) (seg : TcpSegment) (payload : List ℕ)
    → length payload ≡ 4 * seg.header.doff + length seg.payload
    → seg.header.doff < 16
    → length seg.payload < 2 ^ 15
    → Measures (wrap_header a seg) payload
unfolding wrap_header
wrap_header-Measures a seg payload e d h = omega arith

-- The datagram that the device carries, with the checksum of its header.
abbrev pub carried : TcpOverIpv4Adapter → TcpSegment → List ℕ → ℕ → Ipv4Datagram
carried a seg payload k = record {
  header = record (wrap_header a (addressed a seg)) { cksum = k };
  payload = payload;
}

pseudo_cksum-carried :
    (a : TcpOverIpv4Adapter) (seg : TcpSegment) (payload : List ℕ) (k : ℕ)
    → pseudo_cksum (carried a seg payload k).header ≡ pseudo_cksum (wrap_header a (addressed a seg))
unfolding pseudo_cksum payload_length
pseudo_cksum-carried a seg payload k = refl

tun_write-eq :
    (a : TcpOverIpv4Adapter) (seg : TcpSegment) (d : Ipv4Datagram) (bytes : List ℕ)
    → wrap_tcp_in_ip a seg ≡ (addressed a seg, some d)
    → Ipv4Datagram.serialize d ≡ some bytes
    → tun_write a seg ≡ (addressed a seg, some bytes)
unfolding tun_write
tun_write-eq a seg d bytes e f = rw (e, f) refl

pub tun_write-parse :
    (a : TcpOverIpv4Adapter) (seg : TcpSegment)
    → IsSendable a seg
    → (bytes payload : List ℕ) × (k l : ℕ) × (tun_write a seg ≡ (addressed a seg, some bytes))
      × (Ipv4Datagram.parse empty_datagram bytes ≡ (no_error, carried a seg payload l))
      × (TcpSegment.parse empty_segment payload (pseudo_cksum (carried a seg payload l).header)
          ≡ (no_error, stamped a seg k))
tun_write-parse a seg s =
    let seg' = addressed a seg in
    let h = wrap_header a seg' in
    let valid = addressed-IsValid a seg s.valid s.from_fits s.to_fits in
    let room : RoundTrip.Fits seg' (pseudo_cksum h) =
      omega (arith, pseudo_cksum-le a seg' s.from_fits s.to_fits, s.valid.doff_lt, s.short) in
    let (payload, k, written, read) =
      parse-serialize_segment seg' empty_segment (pseudo_cksum h) valid s.octets room in
    let (bytes, l, out, _passes, back) =
      parse-serialize_datagram (record { header = h; payload = payload }) empty_datagram
        (wrap_header-IsValid a seg' s.from_fits s.to_fits)
        (wrap_header-Measures a seg' payload
          (length-serialize seg' (pseudo_cksum h) payload valid s.octets room written)
          s.valid.doff_lt s.short) in
    (
      bytes,
      payload,
      k,
      l,
      tun_write-eq a seg _ bytes (wrap_tcp_in_ip-eq a seg payload written) out,
      back,
      ap (TcpSegment.parse empty_segment payload) (pseudo_cksum-carried a seg payload l) ∙ read,
    )

-- A UDP adapter that is connected to the address that the datagrams of the other come from, or
-- listens and gets the first segment.
abbrev pub Awaits : TcpOverIpv4Adapter → Address → TcpSegment → Type 0
Awaits b from seg =
    ((b.listening ≡ false) × (b.destination ≡ from))
    ⊎ ((b.listening ≡ true) × (seg.header.syn ≡ true) × (seg.header.rst ≡ false))

-- The adapter once it is connected.
abbrev pub connected : TcpOverIpv4Adapter → Address → TcpOverIpv4Adapter
connected b from = record b { destination = from; listening = false }

tun_read-unwrap :
    (b : TcpOverIpv4Adapter) (bytes : List ℕ) (d : Ipv4Datagram)
    → Ipv4Datagram.parse empty_datagram bytes ≡ (no_error, d)
    → tun_read b bytes ≡ unwrap_tcp_in_ip b d
unfolding tun_read is_no_error
tun_read-unwrap b bytes d e = rw e refl

-- A valid segment with fewer than 2 ^ 15 bytes of payload is written as an IPv4 datagram with the
-- ports of the adapter; the adapter of the peer, be it connected to this one, or listening on the
-- port and the segment one with SYN and without RST, reads the same segment from these bytes, up to
-- its checksum, and is then connected to this one.
pub tun_read-tun_write :
    (a b : TcpOverIpv4Adapter) (seg : TcpSegment)
    → IsSendable a seg
    → Expects b a seg
    → (bytes : List ℕ) × (k : ℕ) × (tun_write a seg ≡ (addressed a seg, some bytes))
      × (tun_read b bytes ≡ (some (stamped a seg k), peer a))
tun_read-tun_write a b seg s expects =
    let (bytes, payload, k, l, written, parsed, read) = tun_write-parse a seg s in
    let d = carried a seg payload l in
    let (src, dst, proto) = wrap_header_fields a (addressed a seg) in
    (
      bytes,
      k,
      written,
      tun_read-unwrap b bytes d parsed
          ∙ unwrap_expected a b d (stamped a seg k) src dst proto read refl refl expects,
    )

pub tun_read-AtMost :
    (b : TcpOverIpv4Adapter) (bytes : List ℕ) (d : Ipv4Datagram) (seg : TcpSegment)
    → Ipv4Datagram.parse empty_datagram bytes ≡ (no_error, d)
    → TcpSegment.parse empty_segment d.payload (pseudo_cksum d.header) ≡ (no_error, seg)
    → AtMost seg (tun_read b bytes).0
tun_read-AtMost b bytes d seg e f =
    subst (λ (r : Option TcpSegment × TcpOverIpv4Adapter). AtMost seg r.0)
      (sym (tun_read-unwrap b bytes d e)) (unwrap_tcp_in_ip-AtMost b d seg f)
