-- ===== src/TcpOverIp/Peers.antt =====
-- tcp_over_ip.cc: what one adapter wraps, that of its peer unwraps.
use computer_network_labs.NetParser.{no_error, is_no_error}
use computer_network_labs.TcpHeader.RoundTrip.{IsValid}
use computer_network_labs.TcpSegment
use computer_network_labs.TcpSegment.{TcpSegment, empty_segment}
use computer_network_labs.TcpSegment.RoundTrip.{parse-serialize_segment}
use computer_network_labs.Base.{
  length, AllBytes, ℕ, ◌^◌, ◌<◌, ◌≡◌, refl, ◌⊎◌, inl, inr, true, false, some, List, arith,
}
use computer_network_labs.Ipv4Header.{proto_tcp, payload_length, pseudo_cksum}
use computer_network_labs.Ipv4Datagram.{Ipv4Datagram}
use computer_network_labs.TcpOverIp.{
  accept, unwrap_tcp_in_ip, wrap_header, wrap_tcp_in_ip, Address, TcpOverIpv4Adapter,
}

-- The segment with the ports of the adapter.
abbrev pub addressed : TcpOverIpv4Adapter → TcpSegment → TcpSegment
addressed a seg = record seg {
  header = record (seg.header) { sport = a.source.port; dport = a.destination.port };
}

-- The addresses and ports fit their widths.
abbrev pub Fit : Address → Type 0
Fit a = (a.ipv4_numeric < 2 ^ 32) × (a.port < 2 ^ 16)

pub pseudo_cksum-le :
    (a : TcpOverIpv4Adapter) (seg : TcpSegment)
    → Fit a.source
    → Fit a.destination
    → pseudo_cksum (wrap_header a seg) < 2 ^ 19
unfolding pseudo_cksum wrap_header payload_length
pseudo_cksum-le a seg s d = omega arith

-- The adapter that expects what `a` sends.
abbrev pub peer : TcpOverIpv4Adapter → TcpOverIpv4Adapter
peer a = record { source = a.destination; destination = a.source; listening = false }

pub addressed-IsValid :
    (a : TcpOverIpv4Adapter) (seg : TcpSegment)
    → IsValid seg.header
    → Fit a.source
    → Fit a.destination
    → IsValid (addressed a seg).header
addressed-IsValid a seg v s d = record {
  sport_lt = s.1;
  dport_lt = d.1;
  seqno_lt = v.seqno_lt;
  ackno_lt = v.ackno_lt;
  doff_ge = v.doff_ge;
  doff_lt = v.doff_lt;
  win_lt = v.win_lt;
  cksum_lt = v.cksum_lt;
  uptr_lt = v.uptr_lt;
}

-- The adapter expects what `a` sends: it is connected to it, or listens and gets the first segment.
abbrev pub Expects : TcpOverIpv4Adapter → TcpOverIpv4Adapter → TcpSegment → Type 0
Expects b a seg =
    (b ≡ peer a)
    ⊎ ((b.listening ≡ true)
        × (b.source.port ≡ a.destination.port)
        × (seg.header.syn ≡ true)
        × (seg.header.rst ≡ false))

unwrap_connected :
    (a : TcpOverIpv4Adapter) (d : Ipv4Datagram) (seg : TcpSegment)
    → d.header.src ≡ a.source.ipv4_numeric
    → d.header.dst ≡ a.destination.ipv4_numeric
    → d.header.proto ≡ proto_tcp
    → TcpSegment.parse empty_segment d.payload (pseudo_cksum d.header) ≡ (no_error, seg)
    → seg.header.sport ≡ a.source.port
    → seg.header.dport ≡ a.destination.port
    → unwrap_tcp_in_ip (peer a) d ≡ (some seg, peer a)
unfolding unwrap_tcp_in_ip accept is_no_error
unwrap_connected a d seg src dst proto e sp dp = ground (arith, e)

unwrap_listening :
    (a b : TcpOverIpv4Adapter) (d : Ipv4Datagram) (seg : TcpSegment)
    → d.header.src ≡ a.source.ipv4_numeric
    → d.header.dst ≡ a.destination.ipv4_numeric
    → d.header.proto ≡ proto_tcp
    → TcpSegment.parse empty_segment d.payload (pseudo_cksum d.header) ≡ (no_error, seg)
    → seg.header.sport ≡ a.source.port
    → seg.header.dport ≡ a.destination.port
    → b.listening ≡ true
    → b.source.port ≡ a.destination.port
    → seg.header.syn ≡ true
    → seg.header.rst ≡ false
    → unwrap_tcp_in_ip b d ≡ (some seg, peer a)
unfolding unwrap_tcp_in_ip accept is_no_error
unwrap_listening a b d seg src dst proto e sp dp l p syn rst = ground (arith, e)

pub unwrap_expected :
    (a b : TcpOverIpv4Adapter) (d : Ipv4Datagram) (seg : TcpSegment)
    → d.header.src ≡ a.source.ipv4_numeric
    → d.header.dst ≡ a.destination.ipv4_numeric
    → d.header.proto ≡ proto_tcp
    → TcpSegment.parse empty_segment d.payload (pseudo_cksum d.header) ≡ (no_error, seg)
    → seg.header.sport ≡ a.source.port
    → seg.header.dport ≡ a.destination.port
    → Expects b a seg
    → unwrap_tcp_in_ip b d ≡ (some seg, peer a)
unwrap_expected a b d seg src dst proto e sp dp (inl q) =
    rw q (unwrap_connected a d seg src dst proto e sp dp)
unwrap_expected a b d seg src dst proto e sp dp (inr (l, p, syn, rst)) =
    unwrap_listening a b d seg src dst proto e sp dp l p syn rst

pub wrap_tcp_in_ip-eq :
    (a : TcpOverIpv4Adapter) (seg : TcpSegment) (bytes : List ℕ)
    → TcpSegment.serialize (addressed a seg) (pseudo_cksum (wrap_header a (addressed a seg)))
      ≡ some bytes
    → wrap_tcp_in_ip a seg ≡ (
      addressed a seg,
      some (record { header = wrap_header a (addressed a seg); payload = bytes }),
    )
unfolding wrap_tcp_in_ip
wrap_tcp_in_ip-eq a seg bytes e = ground (arith, e)

pub wrap_header_fields :
    (a : TcpOverIpv4Adapter) (seg : TcpSegment)
    → ((wrap_header a seg).src ≡ a.source.ipv4_numeric)
      × ((wrap_header a seg).dst ≡ a.destination.ipv4_numeric)
      × ((wrap_header a seg).proto ≡ proto_tcp)
unfolding wrap_header
wrap_header_fields a seg = (refl, refl, refl)

-- A valid segment with fewer than 2 ^ 15 bytes of payload is wrapped with the ports of the adapter;
-- the adapter of the peer, be it connected to this one, or listening on the port and the segment
-- one with SYN and without RST, unwraps the same segment, up to its checksum, and is then connected
-- to this one.
pub unwrap-wrap_tcp_in_ip :
    (a b : TcpOverIpv4Adapter) (seg : TcpSegment)
    → IsValid seg.header
    → AllBytes seg.payload
    → length seg.payload < 2 ^ 15
    → Fit a.source
    → Fit a.destination
    → Expects b a seg
    → (d : Ipv4Datagram) × (k : ℕ) × (wrap_tcp_in_ip a seg ≡ (addressed a seg, some d))
      × (unwrap_tcp_in_ip b d ≡ (
        some
            (record (addressed a seg) { header = record ((addressed a seg).header) { cksum = k } }),
        peer a,
      ))
unwrap-wrap_tcp_in_ip a b seg v octets short s t expects =
    let seg' = addressed a seg in
    let h = wrap_header a seg' in
    let (bytes, k, written, read) =
      parse-serialize_segment seg' empty_segment (pseudo_cksum h) (addressed-IsValid a seg v s t)
        octets (omega (arith, pseudo_cksum-le a seg' s t, v.doff_lt)) in
    let d : Ipv4Datagram = record { header = h; payload = bytes } in
    let sent : TcpSegment = record seg' { header = record (seg'.header) { cksum = k } } in
    let (src, dst, proto) = wrap_header_fields a seg' in
    (
      d,
      k,
      wrap_tcp_in_ip-eq a seg bytes written,
      unwrap_expected a b d sent src dst proto read refl refl expects,
    )
