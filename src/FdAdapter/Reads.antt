-- ===== src/FdAdapter/Reads.antt =====
-- fd_adapter.cc and tcp_over_ip.cc: an adapter gives the segment that it has parsed, or nothing.
use computer_network_labs.TcpSegment
use computer_network_labs.TcpSegment.{TcpSegment, empty_segment}
use computer_network_labs.Base.{
  ◌==◌, if◌then◌else◌, ℕ, ◌≡◌, refl, ◌⊎◌, inl, inr, Bool, true, false, not, ◌&&◌, Option, none,
  some,
}
use computer_network_labs.Ipv4Header.{proto_tcp, pseudo_cksum, Ipv4Header}
use computer_network_labs.Ipv4Datagram.{Ipv4Datagram}
use computer_network_labs.TcpOverIp.{accept, unwrap_tcp_in_ip, Address, TcpOverIpv4Adapter}
use computer_network_labs.NetParser.{is_no_error, no_error}
use computer_network_labs.FdAdapter.{
  same_address, udp_accept, udp_read, should_drop, lossy_read, UdpDatagram, LossRates,
}

-- Either nothing, or this segment.
abbrev pub AtMost : TcpSegment → Option TcpSegment → Type 0
AtMost seg ret = (ret ≡ none) ⊎ (ret ≡ some seg)

AtMost-if :
    {seg : TcpSegment} {A : Type 0} (c : Bool) (x y : Option TcpSegment × A)
    → AtMost seg x.0
    → AtMost seg y.0
    → AtMost seg (if c then x else y).0
AtMost-if true x y p q = p
AtMost-if false x y p q = q

udp_accept-AtMost :
    (a : TcpOverIpv4Adapter) (from : Address) (seg : TcpSegment)
    → AtMost seg (udp_accept a from seg).0
unfolding udp_accept
udp_accept-AtMost a from seg =
    AtMost-if a.listening _ _
      (AtMost-if (seg.header.syn && not seg.header.rst) _ _ (inr refl) (inl refl)) (inr refl)

pub udp_read-AtMost :
    (a : TcpOverIpv4Adapter) (d : UdpDatagram) (seg : TcpSegment)
    → TcpSegment.parse empty_segment d.payload 0 ≡ (no_error, seg)
    → AtMost seg (udp_read a d).0
unfolding udp_read is_no_error
udp_read-AtMost a d seg e =
    AtMost-if (not a.listening && not (same_address d.address a.destination)) _ _ (inl refl)
      (rw e (udp_accept-AtMost a d.address seg))

accept-AtMost :
    (a : TcpOverIpv4Adapter) (h : Ipv4Header) (seg : TcpSegment) → AtMost seg (accept a h seg).0
unfolding accept
accept-AtMost a h seg = AtMost-if (not (seg.header.dport == a.source.port)) _ _ (inl refl) (
    AtMost-if a.listening _ _
      (AtMost-if (seg.header.syn && not seg.header.rst) _ _ (inr refl) (inl refl))
      (AtMost-if (not (seg.header.sport == a.destination.port)) _ _ (inl refl) (inr refl)))

pub unwrap_tcp_in_ip-AtMost :
    (a : TcpOverIpv4Adapter) (d : Ipv4Datagram) (seg : TcpSegment)
    → TcpSegment.parse empty_segment d.payload (pseudo_cksum d.header) ≡ (no_error, seg)
    → AtMost seg (unwrap_tcp_in_ip a d).0
unfolding unwrap_tcp_in_ip is_no_error
unwrap_tcp_in_ip-AtMost a d seg e =
    AtMost-if (not a.listening && not (d.header.dst == a.source.ipv4_numeric)) _ _ (inl refl) (
      AtMost-if (not a.listening && not (d.header.src == a.destination.ipv4_numeric)) _ _ (inl refl)
        (AtMost-if (not (d.header.proto == proto_tcp)) _ _ (inl refl)
          (rw e (accept-AtMost a d.header seg))))

pub lossy_read-AtMost :
    {A : Type 0} (cfg : LossRates) (random : ℕ) (r : Option TcpSegment × A) (seg : TcpSegment)
    → AtMost seg r.0
    → AtMost seg (lossy_read cfg random r).0
unfolding lossy_read
lossy_read-AtMost cfg random (ret, a) seg h =
    AtMost-if (should_drop cfg random false) _ _ (inl refl) h
