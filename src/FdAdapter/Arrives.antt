-- ===== src/FdAdapter/Arrives.antt =====
-- The adapters of fd_adapter.cc, tuntap_adapter.hh and lossy_fd_adapter.hh below two sockets: what a
-- socket gets by them is an event of the network.
use computer_network_labs.TcpSegment.{TcpSegment}
use computer_network_labs.Base.{
  if_ind, length, get_elem?, get_elem?-length, ℕ, ◌≡◌, refl, inl, inr, true, Option, none, some,
  List, [], ◌∷◌,
}
use computer_network_labs.TcpOverIp.{Address, TcpOverIpv4Adapter}
use computer_network_labs.TcpOverIp.Peers.{addressed}
use computer_network_labs.FdAdapter.{
  udp_read, udp_write, tun_read, tun_write, should_drop, lossy_read, lossy_write, UdpDatagram,
  LossRates,
}
use computer_network_labs.FdAdapter.Reads.{AtMost, udp_read-AtMost, lossy_read-AtMost}
use computer_network_labs.FdAdapter.Rounds.{
  stamped, udp_write-parse, carried, tun_write-parse, tun_read-AtMost, IsSendable,
}
use computer_network_labs.SpongeSocket.{receive, SpongeSocket}
use computer_network_labs.SpongeSocket.Network.{readdress, arrival, happen, gets}

-- The callback of rule 1, on what its adapter has read, does what an arrival from `wire` does.
abbrev pub Hears : List TcpSegment → SpongeSocket → Option TcpSegment → Type 0
Hears wire s ret =
    (i sport dport cksum : ℕ) × (receive ret s ≡ happen wire (gets i sport dport cksum) s)

AtMost-Hears :
    (wire : List TcpSegment) (s : SpongeSocket) (i : ℕ) (a : TcpOverIpv4Adapter) (seg : TcpSegment)
    (k : ℕ) (ret : Option TcpSegment)
    → get_elem? wire i ≡ some seg
    → AtMost (stamped a seg k) ret
    → Hears wire s ret
unfolding happen arrival readdress
AtMost-Hears wire s i a seg k ret e (inl q) =
    (length wire, 0, 0, 0, rw (q, get_elem?-length wire) refl)
AtMost-Hears wire s i a seg k ret e (inr q) =
    (i, a.source.port, a.destination.port, k, rw (q, e) refl)

-- There is at most one datagram, and what the other end makes of it.
abbrev pub AtMostOne :
    (A : Type 0)
    → List TcpSegment
    → SpongeSocket
    → (A → Option TcpSegment × TcpOverIpv4Adapter)
    → List A
    → Type 0
AtMostOne A wire s read [] = Unit {0}
AtMostOne A wire s read (d ∷ []) = Hears wire s (read d).0
AtMostOne A wire s read (d ∷ e ∷ ds) = ⊥

-- The datagrams that a write sends, none or one, are heard.
abbrev pub Carries :
    (A : Type 0)
    → List TcpSegment
    → SpongeSocket
    → (A → Option TcpSegment × TcpOverIpv4Adapter)
    → TcpSegment × Option (List A)
    → Type 0
Carries A wire s read (seg, none) = ⊥
Carries A wire s read (seg, some ds) = AtMostOne A wire s read ds

lossy_write-Carries :
    {A : Type 0} (cfg : LossRates) (random : ℕ) (write : TcpSegment → TcpSegment × Option A)
    (seg seg' : TcpSegment) (d : A) (wire : List TcpSegment) (s : SpongeSocket)
    (read : A → Option TcpSegment × TcpOverIpv4Adapter)
    → write seg ≡ (seg', some d)
    → Hears wire s (read d).0
    → Carries A wire s read (lossy_write cfg random write seg)
unfolding lossy_write
lossy_write-Carries {A} cfg random write seg seg' d wire s read e h =
    if_ind (Carries A wire s read) (should_drop cfg random true) (λ _. tt) (λ _. rw e h)

-- The other end of UDP, for a datagram that comes from `from`.
abbrev pub udp_end :
    LossRates
    → ℕ
    → TcpOverIpv4Adapter
    → Address
    → UdpDatagram
    → Option TcpSegment × TcpOverIpv4Adapter
udp_end cfg random b from d =
    lossy_read cfg random (udp_read b (record { address = from; payload = d.payload }))

-- Let a segment with valid fields be the i-th of those that a socket has sent, with fewer than 2 ^
-- 15 bytes of payload, and let the addresses of its adapter fit their widths. Writing it by a lossy
-- adapter over UDP, or over a TUN device, does not throw and sends at most one datagram; whatever
-- the loss rates, the random numbers and the state of the adapter that reads the datagram, and for
-- UDP the address that it comes from, the callback of rule 1 does with what is read just what the
-- delivery of one of the sent segments, or of none, does in the network of the two sockets.
pub lossy_adapters-Carries :
    (out back : LossRates) (random random' : ℕ) (a b : TcpOverIpv4Adapter) (from : Address)
    (wire : List TcpSegment) (s : SpongeSocket) (i : ℕ) (seg : TcpSegment)
    → get_elem? wire i ≡ some seg
    → IsSendable a seg
    → Carries UdpDatagram wire s
        (udp_end back random' b from)
        (lossy_write out random (udp_write a) seg)
      × Carries
          (List ℕ)
          wire
          s
          (λ bytes. lossy_read back random' (tun_read b bytes))
          (lossy_write out random (tun_write a) seg)
lossy_adapters-Carries out back random random' a b from wire s i seg e sendable =
    let (payload, k, written, read) = udp_write-parse a seg sendable in
    let (bytes, segment, l, m, written', parsed, read') = tun_write-parse a seg sendable in
    let d : UdpDatagram = record { address = from; payload = payload } in
    (
      lossy_write-Carries out random (udp_write a) seg (addressed a seg)
          (record { address = a.destination; payload = payload }) wire s
          (udp_end back random' b from) written
          (AtMost-Hears wire s i a seg k _ e (
            lossy_read-AtMost back random' (udp_read b d) (stamped a seg k)
              (udp_read-AtMost b d (stamped a seg k) read))),
      lossy_write-Carries out random (tun_write a) seg (addressed a seg) bytes wire s
          (λ bytes'. lossy_read back random' (tun_read b bytes')) written'
          (AtMost-Hears wire s i a seg l _ e (
            lossy_read-AtMost back random' (tun_read b bytes) (stamped a seg l)
              (tun_read-AtMost b bytes (carried a seg segment m) (stamped a seg l) parsed read'))),
    )
