-- ===== src/Router/Handle/Icmps.antt =====
-- handle_ip_packet of ip.c with icmp_send_packet of icmp.c: what the router answers.
use computer_network_labs.Router.Checksum
use computer_network_labs.Base.{
  length, take, length-append, length-take, AllBytes, AllBytes-append, ℕ, zero, suc, ◌+◌, ◌^◌, ◌≤◌,
  ◌<◌, ◌≡◌, refl, ap, ◌∙◌, ◌≢◌, some, List, [], ◌∷◌, ◌++◌, append-nil, arith,
}
use computer_network_labs.Device.{IfaceInfo}
use computer_network_labs.Router.Run.{◌>>=◌, ok}
use computer_network_labs.Router.Packet.{
  net16, net32, host16, front_bytes, back_bytes, header_bytes, ipproto_icmp, icmp_echoreply,
  icmp_echorequest, icmp_time_exceeded, icmp_exc_ttl, icmp_copied_data_len, IpHeader, Packet,
  ip_frame,
}
use computer_network_labs.Router.Rtable.{Rtable, longest_prefix_match, RtEntry}
use computer_network_labs.Router.State.{iface_send_packet, free_again, Router, System}
use computer_network_labs.Router.Ip.{ip_init_hdr, send_by_route, ip_send_packet}
use computer_network_labs.Router.Icmp.{
  icmp_offset, heap_bytes, echo_message, error_message, set_icmp_checksum, icmp_message,
  icmp_packet, icmp_send_packet,
}
use computer_network_labs.Router.Icmp.Message.{summed, set_icmp_checksum_lem}
use computer_network_labs.Router.Handle.{forward_packet, icmp_type, handle_ip_packet}
use computer_network_labs.Router.Packet.HeaderSum.{HasOptions}

-- The router after it has sent a message straight to the interface of a route, and freed it twice.
abbrev pub told : System → Packet → RtEntry → List ℕ → Router → Router
told sys packet rt message r = record r {
  outbox = r.outbox ++ ((rt.iface, ip_frame (icmp_packet sys packet rt.iface message)) ∷ []);
  bad_frees = r.bad_frees + 1;
}

icmp_packet-daddr :
    (sys : System) (packet : Packet) (iface : IfaceInfo) (message : List ℕ)
    → (icmp_packet sys packet iface message).ip.daddr ≡ packet.ip.saddr
unfolding icmp_packet ip_init_hdr
icmp_packet-daddr sys packet iface message = refl

-- The packet goes where the route back to the sender leads.
pub icmp_packet-longest_prefix_match :
    (sys : System) (packet : Packet) (iface : IfaceInfo) (message : List ℕ) (t : Rtable)
    → longest_prefix_match (icmp_packet sys packet iface message).ip.daddr t
      ≡ longest_prefix_match packet.ip.saddr t
icmp_packet-longest_prefix_match sys packet iface message t =
    ap (λ a. longest_prefix_match a t) (icmp_packet-daddr sys packet iface message)

ip_send_packet-direct :
    (sys : System) (packet : Packet) (r : Router) (rt : RtEntry)
    → longest_prefix_match packet.ip.daddr r.rtable ≡ some rt
    → rt.gw ≡ 0
    → ip_send_packet sys packet r
      ≡ ok (record r { outbox = r.outbox ++ ((rt.iface, ip_frame packet) ∷ []) })
unfolding ip_send_packet send_by_route iface_send_packet
ip_send_packet-direct sys packet r rt m g = ground (arith, m)

pub icmp_send_packet-ip_send_packet :
    (sys : System) (packet : Packet) (type code : ℕ) (r : Router) (rt : RtEntry) (message : List ℕ)
    → longest_prefix_match packet.ip.saddr r.rtable ≡ some rt
    → icmp_message sys packet type code ≡ ok message
    → icmp_send_packet sys packet type code r
      ≡ (ip_send_packet sys (icmp_packet sys packet rt.iface message) r >>= λ q. ok (free_again q))
unfolding icmp_send_packet
icmp_send_packet-ip_send_packet sys packet type code r rt message m e = ground (arith, m, e)

icmp_send_packet-direct :
    (sys : System) (packet : Packet) (type code : ℕ) (r : Router) (rt : RtEntry) (message : List ℕ)
    → longest_prefix_match packet.ip.saddr r.rtable ≡ some rt
    → rt.gw ≡ 0
    → icmp_message sys packet type code ≡ ok message
    → icmp_send_packet sys packet type code r ≡ ok (told sys packet rt message r)
unfolding free_again
icmp_send_packet-direct sys packet type code r rt message m g e =
    let out = icmp_packet sys packet rt.iface message in
    icmp_send_packet-ip_send_packet sys packet type code r rt message m e
    ∙ ap (λ o. o >>= λ q. ok (free_again q))
        (ip_send_packet-direct sys out r rt
          (icmp_packet-longest_prefix_match sys packet rt.iface message r.rtable ∙ m) g)

icmp_message-echo :
    (sys : System) (packet : Packet)
    → packet.ip.ihl ≡ 5
    → icmp_message sys packet icmp_echoreply 0 ≡ set_icmp_checksum packet.payload
unfolding icmp_message echo_message heap_bytes
icmp_message-echo sys packet ihl = rw ihl (ap set_icmp_checksum (append-nil packet.payload))

handle_ip_packet-icmp :
    (sys : System) (iface : IfaceInfo) (packet : Packet) (rest : List ℕ) (r : Router)
    → packet.ip.protocol ≡ ipproto_icmp
    → packet.payload ≡ icmp_echorequest ∷ rest
    → packet.ip.daddr ≡ iface.ip
    → handle_ip_packet sys iface packet r ≡ icmp_send_packet sys packet icmp_echoreply 0 r
unfolding handle_ip_packet icmp_type
handle_ip_packet-icmp sys iface packet rest r p pl da = ground (arith, pl)

-- An echo request to the address of the interface, without options and from a directly connected
-- network, is answered by one message that repeats the request, with the type 8 of a request, and
-- has a checksum of 0. The code then frees its packet, which has been freed, once more; the model
-- counts this.
pub handle_ip_packet-echo :
    (sys : System) (iface : IfaceInfo) (packet : Packet) (code c d : ℕ) (rest : List ℕ) (r : Router)
    (rt : RtEntry)
    → packet.ip.protocol ≡ ipproto_icmp
    → packet.payload ≡ icmp_echorequest ∷ code ∷ c ∷ d ∷ rest
    → packet.ip.daddr ≡ iface.ip
    → packet.ip.ihl ≡ 5
    → code < 256
    → AllBytes rest
    → length rest < 2 ^ 16
    → longest_prefix_match packet.ip.saddr r.rtable ≡ some rt
    → rt.gw ≡ 0
    → (k : ℕ) × (handle_ip_packet sys iface packet r
        ≡ ok (told sys packet rt (summed icmp_echorequest code k rest) r))
      × (Checksum.checksum (summed icmp_echorequest code k rest) 0 ≡ 0)
handle_ip_packet-echo sys iface packet code c d rest r rt p pl da ihl hc a l m g =
    let (k, run, zero_sum) =
      set_icmp_checksum_lem icmp_echorequest code c d rest (omega arith) hc a l in
    (
      k,
      handle_ip_packet-icmp sys iface packet _ r p pl da
          ∙ icmp_send_packet-direct sys packet icmp_echoreply 0 r rt _ m g
              (icmp_message-echo sys packet ihl ∙ ap set_icmp_checksum pl ∙ run),
      zero_sum,
    )

-- The parts of an error message behind its checksum: four bytes that nothing has written, the header
-- and eight bytes of the packet.
abbrev pub quoted : System → Packet → List ℕ
quoted sys packet =
    heap_bytes sys.heap (icmp_offset + 4) 4
    ++ header_bytes packet.ip
    ++ take icmp_copied_data_len packet.payload

header_bytes-AllBytes : (h : IpHeader) → HasOptions h → AllBytes (header_bytes h)
unfolding header_bytes front_bytes back_bytes net16 net32 host16
header_bytes-AllBytes h o = let options = o.bytes in search arith

take-AllBytes : (n : ℕ) (xs : List ℕ) → AllBytes xs → AllBytes (take n xs)
take-AllBytes zero xs a = tt
take-AllBytes (suc n) [] a = tt
take-AllBytes (suc n) (x ∷ xs) a = (a.0, take-AllBytes n xs a.1)

heap_bytes-AllBytes : (heap : ℕ → ℕ) (from n : ℕ) → AllBytes (heap_bytes heap from n)
unfolding heap_bytes
heap_bytes-AllBytes heap from zero = tt
heap_bytes-AllBytes heap from (suc n) = (omega arith, heap_bytes-AllBytes heap (suc from) n)

quoted-AllBytes :
    (sys : System) (packet : Packet)
    → HasOptions packet.ip
    → AllBytes packet.payload
    → AllBytes (quoted sys packet)
quoted-AllBytes sys packet o a =
    let unwritten = heap_bytes sys.heap (icmp_offset + 4) 4 in
    AllBytes-append (unwritten ++ header_bytes packet.ip) (take icmp_copied_data_len packet.payload)
      (AllBytes-append unwritten (header_bytes packet.ip)
        (heap_bytes-AllBytes sys.heap (icmp_offset + 4) 4) (header_bytes-AllBytes packet.ip o))
      (take-AllBytes icmp_copied_data_len packet.payload a)

length-quoted :
    (sys : System) (packet : Packet) → HasOptions packet.ip → length (quoted sys packet) ≤ 72
unfolding header_bytes front_bytes back_bytes net16 net32 host16 heap_bytes
length-quoted sys packet o = omega (
  arith,
  o.short,
  length-append packet.ip.options (take icmp_copied_data_len packet.payload),
  length-take icmp_copied_data_len packet.payload,
)

icmp_message-error :
    (sys : System) (packet : Packet) (type code : ℕ)
    → type ≢ icmp_echoreply
    → 8 ≤ length packet.payload
    → icmp_message sys packet type code
      ≡ set_icmp_checksum (type ∷ code ∷ 0 ∷ 0 ∷ quoted sys packet)
unfolding icmp_message error_message
icmp_message-error sys packet type code t l = ground arith

handle_ip_packet-expired :
    (sys : System) (iface : IfaceInfo) (packet : Packet) (r : Router) (rt : RtEntry)
    → packet.ip.protocol ≢ ipproto_icmp
    → packet.ip.ttl ≤ 1
    → longest_prefix_match packet.ip.daddr r.rtable ≡ some rt
    → handle_ip_packet sys iface packet r
      ≡ icmp_send_packet sys packet icmp_time_exceeded icmp_exc_ttl r
unfolding handle_ip_packet forward_packet
handle_ip_packet-expired sys iface packet r rt p t m = ground (arith, m)

-- A packet other than ICMP with a time to live of at most 1 and a route, whose sender is on a
-- directly connected network, is answered by one ICMP message to the sender of type 11 and code 0,
-- which carries the header and the first eight bytes of the packet behind four bytes of unwritten
-- memory, and whose checksum is 0. The packet has at least eight bytes of data, and at most forty
-- bytes of options. The code then frees its packet, which has been freed, once more; the model
-- counts this.
pub handle_ip_packet-time_exceeded :
    (sys : System) (iface : IfaceInfo) (packet : Packet) (r : Router) (rt back : RtEntry)
    → packet.ip.protocol ≢ ipproto_icmp
    → packet.ip.ttl ≤ 1
    → HasOptions packet.ip
    → AllBytes packet.payload
    → 8 ≤ length packet.payload
    → longest_prefix_match packet.ip.daddr r.rtable ≡ some rt
    → longest_prefix_match packet.ip.saddr r.rtable ≡ some back
    → back.gw ≡ 0
    → (k : ℕ) × (handle_ip_packet sys iface packet r
        ≡ ok
            (told sys packet back (summed icmp_time_exceeded icmp_exc_ttl k (quoted sys packet)) r))
      × (Checksum.checksum (summed icmp_time_exceeded icmp_exc_ttl k (quoted sys packet)) 0 ≡ 0)
handle_ip_packet-time_exceeded sys iface packet r rt back p t o a l m m' g =
    let (k, run, zero_sum) =
      set_icmp_checksum_lem icmp_time_exceeded icmp_exc_ttl 0 0 (quoted sys packet) (omega arith)
        (omega arith) (quoted-AllBytes sys packet o a)
        (omega (arith, length-quoted sys packet o)) in
    (
      k,
      handle_ip_packet-expired sys iface packet r rt p t m
          ∙ icmp_send_packet-direct sys packet icmp_time_exceeded icmp_exc_ttl r back _ m' g (
              icmp_message-error sys packet icmp_time_exceeded icmp_exc_ttl (λ e. omega arith) l
              ∙ run),
      zero_sum,
    )
