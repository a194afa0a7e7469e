-- ===== src/Router/Handle/Lock.antt =====
-- handle_packet of main.c with all that it calls: no fault, and the mutex is free at the end.
use computer_network_labs.Base.{
  ltb, leb, ◌==◌, Bool-cases, Option-cases, length, length-append, ℕ, ◌+◌, ◌-◌, ◌*◌, ◌≤◌, ◌≡◌, refl,
  ap, ◌∙◌, ◌⊎◌, inl, inr, false, ◌&&◌, some, List, [], ◌∷◌, ◌++◌, arith,
}
use computer_network_labs.Device.{Mac, IfaceInfo}
use computer_network_labs.Router.Run.{◌>>=◌, Run, ok}
use computer_network_labs.Router.Packet.{
  eth_p_ip, ipproto_icmp, icmp_echoreply, icmp_dest_unreach, icmp_echorequest, icmp_time_exceeded,
  icmp_net_unreach, icmp_exc_ttl, arpop_request, arpop_reply, Packet, ArpPacket, Frame, ip_frame,
  arp_frame, other_frame,
}
use computer_network_labs.Router.Rtable.{Rtable, longest_prefix_match, RtEntry}
use computer_network_labs.Router.State.{
  iface_send_packet, free_again, lock, unlock, ArpCacheEntry, Router, System,
}
use computer_network_labs.Router.ArpCache.{lookup_loop, arpcache_lookup}
use computer_network_labs.Router.ArpCache.Pending.{arpcache_append_packet_lem}
use computer_network_labs.Router.Ip.{iface_send_packet_by_arp, send_by_route, ip_send_packet}
use computer_network_labs.Router.Icmp.{
  icmp_offset, heap_bytes, echo_message, error_message, set_icmp_checksum, icmp_message,
  icmp_packet, icmp_send_packet,
}
use computer_network_labs.Router.Handle.{
  decrement_ttl, forward_packet, icmp_type, handle_ip_packet, arp_send_reply, handle_arp_packet,
  handle_packet,
}
use computer_network_labs.Router.Handle.Icmps.{
  icmp_packet-longest_prefix_match, icmp_send_packet-ip_send_packet,
}
use computer_network_labs.Router.ArpCache.Insert.{
  waiting, others, Caches, AllPast, arpcache_insert_lem,
}

-- The mutex is free, the table of addresses has entries, and none is from the future.
abbrev pub Ready : ℕ → Router → Type 0
Ready now r = (r.locked ≡ false) × (1 ≤ length r.entries) × AllPast now r.entries

-- A run ends without a fault, the router is ready again and the routes are the old ones.
abbrev pub Ends : ℕ → Rtable → Run Router → Type 0
Ends now t run = (q : Router) × (run ≡ ok q) × Ready now q × (q.rtable ≡ t)

-- The packet is long enough to be quoted, and there is a route back to its sender.
abbrev pub HasReply : Rtable → Packet → Type 0
HasReply t packet =
    (8 ≤ length packet.payload)
    × ((rt : RtEntry) × (longest_prefix_match packet.ip.saddr t ≡ some rt))

iface_send_packet_by_arp-Ends :
    (sys : System) (iface : IfaceInfo) (ip4 : ℕ) (packet : Packet) (r : Router)
    → Ready sys.now r
    → Ends sys.now r.rtable (iface_send_packet_by_arp sys iface ip4 packet r)
unfolding iface_send_packet_by_arp arpcache_lookup lock unlock iface_send_packet
iface_send_packet_by_arp-Ends sys iface ip4 packet r (free, h, p) =
    let filled = record packet { shost = iface.mac; ether_type = eth_p_ip } in
    let r' = record r { locked = false } in
    elim (Option-cases (lookup_loop ip4 r.entries)) [
      | inl e ↦
          let (q, run, _s, unlocked, same, routes, _f) =
            arpcache_append_packet_lem sys iface ip4 filled [] r' refl in
          (q, rw free (rw e run), (unlocked, rw same h, rw same p), routes)
      | inr (mac, e) ↦ (
        iface_send_packet iface (ip_frame (record filled { dhost = mac })) r',
        rw free (rw e refl),
        (refl, h, p),
        refl,
      )
    ]

send_by_route-Ends :
    (sys : System) (rt : RtEntry) (packet : Packet) (r : Router)
    → Ready sys.now r
    → Ends sys.now r.rtable (send_by_route sys rt packet r)
unfolding send_by_route iface_send_packet
send_by_route-Ends sys rt packet r ready = elim (Bool-cases (rt.gw == 0)) [
  | inl h ↦ (iface_send_packet rt.iface (ip_frame packet) r, rw h refl, ready, refl)
  | inr h ↦ rw h (iface_send_packet_by_arp-Ends sys rt.iface rt.gw packet r ready)
]

pub ip_send_packet-send_by_route :
    (sys : System) (packet : Packet) (rt : RtEntry) (r : Router)
    → longest_prefix_match packet.ip.daddr r.rtable ≡ some rt
    → ip_send_packet sys packet r ≡ send_by_route sys rt packet r
unfolding ip_send_packet
ip_send_packet-send_by_route sys packet rt r m = ground (arith, m)

ip_send_packet-Ends :
    (sys : System) (packet : Packet) (rt : RtEntry) (r : Router)
    → Ready sys.now r
    → longest_prefix_match packet.ip.daddr r.rtable ≡ some rt
    → Ends sys.now r.rtable (ip_send_packet sys packet r)
ip_send_packet-Ends sys packet rt r ready m =
    rw (ip_send_packet-send_by_route sys packet rt r m) (send_by_route-Ends sys rt packet r ready)

set_icmp_checksum-ok :
    (message : List ℕ) → 4 ≤ length message → (out : List ℕ) × (set_icmp_checksum message ≡ ok out)
unfolding set_icmp_checksum
set_icmp_checksum-ok (a ∷ b ∷ c ∷ d ∷ rest) h = (_, refl)
set_icmp_checksum-ok [] h = absurd (omega arith)
set_icmp_checksum-ok (a ∷ []) h = absurd (omega arith)
set_icmp_checksum-ok (a ∷ b ∷ []) h = absurd (omega arith)
set_icmp_checksum-ok (a ∷ b ∷ c ∷ []) h = absurd (omega arith)

pub icmp_message-ok :
    (sys : System) (packet : Packet) (type code : ℕ)
    → 8 ≤ length packet.payload
    → (out : List ℕ) × (icmp_message sys packet type code ≡ ok out)
unfolding icmp_message echo_message error_message
icmp_message-ok sys packet type code h = elim (Bool-cases (type == icmp_echoreply)) [
  | inl e ↦ rw e (
      set_icmp_checksum-ok (echo_message sys packet) (
        omega (
          arith,
          length-append packet.payload
              (heap_bytes sys.heap (icmp_offset + length packet.payload) (packet.ip.ihl * 4 - 20)),
        )))
  | inr e ↦ rw e (rw (long (length packet.payload) h) (set_icmp_checksum-ok _ (omega arith)))
]
  where
    long : (n : ℕ) → 8 ≤ n → ltb n 8 ≡ false
    long n l = ground arith

icmp_send_packet-Ends :
    (sys : System) (packet : Packet) (type code : ℕ) (r : Router)
    → Ready sys.now r
    → HasReply r.rtable packet
    → Ends sys.now r.rtable (icmp_send_packet sys packet type code r)
unfolding free_again
icmp_send_packet-Ends sys packet type code r ready (h, back) =
    let (rt, m) = back in
    let (message, e) = icmp_message-ok sys packet type code h in
    let (q, run, after, routes) =
      ip_send_packet-Ends sys (icmp_packet sys packet rt.iface message) rt r ready
        (icmp_packet-longest_prefix_match sys packet rt.iface message r.rtable ∙ m) in
    (
      free_again q,
      icmp_send_packet-ip_send_packet sys packet type code r rt message m e
          ∙ ap (λ o. o >>= λ p. ok (free_again p)) run,
      after,
      routes,
    )

forward_packet_cases :
    (sys : System) (packet : Packet) (r : Router)
    → ((type code : ℕ) × (forward_packet sys packet r ≡ icmp_send_packet sys packet type code r))
      ⊎ ((rt : RtEntry) × (forward_packet sys packet r
            ≡ send_by_route sys rt (decrement_ttl packet) r))
unfolding forward_packet
forward_packet_cases sys packet r =
    elim (Option-cases (longest_prefix_match packet.ip.daddr r.rtable)) [
      | inl e ↦ inl (icmp_dest_unreach, icmp_net_unreach, ground (arith, e))
      | inr (rt, e) ↦ elim (Bool-cases (leb packet.ip.ttl 1)) [
        | inl h ↦ inl (icmp_time_exceeded, icmp_exc_ttl, ground (arith, e, h))
        | inr h ↦ inr (rt, ground (arith, e, h))
      ]
    ]

forward_packet-Ends :
    (sys : System) (packet : Packet) (r : Router)
    → Ready sys.now r
    → HasReply r.rtable packet
    → Ends sys.now r.rtable (forward_packet sys packet r)
forward_packet-Ends sys packet r ready reply = elim (forward_packet_cases sys packet r) [
  | inl (type, code, e) ↦ rw e (icmp_send_packet-Ends sys packet type code r ready reply)
  | inr (rt, e) ↦ rw e (send_by_route-Ends sys rt (decrement_ttl packet) r ready)
]

list-split : (xs : List ℕ) → 1 ≤ length xs → (x : ℕ) × (ys : List ℕ) × (xs ≡ x ∷ ys)
list-split [] h = absurd (omega arith)
list-split (x ∷ xs) h = (x, xs, refl)

handle_ip_packet_cases :
    (sys : System) (iface : IfaceInfo) (packet : Packet) (r : Router)
    → 8 ≤ length packet.payload
    → (handle_ip_packet sys iface packet r ≡ icmp_send_packet sys packet icmp_echoreply 0 r)
      ⊎ (handle_ip_packet sys iface packet r ≡ forward_packet sys packet r)
unfolding handle_ip_packet icmp_type
handle_ip_packet_cases sys iface packet r h =
    let (type, bytes, e) = list-split packet.payload (omega arith) in
    elim (Bool-cases (packet.ip.protocol == ipproto_icmp)) [
      | inr p ↦ inr (ground (arith, p))
      | inl p ↦ elim (Bool-cases ((type == icmp_echorequest) && (packet.ip.daddr == iface.ip))) [
        | inl t ↦ inl (ground (arith, p, e, t))
        | inr t ↦ inr (ground (arith, p, e, t))
      ]
    ]

handle_ip_packet-Ends :
    (sys : System) (iface : IfaceInfo) (packet : Packet) (r : Router)
    → Ready sys.now r
    → HasReply r.rtable packet
    → Ends sys.now r.rtable (handle_ip_packet sys iface packet r)
handle_ip_packet-Ends sys iface packet r ready reply =
    elim (handle_ip_packet_cases sys iface packet r reply.0) [
      | inl e ↦ rw e (icmp_send_packet-Ends sys packet icmp_echoreply 0 r ready reply)
      | inr e ↦ rw e (forward_packet-Ends sys packet r ready reply)
    ]

Caches-nonempty :
    (ip4 : ℕ) (mac : Mac) (entries : List ArpCacheEntry)
    → Caches ip4 mac entries
    → 1 ≤ length entries
Caches-nonempty ip4 mac [] c = elim c [ ]
Caches-nonempty ip4 mac (e ∷ entries) c = omega arith

handle_arp_packet-Ends :
    (sys : System) (iface : IfaceInfo) (packet : ArpPacket) (r : Router)
    → Ready sys.now r
    → Ends sys.now r.rtable (handle_arp_packet sys iface packet r)
unfolding handle_arp_packet arp_send_reply iface_send_packet
handle_arp_packet-Ends sys iface packet r ready =
    let (entries, run, c, p) =
      arpcache_insert_lem sys packet.spa packet.sha r ready.0 ready.1 ready.2 in
    elim (Bool-cases (packet.tpa == iface.ip)) [
      | inr h ↦ (r, rw h refl, ready, refl)
      | inl h ↦ elim (Bool-cases (packet.op == arpop_reply)) [
        | inl o ↦ (
          record r {
            entries = entries;
            req_list = others packet.spa r.req_list;
            outbox = r.outbox ++ waiting packet.spa packet.sha r.req_list;
          },
          rw h (rw o run),
          (ready.0, Caches-nonempty packet.spa packet.sha entries c, p),
          refl,
        )
        | inr o ↦ elim (Bool-cases (packet.op == arpop_request)) [
          | inl q ↦ (arp_send_reply iface packet r, rw h (rw o (rw q refl)), ready, refl)
          | inr q ↦ (r, rw h (rw o (rw q refl)), ready, refl)
        ]
      ]
    ]

-- What the router needs of a frame.
abbrev pub Fits : Rtable → Frame → Type 0
Fits t (ip_frame packet) = HasReply t packet
Fits t _ = Unit {0}

-- When no other thread holds the mutex, the cache has entries, none of them newer than now, and an
-- IP packet has at least eight bytes of data and a route back to its sender, handling a frame that
-- holds the whole header of its type follows no null pointer, quotes nothing from behind the data
-- of the packet, and does not lock the mutex while it holds it; afterwards the mutex is free, the
-- cache is as before in these respects, and the routes are the old ones. Packets that their maker
-- frees after they have been given away are not excluded: the model counts them and goes on.
pub handle_packet-Ends :
    (sys : System) (iface : IfaceInfo) (frame : Frame) (r : Router)
    → Ready sys.now r
    → Fits r.rtable frame
    → Ends sys.now r.rtable (handle_packet sys iface frame r)
unfolding handle_packet
handle_packet-Ends sys iface (ip_frame packet) r ready f =
    handle_ip_packet-Ends sys iface packet r ready f
handle_packet-Ends sys iface (arp_frame packet) r ready f =
    handle_arp_packet-Ends sys iface packet r ready
handle_packet-Ends sys iface (other_frame type) r ready f = (r, refl, ready, refl)
