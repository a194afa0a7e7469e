-- ===== src/Router/Sweep/Locked.antt =====
-- arpcache_sweep of arpcache.c when it gives up a request.
use computer_network_labs.Base.{
  ltb, Bool-cases, length, ℕ, ◌+◌, ◌≤◌, ◌<◌, ◌≡◌, refl, ap, ◌∙◌, inl, inr, true, false, Option,
  some, List, [], ◌∷◌, ◌++◌, arith,
}
use computer_network_labs.Device.{IfaceInfo}
use computer_network_labs.Router.Run.{◌>>=◌, deadlock, ok, fault}
use computer_network_labs.Router.Packet.{icmp_dest_unreach, icmp_host_unreach, Packet, Frame}
use computer_network_labs.Router.Rtable.{longest_prefix_match, RtEntry}
use computer_network_labs.Router.State.{iface_send_packet, free_again, lock, ArpReq, Router, System}
use computer_network_labs.Router.ArpCache.{request_frame, arp_send_request, arpcache_lookup}
use computer_network_labs.Router.Ip.{iface_send_packet_by_arp, send_by_route}
use computer_network_labs.Router.Icmp.{icmp_packet, icmp_send_packet}
use computer_network_labs.Router.Handle.Icmps.{
  icmp_packet-longest_prefix_match, icmp_send_packet-ip_send_packet,
}
use computer_network_labs.Router.Handle.Lock.{ip_send_packet-send_by_route, icmp_message-ok}
use computer_network_labs.Router.Sweep.{
  arp_request_max_retries, expire_entries, unreachable_loop, sweep_req, sweep_loop, arpcache_sweep,
}

-- No request has been sent too often.
abbrev pub AllAlive : List ArpReq → Type 0
AllAlive [] = Unit {0}
AllAlive (req ∷ reqs) = (req.retries ≤ arp_request_max_retries) × AllAlive reqs

-- The router while its requests are swept.
abbrev held : System → Router → Router
held sys r = record r { locked = true; entries = expire_entries sys.now r.entries }

send_by_route-locked :
    (sys : System) (rt : RtEntry) (packet : Packet) (r : Router)
    → r.locked ≡ true
    → 1 ≤ rt.gw
    → send_by_route sys rt packet r ≡ fault deadlock
unfolding send_by_route iface_send_packet_by_arp arpcache_lookup lock
send_by_route-locked sys rt packet r held g = ground (arith, held)

icmp_send_packet-locked :
    (sys : System) (packet : Packet) (type code : ℕ) (r : Router) (back : RtEntry)
    → r.locked ≡ true
    → 8 ≤ length packet.payload
    → longest_prefix_match packet.ip.saddr r.rtable ≡ some back
    → 1 ≤ back.gw
    → icmp_send_packet sys packet type code r ≡ fault deadlock
icmp_send_packet-locked sys packet type code r back held l m g =
    let (message, e) = icmp_message-ok sys packet type code l in
    let out = icmp_packet sys packet back.iface message in
    icmp_send_packet-ip_send_packet sys packet type code r back message m e
    ∙ ap (λ o. o >>= λ q. ok (free_again q))
        (ip_send_packet-send_by_route sys out back r
            (icmp_packet-longest_prefix_match sys packet back.iface message r.rtable ∙ m)
          ∙ send_by_route-locked sys back out r held g)

sweep_req-locked :
    (sys : System) (req : ArpReq) (packet : Packet) (packets : List Packet) (r : Router)
    (back : RtEntry)
    → r.locked ≡ true
    → arp_request_max_retries < req.retries
    → req.cached_packets ≡ packet ∷ packets
    → 8 ≤ length packet.payload
    → longest_prefix_match packet.ip.saddr r.rtable ≡ some back
    → 1 ≤ back.gw
    → sweep_req sys req r ≡ fault deadlock
unfolding sweep_req unreachable_loop
sweep_req-locked sys req packet packets r back held h c l m g =
    let stuck =
      icmp_send_packet-locked sys packet icmp_dest_unreach icmp_host_unreach r back held l m g in
    ground (arith, c, stuck)

sweep_req-alive :
    (sys : System) (req : ArpReq) (r : Router)
    → req.retries ≤ arp_request_max_retries
    → (kept : Option ArpReq) × (outbox : List (IfaceInfo × Frame)) × (bad : ℕ) × (sweep_req sys req
          r
        ≡ ok (kept, record r { outbox = outbox; bad_frees = bad }))
unfolding sweep_req arp_send_request iface_send_packet free_again
sweep_req-alive sys req r h = elim (Bool-cases (ltb (req.sent + 1) sys.now)) [
  | inl e ↦ (
    some (record req { retries = req.retries + 1; sent = sys.now }),
    r.outbox ++ ((req.iface, request_frame req.iface req.ip4) ∷ []),
    r.bad_frees + 1,
    ground (arith, e),
  )
  | inr e ↦ (some req, r.outbox, r.bad_frees, ground (arith, e))
]

sweep_loop-locked :
    (sys : System) (before : List ArpReq) (req : ArpReq) (after : List ArpReq) (packet : Packet)
    (packets : List Packet) (r : Router) (back : RtEntry)
    → r.locked ≡ true
    → AllAlive before
    → arp_request_max_retries < req.retries
    → req.cached_packets ≡ packet ∷ packets
    → 8 ≤ length packet.payload
    → longest_prefix_match packet.ip.saddr r.rtable ≡ some back
    → 1 ≤ back.gw
    → sweep_loop sys (before ++ (req ∷ after)) r ≡ fault deadlock
unfolding sweep_loop
sweep_loop-locked sys [] req after packet packets r back held a h c l m g =
    rw (sweep_req-locked sys req packet packets r back held h c l m g) refl
sweep_loop-locked sys (x ∷ before) req after packet packets r back held a h c l m g =
    let (kept, outbox, bad, e) = sweep_req-alive sys x r a.0 in
    let stuck =
      sweep_loop-locked sys before req after packet packets
        (record r { outbox = outbox; bad_frees = bad }) back held a.1 h c l m g in
    rw e (rw stuck refl)

-- When the first request that has been retried more than five times holds a packet of at least
-- eight bytes of data, and the route back to the sender of its first packet has a gateway, a round
-- of the sweep waits for the mutex that it holds itself.
pub arpcache_sweep-deadlock :
    (sys : System) (r : Router) (before : List ArpReq) (req : ArpReq) (after : List ArpReq)
    (packet : Packet) (packets : List Packet) (back : RtEntry)
    → r.locked ≡ false
    → r.req_list ≡ before ++ (req ∷ after)
    → AllAlive before
    → arp_request_max_retries < req.retries
    → req.cached_packets ≡ packet ∷ packets
    → 8 ≤ length packet.payload
    → longest_prefix_match packet.ip.saddr r.rtable ≡ some back
    → 1 ≤ back.gw
    → arpcache_sweep sys r ≡ fault deadlock
unfolding arpcache_sweep lock
arpcache_sweep-deadlock sys r before req after packet packets back free e a h c l m g =
    let stuck =
      sweep_loop-locked sys before req after packet packets
        (record (held sys r) { req_list = before ++ (req ∷ after) }) back refl a h c l m g in
    rw free (rw e (rw stuck refl))
