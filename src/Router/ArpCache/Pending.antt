-- ===== src/Router/ArpCache/Pending.antt =====
-- arpcache.c: what happens to the packets that wait for an address.
use computer_network_labs.Router.State.{
  iface_send_packet, free_again, lock, unlock, ArpReq, Router, System,
}
use computer_network_labs.Router.ArpCache.{
  arp_send_request, append_loop, new_req, arpcache_append_packet, arpcache_insert,
}
use computer_network_labs.Router.Run.{◌>>=◌, ok}
use computer_network_labs.Base.{
  ◌==◌, Bool-cases, length, ℕ, ◌+◌, ◌≤◌, ◌≡◌, refl, ◌⊎◌, inl, inr, false, ◌&&◌, none, some, List,
  [], ◌∷◌, ◌++◌, arith,
}
use computer_network_labs.Device.{Mac, IfaceInfo}
use computer_network_labs.Router.Packet.{Packet, Frame, ip_frame}
use computer_network_labs.Router.ArpCache.Insert.{
  addressed, waiting, others, AllPast, arpcache_insert_lem,
}

-- A frame is among those that are sent, on the interface of the index.
abbrev pub Sends : ℕ → Frame → List (IfaceInfo × Frame) → Type 0
Sends index frame [] = ⊥
Sends index frame (x ∷ xs) = ((x.0.index ≡ index) × (x.1 ≡ frame)) ⊎ Sends index frame xs

Sends-append_right :
    (index : ℕ) (frame : Frame) (xs ys : List (IfaceInfo × Frame))
    → Sends index frame ys
    → Sends index frame (xs ++ ys)
Sends-append_right index frame [] ys s = s
Sends-append_right index frame (x ∷ xs) ys s = inr (Sends-append_right index frame xs ys s)

Sends-append_left :
    (index : ℕ) (frame : Frame) (xs ys : List (IfaceInfo × Frame))
    → Sends index frame xs
    → Sends index frame (xs ++ ys)
Sends-append_left index frame [] ys s = elim s [ ]
Sends-append_left index frame (x ∷ xs) ys (inl s) = inl s
Sends-append_left index frame (x ∷ xs) ys (inr s) = inr (Sends-append_left index frame xs ys s)

-- The frame that a packet becomes.
abbrev pub answered : Mac → Packet → Frame
answered mac packet = ip_frame (record packet { dhost = mac })

waiting_here :
    (index ip4 : ℕ) (frame : Frame) (mac : Mac) (req : ArpReq) (reqs : List ArpReq)
    → req.ip4 ≡ ip4
    → Sends index frame (addressed req.iface mac req.cached_packets)
    → Sends index frame (waiting ip4 mac (req ∷ reqs))
waiting_here index ip4 frame mac req reqs e s = ground (
  arith,
  Sends-append_left index frame (addressed req.iface mac req.cached_packets) (waiting ip4 mac reqs)
      s,
)

waiting_later :
    (index ip4 : ℕ) (frame : Frame) (mac : Mac) (req : ArpReq) (reqs : List ArpReq)
    → Sends index frame (waiting ip4 mac reqs)
    → Sends index frame (waiting ip4 mac (req ∷ reqs))
waiting_later index ip4 frame mac req reqs s = elim (Bool-cases (req.ip4 == ip4)) [
  | inl h ↦ rw h (
      Sends-append_right index frame (addressed req.iface mac req.cached_packets)
        (waiting ip4 mac reqs) s)
  | inr h ↦ rw h s
]

Sends-addressed_same :
    (iface : IfaceInfo) (index : ℕ) (mac : Mac) (packets : List Packet) (packet : Packet)
    → iface.index ≡ index
    → Sends index (answered mac packet) (addressed iface mac (packets ++ (packet ∷ [])))
Sends-addressed_same iface index mac [] packet e = inl (e, refl)
Sends-addressed_same iface index mac (p ∷ packets) packet e =
    inr (Sends-addressed_same iface index mac packets packet e)

append_loop_cases :
    (iface : IfaceInfo) (ip4 : ℕ) (packet : Packet) (mac : Mac) (reqs : List ArpReq)
    → (append_loop iface ip4 packet reqs ≡ none)
      ⊎ ((out : List ArpReq) × (append_loop iface ip4 packet reqs ≡ some out)
          × Sends iface.index (answered mac packet) (waiting ip4 mac out))
unfolding append_loop
append_loop_cases iface ip4 packet mac [] = inl refl
append_loop_cases iface ip4 packet mac (req ∷ reqs) =
    elim (Bool-cases ((req.ip4 == ip4) && (req.iface.index == iface.index))) [
      | inl h ↦
          let grown = record req { cached_packets = req.cached_packets ++ (packet ∷ []) } in
          inr (
            grown ∷ reqs,
            ground (arith, h),
            waiting_here iface.index ip4 (answered mac packet) mac grown reqs (ground (arith, h)) (
                Sends-addressed_same req.iface iface.index mac req.cached_packets packet
                  (ground (arith, h))),
          )
      | inr h ↦ elim (append_loop_cases iface ip4 packet mac reqs) [
        | inl e ↦ inl (ground (arith, h, e))
        | inr (out, e, c) ↦ inr (
          req ∷ out,
          ground (arith, h, e),
          waiting_later iface.index ip4 (answered mac packet) mac req out c,
        )
      ]
    ]

new_req-Sends :
    (sys : System) (iface : IfaceInfo) (ip4 : ℕ) (packet : Packet) (mac : Mac) (reqs : List ArpReq)
    → Sends iface.index
        (answered mac packet)
        (waiting ip4 mac (reqs ++ (new_req sys iface ip4 packet ∷ [])))
new_req-Sends sys iface ip4 packet mac [] =
    waiting_here iface.index ip4 (answered mac packet) mac (new_req sys iface ip4 packet) [] refl
      (inl (refl, refl))
new_req-Sends sys iface ip4 packet mac (req ∷ reqs) =
    waiting_later iface.index ip4 (answered mac packet) mac req
      (reqs ++ (new_req sys iface ip4 packet ∷ [])) (new_req-Sends sys iface ip4 packet mac reqs)

-- The packet waits for the address; the entries, the routes and the free mutex are as before.
pub arpcache_append_packet_lem :
    (sys : System) (iface : IfaceInfo) (ip4 : ℕ) (packet : Packet) (mac : Mac) (r : Router)
    → r.locked ≡ false
    → (q : Router) × (arpcache_append_packet sys iface ip4 packet r ≡ ok q)
      × Sends iface.index (answered mac packet) (waiting ip4 mac q.req_list)
      × (q.locked ≡ false)
      × (q.entries ≡ r.entries)
      × (q.rtable ≡ r.rtable)
      × (q.bad_frees ≤ r.bad_frees + 1)
unfolding arpcache_append_packet arp_send_request iface_send_packet free_again lock unlock
arpcache_append_packet_lem sys iface ip4 packet mac r free =
    elim (append_loop_cases iface ip4 packet mac r.req_list) [
      | inl e ↦ (
        arp_send_request iface ip4 (record r {
          locked = false;
          req_list = r.req_list ++ (new_req sys iface ip4 packet ∷ []);
        }),
        ground (arith, e),
        new_req-Sends sys iface ip4 packet mac r.req_list,
        refl,
        refl,
        refl,
        omega arith,
      )
      | inr (out, e, s) ↦ (
        record r { req_list = out; locked = false },
        ground (arith, e),
        s,
        refl,
        refl,
        refl,
        omega arith,
      )
    ]

-- A packet that waits for an address is sent when the address becomes known.
pub append-insert :
    (sys sys' : System) (iface : IfaceInfo) (ip4 : ℕ) (packet : Packet) (mac : Mac) (r : Router)
    → r.locked ≡ false
    → 1 ≤ length r.entries
    → AllPast sys'.now r.entries
    → (q : Router) × (arpcache_append_packet sys iface ip4 packet r >>= arpcache_insert sys' ip4 mac
        ≡ ok q)
      × Sends iface.index (answered mac packet) q.outbox
      × (q.bad_frees ≤ r.bad_frees + 1)
append-insert sys sys' iface ip4 packet mac r free h p =
    let (q, run, s, unlocked, same, _t, frees) =
      arpcache_append_packet_lem sys iface ip4 packet mac r free in
    let (entries, run', _c, _p) =
      arpcache_insert_lem sys' ip4 mac q unlocked (rw same h) (rw same p) in
    (
      record q {
        entries = entries;
        req_list = others ip4 q.req_list;
        outbox = q.outbox ++ waiting ip4 mac q.req_list;
      },
      rw run run',
      Sends-append_right iface.index (answered mac packet) q.outbox (waiting ip4 mac q.req_list) s,
      frees,
    )
