-- ===== src/Router/ArpCache.antt =====
-- arpcache.c but for its thread, and `arp_send_request` of arp.c.
pub mod Insert
pub mod Pending
pub mod Blind
use computer_network_labs.Base.{
  ltb, ◌==◌, if◌then◌else◌, replicate, ℕ, zero, suc, ◌+◌, not, ◌&&◌, Option, none, some, List, [],
  ◌∷◌, ◌++◌,
}
use computer_network_labs.Device.{Mac, IfaceInfo}
use computer_network_labs.Router.Run.{◌>>=◌, out_of_bounds, Run, ok, fault}
use computer_network_labs.Router.Packet.{arpop_request, Packet, Frame, ip_frame, arp_frame}
use computer_network_labs.Router.State.{
  iface_send_packet, free_again, lock, unlock, ArpCacheEntry, ArpReq, Router, System,
}

abbrev pub max_arp_size : ℕ
max_arp_size = 32

abbrev pub eth_broadcast : Mac
eth_broadcast = replicate 6 0xff

-- The ARP request, asked on the interface for an address.
abbrev pub request_frame : IfaceInfo → ℕ → Frame
request_frame iface dst_ip = arp_frame (record {
  dhost = eth_broadcast;
  shost = iface.mac;
  op = arpop_request;
  sha = iface.mac;
  spa = iface.ip;
  tha = replicate 6 0;
  tpa = dst_ip;
})

-- `arp_send_request` of arp.c
unfoldable pub arp_send_request : IfaceInfo → ℕ → Router → Router
arp_send_request iface dst_ip r =
    free_again (iface_send_packet iface (request_frame iface dst_ip) r)

-- `bzero` on the table, and an empty list of requests.
unfoldable pub arpcache_init : List ArpCacheEntry × List ArpReq
arpcache_init =
    (replicate max_arp_size (record { ip4 = 0; mac = replicate 6 0; added = 0; valid = 0 }), [])

-- The requests and their packets are freed.
unfoldable pub arpcache_destroy : Router → Run Router
arpcache_destroy r = do r' ← lock r; ok (unlock (record r' { req_list = [] }))

-- The loop of `arpcache_lookup`. Its test asks for an address that is not 0 and for a flag that is the
-- address.
unfoldable pub lookup_loop : ℕ → List ArpCacheEntry → Option Mac
lookup_loop ip4 [] = none
lookup_loop ip4 (e ∷ entries) =
    if not (e.ip4 == 0) && (e.valid == ip4) then some e.mac else lookup_loop ip4 entries

unfoldable pub arpcache_lookup : ℕ → Router → Run (Option Mac × Router)
arpcache_lookup ip4 r = do r' ← lock r; ok (lookup_loop ip4 r'.entries, unlock r')

-- The loop of `arpcache_append_packet`: the list with the packet at the tail of its request, or `none`
-- if there is no request for the address on the interface.
unfoldable pub append_loop : IfaceInfo → ℕ → Packet → List ArpReq → Option (List ArpReq)
append_loop iface ip4 packet [] = none
append_loop iface ip4 packet (req ∷ reqs) =
    if (req.ip4 == ip4) && (req.iface.index == iface.index)
    then some (record req { cached_packets = req.cached_packets ++ (packet ∷ []) } ∷ reqs)
    else elim (append_loop iface ip4 packet reqs) [ none ↦ none | some rest ↦ some (req ∷ rest) ]

abbrev pub new_req : System → IfaceInfo → ℕ → Packet → ArpReq
new_req sys iface ip4 packet = record {
  iface = iface;
  ip4 = ip4;
  sent = sys.now;
  retries = 0;
  cached_packets = packet ∷ [];
}

unfoldable pub arpcache_append_packet : System → IfaceInfo → ℕ → Packet → Router → Run Router
arpcache_append_packet sys iface ip4 packet r = do
  r' ← lock r
  elim (append_loop iface ip4 packet r'.req_list) [
    | some reqs ↦ ok (unlock (record r' { req_list = reqs }))
    | none ↦ ok (
        arp_send_request iface ip4
          (unlock (record r' { req_list = r'.req_list ++ (new_req sys iface ip4 packet ∷ []) })))
  ]

-- The inner loop of `arpcache_insert`: each waiting packet is sent with the address filled in.
unfoldable pub send_pending : IfaceInfo → Mac → List Packet → Router → Router
send_pending iface mac [] r = r
send_pending iface mac (packet ∷ packets) r =
    send_pending iface mac packets
      (iface_send_packet iface (ip_frame (record packet { dhost = mac })) r)

-- The outer loop: the requests for the address are answered and removed.
unfoldable pub answer_loop : ℕ → Mac → List ArpReq → Router → List ArpReq × Router
answer_loop ip4 mac [] r = ([], r)
answer_loop ip4 mac (req ∷ reqs) r =
    let sent = send_pending req.iface mac req.cached_packets r in
    let (kept, r') = answer_loop ip4 mac reqs (if req.ip4 == ip4 then sent else r) in
    (if req.ip4 == ip4 then kept else req ∷ kept, r')

unfoldable pub answer : ℕ → Mac → Router → Router
answer ip4 mac r =
    let (kept, r') = answer_loop ip4 mac r.req_list r in record r' { req_list = kept }

-- The first loop of `arpcache_insert`: the table with the entry of the address renewed, if it has one.
unfoldable pub update_loop : ℕ → ℕ → Mac → List ArpCacheEntry → Option (List ArpCacheEntry)
update_loop now ip4 mac [] = none
update_loop now ip4 mac (e ∷ entries) =
    if not (e.valid == 0) && (e.ip4 == ip4)
    then some (record e { mac = mac; added = now } ∷ entries)
    else elim (update_loop now ip4 mac entries) [ none ↦ none | some rest ↦ some (e ∷ rest) ]

-- The second loop: the first free entry, or else the first of the oldest ones. `i` is the index of the
-- first entry of the list.
unfoldable pub choose_loop : ℕ → ℕ → Option ℕ → List ArpCacheEntry → Option ℕ
choose_loop i oldest_time empty_index [] = empty_index
choose_loop i oldest_time empty_index (e ∷ entries) =
    if e.valid == 0
    then some i
    else if ltb e.added oldest_time
    then choose_loop (suc i) e.added (some i) entries
    else choose_loop (suc i) oldest_time empty_index entries

unfoldable pub set_entry : ℕ → ArpCacheEntry → List ArpCacheEntry → List ArpCacheEntry
set_entry i e [] = []
set_entry zero e (x ∷ entries) = e ∷ entries
set_entry (suc i) e (x ∷ entries) = x ∷ set_entry i e entries

-- An index that stays -1 is a write in front of the table.
unfoldable pub arpcache_insert : System → ℕ → Mac → Router → Run Router
arpcache_insert sys ip4 mac r = do
  r' ← lock r
  elim (update_loop sys.now ip4 mac r'.entries) [
    | some entries ↦ ok (unlock (answer ip4 mac (record r' { entries = entries })))
    | none ↦ elim (choose_loop 0 (sys.now + 1) none r'.entries) [
      | none ↦ fault out_of_bounds
      | some i ↦
          let e : ArpCacheEntry = record { ip4 = ip4; mac = mac; added = sys.now; valid = 1 } in
          ok (unlock (answer ip4 mac (record r' { entries = set_entry i e r'.entries })))
    ]
  ]
