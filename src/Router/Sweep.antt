-- ===== src/Router/Sweep.antt =====
-- A round of `arpcache_sweep`, the thread of arpcache.c.
pub mod Locked
use computer_network_labs.Base.{
  ltb, ◌==◌, if◌then◌else◌, ℕ, ◌+◌, not, ◌&&◌, Option, none, some, List, [], ◌∷◌,
}
use computer_network_labs.Router.Run.{◌>>=◌, Run, ok}
use computer_network_labs.Router.Packet.{icmp_dest_unreach, icmp_host_unreach, Packet}
use computer_network_labs.Router.State.{lock, unlock, ArpCacheEntry, ArpReq, Router, System}
use computer_network_labs.Router.ArpCache.{arp_send_request}
use computer_network_labs.Router.Icmp.{icmp_send_packet}

abbrev pub arp_entry_timeout : ℕ
arp_entry_timeout = 15

abbrev pub arp_request_max_retries : ℕ
arp_request_max_retries = 5

unfoldable pub expire_entries : ℕ → List ArpCacheEntry → List ArpCacheEntry
expire_entries now [] = []
expire_entries now (e ∷ entries) =
    (if not (e.valid == 0) && ltb (e.added + arp_entry_timeout) now
      then record e { valid = 0 }
      else e)
    ∷ expire_entries now entries

-- The packets of a request that is given up, each answered by an ICMP message.
unfoldable pub unreachable_loop : System → List Packet → Router → Run Router
unreachable_loop sys [] r = ok r
unreachable_loop sys (packet ∷ packets) r = do
  r' ← icmp_send_packet sys packet icmp_dest_unreach icmp_host_unreach r
  unreachable_loop sys packets r'

-- One round of the loop over the requests: the request that is kept, if it is.
unfoldable pub sweep_req : System → ArpReq → Router → Run (Option ArpReq × Router)
sweep_req sys req r =
    if ltb arp_request_max_retries req.retries
    then (do r' ← unreachable_loop sys req.cached_packets r; ok (none, r'))
    else if ltb (req.sent + 1) sys.now
    then ok (
      some (record req { retries = req.retries + 1; sent = sys.now }),
      arp_send_request req.iface req.ip4 r,
    )
    else ok (some req, r)

-- The list that is left. No request is added meanwhile: that needs the lock, which is held here.
unfoldable pub sweep_loop : System → List ArpReq → Router → Run (List ArpReq × Router)
sweep_loop sys [] r = ok ([], r)
sweep_loop sys (req ∷ reqs) r = do
  (kept, r') ← sweep_req sys req r
  (rest, r'') ← sweep_loop sys reqs r'
  ok ((elim kept [ none ↦ rest | some q ↦ q ∷ rest ]), r'')

unfoldable pub arpcache_sweep : System → Router → Run Router
arpcache_sweep sys r = do
  r' ← lock r
  (kept, r'') ←
      sweep_loop sys r'.req_list (record r' { entries = expire_entries sys.now r'.entries })
  ok (unlock (record r'' { req_list = kept }))
