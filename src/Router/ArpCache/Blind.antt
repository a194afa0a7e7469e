-- ===== src/Router/ArpCache/Blind.antt =====
-- arpcache_lookup of arpcache.c compares the flag of an entry with the address.
use computer_network_labs.Base.{ℕ, ◌≤◌, ◌≡◌, refl, false, none, List, [], ◌∷◌, arith}
use computer_network_labs.Device.{IfaceInfo}
use computer_network_labs.Router.Packet.{eth_p_ip, Packet}
use computer_network_labs.Router.State.{lock, unlock, ArpCacheEntry, Router, System}
use computer_network_labs.Router.ArpCache.{lookup_loop, arpcache_lookup, arpcache_append_packet}
use computer_network_labs.Router.Ip.{iface_send_packet_by_arp}

-- The flags are those that the code stores.
abbrev pub AllFlags : List ArpCacheEntry → Type 0
AllFlags [] = Unit {0}
AllFlags (e ∷ entries) = (e.valid ≤ 1) × AllFlags entries

lookup_loop_blind :
    (ip4 : ℕ) (entries : List ArpCacheEntry)
    → 2 ≤ ip4
    → AllFlags entries
    → lookup_loop ip4 entries ≡ none
unfolding lookup_loop
lookup_loop_blind ip4 [] h f = refl
lookup_loop_blind ip4 (e ∷ entries) h f = ground (arith, lookup_loop_blind ip4 entries h f.1)

-- While each flag is 0 or 1 and the mutex is free, a packet to an address of at least 2 waits for
-- an ARP reply even if the cache has a valid entry of the address.
pub iface_send_packet_by_arp_blind :
    (sys : System) (iface : IfaceInfo) (ip4 : ℕ) (packet : Packet) (r : Router)
    → 2 ≤ ip4
    → AllFlags r.entries
    → r.locked ≡ false
    → iface_send_packet_by_arp sys iface ip4 packet r
      ≡ arpcache_append_packet sys iface ip4
          (record packet { shost = iface.mac; ether_type = eth_p_ip })
          r
unfolding iface_send_packet_by_arp arpcache_lookup lock unlock
iface_send_packet_by_arp_blind sys iface ip4 packet r h f l =
    ground (arith, lookup_loop_blind ip4 r.entries h f)
