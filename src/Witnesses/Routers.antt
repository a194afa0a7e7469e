-- ===== src/Witnesses/Routers.antt =====
-- Inputs for the theorems on the router.
use computer_network_labs.Witnesses.Links.{lan, wan}
use computer_network_labs.Router.Checksum
use computer_network_labs.Base.{replicate, ℕ, ◌≡◌, refl, ◌⊎◌, false, none, some, [], ◌∷◌, arith}
use computer_network_labs.Router.Run.{deadlock, ok, fault}
use computer_network_labs.Router.Packet.{
  eth_p_ip, icmp_time_exceeded, icmp_exc_ttl, IpHeader, Packet, ip_frame,
}
use computer_network_labs.Router.Rtable.{
  Rtable, is_match, match_loop, longest_prefix_match, RtEntry,
}
use computer_network_labs.Router.Rtable.Match.{Within, longest_prefix_match_cases, Longest}
use computer_network_labs.Router.State.{ArpCacheEntry, ArpReq, Router, System}
use computer_network_labs.Router.ArpCache.{arpcache_append_packet}
use computer_network_labs.Router.ArpCache.Blind.{iface_send_packet_by_arp_blind}
use computer_network_labs.Router.Ip.{iface_send_packet_by_arp}
use computer_network_labs.Router.Icmp.Message.{summed}
use computer_network_labs.Router.Handle.{handle_ip_packet, handle_packet}
use computer_network_labs.Router.Handle.Icmps.{
  told, handle_ip_packet-echo, quoted, handle_ip_packet-time_exceeded,
}
use computer_network_labs.Router.Handle.Lock.{Ends, handle_packet-Ends}
use computer_network_labs.Router.Sweep.{arpcache_sweep}
use computer_network_labs.Router.Sweep.Locked.{arpcache_sweep-deadlock}

abbrev near : RtEntry
near = record { dest = 0x0a000000; mask = 0xffffff00; gw = 0; iface = lan }

abbrev far : RtEntry
far = record { dest = 0x0a000100; mask = 0xffffff00; gw = 0x0a000202; iface = wan }

abbrev routes : Rtable
routes = near ∷ far ∷ []

abbrev cell : ArpCacheEntry
cell = record { ip4 = 0x0a000202; mac = replicate 6 0x55; added = 90; valid = 1 }

abbrev router : Router
router = record {
  rtable = routes;
  entries = cell ∷ [];
  req_list = [];
  locked = false;
  outbox = [];
  bad_frees = 0;
}

abbrev sys : System
sys = record { now = 100; rand = 7; heap = λ i. 0 }

abbrev header : IpHeader
header = record {
  version = 4;
  ihl = 5;
  tos = 0;
  tot_len = 28;
  id = 9;
  frag_off = 0;
  ttl = 64;
  protocol = 17;
  checksum = 0;
  saddr = 0x0a000005;
  daddr = 0x0a000107;
  options = [];
}

abbrev packet : Packet
packet = record {
  dhost = lan.mac;
  shost = replicate 6 0x33;
  ether_type = eth_p_ip;
  ip = header;
  payload = 1 ∷ 2 ∷ 3 ∷ 4 ∷ 5 ∷ 6 ∷ 7 ∷ 8 ∷ [];
}

to_far : longest_prefix_match 0x0a000107 routes ≡ some far
unfolding longest_prefix_match match_loop is_match
to_far = refl

to_near : longest_prefix_match 0x0a000005 routes ≡ some near
unfolding longest_prefix_match match_loop is_match
to_near = refl

longest_prefix_match_cases_example :
    ((longest_prefix_match 0x0a000107 routes ≡ none) × Within 0x0a000107 0 routes)
    ⊎ ((rt : RtEntry) × (longest_prefix_match 0x0a000107 routes ≡ some rt)
        × Longest 0x0a000107 0 rt routes)
longest_prefix_match_cases_example = longest_prefix_match_cases 0x0a000107 routes

abbrev echo : Packet
echo = record packet {
  ip = record header { protocol = 1; daddr = 0x0a000001 };
  payload = 8 ∷ 0 ∷ 0 ∷ 0 ∷ 0 ∷ 1 ∷ 0 ∷ 2 ∷ [];
}

handle_ip_packet-echo_example :
    (k : ℕ) × (handle_ip_packet sys lan echo router
      ≡ ok (told sys echo near (summed 8 0 k (0 ∷ 1 ∷ 0 ∷ 2 ∷ [])) router))
    × (Checksum.checksum (summed 8 0 k (0 ∷ 1 ∷ 0 ∷ 2 ∷ [])) 0 ≡ 0)
handle_ip_packet-echo_example =
    handle_ip_packet-echo sys lan echo 0 0 0 (0 ∷ 1 ∷ 0 ∷ 2 ∷ []) router near refl refl refl refl
      (omega arith) (search arith) (omega arith) to_near refl

abbrev late : Packet
late = record packet { ip = record header { ttl = 1 } }

handle_ip_packet-time_exceeded_example :
    (k : ℕ) × (handle_ip_packet sys lan late router
      ≡ ok (told sys late near (summed icmp_time_exceeded icmp_exc_ttl k (quoted sys late)) router))
    × (Checksum.checksum (summed icmp_time_exceeded icmp_exc_ttl k (quoted sys late)) 0 ≡ 0)
handle_ip_packet-time_exceeded_example =
    handle_ip_packet-time_exceeded sys lan late router far near (λ e. omega arith) (omega arith)
      (record { bytes = tt; short = omega arith }) (search arith) (omega arith) to_far to_near refl

handle_packet-Ends_example : Ends 100 routes (handle_packet sys lan (ip_frame packet) router)
handle_packet-Ends_example =
    handle_packet-Ends sys lan (ip_frame packet) router (refl, omega arith, (omega arith, tt))
      (omega arith, (near, to_near))

abbrev given_up : ArpReq
given_up = record {
  iface = lan;
  ip4 = 0x0a000009;
  sent = 98;
  retries = 6;
  cached_packets = record packet { ip = record header { saddr = 0x0a000107 } } ∷ [];
}

arpcache_sweep-deadlock_example :
    arpcache_sweep sys (record router { req_list = given_up ∷ [] }) ≡ fault deadlock
arpcache_sweep-deadlock_example =
    arpcache_sweep-deadlock sys (record router { req_list = given_up ∷ [] }) [] given_up []
      (record packet { ip = record header { saddr = 0x0a000107 } }) [] far refl refl tt
      (omega arith) refl (omega arith) to_far (omega arith)

iface_send_packet_by_arp_blind_example :
    iface_send_packet_by_arp sys wan far.gw packet router
    ≡ arpcache_append_packet sys wan far.gw
        (record packet { shost = wan.mac; ether_type = eth_p_ip })
        router
iface_send_packet_by_arp_blind_example =
    iface_send_packet_by_arp_blind sys wan far.gw packet router (omega arith) (omega arith, tt) refl
