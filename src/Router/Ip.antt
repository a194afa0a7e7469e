-- ===== src/Router/Ip.antt =====
-- ip_base.c but for the lookup, and `iface_send_packet_by_arp` of arp.c.
use computer_network_labs.Base.{◌==◌, if◌then◌else◌, ℕ, ◌%◌, ◌^◌, none, some, []}
use computer_network_labs.Device.{IfaceInfo}
use computer_network_labs.Router.Run.{◌>>=◌, null_pointer, Run, ok, fault}
use computer_network_labs.Router.Packet.{ip_checksum, eth_p_ip, IpHeader, Packet, ip_frame}
use computer_network_labs.Router.Rtable.{longest_prefix_match, RtEntry}
use computer_network_labs.Router.State.{iface_send_packet, Router, System}
use computer_network_labs.Router.ArpCache.{arpcache_lookup, arpcache_append_packet}

abbrev pub default_ttl : ℕ
default_ttl = 64

abbrev pub ip_df : ℕ
ip_df = 0x4000

-- The header has no options, whatever the memory held.
unfoldable pub ip_init_hdr : System → ℕ → ℕ → ℕ → ℕ → IpHeader
ip_init_hdr sys saddr daddr len proto =
    let h : IpHeader = record {
      version = 4;
      ihl = 5;
      tos = 0;
      tot_len = len % 2 ^ 16;
      id = sys.rand % 2 ^ 16;
      frag_off = ip_df;
      ttl = default_ttl;
      protocol = proto;
      checksum = 0;
      saddr = saddr;
      daddr = daddr;
      options = [];
    } in
    record h { checksum = ip_checksum h }

unfoldable pub iface_send_packet_by_arp : System → IfaceInfo → ℕ → Packet → Router → Run Router
iface_send_packet_by_arp sys iface dst_ip packet r =
    let filled = record packet { shost = iface.mac; ether_type = eth_p_ip } in
    do
      (found, r') ← arpcache_lookup dst_ip r
      elim found [
        | some mac ↦ ok (iface_send_packet iface (ip_frame (record filled { dhost = mac })) r')
        | none ↦ arpcache_append_packet sys iface dst_ip filled r'
      ]

-- To the gateway by ARP, or else straight to the interface, as the packet is.
unfoldable pub send_by_route : System → RtEntry → Packet → Router → Run Router
send_by_route sys rt packet r =
    if rt.gw == 0
    then ok (iface_send_packet rt.iface (ip_frame packet) r)
    else iface_send_packet_by_arp sys rt.iface rt.gw packet r

-- A lookup that fails gives a null pointer, which is followed.
unfoldable pub ip_send_packet : System → Packet → Router → Run Router
ip_send_packet sys packet r = elim (longest_prefix_match packet.ip.daddr r.rtable) [
  | none ↦ fault null_pointer
  | some rt ↦ send_by_route sys rt packet r
]
