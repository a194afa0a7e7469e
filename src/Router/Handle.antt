-- ===== src/Router/Handle.antt =====
-- What the router does with a frame: `handle_ip_packet` of ip.c, `handle_arp_packet` and
-- `arp_send_reply` of arp.c, and `handle_packet` of main.c.
pub mod Forward
pub mod Icmps
pub mod Lock
use computer_network_labs.Base.{leb, ◌==◌, if◌then◌else◌, ℕ, ◌-◌, not, ◌&&◌, none, some, [], ◌∷◌}
use computer_network_labs.Device.{IfaceInfo}
use computer_network_labs.Router.Run.{◌>>=◌, out_of_bounds, Run, ok, fault}
use computer_network_labs.Router.Packet.{
  ip_checksum, ipproto_icmp, icmp_echoreply, icmp_dest_unreach, icmp_echorequest,
  icmp_time_exceeded, icmp_net_unreach, icmp_exc_ttl, arpop_request, arpop_reply, Packet, ArpPacket,
  Frame, ip_frame, arp_frame, other_frame,
}
use computer_network_labs.Router.Rtable.{longest_prefix_match}
use computer_network_labs.Router.State.{iface_send_packet, Router, System}
use computer_network_labs.Router.ArpCache.{arpcache_insert}
use computer_network_labs.Router.Ip.{send_by_route}
use computer_network_labs.Router.Icmp.{icmp_send_packet}

-- `ttl--` and the new checksum.
unfoldable pub decrement_ttl : Packet → Packet
decrement_ttl packet =
    let h = record (packet.ip) { ttl = packet.ip.ttl - 1 } in
    record packet { ip = record h { checksum = ip_checksum h } }

-- What follows the test for an echo request.
unfoldable pub forward_packet : System → Packet → Router → Run Router
forward_packet sys packet r = elim (longest_prefix_match packet.ip.daddr r.rtable) [
  | some rt ↦
      if leb packet.ip.ttl 1
      then icmp_send_packet sys packet icmp_time_exceeded icmp_exc_ttl r
      else send_by_route sys rt (decrement_ttl packet) r
  | none ↦ icmp_send_packet sys packet icmp_dest_unreach icmp_net_unreach r
]

-- The type of an ICMP message is its first byte.
unfoldable pub icmp_type : Packet → Run ℕ
icmp_type packet = elim packet.payload [ [] ↦ fault out_of_bounds | b ∷ bytes ↦ ok b ]

unfoldable pub handle_ip_packet : System → IfaceInfo → Packet → Router → Run Router
handle_ip_packet sys iface packet r =
    if packet.ip.protocol == ipproto_icmp
    then (do
      type ← icmp_type packet
      if (type == icmp_echorequest) && (packet.ip.daddr == iface.ip)
          then icmp_send_packet sys packet icmp_echoreply 0 r
          else forward_packet sys packet r)
    else forward_packet sys packet r

unfoldable pub arp_send_reply : IfaceInfo → ArpPacket → Router → Router
arp_send_reply iface req_hdr = iface_send_packet iface (
    arp_frame (record {
      dhost = req_hdr.sha;
      shost = iface.mac;
      op = arpop_reply;
      sha = iface.mac;
      spa = iface.ip;
      tha = req_hdr.sha;
      tpa = req_hdr.spa;
    }))

unfoldable pub handle_arp_packet : System → IfaceInfo → ArpPacket → Router → Run Router
handle_arp_packet sys iface packet r =
    if not (packet.tpa == iface.ip)
    then ok r
    else if packet.op == arpop_reply
    then arpcache_insert sys packet.spa packet.sha r
    else if packet.op == arpop_request
    then ok (arp_send_reply iface packet r)
    else ok r

-- A frame of another type is ignored.
unfoldable pub handle_packet : System → IfaceInfo → Frame → Router → Run Router
handle_packet sys iface (ip_frame packet) r = handle_ip_packet sys iface packet r
handle_packet sys iface (arp_frame packet) r = handle_arp_packet sys iface packet r
handle_packet sys iface (other_frame type) r = ok r
