-- ===== src/Router/Packet.antt =====
-- The packets in memory: include/ether.h, ip.h, icmp.h and arp.h.
--
-- The fields of a header that the code converts by `ntohs`, `ntohl` and their inverses are kept
-- converted; `id` and the checksums, which it does not convert, are the words in memory.
pub mod HeaderSum
use computer_network_labs.Router.Checksum
use computer_network_labs.Base.{ℕ, ◌+◌, ◌*◌, ◌/◌, ◌%◌, ◌^◌, List, [], ◌∷◌, ◌++◌}
use computer_network_labs.Device.{Mac}

-- The memory of a number in network byte order, and of a word of the machine.
unfoldable pub net16 : ℕ → List ℕ
net16 v = v / 256 % 256 ∷ v % 256 ∷ []

unfoldable pub net32 : ℕ → List ℕ
net32 v = v / 2 ^ 24 % 256 ∷ v / 2 ^ 16 % 256 ∷ v / 256 % 256 ∷ v % 256 ∷ []

unfoldable pub host16 : ℕ → List ℕ
host16 v = v % 256 ∷ v / 256 % 256 ∷ []

-- `struct iphdr`; `options` is what `ihl` counts beyond five words.
pub record IpHeader : Type 0 where
  pub version : ℕ
  pub ihl : ℕ
  pub tos : ℕ
  pub tot_len : ℕ
  pub id : ℕ
  pub frag_off : ℕ
  pub ttl : ℕ
  pub protocol : ℕ
  pub checksum : ℕ
  pub saddr : ℕ
  pub daddr : ℕ
  pub options : List ℕ

-- The fields in front of the checksum, and behind it.
unfoldable pub front_bytes : IpHeader → List ℕ
front_bytes h =
    ((h.version % 16 * 16 + h.ihl % 16) ∷ (h.tos % 256) ∷ [])
    ++ net16 h.tot_len
    ++ host16 h.id
    ++ net16 h.frag_off
    ++ ((h.ttl % 256) ∷ (h.protocol % 256) ∷ [])

unfoldable pub back_bytes : IpHeader → List ℕ
back_bytes h = net32 h.saddr ++ net32 h.daddr ++ h.options

unfoldable pub header_bytes : IpHeader → List ℕ
header_bytes h = front_bytes h ++ host16 h.checksum ++ back_bytes h

-- The checksum field counts as 0.
unfoldable pub ip_checksum : IpHeader → ℕ
ip_checksum h = Checksum.checksum (header_bytes (record h { checksum = 0 })) 0

-- A frame with an IP packet: `payload` is what follows the IP header.
pub record Packet : Type 0 where
  pub dhost : Mac
  pub shost : Mac
  pub ether_type : ℕ
  pub ip : IpHeader
  pub payload : List ℕ

-- `struct ether_arp` in its frame, without the four fields that are the same in every packet.
pub record ArpPacket : Type 0 where
  pub dhost : Mac
  pub shost : Mac
  pub op : ℕ
  pub sha : Mac
  pub spa : ℕ
  pub tha : Mac
  pub tpa : ℕ

pub data Frame : Type 0 where
  ip_frame : Packet → Frame
  arp_frame : ArpPacket → Frame
  other_frame : ℕ → Frame

abbrev pub eth_p_ip : ℕ
eth_p_ip = 0x0800

abbrev pub ipproto_icmp : ℕ
ipproto_icmp = 1

abbrev pub icmp_echoreply : ℕ
icmp_echoreply = 0

abbrev pub icmp_dest_unreach : ℕ
icmp_dest_unreach = 3

abbrev pub icmp_echorequest : ℕ
icmp_echorequest = 8

abbrev pub icmp_time_exceeded : ℕ
icmp_time_exceeded = 11

abbrev pub icmp_net_unreach : ℕ
icmp_net_unreach = 0

abbrev pub icmp_host_unreach : ℕ
icmp_host_unreach = 1

abbrev pub icmp_exc_ttl : ℕ
icmp_exc_ttl = 0

abbrev pub icmp_copied_data_len : ℕ
icmp_copied_data_len = 8

abbrev pub arpop_request : ℕ
arpop_request = 1

abbrev pub arpop_reply : ℕ
arpop_reply = 2
