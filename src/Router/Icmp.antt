-- ===== src/Router/Icmp.antt =====
-- icmp.c. The lengths of an incoming packet are those of its parts, its header has at least five words.
pub mod Message
use computer_network_labs.Router.Checksum
use computer_network_labs.Base.{
  ltb, ◌==◌, if◌then◌else◌, length, take, ℕ, zero, suc, ◌+◌, ◌-◌, ◌*◌, ◌%◌, none, some, List, [],
  ◌∷◌, ◌++◌,
}
use computer_network_labs.Device.{IfaceInfo}
use computer_network_labs.Router.Run.{◌>>=◌, null_pointer, out_of_bounds, Run, ok, fault}
use computer_network_labs.Router.Packet.{
  host16, header_bytes, eth_p_ip, ipproto_icmp, icmp_echoreply, icmp_copied_data_len, Packet,
}
use computer_network_labs.Router.Rtable.{longest_prefix_match}
use computer_network_labs.Router.State.{free_again, Router, System}
use computer_network_labs.Router.Ip.{ip_init_hdr, ip_send_packet}

-- The offset of the ICMP header in an outgoing packet: ETHER_HDR_SIZE + IP_BASE_HDR_SIZE.
abbrev pub icmp_offset : ℕ
icmp_offset = 34

-- `n` bytes of the allocated block that nothing has written, from an offset on.
unfoldable pub heap_bytes : (ℕ → ℕ) → ℕ → ℕ → List ℕ
heap_bytes heap from zero = []
heap_bytes heap from (suc n) = heap from % 256 ∷ heap_bytes heap (suc from) n

-- For a reply, the whole ICMP message of the request is copied, over the type and the code that have
-- just been stored. A block as long as the request has more bytes if that has options.
unfoldable pub echo_message : System → Packet → List ℕ
echo_message sys in_pkt =
    in_pkt.payload
    ++ heap_bytes sys.heap (icmp_offset + length in_pkt.payload) (in_pkt.ip.ihl * 4 - 20)

-- Otherwise, the IP header and eight bytes of its data follow the ICMP header, of which the last four
-- bytes are not written.
unfoldable pub error_message : System → Packet → ℕ → ℕ → Run (List ℕ)
error_message sys in_pkt type code =
    if ltb (length in_pkt.payload) icmp_copied_data_len
    then fault out_of_bounds
    else ok (
        (type ∷ code ∷ 0 ∷ 0 ∷ [])
        ++ heap_bytes sys.heap (icmp_offset + 4) 4
        ++ header_bytes in_pkt.ip
        ++ take icmp_copied_data_len in_pkt.payload)

-- `icmp_checksum`, stored in the third and fourth byte.
unfoldable pub set_icmp_checksum : List ℕ → Run (List ℕ)
set_icmp_checksum (type ∷ code ∷ c ∷ d ∷ rest) =
    ok (type ∷ code ∷ host16 (Checksum.checksum (type ∷ code ∷ 0 ∷ 0 ∷ rest) 0) ++ rest)
set_icmp_checksum _ = fault out_of_bounds

unfoldable pub icmp_message : System → Packet → ℕ → ℕ → Run (List ℕ)
icmp_message sys in_pkt type code =
    if type == icmp_echoreply
    then set_icmp_checksum (echo_message sys in_pkt)
    else error_message sys in_pkt type code >>= set_icmp_checksum

-- The packet around a message, from the interface of the route back to the sender.
unfoldable pub icmp_packet : System → Packet → IfaceInfo → List ℕ → Packet
icmp_packet sys in_pkt iface message = record {
  dhost = in_pkt.dhost;
  shost = in_pkt.shost;
  ether_type = eth_p_ip;
  ip = ip_init_hdr sys iface.ip in_pkt.ip.saddr (20 + length message) ipproto_icmp;
  payload = message;
}

unfoldable pub icmp_send_packet : System → Packet → ℕ → ℕ → Router → Run Router
icmp_send_packet sys in_pkt type code r = elim (longest_prefix_match in_pkt.ip.saddr r.rtable) [
  | none ↦ fault null_pointer
  | some rt ↦ do
    message ← icmp_message sys in_pkt type code
    r' ← ip_send_packet sys (icmp_packet sys in_pkt rt.iface message) r
    ok (free_again r')
]
