-- ===== src/Nat/Packet.antt =====
-- The packets that the translator rewrites: include/tcp.h and include/ip.h of 03-nat.
--
-- The ports are kept converted from network byte order; `seq`, `ack`, `rwnd` and the checksum, which
-- the code does not convert, are the words in memory.
use computer_network_labs.Nat.Sum
use computer_network_labs.Router.Run.{out_of_bounds, Run, ok, fault}
use computer_network_labs.Router.Packet.{IpHeader, net16, host16, header_bytes}
use computer_network_labs.Base.{
  ltb, if◌then◌else◌, length, take, add32, ℕ, ◌+◌, ◌-◌, ◌*◌, ◌/◌, ◌%◌, ◌^◌, List, [], ◌∷◌, ◌++◌,
}

-- `struct tcphdr`
pub record TcpHeader : Type 0 where
  pub sport : ℕ
  pub dport : ℕ
  pub seq : ℕ
  pub ack : ℕ
  pub x2 : ℕ
  pub off : ℕ
  pub flags : ℕ
  pub rwnd : ℕ
  pub checksum : ℕ
  pub urp : ℕ

-- What follows the IP header: a TCP header with its data, or other bytes.
pub data Body : Type 0 where
  tcp_body : TcpHeader → List ℕ → Body
  other_body : List ℕ → Body

pub record Packet : Type 0 where
  pub ip : IpHeader
  pub body : Body

abbrev pub tcp_fin : ℕ
tcp_fin = 0x01

abbrev pub tcp_ack : ℕ
tcp_ack = 0x10

abbrev pub ipproto_tcp : ℕ
ipproto_tcp = 6

-- The memory of a 32-bit word of the machine.
unfoldable pub host32 : ℕ → List ℕ
host32 v = v % 256 ∷ v / 256 % 256 ∷ v / 2 ^ 16 % 256 ∷ v / 2 ^ 24 % 256 ∷ []

-- `htons` and `htonl`
unfoldable pub htons : ℕ → ℕ
htons v = v % 256 * 256 + v / 256 % 256

unfoldable pub htonl : ℕ → ℕ
htonl v = v % 256 * 2 ^ 24 + v / 256 % 256 * 2 ^ 16 + v / 2 ^ 16 % 256 * 2 ^ 8 + v / 2 ^ 24 % 256

unfoldable pub tcp_bytes : TcpHeader → List ℕ
tcp_bytes tcp =
    net16 tcp.sport
    ++ (net16 tcp.dport
        ++ (host32 tcp.seq
            ++ (host32 tcp.ack
                ++ ((tcp.off % 16 * 16 + tcp.x2 % 16) ∷ (tcp.flags % 256) ∷ [])
                ++ (host16 tcp.rwnd ++ (host16 tcp.checksum ++ host16 tcp.urp)))))

-- `ntohs(ip->tot_len) - IP_HDR_SIZE(ip)`, a `u16`.
unfoldable pub tcp_len : IpHeader → ℕ
tcp_len ip = (ip.tot_len + 2 ^ 16 - ip.ihl * 4) % 2 ^ 16

-- The sum that stands for the pseudo header, a `u32`.
unfoldable pub pseudo_sum : IpHeader → ℕ
pseudo_sum ip =
    add32 (add32 (add32 (htonl ip.saddr) (htonl ip.daddr)) (htons ip.protocol)) (htons (tcp_len ip))

unfoldable pub tcp_checksum : IpHeader → TcpHeader → List ℕ → Run ℕ
tcp_checksum ip tcp bytes =
    let memory = tcp_bytes (record tcp { checksum = 0 }) ++ bytes in
    if ltb (length memory) (tcp_len ip)
    then fault out_of_bounds
    else ok (Sum.checksum (take (tcp_len ip) memory) (pseudo_sum ip))

unfoldable pub ip_checksum : IpHeader → ℕ
ip_checksum h = Sum.checksum (header_bytes (record h { checksum = 0 })) 0
