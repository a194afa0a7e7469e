-- ===== src/Nat/Translate.antt =====
-- do_translation of nat.c. The lock is held from its first line to the last but one: the part between
-- is one step.
pub mod Verify
use computer_network_labs.Router.Run.{◌>>=◌, out_of_bounds, Run, ok, fault}
use computer_network_labs.Router.Packet.{IpHeader}
use computer_network_labs.Base.{
  ltb, ◌==◌, if◌then◌else◌, ℕ, zero, suc, ◌-◌, Bool, true, false, not, ◌&&◌, List, [], ◌∷◌,
}
use computer_network_labs.Nat.Packet.{
  tcp_fin, tcp_ack, tcp_checksum, ip_checksum, TcpHeader, Packet, tcp_body, other_body,
}
use computer_network_labs.Nat.Table.{
  nat_port_min, nat_port_max, set_at, list_index, empty_mapping, NatMapping, NatTable,
}

-- `enum packet_dir`
pub data PacketDir : Type 0 where
  dir_in dir_out dir_invalid : PacketDir

-- The tests of the two searches.
unfoldable pub is_external : ℕ → ℕ → NatMapping → Bool
is_external ip port e = (e.external_ip == ip) && (e.external_port == port)

unfoldable pub is_internal : ℕ → ℕ → NatMapping → Bool
is_internal ip port e = (e.internal_ip == ip) && (e.internal_port == port)

unfoldable pub has : (NatMapping → Bool) → List NatMapping → Bool
has test [] = false
has test (e ∷ entries) = if test e then true else has test entries

-- A search, the new entry at the tail if it fails, and the change of the entry: the changed entry
-- and the list.
unfoldable pub visit :
    (NatMapping → Bool)
    → (NatMapping → NatMapping)
    → NatMapping
    → List NatMapping
    → NatMapping × List NatMapping
visit test change new [] = (change new, change new ∷ [])
visit test change new (e ∷ entries) =
    let (x, rest) = visit test change new entries in
    if test e then (change e, change e ∷ entries) else (x, e ∷ rest)

-- `for (i = NAT_PORT_MIN; i < NAT_PORT_MAX; i++)`, with the number of rounds.
unfoldable pub port_loop : ℕ → ℕ → (ℕ → Bool) → ℕ
port_loop zero i ports = i
port_loop (suc n) i ports = if not (ports i) then i else port_loop n (suc i) ports

abbrev pub pool_size : ℕ
pool_size = nat_port_max - nat_port_min

unfoldable pub free_port : (ℕ → Bool) → ℕ
free_port ports = port_loop pool_size nat_port_min ports

-- What the loop leaves in the pool.
unfoldable pub take_port : (ℕ → Bool) → ℕ → Bool
take_port ports =
    if ltb (free_port ports) nat_port_max then set_at (free_port ports) true ports else ports

-- What a packet from outside, and one from inside, write into the entry.
unfoldable pub received : ℕ → TcpHeader → NatMapping → NatMapping
received now tcp e = record e {
  update_time = now;
  conn = record (e.conn) {
    external_fin = tcp.flags == tcp_fin;
    external_seq_end = tcp.seq;
    external_ack = if tcp.flags == tcp_ack then tcp.ack else e.conn.external_ack;
  };
}

unfoldable pub sent : ℕ → TcpHeader → NatMapping → NatMapping
sent now tcp e = record e {
  update_time = now;
  conn = record (e.conn) {
    internal_fin = tcp.flags == tcp_fin;
    internal_seq_end = tcp.seq;
    internal_ack = if tcp.flags == tcp_ack then tcp.ack else e.conn.internal_ack;
  };
}

-- The entries that the two branches add when the search fails.
abbrev pub new_inbound : IpHeader → TcpHeader → NatMapping
new_inbound ip tcp = record empty_mapping { external_ip = ip.daddr; external_port = tcp.dport }

abbrev pub new_outbound : IpHeader → TcpHeader → NatTable → NatMapping
new_outbound ip tcp nat = record empty_mapping {
  internal_ip = ip.saddr;
  internal_port = tcp.sport;
  external_ip = nat.external_iface.ip;
  external_port = free_port nat.assigned_ports;
}

-- The pool after a packet from inside: a port is taken if the search fails.
unfoldable pub outbound_ports : IpHeader → TcpHeader → NatTable → ℕ → Bool
outbound_ports ip tcp nat =
    if has (is_internal ip.saddr tcp.sport) (nat.nat_mapping_list (list_index ip.daddr))
    then nat.assigned_ports
    else take_port nat.assigned_ports

unfoldable pub inbound : ℕ → IpHeader → TcpHeader → NatTable → NatTable × NatMapping
inbound now ip tcp nat =
    let i = list_index ip.saddr in
    let (e, entries) =
      visit (is_external ip.daddr tcp.dport) (received now tcp) (new_inbound ip tcp)
        (nat.nat_mapping_list i) in
    (record nat { nat_mapping_list = set_at i entries nat.nat_mapping_list }, e)

unfoldable pub outbound : ℕ → IpHeader → TcpHeader → NatTable → NatTable × NatMapping
outbound now ip tcp nat =
    let i = list_index ip.daddr in
    let (e, entries) =
      visit (is_internal ip.saddr tcp.sport) (sent now tcp) (new_outbound ip tcp nat)
        (nat.nat_mapping_list i) in
    (
      record nat {
        nat_mapping_list = set_at i entries nat.nat_mapping_list;
        assigned_ports = outbound_ports ip tcp nat;
      },
      e,
    )

-- The two checksums.
unfoldable pub sum_packet : IpHeader → TcpHeader → List ℕ → Run Packet
sum_packet ip tcp bytes = do
  k ← tcp_checksum ip tcp bytes
  ok (record {
    ip = record ip { checksum = ip_checksum ip };
    body = tcp_body (record tcp { checksum = k }) bytes;
  })

unfoldable pub translate_in : ℕ → IpHeader → TcpHeader → List ℕ → NatTable → Run (NatTable × Packet)
translate_in now ip tcp bytes nat =
    let (nat', e) = inbound now ip tcp nat in
    do
      packet ←
          sum_packet (record ip { daddr = e.internal_ip }) (record tcp { dport = e.internal_port })
            bytes
      ok (nat', packet)

unfoldable pub translate_out :
    ℕ → IpHeader → TcpHeader → List ℕ → NatTable → Run (NatTable × Packet)
translate_out now ip tcp bytes nat =
    let (nat', e) = outbound now ip tcp nat in
    do
      packet ←
          sum_packet (record ip { saddr = e.external_ip }) (record tcp { sport = e.external_port })
            bytes
      ok (nat', packet)

-- The translation, before the packet is sent. A packet too short for a TCP header is read beyond its end.
unfoldable pub translate : ℕ → Packet → PacketDir → NatTable → Run (NatTable × Packet)
translate now packet dir nat = elim packet.body [
  | other_body bytes ↦ fault out_of_bounds
  | tcp_body tcp bytes ↦ elim dir [
    | dir_in ↦ translate_in now packet.ip tcp bytes nat
    | dir_out ↦ translate_out now packet.ip tcp bytes nat
    | dir_invalid ↦ translate_out now packet.ip tcp bytes nat
  ]
]
