-- ===== src/Witnesses/Nats.antt =====
-- Inputs for the theorems on the address translator.
use computer_network_labs.Witnesses.Links.{lan, wan}
use computer_network_labs.Router.Checksum
use computer_network_labs.Nat.Sum
use computer_network_labs.Base.{ℕ, ◌≡◌, refl, sym, inr, true, false, [], ◌∷◌, ◌++◌, arith}
use computer_network_labs.Router.Run.{ok}
use computer_network_labs.Router.Packet.{header_bytes, IpHeader}
use computer_network_labs.Nat.Packet.{host32, htonl, tcp_len, TcpHeader, tcp_body}
use computer_network_labs.Nat.Table.{set_at, list_index, add_rules, nat_init, NatTable}
use computer_network_labs.Nat.Translate.{
  is_external, is_internal, has, visit, port_loop, free_port, received, sent, inbound, outbound,
  sum_packet,
}
use computer_network_labs.Nat.Translate.Verify.{pseudo_bytes, segment, sum_packet_lem, HasSum}
use computer_network_labs.Nat.Ports.{HasRoom, outbound-IsSound, IsSound}
use computer_network_labs.Nat.Timeout.{nat_init-IsSound}
use computer_network_labs.Nat.Flow.{inbound-outbound, now_or_never}
use computer_network_labs.Nat.Misses.{outbound_exhausted}
use computer_network_labs.Nat.Flaws.{inbound-outbound_exhausted, inbound-outbound_intruder}

abbrev header : IpHeader
header = record {
  version = 4;
  ihl = 5;
  tos = 0;
  tot_len = 44;
  id = 9;
  frag_off = 0;
  ttl = 64;
  protocol = 6;
  checksum = 0;
  saddr = 0x0a000005;
  daddr = 0x0a000107;
  options = [];
}

abbrev request : TcpHeader
request = record {
  sport = 40000;
  dport = 80;
  seq = 1;
  ack = 0;
  x2 = 0;
  off = 5;
  flags = 2;
  rwnd = 255;
  checksum = 0;
  urp = 0;
}

request-HasSum : HasSum header request (1 ∷ 2 ∷ 3 ∷ 4 ∷ [])
unfolding tcp_len htonl
request-HasSum = record {
  fills = refl;
  octets = search arith;
  proto = omega arith;
  narrow = omega arith;
}

sum_packet_lem_example :
    (c k : ℕ) × (sum_packet header request (1 ∷ 2 ∷ 3 ∷ 4 ∷ [])
      ≡ ok (record {
        ip = record header { checksum = c };
        body = tcp_body (record request { checksum = k }) (1 ∷ 2 ∷ 3 ∷ 4 ∷ []);
      }))
    × (Checksum.checksum (header_bytes (record header { checksum = c })) 0 ≡ 0)
    × (Checksum.checksum (pseudo_bytes header ++ segment request k (1 ∷ 2 ∷ 3 ∷ 4 ∷ [])) 0 ≡ 0)
sum_packet_lem_example =
    sum_packet_lem header request (1 ∷ 2 ∷ 3 ∷ 4 ∷ []) (record { bytes = tt; short = omega arith })
      request-HasSum

abbrev new_table : NatTable
new_table = nat_init lan wan []

new_table-IsSound : IsSound new_table
new_table-IsSound = nat_init-IsSound lan wan []

request-HasRoom : HasRoom header request new_table
unfolding nat_init add_rules free_port port_loop
request-HasRoom = inr (omega arith)

outbound-IsSound_example : IsSound (outbound 5 header request new_table).0
outbound-IsSound_example =
    outbound-IsSound 5 header request new_table new_table-IsSound request-HasRoom

abbrev busy : NatTable
busy = (outbound 5 header request new_table).0

-- The answer to the request, as it comes to the translator.
abbrev reply : IpHeader
reply = record header { saddr = 0x0a000107; daddr = wan.ip }

abbrev back : TcpHeader
back = record request { sport = 80; dport = 12345 }

reply_matches :
    (wan.ip ≡ (outbound 5 header request new_table).1.external_ip)
    × (12345 ≡ (outbound 5 header request new_table).1.external_port)
unfolding outbound visit nat_init add_rules free_port port_loop sent
reply_matches = (refl, refl)

inbound-outbound_example :
    ((inbound 6 reply back (outbound 5 header request new_table).0).1.internal_ip ≡ 0x0a000005)
    × ((inbound 6 reply back (outbound 5 header request new_table).0).1.internal_port ≡ 40000)
inbound-outbound_example =
    inbound-outbound 5 6 header reply request back new_table (outbound 5 header request new_table).0
      new_table-IsSound request-HasRoom now_or_never refl reply_matches.0 reply_matches.1

-- All ports are assigned.
abbrev full_table : NatTable
full_table = record {
  nat_mapping_list = λ i. [];
  internal_iface = lan;
  external_iface = wan;
  assigned_ports = λ p. true;
  rules = [];
}

abbrev other : IpHeader
other = record header { saddr = 0x0a000006 }

abbrev full_back : TcpHeader
full_back = record request { sport = 80; dport = 23456 }

full_second :
    has
      (is_internal 0x0a000006 40000)
      ((outbound 5 header request full_table).0.nat_mapping_list (list_index 0x0a000107))
    ≡ false
unfolding outbound visit sent set_at list_index Sum.hash8 Sum.hash_loop host32 has is_internal
full_second = refl

full_first :
    has (is_internal 0x0a000005 40000) (full_table.nat_mapping_list (list_index 0x0a000107)) ≡ false
unfolding has
full_first = refl

full_address :
    wan.ip ≡ (outbound 5 other request (outbound 5 header request full_table).0).1.external_ip
unfolding outbound visit sent set_at list_index Sum.hash8 Sum.hash_loop host32 has is_internal
full_address = refl

full_port :
    (outbound 5 other request (outbound 5 header request full_table).0).1.external_port ≡ 23456
full_port =
    (outbound_exhausted 5 other request (outbound 5 header request full_table).0
      (outbound_exhausted 5 header request full_table (λ p a b. refl) full_first).1 full_second).0

inbound-outbound_exhausted_example :
    ((inbound 5 reply full_back
        (outbound 5 other request (outbound 5 header request full_table).0).0).1.internal_ip
      ≡ 0x0a000005)
    × ((inbound 5 reply full_back
          (outbound 5 other request (outbound 5 header request full_table).0).0).1.internal_port
        ≡ 40000)
unfolding has
inbound-outbound_exhausted_example =
    inbound-outbound_exhausted 5 header other reply request request full_back full_table
      (λ p a b. refl) refl full_first full_second refl refl full_address (sym full_port)

-- A packet that nobody inside has asked for, to the port that is assigned next.
abbrev probe : TcpHeader
probe = record request { sport = 80; dport = 12345 }

intruder_matches :
    (12345 ≡ free_port new_table.assigned_ports)
    × (has (is_external wan.ip 12345) (new_table.nat_mapping_list (list_index 0x0a000107)) ≡ false)
    × (has
          (is_internal 0x0a000005 40000)
          ((inbound 5 reply probe new_table).0.nat_mapping_list (list_index 0x0a000107))
        ≡ false)
    × (wan.ip ≡ (outbound 5 header request (inbound 5 reply probe new_table).0).1.external_ip)
    × (12345 ≡ (outbound 5 header request (inbound 5 reply probe new_table).0).1.external_port)
unfolding outbound inbound visit sent received set_at list_index Sum.hash8 Sum.hash_loop host32 has
    is_internal is_external nat_init add_rules free_port port_loop
intruder_matches = (refl, refl, refl, refl, refl)

inbound-outbound_intruder_example :
    ((inbound 5 reply back
        (outbound 5 header request (inbound 5 reply probe new_table).0).0).1.internal_ip
      ≡ 0)
    × ((inbound 5 reply back
          (outbound 5 header request (inbound 5 reply probe new_table).0).0).1.internal_port
        ≡ 0)
unfolding nat_init add_rules
inbound-outbound_intruder_example =
    inbound-outbound_intruder 5 reply header reply probe request back new_table refl refl refl
      intruder_matches.0 intruder_matches.1 intruder_matches.2 intruder_matches.3 intruder_matches.4
