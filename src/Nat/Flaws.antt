-- ===== src/Nat/Flaws.antt =====
-- do_translation of nat.c where it does not do what is meant.
use computer_network_labs.Router.Packet.{IpHeader}
use computer_network_labs.Nat.Misses.{
  IsFull, free_port-full, outbound_miss, inbound_miss, inbound_first, outbound_rest, inbound_rest,
  outbound_second,
}
use computer_network_labs.Base.{ℕ, ◌≡◌, sym, ap, ◌∙◌, subst, false, [], ◌∷◌}
use computer_network_labs.Nat.Packet.{TcpHeader}
use computer_network_labs.Nat.Table.{list_index, NatMapping, NatTable}
use computer_network_labs.Nat.Translate.{
  is_external, is_internal, has, free_port, received, sent, new_inbound, new_outbound, inbound,
  outbound,
}
use computer_network_labs.Nat.Ports.{sent-Same, received-Same, outbound_ports-grow}
use computer_network_labs.Nat.Flow.{is_external_refl}
use computer_network_labs.Device.{IfaceInfo}

-- When all ports of the pool are assigned, two flows that begin from inside to the same peer get
-- the same port, and a reply to the second is translated to the address and the port of the first,
-- if no entry of the list has that external address and port already.
pub inbound-outbound_exhausted :
    (now : ℕ) (ip ip' reply : IpHeader) (tcp tcp' back : TcpHeader) (nat : NatTable)
    → IsFull nat.assigned_ports
    → ip'.daddr ≡ ip.daddr
    → has (is_internal ip.saddr tcp.sport) (nat.nat_mapping_list (list_index ip.daddr)) ≡ false
    → has
        (is_internal ip'.saddr tcp'.sport)
        ((outbound now ip tcp nat).0.nat_mapping_list (list_index ip'.daddr))
      ≡ false
    → has (is_external reply.daddr back.dport) (nat.nat_mapping_list (list_index ip.daddr)) ≡ false
    → reply.saddr ≡ ip'.daddr
    → reply.daddr ≡ (outbound now ip' tcp' (outbound now ip tcp nat).0).1.external_ip
    → back.dport ≡ (outbound now ip' tcp' (outbound now ip tcp nat).0).1.external_port
    → ((inbound now reply back (outbound now ip' tcp' (outbound now ip tcp nat).0).0).1.internal_ip
        ≡ ip.saddr)
      × ((inbound now reply back
            (outbound now ip' tcp' (outbound now ip tcp nat).0).0).1.internal_port
          ≡ tcp.sport)
inbound-outbound_exhausted now ip ip' reply tcp tcp' back nat full same miss miss' clear from to
      port =
    let nat1 = (outbound now ip tcp nat).0 in
    let nat2 = (outbound now ip' tcp' nat1).0 in
    let e = sent now tcp (new_outbound ip tcp nat) in
    let e' = sent now tcp' (new_outbound ip' tcp' nat1) in
    let (iface_kept, pool) = outbound_rest now ip tcp nat in
    let (_a, _b, own_ip, own_port) = sent-Same now tcp (new_outbound ip tcp nat) in
    let (_c, _d, own_ip', own_port') = sent-Same now tcp' (new_outbound ip' tcp' nat1) in
    let full1 : IsFull nat1.assigned_ports =
      λ p a b. ap (λ f. f p) pool ∙ outbound_ports-grow ip tcp nat p (full p a b) in
    let second = (outbound_miss now ip' tcp' nat1 miss').0 in
    let list =
      outbound_second now ip' tcp' nat1 (list_index ip.daddr)
        (nat.nat_mapping_list (list_index ip.daddr)) e (ap list_index same)
        (outbound_miss now ip tcp nat miss).1 miss' in
    let external =
      is_external_refl reply.daddr back.dport e
        (own_ip
          ∙ ap (λ (x : IfaceInfo). x.ip) (sym iface_kept)
          ∙ sym own_ip'
          ∙ ap (λ (x : NatMapping). x.external_ip) (sym second)
          ∙ sym to)
        (own_port
          ∙ free_port-full nat.assigned_ports full
          ∙ sym (free_port-full nat1.assigned_ports full1)
          ∙ sym own_port'
          ∙ ap (λ (x : NatMapping). x.external_port) (sym second)
          ∙ sym port) in
    let found =
      inbound_first now reply back nat2 (nat.nat_mapping_list (list_index ip.daddr)) (e' ∷ []) e
        (ap (λ a. nat2.nat_mapping_list (list_index a)) (from ∙ same) ∙ list) clear external in
    let (in_ip, in_port, _e, _f) = received-Same now back e in
    (
      ap (λ (x : NatMapping). x.internal_ip) found ∙ in_ip ∙ _a,
      ap (λ (x : NatMapping). x.internal_port) found ∙ in_port ∙ _b,
    )

-- A packet from outside to the external address and the port that is assigned next, when no entry
-- has them, makes an entry; after it, the flow that begins from inside to the same peer gets that
-- port, and the reply to it is translated to address 0 and port 0.
pub inbound-outbound_intruder :
    (now : ℕ) (probe ip reply : IpHeader) (intruder tcp back : TcpHeader) (nat : NatTable)
    → ip.daddr ≡ probe.saddr
    → reply.saddr ≡ probe.saddr
    → probe.daddr ≡ nat.external_iface.ip
    → intruder.dport ≡ free_port nat.assigned_ports
    → has (is_external probe.daddr intruder.dport) (nat.nat_mapping_list (list_index probe.saddr))
      ≡ false
    → has
        (is_internal ip.saddr tcp.sport)
        ((inbound now probe intruder nat).0.nat_mapping_list (list_index ip.daddr))
      ≡ false
    → reply.daddr ≡ (outbound now ip tcp (inbound now probe intruder nat).0).1.external_ip
    → back.dport ≡ (outbound now ip tcp (inbound now probe intruder nat).0).1.external_port
    → ((inbound now reply back
          (outbound now ip tcp (inbound now probe intruder nat).0).0).1.internal_ip
        ≡ 0)
      × ((inbound now reply back
            (outbound now ip tcp (inbound now probe intruder nat).0).0).1.internal_port
          ≡ 0)
inbound-outbound_intruder now probe ip reply intruder tcp back nat same from addr port clear miss to
      at =
    let nat1 = (inbound now probe intruder nat).0 in
    let nat2 = (outbound now ip tcp nat1).0 in
    let e = received now intruder (new_inbound probe intruder) in
    let e' = sent now tcp (new_outbound ip tcp nat1) in
    let (iface_kept, pool) = inbound_rest now probe intruder nat in
    let (no_ip, no_port, own_ip, own_port) =
      received-Same now intruder (new_inbound probe intruder) in
    let (_c, _d, own_ip', own_port') = sent-Same now tcp (new_outbound ip tcp nat1) in
    let second = (outbound_miss now ip tcp nat1 miss).0 in
    let i = list_index probe.saddr in
    let list =
      outbound_second now ip tcp nat1 i (nat.nat_mapping_list i) e (ap list_index same)
        (inbound_miss now probe intruder nat clear) miss in
    let same_ip : probe.daddr ≡ reply.daddr =
      addr
      ∙ ap (λ (x : IfaceInfo). x.ip) (sym iface_kept)
      ∙ sym own_ip'
      ∙ ap (λ (x : NatMapping). x.external_ip) (sym second)
      ∙ sym to in
    let same_port : intruder.dport ≡ back.dport =
      port
      ∙ ap free_port (sym pool)
      ∙ sym own_port'
      ∙ ap (λ (x : NatMapping). x.external_port) (sym second)
      ∙ sym at in
    let found =
      inbound_first now reply back nat2 (nat.nat_mapping_list i) (e' ∷ []) e
        (ap (λ a. nat2.nat_mapping_list (list_index a)) from ∙ list)
        (subst (λ a. has (is_external a back.dport) (nat.nat_mapping_list i) ≡ false) same_ip
          (subst (λ p. has (is_external probe.daddr p) (nat.nat_mapping_list i) ≡ false) same_port
            clear))
        (is_external_refl reply.daddr back.dport e (own_ip ∙ same_ip) (own_port ∙ same_port)) in
    let (in_ip, in_port, _e, _f) = received-Same now back e in
    (
      ap (λ (x : NatMapping). x.internal_ip) found ∙ in_ip ∙ no_ip,
      ap (λ (x : NatMapping). x.internal_port) found ∙ in_port ∙ no_port,
    )
