-- ===== src/Nat/Fins.antt =====
-- is_flow_finished of nat.c after a packet.
use computer_network_labs.Router.Packet.{IpHeader}
use computer_network_labs.Base.{
  Bool-cases, ℕ, ◌≡◌, refl, ◌≢◌, inl, inr, Bool, false, List, [], ◌∷◌, arith,
}
use computer_network_labs.Nat.Packet.{tcp_fin, TcpHeader}
use computer_network_labs.Nat.Table.{list_index, NatMapping, NatTable}
use computer_network_labs.Nat.Translate.{
  is_external, is_internal, visit, received, sent, new_inbound, new_outbound, inbound, outbound,
}
use computer_network_labs.Nat.Sweep.{is_flow_finished}

visit-change :
    (test : NatMapping → Bool) (change : NatMapping → NatMapping) (new : NatMapping)
    (xs : List NatMapping)
    → (e : NatMapping) × ((visit test change new xs).0 ≡ change e)
unfolding visit
visit-change test change new [] = (new, refl)
visit-change test change new (x ∷ xs) = elim (Bool-cases (test x)) [
  | inl t ↦ (x, rw t refl)
  | inr t ↦ let (e, h) = visit-change test change new xs in (e, rw t h)
]

is_flow_finished-received :
    (now : ℕ) (tcp : TcpHeader) (e : NatMapping)
    → tcp.flags ≢ tcp_fin
    → is_flow_finished (received now tcp e).conn ≡ false
unfolding is_flow_finished received
is_flow_finished-received now tcp e h = ground arith

is_flow_finished-sent :
    (now : ℕ) (tcp : TcpHeader) (e : NatMapping)
    → tcp.flags ≢ tcp_fin
    → is_flow_finished (sent now tcp e).conn ≡ false
unfolding is_flow_finished sent
is_flow_finished-sent now tcp e h = ground arith

-- A flow is not finished after a packet whose flags are other than FIN alone.
pub is_flow_finished_bare :
    (now : ℕ) (ip : IpHeader) (tcp : TcpHeader) (nat : NatTable)
    → tcp.flags ≢ tcp_fin
    → (is_flow_finished (inbound now ip tcp nat).1.conn ≡ false)
      × (is_flow_finished (outbound now ip tcp nat).1.conn ≡ false)
unfolding inbound outbound
is_flow_finished_bare now ip tcp nat h =
    let (e, in_eq) =
      visit-change (is_external ip.daddr tcp.dport) (received now tcp) (new_inbound ip tcp)
        (nat.nat_mapping_list (list_index ip.saddr)) in
    let (e', out_eq) =
      visit-change (is_internal ip.saddr tcp.sport) (sent now tcp) (new_outbound ip tcp nat)
        (nat.nat_mapping_list (list_index ip.daddr)) in
    (
      rw in_eq (is_flow_finished-received now tcp e h),
      rw out_eq (is_flow_finished-sent now tcp e' h),
    )
