-- ===== src/Nat/Flow.antt =====
-- do_translation of nat.c: a reply comes back to the host and the port that the flow began at.
use computer_network_labs.Router.Packet.{IpHeader}
use computer_network_labs.Base.{
  ◌==◌, Bool-cases, ℕ, ◌≡◌, refl, sym, ap, ◌∙◌, subst, inl, inr, Bool, true, List, arith,
}
use computer_network_labs.Nat.Packet.{TcpHeader}
use computer_network_labs.Nat.Table.{set_at, list_index, NatMapping, NatTable}
use computer_network_labs.Nat.Translate.{
  is_external, is_internal, visit, received, sent, new_inbound, new_outbound, inbound, outbound,
}
use computer_network_labs.Nat.Entries.{At, Same, At-visit, visit-here, visit_hit, visit-only}
use computer_network_labs.Nat.Ports.{
  sent-Same, received-Same, HasRoom, HasFlow, outbound-IsSound, inbound-IsSound, IsSound,
}

-- The translations of other packets: from inside while there is room, from outside to known flows.
pub data Later (nat : NatTable) : NatTable → Type 0 where
  now_or_never : Later nat nat
  then_out :
      (nat' : NatTable) (now : ℕ) (ip : IpHeader) (tcp : TcpHeader)
      → HasRoom ip tcp nat'
      → Later nat nat'
      → Later nat (outbound now ip tcp nat').0
  then_in :
      (nat' : NatTable) (now : ℕ) (ip : IpHeader) (tcp : TcpHeader)
      → HasFlow ip tcp nat'
      → Later nat nat'
      → Later nat (inbound now ip tcp nat').0

Later-IsSound : (nat nat' : NatTable) → Later nat nat' → IsSound nat → IsSound nat'
Later-IsSound nat _ now_or_never s = s
Later-IsSound nat _ (then_out nat' now ip tcp room l) s =
    outbound-IsSound now ip tcp nat' (Later-IsSound nat nat' l s) room
Later-IsSound nat _ (then_in nat' now ip tcp found l) s =
    inbound-IsSound now ip tcp nat' (Later-IsSound nat nat' l s) found

-- An entry for the same translation is in the list.
abbrev Kept : ℕ → NatMapping → NatTable → Type 0
Kept i e nat = (f : NatMapping) × At f (nat.nat_mapping_list i) × Same f e

Same-trans : (e f g : NatMapping) → Same f e → Same g f → Same g e
Same-trans e f g (a, b, c, d) (a', b', c', d') = (a' ∙ a, b' ∙ b, c' ∙ c, d' ∙ d)

set_at-Kept :
    (test : NatMapping → Bool) (change : NatMapping → NatMapping) (new : NatMapping) (j i : ℕ)
    (e : NatMapping) (nat : NatTable)
    → ((x : NatMapping) → Same (change x) x)
    → Kept i e nat
    → (f : NatMapping) × At f
        (set_at j (visit test change new (nat.nat_mapping_list j)).1 nat.nat_mapping_list i)
      × Same f e
unfolding set_at
set_at-Kept test change new j i e nat keeps (f, a, same) = elim (Bool-cases (i == j)) [
  | inr n ↦ rw n (f, a, same)
  | inl y ↦
      let here : i ≡ j = ground (arith, y) in
      let (g, b, same') =
        At-visit test change new keeps f (nat.nat_mapping_list j)
          (subst (λ k. At f (nat.nat_mapping_list k)) here a) in
      rw y (g, b, Same-trans e f g same same')
]

Later-Kept :
    (nat nat' : NatTable) (i : ℕ) (e : NatMapping) → Later nat nat' → Kept i e nat → Kept i e nat'
unfolding outbound inbound
Later-Kept nat _ i e now_or_never k = k
Later-Kept nat _ i e (then_out nat' now ip tcp room l) k =
    set_at-Kept (is_internal ip.saddr tcp.sport) (sent now tcp) (new_outbound ip tcp nat')
      (list_index ip.daddr) i e nat' (sent-Same now tcp) (Later-Kept nat nat' i e l k)
Later-Kept nat _ i e (then_in nat' now ip tcp found l) k =
    set_at-Kept (is_external ip.daddr tcp.dport) (received now tcp) (new_inbound ip tcp)
      (list_index ip.saddr) i e nat' (received-Same now tcp) (Later-Kept nat nat' i e l k)

pub set_at_same :
    (i : ℕ) (xs : List NatMapping) (lists : ℕ → List NatMapping) → set_at i xs lists i ≡ xs
unfolding set_at
set_at_same i xs lists = ground arith

is_internal-sent :
    (ip port now : ℕ) (tcp : TcpHeader) (e : NatMapping)
    → is_internal ip port (sent now tcp e) ≡ is_internal ip port e
unfolding is_internal sent
is_internal-sent ip port now tcp e = refl

is_internal→eq :
    (ip port : ℕ) (e : NatMapping)
    → is_internal ip port e ≡ true
    → (e.internal_ip ≡ ip) × (e.internal_port ≡ port)
unfolding is_internal
is_internal→eq ip port e h = (ground (arith, h), ground (arith, h))

is_internal-new_outbound :
    (ip : IpHeader) (tcp : TcpHeader) (nat : NatTable)
    → is_internal ip.saddr tcp.sport (new_outbound ip tcp nat) ≡ true
unfolding is_internal
is_internal-new_outbound ip tcp nat = ground arith

pub is_external_refl :
    (ip port : ℕ) (e : NatMapping)
    → e.external_ip ≡ ip
    → e.external_port ≡ port
    → is_external ip port e ≡ true
unfolding is_external
is_external_refl ip port e a b = ground arith

is_external→eq :
    (ip port : ℕ) (e : NatMapping) → is_external ip port e ≡ true → e.external_port ≡ port
unfolding is_external
is_external→eq ip port e h = ground (arith, h)

-- The entry of a packet from inside.
outbound-Kept :
    (now : ℕ) (ip : IpHeader) (tcp : TcpHeader) (nat : NatTable)
    → Kept (list_index ip.daddr) (outbound now ip tcp nat).1 (outbound now ip tcp nat).0
unfolding outbound
outbound-Kept now ip tcp nat =
    let i = list_index ip.daddr in
    let test = is_internal ip.saddr tcp.sport in
    let out = visit test (sent now tcp) (new_outbound ip tcp nat) (nat.nat_mapping_list i) in
    (
      out.0,
      subst (At out.0) (sym (set_at_same i out.1 nat.nat_mapping_list)) (
          visit-here test (sent now tcp) (new_outbound ip tcp nat) (sent-Same now tcp)
            (nat.nat_mapping_list i)),
      (refl, refl, refl, refl),
    )

outbound_internal :
    (now : ℕ) (ip : IpHeader) (tcp : TcpHeader) (nat : NatTable)
    → ((outbound now ip tcp nat).1.internal_ip ≡ ip.saddr)
      × ((outbound now ip tcp nat).1.internal_port ≡ tcp.sport)
unfolding outbound
outbound_internal now ip tcp nat = is_internal→eq ip.saddr tcp.sport _ (
    visit_hit (is_internal ip.saddr tcp.sport) (sent now tcp) (new_outbound ip tcp nat)
      (nat.nat_mapping_list (list_index ip.daddr)) (is_internal-sent ip.saddr tcp.sport now tcp)
      (is_internal-new_outbound ip tcp nat))

-- On a sound table with room for the flow, after a packet from inside has been translated, and then
-- other packets from inside with room for their flows and packets from outside of known flows, the
-- reply of the same peer to the translated address and port is translated back to the address and
-- the port inside that the packet came from.
pub inbound-outbound :
    (now now' : ℕ) (ip ip' : IpHeader) (tcp tcp' : TcpHeader) (nat nat' : NatTable)
    → IsSound nat
    → HasRoom ip tcp nat
    → Later (outbound now ip tcp nat).0 nat'
    → ip'.saddr ≡ ip.daddr
    → ip'.daddr ≡ (outbound now ip tcp nat).1.external_ip
    → tcp'.dport ≡ (outbound now ip tcp nat).1.external_port
    → ((inbound now' ip' tcp' nat').1.internal_ip ≡ ip.saddr)
      × ((inbound now' ip' tcp' nat').1.internal_port ≡ tcp.sport)
unfolding inbound
inbound-outbound now now' ip ip' tcp tcp' nat nat' s room l from to port =
    let nat1 = (outbound now ip tcp nat).0 in
    let e = (outbound now ip tcp nat).1 in
    let sound = Later-IsSound nat1 nat' l (outbound-IsSound now ip tcp nat s room) in
    let (f, a, same) =
      Later-Kept nat1 nat' (list_index ip.daddr) e l (outbound-Kept now ip tcp nat) in
    let i' = list_index ip'.saddr in
    let found =
      visit-only (is_external ip'.daddr tcp'.dport) (received now' tcp') (new_inbound ip' tcp') f
        (nat'.nat_mapping_list i')
        (subst (λ x. At f (nat'.nat_mapping_list (list_index x))) (sym from) a)
        (is_external_refl ip'.daddr tcp'.dport f (same.2 ∙ sym to) (same.3 ∙ sym port))
        (λ g h. is_external→eq ip'.daddr tcp'.dport g h ∙ port ∙ sym same.3) (sound.distinct i') in
    let (same_ip, same_port) = outbound_internal now ip tcp nat in
    let (kept_ip, kept_port, _x, _y) = received-Same now' tcp' f in
    (
      ap (λ (x : NatMapping). x.internal_ip) found ∙ kept_ip ∙ same.0 ∙ same_ip,
      ap (λ (x : NatMapping). x.internal_port) found ∙ kept_port ∙ same.1 ∙ same_port,
    )
