-- ===== src/Nat/Misses.antt =====
-- do_translation of nat.c when its search fails: what is appended, and what a later search finds.
use computer_network_labs.Router.Packet.{IpHeader}
use computer_network_labs.Base.{
  Bool-cases, ℕ, zero, suc, ◌+◌, ◌≤◌, ◌<◌, ◌≡◌, refl, sym, ap, ◌∙◌, inl, inr, Bool, true, false,
  List, [], ◌∷◌, ◌++◌, append_assoc, arith,
}
use computer_network_labs.Nat.Packet.{TcpHeader}
use computer_network_labs.Nat.Table.{nat_port_min, nat_port_max, list_index, NatMapping, NatTable}
use computer_network_labs.Nat.Translate.{
  is_external, is_internal, has, visit, port_loop, pool_size, free_port, received, sent,
  new_inbound, new_outbound, outbound_ports, inbound, outbound,
}
use computer_network_labs.Nat.Ports.{sent-Same, outbound_ports-grow}
use computer_network_labs.Nat.Flow.{set_at_same}

-- A search that fails appends.
visit_miss :
    (test : NatMapping → Bool) (change : NatMapping → NatMapping) (new : NatMapping)
    (xs : List NatMapping)
    → has test xs ≡ false
    → visit test change new xs ≡ (change new, xs ++ (change new ∷ []))
unfolding visit has
visit_miss test change new [] h = refl
visit_miss test change new (x ∷ xs) h = elim (Bool-cases (test x)) [
  | inl t ↦ absurd (ground (arith, t))
  | inr t ↦
      let h' : has test xs ≡ false = rw t at h in rw t (rw (visit_miss test change new xs h') refl)
]

has-append :
    (test : NatMapping → Bool) (xs ys : List NatMapping)
    → has test xs ≡ false
    → has test (xs ++ ys) ≡ has test ys
unfolding has
has-append test [] ys h = refl
has-append test (x ∷ xs) ys h = elim (Bool-cases (test x)) [
  | inl t ↦ absurd (ground (arith, t))
  | inr t ↦ rw t (has-append test xs ys (rw t at h))
]

-- The first entry behind a failing part is found.
visit-append :
    (test : NatMapping → Bool) (change : NatMapping → NatMapping) (new e : NatMapping)
    (xs ys : List NatMapping)
    → has test xs ≡ false
    → test e ≡ true
    → (visit test change new (xs ++ (e ∷ ys))).0 ≡ change e
unfolding visit has
visit-append test change new e [] ys h t = rw t refl
visit-append test change new e (x ∷ xs) ys h t = elim (Bool-cases (test x)) [
  | inl u ↦ absurd (ground (arith, u))
  | inr u ↦ rw u (visit-append test change new e xs ys (rw u at h) t)
]

-- All ports of the pool are assigned.
abbrev pub IsFull : (ℕ → Bool) → Type 0
IsFull ports = (p : ℕ) → nat_port_min ≤ p → p < nat_port_max → ports p ≡ true

port_loop-full :
    (n i : ℕ) (ports : ℕ → Bool)
    → ((p : ℕ) → i ≤ p → p < i + n → ports p ≡ true)
    → port_loop n i ports ≡ i + n
unfolding port_loop
port_loop-full zero i ports h = omega arith
port_loop-full (suc n) i ports h =
    rw (h i (omega arith) (omega arith))
      (port_loop-full n (suc i) ports (λ p a b. h p (omega arith) (omega arith)) ∙ omega arith)

pub free_port-full : (ports : ℕ → Bool) → IsFull ports → free_port ports ≡ nat_port_max
unfolding free_port
free_port-full ports h = port_loop-full pool_size nat_port_min ports (λ p a b. h p a b)

-- A packet from inside that begins a flow.
pub outbound_miss :
    (now : ℕ) (ip : IpHeader) (tcp : TcpHeader) (nat : NatTable)
    → has (is_internal ip.saddr tcp.sport) (nat.nat_mapping_list (list_index ip.daddr)) ≡ false
    → ((outbound now ip tcp nat).1 ≡ sent now tcp (new_outbound ip tcp nat))
      × ((outbound now ip tcp nat).0.nat_mapping_list (list_index ip.daddr)
          ≡ nat.nat_mapping_list (list_index ip.daddr)
            ++ (sent now tcp (new_outbound ip tcp nat) ∷ []))
unfolding outbound
outbound_miss now ip tcp nat h =
    let i = list_index ip.daddr in
    let miss =
      visit_miss (is_internal ip.saddr tcp.sport) (sent now tcp) (new_outbound ip tcp nat)
        (nat.nat_mapping_list i) h in
    (ap (λ x. x.0) miss, set_at_same i _ nat.nat_mapping_list ∙ ap (λ x. x.1) miss)

pub inbound_miss :
    (now : ℕ) (ip : IpHeader) (tcp : TcpHeader) (nat : NatTable)
    → has (is_external ip.daddr tcp.dport) (nat.nat_mapping_list (list_index ip.saddr)) ≡ false
    → (inbound now ip tcp nat).0.nat_mapping_list (list_index ip.saddr)
      ≡ nat.nat_mapping_list (list_index ip.saddr) ++ (received now tcp (new_inbound ip tcp) ∷ [])
unfolding inbound
inbound_miss now ip tcp nat h =
    let i = list_index ip.saddr in
    let miss =
      visit_miss (is_external ip.daddr tcp.dport) (received now tcp) (new_inbound ip tcp)
        (nat.nat_mapping_list i) h in
    set_at_same i _ nat.nat_mapping_list ∙ ap (λ x. x.1) miss

pub inbound_first :
    (now : ℕ) (ip : IpHeader) (tcp : TcpHeader) (nat : NatTable) (xs ys : List NatMapping)
    (e : NatMapping)
    → nat.nat_mapping_list (list_index ip.saddr) ≡ xs ++ (e ∷ ys)
    → has (is_external ip.daddr tcp.dport) xs ≡ false
    → is_external ip.daddr tcp.dport e ≡ true
    → (inbound now ip tcp nat).1 ≡ received now tcp e
unfolding inbound
inbound_first now ip tcp nat xs ys e l h t = rw l (
    visit-append (is_external ip.daddr tcp.dport) (received now tcp) (new_inbound ip tcp) e xs ys h
      t)

pub outbound_rest :
    (now : ℕ) (ip : IpHeader) (tcp : TcpHeader) (nat : NatTable)
    → ((outbound now ip tcp nat).0.external_iface ≡ nat.external_iface)
      × ((outbound now ip tcp nat).0.assigned_ports ≡ outbound_ports ip tcp nat)
unfolding outbound
outbound_rest now ip tcp nat = (refl, refl)

pub inbound_rest :
    (now : ℕ) (ip : IpHeader) (tcp : TcpHeader) (nat : NatTable)
    → ((inbound now ip tcp nat).0.external_iface ≡ nat.external_iface)
      × ((inbound now ip tcp nat).0.assigned_ports ≡ nat.assigned_ports)
unfolding inbound
inbound_rest now ip tcp nat = (refl, refl)

-- When the pool is full, a flow that begins gets the port behind it, and the pool stays full.
pub outbound_exhausted :
    (now : ℕ) (ip : IpHeader) (tcp : TcpHeader) (nat : NatTable)
    → IsFull nat.assigned_ports
    → has (is_internal ip.saddr tcp.sport) (nat.nat_mapping_list (list_index ip.daddr)) ≡ false
    → ((outbound now ip tcp nat).1.external_port ≡ nat_port_max)
      × IsFull (outbound now ip tcp nat).0.assigned_ports
outbound_exhausted now ip tcp nat full miss =
    let (_a, _b, _c, own_port) = sent-Same now tcp (new_outbound ip tcp nat) in
    (
      ap (λ (x : NatMapping). x.external_port) (outbound_miss now ip tcp nat miss).0
          ∙ own_port
          ∙ free_port-full nat.assigned_ports full,
      λ p a b.
          ap (λ f. f p) (outbound_rest now ip tcp nat).1
          ∙ outbound_ports-grow ip tcp nat p (full p a b),
    )

-- A flow that begins is appended, behind the entries of the list and another one.
pub outbound_second :
    (now : ℕ) (ip : IpHeader) (tcp : TcpHeader) (nat : NatTable) (i : ℕ) (xs : List NatMapping)
    (e : NatMapping)
    → list_index ip.daddr ≡ i
    → nat.nat_mapping_list i ≡ xs ++ (e ∷ [])
    → has (is_internal ip.saddr tcp.sport) (nat.nat_mapping_list (list_index ip.daddr)) ≡ false
    → (outbound now ip tcp nat).0.nat_mapping_list i
      ≡ xs ++ (e ∷ sent now tcp (new_outbound ip tcp nat) ∷ [])
outbound_second now ip tcp nat i xs e same l miss =
    let y = sent now tcp (new_outbound ip tcp nat) in
    ap (outbound now ip tcp nat).0.nat_mapping_list (sym same)
    ∙ (outbound_miss now ip tcp nat miss).1
    ∙ ap (λ k. nat.nat_mapping_list k ++ (y ∷ [])) same
    ∙ ap (λ zs. zs ++ (y ∷ [])) l
    ∙ append_assoc xs (e ∷ []) (y ∷ [])
