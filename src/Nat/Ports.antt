-- ===== src/Nat/Ports.antt =====
-- The mappings and the port pool of nat.c: a port belongs to one flow.
use computer_network_labs.Router.Packet.{IpHeader}
use computer_network_labs.Base.{
  ◌==◌, Bool-cases, ℕ, zero, suc, ◌+◌, ◌<◌, ◌≡◌, refl, sym, ap, ◌∙◌, ◌⊎◌, inl, inr, Bool, true,
  false, arith,
}
use computer_network_labs.Nat.Packet.{TcpHeader}
use computer_network_labs.Nat.Table.{
  nat_port_min, nat_port_max, set_at, list_index, NatMapping, NatTable,
}
use computer_network_labs.Nat.Translate.{
  is_external, is_internal, has, visit, port_loop, pool_size, free_port, take_port, received, sent,
  new_inbound, new_outbound, outbound_ports, inbound, outbound,
}
use computer_network_labs.Nat.Entries.{At, Distinct, Same, Fresh-from, visit-At, visit-Distinct}

-- Every entry has the address of the external interface and an assigned port, and no two entries have
-- the same port.
pub record IsSound (nat : NatTable) : Type 0 where
  pub address :
      (i : ℕ) (e : NatMapping)
      → At e (nat.nat_mapping_list i)
      → e.external_ip ≡ nat.external_iface.ip
  pub taken :
      (i : ℕ) (e : NatMapping)
      → At e (nat.nat_mapping_list i)
      → nat.assigned_ports e.external_port ≡ true
  pub distinct : (i : ℕ) → Distinct (nat.nat_mapping_list i)
  pub apart :
      (i j : ℕ) (e f : NatMapping)
      → At e (nat.nat_mapping_list i)
      → At f (nat.nat_mapping_list j)
      → e.external_port ≡ f.external_port
      → i ≡ j

port_loop_cases :
    (n i : ℕ) (ports : ℕ → Bool) → port_loop n i ports < i + n → ports (port_loop n i ports) ≡ false
unfolding port_loop
port_loop_cases zero i ports h = absurd (omega arith)
port_loop_cases (suc n) i ports h = elim (Bool-cases (ports i)) [
  | inl t ↦
      let h' : port_loop n (suc i) ports < i + suc n = rw t at h in
      rw t (port_loop_cases n (suc i) ports (omega arith))
  | inr t ↦ rw t t
]

free_port-false :
    (ports : ℕ → Bool) → free_port ports < nat_port_max → ports (free_port ports) ≡ false
unfolding free_port
free_port-false ports h = port_loop_cases pool_size nat_port_min ports h

-- What the two changes leave as it is.
pub sent-Same : (now : ℕ) (tcp : TcpHeader) (e : NatMapping) → Same (sent now tcp e) e
unfolding sent
sent-Same now tcp e = (refl, refl, refl, refl)

pub received-Same : (now : ℕ) (tcp : TcpHeader) (e : NatMapping) → Same (received now tcp e) e
unfolding received
received-Same now tcp e = (refl, refl, refl, refl)

-- A packet from inside finds its flow, or a port is free.
abbrev pub HasRoom : IpHeader → TcpHeader → NatTable → Type 0
HasRoom ip tcp nat =
    (has (is_internal ip.saddr tcp.sport) (nat.nat_mapping_list (list_index ip.daddr)) ≡ true)
    ⊎ (free_port nat.assigned_ports < nat_port_max)

-- A packet from outside finds its flow.
abbrev pub HasFlow : IpHeader → TcpHeader → NatTable → Type 0
HasFlow ip tcp nat =
    has (is_external ip.daddr tcp.dport) (nat.nat_mapping_list (list_index ip.saddr)) ≡ true

clash : (ports : ℕ → Bool) (p q : ℕ) → ports p ≡ true → ports q ≡ false → p ≡ q → ⊥
clash ports p q t f e = let b : ports p ≡ false = ap ports e ∙ f in ground (arith, t, b)

module _ (nat : NatTable) (test : NatMapping → Bool) (change : NatMapping → NatMapping)
    (new : NatMapping) (i : ℕ) (ports : ℕ → Bool) where
  -- The table after a visit of the list `i`, with a new pool.
  abbrev visited : NatTable
  visited = record nat {
    nat_mapping_list =
        set_at i (visit test change new (nat.nat_mapping_list i)).1 nat.nat_mapping_list;
    assigned_ports = ports;
  }

  -- The entry has the address, and its port has just been taken.
  abbrev IsNew : NatMapping → Type 0
  IsNew f =
      (f.external_ip ≡ nat.external_iface.ip)
      × (nat.assigned_ports f.external_port ≡ false)
      × (ports f.external_port ≡ true)

  IsNew-Same : (e f : NatMapping) → Same f e → IsNew e → IsNew f
  IsNew-Same e f (_a, _b, c, d) (x, y, z) = (c ∙ x, ap nat.assigned_ports d ∙ y, ap ports d ∙ z)

  module _ (keeps : (e : NatMapping) → Same (change e) e)
      (grow : (p : ℕ) → nat.assigned_ports p ≡ true → ports p ≡ true)
      (added : (has test (nat.nat_mapping_list i) ≡ true) ⊎ IsNew new) where
    visited-origin :
        (j : ℕ) (f : NatMapping)
        → At f (visited.nat_mapping_list j)
        → ((e : NatMapping) × At e (nat.nat_mapping_list j) × Same f e) ⊎ ((j ≡ i) × IsNew f)
    unfolding set_at
    visited-origin j f a = elim (Bool-cases (j == i)) [
      | inr n ↦ inl (f, (rw n at a), (refl, refl, refl, refl))
      | inl y ↦
          let here : j ≡ i = ground (arith, y) in
          elim (visit-At test change new keeps f (nat.nat_mapping_list i) (rw y at a)) [
            | inl (e, b, same) ↦ inl (e, rw here b, same)
            | inr (none_found, same) ↦ elim added [
              | inl found ↦ absurd (ground (arith, found, none_found))
              | inr fresh ↦ inr (here, IsNew-Same new f same fresh)
            ]
          ]
    ]

    visited-Distinct : (s : IsSound nat) (j : ℕ) → Distinct (visited.nat_mapping_list j)
    unfolding set_at
    visited-Distinct s j = elim (Bool-cases (j == i)) [
      | inr n ↦ rw n (s.distinct j)
      | inl y ↦ rw y (
          visit-Distinct test change new keeps (nat.nat_mapping_list i) (s.distinct i) (elim added [
            | inl found ↦ inl found
            | inr fresh ↦ inr (
                Fresh-from new.external_port (nat.nat_mapping_list i) (λ e a same.
                  clash nat.assigned_ports e.external_port new.external_port (s.taken i e a) fresh.1
                    same))
          ]))
    ]

    visited-IsSound : IsSound nat → IsSound visited
    visited-IsSound s = record {
      address = λ j f a. elim (visited-origin j f a) [
        | inl (e, b, same) ↦ same.2 ∙ s.address j e b
        | inr (_h, fresh) ↦ fresh.0
      ];
      taken = λ j f a. elim (visited-origin j f a) [
        | inl (e, b, same) ↦ ap ports same.3 ∙ grow e.external_port (s.taken j e b)
        | inr (_h, fresh) ↦ fresh.2
      ];
      distinct = visited-Distinct s;
      apart = λ j k e f a b same. elim (visited-origin j e a) [
        | inl (e', a', same') ↦ elim (visited-origin k f b) [
          | inl (f', b', same'') ↦ s.apart j k e' f' a' b' (sym same'.3 ∙ same ∙ same''.3)
          | inr (_h, fresh) ↦ absurd (
              clash nat.assigned_ports e'.external_port f.external_port (s.taken j e' a') fresh.1
                (sym same'.3 ∙ same))
        ]
        | inr (h, fresh) ↦ elim (visited-origin k f b) [
          | inl (f', b', same'') ↦ absurd (
              clash nat.assigned_ports f'.external_port e.external_port (s.taken k f' b') fresh.1
                (sym same''.3 ∙ sym same))
          | inr (h', _fresh) ↦ h ∙ sym h'
        ]
      ];
    }

pub outbound_ports-grow :
    (ip : IpHeader) (tcp : TcpHeader) (nat : NatTable) (p : ℕ)
    → nat.assigned_ports p ≡ true
    → outbound_ports ip tcp nat p ≡ true
unfolding outbound_ports take_port set_at
outbound_ports-grow ip tcp nat p h = ground (arith, h)

outbound_ports-new :
    (ip : IpHeader) (tcp : TcpHeader) (nat : NatTable)
    → has (is_internal ip.saddr tcp.sport) (nat.nat_mapping_list (list_index ip.daddr)) ≡ false
    → free_port nat.assigned_ports < nat_port_max
    → outbound_ports ip tcp nat (free_port nat.assigned_ports) ≡ true
unfolding outbound_ports take_port set_at
outbound_ports-new ip tcp nat n h = ground (arith, n)

-- A packet from inside, whose flow is known or for which a port is free, keeps the table sound:
-- each entry has the external address and an assigned port, and no two entries have the same port,
-- in one list or in two.
pub outbound-IsSound :
    (now : ℕ) (ip : IpHeader) (tcp : TcpHeader) (nat : NatTable)
    → IsSound nat
    → HasRoom ip tcp nat
    → IsSound (outbound now ip tcp nat).0
unfolding outbound
outbound-IsSound now ip tcp nat s room =
    let test = is_internal ip.saddr tcp.sport in
    let i = list_index ip.daddr in
    visited-IsSound nat test (sent now tcp) (new_outbound ip tcp nat) i (outbound_ports ip tcp nat)
      (sent-Same now tcp) (outbound_ports-grow ip tcp nat)
      (elim (Bool-cases (has test (nat.nat_mapping_list i))) [
        | inl found ↦ inl found
        | inr none_found ↦ elim room [
          | inl found ↦ inl found
          | inr l ↦ inr (
            refl,
            free_port-false nat.assigned_ports l,
            outbound_ports-new ip tcp nat none_found l,
          )
        ]
      ])
      s

-- A packet from outside of a known flow keeps the table sound.
pub inbound-IsSound :
    (now : ℕ) (ip : IpHeader) (tcp : TcpHeader) (nat : NatTable)
    → IsSound nat
    → HasFlow ip tcp nat
    → IsSound (inbound now ip tcp nat).0
unfolding inbound
inbound-IsSound now ip tcp nat s found =
    visited-IsSound nat (is_external ip.daddr tcp.dport) (received now tcp) (new_inbound ip tcp)
      (list_index ip.saddr) nat.assigned_ports (received-Same now tcp) (λ p h. h) (inl found) s
