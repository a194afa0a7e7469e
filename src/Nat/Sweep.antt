-- ===== src/Nat/Sweep.antt =====
-- is_flow_finished and a round of nat_timeout of nat.c.
use computer_network_labs.Base.{
  ltb, leb, if◌then◌else◌, ℕ, zero, suc, ◌+◌, Bool, false, ◌&&◌, ◌||◌, List, [], ◌∷◌,
}
use computer_network_labs.Nat.Table.{hash_8bits, set_at, NatConnection, NatMapping, NatTable}

abbrev pub tcp_established_timeout : ℕ
tcp_established_timeout = 60

unfoldable pub is_flow_finished : NatConnection → Bool
is_flow_finished conn =
    (conn.internal_fin && conn.external_fin)
    && (leb conn.external_seq_end conn.internal_ack && leb conn.internal_seq_end conn.external_ack)

unfoldable pub is_dead : ℕ → NatMapping → Bool
is_dead now e = is_flow_finished e.conn || ltb (e.update_time + tcp_established_timeout) now

-- The inner loop: the entries that are kept, and the pool.
unfoldable pub sweep_list : ℕ → List NatMapping → (ℕ → Bool) → List NatMapping × (ℕ → Bool)
sweep_list now [] ports = ([], ports)
sweep_list now (e ∷ entries) ports =
    let (rest, ports') =
      sweep_list now entries
        (if is_dead now e then set_at e.external_port false ports else ports) in
    (if is_dead now e then rest else e ∷ rest, ports')

-- The outer loop, from the list `i` on.
unfoldable pub sweep_lists : ℕ → ℕ → ℕ → NatTable → NatTable
sweep_lists now zero i nat = nat
sweep_lists now (suc n) i nat =
    let (entries, ports) = sweep_list now (nat.nat_mapping_list i) nat.assigned_ports in
    sweep_lists now n (suc i) (record nat {
      nat_mapping_list = set_at i entries nat.nat_mapping_list;
      assigned_ports = ports;
    })

unfoldable pub nat_timeout : ℕ → NatTable → NatTable
nat_timeout now nat = sweep_lists now hash_8bits 0 nat
