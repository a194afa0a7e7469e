-- ===== src/Nat/Expiry.antt =====
-- nat_timeout of nat.c: which mappings a round removes, and the ports that it gives back.
use computer_network_labs.Base.{if◌then◌else◌, ℕ, ◌≡◌, Bool, false, ◌&&◌, List, [], ◌∷◌}
use computer_network_labs.Nat.Table.{NatMapping, NatTable}
use computer_network_labs.Nat.Sweep.{is_dead}

-- The mappings that are neither finished nor too old, in their order.
abbrev pub kept : ℕ → List NatMapping → List NatMapping
kept now [] = []
kept now (e ∷ entries) = if is_dead now e then kept now entries else e ∷ kept now entries

-- The port of each mapping that is finished or too old is free.
abbrev pub AllFreed : ℕ → (ℕ → Bool) → List NatMapping → Type 0
AllFreed now ports [] = Unit {0}
AllFreed now ports (e ∷ entries) =
    ((is_dead now e && ports e.external_port) ≡ false) × AllFreed now ports entries

-- The list `j` after a round is what is kept of it, and the ports of the others are free.
abbrev Expired : ℕ → ℕ → NatTable → NatTable → Type 0
Expired now j nat q =
    (q.nat_mapping_list j ≡ kept now (nat.nat_mapping_list j))
    × AllFreed now q.assigned_ports (nat.nat_mapping_list j)
