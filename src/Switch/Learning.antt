-- ===== src/Switch/Learning.antt =====
-- handle_packet and the sweeping thread of the switch, in any order, against a map that learns.
use computer_network_labs.Base.{ℕ, ◌≡◌, Option, none, some, List}
use computer_network_labs.Device.{Mac, IfaceInfo}
use computer_network_labs.Switch.{MacPortMap, find_entry, forward, learn, Frame, Sweeps}
use computer_network_labs.Switch.Table.{IsValid}
use computer_network_labs.Switch.History.{Known}

-- The table is valid and stands for the map.
abbrev pub Agrees : MacPortMap → Known → Type 0
Agrees t f = IsValid t × ((q : Mac) → find_entry q t ≡ f q)

-- Both fail, or both send to the same interfaces and agree again.
abbrev Same : Option (List IfaceInfo × MacPortMap) → Option (List IfaceInfo × Known) → Type 0
Same none none = Unit {0}
Same none (some s) = ⊥
Same (some r) none = ⊥
Same (some r) (some s) = (r.0 ≡ s.0) × Agrees r.1 s.1

-- What `handle_packet` does with the two lookups.
abbrev decide :
    Sweeps
    → ℕ
    → List IfaceInfo
    → IfaceInfo
    → Frame
    → Option (Option IfaceInfo)
    → Option (Option IfaceInfo) × MacPortMap
    → Option (List IfaceInfo × MacPortMap)
decide w now ifaces iface frame port (known, t) = elim port [
  | none ↦ none
  | some tx ↦ elim known [
    | none ↦ none
    | some old ↦ some (forward iface ifaces tx, learn w.inserting now iface frame old t)
  ]
]
