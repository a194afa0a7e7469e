-- ===== src/Switch/History.antt =====
-- Histories of handle_packet of main.c and of the sweeping thread of mac.c, and the map that learns.
use computer_network_labs.Base.{ℕ, Option, none, some, List, [], ◌∷◌}
use computer_network_labs.Device.{Mac, IfaceInfo}
use computer_network_labs.Switch.{
  MacPortMap, sweep_aged_mac_port_entry, forward, handle_packet, Frame, MacPortEntry, Sweeps,
}
use computer_network_labs.Switch.Table.{spec_learn, spec_sweep}

-- A frame that arrives on an interface, with the rounds of the sweeping thread while it is handled, or a
-- round between two frames.
pub data Event : Type 0 where
  arrives : Sweeps → ℕ → IfaceInfo → Frame → Event
  sweeps : ℕ → Event

-- Where each frame of a history is sent; the last is `none` when a freed entry is read.
unfoldable pub run : List IfaceInfo → List Event → MacPortMap → List (Option (List IfaceInfo))
run ifaces [] t = []
run ifaces (sweeps now ∷ es) t = run ifaces es (sweep_aged_mac_port_entry now t).1
run ifaces (arrives w now iface frame ∷ es) t = elim (handle_packet w now ifaces iface frame t) [
  | none ↦ none ∷ []
  | some r ↦ some r.0 ∷ run ifaces es r.1
]

-- The same on a map from addresses to entries.
abbrev pub Known : Type 0
Known = Mac → Option MacPortEntry

unfoldable pub spec_rounds : List ℕ → Known → Known
spec_rounds [] f = f
spec_rounds (now ∷ rounds) f = spec_rounds rounds (spec_sweep now f)

-- An address whose entry is forgotten between its lookup and the read of the interface is the fault.
unfoldable pub spec_read : Mac → List ℕ → Known → Option (Option IfaceInfo)
spec_read mac gap f = elim (f mac) [
  | none ↦ some none
  | some e ↦ elim (spec_rounds gap f mac) [ none ↦ none | some x ↦ some (some e.iface) ]
]

-- A frame goes to the interface of its destination, or else to all but its own; then its source is
-- learned if it is not known.
unfoldable pub spec_learned : List ℕ → ℕ → IfaceInfo → Frame → Option IfaceInfo → Known → Known
spec_learned inserting now iface frame (some tx) f = f
spec_learned inserting now iface frame none f =
    spec_learn frame.shost (record { mac = frame.shost; iface = iface; visited = now })
      (spec_rounds inserting f)

-- What follows the two lookups.
unfoldable pub spec_decide :
    Sweeps
    → ℕ
    → List IfaceInfo
    → IfaceInfo
    → Frame
    → Option (Option IfaceInfo)
    → Option (Option IfaceInfo)
    → Known
    → Option (List IfaceInfo × Known)
spec_decide w now ifaces iface frame none known f = none
spec_decide w now ifaces iface frame (some port) none f = none
spec_decide w now ifaces iface frame (some port) (some old) f =
    some (forward iface ifaces port, spec_learned w.inserting now iface frame old f)

unfoldable pub spec_handle :
    Sweeps → ℕ → List IfaceInfo → IfaceInfo → Frame → Known → Option (List IfaceInfo × Known)
spec_handle w now ifaces iface frame f =
    let g = spec_rounds w.between (spec_rounds w.reading_dst f) in
    spec_decide w now ifaces iface frame (spec_read frame.dhost w.reading_dst f)
      (spec_read frame.shost w.reading_src g) (spec_rounds w.reading_src g)

unfoldable pub spec_run : List IfaceInfo → List Event → Known → List (Option (List IfaceInfo))
spec_run ifaces [] f = []
spec_run ifaces (sweeps now ∷ es) f = spec_run ifaces es (spec_sweep now f)
spec_run ifaces (arrives w now iface frame ∷ es) f = elim (spec_handle w now ifaces iface frame f) [
  | none ↦ none ∷ []
  | some r ↦ some r.0 ∷ spec_run ifaces es r.1
]
