-- ===== src/Switch.antt =====
-- The learning switch of Lab5-2023Spring-karenntayy-main/01-switching: mac.c, main.c and broadcast.c.
--
-- The list heads of the hash table are the list of its chains. `now` is what `time(NULL)` returns; an
-- allocation does not fail. The sweeping thread runs when the lock of the table is free: before, between
-- and after the critical sections of `handle_packet`, with the times of its rounds as an argument.
pub mod Table
pub mod Valid
pub mod History
pub mod Learning
use computer_network_labs.Device.{Mac, same_mac, IfaceInfo}
use computer_network_labs.Base.{
  ltb, ◌==◌, if◌then◌else◌, replicate, sub64, to_int, is_negative, ℕ, zero, suc, ◌+◌, ◌%◌, Bool,
  not, ◌&&◌, Option, none, some, List, [], ◌∷◌, ◌++◌,
}

-- `struct ether_header` and what follows it.
pub record Frame : Type 0 where
  pub dhost : Mac
  pub shost : Mac
  pub ether_type : ℕ
  pub payload : List ℕ

pub record MacPortEntry : Type 0 where
  pub mac : Mac
  pub iface : IfaceInfo
  pub visited : ℕ

abbrev pub MacPortMap : Type 0
MacPortMap = List (List MacPortEntry)

abbrev pub hash_8bits : ℕ
hash_8bits = 256

abbrev pub mac_port_timeout : ℕ
mac_port_timeout = 30

unfoldable pub init_mac_port_table : MacPortMap
init_mac_port_table = replicate hash_8bits []

-- All chains are emptied.
unfoldable pub destory_mac_port_table : MacPortMap → MacPortMap
destory_mac_port_table [] = []
destory_mac_port_table (chain ∷ chains) = [] ∷ destory_mac_port_table chains

-- The inner loop of `lookup_port`: the entry whose interface it returns.
unfoldable pub find : Mac → List MacPortEntry → Option MacPortEntry
find mac [] = none
find mac (e ∷ chain) = if same_mac e.mac mac then some e else find mac chain

-- The outer loop, over all chains.
unfoldable pub find_entry : Mac → MacPortMap → Option MacPortEntry
find_entry mac [] = none
find_entry mac (chain ∷ chains) = elim (find mac chain) [
  | some e ↦ some e
  | none ↦ find_entry mac chains
]

-- The loop of `calculate_hash`.
unfoldable pub sum_bytes : Mac → ℕ
sum_bytes [] = 0
sum_bytes (b ∷ bytes) = b + sum_bytes bytes

unfoldable pub calculate_hash : Mac → ℕ
calculate_hash mac = sum_bytes mac % hash_8bits

-- `list_add_tail(&entry->list, &hash_table[hash])`
unfoldable pub add_tail : ℕ → MacPortEntry → MacPortMap → MacPortMap
add_tail i e [] = []
add_tail zero e (chain ∷ chains) = (chain ++ (e ∷ [])) ∷ chains
add_tail (suc i) e (chain ∷ chains) = chain ∷ add_tail i e chains

unfoldable pub insert_mac_port : ℕ → Mac → IfaceInfo → MacPortMap → MacPortMap
insert_mac_port now mac iface t =
    add_tail (calculate_hash mac) (record { mac = mac; iface = iface; visited = now }) t

-- `(int)(now - entry->visited) > MAC_PORT_TIMEOUT`
unfoldable pub is_aged : ℕ → MacPortEntry → Bool
is_aged now e =
    let age = to_int (sub64 now e.visited) in not (is_negative age) && ltb mac_port_timeout age

-- The inner loop of `sweep_aged_mac_port_entry`: how many are removed, and the chain that is left.
unfoldable pub sweep_chain : ℕ → List MacPortEntry → ℕ × List MacPortEntry
sweep_chain now [] = (0, [])
sweep_chain now (e ∷ chain) =
    let (num, kept) = sweep_chain now chain in
    if is_aged now e then (num + 1, kept) else (num, e ∷ kept)

unfoldable pub sweep_aged_mac_port_entry : ℕ → MacPortMap → ℕ × MacPortMap
sweep_aged_mac_port_entry now [] = (0, [])
sweep_aged_mac_port_entry now (chain ∷ chains) =
    let (num, kept) = sweep_chain now chain in
    let (rest, swept) = sweep_aged_mac_port_entry now chains in (num + rest, kept ∷ swept)

-- Rounds of the sweeping thread, with their times.
unfoldable pub sweep_rounds : List ℕ → MacPortMap → MacPortMap
sweep_rounds [] t = t
sweep_rounds (now ∷ rounds) t = sweep_rounds rounds (sweep_aged_mac_port_entry now t).1

-- The entry that was found in `t`, read when the table is `t'`: `none` if it has been freed since. As only
-- `handle_packet` inserts, its address has then no entry.
unfoldable pub read_iface : Mac → Option MacPortEntry → MacPortMap → Option (Option IfaceInfo)
read_iface mac none t' = some none
read_iface mac (some e) t' = elim (find_entry mac t') [ none ↦ none | some x ↦ some (some e.iface) ]

-- `lookup_port` returns entry->iface after it has unlocked the table: `gap` are the rounds of the thread
-- in between.
unfoldable pub lookup_port : List ℕ → Mac → MacPortMap → Option (Option IfaceInfo) × MacPortMap
lookup_port gap mac t = let t' = sweep_rounds gap t in (read_iface mac (find_entry mac t) t', t')

-- The interfaces that `broadcast_packet` sends on, in the order of the list.
unfoldable pub broadcast_packet : IfaceInfo → List IfaceInfo → List IfaceInfo
broadcast_packet iface [] = []
broadcast_packet iface (tx ∷ ifaces) =
    if tx.index == iface.index
    then broadcast_packet iface ifaces
    else tx ∷ broadcast_packet iface ifaces

-- Where the frame goes.
unfoldable pub forward : IfaceInfo → List IfaceInfo → Option IfaceInfo → List IfaceInfo
forward iface ifaces (some tx) = tx ∷ []
forward iface ifaces none = broadcast_packet iface ifaces

-- The rounds of the sweeping thread while a frame is handled: before each read of an interface that was
-- found, between the two lookups, and before the insertion.
pub record Sweeps : Type 0 where
  pub reading_dst : List ℕ
  pub between : List ℕ
  pub reading_src : List ℕ
  pub inserting : List ℕ

-- `if (!lookup_port(eh->ether_shost)) insert_mac_port(eh->ether_shost, iface);`
unfoldable pub learn : List ℕ → ℕ → IfaceInfo → Frame → Option IfaceInfo → MacPortMap → MacPortMap
learn inserting now iface frame (some tx) t = t
learn inserting now iface frame none t =
    insert_mac_port now frame.shost iface (sweep_rounds inserting t)

-- `none` when a freed entry is read.
unfoldable pub handle_packet :
    Sweeps
    → ℕ
    → List IfaceInfo
    → IfaceInfo
    → Frame
    → MacPortMap
    → Option (List IfaceInfo × MacPortMap)
handle_packet w now ifaces iface frame t =
    let (port, t') = lookup_port w.reading_dst frame.dhost t in
    let (known, t'') = lookup_port w.reading_src frame.shost (sweep_rounds w.between t') in
    elim port [
      | none ↦ none
      | some tx ↦ elim known [
        | none ↦ none
        | some old ↦ some (forward iface ifaces tx, learn w.inserting now iface frame old t'')
      ]
    ]
