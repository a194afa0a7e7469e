-- ===== src/Switch/Table.antt =====
-- The table of the switch against a map from addresses to entries.
use computer_network_labs.Device.{Mac, same_mac, same_mac→eq}
use computer_network_labs.Switch.{
  MacPortMap, hash_8bits, find, find_entry, add_tail, is_aged, sweep_chain,
  sweep_aged_mac_port_entry, MacPortEntry,
}
use computer_network_labs.Base.{
  if◌then◌else◌, Option-cases, length, ℕ, zero, suc, ◌+◌, ◌≤◌, ◌<◌, ◌≡◌, refl, ap, Option, none,
  some, List, [], ◌∷◌, ◌++◌, arith,
}

-- How many entries the address has.
unfoldable pub count : Mac → List MacPortEntry → ℕ
count q [] = 0
count q (e ∷ chain) = (if same_mac e.mac q then 1 else 0) + count q chain

unfoldable pub count_entries : Mac → MacPortMap → ℕ
count_entries q [] = 0
count_entries q (chain ∷ chains) = count q chain + count_entries q chains

-- All chains are there, and no address has two entries.
pub record IsValid (t : MacPortMap) : Type 0 where
  pub chains : length t ≡ hash_8bits
  pub single : (q : Mac) → count_entries q t ≤ 1

unfoldable pub hit : Mac → MacPortEntry → Option MacPortEntry
hit q e = if same_mac e.mac q then some e else none

unfoldable pub or_else : Option MacPortEntry → Option MacPortEntry → Option MacPortEntry
or_else (some e) o = some e
or_else none o = o

-- What a frame and a sweep do to the map.
unfoldable pub spec_learn :
    Mac → MacPortEntry → (Mac → Option MacPortEntry) → Mac → Option MacPortEntry
spec_learn mac e f q = elim (f q) [
  | some old ↦ some old
  | none ↦ if same_mac mac q then some e else none
]

unfoldable pub spec_sweep : ℕ → (Mac → Option MacPortEntry) → Mac → Option MacPortEntry
spec_sweep now f q = elim (f q) [ some e ↦ if is_aged now e then none else some e | none ↦ none ]

find-append :
    (q : Mac) (e : MacPortEntry) (chain : List MacPortEntry)
    → find q (chain ++ (e ∷ [])) ≡ or_else (find q chain) (hit q e)
unfolding find or_else hit
find-append q e [] = refl
find-append q e (x ∷ chain) = ground (arith, find-append q e chain)

pub find_entry-add_tail :
    (q : Mac) (i : ℕ) (e : MacPortEntry) (t : MacPortMap)
    → i < length t
    → find_entry e.mac t ≡ none
    → find_entry q (add_tail i e t) ≡ or_else (find_entry q t) (hit q e)
unfolding find_entry add_tail or_else hit
find_entry-add_tail q i e [] h n = absurd (omega arith)
find_entry-add_tail q zero e (chain ∷ chains) h n = ground (
  arith,
  find-append q e chain,
  same_mac→eq e.mac q,
  Option-cases (find q chain),
  Option-cases (find_entry q chains),
)
find_entry-add_tail q (suc i) e (chain ∷ chains) h n = ground (
  arith,
  find_entry-add_tail q i e chains,
  Option-cases (find q chain),
  Option-cases (find e.mac chain),
)

count-append :
    (q : Mac) (e : MacPortEntry) (chain : List MacPortEntry)
    → count q (chain ++ (e ∷ [])) ≡ count q chain + (if same_mac e.mac q then 1 else 0)
unfolding count
count-append q e [] = omega arith
count-append q e (x ∷ chain) = omega (arith, count-append q e chain)

pub count_entries-add_tail :
    (q : Mac) (i : ℕ) (e : MacPortEntry) (t : MacPortMap)
    → i < length t
    → count_entries q (add_tail i e t) ≡ count_entries q t + (if same_mac e.mac q then 1 else 0)
unfolding count_entries add_tail
count_entries-add_tail q i e [] h = absurd (omega arith)
count_entries-add_tail q zero e (chain ∷ chains) h = omega (arith, count-append q e chain)
count_entries-add_tail q (suc i) e (chain ∷ chains) h =
    omega (arith, count_entries-add_tail q i e chains)

count-eq-zero : (q : Mac) (chain : List MacPortEntry) → find q chain ≡ none → count q chain ≡ 0
unfolding find count
count-eq-zero q [] h = refl
count-eq-zero q (e ∷ chain) h = ground (arith, count-eq-zero q chain)

find-eq-none : (q : Mac) (chain : List MacPortEntry) → count q chain ≡ 0 → find q chain ≡ none
unfolding find count
find-eq-none q [] h = refl
find-eq-none q (e ∷ chain) h = ground (arith, find-eq-none q chain)

pub count_entries-eq-zero :
    (q : Mac) (t : MacPortMap) → find_entry q t ≡ none → count_entries q t ≡ 0
unfolding find_entry count_entries
count_entries-eq-zero q [] h = refl
count_entries-eq-zero q (chain ∷ chains) h =
    ground (arith, count-eq-zero q chain, count_entries-eq-zero q chains)

find_entry-eq-none : (q : Mac) (t : MacPortMap) → count_entries q t ≡ 0 → find_entry q t ≡ none
unfolding find_entry count_entries
find_entry-eq-none q [] h = refl
find_entry-eq-none q (chain ∷ chains) h =
    ground (arith, find-eq-none q chain, find_entry-eq-none q chains)

unfoldable pub keep : ℕ → Option MacPortEntry → Option MacPortEntry
keep now none = none
keep now (some e) = if is_aged now e then none else some e

find-sweep_chain :
    (now : ℕ) (q : Mac) (chain : List MacPortEntry)
    → count q chain ≤ 1
    → find q (sweep_chain now chain).1 ≡ keep now (find q chain)
unfolding find sweep_chain count keep
find-sweep_chain now q [] h = refl
find-sweep_chain now q (e ∷ chain) h =
    ground (arith, find-sweep_chain now q chain, find-eq-none q chain)

count-sweep_chain :
    (now : ℕ) (q : Mac) (chain : List MacPortEntry)
    → count q (sweep_chain now chain).1 ≤ count q chain
unfolding sweep_chain count
count-sweep_chain now q [] = omega arith
count-sweep_chain now q (e ∷ chain) = ground (arith, count-sweep_chain now q chain)

pub find_entry-sweep :
    (now : ℕ) (q : Mac) (t : MacPortMap)
    → count_entries q t ≤ 1
    → find_entry q (sweep_aged_mac_port_entry now t).1 ≡ keep now (find_entry q t)
unfolding find_entry sweep_aged_mac_port_entry count_entries keep
find_entry-sweep now q [] h = refl
find_entry-sweep now q (chain ∷ chains) h = ground (
  arith,
  find-sweep_chain now q chain,
  find_entry-sweep now q chains,
  Option-cases (find q chain),
  find_entry-eq-none q chains,
  find-eq-none q chain,
)

pub count_entries-sweep :
    (now : ℕ) (q : Mac) (t : MacPortMap)
    → count_entries q (sweep_aged_mac_port_entry now t).1 ≤ count_entries q t
unfolding count_entries sweep_aged_mac_port_entry
count_entries-sweep now q [] = omega arith
count_entries-sweep now q (chain ∷ chains) =
    omega (arith, count-sweep_chain now q chain, count_entries-sweep now q chains)

pub length-add_tail :
    (i : ℕ) (e : MacPortEntry) (t : MacPortMap) → length (add_tail i e t) ≡ length t
unfolding add_tail
length-add_tail i e [] = refl
length-add_tail zero e (chain ∷ chains) = refl
length-add_tail (suc i) e (chain ∷ chains) = ap suc (length-add_tail i e chains)

pub length-sweep :
    (now : ℕ) (t : MacPortMap) → length (sweep_aged_mac_port_entry now t).1 ≡ length t
unfolding sweep_aged_mac_port_entry
length-sweep now [] = refl
length-sweep now (chain ∷ chains) = ap suc (length-sweep now chains)
