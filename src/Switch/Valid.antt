-- ===== src/Switch/Valid.antt =====
-- The operations of mac.c keep the table valid, and what a sweep does to the map.
use computer_network_labs.Base.{
  if◌then◌else◌, Option-cases, length, replicate, length-replicate, ℕ, zero, suc, ◌<◌, ◌≡◌, refl,
  ◌∙◌, Option, none, some, List, [], arith,
}
use computer_network_labs.Device.{Mac, same_mac, same_mac→eq}
use computer_network_labs.Switch.{
  MacPortMap, hash_8bits, init_mac_port_table, find, find_entry, calculate_hash, add_tail,
  sweep_aged_mac_port_entry, MacPortEntry,
}
use computer_network_labs.Switch.Table.{
  count, count_entries, hit, or_else, spec_sweep, count_entries-add_tail, count_entries-eq-zero,
  keep, find_entry-sweep, count_entries-sweep, length-add_tail, length-sweep, IsValid,
}

pub hash_in_range : (mac : Mac) (t : MacPortMap) → IsValid t → calculate_hash mac < length t
unfolding calculate_hash
hash_in_range mac t v = omega (arith, v.chains)

pub or_else_lem :
    (o : Option MacPortEntry) (q : Mac) (e : MacPortEntry)
    → or_else o (hit q e)
      ≡ (elim o [ some old ↦ some old | none ↦ if same_mac e.mac q then some e else none ])
unfolding or_else hit
or_else_lem none q e = refl
or_else_lem (some x) q e = refl

pub insert-IsValid :
    (e : MacPortEntry) (t : MacPortMap)
    → IsValid t
    → find_entry e.mac t ≡ none
    → IsValid (add_tail (calculate_hash e.mac) e t)
unfolding calculate_hash
insert-IsValid e t v n = record {
  chains = length-add_tail (calculate_hash e.mac) e t ∙ v.chains;
  single = λ q. ground (
    arith,
    v.chains,
    v.single q,
    count_entries-add_tail q (calculate_hash e.mac) e t,
    same_mac→eq e.mac q,
    count_entries-eq-zero e.mac t n,
  );
}

pub sweep-IsValid :
    (now : ℕ) (t : MacPortMap) → IsValid t → IsValid (sweep_aged_mac_port_entry now t).1
sweep-IsValid now t v = record {
  chains = length-sweep now t ∙ v.chains;
  single = λ q. omega (arith, v.single q, count_entries-sweep now q t);
}

count_entries-replicate : (q : Mac) (n : ℕ) → count_entries q (replicate n []) ≡ 0
unfolding count_entries count
count_entries-replicate q zero = refl
count_entries-replicate q (suc n) = omega (arith, count_entries-replicate q n)

pub find_entry-replicate : (q : Mac) (n : ℕ) → find_entry q (replicate n []) ≡ none
unfolding find_entry find
find_entry-replicate q zero = refl
find_entry-replicate q (suc n) = find_entry-replicate q n

pub init-IsValid : IsValid init_mac_port_table
unfolding init_mac_port_table
init-IsValid = record {
  chains = length-replicate {A = List MacPortEntry} hash_8bits [];
  single = λ q. omega (arith, count_entries-replicate q hash_8bits);
}

pub spec_sweep_lem :
    (now : ℕ) (t : MacPortMap) (f : Mac → Option MacPortEntry) (q : Mac)
    → IsValid t
    → find_entry q t ≡ f q
    → find_entry q (sweep_aged_mac_port_entry now t).1 ≡ spec_sweep now f q
unfolding spec_sweep keep
spec_sweep_lem now t f q v e =
    ground (arith, e, find_entry-sweep now q t (v.single q), Option-cases (f q))
