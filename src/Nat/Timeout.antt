-- ===== src/Nat/Timeout.antt =====
-- nat_init and nat_timeout of nat.c: the ports of the flows that are left stay assigned.
use computer_network_labs.Base.{
  ◌==◌, Bool-cases, ℕ, zero, suc, ◌≡◌, refl, sym, ap, ◌∙◌, subst, ◌≢◌, inl, inr, Bool, true, false,
  List, [], ◌∷◌, arith,
}
use computer_network_labs.Device.{IfaceInfo}
use computer_network_labs.Nat.Table.{
  set_at, add_rule, add_rules, nat_init, NatMapping, DnatRule, NatTable,
}
use computer_network_labs.Nat.Sweep.{is_dead, sweep_list, sweep_lists}
use computer_network_labs.Nat.Entries.{At, Fresh, Distinct, Fresh-from, Fresh-At}
use computer_network_labs.Nat.Ports.{IsSound}

set_at_other : (p q : ℕ) (b : Bool) (ports : ℕ → Bool) → p ≢ q → set_at p b ports q ≡ ports q
unfolding set_at
set_at_other p q b ports h = ground arith

sweep_list-Fresh :
    (now p : ℕ) (xs : List NatMapping) (ports : ℕ → Bool)
    → Fresh p xs
    → (sweep_list now xs ports).1 p ≡ ports p
unfolding sweep_list
sweep_list-Fresh now p [] ports f = refl
sweep_list-Fresh now p (x ∷ xs) ports f = elim (Bool-cases (is_dead now x)) [
  | inl d ↦ rw d (
      sweep_list-Fresh now p xs (set_at x.external_port false ports) f.1
      ∙ set_at_other x.external_port p false ports f.0)
  | inr d ↦ rw d (sweep_list-Fresh now p xs ports f.1)
]

At-sweep_list :
    (now : ℕ) (f : NatMapping) (xs : List NatMapping) (ports : ℕ → Bool)
    → At f (sweep_list now xs ports).0
    → At f xs
unfolding sweep_list
At-sweep_list now f [] ports a = a
At-sweep_list now f (x ∷ xs) ports a = elim (Bool-cases (is_dead now x)) [
  | inl d ↦ inr (At-sweep_list now f xs (set_at x.external_port false ports) (rw d at a))
  | inr d ↦ elim (rw d at a) [ inl h ↦ inl h | inr b ↦ inr (At-sweep_list now f xs ports b) ]
]

sweep_list-taken :
    (now : ℕ) (f : NatMapping) (xs : List NatMapping) (ports : ℕ → Bool)
    → Distinct xs
    → ((e : NatMapping) → At e xs → ports e.external_port ≡ true)
    → At f (sweep_list now xs ports).0
    → (sweep_list now xs ports).1 f.external_port ≡ true
unfolding sweep_list
sweep_list-taken now f [] ports d t a = elim a [ ]
sweep_list-taken now f (x ∷ xs) ports d t a = elim (Bool-cases (is_dead now x)) [
  | inl dead ↦ rw dead (
      sweep_list-taken now f xs (set_at x.external_port false ports) d.1
        (λ e b.
          set_at_other x.external_port e.external_port false ports
            (λ same. Fresh-At x.external_port e xs d.0 b (sym same))
          ∙ t e (inr b))
        (rw dead at a))
  | inr alive ↦ rw alive (elim (rw alive at a) [
    | inl h ↦
        subst (λ y. (sweep_list now xs ports).1 y.external_port ≡ true) h
          (sweep_list-Fresh now x.external_port xs ports d.0 ∙ t x (inl refl))
    | inr b ↦ sweep_list-taken now f xs ports d.1 (λ e c. t e (inr c)) b
  ])
]

sweep_list-Distinct :
    (now : ℕ) (xs : List NatMapping) (ports : ℕ → Bool)
    → Distinct xs
    → Distinct (sweep_list now xs ports).0
unfolding sweep_list
sweep_list-Distinct now [] ports d = tt
sweep_list-Distinct now (x ∷ xs) ports d = elim (Bool-cases (is_dead now x)) [
  | inl dead ↦ rw dead (sweep_list-Distinct now xs (set_at x.external_port false ports) d.1)
  | inr alive ↦ rw alive (
    Fresh-from x.external_port (sweep_list now xs ports).0
        (λ e a. Fresh-At x.external_port e xs d.0 (At-sweep_list now e xs ports a)),
    sweep_list-Distinct now xs ports d.1,
  )
]

module _ (now i : ℕ) (nat : NatTable) where
  abbrev pub swept : List NatMapping × (ℕ → Bool)
  swept = sweep_list now (nat.nat_mapping_list i) nat.assigned_ports

  abbrev pub after : NatTable
  after = record nat {
    nat_mapping_list = set_at i swept.0 nat.nat_mapping_list;
    assigned_ports = swept.1;
  }

  pub after-here : after.nat_mapping_list i ≡ swept.0
  unfolding set_at
  after-here = ground arith

  pub after-other : (j : ℕ) → (i == j) ≡ false → after.nat_mapping_list j ≡ nat.nat_mapping_list j
  unfolding set_at
  after-other j e = ground (arith, e)

  after-At :
      (j : ℕ) (f : NatMapping) → At f (after.nat_mapping_list j) → At f (nat.nat_mapping_list j)
  unfolding set_at
  after-At j f a = elim (Bool-cases (j == i)) [
    | inr n ↦ rw n at a
    | inl y ↦
        let here : j ≡ i = ground (arith, y) in
        rw here (At-sweep_list now f (nat.nat_mapping_list i) nat.assigned_ports (rw y at a))
  ]

  after-taken :
      (s : IsSound nat) (j : ℕ) (f : NatMapping)
      → At f (after.nat_mapping_list j)
      → swept.1 f.external_port ≡ true
  unfolding set_at
  after-taken s j f a = elim (Bool-cases (j == i)) [
    | inl y ↦
        sweep_list-taken now f (nat.nat_mapping_list i) nat.assigned_ports (s.distinct i)
          (s.taken i) (rw y at a)
    | inr n ↦
        let a' : At f (nat.nat_mapping_list j) = rw n at a in
        sweep_list-Fresh now f.external_port (nat.nat_mapping_list i) nat.assigned_ports (
          Fresh-from f.external_port (nat.nat_mapping_list i)
            (λ e b same. elsewhere (s.apart j i f e a' b (sym same)) n))
        ∙ s.taken j f a'
  ]
    where
      elsewhere : {j : ℕ} → j ≡ i → (j == i) ≡ false → ⊥
      elsewhere e n = ground arith

  after-IsSound : IsSound nat → IsSound after
  unfolding set_at
  after-IsSound s = record {
    address = λ j f a. s.address j f (after-At j f a);
    taken = after-taken s;
    distinct = λ j. elim (Bool-cases (j == i)) [
      | inl y ↦
          rw y (sweep_list-Distinct now (nat.nat_mapping_list i) nat.assigned_ports (s.distinct i))
      | inr n ↦ rw n (s.distinct j)
    ];
    apart = λ j k e f a b same. s.apart j k e f (after-At j e a) (after-At k f b) same;
  }

pub sweep_lists-IsSound :
    (now n i : ℕ) (nat : NatTable) → IsSound nat → IsSound (sweep_lists now n i nat)
unfolding sweep_lists
sweep_lists-IsSound now zero i nat s = s
sweep_lists-IsSound now (suc n) i nat s =
    sweep_lists-IsSound now n (suc i) (after now i nat) (after-IsSound now i nat s)

add_rules-lists :
    (rules : List DnatRule) (nat : NatTable)
    → (add_rules rules nat).nat_mapping_list ≡ nat.nat_mapping_list
unfolding add_rules add_rule
add_rules-lists [] nat = refl
add_rules-lists (rule ∷ rules) nat = add_rules-lists rules (add_rule rule nat)

empty-IsSound : (nat : NatTable) → ((i : ℕ) → nat.nat_mapping_list i ≡ []) → IsSound nat
empty-IsSound nat h = record {
  address = λ i e a. elim (rw (h i) at a) [ ];
  taken = λ i e a. elim (rw (h i) at a) [ ];
  distinct = λ i. rw (h i) tt;
  apart = λ i j e f a b same. elim (rw (h i) at a) [ ];
}

-- The table is sound at first, whatever the rules are.
pub nat_init-IsSound :
    (internal external : IfaceInfo) (rules : List DnatRule)
    → IsSound (nat_init internal external rules)
unfolding nat_init
nat_init-IsSound internal external rules =
    empty-IsSound (nat_init internal external rules) (λ i. ap (λ l. l i) (add_rules-lists rules _))
