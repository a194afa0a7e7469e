-- ===== src/Nat/Entries.antt =====
-- The lists of mappings of nat.c: what a search with its change leaves.
use computer_network_labs.Base.{
  Bool-cases, ℕ, ◌≡◌, refl, sym, ap, ◌∙◌, subst, ◌≢◌, ◌⊎◌, inl, inr, Bool, true, false, List, [],
  ◌∷◌, arith,
}
use computer_network_labs.Nat.Table.{NatMapping}
use computer_network_labs.Nat.Translate.{has, visit}

-- An entry is in a list.
abbrev pub At : NatMapping → List NatMapping → Type 0
At e [] = ⊥
At e (x ∷ xs) = (x ≡ e) ⊎ At e xs

-- No entry of a list has the port.
abbrev pub Fresh : ℕ → List NatMapping → Type 0
Fresh p [] = Unit {0}
Fresh p (x ∷ xs) = (x.external_port ≢ p) × Fresh p xs

abbrev pub Distinct : List NatMapping → Type 0
Distinct [] = Unit {0}
Distinct (x ∷ xs) = Fresh x.external_port xs × Distinct xs

-- Two entries stand for the same translation.
abbrev pub Same : NatMapping → NatMapping → Type 0
Same e f =
    (e.internal_ip ≡ f.internal_ip)
    × (e.internal_port ≡ f.internal_port)
    × (e.external_ip ≡ f.external_ip)
    × (e.external_port ≡ f.external_port)

pub Fresh-from :
    (p : ℕ) (xs : List NatMapping) → ((e : NatMapping) → At e xs → e.external_port ≢ p) → Fresh p xs
Fresh-from p [] h = tt
Fresh-from p (x ∷ xs) h = (h x (inl refl), Fresh-from p xs (λ e a. h e (inr a)))

pub Fresh-At :
    (p : ℕ) (e : NatMapping) (xs : List NatMapping) → Fresh p xs → At e xs → e.external_port ≢ p
Fresh-At p e [] f a = elim a [ ]
Fresh-At p e (x ∷ xs) f (inl h) = subst (λ y. y.external_port ≢ p) h f.0
Fresh-At p e (x ∷ xs) f (inr a) = Fresh-At p e xs f.1 a

module _ (test : NatMapping → Bool) (change : NatMapping → NatMapping) (new : NatMapping)
    (keeps : (e : NatMapping) → Same (change e) e) where
  visit-Fresh :
      (p : ℕ) (xs : List NatMapping)
      → Fresh p xs
      → (has test xs ≡ true) ⊎ (new.external_port ≢ p)
      → Fresh p (visit test change new xs).1
  unfolding visit has
  visit-Fresh p [] f (inl h) = ground arith
  visit-Fresh p [] f (inr h) = (rw (keeps new).3 h, tt)
  visit-Fresh p (x ∷ xs) f h = elim (Bool-cases (test x)) [
    | inl t ↦ rw t ((rw (keeps x).3 f.0), f.1)
    | inr t ↦ rw t (f.0, visit-Fresh p xs f.1 (rw t at h))
  ]

  -- An entry of the new list is one of the old list, or the new one.
  pub visit-At :
      (f : NatMapping) (xs : List NatMapping)
      → At f (visit test change new xs).1
      → ((e : NatMapping) × At e xs × Same f e) ⊎ ((has test xs ≡ false) × Same f new)
  unfolding visit has
  visit-At f [] (inl h) = inr (refl, subst (λ y. Same y new) h (keeps new))
  visit-At f [] (inr a) = elim a [ ]
  visit-At f (x ∷ xs) a = elim (Bool-cases (test x)) [
    | inl t ↦ elim (rw t at a) [
      | inl h ↦ inl (x, inl refl, subst (λ y. Same y x) h (keeps x))
      | inr b ↦ inl (f, inr b, (refl, refl, refl, refl))
    ]
    | inr t ↦ elim (rw t at a) [
      | inl h ↦ inl (x, inl refl, subst (λ y. Same y x) h (refl, refl, refl, refl))
      | inr b ↦ elim (visit-At f xs b) [
        | inl (e, c, same) ↦ inl (e, inr c, same)
        | inr (none_found, same) ↦ inr (rw t none_found, same)
      ]
    ]
  ]

  -- The entries stay.
  pub At-visit :
      (e : NatMapping) (xs : List NatMapping)
      → At e xs
      → (f : NatMapping) × At f (visit test change new xs).1 × Same f e
  unfolding visit
  At-visit e [] a = elim a [ ]
  At-visit e (x ∷ xs) a = elim (Bool-cases (test x)) [
    | inl t ↦ rw t (elim a [
      | inl h ↦ (change x, inl refl, subst (λ y. Same (change x) y) h (keeps x))
      | inr b ↦ (e, inr b, (refl, refl, refl, refl))
    ])
    | inr t ↦ rw t (elim a [
      | inl h ↦ (e, inl h, (refl, refl, refl, refl))
      | inr b ↦ let (f, c, same) = At-visit e xs b in (f, inr c, same)
    ])
  ]

  -- The entry that is found is in the new list.
  pub visit-here :
      (xs : List NatMapping) → At (visit test change new xs).0 (visit test change new xs).1
  unfolding visit
  visit-here [] = inl refl
  visit-here (x ∷ xs) = elim (Bool-cases (test x)) [
    | inl t ↦ rw t (inl refl)
    | inr t ↦ rw t (inr (visit-here xs))
  ]

  pub visit-Distinct :
      (xs : List NatMapping)
      → Distinct xs
      → (has test xs ≡ true) ⊎ Fresh new.external_port xs
      → Distinct (visit test change new xs).1
  unfolding visit has
  visit-Distinct [] d h = (tt, tt)
  visit-Distinct (x ∷ xs) d h = elim (Bool-cases (test x)) [
    | inl t ↦ rw t (rw (keeps x).3 d.0, d.1)
    | inr t ↦
        let h' : (has test xs ≡ true) ⊎ Fresh new.external_port (x ∷ xs) = rw t at h in
        rw t (
          visit-Fresh x.external_port xs d.0
              (elim h' [ inl a ↦ inl a | inr b ↦ inr (λ e. b.0 (sym e)) ]),
          visit-Distinct xs d.1 (elim h' [ inl a ↦ inl a | inr b ↦ inr b.1 ]),
        )
  ]

-- The entry that is found passes the test.
pub visit_hit :
    (test : NatMapping → Bool) (change : NatMapping → NatMapping) (new : NatMapping)
    (xs : List NatMapping)
    → ((e : NatMapping) → test (change e) ≡ test e)
    → test new ≡ true
    → test (visit test change new xs).0 ≡ true
unfolding visit
visit_hit test change new [] k h = k new ∙ h
visit_hit test change new (x ∷ xs) k h = elim (Bool-cases (test x)) [
  | inl t ↦ rw t (k x ∙ t)
  | inr t ↦ rw t (visit_hit test change new xs k h)
]

-- The search finds the only entry that passes the test.
pub visit-only :
    (test : NatMapping → Bool) (change : NatMapping → NatMapping) (new e : NatMapping)
    (xs : List NatMapping)
    → At e xs
    → test e ≡ true
    → ((f : NatMapping) → test f ≡ true → f.external_port ≡ e.external_port)
    → Distinct xs
    → (visit test change new xs).0 ≡ change e
unfolding visit
visit-only test change new e [] a t k d = elim a [ ]
visit-only test change new e (x ∷ xs) (inl h) t k d =
    let found : test x ≡ true = ap test h ∙ t in rw found (ap change h)
visit-only test change new e (x ∷ xs) (inr a) t k d = elim (Bool-cases (test x)) [
  | inl u ↦ absurd (Fresh-At x.external_port e xs d.0 a (sym (k x u)))
  | inr u ↦ rw u (visit-only test change new e xs a t k d.1)
]
