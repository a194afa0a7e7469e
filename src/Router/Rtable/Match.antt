-- ===== src/Router/Rtable/Match.antt =====
-- longest_prefix_match of ip_base.c against what a longest match is.
use Prim.Native.Nat.{bit_and}
use computer_network_labs.Base.{
  ltb, Bool-cases, ℕ, ◌≤◌, ◌<◌, ◌≡◌, refl, ◌⊎◌, inl, inr, true, false, ◌&&◌, Option, none, some, [],
  ◌∷◌, arith,
}
use computer_network_labs.Router.Rtable.{
  Rtable, is_match, match_loop, longest_prefix_match, RtEntry,
}

-- The entry's network is that of the address.
abbrev pub IsMatch : ℕ → RtEntry → Type 0
IsMatch dst rt = bit_and rt.dest rt.mask ≡ bit_and dst rt.mask

is_match-IsMatch : (dst : ℕ) (rt : RtEntry) → is_match dst rt ≡ true → IsMatch dst rt
unfolding is_match
is_match-IsMatch dst rt h = ground (arith, h)

IsMatch-is_match : (dst : ℕ) (rt : RtEntry) → IsMatch dst rt → is_match dst rt ≡ true
unfolding is_match
IsMatch-is_match dst rt h = ground (arith, h)

-- No entry that matches `dst` has a mask above `n`.
abbrev pub Within : ℕ → ℕ → Rtable → Type 0
Within dst n [] = Unit {0}
Within dst n (rt ∷ t) = ((IsMatch dst rt → ⊥) ⊎ (rt.mask ≤ n)) × Within dst n t

-- `rt` is the first entry of the table that matches with a mask above `n`, and no other has a longer one.
pub data Longest (dst n : ℕ) (rt : RtEntry) : Rtable → Type 0 where
  here :
      (t : Rtable) → IsMatch dst rt → n < rt.mask → Within dst rt.mask t → Longest dst n rt (rt ∷ t)
  there :
      (x : RtEntry) (t : Rtable)
      → (IsMatch dst x → ⊥) ⊎ (x.mask < rt.mask)
      → Longest dst n rt t
      → Longest dst n rt (x ∷ t)

Longest-lt : (dst n : ℕ) (rt : RtEntry) (t : Rtable) → Longest dst n rt t → n < rt.mask
Longest-lt dst n rt _ (here t m l w) = l
Longest-lt dst n rt _ (there x t m l) = Longest-lt dst n rt t l

Longest-mono :
    (dst m n : ℕ) (rt : RtEntry) (t : Rtable) → m ≤ n → Longest dst n rt t → Longest dst m rt t
Longest-mono dst m n rt _ h (here t e l w) = here t e (omega arith) w
Longest-mono dst m n rt _ h (there x t e l) = there x t e (Longest-mono dst m n rt t h l)

module _ (dst : ℕ) where
  abbrev Outcome : ℕ → Option RtEntry → Rtable → Option RtEntry → Type 0
  Outcome n cur t r =
      ((r ≡ cur) × Within dst n t) ⊎ ((rt : RtEntry) × (r ≡ some rt) × Longest dst n rt t)

  hit_Outcome :
      (n : ℕ) (cur : Option RtEntry) (x : RtEntry) (t : Rtable) (r : Option RtEntry)
      → n < x.mask
      → IsMatch dst x
      → Outcome x.mask (some x) t r
      → Outcome n cur (x ∷ t) r
  hit_Outcome n cur x t r l m (inl (e, w)) = inr (x, e, here t m l w)
  hit_Outcome n cur x t r l m (inr (rt, e, g)) = inr (
    rt,
    e,
    there x t (inr (Longest-lt dst x.mask rt t g)) (Longest-mono dst n x.mask rt t (omega arith) g),
  )

  miss_Outcome :
      (n : ℕ) (cur : Option RtEntry) (x : RtEntry) (t : Rtable) (r : Option RtEntry)
      → (IsMatch dst x → ⊥) ⊎ (x.mask ≤ n)
      → Outcome n cur t r
      → Outcome n cur (x ∷ t) r
  miss_Outcome n cur x t r m (inl (e, w)) = inl (e, (m, w))
  miss_Outcome n cur x t r (inl m) (inr (rt, e, g)) = inr (rt, e, there x t (inl m) g)
  miss_Outcome n cur x t r (inr m) (inr (rt, e, g)) =
      inr (rt, e, there x t (inr (omega (arith, Longest-lt dst n rt t g))) g)

  match_loop-Outcome :
      (n : ℕ) (cur : Option RtEntry) (t : Rtable) → Outcome n cur t (match_loop dst n cur t)
  unfolding match_loop
  match_loop-Outcome n cur [] = inl (refl, tt)
  match_loop-Outcome n cur (x ∷ t) = elim (Bool-cases (ltb n x.mask && is_match dst x)) [
    | inl e ↦ rw e (
        hit_Outcome n cur x t _ (ground arith) (is_match-IsMatch dst x (ground arith))
          (match_loop-Outcome x.mask (some x) t))
    | inr e ↦ rw e (miss_Outcome n cur x t _ (missed n x e) (match_loop-Outcome n cur t))
  ]
    where
      missed :
          (n : ℕ) (x : RtEntry)
          → (ltb n x.mask && is_match dst x) ≡ false
          → (IsMatch dst x → ⊥) ⊎ (x.mask ≤ n)
      missed n x e = elim (Bool-cases (is_match dst x)) [
        | inl m ↦ inr (ground (arith, m))
        | inr m ↦ inl (λ h. ground (arith, m, IsMatch-is_match dst x h))
      ]

  -- Either the lookup finds no entry, and no entry with a mask above 0 matches, or it finds the
  -- first of the matching entries with the greatest mask, which is above 0.
  pub longest_prefix_match_cases :
      (t : Rtable)
      → ((longest_prefix_match dst t ≡ none) × Within dst 0 t)
        ⊎ ((rt : RtEntry) × (longest_prefix_match dst t ≡ some rt) × Longest dst 0 rt t)
  unfolding longest_prefix_match
  longest_prefix_match_cases t = match_loop-Outcome 0 none t
