-- ===== src/EventLoop/Round.antt =====
-- eventloop.cc: the order in which a round serves its rules, and what poll has to do with it.
use computer_network_labs.Base.{
  ◌==◌, if◌then◌else◌, ==→eq, Bool-cases, &&-true, get_or, ℕ, suc, ◌+◌, ◌≡◌, refl, sym, ap, ◌∙◌,
  subst, inl, inr, Bool, true, false, not, ◌&&◌, ◌||◌, Option, none, some, List, [], ◌∷◌, arith,
}
use computer_network_labs.EventLoop.{
  is_ready, asks, service_count, is_over, push, prepare, keep, is_busy, serve, FileDescriptor, Rule,
  Revents, Direction, incoming, outgoing,
}

elim_ind {ℓ κ} :
    {A : Type ℓ} (P : A → Type κ) (b : Bool) {x y : A}
    → (b ≡ true → P x)
    → (b ≡ false → P y)
    → P (elim b [ true ↦ x | false ↦ y ])
elim_ind P true f g = f refl
elim_ind P false f g = g refl

option_ind {ℓ κ μ} :
    {S : Type ℓ} {A : Type κ} (P : A → Type μ) (o : Option S) {n : A} {f : S → A}
    → (o ≡ none → P n)
    → ((s : S) → o ≡ some s → P (f s))
    → P (elim o [ none ↦ n | some s ↦ f s ])
option_ind P none f g = f refl
option_ind P (some s) f g = g s refl

-- What a descriptor has to be for a rule of the direction.
abbrev pub ready : Direction → Revents → Bool
ready incoming v = v.readable
ready outgoing v = v.writable

is_ready-some : (d : Direction) (v : Revents) → is_ready (some d) v ≡ ready d v
unfolding is_ready
is_ready-some incoming v = refl
is_ready-some outgoing v = refl

-- The test for a hang-up, once the rule is not ready.
hung_up-test : (h a r : Bool) → ((h && a) && not r) ≡ true → ((a && h) ≡ true) × (r ≡ false)
hung_up-test true true false e = (refl, refl)
hung_up-test true true true e = absurd (cc)
hung_up-test true false r e = absurd (cc)
hung_up-test false a r e = absurd (cc)

hung_up-none : (h a r : Bool) → ((h && a) && not r) ≡ false → r ≡ false → (a && h) ≡ false
hung_up-none true true false e f = absurd (cc)
hung_up-none true true true e f = absurd (cc)
hung_up-none true false r e f = refl
hung_up-none false true r e f = refl
hung_up-none false false r e f = refl

module _ {ℓ} {S : Type ℓ} where
  -- How often the descriptor has been read, or written.
  abbrev pub used : Direction → FileDescriptor S → S → ℕ
  used incoming fd s = fd.read_count s
  used outgoing fd s = fd.write_count s

  -- From `s` to `t` the rule has not used its descriptor, and it is still interested.
  abbrev pub IsIdle : Rule S → S → S → Type 0
  IsIdle r s t = (used r.direction r.fd s ≡ used r.direction r.fd t) × (r.interest t ≡ true)

  -- The rule is kept in front of those that are left, unless there is an exception.
  abbrev pub retained : Rule S → Option (List (Rule S) × S) → Option (List (Rule S) × S)
  retained r none = none
  retained r (some (rules, s)) = some (r ∷ rules, s)

  -- A round over `rules` from the state `s`, in their order, the first with the index `idx`, when interests
  -- were asked in `before`, and what it comes to: the rules that are left and the state, or an exception.
  pub data Round (before : S) (revents : ℕ → Revents)
      : ℕ → List (Rule S) → S → Option (List (Rule S) × S) → Type ℓ where
    ended : (idx : ℕ) (s : S) → Round before revents idx [] s (some ([], s))
    breaks :
        (idx : ℕ) (r : Rule S) (rules : List (Rule S)) (s : S)
        → (revents idx).broken ≡ true
        → Round before revents idx (r ∷ rules) s none
    passes :
        (idx : ℕ) (r : Rule S) (rules : List (Rule S)) (s : S) (o : Option (List (Rule S) × S))
        → (revents idx).broken ≡ false
        → (r.interest before && ready r.direction (revents idx)) ≡ false
        → (r.interest before && (revents idx).hung_up) ≡ false
        → Round before revents (suc idx) rules s o
        → Round before revents idx (r ∷ rules) s (retained r o)
    cancels :
        (idx : ℕ) (r : Rule S) (rules : List (Rule S)) (s t : S) (o : Option (List (Rule S) × S))
        → (revents idx).broken ≡ false
        → (r.interest before && ready r.direction (revents idx)) ≡ false
        → (r.interest before && (revents idx).hung_up) ≡ true
        → r.cancel s ≡ some t
        → Round before revents (suc idx) rules t o
        → Round before revents idx (r ∷ rules) s o
    cancel_throws :
        (idx : ℕ) (r : Rule S) (rules : List (Rule S)) (s : S)
        → (revents idx).broken ≡ false
        → (r.interest before && ready r.direction (revents idx)) ≡ false
        → (r.interest before && (revents idx).hung_up) ≡ true
        → r.cancel s ≡ none
        → Round before revents idx (r ∷ rules) s none
    calls :
        (idx : ℕ) (r : Rule S) (rules : List (Rule S)) (s t : S) (o : Option (List (Rule S) × S))
        → (revents idx).broken ≡ false
        → (r.interest before && ready r.direction (revents idx)) ≡ true
        → r.callback s ≡ some t
        → ¬ IsIdle r s t
        → Round before revents (suc idx) rules t o
        → Round before revents idx (r ∷ rules) s (retained r o)
    call_throws :
        (idx : ℕ) (r : Rule S) (rules : List (Rule S)) (s : S)
        → (revents idx).broken ≡ false
        → (r.interest before && ready r.direction (revents idx)) ≡ true
        → r.callback s ≡ none
        → Round before revents idx (r ∷ rules) s none
    idles :
        (idx : ℕ) (r : Rule S) (rules : List (Rule S)) (s t : S)
        → (revents idx).broken ≡ false
        → (r.interest before && ready r.direction (revents idx)) ≡ true
        → r.callback s ≡ some t
        → IsIdle r s t
        → Round before revents idx (r ∷ rules) s none

  abbrev pub NoneOver : List (Rule S) → S → Type 0
  NoneOver [] s = Unit {0}
  NoneOver (r ∷ rules) s = (is_over r s ≡ false) × NoneOver rules s

  abbrev pub event : Rule S → S → Option Direction
  event r s = if r.interest s then some r.direction else none

  abbrev pub events_of : List (Rule S) → S → List (Option Direction)
  events_of [] s = []
  events_of (r ∷ rules) s = event r s ∷ events_of rules s

  -- Whether any rule is interested.
  abbrev pub wanted : List (Rule S) → S → Bool
  wanted [] s = false
  wanted (r ∷ rules) s = r.interest s || wanted rules s

  pub prepare-NoneOver :
      (rules : List (Rule S)) (s : S)
      → NoneOver rules s
      → prepare rules s
        ≡ some (record {
          rules = rules;
          events = events_of rules s;
          something_to_poll = wanted rules s;
          state = s;
        })
  unfolding prepare push
  prepare-NoneOver [] s n = refl
  prepare-NoneOver (r ∷ rules) s (e, n) = rw (prepare, e, prepare-NoneOver rules s n) refl

  asks-event : (r : Rule S) (s : S) → asks (event r s) ≡ r.interest s
  unfolding asks
  asks-event r s = elim (Bool-cases (r.interest s)) [ inl e ↦ rw e refl | inr e ↦ rw e refl ]

  is_ready-event :
      (r : Rule S) (s : S) (v : Revents)
      → is_ready (event r s) v ≡ (r.interest s && ready r.direction v)
  unfolding is_ready
  is_ready-event r s v = elim (Bool-cases (r.interest s)) [
    | inl e ↦ rw e (is_ready-some r.direction v)
    | inr e ↦ rw e refl
  ]

  service_count-used : (r : Rule S) (s : S) → service_count r s ≡ used r.direction r.fd s
  unfolding service_count
  service_count-used r s = go r.direction
    where
      go :
          (d : Direction)
          → (elim d [ incoming ↦ r.fd.read_count s | outgoing ↦ r.fd.write_count s ])
            ≡ used d r.fd s
      go incoming = refl
      go outgoing = refl

  is_busy-true : (r : Rule S) (s t : S) → is_busy r s t ≡ true → IsIdle r s t
  unfolding is_busy
  is_busy-true r s t h =
      let (same, still) = &&-true (service_count r s == service_count r t) (r.interest t) h in
      (sym (service_count-used r s) ∙ ==→eq _ _ same ∙ service_count-used r t, still)

  is_busy-false : (r : Rule S) (s t : S) → is_busy r s t ≡ false → ¬ IsIdle r s t
  unfolding is_busy
  is_busy-false r s t h (same, still) =
      let same' : service_count r s ≡ service_count r t =
        service_count-used r s ∙ same ∙ sym (service_count-used r t) in
      ground (arith, h, same', still)

  keep-retained : (r : Rule S) (o : Option (List (Rule S) × S)) → retained r o ≡ keep r o
  unfolding keep
  keep-retained r none = refl
  keep-retained r (some (rules, s)) = refl

  -- The events from `idx` on are those of the rules that are left.
  abbrev pub FromIndex : List (Option Direction) → ℕ → List (Rule S) → S → Type 0
  FromIndex events idx rules before =
      (j : ℕ) → get_or events (idx + j) none ≡ get_or (events_of rules before) j none

  FromIndex-suc :
      (events : List (Option Direction)) (idx : ℕ) (r : Rule S) (rules : List (Rule S)) (before : S)
      → FromIndex events idx (r ∷ rules) before
      → FromIndex events (suc idx) rules before
  FromIndex-suc events idx r rules before h j =
      ap (λ k. get_or events k none) {x = suc idx + j} (omega arith) ∙ h (suc j)

  pub serve-Round :
      (before : S) (events : List (Option Direction)) (revents : ℕ → Revents) (idx : ℕ)
      (rules : List (Rule S)) (s : S)
      → FromIndex events idx rules before
      → Round before revents idx rules s (serve events revents idx rules s)
  unfolding serve
  serve-Round before events revents idx [] s h = ended idx s
  serve-Round before events revents idx (r ∷ rules) s h =
      let e = get_or events idx none in
      let v = revents idx in
      let here : e ≡ event r before =
        ap (λ k. get_or events k none) {x = idx} (omega arith) ∙ h 0 in
      let next = FromIndex-suc events idx r rules before h in
      let asked : asks e ≡ r.interest before = ap asks here ∙ asks-event r before in
      let able : is_ready e v ≡ (r.interest before && ready r.direction v) =
        ap (λ x. is_ready x v) here ∙ is_ready-event r before v in
      let P = Round before revents idx (r ∷ rules) s in
      elim_ind P v.broken (λ b. breaks idx r rules s b)
        (λ b.
          elim_ind P (v.hung_up && asks e && not (is_ready e v))
            (λ c.
              let (hup, not_ready) = hung_up-test v.hung_up (asks e) (is_ready e v) c in
              let hup' = ap (λ a. a && v.hung_up) (sym asked) ∙ hup in
              let idle = sym able ∙ not_ready in
              option_ind P (r.cancel s) (λ n. cancel_throws idx r rules s b idle hup' n)
                (λ t d.
                  cancels idx r rules s t _ b idle hup' d
                    (serve-Round before events revents (suc idx) rules t next)))
            (λ c.
              elim_ind P (is_ready e v)
                (λ y.
                  option_ind P (r.callback s) (λ n. call_throws idx r rules s b (sym able ∙ y) n)
                    (λ t d.
                      elim_ind P (is_busy r s t)
                        (λ busy. idles idx r rules s t b (sym able ∙ y) d (is_busy-true r s t busy))
                        (λ busy. subst P (keep-retained r _) (
                          calls idx r rules s t _ b (sym able ∙ y) d (is_busy-false r s t busy)
                            (serve-Round before events revents (suc idx) rules t next)))))
                (λ n. subst P (keep-retained r _) (
                  passes idx r rules s _ b (sym able ∙ n)
                    (ap (λ a. a && v.hung_up) (sym asked)
                      ∙ hung_up-none v.hung_up (asks e) (is_ready e v) c n)
                    (serve-Round before events revents (suc idx) rules s next)))))
