-- ===== src/EventLoop/Wait.antt =====
-- eventloop.cc: what `wait_next_event` comes to when each rule is in place.
use computer_network_labs.Base.{
  if◌then◌else◌, if_ind, get_or, ℕ, suc, ◌+◌, ◌≡◌, refl, sym, ap, ◌∙◌, subst, ◌⊎◌, inl, inr, true,
  false, Option, none, some, List, [], ◌∷◌, arith,
}
use computer_network_labs.EventLoop.{
  is_ready, no_revents, keep, serve, finished, after_poll, wait_next_event, Rule, Prepared, Revents,
  Direction, incoming, outgoing, Answer, nothing_ready, interrupted, failing, polled, Result,
  success, timeout, exit, threw,
}
use computer_network_labs.EventLoop.Round.{
  Round, NoneOver, events_of, wanted, prepare-NoneOver, FromIndex, serve-Round,
}

is_ready-no_revents : (e : Option Direction) → is_ready e no_revents ≡ false
unfolding is_ready
is_ready-no_revents none = refl
is_ready-no_revents (some incoming) = refl
is_ready-no_revents (some outgoing) = refl

-- The `revents` that follow an answer: an error leaves them empty.
abbrev pub shown : Answer → ℕ → Revents
shown (polled revents) = revents
shown a = λ _. no_revents

-- The answers after which the rules are served.
pub data IsAnswered : Answer → Type 0 where
  failed : IsAnswered failing
  answered : (revents : ℕ → Revents) → IsAnswered (polled revents)

module _ {ℓ} {S : Type ℓ} where
  -- What a round over rules that are in place comes to, by what poll answers.
  abbrev pub Outcome : Answer → List (Rule S) → S → Result S → Type ℓ
  Outcome a rules s (success rules' s') =
      (wanted rules s ≡ true) × IsAnswered a × Round s (shown a) 0 rules s (some (rules', s'))
  Outcome a rules s threw =
      (wanted rules s ≡ true) × IsAnswered a × Round s (shown a) 0 rules s none
  Outcome a rules s (timeout rules' s') =
      (wanted rules s ≡ true) × (a ≡ nothing_ready) × (rules' ≡ rules) × (s' ≡ s)
  Outcome a rules s (exit rules' s') =
      ((wanted rules s ≡ false) ⊎ (a ≡ interrupted)) × (rules' ≡ rules) × (s' ≡ s)

  finished-Outcome :
      (a : Answer) (rules : List (Rule S)) (s : S) (o : Option (List (Rule S) × S))
      → wanted rules s ≡ true
      → IsAnswered a
      → Round s (shown a) 0 rules s o
      → Outcome a rules s (finished o)
  unfolding finished
  finished-Outcome a rules s none w p h = (w, p, h)
  finished-Outcome a rules s (some (rules', s')) w p h = (w, p, h)

  prepared : List (Rule S) → S → Prepared S
  prepared rules s = record {
    rules = rules;
    events = events_of rules s;
    something_to_poll = wanted rules s;
    state = s;
  }

  FromIndex-zero : (rules : List (Rule S)) (s : S) → FromIndex (events_of rules s) 0 rules s
  FromIndex-zero rules s j =
      ap (λ k. get_or (events_of rules s) k none) {x = 0 + j} {y = j} (omega arith)

  after_poll-Outcome :
      (rules : List (Rule S)) (s : S) (a : Answer)
      → wanted rules s ≡ true
      → Outcome a rules s (after_poll (prepared rules s) a)
  unfolding after_poll prepared
  after_poll-Outcome rules s nothing_ready w = (w, refl, refl, refl)
  after_poll-Outcome rules s interrupted w = (inr refl, refl, refl)
  after_poll-Outcome rules s failing w =
      finished-Outcome failing rules s _ w failed
        (serve-Round s (events_of rules s) (λ _. no_revents) 0 rules s (FromIndex-zero rules s))
  after_poll-Outcome rules s (polled revents) w =
      finished-Outcome (polled revents) rules s _ w (answered revents)
        (serve-Round s (events_of rules s) revents 0 rules s (FromIndex-zero rules s))

  wait_next_event-NoneOver :
      (poll : List (Option Direction) → Answer) (rules : List (Rule S)) (s : S)
      → NoneOver rules s
      → wait_next_event poll rules s ≡ (
          if wanted rules s
          then after_poll (prepared rules s) (poll (events_of rules s))
          else exit rules s)
  unfolding wait_next_event prepared
  wait_next_event-NoneOver poll rules s n = rw (wait_next_event, prepare-NoneOver rules s n) refl

  -- Let no rule be cancelled because its descriptor is at its end or closed. A round exits just
  -- with the rules and the state as they were, when no rule is interested or a signal has come; it
  -- times out in the same way when nothing is ready. Otherwise the rules are served once, in their
  -- order, by what poll has shown for their index: a broken descriptor is an exception; a rule
  -- whose interest held before poll is called when its descriptor is ready in its direction, and
  -- kept, unless the call throws or leaves it interested with its descriptor unused, which are
  -- exceptions; it is cancelled and removed when its descriptor is only hung up, unless that
  -- throws; any other rule is passed over and kept.
  pub wait_next_event-Outcome :
      (poll : List (Option Direction) → Answer) (rules : List (Rule S)) (s : S)
      → NoneOver rules s
      → Outcome (poll (events_of rules s)) rules s (wait_next_event poll rules s)
  wait_next_event-Outcome poll rules s n =
      subst (Outcome (poll (events_of rules s)) rules s)
        (sym (wait_next_event-NoneOver poll rules s n))
        (if_ind (Outcome (poll (events_of rules s)) rules s) (wanted rules s)
          (after_poll-Outcome rules s (poll (events_of rules s))) (λ e. (inl e, refl, refl)))

  serve-no_revents :
      (events : List (Option Direction)) (idx : ℕ) (rules : List (Rule S)) (s : S)
      → serve events (λ _. no_revents) idx rules s ≡ some (rules, s)
  unfolding serve is_ready keep
  serve-no_revents events idx [] s = refl
  serve-no_revents events idx (r ∷ rules) s =
      rw
        (
          serve,
          is_ready-no_revents (get_or events idx none),
          serve-no_revents events (suc idx) rules s,
        )
        refl

  -- Let no rule be cancelled because its descriptor is at its end or closed, and let one be
  -- interested. When `poll` fails by another error than a signal, the round succeeds with the rules
  -- and the state that it began with.
  pub wait_next_event-failing :
      (poll : List (Option Direction) → Answer) (rules : List (Rule S)) (s : S)
      → NoneOver rules s
      → wanted rules s ≡ true
      → ((events : List (Option Direction)) → poll events ≡ failing)
      → wait_next_event poll rules s ≡ success rules s
  unfolding after_poll prepared finished
  wait_next_event-failing poll rules s n w f =
      wait_next_event-NoneOver poll rules s n
      ∙ rw (w, f (events_of rules s), serve-no_revents (events_of rules s) 0 rules s) refl
