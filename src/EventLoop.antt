-- ===== src/EventLoop.antt =====
-- libsponge/util/eventloop.hh and eventloop.cc: one round of the loop.
--
-- The callbacks change a state `S`, in which the descriptors have theirs; `none` is an exception. What
-- `poll` answers is a parameter, a function of what it is asked for. A callback adds no rule.
pub mod Round
pub mod Wait
use computer_network_labs.Base.{
  ◌==◌, if◌then◌else◌, get_or, ℕ, suc, Bool, true, false, not, ◌&&◌, ◌||◌, Option, none, some, List,
  [], ◌∷◌,
}

pub data Direction : Type 0 where
  incoming outgoing : Direction

module _ {ℓ} (S : Type ℓ) where
  pub record FileDescriptor : Type ℓ where
    pub eof : S → Bool
    pub closed : S → Bool
    pub read_count : S → ℕ
    pub write_count : S → ℕ

  pub record Rule : Type ℓ where
    pub fd : FileDescriptor
    pub direction : Direction
    pub callback : S → Option S
    pub interest : S → Bool
    pub cancel : S → Option S

  -- What the first loop has built when it ends: the `events` of each `pollfd`, in the order of the rules
  -- that are left.
  pub record Prepared : Type ℓ where
    pub rules : List Rule
    pub events : List (Option Direction)
    pub something_to_poll : Bool
    pub state : S

-- The `revents` of a `pollfd`: POLLIN, POLLOUT, POLLERR or POLLNVAL, POLLHUP.
pub record Revents : Type 0 where
  pub readable : Bool
  pub writable : Bool
  pub broken : Bool
  pub hung_up : Bool

-- The answer of `poll`: no descriptor is ready, a signal, another error, or the `revents` by the index.
pub data Answer : Type 0 where
  nothing_ready interrupted failing : Answer
  polled : (ℕ → Revents) → Answer

-- The returned Result; `threw` is an exception.
pub data Result {ℓ} (S : Type ℓ) : Type ℓ where
  success timeout exit : List (Rule S) → S → Result S
  threw : Result S

unfoldable pub is_incoming : Direction → Bool
is_incoming incoming = true
is_incoming outgoing = false

-- `revents & events`
unfoldable pub is_ready : Option Direction → Revents → Bool
is_ready none revents = false
is_ready (some incoming) revents = revents.readable
is_ready (some outgoing) revents = revents.writable

unfoldable pub asks : Option Direction → Bool
asks none = false
asks (some d) = true

-- Each `revents` before the call of `poll`.
abbrev pub no_revents : Revents
no_revents = record { readable = false; writable = false; broken = false; hung_up = false }

module _ {ℓ} {S : Type ℓ} where
  unfoldable pub service_count : Rule S → S → ℕ
  service_count r s = elim r.direction [
    | incoming ↦ r.fd.read_count s
    | outgoing ↦ r.fd.write_count s
  ]

  -- A rule of a descriptor that is at its end or closed is cancelled.
  unfoldable pub is_over : Rule S → S → Bool
  unfolding is_incoming
  is_over r s = (is_incoming r.direction && r.fd.eof s) || r.fd.closed s

  unfoldable pub push : Rule S → Bool → Option (Prepared S) → Option (Prepared S)
  push r interested none = none
  push r interested (some p) = some (record {
    rules = r ∷ p.rules;
    events = (if interested then some r.direction else none) ∷ p.events;
    something_to_poll = interested || p.something_to_poll;
    state = p.state;
  })

  -- The first loop of `wait_next_event`.
  unfoldable pub prepare : List (Rule S) → S → Option (Prepared S)
  unfolding is_over push
  prepare [] s = some (record { rules = []; events = []; something_to_poll = false; state = s })
  prepare (r ∷ rules) s = elim (is_over r s) [
    | true ↦ elim (r.cancel s) [ none ↦ none | some s' ↦ prepare rules s' ]
    | false ↦ push r (r.interest s) (prepare rules s)
  ]

  unfoldable pub keep : Rule S → Option (List (Rule S) × S) → Option (List (Rule S) × S)
  keep r none = none
  keep r (some (rules, s)) = some (r ∷ rules, s)

  -- The test for a busy wait, after a callback.
  unfoldable pub is_busy : Rule S → S → S → Bool
  unfolding service_count
  is_busy r before s = (service_count r before == service_count r s) && r.interest s

  -- The second loop of `wait_next_event`, from the index of the next `pollfd`.
  unfoldable pub serve :
      List (Option Direction) → (ℕ → Revents) → ℕ → List (Rule S) → S → Option (List (Rule S) × S)
  unfolding is_ready asks keep is_busy
  serve events revents idx [] s = some ([], s)
  serve events revents idx (r ∷ rules) s =
      let event = get_or events idx none in
      let ready = is_ready event (revents idx) in
      elim (revents idx).broken [
        | true ↦ none
        | false ↦ elim ((revents idx).hung_up && asks event && not ready) [
          | true ↦ elim (r.cancel s) [
            | none ↦ none
            | some s' ↦ serve events revents (suc idx) rules s'
          ]
          | false ↦ elim ready [
            | false ↦ keep r (serve events revents (suc idx) rules s)
            | true ↦ elim (r.callback s) [
              | none ↦ none
              | some s' ↦ elim (is_busy r s s') [
                | true ↦ none
                | false ↦ keep r (serve events revents (suc idx) rules s')
              ]
            ]
          ]
        ]
      ]

  unfoldable pub finished : Option (List (Rule S) × S) → Result S
  finished none = threw
  finished (some (rules, s)) = success rules s

  -- What follows the call of `poll`. An error other than a signal is caught, and the second loop runs on
  -- the `revents` as they were.
  unfoldable pub after_poll : Prepared S → Answer → Result S
  unfolding serve finished
  after_poll p nothing_ready = timeout p.rules p.state
  after_poll p interrupted = exit p.rules p.state
  after_poll p failing = finished (serve p.events (λ _. no_revents) 0 p.rules p.state)
  after_poll p (polled revents) = finished (serve p.events revents 0 p.rules p.state)

  unfoldable pub wait_next_event : (List (Option Direction) → Answer) → List (Rule S) → S → Result S
  unfolding prepare after_poll
  wait_next_event poll rules s = elim (prepare rules s) [
    | none ↦ threw
    | some p ↦ if p.something_to_poll then after_poll p (poll p.events) else exit p.rules p.state
  ]
