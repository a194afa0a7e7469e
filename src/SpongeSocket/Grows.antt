-- ===== src/SpongeSocket/Grows.antt =====
-- tcp_sponge_socket.cc: the bytes taken from the application only grow, and no more once the outgoing
-- side is shut.
use computer_network_labs.TcpSegment.{TcpSegment}
use computer_network_labs.Reassembler.Slice.{slice}
use computer_network_labs.Base.{
  if_ind, length, get_or, length-append, ℕ, zero, suc, ◌+◌, ◌≤◌, ◌≡◌, refl, sym, ap, ap₂, ◌∙◌, true,
  false, List, [], ◌∷◌, ◌++◌, append-nil, append_assoc, arith,
}
use computer_network_labs.SpongeSocket.{
  receive, shut_outbound, read_outbound, write_outbound, take_outbound, may_take, hangup, inbound,
  flush, elapse, dial, SpongeSocket,
}
use computer_network_labs.SpongeSocket.Network.{
  happen, react, turn, run, Network, Event, dials, gets, writes, hangs_up, reads, flushes, elapses,
  Turn, at_near, at_far,
}

pub record Grows (s q : SpongeSocket) : Type 0 where
  pub rest : List ℕ
  pub more : q.taken ≡ s.taken ++ rest
  pub shut : s.outbound_shutdown ≡ true → (q.outbound_shutdown ≡ true) × (q.taken ≡ s.taken)

Grows-same :
    (s q : SpongeSocket)
    → q.taken ≡ s.taken
    → (s.outbound_shutdown ≡ true → q.outbound_shutdown ≡ true)
    → Grows s q
Grows-same s q e h = record { rest = []; more = e ∙ sym (append-nil s.taken); shut = λ x. (h x, e) }

pub Grows-refl : (s : SpongeSocket) → Grows s s
Grows-refl s = Grows-same s s refl (λ x. x)

Grows-trans : {s q t : SpongeSocket} → Grows s q → Grows q t → Grows s t
Grows-trans {s} a b = record {
  rest = a.rest ++ b.rest;
  more = b.more ∙ ap (λ l. l ++ b.rest) a.more ∙ append_assoc s.taken a.rest b.rest;
  shut = λ h. ((b.shut (a.shut h).0).0, (b.shut (a.shut h).0).1 ∙ (a.shut h).1);
}

-- Whatever the rule does with them, the bytes that it reads are kept at the end.
pub take_outbound-taken :
    (chunk : List ℕ) (s : SpongeSocket)
    → (take_outbound chunk s).taken ≡ s.taken ++ read_outbound chunk s
unfolding take_outbound shut_outbound write_outbound
take_outbound-taken chunk s = ground arith

outbound-Grows :
    (chunk : List ℕ) (s : SpongeSocket)
    → s.outbound_shutdown ≡ false
    → Grows s (take_outbound chunk s)
outbound-Grows chunk s o = record {
  rest = read_outbound chunk s;
  more = take_outbound-taken chunk s;
  shut = λ h. absurd (cc);
}

happen-Grows : (wire : List TcpSegment) (e : Event) (s : SpongeSocket) → Grows s (happen wire e s)
unfolding happen dial receive hangup shut_outbound inbound flush elapse may_take
happen-Grows wire dials s = Grows-same s _ refl (λ x. x)
happen-Grows wire (gets i sport dport cksum) s = Grows-same s _ refl (λ x. x)
happen-Grows wire (writes chunk) s =
    if_ind (Grows s) (may_take s) (λ e. outbound-Grows chunk s (ground arith)) (λ _. Grows-refl s)
happen-Grows wire hangs_up s = Grows-same s _ refl (λ x. refl)
happen-Grows wire (reads room) s = Grows-same s _ refl (λ x. x)
happen-Grows wire flushes s = Grows-same s _ refl (λ x. x)
happen-Grows wire (elapses ms) s =
    if_ind (Grows s) s.tcp.active (λ _. Grows-same s _ refl (λ x. x)) (λ _. Grows-refl s)

pub react-Grows : (wire : List TcpSegment) (e : Event) (s : SpongeSocket) → Grows s (react wire e s)
unfolding react
react-Grows wire e s = if_ind (Grows s) s.failed (λ _. Grows-refl s) (λ _. happen-Grows wire e s)

turn-Grows : (t : Turn) (w : Network) → Grows w.near (turn t w).near × Grows w.far (turn t w).far
unfolding turn
turn-Grows (at_near e) w = (react-Grows w.far.sent e w.near, Grows-refl w.far)
turn-Grows (at_far e) w = (Grows-refl w.near, react-Grows w.near.sent e w.far)

pub run-Grows :
    (ts : List Turn) (w : Network) → Grows w.near (run ts w).near × Grows w.far (run ts w).far
unfolding run
run-Grows [] w = (Grows-refl w.near, Grows-refl w.far)
run-Grows (t ∷ ts) w =
    let (a, b) = turn-Grows t w in
    let (c, d) = run-Grows ts (turn t w) in (Grows-trans a c, Grows-trans b d)

-- The bytes of a list as a stream; `d` stands behind its end.
abbrev pub bytes_of : ℕ → List ℕ → ℕ → ℕ
bytes_of d l i = get_or l i d

pub slice-bytes_of_shift :
    (d x a n : ℕ) (l : List ℕ) → slice (bytes_of d (x ∷ l)) (a + 1) n ≡ slice (bytes_of d l) a n
slice-bytes_of_shift d x a zero l = refl
slice-bytes_of_shift d x a (suc n) l =
    ap₂ ◌∷◌ (ap (λ k. get_or (x ∷ l) k d) {x = a + 1} {y = suc a} (omega arith))
      (slice-bytes_of_shift d x (a + 1) n l)

pub slice-bytes_of : (d : ℕ) (xs ys : List ℕ) → slice (bytes_of d (xs ++ ys)) 0 (length xs) ≡ xs
slice-bytes_of d [] ys = refl
slice-bytes_of d (x ∷ xs) ys =
    ap (λ l. x ∷ l) (slice-bytes_of_shift d x 0 (length xs) (xs ++ ys) ∙ slice-bytes_of d xs ys)

-- What a socket has taken, next to all that it will have taken.
pub record Ahead (src : ℕ → ℕ) (total : ℕ) (s : SpongeSocket) : Type 0 where
  pub prefix : s.taken ≡ slice src 0 (length s.taken)
  pub within : length s.taken ≤ total
  pub all : s.outbound_shutdown ≡ true → length s.taken ≡ total

pub Grows-Ahead :
    (d : ℕ) (s q : SpongeSocket) → Grows s q → Ahead (bytes_of d q.taken) (length q.taken) s
Grows-Ahead d s q g = record {
  prefix =
      sym (
        ap (λ l. slice (bytes_of d l) 0 (length s.taken)) g.more ∙ slice-bytes_of d s.taken g.rest);
  within = omega (arith, ap length g.more, length-append s.taken g.rest);
  all = λ h. ap length (sym (g.shut h).1);
}
