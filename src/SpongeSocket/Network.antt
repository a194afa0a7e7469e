-- ===== src/SpongeSocket/Network.antt =====
-- Two sockets of tcp_sponge_socket.cc, and a network between them that loses, repeats and reorders.
use computer_network_labs.TcpSegment.{TcpSegment}
use computer_network_labs.Base.{
  if◌then◌else◌, get_elem?, ℕ, ◌≡◌, ap, false, Option, none, some, List, [], ◌∷◌,
}
use computer_network_labs.SpongeSocket.{
  receive, take_outbound, may_take, hangup, inbound, flush, elapse, dial, SpongeSocket,
}

-- What happens to a socket. A delivery names a segment of the peer by its place among all that the
-- peer has ever sent; ports and checksum are those of the datagram.
pub data Event : Type 0 where
  dials : Event
  gets : (i sport dport cksum : ℕ) → Event
  writes : List ℕ → Event
  hangs_up : Event
  reads : ℕ → Event
  flushes : Event
  elapses : ℕ → Event

unfoldable pub readdress : ℕ → ℕ → ℕ → TcpSegment → TcpSegment
readdress sport dport cksum seg = record seg {
  header = record (seg.header) { sport = sport; dport = dport; cksum = cksum };
}

-- The segment that arrives, unless nothing of the kind was sent.
unfoldable pub arrival : ℕ → ℕ → ℕ → Option TcpSegment → Option TcpSegment
unfolding readdress
arrival sport dport cksum none = none
arrival sport dport cksum (some seg) = some (readdress sport dport cksum seg)

-- The peer has sent `wire`. The interests are asked before the poll, so that a callback may still run
-- when one of an earlier rule has ended the connection. The callback of rule 2 runs only while what
-- its interest asks besides holds: the callback of rule 1, the only one before it, neither shuts the
-- outgoing side nor takes room. The other callbacks may run at any time.
unfoldable pub happen : List TcpSegment → Event → SpongeSocket → SpongeSocket
happen wire dials s = dial s
happen wire (gets i sport dport cksum) s = receive (arrival sport dport cksum (get_elem? wire i)) s
happen wire (writes chunk) s = if may_take s then take_outbound chunk s else s
happen wire hangs_up s = hangup s
happen wire (reads room) s = inbound room s
happen wire flushes s = flush s
happen wire (elapses ms) s = elapse ms s

-- A socket whose thread has thrown does nothing more.
unfoldable pub react : List TcpSegment → Event → SpongeSocket → SpongeSocket
react wire e s = if s.failed then s else happen wire e s

pub react_running :
    (wire : List TcpSegment) (e : Event) (s : SpongeSocket)
    → s.failed ≡ false
    → react wire e s ≡ happen wire e s
unfolding react
react_running wire e s h = ap (λ b. if b then s else happen wire e s) h

pub record Network : Type 0 where
  pub near : SpongeSocket
  pub far : SpongeSocket

-- Something happens to one of the two sockets.
pub data Turn : Type 0 where
  at_near : Event → Turn
  at_far : Event → Turn

unfoldable pub turn : Turn → Network → Network
turn (at_near e) w = record w { near = react w.far.sent e w.near }
turn (at_far e) w = record w { far = react w.near.sent e w.far }

unfoldable pub run : List Turn → Network → Network
run [] w = w
run (t ∷ ts) w = run ts (turn t w)
