-- ===== src/TcpSender/Acks.antt =====
-- ack_received of tcp_sender.cc: which segments an acknowledgment settles.
use computer_network_labs.WrappingInts.Laws.{unwrap-wrap}
use computer_network_labs.WrappingInts.{WrappingInt32, wrap, offset}
use computer_network_labs.TcpSegment.{TcpSegment}
use computer_network_labs.Base.{
  leb, if◌then◌else◌, ℕ, ◌+◌, ◌-◌, ◌*◌, ◌^◌, ◌≤◌, ◌<◌, max, ◌≡◌, refl, sym, subst, false, List, [],
  ◌∷◌, arith,
}
use computer_network_labs.TcpSender.Window.{fill_window-Adds, Adds, Roomy}
use computer_network_labs.TcpSender.Clock.{fill_window-Clock, Clock}
use computer_network_labs.TcpSender.{
  next_seqno, fill_window, acked_keys, erase, erase_all, is_empty, note_ack, restart, ack_received,
  TcpSender,
}

-- Every key is below the limit on which `unwrap` is exact, and near `a`.
abbrev pub AllNear : ℕ → List (ℕ × TcpSegment) → Type 0
AllNear a [] = Unit {0}
AllNear a ((k, x) ∷ cache) =
    (k + 2 ^ 31 < 2 ^ 63) × (a < k + 2 ^ 31) × (k ≤ a + 2 ^ 31) × AllNear a cache

-- The entries that the acknowledgment of all below `a` leaves.
abbrev pub outstanding : ℕ → List (ℕ × TcpSegment) → List (ℕ × TcpSegment)
outstanding a [] = []
outstanding a ((k, x) ∷ cache) =
    if leb k a then outstanding a cache else (k, x) ∷ outstanding a cache

abbrev AllBelow : ℕ → List ℕ → Type 0
AllBelow b [] = Unit {0}
AllBelow b (k ∷ ks) = (k ≤ b) × AllBelow b ks

erase_all-skip :
    (k b : ℕ) (x : TcpSegment) (keys : List ℕ) (cache : List (ℕ × TcpSegment))
    → AllBelow b keys
    → b < k
    → erase_all keys ((k, x) ∷ cache) ≡ (k, x) ∷ erase_all keys cache
unfolding erase_all erase
erase_all-skip k b x [] cache h e = refl
erase_all-skip k b x (key ∷ keys) cache (h, hs) e =
    ground (arith, erase_all-skip k b x keys (erase key cache) hs e)

acked_keys-AllBelow :
    (a : ℕ) (isn : WrappingInt32) (cache : List (ℕ × TcpSegment))
    → isn < 2 ^ 32
    → AllNear a cache
    → AllBelow a (acked_keys (wrap a isn) isn cache)
unfolding acked_keys
acked_keys-AllBelow a isn [] h n = tt
acked_keys-AllBelow a isn ((k, x) ∷ cache) h (n0, n1, n2, n) =
    rw (unwrap-wrap a k isn h n0 n1 n2) (ground (arith, acked_keys-AllBelow a isn cache h n))

-- For a 32-bit `isn` and a cache whose keys are near `a`, the acknowledgment of all below `a`
-- removes exactly the cached segments whose key, the number after their last one, is at most `a`,
-- and keeps the others in order.
pub erase_all-acked_keys :
    (a : ℕ) (isn : WrappingInt32) (cache : List (ℕ × TcpSegment))
    → isn < 2 ^ 32
    → AllNear a cache
    → erase_all (acked_keys (wrap a isn) isn cache) cache ≡ outstanding a cache
unfolding acked_keys erase_all erase
erase_all-acked_keys a isn [] h n = refl
erase_all-acked_keys a isn ((k, x) ∷ cache) h (n0, n1, n2, n) =
    rw (unwrap-wrap a k isn h n0 n1 n2) (
      ground (
        arith,
        erase_all-acked_keys a isn cache h n,
        erase_all-skip k a x (acked_keys (wrap a isn) isn cache) cache
            (acked_keys-AllBelow a isn cache h n),
      ))

-- An acknowledgment of a number beyond the next one to be sent, by at most 2 ^ 31, changes nothing,
-- its window included.
pub ack_received_beyond :
    (a window : ℕ) (s : TcpSender)
    → s.isn < 2 ^ 32
    → s.next_seqno_absolute < a
    → a ≤ s.next_seqno_absolute + 2 ^ 31
    → ack_received (wrap a s.isn) window s ≡ s
unfolding ack_received next_seqno wrap offset
ack_received_beyond a window s h l u = ground arith

-- The state in which all below `a` is settled: what is left in the cache and in flight, the announced
-- window, and the timer as at the start.
abbrev pub settled : ℕ → ℕ → TcpSender → TcpSender
settled a window s = record s {
  segments_cache = outstanding a s.segments_cache;
  windows_size = max window 1;
  peer_windows_size = window;
  bytes_in_flight = s.next_seqno_absolute - a;
  time = 0;
  retx_times = 0;
  initial_retransmission_timeout = s.default_initial_retransmission_timeout;
}

ack_received-settled :
    (a window : ℕ) (s : TcpSender)
    → s.isn < 2 ^ 32
    → AllNear a s.segments_cache
    → a ≤ s.next_seqno_absolute
    → s.next_seqno_absolute < a + 2 ^ 31
    → is_empty (acked_keys (wrap a s.isn) s.isn s.segments_cache) ≡ false
    → ack_received (wrap a s.isn) window s ≡ fill_window (settled a window s)
unfolding ack_received offset next_seqno wrap restart note_ack
ack_received-settled a window s h n l u e =
    ground (arith, flight, erase_all-acked_keys a s.isn s.segments_cache h n)
  where
    flight : offset (next_seqno s) (wrap a s.isn) ≡ s.next_seqno_absolute - a
    flight = omega arith

-- For a sender whose stream is valid and whose counters are far from their types' limits, with the
-- keys of its cache near `a`: an acknowledgment of all below `a`, which is at most the next number
-- and less than 2 ^ 31 behind it, and which covers some cached segment, does what `fill_window`
-- does from the state in which exactly the uncovered segments are cached, next - a numbers are in
-- flight, and the announced window is noted. Afterwards the time and the attempts are 0, the
-- timeout is the default one, and the segments added take up the stream and the window in order.
pub ack_received-Adds :
    (a window : ℕ) (s : TcpSender)
    → Roomy (3 * 2 ^ 16) s
    → s.isn < 2 ^ 32
    → AllNear a s.segments_cache
    → a ≤ s.next_seqno_absolute
    → s.next_seqno_absolute < a + 2 ^ 31
    → window < 2 ^ 16
    → is_empty (acked_keys (wrap a s.isn) s.isn s.segments_cache) ≡ false
    → (ack_received (wrap a s.isn) window s ≡ fill_window (settled a window s))
      × Adds (settled a window s) (ack_received (wrap a s.isn) window s)
      × Clock 0 0 s.default_initial_retransmission_timeout (ack_received (wrap a s.isn) window s)
ack_received-Adds a window s r h n l u w e =
    let same = ack_received-settled a window s h n l u e in
    (
      same,
      subst (Adds (settled a window s)) (sym same) (fill_window-Adds (settled a window s) roomy),
      subst (Clock 0 0 s.default_initial_retransmission_timeout) (sym same)
          (fill_window-Clock (settled a window s)),
    )
  where
    roomy : Roomy (3 * 2 ^ 16) (settled a window s)
    roomy = record {
      stream_valid = r.stream_valid;
      next_small = r.next_small;
      flight_le = omega arith;
      peer_lt = w;
    }
