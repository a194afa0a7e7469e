-- ===== src/TcpSender/Timer.antt =====
-- tick of tcp_sender.cc: the retransmission timer and its exponential back-off.
use computer_network_labs.TcpConfig.{max_retx_attempts}
use computer_network_labs.TcpSegment.{TcpSegment}
use computer_network_labs.TcpSender.{is_empty, retransmit, tick_cached, tick, TcpSender}
use computer_network_labs.Base.{
  ◌==◌, if◌then◌else◌, ℕ, ◌+◌, ◌*◌, ◌^◌, ◌≤◌, ◌<◌, ◌≡◌, refl, List, [], ◌∷◌, ◌++◌, arith,
}

-- The timer has run out, and there are attempts left.
abbrev pub Expires : ℕ → TcpSender → Type 0
Expires ms s = (s.initial_retransmission_timeout ≤ s.time + ms) × (s.retx_times ≤ max_retx_attempts)

-- When segments are cached, the timer runs out with attempts left, the time stays in 64 bits and
-- the timeout is below 2 ^ 31, `tick` queues the first cached segment again and nothing else, and
-- restarts the timer; it doubles the timeout and counts the attempt exactly if the peer's window is
-- not 0. The cache, the stream and the counters stay.
pub tick-expired :
    (ms k : ℕ) (seg : TcpSegment) (cache : List (ℕ × TcpSegment)) (s : TcpSender)
    → s.segments_cache ≡ (k, seg) ∷ cache
    → s.time + ms < 2 ^ 64
    → s.initial_retransmission_timeout < 2 ^ 31
    → Expires ms s
    → let q = tick ms s in
      (q.segments_out ≡ s.segments_out ++ (seg ∷ []))
      × (q.time ≡ 0)
      × (q.initial_retransmission_timeout ≡ (
          if s.peer_windows_size == 0
          then s.initial_retransmission_timeout
          else s.initial_retransmission_timeout * 2))
      × (q.retx_times ≡ (if s.peer_windows_size == 0 then s.retx_times else s.retx_times + 1))
      × (q.segments_cache ≡ s.segments_cache)
      × (q.stream ≡ s.stream)
      × (q.next_seqno_absolute ≡ s.next_seqno_absolute)
      × (q.bytes_in_flight ≡ s.bytes_in_flight)
unfolding tick tick_cached retransmit
tick-expired ms k seg cache s e h t x = rw e (ground arith)

-- The same, with the cache apart.
tick_cached-waiting :
    (ms : ℕ) (cache : List (ℕ × TcpSegment)) (s : TcpSender)
    → s.time + ms < 2 ^ 64
    → ¬ Expires ms s
    → tick_cached ms cache s ≡ (if is_empty cache then s else record s { time = s.time + ms })
unfolding tick_cached is_empty
tick_cached-waiting ms [] s h x = refl
tick_cached-waiting ms ((k, seg) ∷ cache) s h x = ground arith

-- Before the timer runs out, and after the last attempt, while the time stays in 64 bits, `tick`
-- only lets the time pass; with nothing cached it does nothing.
pub tick-waiting :
    (ms : ℕ) (s : TcpSender)
    → s.time + ms < 2 ^ 64
    → ¬ Expires ms s
    → tick ms s ≡ (if is_empty s.segments_cache then s else record s { time = s.time + ms })
unfolding tick
tick-waiting ms s h x = tick_cached-waiting ms s.segments_cache s h x
