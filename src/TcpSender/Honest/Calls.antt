-- ===== src/TcpSender/Honest/Calls.antt =====
-- ack_received, tick and send_empty_segment of tcp_sender.cc, and the calls of its stream, keep every
-- segment an excerpt.
use computer_network_labs.ByteStream
use computer_network_labs.ByteStream.{ByteStream}
use computer_network_labs.TcpSegment.{TcpSegment}
use computer_network_labs.TcpSender.Honest.{Honest, fill_window-Honest}
use computer_network_labs.Base.{
  ◌==◌, if_ind, is_negative, ℕ, ◌+◌, ◌^◌, ◌≤◌, ◌<◌, ◌≡◌, refl, ap, true, Option, List, [], ◌∷◌,
  arith,
}
use computer_network_labs.WrappingInts.{WrappingInt32, wrap, offset}
use computer_network_labs.TcpSegment.Excerpt.{AllCarry-append, AllCached, part}
use computer_network_labs.TcpSender.Feeds.{Place-stream, Feeds, Place, fresh, going, over}
use computer_network_labs.TcpSender.{
  init, next_seqno, acked_keys, erase, erase_all, is_empty, note_ack, restart, ack_received,
  retransmit, tick_cached, tick, send_empty_segment, TcpSender,
}

module _ (src : ℕ → ℕ) (total : ℕ) (isn : WrappingInt32) where
  erase-AllCached :
      (key : ℕ) (cache : List (ℕ × TcpSegment))
      → AllCached src total isn cache
      → AllCached src total isn (erase key cache)
  unfolding erase
  erase-AllCached key [] a = tt
  erase-AllCached key ((k, x) ∷ cache) (a, rest) =
      if_ind (AllCached src total isn) (k == key) (λ _. rest)
        (λ _. (a, erase-AllCached key cache rest))

  erase_all-AllCached :
      (keys : List ℕ) (cache : List (ℕ × TcpSegment))
      → AllCached src total isn cache
      → AllCached src total isn (erase_all keys cache)
  unfolding erase_all
  erase_all-AllCached [] cache a = a
  erase_all-AllCached (key ∷ keys) cache a =
      erase_all-AllCached keys (erase key cache) (erase-AllCached key cache a)

  -- Whatever number and window an acknowledgment has.
  pub ack_received-Honest :
      (ackno : WrappingInt32) (window : ℕ) (s : TcpSender)
      → Honest src total isn s
      → 1 ≤ s.next_seqno_absolute
      → Honest src total isn (ack_received ackno window s)
        × (1 ≤ (ack_received ackno window s).next_seqno_absolute)
  unfolding ack_received note_ack restart
  ack_received-Honest ackno window s h l =
      let settled : (n w : ℕ) → Honest src total isn (restart n w (note_ack acked window s)) =
        λ n w. record {
          isn_eq = h.isn_eq;
          feeds = h.feeds;
          place = h.place;
          queued = h.queued;
          cached = erase_all-AllCached acked s.segments_cache h.cached;
        } in
      let noted : Honest src total isn (note_ack acked window s) = record {
        isn_eq = h.isn_eq;
        feeds = h.feeds;
        place = h.place;
        queued = h.queued;
        cached = erase_all-AllCached acked s.segments_cache h.cached;
      } in
      if_ind Started (is_negative (offset (next_seqno s) ackno)) (λ _. (h, l))
        λ _.
          if_ind Started (is_empty acked) (λ _. (noted, l))
            λ _. fill_window-Honest src total isn _ (settled (offset (next_seqno s) ackno) window)
    where
      acked : List ℕ
      acked = acked_keys ackno s.isn s.segments_cache

      Started : TcpSender → Type 0
      Started q = Honest src total isn q × (1 ≤ q.next_seqno_absolute)

  tick_cached-Honest :
      (ms : ℕ) (cache : List (ℕ × TcpSegment)) (s : TcpSender)
      → AllCached src total isn cache
      → Honest src total isn s
      → Honest src total isn (tick_cached ms cache s)
        × ((tick_cached ms cache s).next_seqno_absolute ≡ s.next_seqno_absolute)
        × ((tick_cached ms cache s).stream ≡ s.stream)
  unfolding tick_cached retransmit
  tick_cached-Honest ms [] s a h = (h, refl, refl)
  tick_cached-Honest ms ((k, seg) ∷ cache) s (a, rest) h =
      let queued = AllCarry-append src total isn s.segments_out (seg ∷ []) h.queued (a, tt) in
      ground (arith, queued)

  -- A tick sends nothing but a cached segment.
  pub tick-Honest :
      (ms : ℕ) (s : TcpSender)
      → Honest src total isn s
      → Honest src total isn (tick ms s)
        × ((tick ms s).next_seqno_absolute ≡ s.next_seqno_absolute)
        × ((tick ms s).stream ≡ s.stream)
  unfolding tick
  tick-Honest ms s h = tick_cached-Honest ms s.segments_cache s h.cached h

  Place-le : (s : TcpSender) → Honest src total isn s → s.next_seqno_absolute ≤ total + 2
  Place-le s h = place_le s.next_seqno_absolute s.stream h.feeds h.place
    where
      place_le :
          (next : ℕ) (stream : ByteStream)
          → Feeds src total stream
          → Place next stream
          → next ≤ total + 2
      place_le next stream f (fresh e z) = omega arith
      place_le next stream f (going e) = omega (arith, f.below, f.valid.ordered)
      place_le next stream f (over e i r) = omega (arith, f.below)

  pub send_empty_segment-Honest :
      (s : TcpSender)
      → Honest src total isn s
      → 1 ≤ s.next_seqno_absolute
      → Honest src total isn (send_empty_segment s)
  unfolding send_empty_segment next_seqno
  send_empty_segment-Honest s h l = record {
    isn_eq = h.isn_eq;
    feeds = h.feeds;
    place = h.place;
    queued = AllCarry-append src total isn s.segments_out _ h.queued (
      part s.next_seqno_absolute (ap (wrap s.next_seqno_absolute) h.isn_eq) refl l
          (record { within = omega (arith, Place-le s h); excerpt = refl }) (λ e. absurd (cc)),
      tt,
    );
    cached = h.cached;
  }

  -- Another stream of the same place.
  pub Honest-stream :
      (s : TcpSender) (stream : ByteStream)
      → Honest src total isn s
      → Feeds src total stream
      → stream.read_cnt ≡ s.stream.read_cnt
      → (s.stream.is_end ≡ true → (stream.is_end ≡ true) × (stream.write_cnt ≡ s.stream.write_cnt))
      → Honest src total isn (record s { stream = stream })
  Honest-stream s stream h f r e = record {
    isn_eq = h.isn_eq;
    feeds = f;
    place = Place-stream s.next_seqno_absolute s.stream stream r e h.place;
    queued = h.queued;
    cached = h.cached;
  }

  pub init-Honest :
      (memory : ℕ → ℕ) (capacity retx_timeout : ℕ) (fixed : Option WrappingInt32)
      (random : WrappingInt32)
      → (init memory capacity retx_timeout fixed random).isn ≡ isn
      → total + capacity < 2 ^ 31
      → Honest src total isn (init memory capacity retx_timeout fixed random)
  unfolding init ByteStream.init
  init-Honest memory capacity retx_timeout fixed random e small = record {
    isn_eq = e;
    feeds = record {
      valid = ByteStream.Invariant.init-IsValid memory capacity (omega arith);
      bytes = refl;
      below = omega arith;
      ended = λ h. absurd (cc);
    };
    place = fresh refl refl;
    queued = tt;
    cached = tt;
  }
