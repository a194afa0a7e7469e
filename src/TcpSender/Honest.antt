-- ===== src/TcpSender/Honest.antt =====
-- tcp_sender.cc: every segment that the sender makes or keeps is an excerpt of its stream.
pub mod Calls
use computer_network_labs.ByteStream
use computer_network_labs.ByteStream.{ByteStream}
use computer_network_labs.TcpConfig.{max_payload_size}
use computer_network_labs.TcpSegment.{TcpSegment, length_in_sequence_space}
use computer_network_labs.TcpSegment.Excerpt.{
  Carries, start, part, AllCarry, AllCarry-append, AllCached,
}
use computer_network_labs.Reassembler.Slice.{Fits}
use computer_network_labs.Base.{
  ltb, leb, ◌==◌, ltb→lt, ==→eq, if_ind, &&-true, length, sub64, ℕ, zero, suc, ◌+◌, ◌-◌, ◌^◌, ◌≤◌,
  ◌<◌, min, ◌≡◌, refl, ap, subst, ◌⊎◌, inl, inr, true, ◌&&◌, List, [], ◌∷◌, arith,
}
use computer_network_labs.WrappingInts.{WrappingInt32, wrap}
use computer_network_labs.TcpSender.{
  next_seqno, cache_segment, transmit, syn_segment, window_or_one, fin_due, data_segment,
  read_payload, data_loop, data_fuel, send_syn, send_data, fin_segment, send_fin, fill_rest,
  fill_window, TcpSender,
}
use computer_network_labs.TcpSender.Feeds.{
  syn_place, read-Feeds, eof-Feeds, Pending-Place, read-Pending, Pending-cons, Feeds, Place, fresh,
  going, over, Pending,
}

module _ (src : ℕ → ℕ) (total : ℕ) (isn : WrappingInt32) where
  pub record Honest (s : TcpSender) : Type 0 where
    pub isn_eq : s.isn ≡ isn
    pub feeds : Feeds src total s.stream
    pub place : Place s.next_seqno_absolute s.stream
    pub queued : AllCarry src total isn s.segments_out
    pub cached : AllCached src total isn s.segments_cache

  cache_segment-AllCached :
      (key : ℕ) (seg : TcpSegment) (cache : List (ℕ × TcpSegment))
      → Carries src total isn seg
      → AllCached src total isn cache
      → AllCached src total isn (cache_segment key seg cache)
  unfolding cache_segment
  cache_segment-AllCached key seg [] c a = (c, tt)
  cache_segment-AllCached key seg ((k, x) ∷ cache) c (a, rest) =
      if_ind (AllCached src total isn) (ltb key k) (λ _. (c, (a, rest)))
        λ _.
          if_ind (AllCached src total isn) (k == key) (λ _. (c, rest))
            λ _. (a, cache_segment-AllCached key seg cache c rest)

  -- Sending a segment of the stream leaves all as it was but the number, which moves to `next`.
  transmit-Honest :
      (seg : TcpSegment) (next : ℕ) (s : TcpSender)
      → Carries src total isn seg
      → s.next_seqno_absolute + length_in_sequence_space seg ≡ next
      → next < 2 ^ 64
      → Place next s.stream
      → s.isn ≡ isn
      → Feeds src total s.stream
      → AllCarry src total isn s.segments_out
      → AllCached src total isn s.segments_cache
      → Honest (transmit seg s)
  unfolding transmit
  transmit-Honest seg next s c e lt p i f q a = record {
    isn_eq = i;
    feeds = f;
    place = subst (λ n. Place n s.stream) {x = next} (omega arith) p;
    queued = AllCarry-append src total isn s.segments_out (seg ∷ []) q (c, tt);
    cached = cache_segment-AllCached _ seg s.segments_cache c a;
  }

  -- A round of the loop has `bytes` in hand.
  record Reading (bytes : List ℕ) (s : TcpSender) : Type 0 where
    pub isn_eq : s.isn ≡ isn
    pub feeds : Feeds src total s.stream
    pub pending : Pending src total bytes s.next_seqno_absolute s.stream
    pub queued : AllCarry src total isn s.segments_out
    pub cached : AllCached src total isn s.segments_cache

  Reading-nil : (s : TcpSender) → Reading [] s → Honest s
  Reading-nil s r = record {
    isn_eq = r.isn_eq;
    feeds = r.feeds;
    place = Pending-Place src total s.next_seqno_absolute s.stream r.pending;
    queued = r.queued;
    cached = r.cached;
  }

  -- The segment of a round carries the bytes in hand, and the FIN only at the end of the stream.
  data_segment-Carries :
      (b : ℕ) (bytes : List ℕ) (w : ℕ) (s : TcpSender)
      → length (b ∷ bytes) ≤ w
      → w < 2 ^ 64
      → Reading (b ∷ bytes) s
      → let (seg, left) = data_segment (b ∷ bytes) w s in
        Carries src total isn seg
        × Place (s.next_seqno_absolute + length_in_sequence_space seg) s.stream
        × (left < 2 ^ 64)
        × (length_in_sequence_space seg ≤ length bytes + 2)
        × (1 ≤ length_in_sequence_space seg)
  unfolding data_segment length_in_sequence_space fin_due next_seqno
  data_segment-Carries b bytes w s h lt r =
      let (l, count, excerpt) =
        Pending-cons src total b s.next_seqno_absolute bytes s.stream r.pending in
      let fits : Fits src (total + 1) (s.next_seqno_absolute - 1) (b ∷ bytes) = record {
        within = omega (arith, count, r.feeds.below, r.feeds.valid.ordered);
        excerpt = excerpt;
      } in
      if_ind
        (λ ((seg, left) : TcpSegment × ℕ).
          Carries src total isn seg
          × Place (s.next_seqno_absolute + length_in_sequence_space seg) s.stream
          × (left < 2 ^ 64)
          × (length_in_sequence_space seg ≤ length bytes + 2)
          × (1 ≤ length_in_sequence_space seg))
        (fin_due s && leb 1 (sub64 w (length (b ∷ bytes) + 0 + 0)))
        (λ e.
          let (is_end, read, all) =
            eof-Feeds src total s.stream r.feeds (&&-true _ _ (&&-true (fin_due s) _ e).0).0 in
          (
            part s.next_seqno_absolute (ap (wrap s.next_seqno_absolute) r.isn_eq) refl l fits
                (λ _. omega (arith, count, all)),
            over (omega (arith, count)) is_end read,
            omega arith,
            omega arith,
            omega arith,
          ))
        (λ e. (
          part s.next_seqno_absolute (ap (wrap s.next_seqno_absolute) r.isn_eq) refl l fits
              (λ h. absurd (cc)),
          going (omega (arith, count)),
          omega arith,
          omega arith,
          omega arith,
        ))

  -- The next read of the loop.
  read_payload-Reading :
      (w : ℕ) (s : TcpSender)
      → Honest s
      → 1 ≤ s.next_seqno_absolute
      → let (bytes, q) = read_payload w s in
        Reading bytes q
        × (length bytes ≤ w)
        × (length bytes ≤ max_payload_size)
        × (q.stream.write_cnt - q.stream.read_cnt + length bytes
            ≡ s.stream.write_cnt - s.stream.read_cnt)
        × (q.next_seqno_absolute ≡ s.next_seqno_absolute)
  unfolding read_payload
  read_payload-Reading w s h l =
      let (f, bytes, count, written, is_end, short) =
        read-Feeds src total s.stream (min max_payload_size w) h.feeds in
      (
        record {
          isn_eq = h.isn_eq;
          feeds = f;
          pending =
              read-Pending src total s.next_seqno_absolute (min max_payload_size w) s.stream h.feeds
                l h.place;
          queued = h.queued;
          cached = h.cached;
        },
        omega (arith, short),
        omega (arith, short),
        omega (arith, count, written, f.valid.ordered),
        refl,
      )

  fuel_left :
      (n rest before fuel : ℕ) → rest + n ≡ before → before < suc fuel → (n ≡ 0) ⊎ (rest < fuel)
  fuel_left zero rest before fuel e h = inl refl
  fuel_left (suc n) rest before fuel e h = inr (omega arith)

  -- With fuel for the bytes that the stream holds, the loop keeps the sender honest.
  data_loop-Honest :
      (fuel : ℕ) (bytes : List ℕ) (w : ℕ) (s : TcpSender)
      → (length bytes ≡ 0) ⊎ (s.stream.write_cnt - s.stream.read_cnt < fuel)
      → length bytes ≤ w
      → w < 2 ^ 64
      → length bytes ≤ max_payload_size
      → 1 ≤ s.next_seqno_absolute
      → Reading bytes s
      → Honest (data_loop fuel bytes w s) × (1 ≤ (data_loop fuel bytes w s).next_seqno_absolute)
  unfolding data_loop transmit
  data_loop-Honest zero [] w s f h lt k l r = (Reading-nil s r, l)
  data_loop-Honest zero (b ∷ bytes) w s f h lt k l r = absurd (omega arith)
  data_loop-Honest (suc fuel) [] w s f h lt k l r = (Reading-nil s r, l)
  data_loop-Honest (suc fuel) (b ∷ bytes) w s f h lt k l r =
      let (carries, place, room, size, _pos) = data_segment-Carries b bytes w s h lt r in
      let (_l, count, _excerpt) =
        Pending-cons src total b s.next_seqno_absolute bytes s.stream r.pending in
      let (reading, short, small, rest, same) =
        read_payload-Reading left (transmit seg s)
          (transmit-Honest seg (s.next_seqno_absolute + length_in_sequence_space seg) s carries refl
            (omega (arith, size, count, r.feeds.valid.ordered, r.feeds.valid.small)) place r.isn_eq
            r.feeds r.queued r.cached)
          (omega (arith, size, count, r.feeds.valid.ordered, r.feeds.valid.small)) in
      data_loop-Honest fuel next left q
        (fuel_left (length next) (q.stream.write_cnt - q.stream.read_cnt)
          (s.stream.write_cnt - s.stream.read_cnt) fuel rest (omega arith))
        short room small
        (omega (arith, same, size, count, r.feeds.valid.ordered, r.feeds.valid.small)) reading
    where
      seg : TcpSegment
      seg = (data_segment (b ∷ bytes) w s).0

      left : ℕ
      left = (data_segment (b ∷ bytes) w s).1

      next : List ℕ
      next = (read_payload left (transmit seg s)).0

      q : TcpSender
      q = (read_payload left (transmit seg s)).1

  send_data-Honest :
      (s : TcpSender)
      → Honest s
      → 1 ≤ s.next_seqno_absolute
      → Honest (send_data s) × (1 ≤ (send_data s).next_seqno_absolute)
  unfolding send_data
  send_data-Honest s h l =
      let w = sub64 (window_or_one s.peer_windows_size) s.bytes_in_flight in
      let (reading, short, small, rest, same) = read_payload-Reading w s h l in
      data_loop-Honest (data_fuel s) (read_payload w s).0 w (read_payload w s).1
        (inr (omega (arith, rest, ByteStream.Invariant.buffer_size-eq h.feeds.valid))) short
        (omega arith) small (omega (arith, same)) reading

  send_syn-Honest :
      (s : TcpSender) → Honest s → Honest (send_syn s) × (1 ≤ (send_syn s).next_seqno_absolute)
  unfolding send_syn transmit length_in_sequence_space
  send_syn-Honest s h =
      if_ind (λ (q : TcpSender). Honest q × (1 ≤ q.next_seqno_absolute))
        (s.next_seqno_absolute == 0)
        (λ e. (
          transmit-Honest (syn_segment s.isn) 1 s (start h.isn_eq refl refl)
              (omega (arith, ==→eq _ _ e)) (omega arith)
              (syn_place s.next_seqno_absolute s.stream (==→eq _ _ e) h.place) h.isn_eq h.feeds
              h.queued h.cached,
          omega (arith, ==→eq _ _ e),
        ))
        (λ e. (h, ground arith))

  -- A FIN is due only right after the last byte of the stream.
  fin_due-Honest :
      (s : TcpSender)
      → Feeds src total s.stream
      → Place s.next_seqno_absolute s.stream
      → 1 ≤ s.next_seqno_absolute
      → fin_due s ≡ true
      → (s.next_seqno_absolute ≡ total + 1)
        × (s.stream.is_end ≡ true)
        × (s.stream.read_cnt ≡ s.stream.write_cnt)
        × (s.stream.read_cnt ≡ total)
  unfolding fin_due ByteStream.bytes_written
  fin_due-Honest s f (fresh e z) l d = absurd (omega arith)
  fin_due-Honest s f (going e) l d =
      let (is_end, read, all) = eof-Feeds src total s.stream f (&&-true _ _ d).0 in
      (omega (arith, all), is_end, read, all)
  fin_due-Honest s f (over e i r) l d =
      absurd (omega (arith, f.valid.small, ltb→lt _ _ (&&-true (ByteStream.eof s.stream) _ d).1))

  send_fin-Honest :
      (s : TcpSender)
      → Honest s
      → 1 ≤ s.next_seqno_absolute
      → Honest (send_fin s) × (1 ≤ (send_fin s).next_seqno_absolute)
  unfolding send_fin transmit length_in_sequence_space next_seqno
  send_fin-Honest s h l =
      if_ind (λ (q : TcpSender). Honest q × (1 ≤ q.next_seqno_absolute)) (fin_due s)
        (λ due.
          let (at, is_end, read, all) = fin_due-Honest s h.feeds h.place l due in
          let t =
            transmit-Honest (fin_segment s) (total + 2) s
              (part s.next_seqno_absolute (ap (wrap s.next_seqno_absolute) h.isn_eq) refl l
                (record { within = omega (arith, at); excerpt = refl }) (λ _. omega (arith, at)))
              (omega (arith, at)) (omega (arith, all, h.feeds.valid.small, read))
              (over (omega (arith, all)) is_end read) h.isn_eq h.feeds h.queued h.cached in
          if_ind (λ (q : TcpSender). Honest q × (1 ≤ q.next_seqno_absolute))
            (leb (window_or_one s.peer_windows_size) s.bytes_in_flight) (λ _. (h, l))
            (λ _. (
              record {
                isn_eq = t.isn_eq;
                feeds = t.feeds;
                place = t.place;
                queued = t.queued;
                cached = t.cached;
              },
              omega (arith, at, all, h.feeds.valid.small, read),
            )))
        (λ _. (h, l))

  -- `fill_window` keeps the sender honest, and has sent the SYN.
  pub fill_window-Honest :
      (s : TcpSender)
      → Honest s
      → Honest (fill_window s) × (1 ≤ (fill_window s).next_seqno_absolute)
  unfolding fill_window fill_rest
  fill_window-Honest s h =
      let (h', l) = send_syn-Honest s h in
      let (h'', l'') = send_data-Honest (send_syn s) h' l in
      ground (
        arith,
        h',
        l,
        send_fin-Honest (send_syn s) h' l,
        send_fin-Honest (send_data (send_syn s)) h'' l'',
      )
