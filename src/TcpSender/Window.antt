-- ===== src/TcpSender/Window.antt =====
-- fill_window of tcp_sender.cc: what it sends, in which order, and how much.
use computer_network_labs.ByteStream.Invariant.{IsValid}
use computer_network_labs.ByteStream.Refine.{contents, length-contents}
use computer_network_labs.TcpConfig.{max_payload_size}
use computer_network_labs.TcpSegment.{TcpSegment, length_in_sequence_space}
use computer_network_labs.TcpSender.Fill.{
  payloads, sequence_length, AllSmall, read_payload_lem, nothing_left, data_loop-Sent, Sent,
}
use computer_network_labs.Base.{
  length, length-append, length-take, sub64, sub16, ℕ, ◌+◌, ◌-◌, ◌*◌, ◌^◌, ◌≤◌, ◌<◌, min, max, ◌≡◌,
  refl, sym, ap, ◌∙◌, ◌⊎◌, inl, inr, List, [], ◌∷◌, ◌++◌, append-nil, append_assoc, arith,
}
use computer_network_labs.TcpSender.{
  transmit, syn_segment, window_or_one, read_payload, data_fuel, send_syn, send_data, fin_segment,
  send_fin, fill_rest, fill_window, TcpSender,
}

-- `q` has sent the segments `segs` more than `s`: they are queued in order, carry the bytes that left
-- the stream, take the next sequence numbers, and do not overfill the peer's window.
pub record Adds (s q : TcpSender) : Type 0 where
  pub segs : List TcpSegment
  pub queued : q.segments_out ≡ s.segments_out ++ segs
  pub carried : payloads segs ++ contents q.stream ≡ contents s.stream
  pub numbered : q.next_seqno_absolute ≡ s.next_seqno_absolute + sequence_length segs
  pub counted : q.bytes_in_flight ≡ s.bytes_in_flight + sequence_length segs
  pub bounded : q.bytes_in_flight ≤ max s.bytes_in_flight (window_or_one s.peer_windows_size)
  pub small : AllSmall segs
  pub valid : IsValid q.stream
  pub same_peer : q.peer_windows_size ≡ s.peer_windows_size

Adds-refl : (s : TcpSender) → IsValid s.stream → Adds s s
Adds-refl s v = record {
  segs = [];
  queued = sym (append-nil s.segments_out);
  carried = refl;
  numbered = omega arith;
  counted = omega arith;
  bounded = omega arith;
  small = tt;
  valid = v;
  same_peer = refl;
}

payloads-append : (xs ys : List TcpSegment) → payloads (xs ++ ys) ≡ payloads xs ++ payloads ys
payloads-append [] ys = refl
payloads-append (x ∷ xs) ys =
    ap (◌++◌ x.payload) (payloads-append xs ys)
    ∙ sym (append_assoc x.payload (payloads xs) (payloads ys))

sequence_length-append :
    (xs ys : List TcpSegment) → sequence_length (xs ++ ys) ≡ sequence_length xs + sequence_length ys
sequence_length-append [] ys = omega arith
sequence_length-append (x ∷ xs) ys = omega (arith, sequence_length-append xs ys)

AllSmall-append : (xs ys : List TcpSegment) → AllSmall xs → AllSmall ys → AllSmall (xs ++ ys)
AllSmall-append [] ys a b = b
AllSmall-append (x ∷ xs) ys a b = (a.0, AllSmall-append xs ys a.1 b)

Adds-trans : {s t q : TcpSender} → Adds s t → Adds t q → Adds s q
Adds-trans {s} {t} {q} a b = record {
  segs = a.segs ++ b.segs;
  queued = b.queued ∙ ap (λ l. l ++ b.segs) a.queued ∙ append_assoc s.segments_out a.segs b.segs;
  carried =
      ap (λ l. l ++ contents q.stream) (payloads-append a.segs b.segs)
      ∙ append_assoc (payloads a.segs) (payloads b.segs) (contents q.stream)
      ∙ ap (◌++◌ (payloads a.segs)) b.carried
      ∙ a.carried;
  numbered = omega (arith, a.numbered, b.numbered, sequence_length-append a.segs b.segs);
  counted = omega (arith, a.counted, b.counted, sequence_length-append a.segs b.segs);
  bounded = omega (arith, a.bounded, b.bounded, ap window_or_one a.same_peer);
  small = AllSmall-append a.segs b.segs a.small b.small;
  valid = b.valid;
  same_peer = b.same_peer ∙ a.same_peer;
}

-- A segment without a payload.
Adds-transmit :
    (seg : TcpSegment) (s : TcpSender)
    → IsValid s.stream
    → seg.payload ≡ []
    → s.next_seqno_absolute + length_in_sequence_space seg < 2 ^ 64
    → s.bytes_in_flight + length_in_sequence_space seg
      ≤ max s.bytes_in_flight (window_or_one s.peer_windows_size)
    → max s.bytes_in_flight (window_or_one s.peer_windows_size) < 2 ^ 64
    → Adds s (transmit seg s)
unfolding transmit
Adds-transmit seg s v e h w k = record {
  segs = seg ∷ [];
  queued = refl;
  carried = ap (λ l. (l ++ []) ++ contents s.stream) e;
  numbered = omega arith;
  counted = omega arith;
  bounded = omega arith;
  small = (omega (arith, ap length e), tt);
  valid = v;
  same_peer = refl;
}

-- No number of the sender is near the limit of its type.
pub record Roomy (margin : ℕ) (s : TcpSender) : Type 0 where
  pub stream_valid : IsValid s.stream
  pub next_small : s.next_seqno_absolute + margin < 2 ^ 64
  pub flight_le : s.bytes_in_flight ≤ s.next_seqno_absolute
  pub peer_lt : s.peer_windows_size < 2 ^ 16

window_or_one_lem : (w : ℕ) → (1 ≤ window_or_one w) × (window_or_one w ≤ max w 1)
unfolding window_or_one
window_or_one_lem w = ground arith

send_data-Sent :
    (s : TcpSender)
    → Roomy (2 ^ 16) s
    → s.bytes_in_flight ≤ window_or_one s.peer_windows_size
    → Sent [] (window_or_one s.peer_windows_size - s.bytes_in_flight) s (send_data s)
unfolding send_data read_payload
send_data-Sent s r h = rw gap (
    let (_whole, valid, split, prefix) = read_payload_lem w s r.stream_valid in
    let t =
      data_loop-Sent (data_fuel s) (read_payload w s).0 w (read_payload w s).1
        (inr (
          omega (
            arith,
            ap length split,
            length-append (read_payload w s).0 (contents (read_payload w s).1.stream),
            length-contents r.stream_valid,
          )))
        valid
        (omega (arith, ap length prefix, length-take (min max_payload_size w) (contents s.stream)))
        (nothing_left w (read_payload w s).0 (contents (read_payload w s).1.stream)
          (contents s.stream) split prefix)
        (omega (arith, window_or_one_lem s.peer_windows_size))
        (omega (arith, window_or_one_lem s.peer_windows_size))
        (omega (arith, window_or_one_lem s.peer_windows_size)) in
    record {
      segs = t.segs;
      queued = t.queued;
      carried = t.carried ∙ split;
      numbered = t.numbered;
      counted = t.counted;
      in_window = t.in_window;
      filled = t.filled;
      small = t.small;
      valid = t.valid;
      kept = t.kept;
    })
  where
    w : ℕ
    w = window_or_one s.peer_windows_size - s.bytes_in_flight

    gap : sub64 (window_or_one s.peer_windows_size) s.bytes_in_flight ≡ w
    gap = omega (arith, window_or_one_lem s.peer_windows_size)

send_data-Adds :
    (s : TcpSender)
    → Roomy (2 ^ 16) s
    → s.bytes_in_flight ≤ window_or_one s.peer_windows_size
    → Adds s (send_data s)
send_data-Adds s r h =
    let t = send_data-Sent s r h in
    record {
      segs = t.segs;
      queued = t.queued;
      carried = t.carried;
      numbered = t.numbered;
      counted = t.counted;
      bounded = omega (arith, t.counted, t.in_window);
      small = t.small;
      valid = t.valid;
      same_peer = t.kept.1;
    }

Adds-windows_size : (n : ℕ) (s q : TcpSender) → Adds s q → Adds s (record q { windows_size = n })
Adds-windows_size n s q a = record {
  segs = a.segs;
  queued = a.queued;
  carried = a.carried;
  numbered = a.numbered;
  counted = a.counted;
  bounded = a.bounded;
  small = a.small;
  valid = a.valid;
  same_peer = a.same_peer;
}

fin-Adds : (s : TcpSender) → Roomy (2 ^ 16) s → Adds s (send_fin s)
unfolding send_fin length_in_sequence_space
fin-Adds s r = ground (
  arith,
  Adds-refl s r.stream_valid,
  window_or_one_lem s.peer_windows_size,
  Adds-windows_size (sub16 s.windows_size 1) s (transmit (fin_segment s) s),
  Adds-transmit (fin_segment s) s r.stream_valid refl,
)

send_syn-Adds : (s : TcpSender) → Roomy (2 ^ 16) s → Adds s (send_syn s)
unfolding send_syn length_in_sequence_space
send_syn-Adds s r = ground (
  arith,
  Adds-refl s r.stream_valid,
  window_or_one_lem s.peer_windows_size,
  Adds-transmit (syn_segment s.isn) s r.stream_valid refl,
)

Adds-Roomy : {s q : TcpSender} (margin : ℕ) → Adds s q → Roomy (margin + 2 ^ 16) s → Roomy margin q
Adds-Roomy {s} {q} margin a r = record {
  stream_valid = a.valid;
  next_small = omega (
    arith,
    r.next_small,
    a.numbered,
    a.counted,
    a.bounded,
    window_or_one_lem s.peer_windows_size,
  );
  flight_le = omega (arith, a.numbered, a.counted);
  peer_lt = omega (arith, a.same_peer);
}

Roomy-mono : {s : TcpSender} (m n : ℕ) → m ≤ n → Roomy n s → Roomy m s
Roomy-mono m n h r = record {
  stream_valid = r.stream_valid;
  next_small = omega (arith, r.next_small);
  flight_le = r.flight_le;
  peer_lt = r.peer_lt;
}

fill_rest-Adds : (s : TcpSender) → Roomy (2 ^ 17) s → Adds s (fill_rest s)
unfolding fill_rest
fill_rest-Adds s r = ground (
  arith,
  Adds-refl s r.stream_valid,
  fin-Adds s (Roomy-mono (2 ^ 16) (2 ^ 17) (omega arith) r),
  data_then_fin,
)
  where
    data_then_fin :
        s.bytes_in_flight ≤ window_or_one s.peer_windows_size → Adds s (send_fin (send_data s))
    data_then_fin h =
        let a = send_data-Adds s (Roomy-mono (2 ^ 16) (2 ^ 17) (omega arith) r) h in
        Adds-trans a (fin-Adds (send_data s) (Adds-Roomy (2 ^ 16) a r))

-- For a sender whose stream is valid, whose counters are far from their types' limits and whose
-- bytes in flight are at most its next number, one call of `fill_window` appends segments to the
-- queue, whose payloads are exactly the bytes that leave the front of the stream, in order, at most
-- 1452 in each; both counters grow by the sequence numbers that the segments take; and the bytes in
-- flight stay within the peer's window (one, if it announces none) unless they were already above
-- it.
pub fill_window-Adds : (s : TcpSender) → Roomy (3 * 2 ^ 16) s → Adds s (fill_window s)
unfolding fill_window
fill_window-Adds s r =
    let a = send_syn-Adds s (Roomy-mono (2 ^ 16) (3 * 2 ^ 16) (omega arith) r) in
    Adds-trans a (fill_rest-Adds (send_syn s) (Adds-Roomy (2 ^ 17) a r))

-- For a sender whose stream is valid, whose counters are far from their types' limits and whose
-- window is not overfull, the sending loop ends within its fuel with the window full or the stream
-- empty: no byte that still fits the window stays behind.
pub send_data_fills :
    (s : TcpSender)
    → Roomy (2 ^ 16) s
    → s.bytes_in_flight ≤ window_or_one s.peer_windows_size
    → ((send_data s).bytes_in_flight ≡ window_or_one s.peer_windows_size)
      ⊎ (contents (send_data s).stream ≡ [])
send_data_fills s r h = full t.filled
  where
    t : Sent [] (window_or_one s.peer_windows_size - s.bytes_in_flight) s (send_data s)
    t = send_data-Sent s r h

    full :
        (sequence_length t.segs ≡ window_or_one s.peer_windows_size - s.bytes_in_flight)
          ⊎ (contents (send_data s).stream ≡ [])
        → ((send_data s).bytes_in_flight ≡ window_or_one s.peer_windows_size)
          ⊎ (contents (send_data s).stream ≡ [])
    full (inl e) = inl (omega (arith, t.counted))
    full (inr e) = inr e
