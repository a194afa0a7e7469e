-- ===== src/TcpReceiver/Heard.antt =====
-- tcp_receiver.cc fed by an honest sender: what it assembles is the sender's stream.
use computer_network_labs.ByteStream
use computer_network_labs.ByteStream.Invariant
use computer_network_labs.Base.{
  Bool-cases, if_ind, &&-true, length, ℕ, ◌+◌, ◌-◌, ◌^◌, ◌≤◌, ◌<◌, ◌≡◌, refl, sym, ap, ap₂, ◌∙◌,
  inl, inr, true, false, not, ◌&&◌, [], arith,
}
use computer_network_labs.TcpSegment.Excerpt.{Carries, reset, start, part}
use computer_network_labs.Reassembler.Slice.{Fits}
use computer_network_labs.WrappingInts.{WrappingInt32, wrap, unwrap}
use computer_network_labs.TcpSegment.{length_in_sequence_space, TcpSegment}
use computer_network_labs.Reassembler.Soundness.{init-IsSound, push_substring-IsSound, IsSound}
use computer_network_labs.TcpReceiver.{
  init, stream_out, next_write, ackno, window_size, note_syn, outside_window, push_payload,
  receive_payload, segment_received, TcpReceiver,
}
use computer_network_labs.TcpReceiver.Laws.{
  received, segment_received_early, segment_received-eq, segment_received_closed, Tracks, Numbered,
}
use computer_network_labs.Reassembler.EndMark.{push_substring-Marked, Marked}
use computer_network_labs.WrappingInts.Laws.{unwrap-wrap, wrap_zero}

module _ (src : ℕ → ℕ) (total : ℕ) (isn : WrappingInt32) where
  pub record Heard (r : TcpReceiver) : Type 0 where
    pub sound : IsSound src (total + 1) r.reassembler
    pub marked : Marked total r.reassembler
    pub isn_eq : r.syn_received ≡ true → r.isn ≡ isn
    pub at : r.checkpoint ≡ r.reassembler.output.write_cnt

  note_syn-Heard :
      (seg : TcpSegment) (r : TcpReceiver)
      → (seg.header.syn ≡ true → seg.header.seqno ≡ isn)
      → Heard r
      → Heard (note_syn seg r)
  unfolding note_syn
  note_syn-Heard seg r e h =
      if_ind Heard (seg.header.syn && not r.syn_received)
        (λ b. record {
          sound = h.sound;
          marked = h.marked;
          isn_eq = λ _. e (&&-true _ _ b).0;
          at = h.at;
        })
        (λ _. h)

  -- The number of the SYN lies before the window.
  push_payload-start :
      (seg : TcpSegment) (r : TcpReceiver)
      → isn < 2 ^ 32
      → Heard r
      → r.syn_received ≡ true
      → seg.header.seqno ≡ isn
      → seg.payload ≡ []
      → seg.header.fin ≡ false
      → push_payload seg (wrap (r.checkpoint + 1) r.isn) r ≡ r
  unfolding push_payload outside_window length_in_sequence_space
  push_payload-start seg r lt h y e p f =
      rw (number, acknowledged)
        (ground (arith, ap (length {A = ℕ}) p, h.at, h.sound.holds.valid.small))
    where
      number : unwrap seg.header.seqno r.isn r.checkpoint ≡ 0
      number =
          ap₂ (λ k j. unwrap k j r.checkpoint) {y = wrap 0 isn} (e ∙ sym (wrap_zero isn lt))
            (h.isn_eq y)
          ∙ unwrap-wrap 0 r.checkpoint isn lt (omega (arith, h.at, h.sound.holds.valid.small))
              (omega arith) (omega (arith, h.at, h.sound.holds.valid.small))

      acknowledged : unwrap (wrap (r.checkpoint + 1) r.isn) r.isn r.checkpoint ≡ r.checkpoint + 1
      acknowledged =
          unwrap-wrap (r.checkpoint + 1) r.checkpoint r.isn (omega (arith, h.isn_eq y))
            (omega (arith, h.at, h.sound.holds.valid.small)) (omega arith) (omega arith)

  -- Behind `note_syn`: nothing is pushed.
  receive_payload-start :
      (seg : TcpSegment) (r : TcpReceiver)
      → isn < 2 ^ 32
      → Heard r
      → seg.header.seqno ≡ isn
      → seg.payload ≡ []
      → seg.header.fin ≡ false
      → receive_payload seg (ackno r) r ≡ r
  unfolding receive_payload ackno next_write ByteStream.bytes_written
  receive_payload-start seg r lt h e p f =
      ground (arith, h.at, h.sound.holds.valid.small, push_payload-start seg r lt h)

  received-Heard :
      (m : ℕ) (seg : TcpSegment) (r : TcpReceiver)
      → ByteStream.input_ended (stream_out r) ≡ false
      → Fits src (total + 1) (m - 1) seg.payload
      → (seg.header.fin ≡ true → m - 1 + length seg.payload ≡ total)
      → Heard r
      → Heard (received m seg r)
  unfolding ByteStream.input_ended ByteStream.bytes_written
  received-Heard m seg r o f last h =
      if_ind Heard _ (λ _. h)
        (λ _. record {
          sound =
              push_substring-IsSound src (total + 1) seg.payload (m - 1) seg.header.fin
                r.reassembler f h.sound;
          marked =
              push_substring-Marked src total seg.payload (m - 1) seg.header.fin r.reassembler f
                h.sound o last h.marked;
          isn_eq = h.isn_eq;
          at = refl;
        })

  window_size-lt : (r : TcpReceiver) → Heard r → window_size r < 2 ^ 62
  unfolding window_size
  window_size-lt r h = omega (
    arith,
    ByteStream.Invariant.remaining_capacity-eq h.sound.holds.valid,
    h.sound.holds.valid.small,
    h.sound.holds.valid.ordered,
  )

  tracks :
      (r : TcpReceiver)
      → isn < 2 ^ 32
      → Heard r
      → r.syn_received ≡ true
      → ByteStream.input_ended (stream_out r) ≡ false
      → Tracks r
  unfolding ByteStream.bytes_written
  tracks r lt h y o = record {
    isn_lt = omega (arith, h.isn_eq y);
    synced = y;
    is_open = o;
    checkpoint_eq = h.at;
    small = omega (arith, h.at, h.sound.holds.valid.small);
    window_small = window_size-lt r h;
  }

  numbered :
      (m : ℕ) (seg : TcpSegment) (r : TcpReceiver)
      → seg.header.seqno ≡ wrap m isn
      → seg.header.syn ≡ false
      → 1 ≤ m
      → Fits src (total + 1) (m - 1) seg.payload
      → Heard r
      → r.syn_received ≡ true
      → total + 2 < 2 ^ 31
      → Numbered m seg r
  unfolding length_in_sequence_space
  numbered m seg r e s l f h y z = record {
    no_syn = s;
    seqno_eq = e ∙ ap (wrap m) (sym (h.isn_eq y));
    positive = l;
    below = omega (arith, f.within, h.sound.holds.room);
    above = omega (arith, h.at, h.sound.holds.valid.small);
    length_small = ground (arith, f.within, h.sound.holds.room);
  }

  part-Heard :
      (m : ℕ) (seg : TcpSegment) (r : TcpReceiver)
      → isn < 2 ^ 32
      → total + 2 < 2 ^ 31
      → seg.header.seqno ≡ wrap m isn
      → seg.header.syn ≡ false
      → 1 ≤ m
      → Fits src (total + 1) (m - 1) seg.payload
      → (seg.header.fin ≡ true → m - 1 + length seg.payload ≡ total)
      → Heard r
      → Heard (segment_received seg r)
  part-Heard m seg r lt z e s l f last h = elim (Bool-cases r.syn_received) [
    | inr early ↦ rw (segment_received_early seg r early s) h
    | inl synced ↦ elim (Bool-cases (ByteStream.input_ended (stream_out r))) [
      | inl closed ↦ rw (segment_received_closed seg r s closed) h
      | inr open_stream ↦
          rw
            (segment_received-eq m seg r (tracks r lt h synced open_stream)
              (numbered m seg r e s l f h synced z))
            (received-Heard m seg r open_stream f last h)
    ]
  ]

  -- Whatever an honest sender has sent, in whatever order and however often it comes.
  pub segment_received-Heard :
      (seg : TcpSegment) (r : TcpReceiver)
      → isn < 2 ^ 32
      → total + 2 < 2 ^ 31
      → seg.header.rst ≡ false
      → Carries src total isn seg
      → Heard r
      → Heard (segment_received seg r)
  unfolding segment_received
  segment_received-Heard seg r lt z n (reset e) h = cc
  segment_received-Heard seg r lt z n (start e p f) h =
      let h' = note_syn-Heard seg r (λ _. e) h in
      rw (receive_payload-start seg (note_syn seg r) lt h' e p f) h'
  segment_received-Heard seg r lt z n (part m e s l f last) h =
      part-Heard m seg r lt z e s l f last h

  pub init-Heard :
      (memory : ℕ → ℕ) (capacity : ℕ) → total + 1 + capacity < 2 ^ 31 → Heard (init memory capacity)
  unfolding init ByteStream.init
  init-Heard memory capacity small = record {
    sound = init-IsSound src (total + 1) memory capacity small;
    marked = record { mark = inr refl; ended = λ h. absurd (cc) };
    isn_eq = λ h. absurd (cc);
    at = refl;
  }
