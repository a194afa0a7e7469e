-- ===== src/TcpConnection/Honest.antt =====
-- tcp_connection.cc: whatever reaches a connection, what it sends are excerpts of its outgoing stream.
use computer_network_labs.ByteStream
use computer_network_labs.WrappingInts.{WrappingInt32}
use computer_network_labs.TcpConfig.{max_retx_attempts}
use computer_network_labs.TcpSegment.{TcpSegment, length_in_sequence_space}
use computer_network_labs.TcpSender
use computer_network_labs.TcpSender.{TcpSender, ack_received, fill_window, send_empty_segment}
use computer_network_labs.TcpConnection.Output.{send_data_fields}
use computer_network_labs.TcpReceiver.{TcpReceiver, ackno}
use computer_network_labs.Base.{
  ltb, ◌==◌, Bool-cases, Option-cases, if_ind, add64, ℕ, ◌≤◌, ◌≡◌, refl, ◌≢◌, ◌⊎◌, inl, inr, not,
  ◌&&◌, List, [], ◌∷◌, ◌++◌, arith,
}
use computer_network_labs.TcpSender.Feeds.{set_error-Feeds}
use computer_network_labs.ByteStream.{set_error, ByteStream}
use computer_network_labs.TcpSegment.Excerpt.{
  AllCarry, AllCarry-append, Carries-same, Carries, reset,
}
use computer_network_labs.TcpSender.Keeps.{
  Keeps-refl, Keeps-trans, fill_window-Keeps, ack_received-Keeps, Keeps,
}
use computer_network_labs.TcpSender.Honest.{fill_window-Honest, Honest}
use computer_network_labs.TcpSender.Honest.Calls.{
  ack_received-Honest, tick-Honest, send_empty_segment-Honest, Honest-stream,
}
use computer_network_labs.TcpConnection.{
  stamp, stamp_all, send_data, abort, rst_segment, reset_connection, connect, tick, sender_ack,
  receiver_segment, sender_empty, sender_fill, phase, receive, segment_received, TcpConnection,
  Phase, listen, syn_sent, syn_rcvd, established, fin_wait_1, fin_wait_2, time_wait, other,
}

Phase-discrete : Discrete Phase
Phase-discrete = hlevel

-- The sender has taken `written` bytes into its stream, which is closed or not.
module _ (src : ℕ → ℕ) (total : ℕ) (isn : WrappingInt32) where
  pub record Sends (stream : ByteStream) (c : TcpConnection) : Type 0 where
    pub honest : Honest src total isn c.sender
    pub out : AllCarry src total isn c.segments_out
    pub keeps : Keeps stream c.sender.stream

  stamp-Carries :
      (r : TcpReceiver) (seg : TcpSegment)
      → Carries src total isn seg
      → Carries src total isn (stamp r seg)
  unfolding stamp
  stamp-Carries r seg h = elim (Option-cases (ackno r)) [
    | inl e ↦ rw (stamp, e) h
    | inr (k, e) ↦ rw (stamp, e) (Carries-same src total isn seg _ refl refl refl refl refl h)
  ]

  stamp_all-AllCarry :
      (r : TcpReceiver) (segs : List TcpSegment)
      → AllCarry src total isn segs
      → AllCarry src total isn (stamp_all r segs)
  unfolding stamp_all
  stamp_all-AllCarry r [] h = tt
  stamp_all-AllCarry r (seg ∷ segs) (h, hs) = (stamp-Carries r seg h, stamp_all-AllCarry r segs hs)

  pub send_data-Sends :
      (stream : ByteStream) (c : TcpConnection) → Sends stream c → Sends stream (send_data c)
  send_data-Sends stream c h =
      let (moved, emptied, _receiver) = send_data_fields c in
      record {
        honest = rw emptied (record {
          isn_eq = h.honest.isn_eq;
          feeds = h.honest.feeds;
          place = h.honest.place;
          queued = tt;
          cached = h.honest.cached;
        });
        out = rw moved (
            AllCarry-append src total isn c.segments_out _ h.out
              (stamp_all-AllCarry c.receiver c.sender.segments_out h.honest.queued));
        keeps = rw emptied h.keeps;
      }

  -- The methods of the connection that change the sender only.
  abbrev Started : ByteStream → TcpConnection → Type 0
  Started stream c = Sends stream c × (1 ≤ c.sender.next_seqno_absolute)

  sender_ack-Started :
      (seg : TcpSegment) (stream : ByteStream) (c : TcpConnection)
      → Started stream c
      → Started stream (sender_ack seg c)
  unfolding sender_ack
  sender_ack-Started seg stream c (h, l) =
      let (honest, l') =
        ack_received-Honest src total isn seg.header.ackno seg.header.win c.sender h.honest l in
      let k = ack_received-Keeps seg.header.ackno seg.header.win c.sender in
      (record { honest = honest; out = h.out; keeps = Keeps-trans h.keeps k }, l')

  sender_fill-Started :
      (stream : ByteStream) (c : TcpConnection) → Sends stream c → Started stream (sender_fill c)
  unfolding sender_fill
  sender_fill-Started stream c h =
      let (honest, l) = fill_window-Honest src total isn c.sender h.honest in
      (
        record {
          honest = honest;
          out = h.out;
          keeps = Keeps-trans h.keeps (fill_window-Keeps c.sender);
        },
        l,
      )

  sender_empty-Started :
      (stream : ByteStream) (c : TcpConnection) → Started stream c → Started stream (sender_empty c)
  unfolding sender_empty send_empty_segment
  sender_empty-Started stream c (h, l) = (
    record {
      honest = send_empty_segment-Honest src total isn c.sender h.honest l;
      out = h.out;
      keeps = h.keeps;
    },
    l,
  )

  receiver_segment-Started :
      (seg : TcpSegment) (stream : ByteStream) (c : TcpConnection)
      → Started stream c
      → Started stream (receiver_segment seg c)
  unfolding receiver_segment
  receiver_segment-Started seg stream c (h, l) =
      (record { honest = h.honest; out = h.out; keeps = h.keeps }, l)

  pub connect-Sends :
      (stream : ByteStream) (c : TcpConnection) → Sends stream c → Sends stream (connect c)
  unfolding connect sender_fill
  connect-Sends stream c h =
      send_data-Sends stream (sender_fill c) (sender_fill-Started stream c h).0

  listens :
      (seg : TcpSegment) (stream : ByteStream) (c : TcpConnection)
      → Sends stream c
      → Sends stream (receiver_segment seg c)
  unfolding receiver_segment
  listens seg stream c h = record { honest = h.honest; out = h.out; keeps = h.keeps }

  phase_started : (c : TcpConnection) → (phase c ≡ listen) ⊎ (1 ≤ c.sender.next_seqno_absolute)
  unfolding phase
  phase_started c = elim (Bool-cases (c.sender.next_seqno_absolute == 0)) [
    | inl e ↦ inl (rw (e) refl)
    | inr e ↦ inr (ground arith)
  ]

  receive_listen-Sends :
      (seg : TcpSegment) (stream : ByteStream) (c : TcpConnection)
      → Sends stream c
      → Sends stream (receive listen seg c)
  unfolding receive
  receive_listen-Sends seg stream c h =
      if_ind (Sends stream) seg.header.syn
        (λ _. connect-Sends stream (receiver_segment seg c) (listens seg stream c h)) (λ _. h)

  -- The bodies of all branches but the first.
  receive-Started :
      (ph : Phase) (seg : TcpSegment) (stream : ByteStream) (c : TcpConnection)
      → ph ≢ listen
      → Started stream c
      → Sends stream (receive ph seg c)
  unfolding receive
  receive-Started listen seg stream c n h = absurd (n refl)
  receive-Started syn_sent seg stream c n h =
      if_ind (Sends stream) (seg.header.syn && seg.header.ack)
        (λ _.
          send_data-Sends stream _
            (sender_empty-Started stream _
              (receiver_segment-Started seg stream _ (sender_ack-Started seg stream c h))).0)
        λ _.
          if_ind (Sends stream) (seg.header.syn && not seg.header.ack)
            (λ _.
              send_data-Sends stream _
                (sender_empty-Started stream _ (receiver_segment-Started seg stream c h)).0)
            (λ _. h.0)
  receive-Started syn_rcvd seg stream c n h =
      (receiver_segment-Started seg stream _ (sender_ack-Started seg stream c h)).0
  receive-Started established seg stream c n h =
      let k = receiver_segment-Started seg stream _ (sender_ack-Started seg stream c h) in
      send_data-Sends stream _
        (sender_fill-Started stream _ (
          if_ind (Sends stream) (ltb 0 (length_in_sequence_space seg))
            (λ _. (sender_empty-Started stream _ k).0) (λ _. k.0))).0
  receive-Started fin_wait_1 seg stream c n h =
      let k = receiver_segment-Started seg stream _ (sender_ack-Started seg stream c h) in
      if_ind (Sends stream) seg.header.fin
        (λ _. send_data-Sends stream _ (sender_empty-Started stream _ k).0)
        λ _. if_ind (Sends stream) seg.header.ack (λ _. send_data-Sends stream _ k.0) (λ _. h.0)
  receive-Started fin_wait_2 seg stream c n h =
      send_data-Sends stream _
        (sender_empty-Started stream _
          (receiver_segment-Started seg stream _ (sender_ack-Started seg stream c h))).0
  receive-Started time_wait seg stream c n h =
      if_ind (Sends stream) seg.header.fin
        (λ _.
          send_data-Sends stream _
            (sender_empty-Started stream _
              (receiver_segment-Started seg stream _ (sender_ack-Started seg stream c h))).0)
        (λ _. h.0)
  receive-Started other seg stream c n h =
      send_data-Sends stream _
        (sender_fill-Started stream _
          (receiver_segment-Started seg stream _ (sender_ack-Started seg stream c h)).0).0

  phase_late :
      (c : TcpConnection)
      → phase c ≢ listen
      → (phase c ≡ listen) ⊎ (1 ≤ c.sender.next_seqno_absolute)
      → 1 ≤ c.sender.next_seqno_absolute
  phase_late c n (inl e) = absurd (n e)
  phase_late c n (inr l) = l

  receive-Sends :
      (seg : TcpSegment) (stream : ByteStream) (c : TcpConnection)
      → Sends stream c
      → Sends stream (receive (phase c) seg c)
  receive-Sends seg stream c h = elim (Phase-discrete (phase c) listen) [
    | yes e ↦ rw e (receive_listen-Sends seg stream c h)
    | no n ↦ receive-Started (phase c) seg stream c n (h, phase_late c n (phase_started c))
  ]

  abort-Sends : (stream : ByteStream) (c : TcpConnection) → Sends stream c → Sends stream (abort c)
  unfolding abort ByteStream.set_error
  abort-Sends stream c h = record {
    honest =
        Honest-stream src total isn c.sender _ h.honest
          (set_error-Feeds src total c.sender.stream h.honest.feeds) refl (λ e. (e, refl));
    out = h.out;
    keeps = record { written = h.keeps.written; ended = h.keeps.ended; room = h.keeps.room };
  }

  -- Any segment at all.
  pub segment_received-Sends :
      (seg : TcpSegment) (stream : ByteStream) (c : TcpConnection)
      → Sends stream c
      → Sends stream (segment_received seg c)
  unfolding segment_received
  segment_received-Sends seg stream c h =
      let c' : TcpConnection = record c { time_since_last_segment_received = 0 } in
      let h' : Sends stream c' = record { honest = h.honest; out = h.out; keeps = h.keeps } in
      if_ind (Sends stream) (not c.active) (λ _. h)
        λ _.
          if_ind (Sends stream) seg.header.rst (λ _. abort-Sends stream c' h')
            (λ _. receive-Sends seg stream c' h')

  pub tick-Sends :
      (ms : ℕ) (stream : ByteStream) (c : TcpConnection) → Sends stream c → Sends stream (tick ms c)
  unfolding tick reset_connection
  tick-Sends ms stream c h =
      let (honest, _next, same) = tick-Honest src total isn ms c.sender h.honest in
      let later = record c {
        time_since_last_segment_received = add64 c.time_since_last_segment_received ms;
        sender = TcpSender.tick ms c.sender;
      } in
      if_ind (Sends stream) (not c.active) (λ _. h)
        λ _.
          if_ind (Sends stream)
            (ltb max_retx_attempts
              (TcpSender.consecutive_retransmissions (TcpSender.tick ms c.sender)))
            (λ _.
              abort-Sends stream
                (record later { segments_out = c.segments_out ++ (rst_segment ∷ []) })
                (record {
                  honest = honest;
                  out =
                      AllCarry-append src total isn c.segments_out (rst_segment ∷ []) h.out
                        (reset refl, tt);
                  keeps = rw same h.keeps;
                }))
            (λ _.
              send_data-Sends stream later
                (record { honest = honest; out = h.out; keeps = rw same h.keeps }))

  -- The outgoing stream is written to or ended by its owner.
  pub fill-Sends :
      (stream : ByteStream) (c : TcpConnection)
      → Honest src total isn (record (c.sender) { stream = stream })
      → AllCarry src total isn c.segments_out
      → Sends stream
          (send_data (record c { sender = fill_window (record (c.sender) { stream = stream }) }))
  unfolding sender_fill
  fill-Sends stream c h out =
      let d = record c { sender = record (c.sender) { stream = stream } } in
      send_data-Sends stream (sender_fill d)
        (sender_fill-Started stream d
          (record { honest = h; out = out; keeps = Keeps-refl stream })).0
