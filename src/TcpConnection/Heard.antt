-- ===== src/TcpConnection/Heard.antt =====
-- tcp_connection.cc: a connection that gets only what an honest peer has sent assembles the peer's
-- stream.
use computer_network_labs.ByteStream
use computer_network_labs.ByteStream.{ByteStream}
use computer_network_labs.ByteStream.Invariant.{set_error-IsValid}
use computer_network_labs.WrappingInts.{WrappingInt32, unwrap}
use computer_network_labs.TcpConfig.{max_retx_attempts}
use computer_network_labs.TcpSegment.{TcpSegment, length_in_sequence_space}
use computer_network_labs.TcpSegment.Excerpt.{Carries}
use computer_network_labs.Reassembler.Delivery.{read_cnt-push_substring}
use computer_network_labs.TcpReceiver
use computer_network_labs.TcpReceiver.{TcpReceiver, ackno, stream_out}
use computer_network_labs.TcpReceiver.Heard.{Heard, segment_received-Heard}
use computer_network_labs.TcpSender
use computer_network_labs.TcpConnection.Output.{send_data_fields}
use computer_network_labs.Base.{
  ltb, if◌then◌else◌, if_ind, sub64, ℕ, ◌+◌, ◌^◌, ◌<◌, ◌≡◌, refl, ◌∙◌, ◌⊎◌, inl, inr, false, not,
  ◌&&◌, Option, none, some, arith,
}
use computer_network_labs.TcpConnection.{
  send_data, abort, reset_connection, connect, tick, sender_ack, receiver_segment, sender_empty,
  sender_fill, phase, receive, segment_received, TcpConnection, Phase, listen, syn_sent, syn_rcvd,
  established, fin_wait_1, fin_wait_2, time_wait, other,
}

abbrev Unread : TcpReceiver → TcpReceiver → Type 0
Unread r q = (stream_out q).read_cnt ≡ (stream_out r).read_cnt

push_payload-Unread :
    (seg : TcpSegment) (ack : WrappingInt32) (r : TcpReceiver)
    → Unread r (TcpReceiver.push_payload seg ack r)
unfolding TcpReceiver.push_payload
push_payload-Unread seg ack r =
    let stream_index = unwrap seg.header.seqno r.isn r.checkpoint in
    let index = if not seg.header.syn then sub64 stream_index 1 else stream_index in
    ground (arith, read_cnt-push_substring seg.payload index seg.header.fin r.reassembler)

receive_payload-Unread :
    (seg : TcpSegment) (ack : Option WrappingInt32) (r : TcpReceiver)
    → Unread r (TcpReceiver.receive_payload seg ack r)
unfolding TcpReceiver.receive_payload
receive_payload-Unread seg none r = refl
receive_payload-Unread seg (some ack) r =
    if_ind (Unread r) (not (ByteStream.input_ended (stream_out r)))
      (λ _. push_payload-Unread seg ack r) (λ _. refl)

read_cnt-segment_received :
    (seg : TcpSegment) (r : TcpReceiver) → Unread r (TcpReceiver.segment_received seg r)
unfolding TcpReceiver.segment_received TcpReceiver.note_syn
read_cnt-segment_received seg r =
    receive_payload-Unread seg _ (TcpReceiver.note_syn seg r)
    ∙ if_ind (Unread r) (seg.header.syn && not r.syn_received) (λ _. refl) (λ _. refl)

-- What a segment does to the receiver: nothing, or what `TCPReceiver::segment_received` does.
abbrev Receives : TcpSegment → TcpReceiver → TcpReceiver → Type 0
Receives seg r q = (q ≡ r) ⊎ (q ≡ TcpReceiver.segment_received seg r)

module _ (seg : TcpSegment) where
  send_data-Receives :
      (r : TcpReceiver) (c : TcpConnection)
      → Receives seg r c.receiver
      → Receives seg r (send_data c).receiver
  send_data-Receives r c h = rw (send_data_fields c).2 h

  -- On every branch.
  receive-Receives :
      (ph : Phase) (c : TcpConnection) → Receives seg c.receiver (receive ph seg c).receiver
  unfolding receive connect receiver_segment sender_ack sender_empty sender_fill
  receive-Receives listen c =
      if_ind (λ (q : TcpConnection). Receives seg c.receiver q.receiver) seg.header.syn
        (λ _. send_data-Receives c.receiver _ (inr refl)) (λ _. inl refl)
  receive-Receives syn_sent c =
      if_ind (λ (q : TcpConnection). Receives seg c.receiver q.receiver)
        (seg.header.syn && seg.header.ack) (λ _. send_data-Receives c.receiver _ (inr refl))
        λ _.
          if_ind (λ (q : TcpConnection). Receives seg c.receiver q.receiver)
            (seg.header.syn && not seg.header.ack) (λ _. send_data-Receives c.receiver _ (inr refl))
            (λ _. inl refl)
  receive-Receives syn_rcvd c = inr refl
  receive-Receives established c = send_data-Receives c.receiver _ (
      if_ind (λ (q : TcpConnection). Receives seg c.receiver q.receiver)
        (ltb 0 (length_in_sequence_space seg)) (λ _. inr refl) (λ _. inr refl))
  receive-Receives fin_wait_1 c =
      if_ind (λ (q : TcpConnection). Receives seg c.receiver q.receiver) seg.header.fin
        (λ _. send_data-Receives c.receiver _ (inr refl))
        λ _.
          if_ind (λ (q : TcpConnection). Receives seg c.receiver q.receiver) seg.header.ack
            (λ _. send_data-Receives c.receiver _ (inr refl)) (λ _. inl refl)
  receive-Receives fin_wait_2 c = send_data-Receives c.receiver _ (inr refl)
  receive-Receives time_wait c =
      if_ind (λ (q : TcpConnection). Receives seg c.receiver q.receiver) seg.header.fin
        (λ _. send_data-Receives c.receiver _ (inr refl)) (λ _. inl refl)
  receive-Receives other c = send_data-Receives c.receiver _ (inr refl)

module _ (src : ℕ → ℕ) (total : ℕ) (isn : WrappingInt32) where
  -- The reader has taken `read` bytes.
  pub record Hears (read : ℕ) (r : TcpReceiver) : Type 0 where
    pub heard : Heard src total isn r
    pub read_eq : (stream_out r).read_cnt ≡ read

  Receives-Hears :
      (seg : TcpSegment) (read : ℕ) (r q : TcpReceiver)
      → isn < 2 ^ 32
      → total + 2 < 2 ^ 31
      → seg.header.rst ≡ false
      → Carries src total isn seg
      → Receives seg r q
      → Hears read r
      → Hears read q
  Receives-Hears seg read r q lt small n c (inl e) h = rw e h
  Receives-Hears seg read r q lt small n c (inr e) h = rw e (record {
    heard = segment_received-Heard src total isn seg r lt small n c h.heard;
    read_eq = read_cnt-segment_received seg r ∙ h.read_eq;
  })

  abort-Hears :
      (read : ℕ) (c : TcpConnection) → Hears read c.receiver → Hears read (abort c).receiver
  unfolding abort ByteStream.set_error
  abort-Hears read c h = record {
    heard = record {
      sound = record {
        holds = record {
          valid = set_error-IsValid h.heard.sound.holds.valid;
          count = h.heard.sound.holds.count;
          below = h.heard.sound.holds.below;
          room = h.heard.sound.holds.room;
          bytes = h.heard.sound.holds.bytes;
        };
        cache = h.heard.sound.cache;
      };
      marked = record { mark = h.heard.marked.mark; ended = h.heard.marked.ended };
      isn_eq = h.heard.isn_eq;
      at = h.heard.at;
    };
    read_eq = h.read_eq;
  }

  -- A segment of an honest peer, a reset included.
  pub segment_received-Hears :
      (seg : TcpSegment) (read : ℕ) (c : TcpConnection)
      → isn < 2 ^ 32
      → total + 2 < 2 ^ 31
      → Carries src total isn seg
      → Hears read c.receiver
      → Hears read (segment_received seg c).receiver
  unfolding segment_received
  segment_received-Hears seg read c lt small k h =
      let c' : TcpConnection = record c { time_since_last_segment_received = 0 } in
      if_ind (λ (q : TcpConnection). Hears read q.receiver) (not c.active) (λ _. h)
        λ _.
          if_ind (λ (q : TcpConnection). Hears read q.receiver) seg.header.rst
            (λ _. abort-Hears read c' h)
            (λ n.
              Receives-Hears seg read c.receiver _ lt small n k (receive-Receives seg (phase c') c')
                h)

  pub send_data-Hears :
      (read : ℕ) (c : TcpConnection) → Hears read c.receiver → Hears read (send_data c).receiver
  send_data-Hears read c h = rw (send_data_fields c).2 h

  pub tick-Hears :
      (ms read : ℕ) (c : TcpConnection) → Hears read c.receiver → Hears read (tick ms c).receiver
  unfolding tick reset_connection
  tick-Hears ms read c h =
      if_ind (λ (q : TcpConnection). Hears read q.receiver) (not c.active) (λ _. h)
        λ _.
          if_ind (λ (q : TcpConnection). Hears read q.receiver)
            (ltb max_retx_attempts
              (TcpSender.consecutive_retransmissions (TcpSender.tick ms c.sender)))
            (λ _. abort-Hears read _ h) (λ _. send_data-Hears read _ h)
