-- ===== src/TcpReceiver/Laws.antt =====
-- segment_received of tcp_receiver.cc: which bytes reach the reassembler, and under which index.
use computer_network_labs.WrappingInts.Laws.{unwrap-wrap}
use computer_network_labs.WrappingInts.{wrap, unwrap}
use computer_network_labs.TcpSegment.{TcpSegment, length_in_sequence_space}
use computer_network_labs.ByteStream
use computer_network_labs.Reassembler.{push_substring}
use computer_network_labs.Reassembler.Slice.{Fits}
use computer_network_labs.Reassembler.Soundness.{IsSound, push_substring-IsSound}
use computer_network_labs.TcpReceiver.{
  TcpReceiver, stream_out, next_write, ackno, window_size, note_syn, outside_window, push_payload,
  receive_payload, segment_received,
}
use computer_network_labs.Base.{
  leb, if◌then◌else◌, ℕ, ◌+◌, ◌-◌, ◌^◌, ◌≤◌, ◌<◌, ◌≡◌, ap, ◌∙◌, true, false, ◌||◌, arith,
}

-- The SYN has come, the stream is open, and the checkpoint is where the stream stands.
pub record Tracks (r : TcpReceiver) : Type 0 where
  pub isn_lt : r.isn < 2 ^ 32
  pub synced : r.syn_received ≡ true
  pub is_open : ByteStream.input_ended (stream_out r) ≡ false
  pub checkpoint_eq : r.checkpoint ≡ ByteStream.bytes_written (stream_out r)
  pub small : r.checkpoint + 2 ^ 31 < 2 ^ 63
  pub window_small : window_size r < 2 ^ 62

-- The segment carries the sequence number of the absolute number `m`, which is not that of the SYN and
-- lies within 2 ^ 31 of the checkpoint.
pub record Numbered (m : ℕ) (seg : TcpSegment) (r : TcpReceiver) : Type 0 where
  pub no_syn : seg.header.syn ≡ false
  pub seqno_eq : seg.header.seqno ≡ wrap m r.isn
  pub positive : 1 ≤ m
  pub below : m < r.checkpoint + 2 ^ 31
  pub above : r.checkpoint ≤ m + 2 ^ 31
  pub length_small : length_in_sequence_space seg < 2 ^ 62

-- What the receiver does with a segment of the absolute number `m`.
abbrev pub received : ℕ → TcpSegment → TcpReceiver → TcpReceiver
received m seg r =
    let next = ByteStream.bytes_written (stream_out r) + 1 in
    if leb (m + length_in_sequence_space seg) next || leb (next + window_size r) m
    then r
    else let pushed = push_substring seg.payload (m - 1) seg.header.fin r.reassembler in
      record r { reassembler = pushed; checkpoint = ByteStream.bytes_written (pushed.output) }

push_payload-eq :
    (m : ℕ) (seg : TcpSegment) (r : TcpReceiver)
    → Tracks r
    → Numbered m seg r
    → push_payload seg (wrap (r.checkpoint + 1) r.isn) r ≡ received m seg r
unfolding push_payload outside_window
push_payload-eq m seg r t n =
    rw (seqno_at, ackno_at) (ground (arith, t.window_small, n.length_small))
  where
    seqno_at : unwrap seg.header.seqno r.isn r.checkpoint ≡ m
    seqno_at =
        ap (λ k. unwrap k r.isn r.checkpoint) n.seqno_eq
        ∙ unwrap-wrap m r.checkpoint r.isn t.isn_lt t.small n.below n.above

    ackno_at : unwrap (wrap (r.checkpoint + 1) r.isn) r.isn r.checkpoint ≡ r.checkpoint + 1
    ackno_at =
        unwrap-wrap (r.checkpoint + 1) r.checkpoint r.isn t.isn_lt t.small (omega arith)
          (omega arith)

-- A segment without SYN that arrives before the SYN is ignored.
pub segment_received_early :
    (seg : TcpSegment) (r : TcpReceiver)
    → r.syn_received ≡ false
    → seg.header.syn ≡ false
    → segment_received seg r ≡ r
unfolding segment_received note_syn ackno receive_payload
segment_received_early seg r h e = ground arith

-- On a receiver that has the SYN, an open stream and the checkpoint where the stream stands, while
-- window and length stay below 2 ^ 62, a segment without SYN whose sequence number is that of `m`,
-- with 1 ≤ m and m within 2 ^ 31 of the checkpoint, is dropped if it lies outside the window that
-- begins at the next byte expected; otherwise its payload is pushed at stream index m - 1, with its
-- FIN for the end mark, and the checkpoint follows the stream.
pub segment_received-eq :
    (m : ℕ) (seg : TcpSegment) (r : TcpReceiver)
    → Tracks r
    → Numbered m seg r
    → segment_received seg r ≡ received m seg r
unfolding segment_received note_syn ackno next_write receive_payload
segment_received-eq m seg r t n = ground (arith, push_payload-eq m seg r t n)

-- On a receiver that has the SYN, an open stream and the checkpoint where the stream stands, while
-- window and length stay below 2 ^ 62, a segment without SYN, numbered `m` near the checkpoint,
-- whose payload is the excerpt of `src` at m - 1, keeps a sound reassembler sound, inside and
-- outside of the window.
pub segment_received-IsSound :
    (src : ℕ → ℕ) (limit m : ℕ) (seg : TcpSegment) (r : TcpReceiver)
    → Tracks r
    → Numbered m seg r
    → Fits src limit (m - 1) seg.payload
    → IsSound src limit r.reassembler
    → IsSound src limit (segment_received seg r).reassembler
segment_received-IsSound src limit m seg r t n f i = rw (segment_received-eq m seg r t n) (
    ground (
      arith,
      push_substring-IsSound src limit seg.payload (m - 1) seg.header.fin r.reassembler f i,
    ))

-- After the end of the stream a segment without SYN is ignored.
pub segment_received_closed :
    (seg : TcpSegment) (r : TcpReceiver)
    → seg.header.syn ≡ false
    → ByteStream.input_ended (stream_out r) ≡ true
    → segment_received seg r ≡ r
unfolding segment_received note_syn ackno receive_payload
segment_received_closed seg r e h = ground arith
