-- ===== src/TcpConnection.antt =====
-- libsponge/tcp_connection.hh and tcp_connection.cc. Each method returns the new connection.
pub mod Lifecycle
pub mod Output
pub mod Feeding
pub mod Heard
pub mod Honest
use computer_network_labs.ByteStream
use computer_network_labs.WrappingInts.{WrappingInt32}
use computer_network_labs.TcpConfig.{TcpConfig, max_retx_attempts}
use computer_network_labs.TcpHeader.{default_header}
use computer_network_labs.TcpSegment.{TcpSegment, length_in_sequence_space}
use computer_network_labs.TcpReceiver
use computer_network_labs.TcpReceiver.{TcpReceiver, ackno, window_size, stream_out}
use computer_network_labs.TcpSender
use computer_network_labs.TcpSender.{TcpSender, ack_received, send_empty_segment, fill_window}
use computer_network_labs.Base.{
  ltb, leb, ◌==◌, if◌then◌else◌, add64, ℕ, ◌*◌, ◌%◌, ◌^◌, Bool, true, false, not, ◌&&◌, ◌||◌,
  Option, none, some, List, [], ◌∷◌, ◌++◌,
}

pub record TcpConnection : Type 0 where
  pub cfg : TcpConfig
  pub receiver : TcpReceiver
  pub sender : TcpSender
  pub segments_out : List TcpSegment
  pub linger_after_streams_finish : Bool
  pub time_since_last_segment_received : ℕ
  pub active : Bool

-- The memories are those of the two streams, and `random` what `random_device` returns.
unfoldable pub init : (ℕ → ℕ) → (ℕ → ℕ) → WrappingInt32 → TcpConfig → TcpConnection
init memory_in memory_out random cfg = record {
  cfg = cfg;
  receiver = TcpReceiver.init memory_in cfg.recv_capacity;
  sender = TcpSender.init memory_out cfg.send_capacity cfg.rt_timeout cfg.fixed_isn random;
  segments_out = [];
  linger_after_streams_finish = true;
  time_since_last_segment_received = 0;
  active = true;
}

unfoldable pub remaining_outbound_capacity : TcpConnection → ℕ
remaining_outbound_capacity c = ByteStream.remaining_capacity c.sender.stream

unfoldable pub bytes_in_flight : TcpConnection → ℕ
bytes_in_flight c = c.sender.bytes_in_flight

unfoldable pub unassembled_bytes : TcpConnection → ℕ
unassembled_bytes c = TcpReceiver.unassembled_bytes c.receiver

-- The acknowledgment and the window that a segment is sent with, once there is one. The window is
-- converted to `uint16_t`.
unfoldable pub stamp : TcpReceiver → TcpSegment → TcpSegment
stamp r seg = elim (ackno r) [
  | none ↦ seg
  | some number ↦ record seg {
    header = record (seg.header) { ack = true; ackno = number; win = window_size r % 2 ^ 16 };
  }
]

-- The loop of `_send_data`: what the sender has queued, in order.
unfoldable pub stamp_all : TcpReceiver → List TcpSegment → List TcpSegment
stamp_all r [] = []
stamp_all r (seg ∷ segs) = stamp r seg ∷ stamp_all r segs

unfoldable pub drain : TcpConnection → TcpConnection
drain c = record c {
  sender = record (c.sender) { segments_out = [] };
  segments_out = c.segments_out ++ stamp_all c.receiver c.sender.segments_out;
}

-- The end of `_send_data`: whether the connection is over.
unfoldable pub check_finished : TcpConnection → TcpConnection
check_finished c =
    if not (ByteStream.input_ended (stream_out c.receiver))
    then c
    else if not (ByteStream.eof c.sender.stream)
    then record c { linger_after_streams_finish = false }
    else if c.sender.bytes_in_flight == 0
        && (not c.linger_after_streams_finish
            || leb (10 * c.cfg.rt_timeout) c.time_since_last_segment_received)
    then record c { active = false }
    else c

unfoldable pub send_data : TcpConnection → TcpConnection
send_data c = check_finished (drain c)

-- `set_error` on both streams, and `active_ = false`.
unfoldable pub abort : TcpConnection → TcpConnection
abort c = record c {
  receiver = record (c.receiver) {
    reassembler = record (c.receiver.reassembler) {
      output = ByteStream.set_error (stream_out c.receiver);
    };
  };
  sender = record (c.sender) { stream = ByteStream.set_error c.sender.stream };
  active = false;
}

abbrev pub rst_segment : TcpSegment
rst_segment = record { header = record default_header { rst = true }; payload = [] }

unfoldable pub reset_connection : TcpConnection → TcpConnection
reset_connection c = abort (record c { segments_out = c.segments_out ++ (rst_segment ∷ []) })

unfoldable pub connect : TcpConnection → TcpConnection
connect c = send_data (record c { sender = fill_window c.sender })

-- `if (data.empty()) return 0;`
unfoldable pub write : List ℕ → TcpConnection → ℕ × TcpConnection
write [] c = (0, c)
write (b ∷ bytes) c =
    let (size, stream) = ByteStream.write c.sender.stream (b ∷ bytes) in
    (size, send_data (record c { sender = fill_window (record (c.sender) { stream = stream }) }))

unfoldable pub end_input_stream : TcpConnection → TcpConnection
end_input_stream c = send_data (record c {
  sender = fill_window (record (c.sender) { stream = ByteStream.end_input c.sender.stream });
})

unfoldable pub tick : ℕ → TcpConnection → TcpConnection
tick ms c =
    if not c.active
    then c
    else let c' = record c {
      time_since_last_segment_received = add64 c.time_since_last_segment_received ms;
      sender = TcpSender.tick ms c.sender;
    } in
      if ltb max_retx_attempts (TcpSender.consecutive_retransmissions c'.sender)
      then reset_connection c'
      else send_data c'

-- `_sender.ack_received(seg.header().ackno, seg.header().win)`
unfoldable pub sender_ack : TcpSegment → TcpConnection → TcpConnection
sender_ack seg c = record c { sender = ack_received seg.header.ackno seg.header.win c.sender }

-- `_receiver.segment_received(seg)`
unfoldable pub receiver_segment : TcpSegment → TcpConnection → TcpConnection
receiver_segment seg c = record c { receiver = TcpReceiver.segment_received seg c.receiver }

unfoldable pub sender_empty : TcpConnection → TcpConnection
sender_empty c = record c { sender = send_empty_segment c.sender }

unfoldable pub sender_fill : TcpConnection → TcpConnection
sender_fill c = record c { sender = fill_window c.sender }

-- The states that the chain of tests in `segment_received` tells apart.
pub data Phase : Type 0 where
  listen syn_sent syn_rcvd established fin_wait_1 fin_wait_2 time_wait other : Phase

unfoldable pub has_value : Option WrappingInt32 → Bool
has_value none = false
has_value (some x) = true

-- The tests, in their order.
unfoldable pub phase : TcpConnection → Phase
phase c =
    let next = c.sender.next_seqno_absolute in
    let flight = c.sender.bytes_in_flight in
    let acked = has_value (ackno c.receiver) in
    let ended = ByteStream.input_ended (stream_out c.receiver) in
    let out_eof = ByteStream.eof c.sender.stream in
    let all_sent = next == add64 (ByteStream.bytes_written c.sender.stream) 2 in
    if next == 0
    then listen
    else if (next == flight) && not acked
    then syn_sent
    else if (next == flight) && acked && not ended
    then syn_rcvd
    else if ltb flight next && not out_eof
    then established
    else if all_sent && ltb 0 flight && out_eof && not ended
    then fin_wait_1
    else if all_sent && (flight == 0) && out_eof && not ended
    then fin_wait_2
    else if all_sent && (flight == 0) && out_eof && ended
    then time_wait
    else other

-- The body of each branch.
unfoldable pub receive : Phase → TcpSegment → TcpConnection → TcpConnection
receive listen seg c = if seg.header.syn then connect (receiver_segment seg c) else c
receive syn_sent seg c =
    if seg.header.syn && seg.header.ack
    then send_data (sender_empty (receiver_segment seg (sender_ack seg c)))
    else if seg.header.syn && not seg.header.ack
    then send_data (sender_empty (receiver_segment seg c))
    else c
receive syn_rcvd seg c = receiver_segment seg (sender_ack seg c)
receive established seg c =
    let c' = receiver_segment seg (sender_ack seg c) in
    let answered = if ltb 0 (length_in_sequence_space seg) then sender_empty c' else c' in
    send_data (sender_fill answered)
receive fin_wait_1 seg c =
    if seg.header.fin
    then send_data (sender_empty (receiver_segment seg (sender_ack seg c)))
    else if seg.header.ack
    then send_data (receiver_segment seg (sender_ack seg c))
    else c
receive fin_wait_2 seg c = send_data (sender_empty (receiver_segment seg (sender_ack seg c)))
receive time_wait seg c =
    if seg.header.fin then send_data (sender_empty (receiver_segment seg (sender_ack seg c))) else c
receive other seg c = send_data (sender_fill (receiver_segment seg (sender_ack seg c)))

unfoldable pub segment_received : TcpSegment → TcpConnection → TcpConnection
segment_received seg c =
    if not c.active
    then c
    else let c' = record c { time_since_last_segment_received = 0 } in
      if seg.header.rst then abort c' else receive (phase c') seg c'
