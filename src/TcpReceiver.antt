-- ===== src/TcpReceiver.antt =====
-- libsponge/tcp_receiver.hh and tcp_receiver.cc.
pub mod Laws
pub mod Heard
use computer_network_labs.ByteStream
use computer_network_labs.ByteStream.{ByteStream}
use computer_network_labs.Reassembler
use computer_network_labs.Reassembler.{StreamReassembler, push_substring}
use computer_network_labs.WrappingInts.{WrappingInt32, wrap, unwrap}
use computer_network_labs.TcpSegment.{TcpSegment, length_in_sequence_space}
use computer_network_labs.Base.{
  leb, if◌then◌else◌, add64, sub64, ℕ, Bool, true, false, not, ◌&&◌, ◌||◌, Option, none, some,
}

pub record TcpReceiver : Type 0 where
  pub reassembler : StreamReassembler
  pub capacity : ℕ
  pub isn : WrappingInt32
  pub syn_received : Bool
  pub checkpoint : ℕ

-- The memory is that of the reassembler's stream.
unfoldable pub init : (ℕ → ℕ) → ℕ → TcpReceiver
unfolding Reassembler.init
init memory capacity = record {
  reassembler = Reassembler.init memory capacity;
  capacity = capacity;
  isn = 0;
  syn_received = false;
  checkpoint = 0;
}

abbrev pub stream_out : TcpReceiver → ByteStream
stream_out r = r.reassembler.output

unfoldable pub unassembled_bytes : TcpReceiver → ℕ
unfolding Reassembler.unassembled_bytes
unassembled_bytes r = Reassembler.unassembled_bytes r.reassembler

-- The absolute number of the next byte expected: one for SYN, one for FIN once the input has ended.
unfoldable pub next_write : TcpReceiver → ℕ
next_write r =
    let next = add64 (ByteStream.bytes_written (stream_out r)) 1 in
    if ByteStream.input_ended (stream_out r) then add64 next 1 else next

unfoldable pub ackno : TcpReceiver → Option WrappingInt32
unfolding next_write
ackno r = if not r.syn_received then none else some (wrap (next_write r) r.isn)

unfoldable pub window_size : TcpReceiver → ℕ
window_size r = ByteStream.remaining_capacity (stream_out r)

-- The first SYN sets the initial sequence number.
unfoldable pub note_syn : TcpSegment → TcpReceiver → TcpReceiver
note_syn seg r =
    if seg.header.syn && not r.syn_received
    then record r { syn_received = true; isn = seg.header.seqno }
    else r

-- Whether the segment lies outside the window that begins at `abs_ackno`.
unfoldable pub outside_window : ℕ → ℕ → ℕ → ℕ → Bool
outside_window stream_index len abs_ackno window =
    leb (add64 stream_index len) abs_ackno || leb (add64 abs_ackno window) stream_index

-- The block that pushes the payload.
unfoldable pub push_payload : TcpSegment → WrappingInt32 → TcpReceiver → TcpReceiver
push_payload seg ack r =
    let stream_index = unwrap seg.header.seqno r.isn r.checkpoint in
    let abs_ackno = unwrap ack r.isn r.checkpoint in
    if outside_window stream_index (length_in_sequence_space seg) abs_ackno (window_size r)
    then r
    else let index = if not seg.header.syn then sub64 stream_index 1 else stream_index in
      let pushed = push_substring seg.payload index seg.header.fin r.reassembler in
      record r { reassembler = pushed; checkpoint = ByteStream.bytes_written (pushed.output) }

unfoldable pub receive_payload : TcpSegment → Option WrappingInt32 → TcpReceiver → TcpReceiver
receive_payload seg none r = r
receive_payload seg (some ack) r =
    if not (ByteStream.input_ended (stream_out r)) then push_payload seg ack r else r

unfoldable pub segment_received : TcpSegment → TcpReceiver → TcpReceiver
segment_received seg r = let r' = note_syn seg r in receive_payload seg (ackno r') r'
