-- ===== src/Witnesses/Sockets.antt =====
-- Instances for tcp_sponge_socket.cc.
use computer_network_labs.ByteStream
use computer_network_labs.WrappingInts
use computer_network_labs.TcpSender
use computer_network_labs.TcpReceiver
use computer_network_labs.TcpSegment
use computer_network_labs.Reassembler
use computer_network_labs.TcpConnection
use computer_network_labs.SpongeSocket
use computer_network_labs.SpongeSocket.Network
use computer_network_labs.TcpConfig.{default_config}
use computer_network_labs.SpongeSocket.Network.{
  Network, Turn, at_near, at_far, dials, gets, writes, hangs_up, reads, flushes, elapses, run,
}
use computer_network_labs.Witnesses.Streams.{memory}
use computer_network_labs.Base.{
  length, drop, ℕ, ◌≡◌, refl, ap, true, false, List, [], ◌∷◌, ◌++◌, arith,
}
use computer_network_labs.SpongeSocket.Delivery.{start, run_delivers, run_closes}

-- The handshake, the first copy of the second data segment before the first, and the rest.
abbrev history : List Turn
history =
    at_near dials
    ∷ at_near flushes
    ∷ at_far (gets 0 1 2 3)
    ∷ at_far flushes
    ∷ at_near (gets 0 1 2 3)
    ∷ at_near flushes
    ∷ at_near (writes (65 ∷ 66 ∷ []))
    ∷ at_near (writes (67 ∷ []))
    ∷ at_near flushes
    ∷ at_far (gets 3 1 2 3)
    ∷ at_far (gets 2 1 2 3)
    ∷ at_far (gets 3 1 2 3)
    ∷ at_far (reads 10)
    ∷ []

abbrev pub began : Network
began = start memory memory memory memory 1000 5000 default_config default_config history

history_bytes :
    let w = run history began in
    (w.far.shown ≡ 65 ∷ 66 ∷ 67 ∷ []) × (w.near.taken ≡ 65 ∷ 66 ∷ 67 ∷ []) × (w.far.taken ≡ [])
unfolding ByteStream.init ByteStream.buffer_size ByteStream.buffer_empty
    ByteStream.remaining_capacity ByteStream.set_cell ByteStream.write_loop ByteStream.rounds
    ByteStream.write ByteStream.copy_loop ByteStream.peek_output ByteStream.pop_output
    ByteStream.read ByteStream.end_input ByteStream.set_error ByteStream.input_ended ByteStream.eof
    ByteStream.bytes_written ByteStream.bytes_read ByteStream.error WrappingInts.wrap
    WrappingInts.offset WrappingInts.advance WrappingInts.retreat WrappingInts.unwrap TcpSender.init
    TcpSender.next_seqno TcpSender.consecutive_retransmissions TcpSender.cache_segment
    TcpSender.transmit TcpSender.window_or_one TcpSender.fin_due TcpSender.data_segment
    TcpSender.read_payload TcpSender.data_loop TcpSender.send_syn TcpSender.may_send_data
    TcpSender.send_data TcpSender.send_fin TcpSender.fill_rest TcpSender.fill_window
    TcpSender.acked_keys TcpSender.erase TcpSender.erase_all TcpSender.is_empty TcpSender.note_ack
    TcpSender.restart TcpSender.ack_received TcpSender.retransmit TcpSender.tick_cached
    TcpSender.tick TcpSender.send_empty_segment TcpReceiver.init TcpReceiver.unassembled_bytes
    TcpReceiver.next_write TcpReceiver.ackno TcpReceiver.window_size TcpReceiver.note_syn
    TcpReceiver.outside_window TcpReceiver.push_payload TcpReceiver.receive_payload
    TcpReceiver.segment_received TcpSegment.length_in_sequence_space Reassembler.init
    Reassembler.erase Reassembler.erase_all Reassembler.assign Reassembler.total_size
    Reassembler.unassembled_bytes Reassembler.empty Reassembler.join_right Reassembler.join_left
    Reassembler.merge_step Reassembler.merge_loop Reassembler.start_merge Reassembler.merge_segments
    Reassembler.write_at Reassembler.assemble_step Reassembler.assemble_loop Reassembler.with_eof
    Reassembler.finish Reassembler.assemble Reassembler.write_count Reassembler.push_substring
    TcpConnection.init TcpConnection.remaining_outbound_capacity TcpConnection.bytes_in_flight
    TcpConnection.unassembled_bytes TcpConnection.stamp TcpConnection.stamp_all TcpConnection.drain
    TcpConnection.check_finished TcpConnection.send_data TcpConnection.abort
    TcpConnection.reset_connection TcpConnection.connect TcpConnection.write
    TcpConnection.end_input_stream TcpConnection.tick TcpConnection.sender_ack
    TcpConnection.receiver_segment TcpConnection.sender_empty TcpConnection.sender_fill
    TcpConnection.has_value TcpConnection.phase TcpConnection.receive TcpConnection.segment_received
    SpongeSocket.init SpongeSocket.receive SpongeSocket.wants_datagram SpongeSocket.shut_outbound
    SpongeSocket.read_outbound SpongeSocket.write_outbound SpongeSocket.take_outbound
    SpongeSocket.may_take SpongeSocket.wants_outbound SpongeSocket.hangup SpongeSocket.with_inbound
    SpongeSocket.wants_inbound SpongeSocket.inbound SpongeSocket.flush SpongeSocket.wants_flush
    SpongeSocket.elapse SpongeSocket.dial Network.readdress Network.arrival Network.happen
    Network.react Network.turn Network.run
history_bytes = (refl, refl, refl)

began_isn : (began.near.tcp.sender.isn ≡ 1000) × (began.far.tcp.sender.isn ≡ 5000)
unfolding SpongeSocket.init TcpConnection.init TcpSender.init
began_isn = (refl, refl)

run_delivers_example :
    let w = run history began in
    (w.near.failed ≡ false)
    × (w.far.failed ≡ false)
    × (w.near.taken ≡ w.far.shown ++ drop (length w.far.shown) w.near.taken)
    × (w.far.taken ≡ w.near.shown ++ drop (length w.near.shown) w.far.taken)
run_delivers_example =
    run_delivers memory memory memory memory 1000 5000 default_config default_config history
      (omega (arith, began_isn)) (omega (arith, began_isn))
      (omega (arith, ap (length {A = ℕ}) history_bytes.1))
      (omega (arith, ap (length {A = ℕ}) history_bytes.2))

-- The first application closes its end, and the FIN arrives.
abbrev closing : List Turn
closing = history ++ (at_near (writes []) ∷ at_near flushes ∷ at_far (gets 4 1 2 3) ∷ [])

closing_bytes :
    let w = run closing began in
    (w.near.taken ≡ 65 ∷ 66 ∷ 67 ∷ [])
    × (w.far.taken ≡ [])
    × (ByteStream.eof (TcpReceiver.stream_out w.far.tcp.receiver) ≡ true)
unfolding ByteStream.init ByteStream.buffer_size ByteStream.buffer_empty
    ByteStream.remaining_capacity ByteStream.set_cell ByteStream.write_loop ByteStream.rounds
    ByteStream.write ByteStream.copy_loop ByteStream.peek_output ByteStream.pop_output
    ByteStream.read ByteStream.end_input ByteStream.set_error ByteStream.input_ended ByteStream.eof
    ByteStream.bytes_written ByteStream.bytes_read ByteStream.error WrappingInts.wrap
    WrappingInts.offset WrappingInts.advance WrappingInts.retreat WrappingInts.unwrap TcpSender.init
    TcpSender.next_seqno TcpSender.consecutive_retransmissions TcpSender.cache_segment
    TcpSender.transmit TcpSender.window_or_one TcpSender.fin_due TcpSender.data_segment
    TcpSender.read_payload TcpSender.data_loop TcpSender.send_syn TcpSender.may_send_data
    TcpSender.send_data TcpSender.send_fin TcpSender.fill_rest TcpSender.fill_window
    TcpSender.acked_keys TcpSender.erase TcpSender.erase_all TcpSender.is_empty TcpSender.note_ack
    TcpSender.restart TcpSender.ack_received TcpSender.retransmit TcpSender.tick_cached
    TcpSender.tick TcpSender.send_empty_segment TcpReceiver.init TcpReceiver.unassembled_bytes
    TcpReceiver.next_write TcpReceiver.ackno TcpReceiver.window_size TcpReceiver.note_syn
    TcpReceiver.outside_window TcpReceiver.push_payload TcpReceiver.receive_payload
    TcpReceiver.segment_received TcpSegment.length_in_sequence_space Reassembler.init
    Reassembler.erase Reassembler.erase_all Reassembler.assign Reassembler.total_size
    Reassembler.unassembled_bytes Reassembler.empty Reassembler.join_right Reassembler.join_left
    Reassembler.merge_step Reassembler.merge_loop Reassembler.start_merge Reassembler.merge_segments
    Reassembler.write_at Reassembler.assemble_step Reassembler.assemble_loop Reassembler.with_eof
    Reassembler.finish Reassembler.assemble Reassembler.write_count Reassembler.push_substring
    TcpConnection.init TcpConnection.remaining_outbound_capacity TcpConnection.bytes_in_flight
    TcpConnection.unassembled_bytes TcpConnection.stamp TcpConnection.stamp_all TcpConnection.drain
    TcpConnection.check_finished TcpConnection.send_data TcpConnection.abort
    TcpConnection.reset_connection TcpConnection.connect TcpConnection.write
    TcpConnection.end_input_stream TcpConnection.tick TcpConnection.sender_ack
    TcpConnection.receiver_segment TcpConnection.sender_empty TcpConnection.sender_fill
    TcpConnection.has_value TcpConnection.phase TcpConnection.receive TcpConnection.segment_received
    SpongeSocket.init SpongeSocket.receive SpongeSocket.wants_datagram SpongeSocket.shut_outbound
    SpongeSocket.read_outbound SpongeSocket.write_outbound SpongeSocket.take_outbound
    SpongeSocket.may_take SpongeSocket.wants_outbound SpongeSocket.hangup SpongeSocket.with_inbound
    SpongeSocket.wants_inbound SpongeSocket.inbound SpongeSocket.flush SpongeSocket.wants_flush
    SpongeSocket.elapse SpongeSocket.dial Network.readdress Network.arrival Network.happen
    Network.react Network.turn Network.run
closing_bytes = (refl, refl, refl)

run_closes_example : (run closing began).far.shown ≡ (run closing began).near.taken
run_closes_example =
    run_closes memory memory memory memory 1000 5000 default_config default_config closing
      (omega (arith, began_isn)) (omega (arith, began_isn))
      (omega (arith, ap (length {A = ℕ}) closing_bytes.0))
      (omega (arith, ap (length {A = ℕ}) closing_bytes.1)) closing_bytes.2
