-- ===== src/Witnesses/Connections.antt =====
-- Instances for tcp_connection.cc and tcp_receiver.cc.
use computer_network_labs.TcpConnection.{
  TcpConnection, init, tick, send_data, rst_segment, drain, check_finished,
}
use computer_network_labs.ByteStream
use computer_network_labs.ByteStream.{ByteStream}
use computer_network_labs.WrappingInts.{wrap}
use computer_network_labs.TcpConfig.{default_config}
use computer_network_labs.TcpHeader.{default_header}
use computer_network_labs.TcpSegment.{TcpSegment, length_in_sequence_space}
use computer_network_labs.Reassembler
use computer_network_labs.TcpReceiver
use computer_network_labs.TcpReceiver.{TcpReceiver, stream_out}
use computer_network_labs.TcpReceiver.Laws.{Tracks, Numbered, received, segment_received-eq}
use computer_network_labs.TcpSender.{syn_segment}
use computer_network_labs.TcpConnection.{TcpConnection, init, tick, send_data, rst_segment}
use computer_network_labs.TcpConnection.Output.{Written, write-Written}
use computer_network_labs.TcpConnection.Lifecycle.{tick-last_attempt}
use computer_network_labs.Witnesses.Streams.{memory}
use computer_network_labs.Witnesses.Senders.{ready_sender, waiting_sender, ready_sender-Roomy}
use computer_network_labs.Base.{◌≡◌, refl, true, false, [], ◌∷◌, ◌++◌, arith}

-- A receiver that has seen the SYN, numbered 500.
abbrev synced_receiver : TcpReceiver
synced_receiver = record (TcpReceiver.init memory 8) { isn = 500; syn_received = true }

synced_receiver-Tracks : Tracks synced_receiver
unfolding TcpReceiver.window_size ByteStream.remaining_capacity ByteStream.buffer_size
    TcpReceiver.init Reassembler.init ByteStream.init ByteStream.input_ended
    ByteStream.bytes_written
synced_receiver-Tracks = record {
  isn_lt = omega arith;
  synced = refl;
  is_open = refl;
  checkpoint_eq = refl;
  small = omega arith;
  window_small = omega arith;
}

abbrev data_segment : TcpSegment
data_segment = record { header = record default_header { seqno = 503 }; payload = 12 ∷ 13 ∷ [] }

data_segment-Numbered : Numbered 3 data_segment synced_receiver
unfolding length_in_sequence_space TcpReceiver.init wrap
data_segment-Numbered = record {
  no_syn = refl;
  seqno_eq = refl;
  positive = omega arith;
  below = omega arith;
  above = omega arith;
  length_small = omega arith;
}

segment_received-eq_example :
    TcpReceiver.segment_received data_segment synced_receiver
    ≡ received 3 data_segment synced_receiver
segment_received-eq_example =
    segment_received-eq 3 data_segment synced_receiver synced_receiver-Tracks data_segment-Numbered

abbrev opened : TcpConnection
opened = init memory memory 1000 default_config

abbrev established : TcpConnection
established = record opened { sender = ready_sender; receiver = synced_receiver }

write-Written_example : Written (68 ∷ 69 ∷ []) established
write-Written_example =
    write-Written (68 ∷ 69 ∷ []) established ready_sender-Roomy refl (omega arith)

abbrev reset_segment : TcpSegment
reset_segment = rst_segment

opened_active : established.active ≡ true
unfolding init
opened_active = refl

-- Eight attempts have been made.
abbrev tired : TcpConnection
tired = record opened { sender = record waiting_sender { retx_times = 8 } }

tired_active : tired.active ≡ true
unfolding init
tired_active = refl

tick-last_attempt_example :
    let q = tick 600 tired in
    (q.active ≡ false)
    × (q.segments_out ≡ tired.segments_out ++ (rst_segment ∷ []))
    × (ByteStream.error (stream_out q.receiver) ≡ true)
    × (ByteStream.error q.sender.stream ≡ true)
tick-last_attempt_example =
    tick-last_attempt 600 1 (syn_segment 1000) [] tired tired_active refl (omega arith)
      (omega arith) (omega arith) refl (omega arith)

-- Both streams have ended and all is acknowledged.
abbrev finished : TcpConnection
finished = record established {
  linger_after_streams_finish = false;
  receiver = record synced_receiver {
    reassembler = record (synced_receiver.reassembler) {
      output = record (stream_out synced_receiver) { is_end = true };
    };
  };
  sender = record ready_sender {
    stream = record (ready_sender.stream) { is_end = true; read_cnt = 3; end = 19 };
  };
}

finished_active : finished.active ≡ true
unfolding init
finished_active = refl

finished_over : (send_data finished).active ≡ false
unfolding send_data drain check_finished ByteStream.eof ByteStream.buffer_empty
    ByteStream.buffer_size ByteStream.input_ended
finished_over = refl
