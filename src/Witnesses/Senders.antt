-- ===== src/Witnesses/Senders.antt =====
-- Instances for tcp_sender.cc.
use computer_network_labs.WrappingInts.{wrap, unwrap, offset}
use computer_network_labs.ByteStream.{ByteStream}
use computer_network_labs.ByteStream.Invariant.{IsValid}
use computer_network_labs.ByteStream.Refine.{contents}
use computer_network_labs.TcpSender.Window.{Adds, Roomy, fill_window-Adds, send_data_fills}
use computer_network_labs.TcpSender.Acks.{ack_received-Adds, settled, AllNear}
use computer_network_labs.TcpSender.Timer.{Expires}
use computer_network_labs.Base.{◌+◌, ◌*◌, ◌^◌, ◌≡◌, refl, ◌⊎◌, false, [], ◌∷◌, arith}
use computer_network_labs.TcpSender.Clock.{Clock}
use computer_network_labs.TcpSender.{
  syn_segment, window_or_one, send_data, fill_window, acked_keys, is_empty, ack_received, TcpSender,
}

-- A stream that holds the bytes 65, 66, 67.
abbrev pub stream : ByteStream
stream = record {
  cells = λ i. 65 + i;
  is_end = false;
  begin = 3;
  end = 16;
  write_cnt = 3;
  read_cnt = 0;
  capacity = 16;
  has_error = false;
}

pub stream-IsValid : IsValid stream
stream-IsValid = ground arith

-- The SYN is acknowledged and three bytes wait.
abbrev pub ready_sender : TcpSender
ready_sender = record {
  isn = 1000;
  segments_out = [];
  initial_retransmission_timeout = 1000;
  stream = stream;
  next_seqno_absolute = 1;
  segments_cache = [];
  default_initial_retransmission_timeout = 1000;
  windows_size = 1;
  peer_windows_size = 2;
  bytes_in_flight = 0;
  time = 0;
  retx_times = 0;
}

-- The SYN is sent and not yet acknowledged.
abbrev pub waiting_sender : TcpSender
waiting_sender = record ready_sender {
  segments_cache = (1, syn_segment 1000) ∷ [];
  bytes_in_flight = 1;
  time = 500;
  peer_windows_size = 1;
}

pub ready_sender-Roomy : Roomy (3 * 2 ^ 16) ready_sender
ready_sender-Roomy = record {
  stream_valid = stream-IsValid;
  next_small = omega arith;
  flight_le = omega arith;
  peer_lt = omega arith;
}

ready_sender-Roomy_less : Roomy (2 ^ 16) ready_sender
ready_sender-Roomy_less = record {
  stream_valid = stream-IsValid;
  next_small = omega arith;
  flight_le = omega arith;
  peer_lt = omega arith;
}

waiting_sender-Roomy : Roomy (3 * 2 ^ 16) waiting_sender
waiting_sender-Roomy = record {
  stream_valid = stream-IsValid;
  next_small = omega arith;
  flight_le = omega arith;
  peer_lt = omega arith;
}

waiting_sender-AllNear : AllNear 1 waiting_sender.segments_cache
waiting_sender-AllNear = ground arith

fill_window-Adds_example : Adds ready_sender (fill_window ready_sender)
fill_window-Adds_example = fill_window-Adds ready_sender ready_sender-Roomy

send_data_fills_example :
    ((send_data ready_sender).bytes_in_flight ≡ window_or_one 2)
    ⊎ (contents (send_data ready_sender).stream ≡ [])
send_data_fills_example = send_data_fills ready_sender ready_sender-Roomy_less (omega arith)

first_acked : is_empty (acked_keys (wrap 1 1000) 1000 waiting_sender.segments_cache) ≡ false
unfolding acked_keys wrap unwrap offset is_empty
first_acked = refl

ack_received-Adds_example :
    (ack_received (wrap 1 1000) 10 waiting_sender ≡ fill_window (settled 1 10 waiting_sender))
    × Adds (settled 1 10 waiting_sender) (ack_received (wrap 1 1000) 10 waiting_sender)
    × Clock 0 0 waiting_sender.default_initial_retransmission_timeout
        (ack_received (wrap 1 1000) 10 waiting_sender)
ack_received-Adds_example =
    ack_received-Adds 1 10 waiting_sender waiting_sender-Roomy (omega arith) waiting_sender-AllNear
      (omega arith) (omega arith) (omega arith) first_acked

still_running : ¬ Expires 400 waiting_sender
still_running = ground arith
