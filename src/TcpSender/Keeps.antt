-- ===== src/TcpSender/Keeps.antt =====
-- tcp_sender.cc: the sender only reads its stream. What has been written, whether it has ended and
-- its capacity stay.
use computer_network_labs.ByteStream
use computer_network_labs.ByteStream.{ByteStream}
use computer_network_labs.Base.{sub64, ℕ, zero, suc, ◌≡◌, refl, ◌∙◌, List, [], ◌∷◌, arith}
use computer_network_labs.WrappingInts.{WrappingInt32, offset}
use computer_network_labs.TcpSender.{
  next_seqno, transmit, window_or_one, data_segment, read_payload, data_loop, data_fuel, send_syn,
  send_data, send_fin, fill_rest, fill_window, acked_keys, note_ack, restart, ack_received,
  TcpSender,
}

pub record Keeps (s q : ByteStream) : Type 0 where
  pub written : q.write_cnt ≡ s.write_cnt
  pub ended : q.is_end ≡ s.is_end
  pub room : q.capacity ≡ s.capacity

pub Keeps-refl : (s : ByteStream) → Keeps s s
Keeps-refl s = record { written = refl; ended = refl; room = refl }

pub Keeps-trans : {s q t : ByteStream} → Keeps s q → Keeps q t → Keeps s t
Keeps-trans a b = record {
  written = b.written ∙ a.written;
  ended = b.ended ∙ a.ended;
  room = b.room ∙ a.room;
}

read_payload-Keeps : (w : ℕ) (s : TcpSender) → Keeps s.stream (read_payload w s).1.stream
unfolding read_payload ByteStream.read
read_payload-Keeps w s = record { written = refl; ended = refl; room = refl }

data_loop-Keeps :
    (fuel : ℕ) (bytes : List ℕ) (w : ℕ) (s : TcpSender)
    → Keeps s.stream (data_loop fuel bytes w s).stream
unfolding data_loop transmit
data_loop-Keeps zero bytes w s = Keeps-refl s.stream
data_loop-Keeps (suc fuel) [] w s = Keeps-refl s.stream
data_loop-Keeps (suc fuel) (b ∷ bytes) w s =
    let (seg, left) = data_segment (b ∷ bytes) w s in
    Keeps-trans (read_payload-Keeps left (transmit seg s)) (
      data_loop-Keeps fuel (read_payload left (transmit seg s)).0 left
        (read_payload left (transmit seg s)).1)

send_data-Keeps : (s : TcpSender) → Keeps s.stream (send_data s).stream
unfolding send_data
send_data-Keeps s =
    let w = sub64 (window_or_one s.peer_windows_size) s.bytes_in_flight in
    Keeps-trans (read_payload-Keeps w s)
      (data_loop-Keeps (data_fuel s) (read_payload w s).0 w (read_payload w s).1)

send_syn-Keeps : (s : TcpSender) → Keeps s.stream (send_syn s).stream
unfolding send_syn transmit
send_syn-Keeps s = ground arith

send_fin-Keeps : (s : TcpSender) → Keeps s.stream (send_fin s).stream
unfolding send_fin transmit
send_fin-Keeps s = ground arith

pub fill_window-Keeps : (s : TcpSender) → Keeps s.stream (fill_window s).stream
unfolding fill_window fill_rest
fill_window-Keeps s = ground (
  arith,
  send_syn-Keeps s,
  send_fin-Keeps (send_syn s),
  send_data-Keeps (send_syn s),
  send_fin-Keeps (send_data (send_syn s)),
)

pub ack_received-Keeps :
    (ackno : WrappingInt32) (window : ℕ) (s : TcpSender)
    → Keeps s.stream (ack_received ackno window s).stream
unfolding ack_received note_ack restart
ack_received-Keeps ackno window s =
    let acked = acked_keys ackno s.isn s.segments_cache in
    ground (
      arith,
      fill_window-Keeps (restart (offset (next_seqno s) ackno) window (note_ack acked window s)),
    )
