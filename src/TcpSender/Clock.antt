-- ===== src/TcpSender/Clock.antt =====
-- tcp_sender.cc: sending leaves the retransmission timer and its back-off alone.
use computer_network_labs.Base.{sub64, ℕ, zero, suc, ◌≡◌, refl, ◌∙◌, List, [], ◌∷◌, arith}
use computer_network_labs.TcpSender.{
  transmit, window_or_one, data_segment, read_payload, data_loop, data_fuel, send_syn, send_data,
  send_fin, fill_rest, fill_window, TcpSender,
}

-- The time since the timer was started, the attempts, and the timeout.
pub record Clock (time retx_times timeout : ℕ) (q : TcpSender) : Type 0 where
  pub running : q.time ≡ time
  pub attempts : q.retx_times ≡ retx_times
  pub limit : q.initial_retransmission_timeout ≡ timeout

-- The clock of `q` is that of `s`.
abbrev pub SameClock : TcpSender → TcpSender → Type 0
SameClock s q = Clock s.time s.retx_times s.initial_retransmission_timeout q

SameClock-trans : (s q t : TcpSender) → SameClock s q → SameClock q t → SameClock s t
SameClock-trans s q t a b = record {
  running = b.running ∙ a.running;
  attempts = b.attempts ∙ a.attempts;
  limit = b.limit ∙ a.limit;
}

data_loop-Clock :
    (fuel : ℕ) (bytes : List ℕ) (w : ℕ) (s : TcpSender) → SameClock s (data_loop fuel bytes w s)
unfolding data_loop transmit read_payload
data_loop-Clock zero bytes w s = record { running = refl; attempts = refl; limit = refl }
data_loop-Clock (suc fuel) [] w s = record { running = refl; attempts = refl; limit = refl }
data_loop-Clock (suc fuel) (b ∷ bytes) w s =
    let (seg, left) = data_segment (b ∷ bytes) w s in
    let next = read_payload left (transmit seg s) in data_loop-Clock fuel next.0 left next.1

send_data-Clock : (s : TcpSender) → SameClock s (send_data s)
unfolding send_data read_payload
send_data-Clock s =
    let w = sub64 (window_or_one s.peer_windows_size) s.bytes_in_flight in
    data_loop-Clock (data_fuel s) (read_payload w s).0 w (read_payload w s).1

send_syn-Clock : (s : TcpSender) → SameClock s (send_syn s)
unfolding send_syn transmit
send_syn-Clock s = ground arith

send_fin-Clock : (s : TcpSender) → SameClock s (send_fin s)
unfolding send_fin transmit
send_fin-Clock s = ground arith

fill_rest-Clock : (s : TcpSender) → SameClock s (fill_rest s)
unfolding fill_rest
fill_rest-Clock s =
    ground (arith, send_fin-Clock s, send_data-Clock s, send_fin-Clock (send_data s))

pub fill_window-Clock : (s : TcpSender) → SameClock s (fill_window s)
unfolding fill_window
fill_window-Clock s =
    SameClock-trans s (send_syn s) (fill_window s) (send_syn-Clock s) (fill_rest-Clock (send_syn s))
