-- ===== src/TcpConnection/Lifecycle.antt =====
-- tcp_connection.cc: how a connection opens and how it ends.
use computer_network_labs.Reassembler
use computer_network_labs.TcpReceiver
use computer_network_labs.TcpReceiver.{ackno, stream_out}
use computer_network_labs.Reassembler
use computer_network_labs.TcpReceiver
use computer_network_labs.TcpConnection.Output.{send_data_fields, send_data_open}
use computer_network_labs.TcpConnection.Output.{send_data_fields}
use computer_network_labs.TcpSender
use computer_network_labs.TcpSegment.{length_in_sequence_space}
use computer_network_labs.TcpSender.{TcpSender, fill_window, syn_segment, transmit}
use computer_network_labs.TcpSender
use computer_network_labs.TcpSender.{TcpSender, fill_window, syn_segment}
use computer_network_labs.ByteStream
use computer_network_labs.ByteStream.{ByteStream}
use computer_network_labs.WrappingInts.{WrappingInt32}
use computer_network_labs.TcpConfig.{TcpConfig, max_retx_attempts}
use computer_network_labs.TcpSegment.{TcpSegment}
use computer_network_labs.TcpReceiver.{stream_out}
use computer_network_labs.TcpSender
use computer_network_labs.TcpSender.Timer.{tick-expired}
use computer_network_labs.Base.{
  ℕ, ◌+◌, ◌^◌, ◌≤◌, ◌<◌, ◌≡◌, refl, ap, ◌∙◌, true, false, Option, List, [], ◌∷◌, ◌++◌, arith,
}
use computer_network_labs.TcpConnection.{
  init, stamp, stamp_all, abort, rst_segment, reset_connection, connect, tick, segment_received,
  TcpConnection,
}

-- What reaches a connection from outside: a segment, or the passing of time.
pub data Input : Type 0 where
  segment : TcpSegment → Input
  elapsed : ℕ → Input

unfoldable pub feed : List Input → TcpConnection → TcpConnection
feed [] c = c
feed (segment seg ∷ inputs) c = feed inputs (segment_received seg c)
feed (elapsed ms ∷ inputs) c = feed inputs (tick ms c)

-- A connection that is not active takes no notice of anything.
feed_inactive : (inputs : List Input) (c : TcpConnection) → c.active ≡ false → feed inputs c ≡ c
unfolding feed segment_received tick
feed_inactive [] c h = refl
feed_inactive (segment seg ∷ inputs) c h = ground (arith, feed_inactive inputs c h)
feed_inactive (elapsed ms ∷ inputs) c h = ground (arith, feed_inactive inputs c h)

segment_received-eq-abort :
    (seg : TcpSegment) (c : TcpConnection)
    → c.active ≡ true
    → seg.header.rst ≡ true
    → segment_received seg c ≡ abort (record c { time_since_last_segment_received = 0 })
unfolding segment_received
segment_received-eq-abort seg c a e = ground arith

feed-rst :
    (seg : TcpSegment) (inputs : List Input) (c : TcpConnection)
    → c.active ≡ true
    → seg.header.rst ≡ true
    → feed (segment seg ∷ inputs) c ≡ abort (record c { time_since_last_segment_received = 0 })
unfolding feed abort
feed-rst seg inputs c a e =
    ap (feed inputs) (segment_received-eq-abort seg c a e) ∙ feed_inactive inputs _ refl

-- A segment with RST on an active connection marks both streams with an error, ends the connection
-- and queues nothing; and nothing that comes after it, segments or time, changes any of that.
pub segment_received-rst :
    (seg : TcpSegment) (inputs : List Input) (c : TcpConnection)
    → c.active ≡ true
    → seg.header.rst ≡ true
    → let q = feed (segment seg ∷ inputs) c in
      (q.active ≡ false)
      × (ByteStream.error (stream_out q.receiver) ≡ true)
      × (ByteStream.error q.sender.stream ≡ true)
      × (q.segments_out ≡ c.segments_out)
      × (q.sender.segments_out ≡ c.sender.segments_out)
unfolding abort ByteStream.set_error ByteStream.error
segment_received-rst seg inputs c a e =
    rw (feed-rst seg inputs c a e) (refl, refl, refl, refl, refl)

-- On an active connection whose sender has segments cached, has used its eight attempts and has a
-- peer whose window is not 0, a `tick` in which the timer runs out (the time in 64 bits, the
-- timeout below 2 ^ 31) queues a RST segment and no other, marks both streams with an error and
-- ends the connection.
pub tick-last_attempt :
    (ms k : ℕ) (seg : TcpSegment) (cache : List (ℕ × TcpSegment)) (c : TcpConnection)
    → c.active ≡ true
    → c.sender.segments_cache ≡ (k, seg) ∷ cache
    → c.sender.time + ms < 2 ^ 64
    → c.sender.initial_retransmission_timeout < 2 ^ 31
    → c.sender.initial_retransmission_timeout ≤ c.sender.time + ms
    → c.sender.retx_times ≡ max_retx_attempts
    → 1 ≤ c.sender.peer_windows_size
    → let q = tick ms c in
      (q.active ≡ false)
      × (q.segments_out ≡ c.segments_out ++ (rst_segment ∷ []))
      × (ByteStream.error (stream_out q.receiver) ≡ true)
      × (ByteStream.error q.sender.stream ≡ true)
unfolding tick reset_connection abort ByteStream.set_error ByteStream.error
    TcpSender.consecutive_retransmissions
tick-last_attempt ms k seg cache c a e h t x r p =
    ground (arith, tick-expired ms k seg cache c.sender e h t)

fill_window-init :
    (memory : ℕ → ℕ) (capacity retx_timeout : ℕ) (fixed_isn : Option WrappingInt32)
    (random : WrappingInt32)
    → let s = TcpSender.init memory capacity retx_timeout fixed_isn random in
      fill_window s ≡ transmit (syn_segment s.isn) s
unfolding TcpSender.init TcpSender.fill_window TcpSender.send_syn TcpSender.fill_rest
    TcpSender.may_send_data TcpSender.send_fin TcpSender.fin_due TcpSender.transmit ByteStream.init
    ByteStream.eof ByteStream.bytes_written length_in_sequence_space
fill_window-init memory capacity retx_timeout fixed_isn random = ground arith

connect-fresh :
    (seg : TcpSegment) (c : TcpConnection)
    → c.segments_out ≡ []
    → c.sender.segments_out ≡ []
    → fill_window c.sender ≡ transmit seg c.sender
    → c.receiver.syn_received ≡ false
    → ByteStream.input_ended (stream_out c.receiver) ≡ false
    → c.active ≡ true
    → let q = connect c in
      (q.segments_out ≡ seg ∷ [])
      × (q.sender ≡ record (transmit seg c.sender) { segments_out = [] })
      × (q.receiver ≡ c.receiver)
      × (q.active ≡ true)
unfolding connect transmit stamp_all stamp ackno
connect-fresh seg c e0 e1 e2 e3 e4 e5 =
    let opened = record c { sender = fill_window c.sender } in
    ground (arith, send_data_fields opened, send_data_open opened e4)

-- `connect` on a new connection queues exactly one segment, a SYN that carries the sender's initial
-- sequence number and no acknowledgment; the sender has counted and cached it, the receiver is
-- untouched, and the connection is active.
pub connect-init :
    (memory_in memory_out : ℕ → ℕ) (random : WrappingInt32) (cfg : TcpConfig)
    → let c = init memory_in memory_out random cfg in
      let q = connect c in
      (q.segments_out ≡ syn_segment c.sender.isn ∷ [])
      × (q.sender ≡ record (transmit (syn_segment c.sender.isn) c.sender) { segments_out = [] })
      × (q.receiver ≡ c.receiver)
      × (q.active ≡ true)
unfolding init TcpSender.init TcpReceiver.init Reassembler.init ByteStream.init
    ByteStream.input_ended
connect-init memory_in memory_out random cfg =
    let c = init memory_in memory_out random cfg in
    connect-fresh (syn_segment c.sender.isn) c refl refl
      (fill_window-init memory_out cfg.send_capacity cfg.rt_timeout cfg.fixed_isn random) refl refl
      refl
