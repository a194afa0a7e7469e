-- ===== src/TcpState/Official.antt =====
-- tcp_state.cc against tcp_connection.cc: the official states, and the tests of `segment_received`.
use computer_network_labs.ByteStream
use computer_network_labs.TcpSegment.{TcpSegment}
use computer_network_labs.TcpConnection.Lifecycle.{Input, segment, feed, segment_received-rst}
use computer_network_labs.ByteStream
use computer_network_labs.ByteStream
use computer_network_labs.TcpState.{
  of_state, receiver_summary, sender_summary, summarize, state, State, state_listen, state_syn_rcvd,
  state_syn_sent, state_last_ack, state_fin_wait_1, state_fin_wait_2, state_closing,
  state_time_wait, state_reset,
}
use computer_network_labs.TcpConnection.{
  has_value, phase, TcpConnection, Phase, listen, syn_sent, syn_rcvd, fin_wait_1, fin_wait_2,
  time_wait, other,
}
use computer_network_labs.Base.{◌+◌, ◌^◌, ◌≤◌, ◌<◌, ◌≡◌, true, Option, none, some, List, ◌∷◌, arith}

-- No two official states have the same summary.
pub of_state_injective : (s t : State) → of_state s ≡ of_state t → s ≡ t
unfolding of_state
of_state_injective s t e = ground arith

-- The branch of `segment_received` that each official state of an open connection takes, where the state determines it.
abbrev pub branch : State → Option Phase
branch state_listen = some listen
branch state_syn_sent = some syn_sent
branch state_syn_rcvd = some syn_rcvd
branch state_fin_wait_1 = some fin_wait_1
branch state_fin_wait_2 = some fin_wait_2
branch state_time_wait = some time_wait
branch state_closing = some other
branch state_last_ack = some other
branch _ = none

-- When the summary of a connection is that of an official state other than ESTABLISHED, CLOSE_WAIT,
-- CLOSED and RESET, while no more is in flight than was numbered and no more numbered than the
-- bytes written, SYN and FIN, a total of 64 bits, the tests of `segment_received` choose the branch
-- of that state; for CLOSING and LAST_ACK, the last one.
pub phase-of_state :
    (s : State) (p : Phase) (c : TcpConnection)
    → state c ≡ of_state s
    → branch s ≡ some p
    → c.sender.bytes_in_flight ≤ c.sender.next_seqno_absolute
    → c.sender.next_seqno_absolute ≤ ByteStream.bytes_written c.sender.stream + 2
    → ByteStream.bytes_written c.sender.stream + 2 < 2 ^ 64
    → phase c ≡ p
unfolding state of_state summarize sender_summary receiver_summary phase has_value
phase-of_state state_listen p c e b f n w = ground arith
phase-of_state state_syn_sent p c e b f n w = ground arith
phase-of_state state_syn_rcvd p c e b f n w = ground arith
phase-of_state state_fin_wait_1 p c e b f n w = ground arith
phase-of_state state_fin_wait_2 p c e b f n w = ground arith
phase-of_state state_time_wait p c e b f n w = ground arith
phase-of_state state_closing p c e b f n w = ground arith
phase-of_state state_last_ack p c e b f n w = ground arith
phase-of_state _ p c e b f n w = ground arith

-- After a segment with RST on an active connection, whatever follows, the summary of the connection
-- is that of the official state RESET.
pub state-feed_rst :
    (seg : TcpSegment) (inputs : List Input) (c : TcpConnection)
    → c.active ≡ true
    → seg.header.rst ≡ true
    → state (feed (segment seg ∷ inputs) c) ≡ of_state state_reset
unfolding state of_state summarize sender_summary receiver_summary
state-feed_rst seg inputs c a e = ground (arith, segment_received-rst seg inputs c a e)
