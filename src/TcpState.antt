-- ===== src/TcpState.antt =====
-- libsponge/tcp_helpers/tcp_state.hh and tcp_state.cc, and `state` of tcp_connection.hh. The summaries, which
-- the source keeps as strings, are enumerations with the text of each.
pub mod Official
use Prim.Native.String.{String}
use computer_network_labs.ByteStream
use computer_network_labs.TcpReceiver.{TcpReceiver, ackno, stream_out}
use computer_network_labs.TcpSender.{TcpSender}
use computer_network_labs.TcpConnection.{TcpConnection, has_value}
use computer_network_labs.Base.{ltb, ◌==◌, if◌then◌else◌, add64, Bool, true, false, not}

-- `TCPReceiverStateSummary`
pub data ReceiverSummary : Type 0 where
  receiver_error receiver_listen receiver_syn_recv receiver_fin_recv : ReceiverSummary

-- `TCPSenderStateSummary`
pub data SenderSummary : Type 0 where
  sender_error sender_closed sender_syn_sent sender_syn_acked : SenderSummary
  sender_fin_sent sender_fin_acked : SenderSummary

unfoldable pub receiver_text : ReceiverSummary → String
receiver_text receiver_error = "error (connection was reset)"
receiver_text receiver_listen = "waiting for SYN: ackno is empty"
receiver_text receiver_syn_recv = "SYN received (ackno exists), and input to stream hasn't ended"
receiver_text receiver_fin_recv = "input to stream has ended"

unfoldable pub sender_text : SenderSummary → String
sender_text sender_error = "error (connection was reset)"
sender_text sender_closed = "waiting for stream to begin (no SYN sent)"
sender_text sender_syn_sent = "stream started but nothing acknowledged"
sender_text sender_syn_acked = "stream ongoing"
sender_text sender_fin_sent = "stream finished (FIN sent) but not fully acknowledged"
sender_text sender_fin_acked = "stream finished and fully acknowledged"

-- The names of the specification of TCP.
pub data State : Type 0 where
  state_listen state_syn_rcvd state_syn_sent state_established state_close_wait state_last_ack :
      State
  state_fin_wait_1 state_fin_wait_2 state_closing state_time_wait state_closed state_reset : State

pub record TcpState : Type 0 where
  pub sender : SenderSummary
  pub receiver : ReceiverSummary
  pub active : Bool
  pub linger_after_streams_finish : Bool

-- The two members keep their initial value, `true`.
abbrev pub going : ReceiverSummary → SenderSummary → TcpState
going r s = record { sender = s; receiver = r; active = true; linger_after_streams_finish = true }

-- `TCPState(const TCPState::State)`
unfoldable pub of_state : State → TcpState
of_state state_listen = going receiver_listen sender_closed
of_state state_syn_rcvd = going receiver_syn_recv sender_syn_sent
of_state state_syn_sent = going receiver_listen sender_syn_sent
of_state state_established = going receiver_syn_recv sender_syn_acked
of_state state_close_wait = record (going receiver_fin_recv sender_syn_acked) {
  linger_after_streams_finish = false;
}
of_state state_last_ack = record (going receiver_fin_recv sender_fin_sent) {
  linger_after_streams_finish = false;
}
of_state state_closing = going receiver_fin_recv sender_fin_sent
of_state state_fin_wait_1 = going receiver_syn_recv sender_fin_sent
of_state state_fin_wait_2 = going receiver_syn_recv sender_fin_acked
of_state state_time_wait = going receiver_fin_recv sender_fin_acked
of_state state_reset = record {
  sender = sender_error;
  receiver = receiver_error;
  active = false;
  linger_after_streams_finish = false;
}
of_state state_closed = record {
  sender = sender_fin_acked;
  receiver = receiver_fin_recv;
  active = false;
  linger_after_streams_finish = false;
}

unfoldable pub receiver_summary : TcpReceiver → ReceiverSummary
receiver_summary r =
    if ByteStream.error (stream_out r)
    then receiver_error
    else if not (has_value (ackno r))
    then receiver_listen
    else if ByteStream.input_ended (stream_out r)
    then receiver_fin_recv
    else receiver_syn_recv

unfoldable pub sender_summary : TcpSender → SenderSummary
sender_summary s =
    if ByteStream.error s.stream
    then sender_error
    else if s.next_seqno_absolute == 0
    then sender_closed
    else if s.next_seqno_absolute == s.bytes_in_flight
    then sender_syn_sent
    else if not (ByteStream.eof s.stream)
    then sender_syn_acked
    else if ltb s.next_seqno_absolute (add64 (ByteStream.bytes_written s.stream) 2)
    then sender_syn_acked
    else if not (s.bytes_in_flight == 0)
    then sender_fin_sent
    else sender_fin_acked

-- `TCPState(sender, receiver, active, linger)`
unfoldable pub summarize : TcpSender → TcpReceiver → Bool → Bool → TcpState
summarize s r active linger = record {
  sender = sender_summary s;
  receiver = receiver_summary r;
  active = active;
  linger_after_streams_finish = if active then linger else false;
}

-- `TCPConnection::state`
unfoldable pub state : TcpConnection → TcpState
state c = summarize c.sender c.receiver c.active c.linger_after_streams_finish
