-- ===== src/Witnesses/States.antt =====
-- Instances for tcp_state.cc.
use computer_network_labs.ByteStream
use computer_network_labs.TcpReceiver
use computer_network_labs.TcpReceiver.{ackno}
use computer_network_labs.Reassembler
use computer_network_labs.TcpConfig.{default_config}
use computer_network_labs.TcpConnection.{TcpConnection, init, phase, syn_sent, has_value}
use computer_network_labs.TcpState.{
  of_state, state, summarize, sender_summary, receiver_summary, state_syn_sent,
}
use computer_network_labs.TcpState.Official.{phase-of_state}
use computer_network_labs.Witnesses.Streams.{memory}
use computer_network_labs.Witnesses.Senders.{waiting_sender}
use computer_network_labs.Base.{◌≡◌, refl, true, arith}

-- A connection that has sent its SYN.
abbrev opening : TcpConnection
opening = record (init memory memory 1000 default_config) { sender = waiting_sender }

opening-state : state opening ≡ of_state state_syn_sent
unfolding state of_state summarize sender_summary receiver_summary init TcpReceiver.init
    Reassembler.init ByteStream.init ByteStream.error ackno has_value
opening-state = refl

phase-of_state_example : phase opening ≡ syn_sent
unfolding ByteStream.bytes_written
phase-of_state_example =
    phase-of_state state_syn_sent syn_sent opening opening-state refl (omega arith) (omega arith)
      (omega arith)

opening_active : opening.active ≡ true
unfolding init
opening_active = refl
