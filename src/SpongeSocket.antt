-- ===== src/SpongeSocket.antt =====
-- libsponge/tcp_helpers/tcp_sponge_socket.hh and .cc: the thread that joins a TCPConnection to the
-- application's stream socket and to the datagram adapter.
--
-- The operating system is outside: what read(2) returns from `_thread_data`, how much write(2) takes
-- and what the adapter reads are arguments. `taken`, `shown` and `sent` are what has passed through
-- the descriptors: the bytes read from the application, the bytes written to it, and the segments
-- handed to the adapter.
pub mod Network
pub mod Grows
pub mod Outgoing
pub mod Incoming
pub mod Delivery
use computer_network_labs.ByteStream
use computer_network_labs.TcpReceiver.{stream_out}
use computer_network_labs.TcpSegment.{TcpSegment}
use computer_network_labs.TcpConnection
use computer_network_labs.TcpSender
use computer_network_labs.TcpConnection.{TcpConnection}
use computer_network_labs.ByteStream.{ByteStream}
use computer_network_labs.Base.{
  ltb, ◌==◌, if◌then◌else◌, length, take, ℕ, ◌*◌, min, Bool, true, false, not, ◌&&◌, ◌||◌, Option,
  none, some, List, [], ◌++◌,
}

pub record SpongeSocket : Type 0 where
  pub tcp : TcpConnection
  pub taken : List ℕ
  pub shown : List ℕ
  pub sent : List TcpSegment
  pub outbound_shutdown : Bool
  pub inbound_shutdown : Bool
  pub fully_acked : Bool
  pub thread_eof : Bool
  pub failed : Bool

-- `_tcp.emplace(config)`; the adapter and the pipe are new.
unfoldable pub init : TcpConnection → SpongeSocket
init tcp = record {
  tcp = tcp;
  taken = [];
  shown = [];
  sent = [];
  outbound_shutdown = false;
  inbound_shutdown = false;
  fully_acked = false;
  thread_eof = false;
  failed = false;
}

-- The callback of rule 1, for what the adapter has read: a datagram that it rejects gives no segment.
unfoldable pub receive : Option TcpSegment → SpongeSocket → SpongeSocket
receive seg s =
    let tcp : TcpConnection = elim seg [
      | none ↦ s.tcp
      | some x ↦ TcpConnection.segment_received x s.tcp
    ] in
    record s {
      tcp = tcp;
      fully_acked = s.fully_acked || (s.thread_eof && (TcpConnection.bytes_in_flight tcp == 0));
    }

unfoldable pub wants_datagram : SpongeSocket → Bool
wants_datagram s = s.tcp.active

-- `end_input_stream(); _outbound_shutdown = true;`
unfoldable pub shut_outbound : SpongeSocket → SpongeSocket
shut_outbound s = record s { tcp = TcpConnection.end_input_stream s.tcp; outbound_shutdown = true }

-- `_thread_data.read(limit)`: at most `limit` of the bytes, and at most a megabyte.
unfoldable pub read_outbound : List ℕ → SpongeSocket → List ℕ
read_outbound chunk s =
    take (min (1024 * 1024) (TcpConnection.remaining_outbound_capacity s.tcp)) chunk

-- An empty read is the end of the file.
unfoldable pub write_outbound : List ℕ → SpongeSocket → ℕ × SpongeSocket
write_outbound bytes s =
    let (written, tcp) = TcpConnection.write bytes s.tcp in
    (
      written,
      record s {
        tcp = tcp;
        taken = s.taken ++ bytes;
        thread_eof = s.thread_eof || (length bytes == 0);
      },
    )

-- The callback of rule 2; `failed` is its exception.
unfoldable pub take_outbound : List ℕ → SpongeSocket → SpongeSocket
take_outbound chunk s =
    let bytes = read_outbound chunk s in
    let (written, s') = write_outbound bytes s in
    if not (written == length bytes)
    then record s' { failed = true }
    else if s'.thread_eof
    then shut_outbound s'
    else s'

-- What the interest of rule 2 asks besides an active connection.
unfoldable pub may_take : SpongeSocket → Bool
may_take s = not s.outbound_shutdown && ltb 0 (TcpConnection.remaining_outbound_capacity s.tcp)

unfoldable pub wants_outbound : SpongeSocket → Bool
wants_outbound s = s.tcp.active && may_take s

-- The cancellation of rule 2.
unfoldable pub hangup : SpongeSocket → SpongeSocket
hangup s = shut_outbound s

-- The connection with another incoming stream.
unfoldable pub with_inbound : TcpConnection → ByteStream → TcpConnection
with_inbound c stream = record c {
  receiver = record (c.receiver) {
    reassembler = record (c.receiver.reassembler) { output = stream };
  };
}

-- The interest of rule 3.
unfoldable pub wants_inbound : SpongeSocket → Bool
wants_inbound s =
    let stream = stream_out s.tcp.receiver in
    not (ByteStream.buffer_empty stream)
    || ((ByteStream.eof stream || ByteStream.error stream) && not s.inbound_shutdown)

-- The callback of rule 3: assembled bytes for the application, of which write(2) takes at most `room`.
unfoldable pub inbound : ℕ → SpongeSocket → SpongeSocket
inbound room s =
    let stream = stream_out s.tcp.receiver in
    let buffer = ByteStream.peek_output stream (min 65536 (ByteStream.buffer_size stream)) in
    let bytes = take room buffer in
    let stream' = ByteStream.pop_output stream (length bytes) in
    record s {
      tcp = with_inbound s.tcp stream';
      shown = s.shown ++ bytes;
      inbound_shutdown = s.inbound_shutdown || (ByteStream.eof stream' || ByteStream.error stream');
    }

-- The callback of rule 4: every segment of the queue goes to the adapter.
unfoldable pub flush : SpongeSocket → SpongeSocket
flush s = record s {
  tcp = record (s.tcp) { segments_out = [] };
  sent = s.sent ++ s.tcp.segments_out;
}

unfoldable pub wants_flush : SpongeSocket → Bool
wants_flush s = not (TcpSender.is_empty s.tcp.segments_out)

-- The end of a round of `_tcp_loop`.
unfoldable pub elapse : ℕ → SpongeSocket → SpongeSocket
elapse ms s = if s.tcp.active then record s { tcp = TcpConnection.tick ms s.tcp } else s

-- `_tcp->connect()`
unfoldable pub dial : SpongeSocket → SpongeSocket
dial s = record s { tcp = TcpConnection.connect s.tcp }
