-- ===== src/TcpConnection/Output.antt =====
-- _send_data and write of tcp_connection.cc: what leaves the connection.
use computer_network_labs.ByteStream.Refine.{contents, write_lem, write_fields}
use computer_network_labs.ByteStream.Invariant.{write-IsValid}
use computer_network_labs.TcpSender.{TcpSender, fill_window, window_or_one}
use computer_network_labs.TcpSender.Window.{Roomy, fill_window-Adds}
use computer_network_labs.ByteStream
use computer_network_labs.ByteStream
use computer_network_labs.ByteStream.{ByteStream}
use computer_network_labs.TcpSegment.{TcpSegment}
use computer_network_labs.TcpReceiver.{TcpReceiver, ackno, stream_out}
use computer_network_labs.TcpConnection.{
  remaining_outbound_capacity, stamp, stamp_all, drain, check_finished, send_data, write,
  TcpConnection,
}
use computer_network_labs.TcpSender.Fill.{payloads}
use computer_network_labs.Base.{
  Option-cases, length, take, ℕ, zero, suc, ◌+◌, ◌*◌, ◌^◌, ◌≤◌, ◌<◌, min, max, ◌≡◌, refl, sym, ap,
  ap₂, ◌∙◌, ◌⊎◌, true, false, List, [], ◌∷◌, ◌++◌, append-nil, arith,
}

stamp_payload : (r : TcpReceiver) (seg : TcpSegment) → (stamp r seg).payload ≡ seg.payload
unfolding stamp
stamp_payload r seg = ground (arith, Option-cases (ackno r))

pub payloads-stamp_all :
    (r : TcpReceiver) (segs : List TcpSegment) → payloads (stamp_all r segs) ≡ payloads segs
unfolding stamp_all
payloads-stamp_all r [] = refl
payloads-stamp_all r (seg ∷ segs) = ap₂ ◌++◌ (stamp_payload r seg) (payloads-stamp_all r segs)

check_finished_fields :
    (c : TcpConnection)
    → let q = check_finished c in
      (q.segments_out ≡ c.segments_out) × (q.sender ≡ c.sender) × (q.receiver ≡ c.receiver)
unfolding check_finished
check_finished_fields c = ground arith

-- `_send_data` moves the whole queue
pub send_data_fields :
    (c : TcpConnection)
    → let q = send_data c in
      (q.segments_out ≡ c.segments_out ++ stamp_all c.receiver c.sender.segments_out)
      × (q.sender ≡ record (c.sender) { segments_out = [] })
      × (q.receiver ≡ c.receiver)
unfolding send_data drain
send_data_fields c = check_finished_fields (drain c)

-- Sending ends an active connection only when the input has ended, the outgoing stream is read to
-- its end, nothing is in flight, and either no lingering is due or ten timeouts have passed since
-- the last segment came.
pub send_data-active :
    (c : TcpConnection)
    → c.active ≡ true
    → (send_data c).active ≡ false
    → (ByteStream.input_ended (stream_out c.receiver) ≡ true)
      × (ByteStream.eof c.sender.stream ≡ true)
      × (c.sender.bytes_in_flight ≡ 0)
      × ((c.linger_after_streams_finish ≡ false)
          ⊎ (10 * c.cfg.rt_timeout ≤ c.time_since_last_segment_received))
unfolding send_data drain check_finished
send_data-active c a h = ground arith

-- While the input is open, `_send_data` does not end the connection.
pub send_data_open :
    (c : TcpConnection)
    → ByteStream.input_ended (stream_out c.receiver) ≡ false
    → (send_data c).active ≡ c.active
unfolding send_data drain check_finished
send_data_open c h = ground arith

-- What `write` promises: the number of bytes it takes, and where they go.
pub record Written (bytes : List ℕ) (c : TcpConnection) : Type 0 where
  pub segs : List TcpSegment
  pub count : (write bytes c).0 ≡ min (length bytes) (remaining_outbound_capacity c)
  pub queued : (write bytes c).1.segments_out ≡ c.segments_out ++ segs
  pub carried :
      payloads segs ++ contents (write bytes c).1.sender.stream
      ≡ contents c.sender.stream ++ take (remaining_outbound_capacity c) bytes
  pub bounded :
      (write bytes c).1.sender.bytes_in_flight
      ≤ max c.sender.bytes_in_flight (window_or_one c.sender.peer_windows_size)

take-nil : (n : ℕ) → take {A = ℕ} n [] ≡ []
take-nil zero = refl
take-nil (suc n) = refl

-- What the sender makes of a stream that has been written to.
abbrev written_sender : List ℕ → TcpConnection → TcpSender
written_sender bytes c = record (c.sender) { stream = (ByteStream.write c.sender.stream bytes).1 }

Written-Roomy :
    (bytes : List ℕ) (c : TcpConnection)
    → Roomy (3 * 2 ^ 16) c.sender
    → c.sender.stream.write_cnt + length bytes + c.sender.stream.capacity < 2 ^ 31
    → Roomy (3 * 2 ^ 16) (written_sender bytes c)
Written-Roomy bytes c r h = record {
  stream_valid =
      write-IsValid bytes r.stream_valid (omega (arith, write_fields bytes r.stream_valid));
  next_small = r.next_small;
  flight_le = r.flight_le;
  peer_lt = r.peer_lt;
}

-- On a connection whose sender is as `fill_window` needs it and has nothing queued, while the bytes
-- ever written and the capacity stay below 2 ^ 31, `write` returns the smaller of the number of
-- bytes and the room; it appends segments to the connection's queue, whose payloads, followed by
-- what is still in the stream, are what was in the stream followed by the bytes that were accepted;
-- and the bytes in flight stay within the peer's window (one, if it announces none) unless they
-- were already above it.
pub write-Written :
    (bytes : List ℕ) (c : TcpConnection)
    → Roomy (3 * 2 ^ 16) c.sender
    → c.sender.segments_out ≡ []
    → c.sender.stream.write_cnt + length bytes + c.sender.stream.capacity < 2 ^ 31
    → Written bytes c
unfolding write remaining_outbound_capacity
write-Written [] c r e h = record {
  segs = [];
  count = omega arith;
  queued = sym (append-nil c.segments_out);
  carried =
      sym
        (ap (◌++◌ (contents c.sender.stream)) (take-nil _) ∙ append-nil (contents c.sender.stream));
  bounded = omega arith;
}
write-Written (b ∷ bytes) c r e h =
    let s = written_sender (b ∷ bytes) c in
    let a = fill_window-Adds s (Written-Roomy (b ∷ bytes) c r h) in
    let (moved, emptied, _same) = send_data_fields (record c { sender = fill_window s }) in
    let (count, stored) =
      write_lem r.stream_valid (b ∷ bytes)
        (omega (arith, write_fields (b ∷ bytes) r.stream_valid)) in
    record {
      segs = stamp_all c.receiver a.segs;
      count = count;
      queued =
          moved
          ∙ ap (λ l. c.segments_out ++ stamp_all c.receiver l) (a.queued ∙ ap (λ l. l ++ a.segs) e);
      carried =
          ap₂ ◌++◌ (payloads-stamp_all c.receiver a.segs) (ap (λ s. contents s.stream) emptied)
          ∙ a.carried
          ∙ stored;
      bounded = omega (arith, a.bounded, ap (λ s. s.bytes_in_flight) emptied);
    }
