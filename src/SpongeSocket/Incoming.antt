-- ===== src/SpongeSocket/Incoming.antt =====
-- tcp_sponge_socket.cc: what a socket shows to its application.
use computer_network_labs.ByteStream
use computer_network_labs.ByteStream.{ByteStream}
use computer_network_labs.ByteStream.Invariant
use computer_network_labs.ByteStream.Refine.{peek_output-eq-take}
use computer_network_labs.WrappingInts.{WrappingInt32}
use computer_network_labs.Reassembler.Soundness.{pop_output-Holds}
use computer_network_labs.TcpSegment.{TcpSegment}
use computer_network_labs.TcpReceiver.{stream_out}
use computer_network_labs.TcpReceiver.Heard.{Heard}
use computer_network_labs.TcpConnection
use computer_network_labs.TcpConnection.{TcpConnection}
use computer_network_labs.TcpConnection.Heard.{
  Hears, segment_received-Hears, tick-Hears, send_data-Hears,
}
use computer_network_labs.Base.{
  ◌==◌, if_ind, length, get_elem?, take, length-append, ℕ, zero, suc, ◌+◌, ◌-◌, ◌^◌, ◌<◌, min, ◌≡◌,
  refl, ap, ap₂, ◌∙◌, not, none, some, List, [], ◌∷◌, ◌++◌, arith,
}
use computer_network_labs.TcpSegment.Excerpt.{AllCarry, Carries-same, Carries}
use computer_network_labs.SpongeSocket.Network.{
  readdress, arrival, happen, react, Event, dials, gets, writes, hangs_up, reads, flushes, elapses,
}
use computer_network_labs.Reassembler.Slice.{slice, length-slice, slice-append, take-slice-min}
use computer_network_labs.SpongeSocket.{
  receive, shut_outbound, read_outbound, write_outbound, take_outbound, may_take, hangup,
  with_inbound, inbound, flush, elapse, dial, SpongeSocket,
}

module _ (src : ℕ → ℕ) (total : ℕ) (isn : WrappingInt32) where
  pub record Incoming (s : SpongeSocket) : Type 0 where
    pub hears : Hears src total isn (length s.shown) s.tcp.receiver
    pub prefix : s.shown ≡ slice src 0 (length s.shown)

  receive-Incoming :
      (seg : TcpSegment) (s : SpongeSocket)
      → isn < 2 ^ 32
      → total + 2 < 2 ^ 31
      → Carries src total isn seg
      → Incoming s
      → Incoming (receive (some seg) s)
  unfolding receive
  receive-Incoming seg s lt small c h = record {
    hears = segment_received-Hears src total isn seg (length s.shown) s.tcp lt small c h.hears;
    prefix = h.prefix;
  }

  receive-none-Incoming : (s : SpongeSocket) → Incoming s → Incoming (receive none s)
  unfolding receive
  receive-none-Incoming s h = record { hears = h.hears; prefix = h.prefix }

  flush-Incoming : (s : SpongeSocket) → Incoming s → Incoming (flush s)
  unfolding flush
  flush-Incoming s h = record { hears = h.hears; prefix = h.prefix }

  elapse-Incoming : (ms : ℕ) (s : SpongeSocket) → Incoming s → Incoming (elapse ms s)
  unfolding elapse
  elapse-Incoming ms s h =
      if_ind Incoming s.tcp.active
        (λ _. record {
          hears = tick-Hears src total isn ms (length s.shown) s.tcp h.hears;
          prefix = h.prefix;
        })
        (λ _. h)

  dial-Incoming : (s : SpongeSocket) → Incoming s → Incoming (dial s)
  unfolding dial TcpConnection.connect
  dial-Incoming s h = record {
    hears = send_data-Hears src total isn (length s.shown) _ h.hears;
    prefix = h.prefix;
  }

  shut_outbound-Incoming : (s : SpongeSocket) → Incoming s → Incoming (shut_outbound s)
  unfolding shut_outbound TcpConnection.end_input_stream
  shut_outbound-Incoming s h = record {
    hears = send_data-Hears src total isn (length s.shown) _ h.hears;
    prefix = h.prefix;
  }

  write-Incoming :
      (bytes : List ℕ) (read : ℕ) (c : TcpConnection)
      → Hears src total isn read c.receiver
      → Hears src total isn read (TcpConnection.write bytes c).1.receiver
  unfolding TcpConnection.write
  write-Incoming [] read c h = h
  write-Incoming (b ∷ bytes) read c h = send_data-Hears src total isn read _ h

  take_outbound-Incoming :
      (chunk : List ℕ) (s : SpongeSocket) → Incoming s → Incoming (take_outbound chunk s)
  unfolding take_outbound write_outbound
  take_outbound-Incoming chunk s h =
      if_ind Incoming
        (not ((write_outbound (read_outbound chunk s) s).0 == length (read_outbound chunk s)))
        (λ _. record { hears = accepted.hears; prefix = accepted.prefix })
        (λ _.
          if_ind Incoming (write_outbound (read_outbound chunk s) s).1.thread_eof
            (λ _. shut_outbound-Incoming _ accepted) (λ _. accepted))
    where
      accepted : Incoming (write_outbound (read_outbound chunk s) s).1
      accepted = record {
        hears = write-Incoming (read_outbound chunk s) (length s.shown) s.tcp h.hears;
        prefix = h.prefix;
      }

  pop_output-Heard :
      (len : ℕ) (c : TcpConnection)
      → Heard src total isn c.receiver
      → Heard src total isn
          (with_inbound c (ByteStream.pop_output (stream_out c.receiver) len)).receiver
  unfolding with_inbound ByteStream.pop_output
  pop_output-Heard len c h = record {
    sound = record {
      holds =
          pop_output-Holds src (total + 1) c.receiver.reassembler.assemble_idx len
            (stream_out c.receiver) h.sound.holds;
      cache = h.sound.cache;
    };
    marked = record { mark = h.marked.mark; ended = h.marked.ended };
    isn_eq = h.isn_eq;
    at = h.at;
  }

  -- What is written to the application is the next part of the stream.
  inbound-Incoming : (room : ℕ) (s : SpongeSocket) → Incoming s → Incoming (inbound room s)
  unfolding inbound with_inbound
  inbound-Incoming room s h = record {
    hears = record {
      heard = pop_output-Heard (length bytes) s.tcp h.hears.heard;
      read_eq =
          ap (λ (q : ByteStream). q.read_cnt)
            (ByteStream.Invariant.pop_output-eq (length bytes) valid)
          ∙ omega (arith, size, h.hears.read_eq, length-append s.shown bytes);
    };
    prefix =
        ap₂ ◌++◌ h.prefix (got ∙ ap (λ k. slice src k (min (min held n) room)) h.hears.read_eq)
        ∙ ap (λ a. slice src 0 (length s.shown) ++ slice src a (min (min held n) room))
            {y = 0 + length s.shown} (omega arith)
        ∙ slice-append src 0 (length s.shown) (min (min held n) room)
        ∙ ap (slice src 0) (omega (arith, size, length-append s.shown bytes));
  }
    where
      stream : ByteStream
      stream = stream_out s.tcp.receiver

      valid : ByteStream.Invariant.IsValid stream
      valid = h.hears.heard.sound.holds.valid

      held : ℕ
      held = stream.write_cnt - stream.read_cnt

      n : ℕ
      n = min 65536 (ByteStream.buffer_size stream)

      bytes : List ℕ
      bytes = take room (ByteStream.peek_output stream n)

      got : bytes ≡ slice src stream.read_cnt (min (min held n) room)
      got =
          ap (take room) (
            peek_output-eq-take valid n
            ∙ ap (take n) h.hears.heard.sound.holds.bytes
            ∙ take-slice-min src n stream.read_cnt held)
          ∙ take-slice-min src room stream.read_cnt (min held n)

      size : length bytes ≡ min (min held n) room
      size = ap length got ∙ length-slice src stream.read_cnt (min (min held n) room)

  -- Whatever arrives was sent by the peer, up to ports and checksum.
  arrival-Incoming :
      (sport dport cksum i : ℕ) (wire : List TcpSegment) (s : SpongeSocket)
      → isn < 2 ^ 32
      → total + 2 < 2 ^ 31
      → AllCarry src total isn wire
      → Incoming s
      → Incoming (receive (arrival sport dport cksum (get_elem? wire i)) s)
  unfolding arrival readdress
  arrival-Incoming sport dport cksum i [] s lt small w h = receive-none-Incoming s h
  arrival-Incoming sport dport cksum zero (seg ∷ wire) s lt small w h =
      receive-Incoming _ s lt small (Carries-same src total isn seg _ refl refl refl refl refl w.0)
        h
  arrival-Incoming sport dport cksum (suc i) (seg ∷ wire) s lt small w h =
      arrival-Incoming sport dport cksum i wire s lt small w.1 h

  happen-Incoming :
      (wire : List TcpSegment) (e : Event) (s : SpongeSocket)
      → isn < 2 ^ 32
      → total + 2 < 2 ^ 31
      → AllCarry src total isn wire
      → Incoming s
      → Incoming (happen wire e s)
  unfolding happen hangup
  happen-Incoming wire dials s lt small w h = dial-Incoming s h
  happen-Incoming wire (gets i sport dport cksum) s lt small w h =
      arrival-Incoming sport dport cksum i wire s lt small w h
  happen-Incoming wire (writes chunk) s lt small w h =
      if_ind Incoming (may_take s) (λ _. take_outbound-Incoming chunk s h) (λ _. h)
  happen-Incoming wire hangs_up s lt small w h = shut_outbound-Incoming s h
  happen-Incoming wire (reads room) s lt small w h = inbound-Incoming room s h
  happen-Incoming wire flushes s lt small w h = flush-Incoming s h
  happen-Incoming wire (elapses ms) s lt small w h = elapse-Incoming ms s h

  pub react-Incoming :
      (wire : List TcpSegment) (e : Event) (s : SpongeSocket)
      → isn < 2 ^ 32
      → total + 2 < 2 ^ 31
      → AllCarry src total isn wire
      → Incoming s
      → Incoming (react wire e s)
  unfolding react
  react-Incoming wire e s lt small w h =
      if_ind Incoming s.failed (λ _. h) (λ _. happen-Incoming wire e s lt small w h)
