-- ===== src/SpongeSocket/Outgoing.antt =====
-- tcp_sponge_socket.cc: all that a socket hands to the network are excerpts of what it has taken from
-- its application.
use computer_network_labs.WrappingInts.{WrappingInt32}
use computer_network_labs.TcpSegment.{TcpSegment}
use computer_network_labs.TcpSegment.Excerpt.{AllCarry, AllCarry-append}
use computer_network_labs.TcpSender.Keeps.{Keeps-refl}
use computer_network_labs.TcpConnection
use computer_network_labs.TcpConnection.{TcpConnection}
use computer_network_labs.TcpConnection.Honest.{
  Sends, segment_received-Sends, tick-Sends, connect-Sends,
}
use computer_network_labs.Base.{
  ltb, ◌==◌, if◌then◌else◌, Bool-cases, if_ind, length, drop, length-append, length-take,
  drop-append, ℕ, ◌+◌, ◌*◌, ◌^◌, ◌<◌, min, ◌≡◌, refl, sym, ap, ap₂, ◌∙◌, subst, inl, inr, Bool,
  true, false, not, ◌&&◌, Option, none, some, List, ◌++◌, arith,
}
use computer_network_labs.SpongeSocket.Network.{
  happen, react, react_running, Event, dials, gets, writes, hangs_up, reads, flushes, elapses,
}
use computer_network_labs.Reassembler.Slice.{slice, drop-slice}
use computer_network_labs.SpongeSocket.Grows.{take_outbound-taken, Ahead}
use computer_network_labs.TcpConnection.Feeding.{Sends-Fed, write-Fed, end_input_stream-Fed, Fed}
use computer_network_labs.SpongeSocket.{
  receive, shut_outbound, read_outbound, write_outbound, take_outbound, may_take, hangup,
  with_inbound, inbound, flush, elapse, dial, SpongeSocket,
}

module _ (src : ℕ → ℕ) (total : ℕ) (isn : WrappingInt32) (capacity : ℕ) where
  pub record Outgoing (s : SpongeSocket) : Type 0 where
    pub fed : Fed src total isn (length s.taken) s.outbound_shutdown capacity s.tcp
    pub wire : AllCarry src total isn s.sent
    pub running : s.failed ≡ false

  -- The connection has done something that only reads the outgoing stream.
  Fed-step :
      (count : ℕ) (is_end : Bool) (c q : TcpConnection)
      → Fed src total isn count is_end capacity c
      → Sends src total isn c.sender.stream q
      → Fed src total isn count is_end capacity q
  Fed-step count is_end c q f h =
      Sends-Fed src total isn count capacity is_end c.sender.stream q h f.count_eq f.end_eq
        f.capacity_eq

  receive-Outgoing :
      (seg : Option TcpSegment) (s : SpongeSocket) → Outgoing s → Outgoing (receive seg s)
  unfolding receive
  receive-Outgoing none s h = record { fed = h.fed; wire = h.wire; running = h.running }
  receive-Outgoing (some x) s h = record {
    fed =
        Fed-step (length s.taken) s.outbound_shutdown s.tcp _ h.fed
          (segment_received-Sends src total isn x s.tcp.sender.stream s.tcp h.fed.sends);
    wire = h.wire;
    running = h.running;
  }

  elapse-Outgoing : (ms : ℕ) (s : SpongeSocket) → Outgoing s → Outgoing (elapse ms s)
  unfolding elapse
  elapse-Outgoing ms s h =
      if_ind Outgoing s.tcp.active
        (λ _. record {
          fed =
              Fed-step (length s.taken) s.outbound_shutdown s.tcp _ h.fed
                (tick-Sends src total isn ms s.tcp.sender.stream s.tcp h.fed.sends);
          wire = h.wire;
          running = h.running;
        })
        (λ _. h)

  dial-Outgoing : (s : SpongeSocket) → Outgoing s → Outgoing (dial s)
  unfolding dial
  dial-Outgoing s h = record {
    fed =
        Fed-step (length s.taken) s.outbound_shutdown s.tcp _ h.fed
          (connect-Sends src total isn s.tcp.sender.stream s.tcp h.fed.sends);
    wire = h.wire;
    running = h.running;
  }

  inbound-Outgoing : (room : ℕ) (s : SpongeSocket) → Outgoing s → Outgoing (inbound room s)
  unfolding inbound with_inbound
  inbound-Outgoing room s h = record {
    fed = Fed-step (length s.taken) s.outbound_shutdown s.tcp _ h.fed (record {
      honest = h.fed.sends.honest;
      out = h.fed.sends.out;
      keeps = Keeps-refl s.tcp.sender.stream;
    });
    wire = h.wire;
    running = h.running;
  }

  flush-Outgoing : (s : SpongeSocket) → Outgoing s → Outgoing (flush s)
  unfolding flush
  flush-Outgoing s h = record {
    fed =
        Fed-step (length s.taken) s.outbound_shutdown s.tcp _ h.fed (record {
          honest = h.fed.sends.honest;
          out = tt;
          keeps = Keeps-refl s.tcp.sender.stream;
        });
    wire = AllCarry-append src total isn s.sent s.tcp.segments_out h.wire h.fed.sends.out;
    running = h.running;
  }

  shut_outbound-Outgoing :
      (s : SpongeSocket) → length s.taken ≡ total → Outgoing s → Outgoing (shut_outbound s)
  unfolding shut_outbound
  shut_outbound-Outgoing s e h = record {
    fed =
        subst (λ n. Fed src total isn n true capacity (TcpConnection.end_input_stream s.tcp))
          (sym e)
          (end_input_stream-Fed src total isn capacity s.outbound_shutdown s.tcp
            (subst (λ n. Fed src total isn n s.outbound_shutdown capacity s.tcp) e h.fed));
    wire = h.wire;
    running = h.running;
  }

  slice_suffix :
      (xs ys : List ℕ)
      → xs ++ ys ≡ slice src 0 (length (xs ++ ys))
      → ys ≡ slice src (length xs) (length ys)
  slice_suffix xs ys e =
      sym (drop-append xs ys)
      ∙ ap (drop (length xs)) e
      ∙ drop-slice src (length xs) 0 (length (xs ++ ys)) (omega (arith, length-append xs ys))
      ∙ ap₂ (slice src) {x = 0 + length xs} (omega arith) (omega (arith, length-append xs ys))

  take_outbound_shut :
      (chunk : List ℕ) (s : SpongeSocket)
      → not ((write_outbound (read_outbound chunk s) s).0 == length (read_outbound chunk s)) ≡ false
      → (write_outbound (read_outbound chunk s) s).1.thread_eof ≡ true
      → (take_outbound chunk s).outbound_shutdown ≡ true
  unfolding take_outbound shut_outbound
  take_outbound_shut chunk s n e = rw (n, e) refl

  -- All that is read from the application is accepted by `write`: the exception is never thrown.
  take_outbound-Outgoing :
      (chunk : List ℕ) (s : SpongeSocket)
      → total + capacity < 2 ^ 31
      → s.outbound_shutdown ≡ false
      → Outgoing s
      → Ahead src total (take_outbound chunk s)
      → Outgoing (take_outbound chunk s)
  unfolding take_outbound write_outbound shut_outbound read_outbound
  take_outbound-Outgoing chunk s small o h ahead =
      if_ind Outgoing (not (written == length bytes)) (λ e. absurd (ground (arith, grown.0)))
        λ n.
          if_ind Outgoing s'.thread_eof
            (λ e.
              shut_outbound-Outgoing s'
                (ap length (sym taken_eq) ∙ ahead.all (take_outbound_shut chunk s n e)) accepted)
            (λ _. accepted)
    where
      bytes : List ℕ
      bytes = read_outbound chunk s

      written : ℕ
      written = (write_outbound bytes s).0

      s' : SpongeSocket
      s' = (write_outbound bytes s).1

      taken_eq : (take_outbound chunk s).taken ≡ s.taken ++ bytes
      taken_eq = take_outbound-taken chunk s

      grown :
          (written ≡ length bytes)
          × Fed src total isn (length s.taken + length bytes) false capacity s'.tcp
      grown =
          write-Fed src total isn (length s.taken) capacity bytes s.tcp
            (subst (λ b. Fed src total isn (length s.taken) b capacity s.tcp) o h.fed)
            (omega (
              arith,
              length-take (min (1024 * 1024) (TcpConnection.remaining_outbound_capacity s.tcp))
                  chunk,
            ))
            (omega (arith, ahead.within, ap (length {A = ℕ}) taken_eq, length-append s.taken bytes))
            small
            (slice_suffix s.taken bytes
              (subst (λ l. l ≡ slice src 0 (length l)) taken_eq ahead.prefix))

      accepted : Outgoing s'
      accepted = record {
        fed =
            subst (λ n. Fed src total isn n s'.outbound_shutdown capacity s'.tcp)
              (sym (length-append s.taken bytes))
              (subst (λ b. Fed src total isn (length s.taken + length bytes) b capacity s'.tcp)
                (sym o) grown.1);
        wire = h.wire;
        running = h.running;
      }

  writes-Outgoing :
      (chunk : List ℕ) (s : SpongeSocket)
      → total + capacity < 2 ^ 31
      → Outgoing s
      → Ahead src total (if may_take s then take_outbound chunk s else s)
      → Outgoing (if may_take s then take_outbound chunk s else s)
  unfolding may_take
  writes-Outgoing chunk s small h ahead = elim (Bool-cases allowed) [
    | inl e ↦ rw e (take_outbound-Outgoing chunk s small (ground arith) h (rw e at ahead))
    | inr e ↦ rw e h
  ]
    where
      allowed : Bool
      allowed = not s.outbound_shutdown && ltb 0 (TcpConnection.remaining_outbound_capacity s.tcp)

  shut_taken : (s : SpongeSocket) → Ahead src total (shut_outbound s) → length s.taken ≡ total
  unfolding shut_outbound
  shut_taken s a = a.all refl

  happen-Outgoing :
      (wire : List TcpSegment) (e : Event) (s : SpongeSocket)
      → total + capacity < 2 ^ 31
      → Outgoing s
      → Ahead src total (happen wire e s)
      → Outgoing (happen wire e s)
  unfolding happen hangup
  happen-Outgoing wire dials s small h ahead = dial-Outgoing s h
  happen-Outgoing wire (gets i sport dport cksum) s small h ahead = receive-Outgoing _ s h
  happen-Outgoing wire (writes chunk) s small h ahead = writes-Outgoing chunk s small h ahead
  happen-Outgoing wire hangs_up s small h ahead = shut_outbound-Outgoing s (shut_taken s ahead) h
  happen-Outgoing wire (reads room) s small h ahead = inbound-Outgoing room s h
  happen-Outgoing wire flushes s small h ahead = flush-Outgoing s h
  happen-Outgoing wire (elapses ms) s small h ahead = elapse-Outgoing ms s h

  pub react-Outgoing :
      (wire : List TcpSegment) (e : Event) (s : SpongeSocket)
      → total + capacity < 2 ^ 31
      → Outgoing s
      → Ahead src total (react wire e s)
      → Outgoing (react wire e s)
  react-Outgoing wire e s small h ahead =
      let same = react_running wire e s h.running in
      subst Outgoing (sym same)
        (happen-Outgoing wire e s small h (subst (Ahead src total) same ahead))
