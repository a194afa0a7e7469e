-- ===== src/SpongeSocket/Delivery.antt =====
-- tcp_sponge_socket.cc over tcp_connection.cc, end to end: what one application reads is what the other
-- has written, whatever the network does with the segments.
use computer_network_labs.ByteStream
use computer_network_labs.ByteStream.Invariant.{buffer_size-eq}
use computer_network_labs.WrappingInts.{WrappingInt32}
use computer_network_labs.Reassembler.Slice.{slice}
use computer_network_labs.TcpConfig.{TcpConfig}
use computer_network_labs.Reassembler
use computer_network_labs.TcpReceiver
use computer_network_labs.TcpReceiver.{stream_out}
use computer_network_labs.TcpReceiver.Heard.{init-Heard}
use computer_network_labs.TcpSender
use computer_network_labs.TcpSender.Keeps.{Keeps-refl}
use computer_network_labs.TcpSender.Honest.Calls.{init-Honest}
use computer_network_labs.TcpConnection
use computer_network_labs.TcpConnection.{TcpConnection}
use computer_network_labs.SpongeSocket
use computer_network_labs.SpongeSocket.{SpongeSocket}
use computer_network_labs.SpongeSocket.Outgoing.{Outgoing, react-Outgoing}
use computer_network_labs.SpongeSocket.Incoming.{Incoming, react-Incoming}
use computer_network_labs.Base.{
  ==→eq, &&-true, length, take, drop, take_all, take-append-drop, ℕ, zero, suc, ◌+◌, ◌^◌, ◌≤◌, ◌<◌,
  ◌≡◌, refl, sym, ap, ◌∙◌, subst, true, false, List, [], ◌∷◌, ◌++◌, arith,
}
use computer_network_labs.SpongeSocket.Network.{turn, run, Network, Turn, at_near, at_far}
use computer_network_labs.SpongeSocket.Grows.{
  run-Grows, bytes_of, slice-bytes_of_shift, Grows-Ahead, Ahead,
}

-- One direction: what `sender` takes, under the numbers of `isn`, is what `receiver` shows.
record Flows (d : ℕ) (all : List ℕ) (isn : WrappingInt32) (capacity : ℕ)
    (sender receiver : SpongeSocket) : Type 0 where
  pub outgoing : Outgoing (bytes_of d all) (length all) isn capacity sender
  pub incoming : Incoming (bytes_of d all) (length all) isn receiver

module _ (d : ℕ) (isn isn' : WrappingInt32) (capacity capacity' : ℕ) (all all' : List ℕ)
    (isn_lt : isn < 2 ^ 32) (isn_lt' : isn' < 2 ^ 32) (small : length all + capacity < 2 ^ 31)
    (small' : length all' + capacity' < 2 ^ 31) (short : length all + 2 < 2 ^ 31)
    (short' : length all' + 2 < 2 ^ 31) where
  record BothFlow (w : Network) : Type 0 where
    pub forth : Flows d all isn capacity w.near w.far
    pub back : Flows d all' isn' capacity' w.far w.near

  turn-BothFlow :
      (t : Turn) (w : Network)
      → Ahead (bytes_of d all) (length all) (turn t w).near
      → Ahead (bytes_of d all') (length all') (turn t w).far
      → BothFlow w
      → BothFlow (turn t w)
  unfolding turn
  turn-BothFlow (at_near e) w a b h = record {
    forth = record {
      outgoing =
          react-Outgoing (bytes_of d all) (length all) isn capacity w.far.sent e w.near small
            h.forth.outgoing a;
      incoming = h.forth.incoming;
    };
    back = record {
      outgoing = h.back.outgoing;
      incoming =
          react-Incoming (bytes_of d all') (length all') isn' w.far.sent e w.near isn_lt' short'
            h.back.outgoing.wire h.back.incoming;
    };
  }
  turn-BothFlow (at_far e) w a b h = record {
    forth = record {
      outgoing = h.forth.outgoing;
      incoming =
          react-Incoming (bytes_of d all) (length all) isn w.near.sent e w.far isn_lt short
            h.forth.outgoing.wire h.forth.incoming;
    };
    back = record {
      outgoing =
          react-Outgoing (bytes_of d all') (length all') isn' capacity' w.near.sent e w.far small'
            h.back.outgoing b;
      incoming = h.back.incoming;
    };
  }

  run-BothFlow :
      (ts : List Turn) (w : Network)
      → (run ts w).near.taken ≡ all
      → (run ts w).far.taken ≡ all'
      → BothFlow w
      → BothFlow (run ts w)
  unfolding run
  run-BothFlow [] w a b h = h
  run-BothFlow (t ∷ ts) w a b h =
      let q = turn t w in
      let (near, far) = run-Grows ts q in
      run-BothFlow ts q a b (
        turn-BothFlow t w
          (subst (λ l. Ahead (bytes_of d l) (length l) q.near) a
            (Grows-Ahead d q.near (run ts q).near near))
          (subst (λ l. Ahead (bytes_of d l) (length l) q.far) b
            (Grows-Ahead d q.far (run ts q).far far))
          h)

-- Two streams that differ behind the end of `l` have a common beginning no longer than `l`.
common_prefix :
    (n : ℕ) (l : List ℕ)
    → slice (bytes_of 0 l) 0 n ≡ slice (bytes_of 1 l) 0 n
    → (n ≤ length l) × (slice (bytes_of 0 l) 0 n ≡ take n l)
common_prefix zero l e = (omega arith, refl)
common_prefix (suc n) [] e = absurd (cc)
common_prefix (suc n) (x ∷ l) e =
    let (h, prefix) =
      common_prefix n l
        (sym (slice-bytes_of_shift 0 x 0 n l) ∙ ap (drop 1) e ∙ slice-bytes_of_shift 1 x 0 n l) in
    (omega arith, ap (λ k. x ∷ k) (slice-bytes_of_shift 0 x 0 n l ∙ prefix))

-- A socket as `_initialize_TCP` leaves it.
abbrev pub fresh_socket : (ℕ → ℕ) → (ℕ → ℕ) → WrappingInt32 → TcpConfig → SpongeSocket
fresh_socket memory_in memory_out random cfg =
    SpongeSocket.init (TcpConnection.init memory_in memory_out random cfg)

fresh-Outgoing :
    (d : ℕ) (all : List ℕ) (memory_in memory_out : ℕ → ℕ) (random : WrappingInt32) (cfg : TcpConfig)
    → length all + cfg.send_capacity < 2 ^ 31
    → let s = fresh_socket memory_in memory_out random cfg in
      Outgoing (bytes_of d all) (length all) s.tcp.sender.isn cfg.send_capacity s
unfolding SpongeSocket.init TcpConnection.init TcpSender.init ByteStream.init
fresh-Outgoing d all memory_in memory_out random cfg small = record {
  fed = record {
    sends = record {
      honest =
          init-Honest (bytes_of d all) (length all) _ memory_out cfg.send_capacity cfg.rt_timeout
            cfg.fixed_isn random refl small;
      out = tt;
      keeps = Keeps-refl _;
    };
    count_eq = refl;
    end_eq = refl;
    capacity_eq = refl;
  };
  wire = tt;
  running = refl;
}

fresh-Incoming :
    (d : ℕ) (all : List ℕ) (isn : WrappingInt32) (memory_in memory_out : ℕ → ℕ)
    (random : WrappingInt32) (cfg : TcpConfig)
    → length all + 1 + cfg.recv_capacity < 2 ^ 31
    → Incoming (bytes_of d all) (length all) isn (fresh_socket memory_in memory_out random cfg)
unfolding SpongeSocket.init TcpConnection.init TcpReceiver.init Reassembler.init ByteStream.init
fresh-Incoming d all isn memory_in memory_out random cfg small = record {
  hears = record {
    heard = init-Heard (bytes_of d all) (length all) isn memory_in cfg.recv_capacity small;
    read_eq = refl;
  };
  prefix = refl;
}

-- What a socket shows that gets the beginnings of two streams: they differ only behind `all`.
shown-prefix :
    (all : List ℕ) (isn : WrappingInt32) (s : SpongeSocket)
    → Incoming (bytes_of 0 all) (length all) isn s
    → Incoming (bytes_of 1 all) (length all) isn s
    → (length s.shown ≤ length all) × (s.shown ≡ take (length s.shown) all)
shown-prefix all isn s a b =
    let (h, e) = common_prefix (length s.shown) all (sym a.prefix ∙ b.prefix) in (h, a.prefix ∙ e)

split : (xs l : List ℕ) → xs ≡ take (length xs) l → l ≡ xs ++ drop (length xs) l
split xs l e = sym (take-append-drop (length xs) l) ∙ ap (λ k. k ++ drop (length xs) l) (sym e)

-- Once the incoming stream is at its end, all has been shown.
shown_all :
    (all : List ℕ) (isn : WrappingInt32) (s : SpongeSocket)
    → ByteStream.eof (stream_out s.tcp.receiver) ≡ true
    → Incoming (bytes_of 0 all) (length all) isn s
    → length s.shown ≡ length all
unfolding ByteStream.eof ByteStream.buffer_empty
shown_all all isn s h a =
    let i = a.hears.heard in
    let (ended, empty) = &&-true (stream_out s.tcp.receiver).is_end _ h in
    omega (
      arith,
      i.marked.ended ended,
      i.sound.holds.count,
      a.hears.read_eq,
      i.sound.holds.valid.ordered,
      buffer_size-eq i.sound.holds.valid,
      ==→eq _ _ empty,
    )

module _ (memory_in memory_out memory_in' memory_out' : ℕ → ℕ) (random random' : WrappingInt32)
    (cfg cfg' : TcpConfig) (ts : List Turn) where
  abbrev pub start : Network
  start = record {
    near = fresh_socket memory_in memory_out random cfg;
    far = fresh_socket memory_in' memory_out' random' cfg';
  }

  start-BothFlow :
      (d : ℕ)
      → start.near.tcp.sender.isn < 2 ^ 32
      → start.far.tcp.sender.isn < 2 ^ 32
      → let w = run ts start in
        length w.near.taken + 2 + cfg.send_capacity + cfg'.recv_capacity < 2 ^ 31
        → length w.far.taken + 2 + cfg'.send_capacity + cfg.recv_capacity < 2 ^ 31
        → Flows d w.near.taken start.near.tcp.sender.isn cfg.send_capacity w.near w.far
          × Flows d w.far.taken start.far.tcp.sender.isn cfg'.send_capacity w.far w.near
  start-BothFlow d lt lt' small small' =
      let w = run ts start in
      let h =
        run-BothFlow d start.near.tcp.sender.isn start.far.tcp.sender.isn cfg.send_capacity
          cfg'.send_capacity w.near.taken w.far.taken lt lt' (omega arith) (omega arith)
          (omega arith) (omega arith) ts start refl refl
          (record {
            forth = record {
              outgoing =
                  fresh-Outgoing d w.near.taken memory_in memory_out random cfg (omega arith);
              incoming =
                  fresh-Incoming d w.near.taken start.near.tcp.sender.isn memory_in' memory_out'
                    random' cfg' (omega arith);
            };
            back = record {
              outgoing =
                  fresh-Outgoing d w.far.taken memory_in' memory_out' random' cfg' (omega arith);
              incoming =
                  fresh-Incoming d w.far.taken start.far.tcp.sender.isn memory_in memory_out random
                    cfg (omega arith);
            };
          }) in
      (h.forth, h.back)

  -- Take two sockets as `_initialize_TCP` leaves them, with initial sequence numbers of 32 bits,
  -- and any history of connecting, of reading from and writing to their applications in pieces of
  -- any size, of hang-ups, ticks, queued segments handed to the network, and arrivals of segments
  -- that the peer has sent, up to ports and checksum, in any order, repeated or not at all. While
  -- for each direction the bytes taken from the application and the two capacities that they pass
  -- through stay in sum below 2 ^ 31 - 2, no thread throws, and each application has been shown a
  -- beginning of what was taken from the other.
  pub run_delivers :
      start.near.tcp.sender.isn < 2 ^ 32
      → start.far.tcp.sender.isn < 2 ^ 32
      → let w = run ts start in
        length w.near.taken + 2 + cfg.send_capacity + cfg'.recv_capacity < 2 ^ 31
        → length w.far.taken + 2 + cfg'.send_capacity + cfg.recv_capacity < 2 ^ 31
        → (w.near.failed ≡ false)
          × (w.far.failed ≡ false)
          × (w.near.taken ≡ w.far.shown ++ drop (length w.far.shown) w.near.taken)
          × (w.far.taken ≡ w.near.shown ++ drop (length w.near.shown) w.far.taken)
  run_delivers lt lt' small small' =
      let w = run ts start in
      let (forth, back) = start-BothFlow 0 lt lt' small small' in
      let (forth', back') = start-BothFlow 1 lt lt' small small' in
      let isn = start.near.tcp.sender.isn in
      let isn' = start.far.tcp.sender.isn in
      (
        forth.outgoing.running,
        back.outgoing.running,
        split w.far.shown w.near.taken
            (shown-prefix w.near.taken isn w.far forth.incoming forth'.incoming).1,
        split w.near.shown w.far.taken
            (shown-prefix w.far.taken isn' w.near back.incoming back'.incoming).1,
      )

  -- Under the same conditions, once the incoming stream of the second socket is at its end, exactly
  -- what was taken from the application of the first has been shown to that of the second: the end
  -- of the stream is not reported before the last byte.
  pub run_closes :
      start.near.tcp.sender.isn < 2 ^ 32
      → start.far.tcp.sender.isn < 2 ^ 32
      → let w = run ts start in
        length w.near.taken + 2 + cfg.send_capacity + cfg'.recv_capacity < 2 ^ 31
        → length w.far.taken + 2 + cfg'.send_capacity + cfg.recv_capacity < 2 ^ 31
        → ByteStream.eof (stream_out w.far.tcp.receiver) ≡ true
        → w.far.shown ≡ w.near.taken
  run_closes lt lt' small small' h =
      let w = run ts start in
      let (forth, _back) = start-BothFlow 0 lt lt' small small' in
      let (forth', _back') = start-BothFlow 1 lt lt' small small' in
      let isn = start.near.tcp.sender.isn in
      (shown-prefix w.near.taken isn w.far forth.incoming forth'.incoming).1
      ∙ take_all (length w.far.shown) w.near.taken
          (omega (arith, shown_all w.near.taken isn w.far h forth.incoming))
