-- ===== src/TcpConnection/Feeding.antt =====
-- write and end_input_stream of tcp_connection.cc keep what the connection sends an excerpt.
use computer_network_labs.ByteStream
use computer_network_labs.ByteStream.{ByteStream}
use computer_network_labs.WrappingInts.{WrappingInt32}
use computer_network_labs.Reassembler.Slice.{slice}
use computer_network_labs.TcpSender.Feeds.{write-Feeds, end_input-Feeds}
use computer_network_labs.TcpSender.Honest.Calls.{Honest-stream}
use computer_network_labs.TcpConnection.Honest.{Sends, fill-Sends}
use computer_network_labs.Base.{
  length, ℕ, ◌+◌, ◌^◌, ◌≤◌, ◌<◌, ◌≡◌, refl, sym, ap, ◌∙◌, subst, Bool, true, false, List, [], ◌∷◌,
  arith,
}
use computer_network_labs.TcpConnection.{
  remaining_outbound_capacity, write, end_input_stream, TcpConnection,
}

module _ (src : ℕ → ℕ) (total : ℕ) (isn : WrappingInt32) where
  -- Only the stream's contents matter for a later call.
  pub record Fed (count : ℕ) (is_end : Bool) (capacity : ℕ) (c : TcpConnection) : Type 0 where
    pub sends : Sends src total isn c.sender.stream c
    pub count_eq : c.sender.stream.write_cnt ≡ count
    pub end_eq : c.sender.stream.is_end ≡ is_end
    pub capacity_eq : c.sender.stream.capacity ≡ capacity

  pub Sends-Fed :
      (count capacity : ℕ) (is_end : Bool) (stream : ByteStream) (c : TcpConnection)
      → Sends src total isn stream c
      → stream.write_cnt ≡ count
      → stream.is_end ≡ is_end
      → stream.capacity ≡ capacity
      → Fed count is_end capacity c
  Sends-Fed count capacity is_end stream c h w e k = record {
    sends = record {
      honest = h.honest;
      out = h.out;
      keeps = record { written = refl; ended = refl; room = refl };
    };
    count_eq = h.keeps.written ∙ w;
    end_eq = h.keeps.ended ∙ e;
    capacity_eq = h.keeps.room ∙ k;
  }

  -- The next bytes of `src`, with room for them, are all taken.
  pub write-Fed :
      (count capacity : ℕ) (bytes : List ℕ) (c : TcpConnection)
      → Fed count false capacity c
      → length bytes ≤ remaining_outbound_capacity c
      → count + length bytes ≤ total
      → total + capacity < 2 ^ 31
      → bytes ≡ slice src count (length bytes)
      → ((write bytes c).0 ≡ length bytes)
        × Fed (count + length bytes) false capacity (write bytes c).1
  unfolding write remaining_outbound_capacity
  write-Fed count capacity [] c f r b s e =
      (refl, subst (λ n. Fed n false capacity c) (omega arith) f)
  write-Fed count capacity (x ∷ bytes) c f r b s e =
      let (feeds, n, w, rd, is_end, cap) =
        write-Feeds src total c.sender.stream (x ∷ bytes) f.sends.honest.feeds f.end_eq r
          (omega (arith, f.count_eq)) (omega (arith, f.capacity_eq))
          (e ∙ ap (λ k. slice src k (length (x ∷ bytes))) (sym f.count_eq)) in
      (
        n,
        Sends-Fed (count + length (x ∷ bytes)) capacity false
            (ByteStream.write c.sender.stream (x ∷ bytes)).1 _
            (fill-Sends src total isn (ByteStream.write c.sender.stream (x ∷ bytes)).1 c
              (Honest-stream src total isn c.sender _ f.sends.honest feeds rd
                (λ h. absurd (ground (arith, f.end_eq))))
              f.sends.out)
            (omega (arith, w, f.count_eq)) (is_end ∙ f.end_eq) (cap ∙ f.capacity_eq),
      )

  -- The stream is ended after its last byte.
  pub end_input_stream-Fed :
      (capacity : ℕ) (is_end : Bool) (c : TcpConnection)
      → Fed total is_end capacity c
      → Fed total true capacity (end_input_stream c)
  unfolding end_input_stream ByteStream.end_input
  end_input_stream-Fed capacity is_end c f =
      Sends-Fed total capacity true (ByteStream.end_input c.sender.stream) _
        (fill-Sends src total isn (ByteStream.end_input c.sender.stream) c
          (Honest-stream src total isn c.sender _ f.sends.honest
            (end_input-Feeds src total c.sender.stream f.sends.honest.feeds f.count_eq) refl
            (λ h. (refl, refl)))
          f.sends.out)
        f.count_eq refl f.capacity_eq
