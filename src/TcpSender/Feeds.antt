-- ===== src/TcpSender/Feeds.antt =====
-- byte_stream.cc under tcp_sender.cc: the outgoing stream holds an excerpt of one byte stream.
use computer_network_labs.ByteStream
use computer_network_labs.ByteStream.{ByteStream}
use computer_network_labs.ByteStream.Invariant
use computer_network_labs.Base.{
  length, take, drop, take_all, ℕ, ◌+◌, ◌-◌, ◌^◌, ◌≤◌, ◌<◌, min, ◌≡◌, sym, ap, ap₂, ◌∙◌, true,
  false, List, [], ◌∷◌, ◌++◌, arith,
}
use computer_network_labs.Reassembler.Slice.{
  slice, length-slice, slice-append, take-slice-min, drop-slice-min,
}
use computer_network_labs.ByteStream.Refine.{
  contents, peek_output-eq-take, contents-pop_output, write_lem, write_fields,
}

-- Where the next number stands: before the SYN, after the bytes read, or after the FIN.
pub data Place (next : ℕ) (stream : ByteStream) : Type 0 where
  fresh : next ≡ 0 → stream.read_cnt ≡ 0 → Place next stream
  going : next ≡ stream.read_cnt + 1 → Place next stream
  over :
      next ≡ stream.read_cnt + 2
      → stream.is_end ≡ true
      → stream.read_cnt ≡ stream.write_cnt
      → Place next stream

-- The SYN takes the first number.
pub syn_place : (next : ℕ) (stream : ByteStream) → next ≡ 0 → Place next stream → Place 1 stream
syn_place next stream e (fresh z r) = going (omega arith)
syn_place next stream e (going g) = absurd (omega arith)
syn_place next stream e (over g i r) = absurd (omega arith)

module _ (src : ℕ → ℕ) (total : ℕ) where
  -- The stream holds the bytes of `src` from the read index to the write index, and ends at `total`.
  pub record Feeds (stream : ByteStream) : Type 0 where
    pub valid : ByteStream.Invariant.IsValid stream
    pub bytes : contents stream ≡ slice src stream.read_cnt (stream.write_cnt - stream.read_cnt)
    pub below : stream.write_cnt ≤ total
    pub ended : stream.is_end ≡ true → stream.write_cnt ≡ total

  -- What a read returns, and where it leaves the stream.
  pub read-Feeds :
      (stream : ByteStream) (len : ℕ)
      → Feeds stream
      → let (bytes, q) = ByteStream.read stream len in
        Feeds q
        × (bytes ≡ slice src stream.read_cnt (length bytes))
        × (q.read_cnt ≡ stream.read_cnt + length bytes)
        × (q.write_cnt ≡ stream.write_cnt)
        × (q.is_end ≡ stream.is_end)
        × (length bytes ≤ len)
  read-Feeds stream len f = rw (ByteStream.Invariant.read-eq-peek_output-pop_output stream len) (
    record {
      valid = ByteStream.Invariant.pop_output-IsValid len f.valid;
      bytes = left;
      below = ground (arith, ByteStream.Invariant.pop_output-eq len f.valid);
      ended = ground (arith, ByteStream.Invariant.pop_output-eq len f.valid, f.ended);
    },
    got ∙ ap (slice src stream.read_cnt) (sym count),
    ground (arith, ByteStream.Invariant.pop_output-eq len f.valid, count),
    ground (arith, ByteStream.Invariant.pop_output-eq len f.valid),
    ground (arith, ByteStream.Invariant.pop_output-eq len f.valid),
    omega (arith, count),
  )
    where
      n : ℕ
      n = stream.write_cnt - stream.read_cnt

      got : ByteStream.peek_output stream len ≡ slice src stream.read_cnt (min n len)
      got =
          peek_output-eq-take f.valid len
          ∙ ap (take len) f.bytes
          ∙ take-slice-min src len stream.read_cnt n

      count : length (ByteStream.peek_output stream len) ≡ min n len
      count = ap length got ∙ length-slice src stream.read_cnt (min n len)

      left :
          contents (ByteStream.pop_output stream len)
          ≡ slice src (ByteStream.pop_output stream len).read_cnt (
              (ByteStream.pop_output stream len).write_cnt
              - (ByteStream.pop_output stream len).read_cnt)
      left =
          contents-pop_output f.valid len
          ∙ ap (drop len) f.bytes
          ∙ drop-slice-min src len stream.read_cnt n
          ∙ ap₂ (slice src) (ground (arith, ByteStream.Invariant.pop_output-eq len f.valid))
              (ground (arith, ByteStream.Invariant.pop_output-eq len f.valid))

  -- The end of the stream, as the sender tests it.
  pub eof-Feeds :
      (stream : ByteStream)
      → Feeds stream
      → ByteStream.eof stream ≡ true
      → (stream.is_end ≡ true) × (stream.read_cnt ≡ stream.write_cnt) × (stream.read_cnt ≡ total)
  unfolding ByteStream.eof ByteStream.buffer_empty
  eof-Feeds stream f h = ground (arith, ByteStream.Invariant.buffer_size-eq f.valid, f.ended)

  -- The bytes that have been read and not yet numbered: they begin at the next number.
  pub data Pending (bytes : List ℕ) (next : ℕ) (stream : ByteStream) : Type 0 where
    held :
        1 ≤ next
        → next + length bytes ≡ stream.read_cnt + 1
        → bytes ≡ slice src (next - 1) (length bytes)
        → Pending bytes next stream
    nothing : bytes ≡ [] → Place next stream → Pending bytes next stream

  pub Pending-Place : (next : ℕ) (stream : ByteStream) → Pending [] next stream → Place next stream
  Pending-Place next stream (held l e b) = going (omega arith)
  Pending-Place next stream (nothing e p) = p

  -- After the FIN, or at the end of the stream, a read returns nothing.
  pub read-Pending :
      (next len : ℕ) (stream : ByteStream)
      → Feeds stream
      → 1 ≤ next
      → Place next stream
      → Pending (ByteStream.read stream len).0 next (ByteStream.read stream len).1
  read-Pending next len stream f l (fresh e z) = absurd (omega arith)
  read-Pending next len stream f l (going e) =
      let (_feeds, bytes, count, _written, _is_end, _short) = read-Feeds stream len f in
      held l (omega (arith, count))
        (bytes ∙ ap (λ k. slice src k (length (ByteStream.read stream len).0)) (omega arith))
  read-Pending next len stream f l (over e h z) =
      let (f', bytes, count, written, is_end, _short) = read-Feeds stream len f in
      let none_left : length (ByteStream.read stream len).0 ≡ 0 =
        omega (arith, count, written, f'.valid.ordered) in
      nothing (bytes ∙ ap (slice src stream.read_cnt) none_left)
        (over (omega (arith, count)) (is_end ∙ h) (omega (arith, count, written)))

  pub Pending-cons :
      (b next : ℕ) (bytes : List ℕ) (stream : ByteStream)
      → Pending (b ∷ bytes) next stream
      → (1 ≤ next)
        × (next + length (b ∷ bytes) ≡ stream.read_cnt + 1)
        × (b ∷ bytes ≡ slice src (next - 1) (length (b ∷ bytes)))
  Pending-cons b next bytes stream (held l e k) = (l, e, k)
  Pending-cons b next bytes stream (nothing e p) = cc

  -- Writing the next bytes of `src` to an open stream with room for them.
  pub write-Feeds :
      (stream : ByteStream) (bytes : List ℕ)
      → Feeds stream
      → stream.is_end ≡ false
      → length bytes ≤ ByteStream.remaining_capacity stream
      → stream.write_cnt + length bytes ≤ total
      → total + stream.capacity < 2 ^ 31
      → bytes ≡ slice src stream.write_cnt (length bytes)
      → let (n, q) = ByteStream.write stream bytes in
        Feeds q
        × (n ≡ length bytes)
        × (q.write_cnt ≡ stream.write_cnt + length bytes)
        × (q.read_cnt ≡ stream.read_cnt)
        × (q.is_end ≡ stream.is_end)
        × (q.capacity ≡ stream.capacity)
  write-Feeds stream bytes f o room below small excerpt = (
    record {
      valid =
          ByteStream.Invariant.write-IsValid bytes f.valid
            (omega (arith, write_fields bytes f.valid));
      bytes =
          stored.1
          ∙ ap₂ ◌++◌ f.bytes (take_all (ByteStream.remaining_capacity stream) bytes room ∙ excerpt)
          ∙ ap
              (λ a.
                slice src stream.read_cnt (stream.write_cnt - stream.read_cnt)
                ++ slice src a (length bytes))
              {y = stream.read_cnt + (stream.write_cnt - stream.read_cnt)}
              (omega (arith, f.valid.ordered))
          ∙ slice-append src stream.read_cnt (stream.write_cnt - stream.read_cnt) (length bytes)
          ∙ ap₂ (slice src) (sym (write_fields bytes f.valid).1)
              (omega (arith, write_fields bytes f.valid, count, f.valid.ordered));
      below = omega (arith, write_fields bytes f.valid, count);
      ended = λ h. absurd (ground (arith, write_fields bytes f.valid));
    },
    count,
    omega (arith, write_fields bytes f.valid, count),
    (write_fields bytes f.valid).1,
    (write_fields bytes f.valid).3,
    (write_fields bytes f.valid).2,
  )
    where
      stored :
          ((ByteStream.write stream bytes).0
            ≡ min (length bytes) (ByteStream.remaining_capacity stream))
          × (contents (ByteStream.write stream bytes).1
              ≡ contents stream ++ take (ByteStream.remaining_capacity stream) bytes)
      stored = write_lem f.valid bytes (omega (arith, write_fields bytes f.valid))

      count : (ByteStream.write stream bytes).0 ≡ length bytes
      count = omega (arith, stored)

  pub end_input-Feeds :
      (stream : ByteStream)
      → Feeds stream
      → stream.write_cnt ≡ total
      → Feeds (ByteStream.end_input stream)
  unfolding ByteStream.end_input
  end_input-Feeds stream f e = record {
    valid = ByteStream.Invariant.end_input-IsValid f.valid;
    bytes = f.bytes;
    below = f.below;
    ended = λ _. e;
  }

  pub set_error-Feeds : (stream : ByteStream) → Feeds stream → Feeds (ByteStream.set_error stream)
  unfolding ByteStream.set_error
  set_error-Feeds stream f = record {
    valid = ByteStream.Invariant.set_error-IsValid f.valid;
    bytes = f.bytes;
    below = f.below;
    ended = f.ended;
  }

-- The place does not move when the stream is written to, ended or marked.
pub Place-stream :
    (next : ℕ) (s q : ByteStream)
    → q.read_cnt ≡ s.read_cnt
    → (s.is_end ≡ true → (q.is_end ≡ true) × (q.write_cnt ≡ s.write_cnt))
    → Place next s
    → Place next q
Place-stream next s q r w (fresh e z) = fresh e (r ∙ z)
Place-stream next s q r w (going e) = going (omega arith)
Place-stream next s q r w (over e h z) = over (omega arith) (w h).0 (r ∙ z ∙ sym (w h).1)
