-- ===== src/ByteStream/Invariant.antt =====
-- The representation invariant of byte_stream.cc, and what each operation computes under it.
use computer_network_labs.ByteStream.{
  ByteStream, init, buffer_size, remaining_capacity, write, peek_output, pop_output, read, rounds,
  write_loop, copy_loop, end_input, set_error,
}
use computer_network_labs.Base.{
  length, take, to_int, sign_extend, ℕ, ◌+◌, ◌-◌, ◌^◌, ◌≤◌, ◌<◌, min, ◌≡◌, refl, List, arith,
}

-- The indices are the counters, at most `capacity` apart, and no `int` comes near its limit.
pub record IsValid (s : ByteStream) : Type 0 where
  pub begin_eq : s.begin ≡ s.write_cnt
  pub end_eq : s.end ≡ s.read_cnt + s.capacity
  pub ordered : s.read_cnt ≤ s.write_cnt
  pub fits : s.write_cnt ≤ s.read_cnt + s.capacity
  pub small : s.write_cnt + s.capacity < 2 ^ 31

pub init-IsValid :
    (memory : ℕ → ℕ) (capacity : ℕ) → capacity < 2 ^ 31 → IsValid (init memory capacity)
unfolding init
init-IsValid memory capacity h = ground arith

module _ {s : ByteStream} (v : IsValid s) where
  pub buffer_size-eq : buffer_size s ≡ s.write_cnt - s.read_cnt
  unfolding buffer_size
  buffer_size-eq = ground arith

  pub remaining_capacity-eq : remaining_capacity s ≡ s.read_cnt + s.capacity - s.write_cnt
  unfolding remaining_capacity
  remaining_capacity-eq = ground arith

  -- What the reader has left and the writer has room for make up the capacity.
  pub buffer_size-add-remaining_capacity : buffer_size s + remaining_capacity s ≡ s.capacity
  buffer_size-add-remaining_capacity = omega (arith, buffer_size-eq, remaining_capacity-eq)

-- The bytes accepted.
abbrev pub accepted : ByteStream → List ℕ → ℕ
accepted s bytes = min (length bytes) (s.read_cnt + s.capacity - s.write_cnt)

-- The bytes taken from the buffer.
abbrev pub taken : ByteStream → ℕ → ℕ
taken s len = min (s.write_cnt - s.read_cnt) len

pub rounds_small :
    (n m : ℕ)
    → n ≡ m
    → m < 2 ^ 31
    → (rounds (to_int n) ≡ m) × (sign_extend (to_int n) ≡ m) × (to_int n ≡ m)
unfolding rounds
rounds_small n m e h = ground arith

pub write-eq :
    {s : ByteStream} (bytes : List ℕ)
    → IsValid s
    → write s bytes ≡ (
      accepted s bytes,
      record s {
        cells = write_loop s.capacity s.cells s.begin (take (accepted s bytes) bytes);
        begin = s.begin + accepted s bytes;
        write_cnt = s.write_cnt + accepted s bytes;
      },
    )
unfolding write
write-eq {s} bytes v = ground (
  arith,
  remaining_capacity-eq v,
  rounds_small (min (length bytes) (remaining_capacity s)) (accepted s bytes),
)

pub peek_output-eq :
    {s : ByteStream} (len : ℕ)
    → IsValid s
    → peek_output s len ≡ copy_loop s.capacity s.cells s.end (taken s len)
unfolding peek_output
peek_output-eq {s} len v =
    ground (arith, buffer_size-eq v, rounds_small (min (buffer_size s) len) (taken s len))

pub pop_output-eq :
    {s : ByteStream} (len : ℕ)
    → IsValid s
    → pop_output s len ≡ record s { end = s.end + taken s len; read_cnt = s.read_cnt + taken s len }
unfolding pop_output
pop_output-eq {s} len v =
    ground (arith, buffer_size-eq v, rounds_small (min (buffer_size s) len) (taken s len))

-- Reading is peeking and then popping.
pub read-eq-peek_output-pop_output :
    (s : ByteStream) (len : ℕ) → read s len ≡ (peek_output s len, pop_output s len)
unfolding read peek_output pop_output
read-eq-peek_output-pop_output s len = refl

pub write-IsValid :
    {s : ByteStream} (bytes : List ℕ)
    → IsValid s
    → s.write_cnt + accepted s bytes + s.capacity < 2 ^ 31
    → IsValid (write s bytes).1
write-IsValid {s} bytes v h = rw (write-eq bytes v) (ground arith)

pub pop_output-IsValid : {s : ByteStream} (len : ℕ) → IsValid s → IsValid (pop_output s len)
pop_output-IsValid {s} len v = rw (pop_output-eq len v) (ground arith)

pub read-IsValid : {s : ByteStream} (len : ℕ) → IsValid s → IsValid (read s len).1
read-IsValid {s} len v = rw (read-eq-peek_output-pop_output s len) (pop_output-IsValid len v)

pub end_input-IsValid : {s : ByteStream} → IsValid s → IsValid (end_input s)
unfolding end_input
end_input-IsValid v = ground arith

pub set_error-IsValid : {s : ByteStream} → IsValid s → IsValid (set_error s)
unfolding set_error
set_error-IsValid v = ground arith

-- Writing is invisible to the reader's counter.
pub read_cnt-write : (s : ByteStream) (bytes : List ℕ) → (write s bytes).1.read_cnt ≡ s.read_cnt
unfolding write
read_cnt-write s bytes = refl
