-- ===== src/ByteStream.antt =====
-- libsponge/byte_stream.hh and byte_stream.cc: the flow-controlled in-memory byte stream, a ring of
-- `capacity` cells between two running indices.
--
-- `_begin` and `_end` are `int`s, kept as their 32-bit patterns; the counters are `size_t`s. The cells
-- are what the constructor's `reserve` allocates: their first contents are arbitrary, an argument of
-- `init`. `begin` is where the next byte is written and `end - capacity` where the next is read.
pub mod Invariant
pub mod Window
pub mod Queue
pub mod Refine
use computer_network_labs.Base.{
  ℕ, zero, suc, ◌+◌, ◌%◌, min, Bool, true, false, ◌&&◌, List, [], ◌∷◌, ◌==◌, if◌then◌else◌, length,
  take, add64, sub64, add32, to_int, is_negative, sign_extend,
}

pub record ByteStream : Type 0 where
  pub cells : ℕ → ℕ
  pub is_end : Bool
  pub begin : ℕ
  pub end : ℕ
  pub write_cnt : ℕ
  pub read_cnt : ℕ
  pub capacity : ℕ
  pub has_error : Bool

unfoldable pub init : (ℕ → ℕ) → ℕ → ByteStream
init memory capacity = record {
  cells = memory;
  is_end = false;
  begin = 0;
  end = to_int capacity;
  write_cnt = 0;
  read_cnt = 0;
  capacity = capacity;
  has_error = false;
}

-- `_begin - (_end - _capacity)`, in `size_t` arithmetic.
unfoldable pub buffer_size : ByteStream → ℕ
buffer_size s = sub64 (sign_extend s.begin) (sub64 (sign_extend s.end) s.capacity)

unfoldable pub buffer_empty : ByteStream → Bool
unfolding buffer_size
buffer_empty s = buffer_size s == 0

unfoldable pub remaining_capacity : ByteStream → ℕ
unfolding buffer_size
remaining_capacity s = sub64 s.capacity (buffer_size s)

unfoldable pub set_cell : (ℕ → ℕ) → ℕ → ℕ → ℕ → ℕ
set_cell cells i v j = if j == i then v else cells j

-- The loop of `write`: `_data[i % _capacity] = data[j]` from `i = _begin` on.
unfoldable pub write_loop : ℕ → (ℕ → ℕ) → ℕ → List ℕ → ℕ → ℕ
unfolding set_cell
write_loop capacity cells i [] = cells
write_loop capacity cells i (x ∷ xs) =
    write_loop capacity (set_cell cells (sign_extend i % capacity) x) (add32 i 1) xs

-- How often a loop `for (i = a; i < a + n; i++)` runs: not at all if the `int` n is negative.
unfoldable pub rounds : ℕ → ℕ
rounds n = if is_negative n then 0 else n

unfoldable pub write : ByteStream → List ℕ → ℕ × ByteStream
write s bytes =
    let write_size = to_int (min (length bytes) (remaining_capacity s)) in
    (
      sign_extend write_size,
      record s {
        cells = write_loop s.capacity s.cells s.begin (take (rounds write_size) bytes);
        begin = add32 s.begin write_size;
        write_cnt = add64 s.write_cnt (sign_extend write_size);
      },
    )

-- The loop of `peek_output` and of `read`, which copies `n` cells from index `i` on.
unfoldable pub copy_loop : ℕ → (ℕ → ℕ) → ℕ → ℕ → List ℕ
copy_loop capacity cells i zero = []
copy_loop capacity cells i (suc n) =
    cells (sign_extend i % capacity) ∷ copy_loop capacity cells (add32 i 1) n

unfoldable pub peek_output : ByteStream → ℕ → List ℕ
peek_output s len =
    let peek_size = to_int (min (buffer_size s) len) in
    copy_loop s.capacity s.cells s.end (rounds peek_size)

unfoldable pub pop_output : ByteStream → ℕ → ByteStream
pop_output s len =
    let pop_size = to_int (min (buffer_size s) len) in
    record s { end = add32 s.end pop_size; read_cnt = add64 s.read_cnt (sign_extend pop_size) }

unfoldable pub read : ByteStream → ℕ → List ℕ × ByteStream
read s len =
    let read_size = to_int (min (buffer_size s) len) in
    (
      copy_loop s.capacity s.cells s.end (rounds read_size),
      record s { read_cnt = add64 s.read_cnt (sign_extend read_size); end = add32 s.end read_size },
    )

unfoldable pub end_input : ByteStream → ByteStream
end_input s = record s { is_end = true }

unfoldable pub set_error : ByteStream → ByteStream
set_error s = record s { has_error = true }

unfoldable pub input_ended : ByteStream → Bool
input_ended s = s.is_end

unfoldable pub eof : ByteStream → Bool
unfolding buffer_empty
eof s = s.is_end && buffer_empty s

unfoldable pub bytes_written : ByteStream → ℕ
bytes_written s = s.write_cnt

unfoldable pub bytes_read : ByteStream → ℕ
bytes_read s = s.read_cnt

unfoldable pub error : ByteStream → Bool
error s = s.has_error
