-- ===== src/ByteStream/Queue.antt =====
-- A bounded queue of bytes with an end mark and two running totals, and the calls that a client can make,
-- with what it sees after each. As in byte_stream.cc, a write after the end of the input is taken, which
-- the comment of byte_stream.hh excludes.
use computer_network_labs.Base.{
  ℕ, ◌+◌, ◌-◌, min, Bool, true, ◌&&◌, List, [], ◌∷◌, ◌++◌, ◌==◌, length, take, drop,
}
use computer_network_labs.ByteStream.{
  ByteStream, write, peek_output, pop_output, read, end_input, input_ended, eof, bytes_written,
  bytes_read, buffer_size, remaining_capacity,
}

pub data Call : Type 0 where
  writes : List ℕ → Call
  peeks pops reads : ℕ → Call
  ends : Call

-- What a call returns, and what the accessors say after it.
pub record Reply : Type 0 where
  pub count : ℕ
  pub bytes : List ℕ
  pub buffered : ℕ
  pub room : ℕ
  pub total_in : ℕ
  pub total_out : ℕ
  pub ended : Bool
  pub at_eof : Bool

pub record Queue : Type 0 where
  pub items : List ℕ
  pub limit : ℕ
  pub total_in : ℕ
  pub total_out : ℕ
  pub ended : Bool

unfoldable pub observe : Queue → ℕ → List ℕ → Reply
observe q n bytes = record {
  count = n;
  bytes = bytes;
  buffered = length q.items;
  room = q.limit - length q.items;
  total_in = q.total_in;
  total_out = q.total_out;
  ended = q.ended;
  at_eof = q.ended && (length q.items == 0);
}

unfoldable pub enqueue : Queue → List ℕ → ℕ × Queue
enqueue q bytes =
    let n = min (length bytes) (q.limit - length q.items) in
    (
      n,
      record q {
        items = q.items ++ take (q.limit - length q.items) bytes;
        total_in = q.total_in + n;
      },
    )

unfoldable pub dequeue : Queue → ℕ → Queue
dequeue q n = record q { items = drop n q.items; total_out = q.total_out + min (length q.items) n }

-- The specification of one call.
unfoldable pub spec_step : Queue → Call → Reply × Queue
unfolding observe enqueue dequeue
spec_step q (writes bytes) = let (n, q') = enqueue q bytes in (observe q' n [], q')
spec_step q (peeks n) = (observe q 0 (take n q.items), q)
spec_step q (pops n) = let q' = dequeue q n in (observe q' 0 [], q')
spec_step q (reads n) = let q' = dequeue q n in (observe q' 0 (take n q.items), q')
spec_step q ends = let q' = record q { ended = true } in (observe q' 0 [], q')

unfoldable pub spec_run : Queue → List Call → List Reply
spec_run q [] = []
spec_run q (c ∷ cs) = let (r, q') = spec_step q c in r ∷ spec_run q' cs

unfoldable pub accessors : ByteStream → ℕ → List ℕ → Reply
accessors s n bytes = record {
  count = n;
  bytes = bytes;
  buffered = buffer_size s;
  room = remaining_capacity s;
  total_in = bytes_written s;
  total_out = bytes_read s;
  ended = input_ended s;
  at_eof = eof s;
}

-- The same call on the code.
unfoldable pub step : ByteStream → Call → Reply × ByteStream
step s (writes bytes) = let (n, s') = write s bytes in (accessors s' n [], s')
step s (peeks n) = (accessors s 0 (peek_output s n), s)
step s (pops n) = let s' = pop_output s n in (accessors s' 0 [], s')
step s (reads n) = let (bytes, s') = read s n in (accessors s' 0 bytes, s')
step s ends = let s' = end_input s in (accessors s' 0 [], s')

unfoldable pub run : ByteStream → List Call → List Reply
run s [] = []
run s (c ∷ cs) = let (r, s') = step s c in r ∷ run s' cs

-- The bytes that a script offers to `write`.
abbrev pub offered : List Call → ℕ
offered [] = 0
offered (writes bytes ∷ cs) = length bytes + offered cs
offered (peeks n ∷ cs) = offered cs
offered (pops n ∷ cs) = offered cs
offered (reads n ∷ cs) = offered cs
offered (ends ∷ cs) = offered cs
