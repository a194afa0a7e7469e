-- ===== src/ByteStream/Refine.antt =====
-- byte_stream.cc against a bounded queue of bytes.
use computer_network_labs.ByteStream.{
  ByteStream, buffer_size, remaining_capacity, write, peek_output, pop_output, read, write_loop,
}
use computer_network_labs.ByteStream.Invariant.{
  IsValid, accepted, taken, buffer_size-eq, remaining_capacity-eq, write-eq, peek_output-eq,
  pop_output-eq, read-eq-peek_output-pop_output,
}
use computer_network_labs.ByteStream.{
  bytes_written, bytes_read, buffer_empty, input_ended, eof, end_input,
}
use computer_network_labs.ByteStream.Queue.{
  Queue, Call, writes, peeks, pops, reads, ends, observe, enqueue, dequeue, accessors, step, run,
  spec_step, spec_run, offered,
}
use computer_network_labs.ByteStream.Invariant.{
  buffer_size-eq, write-IsValid, pop_output-IsValid, end_input-IsValid,
}
use computer_network_labs.ByteStream.Window.{
  window, length-window, take-window, drop-window, window-add_cap, copy_loop-eq, window-write_loop,
}
use computer_network_labs.Base.{
  length, take, drop, length-take, take-min-length, ℕ, ◌+◌, ◌-◌, ◌^◌, ◌≤◌, ◌<◌, min, ◌≡◌, refl, sym,
  ap, ap₂, ◌∙◌, List, [], ◌∷◌, ◌++◌, arith,
}

-- The bytes written and not yet popped, oldest first.
abbrev pub contents : ByteStream → List ℕ
contents s = window s.capacity s.cells s.read_cnt (s.write_cnt - s.read_cnt)

module _ {s : ByteStream} (v : IsValid s) where
  pub length-contents : length (contents s) ≡ buffer_size s
  length-contents =
      length-window s.capacity s.cells s.read_cnt (s.write_cnt - s.read_cnt)
      ∙ sym (buffer_size-eq v)

  -- peek_output copies the oldest bytes and
  pub peek_output-eq-take : (len : ℕ) → peek_output s len ≡ take len (contents s)
  peek_output-eq-take len =
      peek_output-eq len v
      ∙ copy_loop-eq s.capacity s.cells s.end (taken s len) (omega arith)
      ∙ ap (λ k. window s.capacity s.cells k (taken s len)) v.end_eq
      ∙ window-add_cap s.capacity s.cells s.read_cnt (taken s len)
      ∙ sym (take-window s.capacity s.cells s.read_cnt (s.write_cnt - s.read_cnt) len)

  pub contents-pop_output : (len : ℕ) → contents (pop_output s len) ≡ drop len (contents s)
  contents-pop_output len =
      ap contents (pop_output-eq len v)
      ∙ ap (window s.capacity s.cells (s.read_cnt + taken s len)) (omega arith)
      ∙ sym (drop-window s.capacity s.cells s.read_cnt (s.write_cnt - s.read_cnt) len)

  pub read_lem :
      (len : ℕ)
      → ((read s len).0 ≡ take len (contents s)) × (contents (read s len).1 ≡ drop len (contents s))
  read_lem len =
      rw (read-eq-peek_output-pop_output s len) (peek_output-eq-take len, contents-pop_output len)

  -- On a valid stream, while the bytes written and the capacity stay below 2 ^ 31, `write` returns
  -- the smaller of the number of bytes and the room, and appends that many of the bytes to the
  -- contents.
  pub write_lem :
      (bytes : List ℕ)
      → s.write_cnt + accepted s bytes + s.capacity < 2 ^ 31
      → ((write s bytes).0 ≡ min (length bytes) (remaining_capacity s))
        × (contents (write s bytes).1 ≡ contents s ++ take (remaining_capacity s) bytes)
  write_lem bytes h =
      rw (write-eq bytes v) (ap (min (length bytes)) (sym (remaining_capacity-eq v)), stored)
    where
      n : ℕ
      n = s.write_cnt - s.read_cnt

      room : ℕ
      room = s.read_cnt + s.capacity - s.write_cnt

      written : List ℕ
      written = take (accepted s bytes) bytes

      count : length written ≡ accepted s bytes
      count = omega (arith, length-take (accepted s bytes) bytes)

      stored :
          window s.capacity
            (write_loop s.capacity s.cells s.begin written)
            s.read_cnt
            (s.write_cnt + accepted s bytes - s.read_cnt)
          ≡ contents s ++ take (remaining_capacity s) bytes
      stored =
          ap₂ (λ k m. window s.capacity (write_loop s.capacity s.cells k written) s.read_cnt m)
            (omega arith) (omega (arith, count))
          ∙ window-write_loop s.capacity s.cells s.read_cnt n written (omega (arith, count))
              (omega (arith, count))
          ∙ ap (◌++◌ (contents s))
              (take-min-length room bytes ∙ ap (λ k. take k bytes) (sym (remaining_capacity-eq v)))

-- What `write` does to the fields that `contents` does not show.
pub write_fields :
    {s : ByteStream} (bytes : List ℕ)
    → IsValid s
    → let (n, s') = write s bytes in
      (s'.write_cnt ≡ s.write_cnt + n)
      × (s'.read_cnt ≡ s.read_cnt)
      × (s'.capacity ≡ s.capacity)
      × (s'.is_end ≡ s.is_end)
      × (n ≤ length bytes)
      × (accepted s bytes ≡ n)
write_fields bytes v = ground (arith, write-eq bytes v)

-- The queue that a stream holds.
abbrev pub view : ByteStream → Queue
view s = record {
  items = contents s;
  limit = s.capacity;
  total_in = s.write_cnt;
  total_out = s.read_cnt;
  ended = s.is_end;
}

accessors-observe :
    {s : ByteStream} (n : ℕ) (bytes : List ℕ)
    → IsValid s
    → accessors s n bytes ≡ observe (view s) n bytes
unfolding accessors observe bytes_written bytes_read input_ended eof buffer_empty
accessors-observe {s} n bytes v =
    ground (arith, buffer_size-eq v, remaining_capacity-eq v, length-contents v)

view-write :
    {s : ByteStream} (bytes : List ℕ)
    → IsValid s
    → s.write_cnt + length bytes + s.capacity < 2 ^ 31
    → ((write s bytes).0, view (write s bytes).1) ≡ enqueue (view s) bytes
unfolding enqueue
view-write {s} bytes v h = ground (
  arith,
  write-eq bytes v,
  write_lem v bytes,
  remaining_capacity-eq v,
  buffer_size-eq v,
  length-contents v,
)

view-pop_output : {s : ByteStream} (n : ℕ) → IsValid s → view (pop_output s n) ≡ dequeue (view s) n
unfolding dequeue
view-pop_output {s} n v =
    ground (arith, pop_output-eq n v, contents-pop_output v n, buffer_size-eq v, length-contents v)

-- Each call answers as the queue does and leaves the stream holding the queue's next state.
step_refines :
    {s : ByteStream} (c : Call)
    → IsValid s
    → s.write_cnt + offered (c ∷ []) + s.capacity < 2 ^ 31
    → let (r, s') = step s c in (r, view s') ≡ spec_step (view s) c
unfolding step spec_step end_input
step_refines {s} (writes bytes) v h = ground (
  arith,
  view-write bytes v,
  accessors-observe (write s bytes).0 [] (write-IsValid bytes v (omega arith)),
)
step_refines {s} (peeks n) v h =
    ground (arith, accessors-observe 0 (peek_output s n) v, peek_output-eq-take v n)
step_refines {s} (pops n) v h =
    ground (arith, accessors-observe 0 [] (pop_output-IsValid n v), view-pop_output n v)
step_refines {s} (reads n) v h = ground (
  arith,
  read-eq-peek_output-pop_output s n,
  accessors-observe 0 (peek_output s n) (pop_output-IsValid n v),
  view-pop_output n v,
  peek_output-eq-take v n,
)
step_refines {s} ends v h = ground (arith, accessors-observe 0 [] (end_input-IsValid v))

step-IsValid :
    {s : ByteStream} (c : Call)
    → IsValid s
    → s.write_cnt + offered (c ∷ []) + s.capacity < 2 ^ 31
    → IsValid (step s c).1
      × ((step s c).1.capacity ≡ s.capacity)
      × ((step s c).1.write_cnt ≤ s.write_cnt + offered (c ∷ []))
unfolding step end_input
step-IsValid {s} (writes bytes) v h = (
  write-IsValid bytes v (omega arith),
  ground (arith, write-eq bytes v),
  ground (arith, write-eq bytes v),
)
step-IsValid {s} (peeks n) v h = (v, refl, omega arith)
step-IsValid {s} (pops n) v h =
    (pop_output-IsValid n v, ground (arith, pop_output-eq n v), ground (arith, pop_output-eq n v))
step-IsValid {s} (reads n) v h =
    rw (read-eq-peek_output-pop_output s n)
      (pop_output-IsValid n v, ground (arith, pop_output-eq n v), ground (arith, pop_output-eq n v))
step-IsValid {s} ends v h = (end_input-IsValid v, refl, omega arith)

offered-cons : (c : Call) (cs : List Call) → offered (c ∷ cs) ≡ offered (c ∷ []) + offered cs
offered-cons (writes bytes) cs = omega arith
offered-cons (peeks n) cs = omega arith
offered-cons (pops n) cs = omega arith
offered-cons (reads n) cs = omega arith
offered-cons ends cs = omega arith

-- On a valid stream, while the bytes ever offered and the capacity stay below 2 ^ 31, a sequence of
-- calls, writes after the end of the input included, gets from the ring buffer the replies,
-- accessors included, that it gets from a bounded queue of the contents of the stream, which also
-- takes bytes after its end.
pub run_refines :
    (cs : List Call) {s : ByteStream}
    → IsValid s
    → s.write_cnt + offered cs + s.capacity < 2 ^ 31
    → run s cs ≡ spec_run (view s) cs
unfolding run spec_run
run_refines [] v h = refl
run_refines (c ∷ cs) {s} v h = ground (
  arith,
  step_refines c v (omega (arith, offered-cons c cs)),
  run_refines cs (step-IsValid c v (omega (arith, offered-cons c cs))).0
      (omega (arith, offered-cons c cs, step-IsValid c v (omega (arith, offered-cons c cs)))),
)
