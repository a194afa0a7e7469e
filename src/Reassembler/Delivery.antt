-- ===== src/Reassembler/Delivery.antt =====
-- stream_reassembler.cc: histories of pushes and reads, and what they deliver to the reader.
use computer_network_labs.ByteStream
use computer_network_labs.ByteStream.{ByteStream}
use computer_network_labs.ByteStream.Invariant
use computer_network_labs.ByteStream.Invariant.{read_cnt-write}
use computer_network_labs.ByteStream.Refine.{peek_output-eq-take}
use computer_network_labs.Reassembler.Slice.{slice, slice-append, take-slice-min, Fits}
use computer_network_labs.Reassembler.Soundness.{
  pop_output-Holds, init-IsSound, push_substring-IsSound, IsSound,
}
use computer_network_labs.Reassembler.{
  Segment, init, write_at, assemble_step, assemble_loop, with_eof, finish, assemble, push_substring,
  StreamReassembler, Assembly,
}
use computer_network_labs.Base.{
  take, ℕ, ◌+◌, ◌-◌, ◌^◌, ◌≤◌, ◌<◌, ◌≡◌, refl, ap, ap₂, ◌∙◌, subst, Bool, List, [], ◌∷◌, ◌++◌,
  arith,
}

-- A substring that arrives, or a read of the assembled stream.
pub data Event : Type 0 where
  push : List ℕ → ℕ → Bool → Event
  fetch : ℕ → Event

-- `stream_out().read(len)`
unfoldable pub fetch_step : ℕ → StreamReassembler → List ℕ × StreamReassembler
fetch_step len r =
    let (bytes, out) = ByteStream.read r.output len in (bytes, record r { output = out })

-- All that the reads of a history return, one after the other.
unfoldable pub run : List Event → StreamReassembler → List ℕ × StreamReassembler
run [] r = ([], r)
run (push bytes index eof ∷ es) r = run es (push_substring bytes index eof r)
run (fetch len ∷ es) r =
    let (bytes, r') = fetch_step len r in let (rest, q) = run es r' in (bytes ++ rest, q)

read_cnt-write_at :
    (k : ℕ) (v : List ℕ) (idx : ℕ) (out : ByteStream)
    → (write_at k v idx out).1.read_cnt ≡ out.read_cnt
unfolding write_at
read_cnt-write_at k v idx out = read_cnt-write out _

read_cnt-assemble_loop :
    (a : Assembly) (segs : List Segment) → (assemble_loop a segs).out.read_cnt ≡ a.out.read_cnt
unfolding assemble_loop assemble_step
read_cnt-assemble_loop a [] = refl
read_cnt-assemble_loop a ((k, v) ∷ segs) =
    read_cnt-assemble_loop (assemble_step a (k, v)) segs
    ∙ ground (arith, read_cnt-write_at k v a.idx a.out)

pub read_cnt-push_substring :
    (bytes : List ℕ) (index : ℕ) (eof : Bool) (r : StreamReassembler)
    → (push_substring bytes index eof r).output.read_cnt ≡ r.output.read_cnt
unfolding push_substring assemble finish with_eof ByteStream.end_input
read_cnt-push_substring bytes index eof r =
    let w = write_at index bytes r.assemble_idx r.output in
    ground (
      arith,
      read_cnt-write_at index bytes r.assemble_idx r.output,
      read_cnt-assemble_loop (record { idx = w.0; out = w.1; pop_list = [] }) r.segments,
    )

module _ (src : ℕ → ℕ) (limit : ℕ) where
  -- Every pushed substring is an excerpt of `src`, below the limit.
  abbrev pub AllExcerpts : List Event → Type 0
  AllExcerpts [] = Unit {0}
  AllExcerpts (push bytes index eof ∷ es) = Fits src limit index bytes × AllExcerpts es
  AllExcerpts (fetch len ∷ es) = AllExcerpts es

  -- The bytes are those of `src` from `start` to where the reader now stands.
  abbrev pub Delivered : ℕ → List ℕ × StreamReassembler → Type 0
  Delivered start (bytes, r) =
      IsSound src limit r
      × (bytes ≡ slice src start (r.output.read_cnt - start))
      × (start ≤ r.output.read_cnt)

  fetch_step-Delivered :
      (len : ℕ) (r : StreamReassembler)
      → IsSound src limit r
      → Delivered r.output.read_cnt (fetch_step len r)
  unfolding fetch_step
  fetch_step-Delivered len r i =
      rw (ByteStream.Invariant.read-eq-peek_output-pop_output r.output len) (
        record {
          holds = pop_output-Holds src limit r.assemble_idx len r.output i.holds;
          cache = i.cache;
        },
        peek_output-eq-take i.holds.valid len
            ∙ ap (take len) i.holds.bytes
            ∙ take-slice-min src len r.output.read_cnt (r.output.write_cnt - r.output.read_cnt)
            ∙ ap (slice src r.output.read_cnt)
                (ground (arith, ByteStream.Invariant.pop_output-eq len i.holds.valid)),
        ground (arith, ByteStream.Invariant.pop_output-eq len i.holds.valid),
      )

  Delivered-append :
      (a b : ℕ) (bytes rest : List ℕ) (q : StreamReassembler)
      → a ≤ b
      → bytes ≡ slice src a (b - a)
      → Delivered b (rest, q)
      → Delivered a (bytes ++ rest, q)
  Delivered-append a b bytes rest q h e (i, f, h') = (
    i,
    ap₂ ◌++◌ e (f ∙ ap (λ k. slice src k (q.output.read_cnt - b)) {y = a + (b - a)} (omega arith))
        ∙ slice-append src a (b - a) (q.output.read_cnt - b)
        ∙ ap (slice src a) (omega arith),
    omega arith,
  )

  -- Starting from any sound state, the reads of a history of excerpts return the bytes of `src` in
  -- order, without a gap, from where the reader stood.
  pub run-Delivered :
      (es : List Event) (r : StreamReassembler)
      → AllExcerpts es
      → IsSound src limit r
      → Delivered r.output.read_cnt (run es r)
  unfolding run
  run-Delivered [] r a i = (i, ap (slice src r.output.read_cnt) {x = 0} (omega arith), omega arith)
  run-Delivered (push bytes index eof ∷ es) r a i =
      subst (λ n. Delivered n (run es (push_substring bytes index eof r)))
        (read_cnt-push_substring bytes index eof r)
        (run-Delivered es (push_substring bytes index eof r) a.1
          (push_substring-IsSound src limit bytes index eof r a.0 i))
  run-Delivered (fetch len ∷ es) r a i =
      let (sound, bytes, forward) = fetch_step-Delivered len r i in
      Delivered-append r.output.read_cnt (fetch_step len r).1.output.read_cnt (fetch_step len r).0
        (run es (fetch_step len r).1).0 (run es (fetch_step len r).1).1 forward bytes
        (run-Delivered es (fetch_step len r).1 a sound)

  -- Let every substring pushed in a history be an excerpt, at its index and below `limit`, of one
  -- stream `src`, and let limit + capacity be below 2 ^ 31. Then all that the reads of the history
  -- return, in whatever order the excerpts come, overlap and mix with reads, is the beginning of
  -- `src` up to where the reader stands.
  pub run-init-eq-slice :
      (memory : ℕ → ℕ) (capacity : ℕ) (es : List Event)
      → limit + capacity < 2 ^ 31
      → AllExcerpts es
      → let (bytes, r) = run es (init memory capacity) in bytes ≡ slice src 0 r.output.read_cnt
  unfolding init
  run-init-eq-slice memory capacity es h a =
      (run-Delivered es (init memory capacity) a (init-IsSound src limit memory capacity h)).1
      ∙ ap (slice src 0) (omega arith)
