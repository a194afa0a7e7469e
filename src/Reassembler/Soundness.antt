-- ===== src/Reassembler/Soundness.antt =====
-- stream_reassembler.cc: the invariant of the assembled output and of the cache.
use computer_network_labs.ByteStream
use computer_network_labs.ByteStream.{ByteStream}
use computer_network_labs.ByteStream.Invariant
use computer_network_labs.ByteStream.Refine.{contents, write_lem, write_fields, contents-pop_output}
use computer_network_labs.Reassembler.MergeSound.{erase_all-AllFit, merge_segments-AllFit}
use computer_network_labs.Reassembler.{
  Segment, init, erase_all, write_at, assemble_step, assemble_loop, with_eof, finish, assemble,
  write_count, push_substring, StreamReassembler, Assembly,
}
use computer_network_labs.Reassembler.Slice.{
  slice, length-slice, slice-append, take-slice-min, drop-slice-min, Excerpt-drop, AllFit, Fits,
}
use computer_network_labs.Base.{
  ltb, length, take, drop, length-drop, take_all, add64, sub64, to_int, is_negative, sign_extend, ℕ,
  ◌+◌, ◌-◌, ◌^◌, ◌≤◌, ◌<◌, min, ◌≡◌, sym, ap, ap₂, ◌∙◌, Bool, true, false, List, [], ◌∷◌, ◌++◌,
  arith,
}

module _ (src : ℕ → ℕ) (limit : ℕ) where
  -- The stream has taken the first `idx` bytes of `src`, and still holds those not read.
  pub record Holds (idx : ℕ) (out : ByteStream) : Type 0 where
    pub valid : ByteStream.Invariant.IsValid out
    pub count : idx ≡ out.write_cnt
    pub below : idx ≤ limit
    pub room : limit + out.capacity < 2 ^ 31
    pub bytes : contents out ≡ slice src out.read_cnt (out.write_cnt - out.read_cnt)

  -- Writing the stream's next bytes keeps this.
  pub write-Holds :
      (idx n : ℕ) (out : ByteStream)
      → idx + n ≤ limit
      → Holds idx out
      → let (k, out') = ByteStream.write out (slice src idx n) in
        Holds (add64 idx k) out'
        × (k ≡ min n (ByteStream.remaining_capacity out))
        × (out'.capacity ≡ out.capacity)
  write-Holds idx n out h i = (
    record {
      valid = ByteStream.Invariant.write-IsValid bytes i.valid (omega (arith, facts, size));
      count = omega (arith, facts, size);
      below = omega (arith, facts, size);
      room = omega (arith, facts);
      bytes =
          (write_lem i.valid bytes bound).1
          ∙ ap₂ ◌++◌ i.bytes (take-slice-min src (ByteStream.remaining_capacity out) idx n)
          ∙ ap
              (λ a.
                slice src out.read_cnt (out.write_cnt - out.read_cnt)
                ++ slice src a (min n (ByteStream.remaining_capacity out)))
              {y = out.read_cnt + (out.write_cnt - out.read_cnt)} (omega arith)
          ∙ slice-append src out.read_cnt (out.write_cnt - out.read_cnt)
              (min n (ByteStream.remaining_capacity out))
          ∙ ap₂ (slice src) (sym facts.1)
              (omega (arith, facts, size, (write_lem i.valid bytes bound).0));
    },
    (write_lem i.valid bytes bound).0 ∙ ap (λ m. min m (ByteStream.remaining_capacity out)) size,
    facts.2,
  )
    where
      bytes : List ℕ
      bytes = slice src idx n

      size : length bytes ≡ n
      size = length-slice src idx n

      facts :
          let (k, out') = ByteStream.write out bytes in
          (out'.write_cnt ≡ out.write_cnt + k)
          × (out'.read_cnt ≡ out.read_cnt)
          × (out'.capacity ≡ out.capacity)
          × (out'.is_end ≡ out.is_end)
          × (k ≤ length bytes)
          × (ByteStream.Invariant.accepted out bytes ≡ k)
      facts = write_fields bytes i.valid

      bound : out.write_cnt + ByteStream.Invariant.accepted out bytes + out.capacity < 2 ^ 31
      bound = omega (arith, facts, size, i.count, i.room)

  -- The part of the data that is new.
  new_bytes :
      (k idx : ℕ) (v : List ℕ)
      → Fits src limit k v
      → k ≤ idx
      → idx ≤ k + length v
      → take (length v - (idx - k)) (drop (idx - k) v) ≡ slice src idx (length v - (idx - k))
  new_bytes k idx v f h h' =
      take_all (length v - (idx - k)) (drop (idx - k) v) (omega (arith, length-drop (idx - k) v))
      ∙ Excerpt-drop src (idx - k) k v (omega arith) f.excerpt
      ∙ ap (λ a. slice src a (length v - (idx - k))) (omega arith)

  pub write_at-eq :
      (k idx : ℕ) (v : List ℕ) (out : ByteStream)
      → limit < 2 ^ 31
      → Fits src limit k v
      → k ≤ idx
      → idx ≤ k + length v
      → let (n, out') = ByteStream.write out (slice src idx (length v - (idx - k))) in
        write_at k v idx out ≡ (add64 idx n, out')
  unfolding write_at
  write_at-eq k idx v out small f h h' =
      let begin : sign_extend (to_int (sub64 idx k)) ≡ idx - k = ground arith in
      let count : sign_extend (to_int (sub64 (length v) (idx - k))) ≡ length v - (idx - k) =
        ground arith in
      rw (begin, count, new_bytes k idx v f h h')

  pub write_at-Holds :
      (k idx : ℕ) (v : List ℕ) (out : ByteStream)
      → Fits src limit k v
      → k ≤ idx
      → idx ≤ k + length v
      → Holds idx out
      → let (idx', out') = write_at k v idx out in Holds idx' out'
  write_at-Holds k idx v out f h h' i =
      rw (write_at-eq k idx v out (omega arith) f h h')
        (write-Holds idx (length v - (idx - k)) out (omega (arith, f.within)) i).0

  -- Reading, ending and marking an error leave it in place.
  pub end_input-Holds :
      {idx : ℕ} {out : ByteStream} → Holds idx out → Holds idx (ByteStream.end_input out)
  unfolding ByteStream.end_input
  end_input-Holds i = ground arith

  pub pop_output-Holds :
      (idx len : ℕ) (out : ByteStream) → Holds idx out → Holds idx (ByteStream.pop_output out len)
  pop_output-Holds idx len out i = record {
    valid = ByteStream.Invariant.pop_output-IsValid len i.valid;
    count = ground (arith, ByteStream.Invariant.pop_output-eq len i.valid);
    below = i.below;
    room = ground (arith, ByteStream.Invariant.pop_output-eq len i.valid);
    bytes =
        contents-pop_output i.valid len
        ∙ ap (drop len) i.bytes
        ∙ drop-slice-min src len out.read_cnt (out.write_cnt - out.read_cnt)
        ∙ ap₂ (slice src) (ground (arith, ByteStream.Invariant.pop_output-eq len i.valid))
            (ground (arith, ByteStream.Invariant.pop_output-eq len i.valid));
  }

  abbrev pub Sound : Assembly → Type 0
  Sound a = Holds a.idx a.out

  pub assemble_step-Sound :
      (a : Assembly) (k : ℕ) (v : List ℕ)
      → Fits src limit k v
      → Sound a
      → Sound (assemble_step a (k, v))
  unfolding assemble_step
  assemble_step-Sound a k v f i = ground (arith, write_at-Holds k a.idx v a.out f)

  assemble_loop-Sound :
      (a : Assembly) (segs : List Segment)
      → AllFit src limit segs
      → Sound a
      → Sound (assemble_loop a segs)
  unfolding assemble_loop
  assemble_loop-Sound a [] f i = i
  assemble_loop-Sound a ((k, v) ∷ segs) f i =
      assemble_loop-Sound (assemble_step a (k, v)) segs f.1 (assemble_step-Sound a k v f.0 i)

  -- What is written is a prefix of `src`, and what is cached are excerpts of it.
  pub record IsSound (r : StreamReassembler) : Type 0 where
    pub holds : Holds r.assemble_idx r.output
    pub cache : AllFit src limit r.segments

  pub init-IsSound :
      (memory : ℕ → ℕ) (capacity : ℕ) → limit + capacity < 2 ^ 31 → IsSound (init memory capacity)
  unfolding init
  init-IsSound memory capacity h = ground arith

  finish-IsSound : (r : StreamReassembler) → IsSound r → IsSound (finish r)
  unfolding finish
  finish-IsSound r i = ground (arith, end_input-Holds i.holds)

  with_eof-IsSound :
      (bytes : List ℕ) (index : ℕ) (eof : Bool) (r : StreamReassembler)
      → IsSound r
      → IsSound (with_eof bytes index eof r)
  unfolding with_eof
  with_eof-IsSound bytes index true r i = record { holds = i.holds; cache = i.cache }
  with_eof-IsSound bytes index false r i = i

  -- The sign test of `push_substring`, for indices within the limit.
  pub write_count-sign :
      (bytes : List ℕ) (index idx : ℕ)
      → idx ≤ limit
      → limit < 2 ^ 31
      → index + length bytes ≤ limit
      → index ≤ idx
      → is_negative (write_count bytes index idx) ≡ ltb (index + length bytes) idx
  unfolding write_count
  write_count-sign bytes index idx h0 h1 h2 h3 = ground arith

  assemble-IsSound :
      (bytes : List ℕ) (index : ℕ) (r : StreamReassembler)
      → Fits src limit index bytes
      → index ≤ r.assemble_idx
      → r.assemble_idx ≤ index + length bytes
      → IsSound r
      → IsSound (assemble bytes index r)
  unfolding assemble
  assemble-IsSound bytes index r f h h' i =
      let w = write_at index bytes r.assemble_idx r.output in
      let start : Assembly = record { idx = w.0; out = w.1; pop_list = [] } in
      let a = assemble_loop start r.segments in
      finish-IsSound
        (record r {
          assemble_idx = a.idx;
          output = a.out;
          segments = erase_all a.pop_list r.segments;
        })
        (record {
          holds =
              assemble_loop-Sound start r.segments i.cache
                (write_at-Holds index r.assemble_idx bytes r.output f h h' i.holds);
          cache = erase_all-AllFit src limit (omega arith) a.pop_list r.segments i.cache;
        })

  with_eof_fields :
      (bytes : List ℕ) (index : ℕ) (eof : Bool) (r : StreamReassembler)
      → let r' = with_eof bytes index eof r in
        (r'.assemble_idx ≡ r.assemble_idx) × (r'.segments ≡ r.segments) × (r'.output ≡ r.output)
  unfolding with_eof
  with_eof_fields bytes index eof r = ground arith

  -- Pushing an excerpt of `src` keeps the reassembler sound: what it has written and what it caches
  -- are bytes of `src` at their places.
  pub push_substring-IsSound :
      (bytes : List ℕ) (index : ℕ) (eof : Bool) (r : StreamReassembler)
      → Fits src limit index bytes
      → IsSound r
      → IsSound (push_substring bytes index eof r)
  unfolding push_substring
  push_substring-IsSound bytes index eof r f i = ground (
    arith,
    with_eof-IsSound bytes index eof r i,
    with_eof_fields bytes index eof r,
    merge_segments-AllFit src limit (omega arith) index bytes r.segments f i.cache,
    write_count-sign bytes index r.assemble_idx,
    assemble-IsSound bytes index (with_eof bytes index eof r) f,
  )
