-- ===== src/Reassembler/Progress.antt =====
-- stream_reassembler.cc: how far data that continues what is assembled is written.
use computer_network_labs.Reassembler.{
  Segment, write_at, assemble_step, assemble_loop, with_eof, finish, assemble, push_substring,
  StreamReassembler, Assembly,
}
use computer_network_labs.Base.{length, ℕ, ◌+◌, ◌-◌, ◌≤◌, min, ◌≡◌, Bool, List, [], ◌∷◌, arith}
use computer_network_labs.ByteStream.Refine.{contents}
use computer_network_labs.ByteStream.{
  remaining_capacity, eof, bytes_written, bytes_read, ByteStream,
}
use computer_network_labs.Reassembler.Slice.{slice, AllFit, Fits}
use computer_network_labs.Reassembler.Soundness.{
  write-Holds, write_at-eq, write_at-Holds, assemble_step-Sound, write_count-sign,
  push_substring-IsSound, Holds, IsSound,
}

module _ (src : ℕ → ℕ) (limit : ℕ) where
  write_at_idx :
      (k idx : ℕ) (v : List ℕ) (out : ByteStream)
      → Fits src limit k v
      → k ≤ idx
      → idx ≤ k + length v
      → Holds src limit idx out
      → (write_at k v idx out).0 ≡ idx + min (k + length v - idx) (remaining_capacity out)
  write_at_idx k idx v out f h h' i =
      rw (write_at-eq src limit k idx v out (omega (arith, i.room)) f h h') (
        omega (
          arith,
          i.room,
          f.within,
          write-Holds src limit idx (length v - (idx - k)) out (omega (arith, f.within)) i,
        ))

  assemble_step_grows :
      (a : Assembly) (k : ℕ) (v : List ℕ)
      → Fits src limit k v
      → Holds src limit a.idx a.out
      → a.idx ≤ (assemble_step a (k, v)).idx
  unfolding assemble_step
  assemble_step_grows a k v f i = ground (arith, write_at_idx k a.idx v a.out f)

  assemble_loop_grows :
      (a : Assembly) (segs : List Segment)
      → AllFit src limit segs
      → Holds src limit a.idx a.out
      → a.idx ≤ (assemble_loop a segs).idx
  unfolding assemble_loop
  assemble_loop_grows a [] f i = omega arith
  assemble_loop_grows a ((k, v) ∷ segs) f i = omega (
    arith,
    assemble_step_grows a k v f.0 i,
    assemble_loop_grows (assemble_step a (k, v)) segs f.1
        (assemble_step-Sound src limit a k v f.0 i),
  )

  assemble_idx_progress :
      (bytes : List ℕ) (index : ℕ) (eof : Bool) (r : StreamReassembler)
      → Fits src limit index bytes
      → IsSound src limit r
      → index ≤ r.assemble_idx
      → r.assemble_idx ≤ index + length bytes
      → r.assemble_idx + min (index + length bytes - r.assemble_idx) (remaining_capacity r.output)
        ≤ (push_substring bytes index eof r).assemble_idx
  unfolding push_substring assemble finish with_eof
  assemble_idx_progress bytes index eof r f i h h' =
      let w = write_at index bytes r.assemble_idx r.output in
      let start : Assembly = record { idx = w.0; out = w.1; pop_list = [] } in
      ground (
        arith,
        i.holds.room,
        f.within,
        write_count-sign src limit bytes index r.assemble_idx,
        write_at_idx index r.assemble_idx bytes r.output f h h' i.holds,
        assemble_loop_grows start r.segments i.cache
            (write_at-Holds src limit index r.assemble_idx bytes r.output f h h' i.holds),
      )

  -- On a sound reassembler, an excerpt of `src` that begins at or before the assembled index and
  -- reaches it is written into the output stream to its end, or until the stream is full: the
  -- stream has then been given at least the bytes up to there, and holds those bytes of `src` that
  -- have not been read.
  pub push_substring_progress :
      (bytes : List ℕ) (index : ℕ) (eof : Bool) (r : StreamReassembler)
      → Fits src limit index bytes
      → IsSound src limit r
      → index ≤ r.assemble_idx
      → r.assemble_idx ≤ index + length bytes
      → let out = (push_substring bytes index eof r).output in
        (r.assemble_idx + min (index + length bytes - r.assemble_idx) (remaining_capacity r.output)
          ≤ bytes_written out)
        × (contents out ≡ slice src (bytes_read out) (bytes_written out - bytes_read out))
  unfolding bytes_written bytes_read
  push_substring_progress bytes index eof r f i h h' =
      let sound = push_substring-IsSound src limit bytes index eof r f i in
      (
        omega (arith, assemble_idx_progress bytes index eof r f i h h', sound.holds.count),
        sound.holds.bytes,
      )
