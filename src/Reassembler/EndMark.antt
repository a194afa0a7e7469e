-- ===== src/Reassembler/EndMark.antt =====
-- stream_reassembler.cc: when the end mark ends the output.
use computer_network_labs.ByteStream
use computer_network_labs.ByteStream.{ByteStream}
use computer_network_labs.Reassembler.Slice.{Fits}
use computer_network_labs.Reassembler.Soundness.{IsSound, push_substring-IsSound}
use computer_network_labs.Reassembler.{
  Segment, write_at, assemble_step, assemble_loop, with_eof, finish, assemble, push_substring,
  StreamReassembler, Assembly,
}
use computer_network_labs.Base.{
  if◌then◌else◌, length, add64, ℕ, ◌+◌, ◌-◌, ◌^◌, ◌<◌, ◌≡◌, refl, ◌∙◌, ◌⊎◌, inl, Bool, true, false,
  List, [], ◌∷◌, arith,
}

is_end-write_at :
    (k : ℕ) (v : List ℕ) (idx : ℕ) (out : ByteStream) → (write_at k v idx out).1.is_end ≡ out.is_end
unfolding write_at ByteStream.write
is_end-write_at k v idx out = refl

is_end-assemble_loop :
    (a : Assembly) (segs : List Segment) → (assemble_loop a segs).out.is_end ≡ a.out.is_end
unfolding assemble_loop assemble_step
is_end-assemble_loop a [] = refl
is_end-assemble_loop a ((k, v) ∷ segs) =
    is_end-assemble_loop (assemble_step a (k, v)) segs
    ∙ ground (arith, is_end-write_at k v a.idx a.out)

eof_idx-push_substring :
    (bytes : List ℕ) (index : ℕ) (eof : Bool) (r : StreamReassembler)
    → (push_substring bytes index eof r).eof_idx
      ≡ (if eof then add64 (length bytes) index else r.eof_idx)
unfolding push_substring assemble finish with_eof
eof_idx-push_substring bytes index eof r = ground arith

-- An open output is ended only at the mark.
is_end-push_substring :
    (bytes : List ℕ) (index : ℕ) (eof : Bool) (r : StreamReassembler)
    → r.output.is_end ≡ false
    → (push_substring bytes index eof r).output.is_end ≡ true
    → (push_substring bytes index eof r).assemble_idx ≡ (push_substring bytes index eof r).eof_idx
unfolding push_substring assemble finish with_eof ByteStream.end_input
is_end-push_substring bytes index eof r o h =
    let w = write_at index bytes r.assemble_idx r.output in
    ground (
      arith,
      is_end-write_at index bytes r.assemble_idx r.output,
      is_end-assemble_loop (record { idx = w.0; out = w.1; pop_list = [] }) r.segments,
    )

-- The mark is not set, or stands at `total`, and the output has ended only there.
pub record Marked (total : ℕ) (r : StreamReassembler) : Type 0 where
  pub mark : (r.eof_idx ≡ total) ⊎ (r.eof_idx ≡ 2 ^ 64 - 1)
  pub ended : r.output.is_end ≡ true → r.assemble_idx ≡ total

mark-push_substring :
    (total : ℕ) (bytes : List ℕ) (index : ℕ) (eof : Bool) (r : StreamReassembler)
    → total < 2 ^ 31
    → (eof ≡ true → index + length bytes ≡ total)
    → (r.eof_idx ≡ total) ⊎ (r.eof_idx ≡ 2 ^ 64 - 1)
    → ((push_substring bytes index eof r).eof_idx ≡ total)
      ⊎ ((push_substring bytes index eof r).eof_idx ≡ 2 ^ 64 - 1)
mark-push_substring total bytes index true r t e m =
    inl (omega (arith, eof_idx-push_substring bytes index true r, e refl))
mark-push_substring total bytes index false r t e m =
    rw (eof_idx-push_substring bytes index false r) m

-- A substring of the stream that is not yet ended, marked at its end only, ends the output exactly
-- when all `total` bytes are assembled.
pub push_substring-Marked :
    (src : ℕ → ℕ) (total : ℕ) (bytes : List ℕ) (index : ℕ) (eof : Bool) (r : StreamReassembler)
    → Fits src (total + 1) index bytes
    → IsSound src (total + 1) r
    → r.output.is_end ≡ false
    → (eof ≡ true → index + length bytes ≡ total)
    → Marked total r
    → Marked total (push_substring bytes index eof r)
push_substring-Marked src total bytes index eof r f i o e m =
    let s = push_substring-IsSound src (total + 1) bytes index eof r f i in
    let marked =
      mark-push_substring total bytes index eof r (omega (arith, i.holds.room)) e m.mark in
    record {
      mark = marked;
      ended = λ h.
          omega (
            arith,
            is_end-push_substring bytes index eof r o h,
            marked,
            s.holds.below,
            s.holds.room,
          );
    }
