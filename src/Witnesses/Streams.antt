-- ===== src/Witnesses/Streams.antt =====
-- Instances for byte_stream.cc and stream_reassembler.cc.
use computer_network_labs.ByteStream
use computer_network_labs.ByteStream.Invariant.{init-IsValid}
use computer_network_labs.ByteStream.Queue
use computer_network_labs.ByteStream.Queue.{Call, writes, reads, peeks, ends, spec_run}
use computer_network_labs.Reassembler
use computer_network_labs.Reassembler.{
  StreamReassembler, push_substring, merge_segments, unassembled_bytes,
}
use computer_network_labs.Reassembler.Soundness.{init-IsSound}
use computer_network_labs.Reassembler.Delivery
use computer_network_labs.Reassembler.Delivery.{Event, push, fetch, run-init-eq-slice}
use computer_network_labs.Reassembler.Progress.{push_substring_progress}
use computer_network_labs.Base.{ℕ, ◌+◌, ◌-◌, ◌≤◌, min, ◌≡◌, refl, true, false, List, [], ◌∷◌, arith}
use computer_network_labs.ByteStream.{
  init, remaining_capacity, bytes_written, bytes_read, ByteStream,
}
use computer_network_labs.ByteStream.Refine.{contents, view, run_refines}
use computer_network_labs.Reassembler.Slice.{slice, Fits}

abbrev pub memory : ℕ → ℕ
memory i = 0

-- The stream 10, 11, 12, …
abbrev pub source : ℕ → ℕ
source i = 10 + i

abbrev calls : List Call
calls = writes (1 ∷ 2 ∷ 3 ∷ 4 ∷ 5 ∷ []) ∷ reads 3 ∷ writes (6 ∷ 7 ∷ []) ∷ peeks 9 ∷ ends ∷ []

run_refines_example :
    ByteStream.Queue.run (ByteStream.init memory 4) calls
    ≡ spec_run (view (ByteStream.init memory 4)) calls
unfolding ByteStream.init
run_refines_example = run_refines calls (init-IsValid memory 4 (omega arith)) (omega arith)

Fits-late : Fits source 100 2 (12 ∷ 13 ∷ [])
Fits-late = record { within = omega arith; excerpt = refl }

Fits-early : Fits source 100 0 (10 ∷ 11 ∷ 12 ∷ [])
Fits-early = record { within = omega arith; excerpt = refl }

abbrev events : List Event
events = push (12 ∷ 13 ∷ []) 2 true ∷ push (10 ∷ 11 ∷ 12 ∷ []) 0 false ∷ fetch 4 ∷ []

run-init-eq-slice_example :
    let (bytes, r) = Reassembler.Delivery.run events (Reassembler.init memory 8) in
    bytes ≡ slice source 0 r.output.read_cnt
run-init-eq-slice_example =
    run-init-eq-slice source 100 memory 8 events (omega arith) (Fits-late, (Fits-early, tt))

push_substring_progress_example :
    let r = Reassembler.init memory 8 in
    let out = (push_substring (10 ∷ 11 ∷ 12 ∷ []) 0 false r).output in
    (r.assemble_idx + min (0 + 3 - r.assemble_idx) (ByteStream.remaining_capacity r.output)
      ≤ bytes_written out)
    × (contents out ≡ slice source (bytes_read out) (bytes_written out - bytes_read out))
unfolding Reassembler.init
push_substring_progress_example =
    push_substring_progress source 100 (10 ∷ 11 ∷ 12 ∷ []) 0 false (Reassembler.init memory 8)
      Fits-early (init-IsSound source 100 memory 8 (omega arith)) (omega arith) (omega arith)
