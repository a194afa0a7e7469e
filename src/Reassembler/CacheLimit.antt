-- ===== src/Reassembler/CacheLimit.antt =====
-- stream_reassembler.cc: the size of the cache.
use computer_network_labs.Base.{lt→ltb, length, ℕ, ◌^◌, ◌<◌, ◌≡◌, Bool, List, [], arith}
use computer_network_labs.Reassembler.{
  erase_all, assign, unassembled_bytes, merge_loop, start_merge, merge_segments, push_substring,
  StreamReassembler,
}

-- A substring that begins beyond the assembled index and finds the cache empty is cached whole,
-- whatever the capacity is.
pub unassembled_bytes-push_substring :
    (bytes : List ℕ) (index : ℕ) (eof : Bool) (r : StreamReassembler)
    → length bytes < 2 ^ 64
    → r.assemble_idx < index
    → r.segments ≡ []
    → unassembled_bytes (push_substring bytes index eof r) ≡ length bytes
unfolding unassembled_bytes push_substring merge_segments merge_loop start_merge erase_all assign
unassembled_bytes-push_substring bytes index eof r h k e =
    rw (lt→ltb r.assemble_idx index k, e) (omega arith)
