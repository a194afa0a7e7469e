-- ===== src/Reassembler.antt =====
-- libsponge/stream_reassembler.hh and stream_reassembler.cc.
--
-- The `std::map<size_t, string>` is the list of its entries in the order of their keys. Indices are
-- `size_t`s; `_begin` and `write_cnt` of `push_substring` are `int`s. `substr(pos, n)` is
-- `take n (drop pos _)`: it throws for a `pos` past the end, which the tests before each call rule out
-- while indices stay below 2 ^ 31.
pub mod Slice
pub mod MergeSound
pub mod Soundness
pub mod Delivery
pub mod CacheLimit
pub mod Progress
pub mod EndMark
use computer_network_labs.ByteStream
use computer_network_labs.ByteStream.{ByteStream}
use computer_network_labs.Base.{
  ltb, leb, ◌==◌, if◌then◌else◌, length, take, drop, add64, sub64, to_int, is_negative, sign_extend,
  ℕ, ◌-◌, ◌^◌, Bool, true, false, ◌&&◌, ◌||◌, List, [], ◌∷◌, ◌++◌,
}

abbrev pub Segment : Type 0
Segment = ℕ × List ℕ

pub record StreamReassembler : Type 0 where
  pub assemble_idx : ℕ
  pub eof_idx : ℕ
  pub segments : List Segment
  pub output : ByteStream
  pub capacity : ℕ

-- `eof_idx(-1)`; the memory is that of the stream.
unfoldable pub init : (ℕ → ℕ) → ℕ → StreamReassembler
unfolding ByteStream.init
init memory capacity = record {
  assemble_idx = 0;
  eof_idx = 2 ^ 64 - 1;
  segments = [];
  output = ByteStream.init memory capacity;
  capacity = capacity;
}

-- `map::erase(key)`
unfoldable pub erase : ℕ → List Segment → List Segment
erase key [] = []
erase key ((k, v) ∷ segs) = if k == key then segs else (k, v) ∷ erase key segs

-- The loops `for (auto id : list) _segments.erase(id)`.
unfoldable pub erase_all : List ℕ → List Segment → List Segment
erase_all [] segs = segs
erase_all (key ∷ keys) segs = erase_all keys (erase key segs)

-- `map[key] = data`
unfoldable pub assign : ℕ → List ℕ → List Segment → List Segment
assign key bytes [] = (key, bytes) ∷ []
assign key bytes ((k, v) ∷ segs) =
    if ltb key k
    then (key, bytes) ∷ (k, v) ∷ segs
    else if k == key
    then (k, bytes) ∷ segs
    else (k, v) ∷ assign key bytes segs

unfoldable pub total_size : List Segment → ℕ
total_size [] = 0
total_size ((k, v) ∷ segs) = add64 (length v) (total_size segs)

unfoldable pub unassembled_bytes : StreamReassembler → ℕ
unfolding total_size
unassembled_bytes r = total_size r.segments

unfoldable pub empty : StreamReassembler → Bool
unfolding unassembled_bytes
empty r = unassembled_bytes r == 0

-- The local variables of `merge_segments`.
pub record Merge : Type 0 where
  pub data_lft : ℕ
  pub data_rgt : ℕ
  pub data_cpy : List ℕ
  pub remove_list : List ℕ
  pub cached : Bool

-- The second test of the loop's body: the data begins inside the cached segment.
unfoldable pub join_right : Merge → Segment → Merge
join_right m (k, v) =
    if ltb k m.data_lft && leb m.data_lft (add64 k (length v))
    then (if leb m.data_rgt (add64 k (length v))
        then record m { cached = false }
        else let joined = take (sub64 m.data_lft k) v ++ m.data_cpy in
          record m {
            data_cpy = joined;
            data_lft = k;
            data_rgt = add64 k (length joined);
            remove_list = m.remove_list ++ (k ∷ []);
          })
    else m

-- The data covers the start of the segment and not its end: its tail is the segment's.
unfoldable pub join_left : Merge → Segment → Merge
join_left m (k, v) =
    let joined = take (sub64 k m.data_lft) m.data_cpy ++ v in
    record m {
      data_cpy = joined;
      data_rgt = add64 m.data_lft (length joined);
      remove_list = m.remove_list ++ (k ∷ []);
    }

-- The first test: the cached segment begins inside the data. Only when the data covers it does the
-- round end there (`continue`).
unfoldable pub merge_step : Merge → Segment → Merge
merge_step m (k, v) =
    if leb m.data_lft k && leb k m.data_rgt
    then (if leb (add64 k (length v)) m.data_rgt
        then record m { remove_list = m.remove_list ++ (k ∷ []) }
        else join_right (join_left m (k, v)) (k, v))
    else join_right m (k, v)

unfoldable pub merge_loop : Merge → List Segment → Merge
merge_loop m [] = m
merge_loop m (seg ∷ segs) = merge_loop (merge_step m seg) segs

unfoldable pub start_merge : ℕ → List ℕ → Merge
start_merge index bytes = record {
  data_lft = index;
  data_rgt = add64 index (length bytes);
  data_cpy = bytes;
  remove_list = [];
  cached = true;
}

unfoldable pub merge_segments : ℕ → List ℕ → List Segment → List Segment
merge_segments index bytes segs =
    let m = merge_loop (start_merge index bytes) segs in
    let kept = erase_all m.remove_list segs in
    if m.cached then assign m.data_lft m.data_cpy kept else kept

-- The variables that the loop of `push_substring` changes.
pub record Assembly : Type 0 where
  pub idx : ℕ
  pub out : ByteStream
  pub pop_list : List ℕ

-- `assemble_idx += _output.write(data.substr(_begin, write_cnt))` for the data at `index`.
unfoldable pub write_at : ℕ → List ℕ → ℕ → ByteStream → ℕ × ByteStream
write_at index bytes assemble_idx out =
    let begin = to_int (sub64 assemble_idx index) in
    let write_cnt = to_int (sub64 (length bytes) (sign_extend begin)) in
    let (n, out') =
      ByteStream.write out (take (sign_extend write_cnt) (drop (sign_extend begin) bytes)) in
    (add64 assemble_idx n, out')

unfoldable pub assemble_step : Assembly → Segment → Assembly
assemble_step a (k, v) =
    if leb (add64 k (length v)) a.idx || (length v == 0)
    then record a { pop_list = a.pop_list ++ (k ∷ []) }
    else if ltb a.idx k
    then a
    else let (idx, out) = write_at k v a.idx a.out in
      record { idx = idx; out = out; pop_list = a.pop_list ++ (k ∷ []) }

unfoldable pub assemble_loop : Assembly → List Segment → Assembly
assemble_loop a [] = a
assemble_loop a (seg ∷ segs) = assemble_loop (assemble_step a seg) segs

unfoldable pub with_eof : List ℕ → ℕ → Bool → StreamReassembler → StreamReassembler
with_eof bytes index eof r = if eof then record r { eof_idx = add64 (length bytes) index } else r

-- The last test of `push_substring`.
unfoldable pub finish : StreamReassembler → StreamReassembler
finish r =
    if empty r && (r.assemble_idx == r.eof_idx)
    then record r { output = ByteStream.end_input r.output }
    else r

-- From the first write on: the expected data, the cached segments, the clean-up and the end mark.
unfoldable pub assemble : List ℕ → ℕ → StreamReassembler → StreamReassembler
assemble bytes index r =
    let (idx, out) = write_at index bytes r.assemble_idx r.output in
    let a = assemble_loop (record { idx = idx; out = out; pop_list = [] }) r.segments in
    finish (record r {
      assemble_idx = a.idx;
      output = a.out;
      segments = erase_all a.pop_list r.segments;
    })

-- `data.size() - _begin` as an `int`, which the code tests for its sign.
unfoldable pub write_count : List ℕ → ℕ → ℕ → ℕ
write_count bytes index assemble_idx =
    to_int (sub64 (length bytes) (sign_extend (to_int (sub64 assemble_idx index))))

unfoldable pub push_substring : List ℕ → ℕ → Bool → StreamReassembler → StreamReassembler
push_substring bytes index eof r =
    let r' = with_eof bytes index eof r in
    if ltb r.assemble_idx index
    then record r' { segments = merge_segments index bytes r.segments }
    else if is_negative (write_count bytes index r.assemble_idx)
    then r'
    else assemble bytes index r'
