-- ===== src/Buffer.antt =====
-- libsponge/util/buffer.hh and buffer.cc: strings that lose bytes at the front without a copy.
--
-- The storage of a Buffer is shared and never written, so that sharing cannot be seen: it is a value.
-- `none` is an exception. A `std::deque` is the list of its elements, the front first. Sizes are those
-- of memory, whose sums do not overflow.
pub mod Views
use computer_network_labs.Base.{
  ltb, ◌==◌, if◌then◌else◌, length, get_elem?, drop, ℕ, zero, suc, ◌+◌, ◌-◌, Option, none, some,
  List, [], ◌∷◌, ◌++◌,
}

pub record Buffer : Type 0 where
  pub storage : Option (List ℕ)
  pub starting_offset : ℕ

unfoldable pub default_buffer : Buffer
default_buffer = record { storage = none; starting_offset = 0 }

unfoldable pub of_string : List ℕ → Buffer
of_string bytes = record { storage = some bytes; starting_offset = 0 }

unfoldable pub visible : Option (List ℕ) → ℕ → List ℕ
visible none offset = []
visible (some bytes) offset = drop offset bytes

-- `str`, which `copy` copies.
unfoldable pub str : Buffer → List ℕ
unfolding visible
str b = visible b.storage b.starting_offset

-- `str().at(n)` throws past the end.
unfoldable pub at : Buffer → ℕ → Option ℕ
unfolding str
at b n = get_elem? (str b) n

unfoldable pub size : Buffer → ℕ
unfolding str
size b = length (str b)

-- The last test of `remove_prefix`: the storage is given back once all is discarded.
unfoldable pub release : ℕ → Option (List ℕ) → Option (List ℕ)
release offset none = none
release offset (some bytes) = if offset == length bytes then none else some bytes

unfoldable pub remove_prefix : ℕ → Buffer → Option Buffer
unfolding size release
remove_prefix n b =
    if ltb (size b) n
    then none
    else some (record b {
      starting_offset = b.starting_offset + n;
      storage = release (b.starting_offset + n) b.storage;
    })

abbrev pub BufferList : Type 0
BufferList = List Buffer

abbrev pub BufferViewList : Type 0
BufferViewList = List (List ℕ)

unfoldable pub append : BufferList → BufferList → BufferList
append buffers [] = buffers
append buffers (b ∷ other) = append (buffers ++ (b ∷ [])) other

-- `operator Buffer`: only a list of at most one Buffer is one.
unfoldable pub to_buffer : BufferList → Option Buffer
unfolding default_buffer
to_buffer [] = some default_buffer
to_buffer (b ∷ []) = some b
to_buffer (b ∷ c ∷ buffers) = none

-- The loop of `concatenate`: `ret.append(buf)`.
unfoldable pub concat_loop : List ℕ → BufferList → List ℕ
concat_loop ret [] = ret
concat_loop ret (b ∷ buffers) = concat_loop (ret ++ str b) buffers

unfoldable pub concatenate : BufferList → List ℕ
unfolding concat_loop
concatenate buffers = concat_loop [] buffers

unfoldable pub size_loop : ℕ → BufferList → ℕ
size_loop ret [] = ret
size_loop ret (b ∷ buffers) = size_loop (ret + size b) buffers

unfoldable pub list_size : BufferList → ℕ
unfolding size_loop
list_size buffers = size_loop 0 buffers

-- What the front Buffer becomes when part of it goes.
unfoldable pub put_front : Option Buffer → BufferList → Option BufferList
put_front none buffers = none
put_front (some b) buffers = some (b ∷ buffers)

-- `BufferList::remove_prefix`: `while (n > 0)`. Each round but the last takes a Buffer away.
unfoldable pub list_remove_prefix : ℕ → BufferList → Option BufferList
unfolding put_front remove_prefix
list_remove_prefix zero buffers = some buffers
list_remove_prefix (suc n) [] = none
list_remove_prefix (suc n) (b ∷ buffers) =
    let rest = list_remove_prefix (suc n - size b) buffers in
    if ltb (suc n) (size b) then put_front (remove_prefix (suc n) b) buffers else rest

-- `BufferViewList(const BufferList &)`
unfoldable pub views : BufferList → BufferViewList
views [] = []
views (b ∷ buffers) = str b ∷ views buffers

-- `BufferViewList::remove_prefix`
unfoldable pub view_remove_prefix : ℕ → BufferViewList → Option BufferViewList
view_remove_prefix zero list = some list
view_remove_prefix (suc n) [] = none
view_remove_prefix (suc n) (v ∷ list) =
    let rest = view_remove_prefix (suc n - length v) list in
    if ltb (suc n) (length v) then some (drop (suc n) v ∷ list) else rest

unfoldable pub view_size_loop : ℕ → BufferViewList → ℕ
view_size_loop ret [] = ret
view_size_loop ret (v ∷ list) = view_size_loop (ret + length v) list

unfoldable pub view_size : BufferViewList → ℕ
unfolding view_size_loop
view_size list = view_size_loop 0 list
