-- ===== src/NetParser/RoundTrip.antt =====
-- util/parser.cc: the reads of NetParser on what NetUnparser appends, and how they fail.
use computer_network_labs.Base.{
  length, drop, length-append, length-drop, drop-append, drop-drop, ℕ, ◌+◌, ◌^◌, ◌≤◌, ◌<◌, ◌≡◌, ap,
  ◌∙◌, ◌↔◌, true, none, List, ◌++◌, arith,
}
use computer_network_labs.NetParser.{
  as_string, ready, error, parse_int, u8, u16, u32, remove_prefix, int_bytes, NetParser,
  ParseResult, packet_too_short, unsupported,
}

pub u8-int_bytes :
    (v : ℕ) (rest : List ℕ) → v < 2 ^ 8 → u8 (ready (int_bytes 1 v ++ rest)) ≡ (v, ready rest)
unfolding u8 int_bytes
u8-int_bytes v rest h = ground arith

pub u16-int_bytes :
    (v : ℕ) (rest : List ℕ) → v < 2 ^ 16 → u16 (ready (int_bytes 2 v ++ rest)) ≡ (v, ready rest)
unfolding u16 int_bytes
u16-int_bytes v rest h = ground arith

pub u32-int_bytes :
    (v : ℕ) (rest : List ℕ) → v < 2 ^ 32 → u32 (ready (int_bytes 4 v ++ rest)) ≡ (v, ready rest)
unfolding u32 int_bytes
u32-int_bytes v rest h = ground arith

pub remove_prefix-append :
    (xs rest : List ℕ) (n : ℕ) → n ≡ length xs → remove_prefix n (ready (xs ++ rest)) ≡ ready rest
unfolding remove_prefix
remove_prefix-append xs rest n e = rw e (ground (arith, length-append xs rest, drop-append xs rest))

-- A read that has its bytes takes them and reports no error.
pub parse_int_ok :
    (len : ℕ) (bytes : List ℕ)
    → len ≤ length bytes
    → (parse_int len (ready bytes)).1 ≡ ready (drop len bytes)
unfolding parse_int
parse_int_ok len bytes h = ground arith

-- Whatever width is read, a buffer that is too short gives 0, keeps its bytes and reports the error.
pub parse_int_short :
    (len : ℕ) (p : NetParser)
    → length p.buffer < len
    → parse_int len p ≡ (0, record p { failure = packet_too_short })
unfolding parse_int
parse_int_short len p h = ground arith

-- An error is never lost: after one, a read gives 0 and leaves the buffer.
pub parse_int_failed :
    (len : ℕ) (p : NetParser)
    → error p ≡ true
    → ((parse_int len p).0 ≡ 0)
      × ((parse_int len p).1.buffer ≡ p.buffer)
      × (error (parse_int len p).1 ≡ true)
unfolding parse_int
parse_int_failed len p h = ground arith

-- The table of names covers every result but the last.
pub as_string-eq-none_iff : (r : ParseResult) → (as_string r ≡ none) ↔ (r ≡ unsupported)
unfolding as_string
as_string-eq-none_iff r = ground arith

module _ (bytes : List ℕ) where
  parse_int-at :
      (len k : ℕ)
      → k + len ≤ length bytes
      → (parse_int len (ready (drop k bytes))).1 ≡ ready (drop (k + len) bytes)
  parse_int-at len k h =
      parse_int_ok len (drop k bytes) (omega (arith, length-drop k bytes))
      ∙ ap ready (drop-drop len k bytes)

  -- Reads inside a buffer move on by their width.
  pub u8-at :
      (k : ℕ) → k + 1 ≤ length bytes → (u8 (ready (drop k bytes))).1 ≡ ready (drop (k + 1) bytes)
  unfolding u8
  u8-at k h = parse_int-at 1 k h

  pub u16-at :
      (k : ℕ) → k + 2 ≤ length bytes → (u16 (ready (drop k bytes))).1 ≡ ready (drop (k + 2) bytes)
  unfolding u16
  u16-at k h = parse_int-at 2 k h

  pub u32-at :
      (k : ℕ) → k + 4 ≤ length bytes → (u32 (ready (drop k bytes))).1 ≡ ready (drop (k + 4) bytes)
  unfolding u32
  u32-at k h = parse_int-at 4 k h
