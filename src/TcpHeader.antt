-- ===== src/TcpHeader.antt =====
-- libsponge/tcp_helpers/tcp_header.hh and tcp_header.cc.
--
-- A flag is read from its bit by division; the bits that `serialize` joins by `|` are distinct, so
-- the join is a sum. The exception of `serialize` is `none`.
pub mod RoundTrip
use computer_network_labs.Base.{
  ltb, ◌==◌, if◌then◌else◌, sub64, ℕ, ◌+◌, ◌*◌, ◌/◌, ◌%◌, ◌^◌, Bool, false, Option, none, some,
  List, [],
}
use computer_network_labs.WrappingInts.{WrappingInt32}
use computer_network_labs.NetParser.{
  Parser, ◌>>=◌, error, u8, u16, u32, remove_prefix, unparse_int, resize, NetParser, ParseResult,
  no_error, header_too_short,
}

-- The header's length without options, in bytes.
abbrev pub header_length : ℕ
header_length = 20

pub record TcpHeader : Type 0 where
  pub sport : ℕ
  pub dport : ℕ
  pub seqno : WrappingInt32
  pub ackno : WrappingInt32
  pub doff : ℕ
  pub urg : Bool
  pub ack : Bool
  pub psh : Bool
  pub rst : Bool
  pub syn : Bool
  pub fin : Bool
  pub win : ℕ
  pub cksum : ℕ
  pub uptr : ℕ

-- The member initializers.
abbrev pub default_header : TcpHeader
default_header = record {
  sport = 0;
  dport = 0;
  seqno = 0;
  ackno = 0;
  doff = header_length / 4;
  urg = false;
  ack = false;
  psh = false;
  rst = false;
  syn = false;
  fin = false;
  win = 0;
  cksum = 0;
  uptr = 0;
}

-- `static_cast<bool>(byte & mask)` at the mask of one bit.
unfoldable pub has_bit : ℕ → ℕ → Bool
has_bit mask byte = byte / mask % 2 == 1

-- The fields in the order in which they are read.
unfoldable pub parse_fields : Parser TcpHeader
parse_fields = do
  sport ← u16
  dport ← u16
  seqno ← u32
  ackno ← u32
  offset_byte ← u8
  fl_b ← u8
  win ← u16
  cksum ← u16
  uptr ← u16
  λ p. (
    record {
      sport = sport;
      dport = dport;
      seqno = seqno;
      ackno = ackno;
      doff = offset_byte / 16;
      urg = has_bit 0x20 fl_b;
      ack = has_bit 0x10 fl_b;
      psh = has_bit 0x08 fl_b;
      rst = has_bit 0x04 fl_b;
      syn = has_bit 0x02 fl_b;
      fin = has_bit 0x01 fl_b;
      win = win;
      cksum = cksum;
      uptr = uptr;
    },
    p,
  )

-- What is left of `parse` once the fields are read: its result and the parser.
unfoldable pub parse_options : TcpHeader → NetParser → ParseResult × NetParser
parse_options h p =
    if ltb h.doff 5
    then (header_too_short, p)
    else let p' = remove_prefix (sub64 (h.doff * 4) header_length) p in
      if error p' then (p'.failure, p') else (no_error, p')

-- The fields are stored whatever the result is.
unfoldable pub parse : NetParser → ParseResult × TcpHeader × NetParser
parse p = let (h, p') = parse_fields p in let (result, q) = parse_options h p' in (result, h, q)

unfoldable pub bit : Bool → ℕ → ℕ
bit b mask = if b then mask else 0

unfoldable pub flag_byte : TcpHeader → ℕ
unfolding bit
flag_byte h =
    bit h.urg 0x20
    + bit h.ack 0x10
    + bit h.psh 0x08
    + bit h.rst 0x04
    + bit h.syn 0x02
    + bit h.fin 0x01

unfoldable pub serialize : TcpHeader → Option (List ℕ)
serialize h =
    if ltb h.doff 5
    then none
    else let ret = unparse_int 2 [] h.sport in
      let ret = unparse_int 2 ret h.dport in
      let ret = unparse_int 4 ret h.seqno in
      let ret = unparse_int 4 ret h.ackno in
      let ret = unparse_int 1 ret (h.doff * 16 % 2 ^ 8) in
      let ret = unparse_int 1 ret (flag_byte h) in
      let ret = unparse_int 2 ret h.win in
      let ret = unparse_int 2 ret h.cksum in
      let ret = unparse_int 2 ret h.uptr in some (resize (4 * h.doff) ret)
