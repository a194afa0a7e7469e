-- ===== src/Ipv4Header.antt =====
-- libsponge/tcp_helpers/ipv4_header.hh and ipv4_header.cc.
--
-- A flag is read from its bit by division; the bits that `serialize` joins by `|` are distinct, so the
-- join is a sum. The exceptions of `serialize` are `none`.
pub mod Fields
pub mod RoundTrip
use computer_network_labs.NetParser.{
  Parser, ◌>>=◌, error, u8, u16, u32, remove_prefix, unparse_int, resize, NetParser, ParseResult,
  no_error, bad_checksum, packet_too_short, wrong_ip_version, header_too_short, truncated_packet,
}
use computer_network_labs.TcpHeader.{has_bit, bit}
use computer_network_labs.TcpSegment.{checksum_value}
use computer_network_labs.Base.{
  ltb, ◌==◌, if◌then◌else◌, length, take, add32, ℕ, ◌+◌, ◌-◌, ◌*◌, ◌/◌, ◌%◌, ◌^◌, Bool, true, false,
  not, Option, none, some, List, [],
}

abbrev pub header_length : ℕ
header_length = 20

abbrev pub proto_tcp : ℕ
proto_tcp = 6

abbrev pub default_ttl : ℕ
default_ttl = 128

pub record Ipv4Header : Type 0 where
  pub ver : ℕ
  pub hlen : ℕ
  pub tos : ℕ
  pub len : ℕ
  pub id : ℕ
  pub df : Bool
  pub mf : Bool
  pub offset : ℕ
  pub ttl : ℕ
  pub proto : ℕ
  pub cksum : ℕ
  pub src : ℕ
  pub dst : ℕ

-- The member initializers.
abbrev pub default_header : Ipv4Header
default_header = record {
  ver = 4;
  hlen = header_length / 4;
  tos = 0;
  len = 0;
  id = 0;
  df = true;
  mf = false;
  offset = 0;
  ttl = default_ttl;
  proto = proto_tcp;
  cksum = 0;
  src = 0;
  dst = 0;
}

-- The fields in the order in which they are read.
unfoldable pub parse_fields : Parser Ipv4Header
parse_fields = do
  first_byte ← u8
  tos ← u8
  len ← u16
  id ← u16
  fo_val ← u16
  ttl ← u8
  proto ← u8
  cksum ← u16
  src ← u32
  dst ← u32
  λ p. (
    record {
      ver = first_byte / 16;
      hlen = first_byte % 16;
      tos = tos;
      len = len;
      id = id;
      df = has_bit 0x4000 fo_val;
      mf = has_bit 0x2000 fo_val;
      offset = fo_val % 0x2000;
      ttl = ttl;
      proto = proto;
      cksum = cksum;
      src = src;
      dst = dst;
    },
    p,
  )

-- What is left of `parse` once the fields are read, with the whole buffer: its result and the parser.
unfoldable pub parse_rest : List ℕ → Ipv4Header → NetParser → ParseResult × NetParser
parse_rest original h p =
    if ltb (length original) (4 * h.hlen)
    then (packet_too_short, p)
    else if not (h.ver == 4)
    then (wrong_ip_version, p)
    else if ltb h.hlen 5
    then (header_too_short, p)
    else if not (length original == h.len)
    then (truncated_packet, p)
    else let p' = remove_prefix (h.hlen * 4 - header_length) p in
      if error p'
      then (p'.failure, p')
      else if not (checksum_value 0 (take (4 * h.hlen) original) == 0)
      then (bad_checksum, p')
      else (no_error, p')

-- The method writes the header that it is called on, unless the buffer is too short for one.
unfoldable pub parse : Ipv4Header → NetParser → ParseResult × Ipv4Header × NetParser
parse old p =
    if ltb (length p.buffer) header_length
    then (packet_too_short, old, p)
    else let (h, p') = parse_fields p in
      let (result, q) = parse_rest p.buffer h p' in (result, h, q)

-- The flags and the offset.
unfoldable pub fo_val : Ipv4Header → ℕ
unfolding bit
fo_val h = bit h.df 0x4000 + bit h.mf 0x2000 + h.offset % 0x2000

unfoldable pub serialize : Ipv4Header → Option (List ℕ)
serialize h =
    if not (h.ver == 4)
    then none
    else if ltb (4 * h.hlen) header_length
    then none
    else let ret = unparse_int 1 [] (h.ver * 16 % 2 ^ 8 + h.hlen % 16) in
      let ret = unparse_int 1 ret h.tos in
      let ret = unparse_int 2 ret h.len in
      let ret = unparse_int 2 ret h.id in
      let ret = unparse_int 2 ret (fo_val h) in
      let ret = unparse_int 1 ret h.ttl in
      let ret = unparse_int 1 ret h.proto in
      let ret = unparse_int 2 ret h.cksum in
      let ret = unparse_int 4 ret h.src in
      let ret = unparse_int 4 ret h.dst in some (resize (4 * h.hlen) ret)

-- `len - 4 * hlen`, as a `uint16_t`; `hlen` has 8 bits.
unfoldable pub payload_length : Ipv4Header → ℕ
payload_length h = (h.len + 2 ^ 16 - 4 * h.hlen) % 2 ^ 16

unfoldable pub pseudo_cksum : Ipv4Header → ℕ
pseudo_cksum h =
    let pcksum = h.src / 2 ^ 16 + h.src % 2 ^ 16 in
    let pcksum = add32 pcksum (h.dst / 2 ^ 16 + h.dst % 2 ^ 16) in
    let pcksum = add32 pcksum h.proto in add32 pcksum (payload_length h)
