-- ===== src/TcpHeader/RoundTrip.antt =====
-- tcp_header.cc: the bytes that serialize writes, and parse on them.
use computer_network_labs.TcpHeader.{
  header_length, has_bit, parse_fields, parse_options, parse, flag_byte, serialize, TcpHeader,
}
use computer_network_labs.NetParser.RoundTrip.{
  u8-int_bytes, u16-int_bytes, u32-int_bytes, remove_prefix-append,
}
use computer_network_labs.Base.{
  le→ltb, length, replicate, length-replicate, AllBytes, AllBytes-append, sub64, ℕ, ◌+◌, ◌-◌, ◌*◌,
  ◌/◌, ◌%◌, ◌^◌, ◌≤◌, ◌<◌, ◌≡◌, refl, ap, some, List, ◌++◌, arith,
}
use computer_network_labs.NetParser.{
  ready, error, int_bytes, unparse_int, resize_lem, AllBytes-int_bytes, no_error,
}

-- Every field is in the range of its type, and `doff` in the four bits that it has on the wire.
pub record IsValid (h : TcpHeader) : Type 0 where
  pub sport_lt : h.sport < 2 ^ 16
  pub dport_lt : h.dport < 2 ^ 16
  pub seqno_lt : h.seqno < 2 ^ 32
  pub ackno_lt : h.ackno < 2 ^ 32
  pub doff_ge : 5 ≤ h.doff
  pub doff_lt : h.doff < 16
  pub win_lt : h.win < 2 ^ 16
  pub cksum_lt : h.cksum < 2 ^ 16
  pub uptr_lt : h.uptr < 2 ^ 16

-- The twenty bytes of the fields, and the padding.
abbrev pub fixed_bytes : TcpHeader → List ℕ → List ℕ
fixed_bytes h rest =
    int_bytes 2 h.sport
    ++ (int_bytes 2 h.dport
        ++ (int_bytes 4 h.seqno
            ++ (int_bytes 4 h.ackno
                ++ (int_bytes 1 (h.doff * 16 % 2 ^ 8)
                    ++ (int_bytes 1 (flag_byte h)
                        ++ (int_bytes 2 h.win
                            ++ (int_bytes 2 h.cksum ++ (int_bytes 2 h.uptr ++ rest))))))))

abbrev pub padding : TcpHeader → List ℕ
padding h = replicate (4 * h.doff - 20) 0

pub serialize-eq : (h : TcpHeader) → 5 ≤ h.doff → serialize h ≡ some (fixed_bytes h (padding h))
unfolding serialize unparse_int
serialize-eq h d = rw (le→ltb h.doff 5 d) (ap some (resize_lem (4 * h.doff) _ (omega arith)))

has_bit-flag_byte :
    (h : TcpHeader)
    → let b = flag_byte h in
      (has_bit 0x20 b ≡ h.urg)
      × (has_bit 0x10 b ≡ h.ack)
      × (has_bit 0x08 b ≡ h.psh)
      × (has_bit 0x04 b ≡ h.rst)
      × (has_bit 0x02 b ≡ h.syn)
      × (has_bit 0x01 b ≡ h.fin)
      × (b < 2 ^ 8)
unfolding has_bit flag_byte
has_bit-flag_byte h = ground arith

doff-div : {h : TcpHeader} → IsValid h → h.doff * 16 % 2 ^ 8 / 16 ≡ h.doff
doff-div v = omega arith

-- The fields of a valid header are read back from its bytes.
pub parse_fields-fixed_bytes :
    (h : TcpHeader) (rest : List ℕ)
    → IsValid h
    → parse_fields (ready (fixed_bytes h rest)) ≡ (h, ready rest)
unfolding parse_fields
parse_fields-fixed_bytes h rest v = rw (
  u16-int_bytes h.sport _ v.sport_lt,
  u16-int_bytes h.dport _ v.dport_lt,
  u32-int_bytes h.seqno _ v.seqno_lt,
  u32-int_bytes h.ackno _ v.ackno_lt,
  u8-int_bytes (h.doff * 16 % 2 ^ 8) _ (omega arith),
  u8-int_bytes (flag_byte h) _ (has_bit-flag_byte h).6,
  u16-int_bytes h.win _ v.win_lt,
  u16-int_bytes h.cksum _ v.cksum_lt,
  u16-int_bytes h.uptr _ v.uptr_lt,
  (has_bit-flag_byte h).0,
  (has_bit-flag_byte h).1,
  (has_bit-flag_byte h).2,
  (has_bit-flag_byte h).3,
  (has_bit-flag_byte h).4,
  (has_bit-flag_byte h).5,
  doff-div v,
)

pub fixed_bytes-append :
    (h : TcpHeader) (xs ys : List ℕ) → fixed_bytes h xs ++ ys ≡ fixed_bytes h (xs ++ ys)
unfolding int_bytes
fixed_bytes-append h xs ys = refl

pub length-fixed_bytes :
    (h : TcpHeader) (rest : List ℕ) → length (fixed_bytes h rest) ≡ 20 + length rest
unfolding int_bytes
length-fixed_bytes h rest = omega arith

parse_options-padding :
    (h : TcpHeader) (rest : List ℕ)
    → IsValid h
    → parse_options h (ready (padding h ++ rest)) ≡ (no_error, ready rest)
unfolding parse_options error
parse_options-padding h rest v = rw (
  le→ltb h.doff 5 v.doff_ge,
  remove_prefix-append (padding h) rest (sub64 (h.doff * 4) header_length)
      (omega (arith, length-replicate {A = ℕ} (4 * h.doff - 20) 0)),
)

pub parse-fixed_bytes :
    (h : TcpHeader) (rest : List ℕ)
    → IsValid h
    → parse (ready (fixed_bytes h (padding h) ++ rest)) ≡ (no_error, h, ready rest)
unfolding parse
parse-fixed_bytes h rest v = rw (
  fixed_bytes-append h (padding h) rest,
  parse_fields-fixed_bytes h (padding h ++ rest) v,
  parse_options-padding h rest v,
)

-- A header whose fields fit their widths, with a data offset of at least 5, is serialized to 4 *
-- doff bytes; parsing them, whatever follows, gives every field back and leaves exactly what
-- follows.
pub parse-serialize :
    (h : TcpHeader) (rest : List ℕ)
    → IsValid h
    → (bytes : List ℕ) × (serialize h ≡ some bytes)
      × (length bytes ≡ 4 * h.doff)
      × (parse (ready (bytes ++ rest)) ≡ (no_error, h, ready rest))
parse-serialize h rest v = (
  fixed_bytes h (padding h),
  serialize-eq h v.doff_ge,
  omega (arith, length-fixed_bytes h (padding h), length-replicate {A = ℕ} (4 * h.doff - 20) 0),
  parse-fixed_bytes h rest v,
)

pub AllBytes-fixed_bytes :
    (h : TcpHeader) (rest : List ℕ) → AllBytes rest → AllBytes (fixed_bytes h rest)
AllBytes-fixed_bytes h rest a = field 2 h.sport _ (
    field 2 h.dport _ (
      field 4 h.seqno _ (
        field 4 h.ackno _ (
          field 1 (h.doff * 16 % 2 ^ 8) _
            (field 1 (flag_byte h) _ (field 2 h.win _ (field 2 h.cksum _ (field 2 h.uptr _ a))))))))
  where
    field : (n val : ℕ) (bs : List ℕ) → AllBytes bs → AllBytes (int_bytes n val ++ bs)
    field n val bs b = AllBytes-append (int_bytes n val) bs (AllBytes-int_bytes n val) b
