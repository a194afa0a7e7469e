-- ===== src/Ipv4Header/Fields.antt =====
-- ipv4_header.cc: the bytes that serialize writes, and the fields that are read from them.
use computer_network_labs.TcpHeader.{has_bit}
use computer_network_labs.NetParser.RoundTrip.{u8-int_bytes, u16-int_bytes, u32-int_bytes}
use computer_network_labs.NetParser.{ready, int_bytes, unparse_int, resize_lem}
use computer_network_labs.NetParser.{AllBytes-int_bytes}
use computer_network_labs.Ipv4Header.{parse_fields, fo_val, serialize, Ipv4Header}
use computer_network_labs.Base.{
  ◌==◌, le→ltb, length, replicate, AllBytes, AllBytes-append, ℕ, ◌+◌, ◌-◌, ◌*◌, ◌/◌, ◌%◌, ◌^◌, ◌≤◌,
  ◌<◌, ◌≡◌, refl, ap, false, not, some, List, ◌++◌, arith,
}

-- Every field is in the range of its type and of its width on the wire.
pub record IsValid (h : Ipv4Header) : Type 0 where
  pub ver_eq : h.ver ≡ 4
  pub hlen_ge : 5 ≤ h.hlen
  pub hlen_lt : h.hlen < 16
  pub tos_lt : h.tos < 2 ^ 8
  pub len_lt : h.len < 2 ^ 16
  pub id_lt : h.id < 2 ^ 16
  pub offset_lt : h.offset < 2 ^ 13
  pub ttl_lt : h.ttl < 2 ^ 8
  pub proto_lt : h.proto < 2 ^ 8
  pub cksum_lt : h.cksum < 2 ^ 16
  pub src_lt : h.src < 2 ^ 32
  pub dst_lt : h.dst < 2 ^ 32

-- The twenty bytes of the fields, and what follows them.
abbrev pub fixed_bytes : Ipv4Header → List ℕ → List ℕ
fixed_bytes h rest =
    int_bytes 1 (h.ver * 16 % 2 ^ 8 + h.hlen % 16)
    ++ (int_bytes 1 h.tos
        ++ (int_bytes 2 h.len
            ++ (int_bytes 2 h.id
                ++ (int_bytes 2 (fo_val h)
                    ++ (int_bytes 1 h.ttl
                        ++ (int_bytes 1 h.proto
                            ++ (int_bytes 2 h.cksum
                                ++ (int_bytes 4 h.src ++ (int_bytes 4 h.dst ++ rest)))))))))

abbrev pub padding : Ipv4Header → List ℕ
padding h = replicate (4 * h.hlen - 20) 0

pub serialize-eq :
    (h : Ipv4Header) → h.ver ≡ 4 → 5 ≤ h.hlen → serialize h ≡ some (fixed_bytes h (padding h))
unfolding serialize unparse_int
serialize-eq h v d =
    let checked : (not (h.ver == 4)) ≡ false = ground arith in
    rw checked (
      rw (le→ltb (4 * h.hlen) 20 (omega arith)) (ap some (resize_lem (4 * h.hlen) _ (omega arith))))

has_bit-fo_val :
    (h : Ipv4Header)
    → let b = fo_val h in
      (has_bit 0x4000 b ≡ h.df)
      × (has_bit 0x2000 b ≡ h.mf)
      × (b % 0x2000 ≡ h.offset % 0x2000)
      × (b < 2 ^ 16)
unfolding has_bit fo_val
has_bit-fo_val h = ground arith

first_byte_lem :
    (h : Ipv4Header)
    → IsValid h
    → let b = h.ver * 16 % 2 ^ 8 + h.hlen % 16 in (b / 16 ≡ h.ver) × (b % 16 ≡ h.hlen) × (b < 2 ^ 8)
first_byte_lem h v = omega (arith, v.ver_eq, v.hlen_lt)

offset-mod : (h : Ipv4Header) → IsValid h → h.offset % 0x2000 ≡ h.offset
offset-mod h v = let l = v.offset_lt in omega arith

-- The fields of a valid header are read back from its bytes.
pub parse_fields-fixed_bytes :
    (h : Ipv4Header) (rest : List ℕ)
    → IsValid h
    → parse_fields (ready (fixed_bytes h rest)) ≡ (h, ready rest)
unfolding parse_fields
parse_fields-fixed_bytes h rest v =
    rw
      (
        u8-int_bytes (h.ver * 16 % 2 ^ 8 + h.hlen % 16) _ (first_byte_lem h v).2,
        u8-int_bytes h.tos _ v.tos_lt,
        u16-int_bytes h.len _ v.len_lt,
        u16-int_bytes h.id _ v.id_lt,
        u16-int_bytes (fo_val h) _ (has_bit-fo_val h).3,
        u8-int_bytes h.ttl _ v.ttl_lt,
        u8-int_bytes h.proto _ v.proto_lt,
        u16-int_bytes h.cksum _ v.cksum_lt,
        u32-int_bytes h.src _ v.src_lt,
        u32-int_bytes h.dst _ v.dst_lt,
        (first_byte_lem h v).0,
        (first_byte_lem h v).1,
        (has_bit-fo_val h).0,
        (has_bit-fo_val h).1,
        (has_bit-fo_val h).2,
        offset-mod h v,
      )
      refl

pub length-fixed_bytes :
    (h : Ipv4Header) (rest : List ℕ) → length (fixed_bytes h rest) ≡ 20 + length rest
unfolding int_bytes
length-fixed_bytes h rest = omega arith

pub fixed_bytes-append :
    (h : Ipv4Header) (xs ys : List ℕ) → fixed_bytes h xs ++ ys ≡ fixed_bytes h (xs ++ ys)
unfolding int_bytes
fixed_bytes-append h xs ys = refl

pub AllBytes-fixed_bytes :
    (h : Ipv4Header) (rest : List ℕ) → AllBytes rest → AllBytes (fixed_bytes h rest)
AllBytes-fixed_bytes h rest a = field 1 (h.ver * 16 % 2 ^ 8 + h.hlen % 16) _ (
    field 1 h.tos _ (
      field 2 h.len _ (
        field 2 h.id _ (
          field 2 (fo_val h) _ (
            field 1 h.ttl _
              (field 1 h.proto _ (field 2 h.cksum _ (field 4 h.src _ (field 4 h.dst _ a)))))))))
  where
    field : (n val : ℕ) (bs : List ℕ) → AllBytes bs → AllBytes (int_bytes n val ++ bs)
    field n val bs b = AllBytes-append (int_bytes n val) bs (AllBytes-int_bytes n val) b
