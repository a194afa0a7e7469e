-- ===== src/TcpSegment/RoundTrip.antt =====
-- tcp_segment.cc: the bytes that serialize writes with their checksum, and parse on them.
use computer_network_labs.Checksum
use computer_network_labs.TcpHeader.{TcpHeader, flag_byte}
use computer_network_labs.NetParser.{int_bytes, no_error}
use computer_network_labs.Checksum.Laws.{
  word_sum, parity_after, word_sum-le, add_lem, add-append, value-add_value,
}
use computer_network_labs.TcpHeader.RoundTrip.{
  fixed_bytes, padding, serialize-eq, fixed_bytes-append, length-fixed_bytes, parse-fixed_bytes,
  AllBytes-fixed_bytes, IsValid,
}
use computer_network_labs.TcpSegment.{checksum_value, parse, serialize, TcpSegment}
use computer_network_labs.Base.{
  length, length-append, length-replicate, AllBytes, AllBytes-append, AllBytes-replicate_zero, ℕ,
  ◌+◌, ◌-◌, ◌*◌, ◌^◌, ◌≤◌, ◌<◌, ◌≡◌, sym, ap, ◌∙◌, Bool, false, Option, none, some, List, ◌++◌,
  arith,
}

-- The checksum field is one word of the header: it adds itself.
word_sum-fixed_bytes :
    (h : TcpHeader) (rest : List ℕ) (v : ℕ)
    → v < 2 ^ 16
    → word_sum false (fixed_bytes (record h { cksum = v }) rest)
      ≡ word_sum false (fixed_bytes (record h { cksum = 0 }) rest) + v
unfolding int_bytes flag_byte
word_sum-fixed_bytes h rest v k = omega arith

-- The header as it is sent, with the checksum `v`.
abbrev pub stamped : TcpHeader → ℕ → TcpHeader
stamped h v = record h { cksum = v }

-- The bytes of a segment whose checksum field is `v`.
abbrev pub wire_bytes : TcpSegment → ℕ → List ℕ
wire_bytes seg v = fixed_bytes (stamped seg.header v) (padding seg.header) ++ seg.payload

word_sum-wire_bytes :
    (seg : TcpSegment) (v : ℕ)
    → v < 2 ^ 16
    → word_sum false (wire_bytes seg v) ≡ word_sum false (wire_bytes seg 0) + v
word_sum-wire_bytes seg v h =
    rw
      (
        fixed_bytes-append (stamped seg.header v) (padding seg.header) seg.payload,
        fixed_bytes-append (stamped seg.header 0) (padding seg.header) seg.payload,
      )
      (word_sum-fixed_bytes seg.header (padding seg.header ++ seg.payload) v h)

-- Room for the sum of a whole segment in 32 bits.
abbrev pub Fits : TcpSegment → ℕ → Type 0
Fits seg initial = initial + 0xff00 * (4 * seg.header.doff + length seg.payload) + 0xffff < 2 ^ 32

AllBytes-wire_bytes :
    (seg : TcpSegment) (v : ℕ) → AllBytes seg.payload → AllBytes (wire_bytes seg v)
AllBytes-wire_bytes seg v a =
    AllBytes-append (fixed_bytes (stamped seg.header v) (padding seg.header)) seg.payload
      (AllBytes-fixed_bytes (stamped seg.header v) (padding seg.header)
        (AllBytes-replicate_zero (4 * seg.header.doff - 20)))
      a

length-wire_bytes :
    (seg : TcpSegment) (v : ℕ)
    → 5 ≤ seg.header.doff
    → length (wire_bytes seg v) ≡ 4 * seg.header.doff + length seg.payload
length-wire_bytes seg v d = omega (
  arith,
  length-append (fixed_bytes (stamped seg.header v) (padding seg.header)) seg.payload,
  length-fixed_bytes (stamped seg.header v) (padding seg.header),
  length-replicate {A = ℕ} (4 * seg.header.doff - 20) 0,
)

module _ (seg : TcpSegment) (initial : ℕ) (d : 5 ≤ seg.header.doff) (a : AllBytes seg.payload)
    (room : Fits seg initial) where
  -- What the sender's checksum adds up.
  total : ℕ
  total = initial + word_sum false (wire_bytes seg 0)

  total-le : total + 0xffff < 2 ^ 32
  unfolding total
  total-le = omega (
    arith,
    word_sum-le false (wire_bytes seg 0) (AllBytes-wire_bytes seg 0 a),
    length-wire_bytes seg 0 d,
  )

  checksum_value-wire_bytes :
      (v : ℕ)
      → v < 2 ^ 16
      → checksum_value initial (wire_bytes seg v)
        ≡ Checksum.value
            (record { sum = total + v; parity = parity_after false (wire_bytes seg v) })
  unfolding total checksum_value Checksum.init
  checksum_value-wire_bytes v h = ap Checksum.value (
      add_lem (record { sum = initial; parity = false }) (wire_bytes seg v)
        (AllBytes-wire_bytes seg v a) (omega (arith, total-le, word_sum-wire_bytes seg v h))
      ∙ ap (λ k. record { sum = k; parity = parity_after false (wire_bytes seg v) })
          (omega (arith, word_sum-wire_bytes seg v h)))

  -- The checksum that `serialize` puts in the header.
  pub sent_cksum : ℕ
  sent_cksum = checksum_value initial (wire_bytes seg 0)

  last_parity : Bool
  last_parity = parity_after false (wire_bytes seg 0)

  sent_cksum-eq : sent_cksum ≡ Checksum.value (record { sum = total; parity = last_parity })
  unfolding sent_cksum last_parity
  sent_cksum-eq =
      checksum_value-wire_bytes 0 (omega arith)
      ∙ ap
          (λ k. Checksum.value (record { sum = k; parity = parity_after false (wire_bytes seg 0) }))
          (omega arith)

  pub sent_cksum-lt : sent_cksum < 2 ^ 16
  sent_cksum-lt = omega (arith, sent_cksum-eq, value-add_value total last_parity false total-le)

  -- The receiver's sum over the whole segment is 0.
  pub checksum_value-sent : checksum_value initial (wire_bytes seg sent_cksum) ≡ 0
  checksum_value-sent =
      checksum_value-wire_bytes sent_cksum sent_cksum-lt
      ∙ ap (λ k. Checksum.value (record { sum = total + k; parity = received })) sent_cksum-eq
      ∙ (value-add_value total last_parity received total-le).1
    where
      received : Bool
      received = parity_after false (wire_bytes seg sent_cksum)

  pub serialize-eq-wire_bytes : serialize seg initial ≡ some (wire_bytes seg sent_cksum)
  unfolding serialize sent_cksum checksum_value
  serialize-eq-wire_bytes =
      rw (serialize-eq (stamped seg.header 0) d, serialize)
        (rw (
          ← add-append (Checksum.init initial)
              (fixed_bytes (stamped seg.header 0) (padding seg.header)) seg.payload,
          serialize-eq (stamped seg.header sent_cksum) d,
          serialize,
        ))

parse-wire_bytes :
    (seg old : TcpSegment) (initial v : ℕ)
    → IsValid (stamped seg.header v)
    → checksum_value initial (wire_bytes seg v) ≡ 0
    → parse old (wire_bytes seg v) initial
      ≡ (no_error, record { header = stamped seg.header v; payload = seg.payload })
unfolding parse
parse-wire_bytes seg old initial v valid e =
    rw (e, parse-fixed_bytes (stamped seg.header v) seg.payload valid)

-- A segment with a valid header and a payload of bytes, short enough for the 32-bit sum, is
-- serialized; the bytes pass the checksum of `parse`, which returns the segment with the checksum
-- that was sent.
pub parse-serialize_segment :
    (seg old : TcpSegment) (initial : ℕ)
    → IsValid seg.header
    → AllBytes seg.payload
    → Fits seg initial
    → (bytes : List ℕ) × (v : ℕ) × (serialize seg initial ≡ some bytes)
      × (parse old bytes initial ≡ (
        no_error,
        record { header = record (seg.header) { cksum = v }; payload = seg.payload },
      ))
parse-serialize_segment seg old initial v a room = (
  wire_bytes seg (sent_cksum seg initial d a room),
  sent_cksum seg initial d a room,
  serialize-eq-wire_bytes seg initial d a room,
  parse-wire_bytes seg old initial (sent_cksum seg initial d a room)
      (omega (arith, sent_cksum-lt seg initial d a room))
      (checksum_value-sent seg initial d a room),
)
  where
    d : 5 ≤ seg.header.doff
    d = v.doff_ge

pub length-serialize :
    (seg : TcpSegment) (initial : ℕ) (bytes : List ℕ)
    → IsValid seg.header
    → AllBytes seg.payload
    → Fits seg initial
    → serialize seg initial ≡ some bytes
    → length bytes ≡ 4 * seg.header.doff + length seg.payload
length-serialize seg initial bytes v a room e =
    ap (λ (o : Option (List ℕ)). elim o [ none ↦ 0 | some l ↦ length l ])
      (sym e ∙ serialize-eq-wire_bytes seg initial v.doff_ge a room)
    ∙ length-wire_bytes seg (sent_cksum seg initial v.doff_ge a room) v.doff_ge
