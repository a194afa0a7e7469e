-- ===== src/Ipv4Header/RoundTrip.antt =====
-- ipv4_header.cc: parse on the bytes that serialize writes, with the checksum.
use computer_network_labs.Ipv4Header.Fields.{
  padding, fixed_bytes, parse_fields-fixed_bytes, length-fixed_bytes, fixed_bytes-append,
  AllBytes-fixed_bytes, IsValid,
}
use computer_network_labs.NetParser.{ready, int_bytes}
use computer_network_labs.Checksum
use computer_network_labs.Checksum.Laws.{
  word_sum, parity_after, word_sum-le, add_lem, value-add_value,
}
use computer_network_labs.TcpSegment.{checksum_value}
use computer_network_labs.NetParser.{no_error}
use computer_network_labs.NetParser.{error}
use computer_network_labs.NetParser.RoundTrip.{remove_prefix-append}
use computer_network_labs.NetParser.{bad_checksum}
use computer_network_labs.Ipv4Header.{parse_fields, parse_rest, parse, fo_val, Ipv4Header}
use computer_network_labs.Base.{
  ◌==◌, if◌then◌else◌, length, take, length-append, length-replicate, take-append,
  AllBytes-replicate_zero, ℕ, ◌+◌, ◌-◌, ◌*◌, ◌^◌, ◌≤◌, ◌<◌, ◌≡◌, refl, sym, ap, ◌∙◌, false, List,
  ◌++◌, arith,
}

-- The checksum field is one word of the header: it adds itself.
word_sum-fixed_bytes :
    (h : Ipv4Header) (rest : List ℕ) (k : ℕ)
    → k < 2 ^ 16
    → word_sum false (fixed_bytes (record h { cksum = k }) rest)
      ≡ word_sum false (fixed_bytes (record h { cksum = 0 }) rest) + k
unfolding int_bytes fo_val
word_sum-fixed_bytes h rest k l = omega arith

-- The whole header, with the checksum `k`.
abbrev pub wire_header : Ipv4Header → ℕ → List ℕ
wire_header h k = fixed_bytes (record h { cksum = k }) (padding h)

length-wire_header : (h : Ipv4Header) (k : ℕ) → 5 ≤ h.hlen → length (wire_header h k) ≡ 4 * h.hlen
length-wire_header h k d = omega (
  arith,
  length-fixed_bytes (record h { cksum = k }) (padding h),
  length-replicate {A = ℕ} (4 * h.hlen - 20) 0,
)

-- A valid header in a buffer of the length that it claims: its fields are read, and the result tells
-- whether the checksum is right.
pub parse-fixed_bytes :
    (h old : Ipv4Header) (payload : List ℕ)
    → IsValid h
    → h.len ≡ 4 * h.hlen + length payload
    → parse old (ready (fixed_bytes h (padding h) ++ payload)) ≡ (
      (if checksum_value 0 (fixed_bytes h (padding h)) == 0 then no_error else bad_checksum),
      h,
      ready payload,
    )
unfolding parse parse_rest error
parse-fixed_bytes h old payload v e =
    let bytes = fixed_bytes h (padding h) ++ payload in
    let length_eq = length-wire_header h h.cksum v.hlen_ge in
    let size : length bytes ≡ h.len =
      length-append (fixed_bytes h (padding h)) payload
      ∙ ap (λ n. n + length payload) length_eq
      ∙ sym e in
    let whole : take (4 * h.hlen) bytes ≡ fixed_bytes h (padding h) =
      ap (λ n. take n bytes) (sym length_eq) ∙ take-append (fixed_bytes h (padding h)) payload in
    let fields : parse_fields (ready bytes) ≡ (h, ready (padding h ++ payload)) =
      ap (λ b. parse_fields (ready b)) (fixed_bytes-append h (padding h) payload)
      ∙ parse_fields-fixed_bytes h (padding h ++ payload) v in
    let cut =
      remove_prefix-append (padding h) payload (h.hlen * 4 - 20)
        (omega (arith, length-replicate {A = ℕ} (4 * h.hlen - 20) 0)) in
    ground (arith, size, whole, fields, cut, v.ver_eq, v.hlen_ge, e)

module _ (h : Ipv4Header) (v : IsValid h) where
  total : ℕ
  total = word_sum false (wire_header h 0)

  total-le : total + 0xffff < 2 ^ 32
  unfolding total
  total-le = omega (
    arith,
    v.hlen_lt,
    word_sum-le false (wire_header h 0) (
        AllBytes-fixed_bytes (record h { cksum = 0 }) (padding h)
          (AllBytes-replicate_zero (4 * h.hlen - 20))),
    length-wire_header h 0 v.hlen_ge,
  )

  checksum_value-wire_header :
      (k : ℕ)
      → k < 2 ^ 16
      → checksum_value 0 (wire_header h k)
        ≡ Checksum.value (record { sum = total + k; parity = parity_after false (wire_header h k) })
  unfolding total checksum_value Checksum.init
  checksum_value-wire_header k l = ap Checksum.value (
      add_lem (record { sum = 0; parity = false }) (wire_header h k)
        (AllBytes-fixed_bytes (record h { cksum = k }) (padding h)
          (AllBytes-replicate_zero (4 * h.hlen - 20)))
        (omega (arith, total-le, word_sum-fixed_bytes h (padding h) k l))
      ∙ ap (λ x. record { sum = x; parity = parity_after false (wire_header h k) })
          (omega (arith, word_sum-fixed_bytes h (padding h) k l)))

  -- The checksum that is stored.
  pub sent_cksum : ℕ
  sent_cksum = checksum_value 0 (wire_header h 0)

  pub sent_cksum_lem : sent_cksum ≡ checksum_value 0 (wire_header h 0)
  unfolding sent_cksum
  sent_cksum_lem = refl

  sent_cksum-eq :
      sent_cksum
      ≡ Checksum.value (record { sum = total; parity = parity_after false (wire_header h 0) })
  unfolding sent_cksum
  sent_cksum-eq =
      checksum_value-wire_header 0 (omega arith)
      ∙ ap (λ x. Checksum.value (record { sum = x; parity = parity_after false (wire_header h 0) }))
          (omega arith)

  pub sent_cksum-lt : sent_cksum < 2 ^ 16
  sent_cksum-lt = omega (
    arith,
    sent_cksum-eq,
    value-add_value total (parity_after false (wire_header h 0)) false total-le,
  )

  pub checksum_value-sent : checksum_value 0 (wire_header h sent_cksum) ≡ 0
  checksum_value-sent =
      checksum_value-wire_header sent_cksum sent_cksum-lt
      ∙ ap
          (λ x.
            Checksum.value
              (record { sum = total + x; parity = parity_after false (wire_header h sent_cksum) }))
          sent_cksum-eq
      ∙ (value-add_value total (parity_after false (wire_header h 0))
          (parity_after false (wire_header h sent_cksum)) total-le).1

  pub sent-IsValid : IsValid (record h { cksum = sent_cksum })
  sent-IsValid = record {
    ver_eq = v.ver_eq;
    hlen_ge = v.hlen_ge;
    hlen_lt = v.hlen_lt;
    tos_lt = v.tos_lt;
    len_lt = v.len_lt;
    id_lt = v.id_lt;
    offset_lt = v.offset_lt;
    ttl_lt = v.ttl_lt;
    proto_lt = v.proto_lt;
    cksum_lt = sent_cksum-lt;
    src_lt = v.src_lt;
    dst_lt = v.dst_lt;
  }

  -- The header is parsed with no error, in a buffer of the length that it claims.
  pub parse-wire_header :
      (old : Ipv4Header) (payload : List ℕ)
      → h.len ≡ 4 * h.hlen + length payload
      → parse old (ready (wire_header h sent_cksum ++ payload))
        ≡ (no_error, record h { cksum = sent_cksum }, ready payload)
  parse-wire_header old payload e =
      parse-fixed_bytes (record h { cksum = sent_cksum }) old payload sent-IsValid e
      ∙ ap
          (λ k. (
            (if k == 0 then no_error else bad_checksum),
            record h { cksum = sent_cksum },
            ready payload,
          ))
          checksum_value-sent
