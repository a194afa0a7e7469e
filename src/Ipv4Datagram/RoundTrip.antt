-- ===== src/Ipv4Datagram/RoundTrip.antt =====
-- ipv4_datagram.cc: parse on the bytes that serialize writes.
use computer_network_labs.NetParser.{ready, no_error, bad_checksum, ParseResult, NetParser}
use computer_network_labs.TcpSegment.{checksum_value}
use computer_network_labs.Ipv4Header
use computer_network_labs.Ipv4Header.{payload_length, Ipv4Header}
use computer_network_labs.Ipv4Header.Fields.{fixed_bytes, padding, serialize-eq, IsValid}
use computer_network_labs.Ipv4Header.RoundTrip.{
  wire_header, parse-fixed_bytes, sent_cksum, sent_cksum_lem, sent-IsValid, parse-wire_header,
}
use computer_network_labs.Ipv4Datagram.{parse, serialize, Ipv4Datagram}
use computer_network_labs.Base.{
  ◌==◌, length, ℕ, ◌+◌, ◌*◌, ◌≡◌, ap, ◌≢◌, false, some, List, ◌++◌, arith,
}

-- The header claims the length of the datagram.
abbrev pub Measures : Ipv4Header → List ℕ → Type 0
Measures h payload = h.len ≡ 4 * h.hlen + length payload

payload_length-eq :
    (h : Ipv4Header) (payload : List ℕ)
    → IsValid h
    → Measures h payload
    → payload_length h ≡ length payload
unfolding payload_length
payload_length-eq h payload v e = omega (arith, v.len_lt)

serialize-wire_header :
    (d : Ipv4Datagram) (v : IsValid d.header)
    → Measures d.header d.payload
    → serialize d ≡ some (wire_header d.header (sent_cksum d.header v) ++ d.payload)
unfolding serialize
serialize-wire_header d v e =
    let zeroed = serialize-eq (record d.header { cksum = 0 }) v.ver_eq v.hlen_ge in
    let k = checksum_value 0 (wire_header d.header 0) in
    let sent = serialize-eq (record d.header { cksum = k }) v.ver_eq v.hlen_ge in
    ground
      (arith, payload_length-eq d.header d.payload v e, zeroed, sent, sent_cksum_lem d.header v)

parse-eq :
    (old : Ipv4Datagram) (h : Ipv4Header) (payload bytes : List ℕ) (result : ParseResult)
    → IsValid h
    → Measures h payload
    → Ipv4Header.parse old.header (ready bytes) ≡ (result, h, ready payload)
    → parse old bytes ≡ (no_error, record { header = h; payload = payload })
unfolding parse
parse-eq old h payload bytes result v e r = ground (arith, payload_length-eq h payload v e, r)

-- A datagram with a valid header that claims its length is serialized; the bytes pass all tests of
-- the header, and parsing them gives the datagram back, up to its checksum.
pub parse-serialize_datagram :
    (d old : Ipv4Datagram)
    → IsValid d.header
    → Measures d.header d.payload
    → (bytes : List ℕ) × (k : ℕ) × (serialize d ≡ some bytes)
      × ((Ipv4Header.parse old.header (ready bytes)).0 ≡ no_error)
      × (parse old bytes
          ≡ (no_error, record { header = record (d.header) { cksum = k }; payload = d.payload }))
parse-serialize_datagram d old v e =
    let k = sent_cksum d.header v in
    let bytes = wire_header d.header k ++ d.payload in
    let run = parse-wire_header d.header v old.header d.payload e in
    (
      bytes,
      k,
      serialize-wire_header d v e,
      ap (λ (r : ParseResult × Ipv4Header × NetParser). r.0) run,
      parse-eq old (record (d.header) { cksum = k }) d.payload bytes no_error
          (sent-IsValid d.header v) e run,
    )

-- A datagram with a valid header that claims its length, but with a wrong checksum, is refused by
-- the parser of the header and accepted by that of the datagram.
pub parse-bad_checksum :
    (old : Ipv4Datagram) (h : Ipv4Header) (payload : List ℕ)
    → IsValid h
    → Measures h payload
    → checksum_value 0 (fixed_bytes h (padding h)) ≢ 0
    → ((Ipv4Header.parse old.header (ready (fixed_bytes h (padding h) ++ payload))).0
        ≡ bad_checksum)
      × (parse old (fixed_bytes h (padding h) ++ payload)
          ≡ (no_error, record { header = h; payload = payload }))
parse-bad_checksum old h payload v e bad =
    let not_zero : (checksum_value 0 (fixed_bytes h (padding h)) == 0) ≡ false = ground arith in
    let run = rw not_zero at (parse-fixed_bytes h old.header payload v e) in
    (
      ap (λ (r : ParseResult × Ipv4Header × NetParser). r.0) run,
      parse-eq old h payload (fixed_bytes h (padding h) ++ payload) bad_checksum v e run,
    )
