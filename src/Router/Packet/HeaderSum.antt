-- ===== src/Router/Packet/HeaderSum.antt =====
-- ip_checksum of include/ip.h: the sum over the memory of a header.
use computer_network_labs.Router.Checksum
use computer_network_labs.Base.{length, AllBytes, ℕ, ◌+◌, ◌^◌, ◌≤◌, ◌<◌, ◌≡◌, arith}
use computer_network_labs.Router.Checksum.{checksum}
use computer_network_labs.Router.Checksum.Verify.{
  word_total, word_total-le, checksum-lt, checksum_self,
}
use computer_network_labs.Router.Packet.{
  net16, net32, host16, front_bytes, back_bytes, header_bytes, ip_checksum, IpHeader,
}

-- The header is well-formed: its options are bytes, at most forty.
pub record HasOptions (h : IpHeader) : Type 0 where
  pub bytes : AllBytes h.options
  pub short : length h.options ≤ 40

word_total-header_bytes :
    (h : IpHeader) (c : ℕ)
    → c < 2 ^ 16
    → word_total (header_bytes (record h { checksum = c }))
      ≡ word_total (header_bytes (record h { checksum = 0 })) + c
unfolding header_bytes front_bytes back_bytes net16 net32 host16
word_total-header_bytes h c l = omega arith

word_total-header_bytes-le :
    (h : IpHeader) → HasOptions h → h.checksum < 2 ^ 16 → word_total (header_bytes h) < 2 ^ 23
unfolding header_bytes front_bytes back_bytes net16 net32 host16
word_total-header_bytes-le h o l = omega (arith, word_total-le h.options o.bytes)

-- A header that carries its own checksum has the checksum 0.
pub checksum-header_bytes :
    (h : IpHeader)
    → HasOptions h
    → (ip_checksum h < 2 ^ 16)
      × (Checksum.checksum (header_bytes (record h { checksum = ip_checksum h })) 0 ≡ 0)
unfolding ip_checksum
checksum-header_bytes h o =
    let zeroed = record h { checksum = 0 } in
    let small =
      word_total-header_bytes-le zeroed (record { bytes = o.bytes; short = o.short })
        (omega arith) in
    checksum_self (header_bytes zeroed) (header_bytes (record h { checksum = ip_checksum h }))
      (omega arith)
      (word_total-header_bytes h (ip_checksum h) (checksum-lt (header_bytes zeroed) (omega arith)))
