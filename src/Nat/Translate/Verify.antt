-- ===== src/Nat/Translate/Verify.antt =====
-- The checksums that do_translation of nat.c stores.
use computer_network_labs.Router.Checksum
use computer_network_labs.Router.Checksum.{fold_words}
use computer_network_labs.Router.Checksum.Verify.{
  word_total, word_total-le, sum_words_lem, fold_words-add, checksum-eq-fold_words,
}
use computer_network_labs.Router.Packet.{
  ip_checksum as router_ip_checksum, IpHeader, net16, net32, host16, header_bytes,
}
use computer_network_labs.Router.Packet.HeaderSum.{HasOptions, checksum-header_bytes}
use computer_network_labs.Router.Run.{ok}
use computer_network_labs.Nat.Sum
use computer_network_labs.Nat.Sum.Same.{checksum-checksum}
use computer_network_labs.Nat.Packet.{
  ip_checksum, host32, htons, htonl, tcp_bytes, tcp_len, pseudo_sum, tcp_checksum, TcpHeader,
  tcp_body,
}
use computer_network_labs.Nat.Translate.{sum_packet}
use computer_network_labs.Base.{
  ltb, length, length-append, take-length, AllBytes, AllBytes-append, ℕ, ◌+◌, ◌*◌, ◌/◌, ◌%◌, ◌^◌,
  ◌≤◌, ◌<◌, ◌≡◌, refl, sym, ap, ◌∙◌, subst, false, List, ◌∷◌, ◌++◌, arith,
}

-- The pseudo header of RFC 793.
abbrev pub pseudo_bytes : IpHeader → List ℕ
pseudo_bytes ip =
    net32 ip.saddr ++ (net32 ip.daddr ++ (0 ∷ (ip.protocol % 256) ∷ net16 (tcp_len ip)))

-- Adding 0xffff to a sum that is not 0 changes no checksum.
fold_words-carry :
    (s m : ℕ) → 1 ≤ s → s + 0xffff * m < 2 ^ 32 → fold_words (s + 0xffff * m) ≡ fold_words s
unfolding fold_words
fold_words-carry s m h l = omega arith

-- The sum that the code begins with, and that of the pseudo header.
pseudo_sum-pseudo_bytes :
    (ip : IpHeader)
    → ip.protocol < 256
    → htonl ip.saddr + htonl ip.daddr + 2 ^ 17 < 2 ^ 32
    → (m : ℕ) × (pseudo_sum ip ≡ word_total (pseudo_bytes ip) + 0xffff * m)
unfolding pseudo_sum htonl htons net32 net16
pseudo_sum-pseudo_bytes ip p l = (
  ip.saddr / 2 ^ 8 % 256 + ip.saddr % 256 * 256 + (ip.daddr / 2 ^ 8 % 256 + ip.daddr % 256 * 256),
  omega arith,
)

word_total-tcp_bytes :
    (tcp : TcpHeader) (k : ℕ) (bytes : List ℕ)
    → k < 2 ^ 16
    → word_total (tcp_bytes (record tcp { checksum = k }) ++ bytes)
      ≡ word_total (tcp_bytes (record tcp { checksum = 0 }) ++ bytes) + k
unfolding tcp_bytes net16 host16 host32
word_total-tcp_bytes tcp k bytes h = omega arith

tcp_bytes-AllBytes : (tcp : TcpHeader) → AllBytes (tcp_bytes tcp)
unfolding tcp_bytes net16 host16 host32
tcp_bytes-AllBytes tcp = search arith

length-tcp_bytes : (tcp : TcpHeader) → length (tcp_bytes tcp) ≡ 20
unfolding tcp_bytes net16 host16 host32
length-tcp_bytes tcp = refl

pseudo_bytes-le : (ip : IpHeader) → word_total (pseudo_bytes ip) < 2 ^ 19
unfolding net32 net16
pseudo_bytes-le ip = omega arith

pseudo_bytes-append :
    (ip : IpHeader) (bytes : List ℕ)
    → word_total (pseudo_bytes ip ++ bytes) ≡ word_total (pseudo_bytes ip) + word_total bytes
unfolding net32 net16
pseudo_bytes-append ip bytes = omega arith

-- The segment fills the packet, and the sum of the pseudo header does not wrap around.
pub record HasSum (ip : IpHeader) (tcp : TcpHeader) (bytes : List ℕ) : Type 0 where
  pub fills : tcp_len ip ≡ 20 + length bytes
  pub octets : AllBytes bytes
  pub proto : ip.protocol < 256
  pub narrow : htonl ip.saddr + htonl ip.daddr + 0xffff * length bytes + 2 ^ 22 < 2 ^ 32

pseudo_sum-le :
    (ip : IpHeader)
    → htonl ip.saddr + htonl ip.daddr + 2 ^ 17 < 2 ^ 32
    → pseudo_sum ip ≤ htonl ip.saddr + htonl ip.daddr + 2 ^ 17
unfolding pseudo_sum htons
pseudo_sum-le ip h = omega arith

-- The segment with a checksum in it.
abbrev pub segment : TcpHeader → ℕ → List ℕ → List ℕ
segment tcp k bytes = tcp_bytes (record tcp { checksum = k }) ++ bytes

length-segment :
    (tcp : TcpHeader) (k : ℕ) (bytes : List ℕ) → length (segment tcp k bytes) ≡ 20 + length bytes
length-segment tcp k bytes = omega (
  arith,
  length-append (tcp_bytes (record tcp { checksum = k })) bytes,
  length-tcp_bytes (record tcp { checksum = k }),
)

segment-small :
    (ip : IpHeader) (tcp : TcpHeader) (bytes : List ℕ)
    → HasSum ip tcp bytes
    → pseudo_sum ip + word_total (segment tcp 0 bytes) + 0xffff < 2 ^ 32
segment-small ip tcp bytes s =
    let narrow = s.narrow in
    omega (
      arith,
      pseudo_sum-le ip (omega arith),
      length-segment tcp 0 bytes,
      word_total-le (segment tcp 0 bytes) (
          AllBytes-append (tcp_bytes (record tcp { checksum = 0 })) bytes
            (tcp_bytes-AllBytes (record tcp { checksum = 0 })) s.octets),
    )

tcp_checksum-whole :
    (ip : IpHeader) (tcp : TcpHeader) (bytes : List ℕ)
    → tcp_len ip ≡ length (segment tcp 0 bytes)
    → tcp_checksum ip tcp bytes ≡ ok (Sum.checksum (segment tcp 0 bytes) (pseudo_sum ip))
unfolding tcp_checksum
tcp_checksum-whole ip tcp bytes whole = rw whole (
    rw (not_shorter (length (segment tcp 0 bytes)))
      (ap (λ xs. ok (Sum.checksum xs (pseudo_sum ip))) (take-length (segment tcp 0 bytes))))
  where
    not_shorter : (n : ℕ) → ltb n n ≡ false
    not_shorter n = ground arith

tcp_checksum_lem :
    (ip : IpHeader) (tcp : TcpHeader) (bytes : List ℕ)
    → HasSum ip tcp bytes
    → tcp_checksum ip tcp bytes ≡ ok (fold_words (pseudo_sum ip + word_total (segment tcp 0 bytes)))
unfolding Checksum.checksum
tcp_checksum_lem ip tcp bytes s =
    let small = segment-small ip tcp bytes s in
    tcp_checksum-whole ip tcp bytes (s.fills ∙ sym (length-segment tcp 0 bytes))
    ∙ ap ok (
        checksum-checksum (segment tcp 0 bytes) (pseudo_sum ip) (omega arith)
        ∙ ap fold_words (sum_words_lem (pseudo_sum ip) (segment tcp 0 bytes) (omega arith)))

pseudo_bytes-ge : (ip : IpHeader) → 1 ≤ tcp_len ip → 1 ≤ word_total (pseudo_bytes ip)
unfolding net32 net16 tcp_len
pseudo_bytes-ge ip h = omega arith

-- The pseudo header and the segment with its checksum sum up to nothing.
checksum-pseudo_bytes :
    (ip : IpHeader) (tcp : TcpHeader) (bytes : List ℕ)
    → HasSum ip tcp bytes
    → Checksum.checksum
        (pseudo_bytes ip
          ++ segment tcp (fold_words (pseudo_sum ip + word_total (segment tcp 0 bytes))) bytes)
        0
      ≡ 0
checksum-pseudo_bytes ip tcp bytes s =
    let narrow = s.narrow in
    let base = pseudo_sum ip + word_total (segment tcp 0 bytes) in
    let k = fold_words base in
    let (le, null) = fold_words-add base (segment-small ip tcp bytes s) in
    let (m, e) = pseudo_sum-pseudo_bytes ip s.proto (omega arith) in
    let total : word_total (pseudo_bytes ip ++ segment tcp k bytes) + 0xffff * m ≡ base + k =
      omega (
        arith,
        pseudo_bytes-append ip (segment tcp k bytes),
        word_total-tcp_bytes tcp k bytes (omega arith),
      ) in
    let some_word : 1 ≤ word_total (pseudo_bytes ip ++ segment tcp k bytes) = omega (
      arith,
      s.fills,
      pseudo_bytes-ge ip (omega (arith, s.fills)),
      pseudo_bytes-append ip (segment tcp k bytes),
    ) in
    let small = segment-small ip tcp bytes s in
    checksum-eq-fold_words (pseudo_bytes ip ++ segment tcp k bytes) (omega arith)
    ∙ sym (
        fold_words-carry (word_total (pseudo_bytes ip ++ segment tcp k bytes)) m some_word
          (omega arith))
    ∙ ap fold_words total
    ∙ null

ip_checksum-router : (ip : IpHeader) → HasOptions ip → ip_checksum ip ≡ router_ip_checksum ip
unfolding ip_checksum router_ip_checksum
ip_checksum-router ip o =
    checksum-checksum (header_bytes (record ip { checksum = 0 })) 0 (omega arith)

-- When the segment fills its packet, consists of bytes and the 32-bit sum of the two addresses
-- leaves room for the rest, and the header has options of bytes, at most forty, the two checksums
-- are stored, the checksum of the IP header is 0, and that of the pseudo header of TCP followed by
-- the segment is 0.
pub sum_packet_lem :
    (ip : IpHeader) (tcp : TcpHeader) (bytes : List ℕ)
    → HasOptions ip
    → HasSum ip tcp bytes
    → (c k : ℕ) × (sum_packet ip tcp bytes
        ≡ ok (record {
          ip = record ip { checksum = c };
          body = tcp_body (record tcp { checksum = k }) bytes;
        }))
      × (Checksum.checksum (header_bytes (record ip { checksum = c })) 0 ≡ 0)
      × (Checksum.checksum (pseudo_bytes ip ++ segment tcp k bytes) 0 ≡ 0)
unfolding sum_packet
sum_packet_lem ip tcp bytes o s = (
  ip_checksum ip,
  fold_words (pseudo_sum ip + word_total (segment tcp 0 bytes)),
  rw (tcp_checksum_lem ip tcp bytes s) refl,
  subst (λ c. Checksum.checksum (header_bytes (record ip { checksum = c })) 0 ≡ 0)
      (sym (ip_checksum-router ip o)) (checksum-header_bytes ip o).1,
  checksum-pseudo_bytes ip tcp bytes s,
)
