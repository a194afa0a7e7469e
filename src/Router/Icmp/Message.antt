-- ===== src/Router/Icmp/Message.antt =====
-- The messages of icmp.c.
use computer_network_labs.Router.Checksum
use computer_network_labs.Router.Checksum.Verify.{
  word_total, word_total-le, checksum-lt, checksum_self,
}
use computer_network_labs.Router.Packet.{host16}
use computer_network_labs.Router.Run.{ok}
use computer_network_labs.Base.{
  length, AllBytes, ℕ, ◌+◌, ◌^◌, ◌<◌, ◌≡◌, refl, List, ◌∷◌, ◌++◌, arith,
}
use computer_network_labs.Router.Icmp.{set_icmp_checksum}

-- The message with its checksum in it.
abbrev pub summed : ℕ → ℕ → ℕ → List ℕ → List ℕ
summed type code k rest = type ∷ code ∷ host16 k ++ rest

-- The checksum of the message that is sent is 0.
pub set_icmp_checksum_lem :
    (type code c d : ℕ) (rest : List ℕ)
    → type < 256
    → code < 256
    → AllBytes rest
    → length rest < 2 ^ 16
    → (k : ℕ) × (set_icmp_checksum (type ∷ code ∷ c ∷ d ∷ rest) ≡ ok (summed type code k rest))
      × (Checksum.checksum (summed type code k rest) 0 ≡ 0)
unfolding set_icmp_checksum host16
set_icmp_checksum_lem type code c d rest ht hc a l =
    let zeroed = type ∷ code ∷ 0 ∷ 0 ∷ rest in
    let k = Checksum.checksum zeroed 0 in
    let small : word_total zeroed + 0xffff < 2 ^ 32 = omega (arith, word_total-le rest a) in
    (
      k,
      refl,
      (checksum_self zeroed (summed type code k rest) small
          (omega (arith, checksum-lt zeroed small))).1,
    )
