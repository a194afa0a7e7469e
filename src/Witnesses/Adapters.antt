-- ===== src/Witnesses/Adapters.antt =====
-- Inputs for the theorems on the adapters below a socket.
use computer_network_labs.Base.{
  ℕ, ◌+◌, ◌^◌, ◌≡◌, refl, inr, true, false, some, List, [], ◌∷◌, arith,
}
use computer_network_labs.TcpOverIp.{Address}
use computer_network_labs.TcpOverIp.Peers.{addressed, peer}
use computer_network_labs.FdAdapter.{
  udp_write, tun_read, tun_write, should_drop, lossy_read, lossy_write, UdpDatagram, LossRates,
}
use computer_network_labs.FdAdapter.Rounds.{stamped, tun_read-tun_write, IsSendable}
use computer_network_labs.FdAdapter.Arrives.{Carries, udp_end, lossy_adapters-Carries}
use computer_network_labs.Witnesses.Datagrams.{client, server, opening, opening-IsValid}
use computer_network_labs.Witnesses.Sockets.{began}

opening-IsSendable : IsSendable client opening
opening-IsSendable = record {
  valid = opening-IsValid;
  octets = tt;
  short = omega arith;
  from_fits = (omega arith, omega arith);
  to_fits = (omega arith, omega arith);
}

abbrev behind_nat : Address
behind_nat = record { ipv4_numeric = 0xc0a80001; port = 50000 }

abbrev rates : LossRates
rates = record { loss_rate_dn = 0; loss_rate_up = 1000 }

should_drop_up : should_drop rates (2 ^ 16 + 999) true ≡ true
unfolding should_drop
should_drop_up = refl

should_drop_kept : should_drop rates 1000 true ≡ false
unfolding should_drop
should_drop_kept = refl

should_drop_down : should_drop rates 0 false ≡ false
unfolding should_drop
should_drop_down = refl

tun_read-tun_write_example :
    (bytes : List ℕ) × (k : ℕ) × (tun_write client opening ≡ (addressed client opening, some bytes))
    × (tun_read server bytes ≡ (some (stamped client opening k), peer client))
tun_read-tun_write_example =
    tun_read-tun_write client server opening opening-IsSendable (inr (refl, refl, refl, refl))

lossy_adapters-Carries_example :
    Carries UdpDatagram
      (opening ∷ [])
      began.far
      (udp_end rates 5 server behind_nat)
      (lossy_write rates 1000 (udp_write client) opening)
    × Carries
        (List ℕ)
        (opening ∷ [])
        began.far
        (λ bytes. lossy_read rates 5 (tun_read server bytes))
        (lossy_write rates 1000 (tun_write client) opening)
lossy_adapters-Carries_example =
    lossy_adapters-Carries rates rates 1000 5 client server behind_nat (opening ∷ []) began.far 0
      opening refl opening-IsSendable
