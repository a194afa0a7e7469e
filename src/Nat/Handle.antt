-- ===== src/Nat/Handle.antt =====
-- get_packet_direction and nat_translate_packet of nat.c, and handle_ip_packet of ip.c.
--
-- The routing table, ip_send_packet and icmp_send_packet are in files that the directory does not
-- hold: they are a parameter.
use computer_network_labs.Router.Run.{◌>>=◌, null_pointer, out_of_bounds, Run, ok, fault}
use computer_network_labs.Router.Packet.{
  ipproto_icmp, icmp_echorequest, icmp_echoreply, icmp_dest_unreach, icmp_host_unreach,
}
use computer_network_labs.Base.{◌==◌, if◌then◌else◌, ℕ, ◌&&◌, Option, none, some, ◌∷◌}
use computer_network_labs.Device.{IfaceInfo}
use computer_network_labs.Nat.Packet.{ipproto_tcp, Packet, other_body}
use computer_network_labs.Nat.Table.{NatTable}
use computer_network_labs.Nat.Translate.{translate, PacketDir, dir_in, dir_out, dir_invalid}

-- The functions that the translator calls, over the state of the rest of the stack.
pub record Stack {ℓ} (S : Type ℓ) : Type ℓ where
  pub route_iface : ℕ → S → Option IfaceInfo
  pub ip_send_packet : Packet → S → Run S
  pub icmp_send_packet : Packet → ℕ → ℕ → S → Run S

module _ {ℓ} {S : Type ℓ} (stack : Stack S) where
  -- A lookup that fails gives a null pointer, which is followed.
  unfoldable pub get_packet_direction : Packet → NatTable → S → Run PacketDir
  get_packet_direction packet nat s = elim (stack.route_iface packet.ip.saddr s) [
    | none ↦ fault null_pointer
    | some iface ↦ ok (if iface.index == nat.internal_iface.index then dir_out else dir_in)
  ]

  unfoldable pub do_translation : ℕ → Packet → PacketDir → NatTable × S → Run (NatTable × S)
  do_translation now packet dir (nat, s) = do
    (nat', packet') ← translate now packet dir nat
    s' ← stack.ip_send_packet packet' s
    ok (nat', s')

  -- What follows the test of the direction.
  unfoldable pub translate_tcp : ℕ → Packet → PacketDir → NatTable × S → Run (NatTable × S)
  translate_tcp now packet dir (nat, s) =
      if packet.ip.protocol == ipproto_tcp
      then do_translation now packet dir (nat, s)
      else ok (nat, s)

  unfoldable pub nat_translate_packet : ℕ → Packet → NatTable × S → Run (NatTable × S)
  nat_translate_packet now packet (nat, s) = do
    dir ← get_packet_direction packet nat s
    elim dir [
      | dir_invalid ↦ do
        s' ← stack.icmp_send_packet packet icmp_dest_unreach icmp_host_unreach s
        ok (nat, s')
      | dir_in ↦ translate_tcp now packet dir_in (nat, s)
      | dir_out ↦ translate_tcp now packet dir_out (nat, s)
    ]

  -- The type of an ICMP message is its first byte.
  unfoldable pub icmp_type : Packet → Run ℕ
  icmp_type packet = elim packet.body [ other_body (b ∷ bytes) ↦ ok b | _ ↦ fault out_of_bounds ]

  unfoldable pub handle_ip_packet : ℕ → IfaceInfo → Packet → NatTable × S → Run (NatTable × S)
  handle_ip_packet now iface packet (nat, s) =
      if (packet.ip.daddr == iface.ip) && (packet.ip.protocol == ipproto_icmp)
      then (do
        type ← icmp_type packet
        if type == icmp_echorequest
            then (do s' ← stack.icmp_send_packet packet icmp_echoreply 0 s; ok (nat, s'))
            else ok (nat, s))
      else nat_translate_packet now packet (nat, s)
