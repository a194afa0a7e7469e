-- ===== src/Router/Handle/Forward.antt =====
-- handle_ip_packet of ip.c with the functions that it calls: a packet on its way to the next router.
use computer_network_labs.Router.Checksum
use computer_network_labs.Base.{ℕ, ◌-◌}
use computer_network_labs.Device.{IfaceInfo}
use computer_network_labs.Router.Packet.{eth_p_ip, Packet}
use computer_network_labs.Router.State.{Router}

-- The packet as it leaves the router.
abbrev pub hop : ℕ → Packet → Packet
hop k packet = record packet { ip = record (packet.ip) { ttl = packet.ip.ttl - 1; checksum = k } }

-- The packet in the frame that the router sends.
abbrev pub framed : IfaceInfo → Packet → Packet
framed iface packet = record packet { shost = iface.mac; ether_type = eth_p_ip }
