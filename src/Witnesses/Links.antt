-- ===== src/Witnesses/Links.antt =====
-- Inputs for the theorems on the switch.
use computer_network_labs.Base.{replicate, ◌≡◌, refl, none, some, List, [], ◌∷◌}
use computer_network_labs.Device.{same_mac, IfaceInfo}
use computer_network_labs.Switch.{is_aged, broadcast_packet, forward, Frame, Sweeps}
use computer_network_labs.Switch.Table.{spec_learn, spec_sweep}
use computer_network_labs.Switch.History.{
  spec_rounds, spec_read, spec_learned, spec_decide, spec_handle, spec_run, Event, arrives, sweeps,
}

abbrev pub lan : IfaceInfo
lan = record {
  fd = 3;
  index = 1;
  mac = replicate 6 0x11;
  ip = 0x0a000001;
  mask = 0xffffff00;
  name = "eth0";
}

abbrev pub wan : IfaceInfo
wan = record {
  fd = 4;
  index = 2;
  mac = replicate 6 0x22;
  ip = 0x0a000201;
  mask = 0xffffff00;
  name = "eth1";
}

abbrev hello : Frame
hello = record {
  dhost = replicate 6 0xff;
  shost = replicate 6 0x33;
  ether_type = 0x0800;
  payload = 1 ∷ [];
}

abbrev answer : Frame
answer = record {
  dhost = replicate 6 0x33;
  shost = replicate 6 0x44;
  ether_type = 0x0800;
  payload = 2 ∷ [];
}

abbrev calm : Sweeps
calm = record { reading_dst = []; between = []; reading_src = []; inserting = [] }

-- The second answer finds the entry of its destination, which is swept before it is read.
abbrev history : List Event
history =
    arrives calm 5 lan hello
    ∷ arrives (record calm { between = 20 ∷ [] }) 6 wan answer
    ∷ sweeps 35
    ∷ arrives (record calm { reading_dst = 36 ∷ [] }) 36 wan answer
    ∷ []

-- The first frame goes to the other interface, the answer to the learned one, and the third lookup
-- reads a freed entry.
spec_run-history :
    spec_run (lan ∷ wan ∷ []) history (λ q. none) ≡ some (wan ∷ []) ∷ some (lan ∷ []) ∷ none ∷ []
unfolding spec_run spec_handle spec_decide spec_read spec_rounds spec_sweep spec_learned spec_learn
    forward broadcast_packet is_aged same_mac
spec_run-history = refl
