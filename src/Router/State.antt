-- ===== src/Router/State.antt =====
-- The global state of the router, and what its functions take from the system.
--
-- `iface_send_packet` of device_internal.c is the system call `sendto`: here it adds the frame to
-- the list of what was sent. It also frees the packet, whose life ends there. Where
-- arp_send_request and icmp_send_packet free the packet that they have given away, to be sent or to
-- wait in the cache, `bad_frees` counts it: the C program has no defined behaviour from then on,
-- and the model goes on as if the call had not been made.
--
-- The mutex of arpcache.h is not recursive: a thread that locks it twice waits for itself.
use computer_network_labs.Base.{if◌then◌else◌, ℕ, ◌+◌, Bool, true, false, List, [], ◌∷◌, ◌++◌}
use computer_network_labs.Device.{Mac, IfaceInfo}
use computer_network_labs.Router.Run.{deadlock, Run, ok, fault}
use computer_network_labs.Router.Packet.{Packet, Frame}
use computer_network_labs.Router.Rtable.{Rtable}

-- `struct arp_cache_entry`; `valid` is an `int`.
pub record ArpCacheEntry : Type 0 where
  pub ip4 : ℕ
  pub mac : Mac
  pub added : ℕ
  pub valid : ℕ

-- `struct arp_req`
pub record ArpReq : Type 0 where
  pub iface : IfaceInfo
  pub ip4 : ℕ
  pub sent : ℕ
  pub retries : ℕ
  pub cached_packets : List Packet

pub record Router : Type 0 where
  pub rtable : Rtable
  pub entries : List ArpCacheEntry
  pub req_list : List ArpReq
  pub locked : Bool
  pub outbox : List (IfaceInfo × Frame)
  pub bad_frees : ℕ

-- The time, the number that `rand` returns, and the memory that `malloc` returns.
pub record System : Type 0 where
  pub now : ℕ
  pub rand : ℕ
  pub heap : ℕ → ℕ

unfoldable pub iface_send_packet : IfaceInfo → Frame → Router → Router
iface_send_packet iface frame r = record r { outbox = r.outbox ++ ((iface, frame) ∷ []) }

-- `free(packet)`, after the packet has been given away.
unfoldable pub free_again : Router → Router
free_again r = record r { bad_frees = r.bad_frees + 1 }

-- `pthread_mutex_lock(&arpcache.lock)`
unfoldable pub lock : Router → Run Router
lock r = if r.locked then fault deadlock else ok (record r { locked = true })

unfoldable pub unlock : Router → Router
unlock r = record r { locked = false }
