-- ===== src/Router/Rtable.antt =====
-- rtable.c, include/rtable.h, and `longest_prefix_match` of ip_base.c.
pub mod Match
use Prim.Native.Nat.{bit_and}
use computer_network_labs.Base.{
  ltb, ◌==◌, if◌then◌else◌, ℕ, Bool, ◌&&◌, Option, none, some, List, [], ◌∷◌, ◌++◌,
}
use computer_network_labs.Device.{IfaceInfo}

pub record RtEntry : Type 0 where
  pub dest : ℕ
  pub mask : ℕ
  pub gw : ℕ
  pub iface : IfaceInfo

abbrev pub Rtable : Type 0
Rtable = List RtEntry

unfoldable pub init_rtable : Rtable
init_rtable = []

unfoldable pub new_rt_entry : ℕ → ℕ → ℕ → IfaceInfo → RtEntry
new_rt_entry dest mask gw iface = record { dest = dest; mask = mask; gw = gw; iface = iface }

unfoldable pub add_rt_entry : RtEntry → Rtable → Rtable
add_rt_entry entry t = t ++ (entry ∷ [])

unfoldable pub clear_rtable : Rtable → Rtable
clear_rtable [] = []
clear_rtable (rt ∷ t) = clear_rtable t

-- `(rt->dest & rt->mask) == (dst & rt->mask)`
unfoldable pub is_match : ℕ → RtEntry → Bool
is_match dst rt = bit_and rt.dest rt.mask == bit_and dst rt.mask

-- The loop, with its two variables.
unfoldable pub match_loop : ℕ → ℕ → Option RtEntry → Rtable → Option RtEntry
match_loop dst longest_mask rt_longest [] = rt_longest
match_loop dst longest_mask rt_longest (rt ∷ t) =
    if ltb longest_mask rt.mask && is_match dst rt
    then match_loop dst rt.mask (some rt) t
    else match_loop dst longest_mask rt_longest t

unfoldable pub longest_prefix_match : ℕ → Rtable → Option RtEntry
longest_prefix_match dst t = match_loop dst 0 none t
