-- ===== src/Device.antt =====
-- What the link-layer programs share: include/ether.h and include/base.h of
-- Lab6-2023Spring-karenntayy-master/02-router, which the other programs have in copies.
--
-- An address of ETH_ALEN bytes is the list of its bytes. A pointer to an interface is compared by the
-- interface's unique index.
use Prim.Native.String.{String}
use computer_network_labs.Base.{◌==◌, ℕ, ◌≡◌, refl, Bool, true, false, ◌&&◌, List, [], ◌∷◌, arith}

abbrev pub Mac : Type 0
Mac = List ℕ

-- `memcmp(a, b, ETH_ALEN) == 0`
unfoldable pub same_mac : Mac → Mac → Bool
same_mac [] [] = true
same_mac (x ∷ a) (y ∷ b) = (x == y) && same_mac a b
same_mac _ _ = false

pub record IfaceInfo : Type 0 where
  pub fd : ℕ
  pub index : ℕ
  pub mac : Mac
  pub ip : ℕ
  pub mask : ℕ
  pub name : String

pub same_mac_refl : (a : Mac) → same_mac a a ≡ true
unfolding same_mac
same_mac_refl [] = refl
same_mac_refl (x ∷ a) = ground (arith, same_mac_refl a)

pub same_mac→eq : (a b : Mac) → same_mac a b ≡ true → a ≡ b
unfolding same_mac
same_mac→eq [] [] h = refl
same_mac→eq (x ∷ a) (y ∷ b) h = ground (arith, same_mac→eq a b)
same_mac→eq [] (y ∷ b) h = ground arith
same_mac→eq (x ∷ a) [] h = ground arith
