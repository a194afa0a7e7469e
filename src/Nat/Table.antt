-- ===== src/Nat/Table.antt =====
-- include/nat.h of 03-nat, and nat_init and nat_exit of nat.c.
use computer_network_labs.Base.{
  ltb, ◌==◌, if◌then◌else◌, ℕ, ◌%◌, ◌^◌, Bool, true, false, List, [], ◌∷◌, ◌++◌,
}
use computer_network_labs.Device.{IfaceInfo}
use computer_network_labs.Nat.Sum.{hash8}
use computer_network_labs.Nat.Packet.{host32}

abbrev pub nat_port_min : ℕ
nat_port_min = 12345

abbrev pub nat_port_max : ℕ
nat_port_max = 23456

abbrev pub hash_8bits : ℕ
hash_8bits = 256

-- `struct nat_connection`
pub record NatConnection : Type 0 where
  pub internal_fin : Bool
  pub external_fin : Bool
  pub internal_seq_end : ℕ
  pub external_seq_end : ℕ
  pub internal_ack : ℕ
  pub external_ack : ℕ

-- `struct nat_mapping`
pub record NatMapping : Type 0 where
  pub remote_ip : ℕ
  pub remote_port : ℕ
  pub internal_ip : ℕ
  pub internal_port : ℕ
  pub external_ip : ℕ
  pub external_port : ℕ
  pub update_time : ℕ
  pub conn : NatConnection

pub record DnatRule : Type 0 where
  pub external_ip : ℕ
  pub external_port : ℕ
  pub internal_ip : ℕ
  pub internal_port : ℕ

pub record NatTable : Type 0 where
  pub nat_mapping_list : ℕ → List NatMapping
  pub internal_iface : IfaceInfo
  pub external_iface : IfaceInfo
  pub assigned_ports : ℕ → Bool
  pub rules : List DnatRule

-- A write to an array.
unfoldable pub set_at {ℓ} : {A : Type ℓ} → ℕ → A → (ℕ → A) → ℕ → A
set_at i x f j = if j == i then x else f j

-- The index of the list for a remote address: the hash of its four bytes.
unfoldable pub list_index : ℕ → ℕ
list_index address = hash8 (host32 address)

-- What `memset` leaves.
abbrev pub empty_conn : NatConnection
empty_conn = record {
  internal_fin = false;
  external_fin = false;
  internal_seq_end = 0;
  external_seq_end = 0;
  internal_ack = 0;
  external_ack = 0;
}

abbrev pub empty_mapping : NatMapping
empty_mapping = record {
  remote_ip = 0;
  remote_port = 0;
  internal_ip = 0;
  internal_port = 0;
  external_ip = 0;
  external_port = 0;
  update_time = 0;
  conn = empty_conn;
}

-- A rule of the configuration file.
unfoldable pub add_rule : DnatRule → NatTable → NatTable
add_rule rule nat = record nat {
  rules = nat.rules ++ (rule ∷ []);
  assigned_ports = set_at (rule.external_port % 2 ^ 16) true nat.assigned_ports;
}

unfoldable pub add_rules : List DnatRule → NatTable → NatTable
add_rules [] nat = nat
add_rules (rule ∷ rules) nat = add_rules rules (add_rule rule nat)

-- `nat_init`, with what the configuration file says.
unfoldable pub nat_init : IfaceInfo → IfaceInfo → List DnatRule → NatTable
nat_init internal external rules = add_rules rules (record {
  nat_mapping_list = λ i. [];
  internal_iface = internal;
  external_iface = external;
  assigned_ports = λ i. false;
  rules = [];
})

unfoldable pub nat_exit : NatTable → NatTable
nat_exit nat = record nat {
  nat_mapping_list = λ i. if ltb i hash_8bits then [] else nat.nat_mapping_list i;
  rules = [];
}
