-- ===== src/Nat.antt =====
-- The network address translator of Lab6-2023Spring-karenntayy-master/03-nat: nat.c, ip.c and
-- include/{nat,tcp,checksum,hash}.h. The address space and the port pool are functions of the index.
pub mod Sum
pub mod Packet
pub mod Table
pub mod Translate
pub mod Sweep
pub mod Timeout
pub mod Expiry
pub mod Entries
pub mod Ports
pub mod Flow
pub mod Misses
pub mod Flaws
pub mod Fins
pub mod Handle
