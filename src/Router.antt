-- ===== src/Router.antt =====
-- The router of Lab6-2023Spring-karenntayy-master/02-router, below which the paths of these modules are.
pub mod Run
pub mod Checksum
pub mod Packet
pub mod Rtable
pub mod State
pub mod ArpCache
pub mod Ip
pub mod Icmp
pub mod Sweep
pub mod Handle
