-- ===== src/Witnesses.antt =====
-- Concrete inputs on which the theorems of the other modules apply.
pub mod Numbers
pub mod Streams
pub mod Sockets
pub mod Packets
pub mod Senders
pub mod Connections
pub mod States
pub mod Links
pub mod Routers
pub mod Nats
pub mod Datagrams
pub mod Buffers
pub mod Adapters
pub mod Loops
