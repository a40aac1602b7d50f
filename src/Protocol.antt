-- ===== src/Protocol.antt =====
-- The messages of hexa/protocol.hpp, by the part of the game that they are about, and how packets
-- of them are sent and received.
pub mod Records
pub mod Session
pub mod Resources
pub mod Entities
pub mod Terrain
pub mod Interface
pub mod Login
pub mod Requests
pub mod Actions
pub mod Packet
pub mod Server
pub mod Client
mod Tests
