-- ===== src/World/Invariant.antt =====
-- What holds of the world of hexa/server/world.cpp between operations.
pub mod Column
pub mod Chunks
