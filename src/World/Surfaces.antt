-- ===== src/World/Surfaces.antt =====
-- Surfaces and light maps of hexa/server/world.cpp: in memory, in the database and built, and the
-- commit of a change to a chunk.
pub mod Count
pub mod State
mod Borders
pub mod Lights
pub mod Quiet
pub mod Chunks
pub mod Steady
pub mod Reads
pub mod Gather
pub mod Laws
pub mod Getting
pub mod Lighting
pub mod Generation
pub mod Keeping
pub mod Compressed
pub mod Relight
pub mod Renewal
pub mod News
pub mod Commit
pub mod Serving
pub mod Requests
mod Tests
