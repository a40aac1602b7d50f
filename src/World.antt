-- ===== src/World.antt =====
-- The game world: hexa/server/world.cpp and the height rules of hexa/basic_types.hpp.
pub mod Heights
pub mod State
pub mod Invariant
pub mod Reading
pub mod Areas
pub mod Surfaces
mod Tests
