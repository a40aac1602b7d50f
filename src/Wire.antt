-- ===== src/Wire.antt =====
-- The binary format of hexa/serialize.hpp: archives, the byte order of the host, and the
-- operators for scalars, sequences and points.
pub mod Defs
pub mod Endian
pub mod Scalars
pub mod Sequences
pub mod Points
pub mod Laws
mod Tests
