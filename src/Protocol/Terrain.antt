-- ===== src/Protocol/Terrain.antt =====
-- The messages of hexa/protocol.hpp about terrain and light.
pub mod Laws
use hexahedra.Base.{ℕ, ◌≡◌, refl, sym, List, [], ◌∷◌, Bool, true, false}
use hexahedra.Wire.Defs.{Serial, ◌▸◌, via, fields, initially}
use hexahedra.Wire.Endian.{ByteOrder}
use hexahedra.Wire.Scalars.{u8, bool, u16, u32, IsByte, IsU16, IsU32, scalar}
use hexahedra.Wire.Sequences.{elements, string, char_vector, vector, counted_bytes}
use hexahedra.Wire.Points.{
  Vector2, Vector3, Aabb, Wfpos, aabb, chunk_index, coordinates, map_coordinates, wfpos,
}
use hexahedra.Protocol.Records.{
  CompressedData, CustomBlockPart, Material, HotbarSlot, compressed_data, custom_block_part,
  material, hotbar_slot,
}
use hexahedra.Wire.Sequences.{Text}

-- `msg::heightmap_update::record`
pub record HeightRecord : Type 0 where
  pub pos : Vector2 ℕ
  pub height : ℕ

-- `msg::heightmap_update`; `heights` is its `data`.
pub record HeightmapUpdate : Type 0 where
  pub heights : List HeightRecord

-- `msg::lightmap_update`; `light` is its `data`.
pub record LightmapUpdate : Type 0 where
  pub position : Vector3 ℕ
  pub light : CompressedData

-- `msg::surface_update`
pub record SurfaceUpdate : Type 0 where
  pub position : Vector3 ℕ
  pub terrain : CompressedData
  pub light : CompressedData

module _ ⦃host : ByteOrder⦄ where
  unfoldable pub height_record : Serial HeightRecord
  unfolding fields ◌▸◌ initially
  height_record =
      fields (λ t. record { pos = t.0; height = t.1 }) (λ m. (m.pos, m.height))
        (map_coordinates ▸ u32)

  unfoldable pub heightmap_update : Serial HeightmapUpdate
  unfolding fields ◌▸◌ initially
  heightmap_update = fields (λ t. record { heights = t }) (λ m. m.heights) (vector height_record)

  unfoldable pub lightmap_update : Serial LightmapUpdate
  unfolding fields ◌▸◌ initially
  lightmap_update =
      fields (λ t. record { position = t.0; light = t.1 }) (λ m. (m.position, m.light))
        (coordinates ▸ compressed_data)

  unfoldable pub surface_update : Serial SurfaceUpdate
  unfolding fields ◌▸◌ initially
  surface_update =
      fields (λ t. record { position = t.0; terrain = t.1.0; light = t.1.1 })
        (λ m. (m.position, (m.terrain, m.light))) (coordinates ▸ compressed_data ▸ compressed_data)
