-- ===== src/Protocol/Resources.antt =====
-- The messages of hexa/protocol.hpp that name resources and define materials.
pub mod Laws
use hexahedra.Base.{ℕ, ◌≡◌, refl, sym, List, [], ◌∷◌, Bool, true, false}
use hexahedra.Wire.Defs.{Serial, ◌▸◌, via, fields, initially}
use hexahedra.Wire.Endian.{ByteOrder}
use hexahedra.Wire.Scalars.{u8, bool, u16, u32, IsByte, IsU16, IsU32, scalar}
use hexahedra.Wire.Sequences.{elements, string, char_vector, vector, counted_bytes}
use hexahedra.Wire.Points.{
  Vector2, Vector3, Aabb, Wfpos, aabb, chunk_index, coordinates, map_coordinates, wfpos,
}
use hexahedra.Protocol.Records.{
  CompressedData, CustomBlockPart, Material, HotbarSlot, compressed_data, custom_block_part,
  material, hotbar_slot,
}
use hexahedra.Wire.Sequences.{Text}

-- `msg::define_resources`
pub record DefineResources : Type 0 where
  pub textures : List Text
  pub models : List Text
  pub sounds : List Text

-- `msg::define_materials::record`
pub record MaterialRecord : Type 0 where
  pub material_id : ℕ
  pub definition : Material

-- `msg::define_materials`
pub record DefineMaterials : Type 0 where
  pub materials : List MaterialRecord

-- `msg::define_custom_blocks::part`
pub record CustomPart : Type 0 where
  pub corner1 : Vector3 ℕ
  pub corner2 : Vector3 ℕ
  pub textures : List ℕ

-- `msg::define_custom_blocks::record`
pub record CustomRecord : Type 0 where
  pub name : Text
  pub parts : List CustomPart

-- `msg::define_custom_blocks`
pub record DefineCustomBlocks : Type 0 where
  pub models : List CustomRecord

module _ ⦃host : ByteOrder⦄ where
  unfoldable pub define_resources : Serial DefineResources
  unfolding fields ◌▸◌ initially
  define_resources =
      fields (λ t. record { textures = t.0; models = t.1.0; sounds = t.1.1 })
        (λ m. (m.textures, (m.models, m.sounds)))
        ((vector string) ▸ (vector string) ▸ (vector string))

  unfoldable pub material_record : Serial MaterialRecord
  unfolding fields ◌▸◌ initially
  material_record =
      fields (λ t. record { material_id = t.0; definition = t.1 })
        (λ m. (m.material_id, m.definition)) (u16 ▸ material)

  unfoldable pub define_materials : Serial DefineMaterials
  unfolding fields ◌▸◌ initially
  define_materials =
      fields (λ t. record { materials = t }) (λ m. m.materials) (vector material_record)

  unfoldable pub custom_part : Serial CustomPart
  unfolding fields ◌▸◌ initially
  custom_part =
      fields (λ t. record { corner1 = t.0; corner2 = t.1.0; textures = t.1.1 })
        (λ m. (m.corner1, (m.corner2, m.textures))) (chunk_index ▸ chunk_index ▸ (elements u16 6))

  unfoldable pub custom_record : Serial CustomRecord
  unfolding fields ◌▸◌ initially
  custom_record =
      fields (λ t. record { name = t.0; parts = t.1 }) (λ m. (m.name, m.parts))
        (string ▸ (vector custom_part))

  unfoldable pub define_custom_blocks : Serial DefineCustomBlocks
  unfolding fields ◌▸◌ initially
  define_custom_blocks = fields (λ t. record { models = t }) (λ m. m.models) (vector custom_record)
