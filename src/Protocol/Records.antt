-- ===== src/Protocol/Records.antt =====
-- The values that messages hold, from hexa/compression.hpp, hexa/block_types.hpp and
-- hexa/hotbar_slot.hpp.
pub mod Laws
use hexahedra.Base.{ℕ, ◌≡◌, refl, sym, List, [], ◌∷◌, Bool, true, false}
use hexahedra.Wire.Defs.{Serial, ◌▸◌, via, fields, initially}
use hexahedra.Wire.Endian.{ByteOrder}
use hexahedra.Wire.Scalars.{u8, bool, u16, u32, IsByte, IsU16, IsU32, scalar}
use hexahedra.Wire.Sequences.{elements, string, char_vector, vector, counted_bytes}
use hexahedra.Wire.Points.{
  Vector2, Vector3, Aabb, Wfpos, aabb, chunk_index, coordinates, map_coordinates, wfpos,
}
use hexahedra.Wire.Sequences.{Text}

-- `compressed_data` of hexa/compression.hpp
pub record CompressedData : Type 0 where
  pub unpacked_len : ℕ
  pub buf : Text

-- `custom_block_part` of hexa/block_types.hpp
pub record CustomBlockPart : Type 0 where
  pub box : Aabb (Vector3 ℕ)
  pub textures : List ℕ

-- `material` of hexa/block_types.hpp
pub record Material : Type 0 where
  pub textures : List ℕ
  pub name : Text
  pub model : List CustomBlockPart
  pub bounding_box : List (Aabb (Vector3 ℕ))
  pub transparency : ℕ
  pub light_emission : ℕ
  pub is_solid : Bool

-- `hotbar_slot` of hexa/hotbar_slot.hpp
pub record HotbarSlot : Type 0 where
  pub type : ℕ
  pub name : Text
  pub tooltip : Text
  pub badge : Text
  pub counter : ℕ
  pub progress_bar : ℕ
  pub wield : Text
  pub can_drag : Bool
  pub cooldown : ℕ

module _ ⦃host : ByteOrder⦄ where
  unfoldable pub compressed_data : Serial CompressedData
  unfolding fields ◌▸◌ initially
  compressed_data =
      fields (λ t. record { unpacked_len = t.0; buf = t.1 }) (λ m. (m.unpacked_len, m.buf))
        (u16 ▸ char_vector)

  unfoldable pub custom_block_part : Serial CustomBlockPart
  unfolding fields ◌▸◌ initially
  custom_block_part =
      fields (λ t. record { box = t.0; textures = t.1 }) (λ m. (m.box, m.textures))
        ((aabb chunk_index) ▸ (elements u16 6))

  -- `light_emission` is no part of the archive: a read leaves it as it was.
  unfoldable pub material : Serial Material
  unfolding via ◌▸◌ initially
  material =
      via
        (record {
          textures = 0 ∷ 0 ∷ 0 ∷ 0 ∷ 0 ∷ 0 ∷ [];
          name = [];
          model = [];
          bounding_box = [];
          transparency = 0;
          light_emission = 0;
          is_solid = true;
        })
        (λ m t. record m {
          textures = t.0;
          transparency = t.1.0;
          is_solid = t.1.1.0;
          name = t.1.1.1.0;
          model = t.1.1.1.1.0;
          bounding_box = t.1.1.1.1.1;
        })
        (λ m. (m.textures, (m.transparency, (m.is_solid, (m.name, (m.model, m.bounding_box))))))
        (elements u16 6
          ▸ u8
          ▸ initially true bool
          ▸ string
          ▸ vector custom_block_part
          ▸ vector (aabb coordinates))

  unfoldable pub hotbar_slot : Serial HotbarSlot
  unfolding fields ◌▸◌ initially
  hotbar_slot =
      fields
        (λ t. record {
          type = t.0;
          name = t.1.0;
          tooltip = t.1.1.0;
          badge = t.1.1.1.0;
          counter = t.1.1.1.1.0;
          progress_bar = t.1.1.1.1.1.0;
          wield = t.1.1.1.1.1.1.0;
          can_drag = t.1.1.1.1.1.1.1.0;
          cooldown = t.1.1.1.1.1.1.1.1;
        })
        (λ m. (
          m.type,
          (
            m.name,
            (
              m.tooltip,
              (m.badge, (m.counter, (m.progress_bar, (m.wield, (m.can_drag, m.cooldown))))),
            ),
          ),
        ))
        (u8 ▸ string ▸ string ▸ string ▸ (initially 65535 u16) ▸ u8 ▸ string ▸ bool ▸ u8)
