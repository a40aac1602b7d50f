-- ===== src/Protocol/Records/Laws.antt =====
-- The contract of the values that messages hold.
use hexahedra.Base.{◌≡◌, refl, sym, true}
use hexahedra.Wire.Defs.{◌▸◌, initially}
use hexahedra.Wire.Endian.{ByteOrder}
use hexahedra.Wire.Scalars.{u8, u16, IsByte, IsU16, IsU32, scalar}
use hexahedra.Wire.Sequences.{elements, string, vector, counted_bytes}
use hexahedra.Wire.Laws.Defs.{Lawful}
use hexahedra.Wire.Laws.Combinators.{▸-Lawful, via-Lawful, fields-Lawful, initially-Lawful}
use hexahedra.Wire.Laws.Scalars.{u8-Lawful, bool-Lawful, u16-Lawful, u16_replaced, bool_replaced}
use hexahedra.Wire.Laws.Elements.{IsText, IsVector, IsArray, elements-Lawful}
use hexahedra.Wire.Laws.Sequences.{string-Lawful, char_vector-Lawful, vector-Lawful}
use hexahedra.Wire.Laws.Points.{
  Each3, EachCorner, InChunk, aabb-Lawful, chunk_index-Lawful, coordinates-Lawful,
}
use hexahedra.Protocol.Records.{
  CompressedData, CustomBlockPart, Material, HotbarSlot, compressed_data, custom_block_part,
  material, hotbar_slot,
}

abbrev pub CompressedDataFits : CompressedData → Type 0
CompressedDataFits m = IsU16 m.unpacked_len × IsText m.buf

abbrev pub CustomBlockPartFits : CustomBlockPart → Type 0
CustomBlockPartFits m = EachCorner InChunk m.box × IsArray 6 IsU16 m.textures

-- `light_emission` does not travel, so that a new object has 0 there.
abbrev pub MaterialFits : Material → Type 0
MaterialFits m =
    IsArray 6 IsU16 m.textures
    × IsText m.name
    × IsVector CustomBlockPartFits m.model
    × IsVector (EachCorner (Each3 IsU32)) m.bounding_box
    × IsByte m.transparency
    × (m.light_emission ≡ 0)

abbrev pub HotbarSlotFits : HotbarSlot → Type 0
HotbarSlotFits m =
    IsByte m.type
    × IsText m.name
    × IsText m.tooltip
    × IsText m.badge
    × IsU16 m.counter
    × IsByte m.progress_bar
    × IsText m.wield
    × IsByte m.cooldown

module _ ⦃host : ByteOrder⦄ where
  pub compressed_data-Lawful : Lawful compressed_data CompressedDataFits
  unfolding compressed_data
  compressed_data-Lawful =
      fields-Lawful (▸-Lawful u16-Lawful char_vector-Lawful)
        (λ t. record { unpacked_len = t.0; buf = t.1 }) (λ m. (m.unpacked_len, m.buf)) refl
        (λ m h. (h.0, h.1)) (λ m h. refl)

  pub custom_block_part-Lawful : Lawful custom_block_part CustomBlockPartFits
  unfolding custom_block_part
  custom_block_part-Lawful =
      fields-Lawful (▸-Lawful (aabb-Lawful chunk_index-Lawful) (elements-Lawful u16-Lawful 6))
        (λ t. record { box = t.0; textures = t.1 }) (λ m. (m.box, m.textures)) refl
        (λ m h. (h.0, h.1)) (λ m h. refl)

  pub material-Lawful : Lawful material MaterialFits
  unfolding material ◌▸◌ elements initially u8 u16 scalar string counted_bytes vector
  material-Lawful =
      via-Lawful
        (▸-Lawful (elements-Lawful u16-Lawful 6) (
          ▸-Lawful u8-Lawful (
            ▸-Lawful (initially-Lawful bool-Lawful true (λ b h. bool_replaced true b)) (
              ▸-Lawful string-Lawful (
                ▸-Lawful (vector-Lawful custom_block_part-Lawful)
                  (vector-Lawful (aabb-Lawful coordinates-Lawful)))))))
        _ _ _ refl (λ m h. (h.0, (h.4, (tt, (h.1, (h.2, h.3))))))
        (λ m h i. record m { light_emission = sym h.5 i })

  pub hotbar_slot-Lawful : Lawful hotbar_slot HotbarSlotFits
  unfolding hotbar_slot
  hotbar_slot-Lawful =
      fields-Lawful
        (▸-Lawful u8-Lawful (
          ▸-Lawful string-Lawful (
            ▸-Lawful string-Lawful (
              ▸-Lawful string-Lawful (
                ▸-Lawful (initially-Lawful u16-Lawful 65535 (λ v h. u16_replaced 65535 v)) (
                  ▸-Lawful u8-Lawful (▸-Lawful string-Lawful (▸-Lawful bool-Lawful u8-Lawful))))))))
        (λ t. record {
          type = t.0;
          name = t.1.0;
          tooltip = t.1.1.0;
          badge = t.1.1.1.0;
          counter = t.1.1.1.1.0;
          progress_bar = t.1.1.1.1.1.0;
          wield = t.1.1.1.1.1.1.0;
          can_drag = t.1.1.1.1.1.1.1.0;
          cooldown = t.1.1.1.1.1.1.1.1;
        })
        (λ m. (
          m.type,
          (
            m.name,
            (
              m.tooltip,
              (m.badge, (m.counter, (m.progress_bar, (m.wield, (m.can_drag, m.cooldown))))),
            ),
          ),
        ))
        refl (λ m h. (h.0, (h.1, (h.2, (h.3, (h.4, (h.5, (h.6, (tt, h.7))))))))) (λ m h. refl)
