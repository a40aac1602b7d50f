-- ===== src/Protocol/Resources/Laws.antt =====
-- The contract of the messages about resources.
use hexahedra.Base.{refl}
use hexahedra.Wire.Endian.{ByteOrder}
use hexahedra.Wire.Scalars.{IsU16}
use hexahedra.Wire.Laws.Defs.{Lawful}
use hexahedra.Wire.Laws.Combinators.{▸-Lawful, fields-Lawful}
use hexahedra.Wire.Laws.Scalars.{u16-Lawful}
use hexahedra.Wire.Laws.Elements.{IsText, IsVector, IsArray, elements-Lawful}
use hexahedra.Wire.Laws.Sequences.{string-Lawful, vector-Lawful}
use hexahedra.Wire.Laws.Points.{InChunk, chunk_index-Lawful}
use hexahedra.Protocol.Records.Laws.{MaterialFits, material-Lawful}
use hexahedra.Protocol.Resources.{
  DefineResources, MaterialRecord, DefineMaterials, CustomPart, CustomRecord, DefineCustomBlocks,
  define_resources, material_record, define_materials, custom_part, custom_record,
  define_custom_blocks,
}

abbrev pub DefineResourcesFits : DefineResources → Type 0
DefineResourcesFits m =
    IsVector IsText m.textures × IsVector IsText m.models × IsVector IsText m.sounds

abbrev pub MaterialRecordFits : MaterialRecord → Type 0
MaterialRecordFits m = IsU16 m.material_id × MaterialFits m.definition

abbrev pub DefineMaterialsFits : DefineMaterials → Type 0
DefineMaterialsFits m = IsVector MaterialRecordFits m.materials

abbrev pub CustomPartFits : CustomPart → Type 0
CustomPartFits m = InChunk m.corner1 × InChunk m.corner2 × IsArray 6 IsU16 m.textures

abbrev pub CustomRecordFits : CustomRecord → Type 0
CustomRecordFits m = IsText m.name × IsVector CustomPartFits m.parts

abbrev pub DefineCustomBlocksFits : DefineCustomBlocks → Type 0
DefineCustomBlocksFits m = IsVector CustomRecordFits m.models

module _ ⦃host : ByteOrder⦄ where
  pub define_resources-Lawful : Lawful define_resources DefineResourcesFits
  unfolding define_resources
  define_resources-Lawful =
      fields-Lawful
        (▸-Lawful (vector-Lawful string-Lawful)
          (▸-Lawful (vector-Lawful string-Lawful) (vector-Lawful string-Lawful)))
        (λ t. record { textures = t.0; models = t.1.0; sounds = t.1.1 })
        (λ m. (m.textures, (m.models, m.sounds))) refl (λ m h. (h.0, (h.1, h.2))) (λ m h. refl)

  pub material_record-Lawful : Lawful material_record MaterialRecordFits
  unfolding material_record
  material_record-Lawful =
      fields-Lawful (▸-Lawful u16-Lawful material-Lawful)
        (λ t. record { material_id = t.0; definition = t.1 }) (λ m. (m.material_id, m.definition))
        refl (λ m h. (h.0, h.1)) (λ m h. refl)

  pub define_materials-Lawful : Lawful define_materials DefineMaterialsFits
  unfolding define_materials
  define_materials-Lawful =
      fields-Lawful (vector-Lawful material_record-Lawful) (λ t. record { materials = t })
        (λ m. m.materials) refl (λ m h. h) (λ m h. refl)

  pub custom_part-Lawful : Lawful custom_part CustomPartFits
  unfolding custom_part
  custom_part-Lawful =
      fields-Lawful
        (▸-Lawful chunk_index-Lawful (▸-Lawful chunk_index-Lawful (elements-Lawful u16-Lawful 6)))
        (λ t. record { corner1 = t.0; corner2 = t.1.0; textures = t.1.1 })
        (λ m. (m.corner1, (m.corner2, m.textures))) refl (λ m h. (h.0, (h.1, h.2))) (λ m h. refl)

  pub custom_record-Lawful : Lawful custom_record CustomRecordFits
  unfolding custom_record
  custom_record-Lawful =
      fields-Lawful (▸-Lawful string-Lawful (vector-Lawful custom_part-Lawful))
        (λ t. record { name = t.0; parts = t.1 }) (λ m. (m.name, m.parts)) refl (λ m h. (h.0, h.1))
        (λ m h. refl)

  pub define_custom_blocks-Lawful : Lawful define_custom_blocks DefineCustomBlocksFits
  unfolding define_custom_blocks
  define_custom_blocks-Lawful =
      fields-Lawful (vector-Lawful custom_record-Lawful) (λ t. record { models = t })
        (λ m. m.models) refl (λ m h. h) (λ m h. refl)
