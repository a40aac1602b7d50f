-- ===== src/Protocol/Terrain/Laws.antt =====
-- The contract of the messages about terrain.
use hexahedra.Base.{refl}
use hexahedra.Wire.Endian.{ByteOrder}
use hexahedra.Wire.Scalars.{IsU32}
use hexahedra.Wire.Laws.Defs.{Lawful}
use hexahedra.Wire.Laws.Combinators.{▸-Lawful, fields-Lawful}
use hexahedra.Wire.Laws.Scalars.{u32-Lawful}
use hexahedra.Wire.Laws.Elements.{IsVector}
use hexahedra.Wire.Laws.Sequences.{vector-Lawful}
use hexahedra.Wire.Laws.Points.{Each2, Each3, coordinates-Lawful, map_coordinates-Lawful}
use hexahedra.Protocol.Records.Laws.{CompressedDataFits, compressed_data-Lawful}
use hexahedra.Protocol.Terrain.{
  HeightRecord, HeightmapUpdate, LightmapUpdate, SurfaceUpdate, height_record, heightmap_update,
  lightmap_update, surface_update,
}

abbrev pub HeightRecordFits : HeightRecord → Type 0
HeightRecordFits m = Each2 IsU32 m.pos × IsU32 m.height

abbrev pub HeightmapUpdateFits : HeightmapUpdate → Type 0
HeightmapUpdateFits m = IsVector HeightRecordFits m.heights

abbrev pub LightmapUpdateFits : LightmapUpdate → Type 0
LightmapUpdateFits m = Each3 IsU32 m.position × CompressedDataFits m.light

abbrev pub SurfaceUpdateFits : SurfaceUpdate → Type 0
SurfaceUpdateFits m =
    Each3 IsU32 m.position × CompressedDataFits m.terrain × CompressedDataFits m.light

module _ ⦃host : ByteOrder⦄ where
  pub height_record-Lawful : Lawful height_record HeightRecordFits
  unfolding height_record
  height_record-Lawful =
      fields-Lawful (▸-Lawful map_coordinates-Lawful u32-Lawful)
        (λ t. record { pos = t.0; height = t.1 }) (λ m. (m.pos, m.height)) refl (λ m h. (h.0, h.1))
        (λ m h. refl)

  pub heightmap_update-Lawful : Lawful heightmap_update HeightmapUpdateFits
  unfolding heightmap_update
  heightmap_update-Lawful =
      fields-Lawful (vector-Lawful height_record-Lawful) (λ t. record { heights = t })
        (λ m. m.heights) refl (λ m h. h) (λ m h. refl)

  pub lightmap_update-Lawful : Lawful lightmap_update LightmapUpdateFits
  unfolding lightmap_update
  lightmap_update-Lawful =
      fields-Lawful (▸-Lawful coordinates-Lawful compressed_data-Lawful)
        (λ t. record { position = t.0; light = t.1 }) (λ m. (m.position, m.light)) refl
        (λ m h. (h.0, h.1)) (λ m h. refl)

  pub surface_update-Lawful : Lawful surface_update SurfaceUpdateFits
  unfolding surface_update
  surface_update-Lawful =
      fields-Lawful
        (▸-Lawful coordinates-Lawful (▸-Lawful compressed_data-Lawful compressed_data-Lawful))
        (λ t. record { position = t.0; terrain = t.1.0; light = t.1.1 })
        (λ m. (m.position, (m.terrain, m.light))) refl (λ m h. (h.0, (h.1, h.2))) (λ m h. refl)
