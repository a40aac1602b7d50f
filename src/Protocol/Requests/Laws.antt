-- ===== src/Protocol/Requests/Laws.antt =====
-- The contract of the client's requests.
use hexahedra.Base.{refl}
use hexahedra.Wire.Endian.{ByteOrder}
use hexahedra.Wire.Scalars.{IsU32}
use hexahedra.Wire.Laws.Defs.{Lawful}
use hexahedra.Wire.Laws.Combinators.{▸-Lawful, fields-Lawful}
use hexahedra.Wire.Laws.Scalars.{u32-Lawful}
use hexahedra.Wire.Laws.Elements.{IsVector}
use hexahedra.Wire.Laws.Sequences.{vector-Lawful}
use hexahedra.Wire.Laws.Points.{Each2, Each3, coordinates-Lawful, map_coordinates-Lawful}
use hexahedra.Protocol.Requests.{
  SurfaceRequest, RequestSurfaces, HeightRequest, RequestHeights, surface_request, request_surfaces,
  height_request, request_heights,
}

abbrev pub SurfaceRequestFits : SurfaceRequest → Type 0
SurfaceRequestFits m = Each3 IsU32 m.position × IsU32 m.version

abbrev pub RequestSurfacesFits : RequestSurfaces → Type 0
RequestSurfacesFits m = IsVector SurfaceRequestFits m.requests

abbrev pub HeightRequestFits : HeightRequest → Type 0
HeightRequestFits m = Each2 IsU32 m.position × IsU32 m.last_update

abbrev pub RequestHeightsFits : RequestHeights → Type 0
RequestHeightsFits m = IsVector HeightRequestFits m.requests

module _ ⦃host : ByteOrder⦄ where
  pub surface_request-Lawful : Lawful surface_request SurfaceRequestFits
  unfolding surface_request
  surface_request-Lawful =
      fields-Lawful (▸-Lawful coordinates-Lawful u32-Lawful)
        (λ t. record { position = t.0; version = t.1 }) (λ m. (m.position, m.version)) refl
        (λ m h. (h.0, h.1)) (λ m h. refl)

  pub request_surfaces-Lawful : Lawful request_surfaces RequestSurfacesFits
  unfolding request_surfaces
  request_surfaces-Lawful =
      fields-Lawful (vector-Lawful surface_request-Lawful) (λ t. record { requests = t })
        (λ m. m.requests) refl (λ m h. h) (λ m h. refl)

  pub height_request-Lawful : Lawful height_request HeightRequestFits
  unfolding height_request
  height_request-Lawful =
      fields-Lawful (▸-Lawful map_coordinates-Lawful u32-Lawful)
        (λ t. record { position = t.0; last_update = t.1 }) (λ m. (m.position, m.last_update)) refl
        (λ m h. (h.0, h.1)) (λ m h. refl)

  pub request_heights-Lawful : Lawful request_heights RequestHeightsFits
  unfolding request_heights
  request_heights-Lawful =
      fields-Lawful (vector-Lawful height_request-Lawful) (λ t. record { requests = t })
        (λ m. m.requests) refl (λ m h. h) (λ m h. refl)
