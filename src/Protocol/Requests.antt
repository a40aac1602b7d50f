-- ===== src/Protocol/Requests.antt =====
-- The messages of hexa/protocol.hpp by which a client asks for terrain.
pub mod Laws
use hexahedra.Base.{ℕ, ◌≡◌, refl, sym, List, [], ◌∷◌, Bool, true, false}
use hexahedra.Wire.Defs.{Serial, ◌▸◌, via, fields, initially}
use hexahedra.Wire.Endian.{ByteOrder}
use hexahedra.Wire.Scalars.{u8, bool, u16, u32, IsByte, IsU16, IsU32, scalar}
use hexahedra.Wire.Sequences.{elements, string, char_vector, vector, counted_bytes}
use hexahedra.Wire.Points.{
  Vector2, Vector3, Aabb, Wfpos, aabb, chunk_index, coordinates, map_coordinates, wfpos,
}
use hexahedra.Wire.Sequences.{Text}

-- `msg::request_surfaces::record`
pub record SurfaceRequest : Type 0 where
  pub position : Vector3 ℕ
  pub version : ℕ

-- `msg::request_surfaces`
pub record RequestSurfaces : Type 0 where
  pub requests : List SurfaceRequest

-- `msg::request_heights::record`
pub record HeightRequest : Type 0 where
  pub position : Vector2 ℕ
  pub last_update : ℕ

-- `msg::request_heights`
pub record RequestHeights : Type 0 where
  pub requests : List HeightRequest

module _ ⦃host : ByteOrder⦄ where
  unfoldable pub surface_request : Serial SurfaceRequest
  unfolding fields ◌▸◌ initially
  surface_request =
      fields (λ t. record { position = t.0; version = t.1 }) (λ m. (m.position, m.version))
        (coordinates ▸ u32)

  unfoldable pub request_surfaces : Serial RequestSurfaces
  unfolding fields ◌▸◌ initially
  request_surfaces =
      fields (λ t. record { requests = t }) (λ m. m.requests) (vector surface_request)

  unfoldable pub height_request : Serial HeightRequest
  unfolding fields ◌▸◌ initially
  height_request =
      fields (λ t. record { position = t.0; last_update = t.1 }) (λ m. (m.position, m.last_update))
        (map_coordinates ▸ u32)

  unfoldable pub request_heights : Serial RequestHeights
  unfolding fields ◌▸◌ initially
  request_heights = fields (λ t. record { requests = t }) (λ m. m.requests) (vector height_request)
