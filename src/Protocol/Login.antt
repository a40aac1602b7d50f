-- ===== src/Protocol/Login.antt =====
-- The messages of hexa/protocol.hpp that open and close a session, from the client.
pub mod Laws
use hexahedra.Base.{ℕ, ◌≡◌, refl, sym, List, [], ◌∷◌, Bool, true, false}
use hexahedra.Wire.Defs.{Serial, ◌▸◌, via, fields, initially}
use hexahedra.Wire.Endian.{ByteOrder}
use hexahedra.Wire.Scalars.{u8, bool, u16, u32, IsByte, IsU16, IsU32, scalar}
use hexahedra.Wire.Sequences.{elements, string, char_vector, vector, counted_bytes}
use hexahedra.Wire.Points.{
  Vector2, Vector3, Aabb, Wfpos, aabb, chunk_index, coordinates, map_coordinates, wfpos,
}
use hexahedra.Wire.Sequences.{Text}

-- `msg::login`
pub record Login : Type 0 where
  pub protocol_version : ℕ
  pub credentials : Text

-- `msg::time_sync_request`
pub record TimeSyncRequest : Type 0 where
  pub request : ℕ

-- `msg::console`
pub record Console : Type 0 where
  pub text : Text

module _ ⦃host : ByteOrder⦄ where
  unfoldable pub login : Serial Login
  unfolding fields ◌▸◌ initially
  login =
      fields (λ t. record { protocol_version = t.0; credentials = t.1 })
        (λ m. (m.protocol_version, m.credentials)) (u8 ▸ string)

  unfoldable pub time_sync_request : Serial TimeSyncRequest
  unfolding fields ◌▸◌ initially
  time_sync_request = fields (λ t. record { request = t }) (λ m. m.request) u32

  unfoldable pub console : Serial Console
  unfolding fields ◌▸◌ initially
  console = fields (λ t. record { text = t }) (λ m. m.text) string
