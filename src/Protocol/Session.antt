-- ===== src/Protocol/Session.antt =====
-- The messages of hexa/protocol.hpp that open and keep a session, from the server.
pub mod Laws
use hexahedra.Base.{ℕ, ◌≡◌, refl, sym, List, [], ◌∷◌, Bool, true, false}
use hexahedra.Wire.Defs.{Serial, ◌▸◌, via, fields, initially}
use hexahedra.Wire.Endian.{ByteOrder}
use hexahedra.Wire.Scalars.{u8, bool, u16, u32, IsByte, IsU16, IsU32, scalar}
use hexahedra.Wire.Sequences.{elements, string, char_vector, vector, counted_bytes}
use hexahedra.Wire.Points.{
  Vector2, Vector3, Aabb, Wfpos, aabb, chunk_index, coordinates, map_coordinates, wfpos,
}
use hexahedra.Wire.Sequences.{Text}

-- `msg::keep_alive`
pub record KeepAlive : Type 0 where
  pub ticks : ℕ

-- `msg::handshake`
pub record Handshake : Type 0 where
  pub server_name : Text
  pub public_key : Text
  pub login_methods : List Text

-- `msg::greeting`
pub record Greeting : Type 0 where
  pub client_time : ℕ
  pub position : Vector3 ℕ
  pub entity_id : ℕ
  pub motd : Text

-- `msg::kick`
pub record Kick : Type 0 where
  pub reason : Text

-- `msg::time_sync_response`
pub record TimeSyncResponse : Type 0 where
  pub request : ℕ
  pub response : ℕ

module _ ⦃host : ByteOrder⦄ where
  unfoldable pub keep_alive : Serial KeepAlive
  unfolding fields ◌▸◌ initially
  keep_alive = fields (λ t. record { ticks = t }) (λ m. m.ticks) u32

  unfoldable pub handshake : Serial Handshake
  unfolding fields ◌▸◌ initially
  handshake =
      fields (λ t. record { server_name = t.0; public_key = t.1.0; login_methods = t.1.1 })
        (λ m. (m.server_name, (m.public_key, m.login_methods)))
        (string ▸ (vector u8) ▸ (vector string))

  unfoldable pub greeting : Serial Greeting
  unfolding fields ◌▸◌ initially
  greeting =
      fields
        (λ t. record { client_time = t.0; position = t.1.0; entity_id = t.1.1.0; motd = t.1.1.1 })
        (λ m. (m.client_time, (m.position, (m.entity_id, m.motd))))
        (u32 ▸ coordinates ▸ u32 ▸ string)

  unfoldable pub kick : Serial Kick
  unfolding fields ◌▸◌ initially
  kick = fields (λ t. record { reason = t }) (λ m. m.reason) string

  unfoldable pub time_sync_response : Serial TimeSyncResponse
  unfolding fields ◌▸◌ initially
  time_sync_response =
      fields (λ t. record { request = t.0; response = t.1 }) (λ m. (m.request, m.response))
        (u32 ▸ u32)
