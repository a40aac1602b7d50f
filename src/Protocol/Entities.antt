-- ===== src/Protocol/Entities.antt =====
-- The messages of hexa/protocol.hpp about the entity system.
pub mod Laws
use hexahedra.Base.{ℕ, ◌≡◌, refl, sym, List, [], ◌∷◌, Bool, true, false}
use hexahedra.Wire.Defs.{Serial, ◌▸◌, via, fields, initially}
use hexahedra.Wire.Endian.{ByteOrder}
use hexahedra.Wire.Scalars.{u8, bool, u16, u32, IsByte, IsU16, IsU32, scalar}
use hexahedra.Wire.Sequences.{elements, string, char_vector, vector, counted_bytes}
use hexahedra.Wire.Points.{
  Vector2, Vector3, Aabb, Wfpos, aabb, chunk_index, coordinates, map_coordinates, wfpos,
}
use hexahedra.Wire.Sequences.{Text}

-- `msg::entity_update::value`; `payload` is its `data`.
pub record EntityValue : Type 0 where
  pub entity_id : ℕ
  pub component_id : ℕ
  pub payload : Text

-- `msg::entity_update`
pub record EntityUpdate : Type 0 where
  pub updates : List EntityValue

-- `msg::entity_update_physics::value`
pub record PhysicsValue : Type 0 where
  pub entity_id : ℕ
  pub pos : Wfpos
  pub velocity : Vector3 ℕ

-- `msg::entity_update_physics`
pub record EntityUpdatePhysics : Type 0 where
  pub timestamp : ℕ
  pub updates : List PhysicsValue

-- `msg::entity_delete`
pub record EntityDelete : Type 0 where
  pub entity_id : ℕ

module _ ⦃host : ByteOrder⦄ where
  unfoldable pub entity_value : Serial EntityValue
  unfolding fields ◌▸◌ initially
  entity_value =
      fields (λ t. record { entity_id = t.0; component_id = t.1.0; payload = t.1.1 })
        (λ m. (m.entity_id, (m.component_id, m.payload))) (u32 ▸ u16 ▸ (vector u8))

  unfoldable pub entity_update : Serial EntityUpdate
  unfolding fields ◌▸◌ initially
  entity_update = fields (λ t. record { updates = t }) (λ m. m.updates) (vector entity_value)

  unfoldable pub physics_value : Serial PhysicsValue
  unfolding fields ◌▸◌ initially
  physics_value =
      fields (λ t. record { entity_id = t.0; pos = t.1.0; velocity = t.1.1 })
        (λ m. (m.entity_id, (m.pos, m.velocity))) (u32 ▸ wfpos ▸ coordinates)

  unfoldable pub entity_update_physics : Serial EntityUpdatePhysics
  unfolding fields ◌▸◌ initially
  entity_update_physics =
      fields (λ t. record { timestamp = t.0; updates = t.1 }) (λ m. (m.timestamp, m.updates))
        (u32 ▸ (vector physics_value))

  unfoldable pub entity_delete : Serial EntityDelete
  unfolding fields ◌▸◌ initially
  entity_delete = fields (λ t. record { entity_id = t }) (λ m. m.entity_id) u32
