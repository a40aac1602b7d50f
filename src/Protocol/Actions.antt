-- ===== src/Protocol/Actions.antt =====
-- The messages of hexa/protocol.hpp about what a player does.
pub mod Laws
use hexahedra.Base.{ℕ, ◌≡◌, refl, sym, List, [], ◌∷◌, Bool, true, false}
use hexahedra.Wire.Defs.{Serial, ◌▸◌, via, fields, initially}
use hexahedra.Wire.Endian.{ByteOrder}
use hexahedra.Wire.Scalars.{u8, bool, u16, u32, IsByte, IsU16, IsU32, scalar}
use hexahedra.Wire.Sequences.{elements, string, char_vector, vector, counted_bytes}
use hexahedra.Wire.Points.{
  Vector2, Vector3, Aabb, Wfpos, aabb, chunk_index, coordinates, map_coordinates, wfpos,
}
use hexahedra.Wire.Sequences.{Text}

-- `msg::button_press`
pub record ButtonPress : Type 0 where
  pub button : ℕ
  pub slot : ℕ
  pub look : Vector2 ℕ
  pub pos : Wfpos

-- `msg::button_release`
pub record ButtonRelease : Type 0 where
  pub button : ℕ

-- `msg::trigger`
pub record Trigger : Type 0 where
  pub look : Vector2 ℕ
  pub slot : ℕ

-- `msg::look_at`
pub record LookAt : Type 0 where
  pub look : Vector2 ℕ

-- `msg::motion`
pub record Motion : Type 0 where
  pub move_dir : ℕ
  pub move_speed : ℕ
  pub position : Wfpos

module _ ⦃host : ByteOrder⦄ where
  unfoldable pub button_press : Serial ButtonPress
  unfolding fields ◌▸◌ initially
  button_press =
      fields (λ t. record { button = t.0; slot = t.1.0; look = t.1.1.0; pos = t.1.1.1 })
        (λ m. (m.button, (m.slot, (m.look, m.pos)))) (u8 ▸ u8 ▸ map_coordinates ▸ wfpos)

  unfoldable pub button_release : Serial ButtonRelease
  unfolding fields ◌▸◌ initially
  button_release = fields (λ t. record { button = t }) (λ m. m.button) u8

  unfoldable pub trigger : Serial Trigger
  unfolding fields ◌▸◌ initially
  trigger =
      fields (λ t. record { look = t.0; slot = t.1 }) (λ m. (m.look, m.slot)) (map_coordinates ▸ u8)

  unfoldable pub look_at : Serial LookAt
  unfolding fields ◌▸◌ initially
  look_at = fields (λ t. record { look = t }) (λ m. m.look) map_coordinates

  unfoldable pub motion : Serial Motion
  unfolding fields ◌▸◌ initially
  motion =
      fields (λ t. record { move_dir = t.0; move_speed = t.1.0; position = t.1.1 })
        (λ m. (m.move_dir, (m.move_speed, m.position))) (u8 ▸ u8 ▸ wfpos)
