-- ===== src/Protocol/Entities/Laws.antt =====
-- The contract of the messages about entities.
use hexahedra.Base.{refl}
use hexahedra.Wire.Endian.{ByteOrder}
use hexahedra.Wire.Scalars.{IsU16, IsU32}
use hexahedra.Wire.Laws.Defs.{Lawful}
use hexahedra.Wire.Laws.Combinators.{▸-Lawful, fields-Lawful}
use hexahedra.Wire.Laws.Scalars.{u8-Lawful, u16-Lawful, u32-Lawful}
use hexahedra.Wire.Laws.Elements.{IsText, IsVector}
use hexahedra.Wire.Laws.Sequences.{vector-Lawful}
use hexahedra.Wire.Laws.Points.{Each3, WfposFits, coordinates-Lawful, wfpos-Lawful}
use hexahedra.Protocol.Entities.{
  EntityValue, EntityUpdate, PhysicsValue, EntityUpdatePhysics, EntityDelete, entity_value,
  entity_update, physics_value, entity_update_physics, entity_delete,
}

abbrev pub EntityValueFits : EntityValue → Type 0
EntityValueFits m = IsU32 m.entity_id × IsU16 m.component_id × IsText m.payload

abbrev pub EntityUpdateFits : EntityUpdate → Type 0
EntityUpdateFits m = IsVector EntityValueFits m.updates

abbrev pub PhysicsValueFits : PhysicsValue → Type 0
PhysicsValueFits m = IsU32 m.entity_id × WfposFits m.pos × Each3 IsU32 m.velocity

abbrev pub EntityUpdatePhysicsFits : EntityUpdatePhysics → Type 0
EntityUpdatePhysicsFits m = IsU32 m.timestamp × IsVector PhysicsValueFits m.updates

abbrev pub EntityDeleteFits : EntityDelete → Type 0
EntityDeleteFits m = IsU32 m.entity_id

module _ ⦃host : ByteOrder⦄ where
  pub entity_value-Lawful : Lawful entity_value EntityValueFits
  unfolding entity_value
  entity_value-Lawful =
      fields-Lawful (▸-Lawful u32-Lawful (▸-Lawful u16-Lawful (vector-Lawful u8-Lawful)))
        (λ t. record { entity_id = t.0; component_id = t.1.0; payload = t.1.1 })
        (λ m. (m.entity_id, (m.component_id, m.payload))) refl (λ m h. (h.0, (h.1, h.2)))
        (λ m h. refl)

  pub entity_update-Lawful : Lawful entity_update EntityUpdateFits
  unfolding entity_update
  entity_update-Lawful =
      fields-Lawful (vector-Lawful entity_value-Lawful) (λ t. record { updates = t })
        (λ m. m.updates) refl (λ m h. h) (λ m h. refl)

  pub physics_value-Lawful : Lawful physics_value PhysicsValueFits
  unfolding physics_value
  physics_value-Lawful =
      fields-Lawful (▸-Lawful u32-Lawful (▸-Lawful wfpos-Lawful coordinates-Lawful))
        (λ t. record { entity_id = t.0; pos = t.1.0; velocity = t.1.1 })
        (λ m. (m.entity_id, (m.pos, m.velocity))) refl (λ m h. (h.0, (h.1, h.2))) (λ m h. refl)

  pub entity_update_physics-Lawful : Lawful entity_update_physics EntityUpdatePhysicsFits
  unfolding entity_update_physics
  entity_update_physics-Lawful =
      fields-Lawful (▸-Lawful u32-Lawful (vector-Lawful physics_value-Lawful))
        (λ t. record { timestamp = t.0; updates = t.1 }) (λ m. (m.timestamp, m.updates)) refl
        (λ m h. (h.0, h.1)) (λ m h. refl)

  pub entity_delete-Lawful : Lawful entity_delete EntityDeleteFits
  unfolding entity_delete
  entity_delete-Lawful =
      fields-Lawful u32-Lawful (λ t. record { entity_id = t }) (λ m. m.entity_id) refl (λ m h. h)
        (λ m h. refl)
