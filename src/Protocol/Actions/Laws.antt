-- ===== src/Protocol/Actions/Laws.antt =====
-- The contract of the messages about what a player does.
use hexahedra.Base.{refl}
use hexahedra.Wire.Endian.{ByteOrder}
use hexahedra.Wire.Scalars.{IsByte, IsU32}
use hexahedra.Wire.Laws.Defs.{Lawful}
use hexahedra.Wire.Laws.Combinators.{▸-Lawful, fields-Lawful}
use hexahedra.Wire.Laws.Scalars.{u8-Lawful}
use hexahedra.Wire.Laws.Points.{Each2, WfposFits, map_coordinates-Lawful, wfpos-Lawful}
use hexahedra.Protocol.Actions.{
  ButtonPress, ButtonRelease, Trigger, LookAt, Motion, button_press, button_release, trigger,
  look_at, motion,
}

abbrev pub ButtonPressFits : ButtonPress → Type 0
ButtonPressFits m = IsByte m.button × IsByte m.slot × Each2 IsU32 m.look × WfposFits m.pos

abbrev pub ButtonReleaseFits : ButtonRelease → Type 0
ButtonReleaseFits m = IsByte m.button

abbrev pub TriggerFits : Trigger → Type 0
TriggerFits m = Each2 IsU32 m.look × IsByte m.slot

abbrev pub LookAtFits : LookAt → Type 0
LookAtFits m = Each2 IsU32 m.look

abbrev pub MotionFits : Motion → Type 0
MotionFits m = IsByte m.move_dir × IsByte m.move_speed × WfposFits m.position

module _ ⦃host : ByteOrder⦄ where
  pub button_press-Lawful : Lawful button_press ButtonPressFits
  unfolding button_press
  button_press-Lawful =
      fields-Lawful
        (▸-Lawful u8-Lawful (▸-Lawful u8-Lawful (▸-Lawful map_coordinates-Lawful wfpos-Lawful)))
        (λ t. record { button = t.0; slot = t.1.0; look = t.1.1.0; pos = t.1.1.1 })
        (λ m. (m.button, (m.slot, (m.look, m.pos)))) refl (λ m h. (h.0, (h.1, (h.2, h.3))))
        (λ m h. refl)

  pub button_release-Lawful : Lawful button_release ButtonReleaseFits
  unfolding button_release
  button_release-Lawful =
      fields-Lawful u8-Lawful (λ t. record { button = t }) (λ m. m.button) refl (λ m h. h)
        (λ m h. refl)

  pub trigger-Lawful : Lawful trigger TriggerFits
  unfolding trigger
  trigger-Lawful =
      fields-Lawful (▸-Lawful map_coordinates-Lawful u8-Lawful)
        (λ t. record { look = t.0; slot = t.1 }) (λ m. (m.look, m.slot)) refl (λ m h. (h.0, h.1))
        (λ m h. refl)

  pub look_at-Lawful : Lawful look_at LookAtFits
  unfolding look_at
  look_at-Lawful =
      fields-Lawful map_coordinates-Lawful (λ t. record { look = t }) (λ m. m.look) refl (λ m h. h)
        (λ m h. refl)

  pub motion-Lawful : Lawful motion MotionFits
  unfolding motion
  motion-Lawful =
      fields-Lawful (▸-Lawful u8-Lawful (▸-Lawful u8-Lawful wfpos-Lawful))
        (λ t. record { move_dir = t.0; move_speed = t.1.0; position = t.1.1 })
        (λ m. (m.move_dir, (m.move_speed, m.position))) refl (λ m h. (h.0, (h.1, h.2)))
        (λ m h. refl)
