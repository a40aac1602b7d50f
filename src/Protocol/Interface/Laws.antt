-- ===== src/Protocol/Interface/Laws.antt =====
-- The contract of the messages about the player's screen.
use hexahedra.Base.{◌≡◌, refl, sym, []}
use hexahedra.Wire.Defs.{◌▸◌, initially}
use hexahedra.Wire.Endian.{ByteOrder}
use hexahedra.Wire.Scalars.{u8, bool, u16, IsByte, IsU16, IsU32, scalar}
use hexahedra.Wire.Sequences.{string, counted_bytes}
use hexahedra.Wire.Laws.Defs.{Lawful}
use hexahedra.Wire.Laws.Combinators.{▸-Lawful, via-Lawful, fields-Lawful, initially-Lawful}
use hexahedra.Wire.Laws.Scalars.{u8-Lawful, bool-Lawful, u16-Lawful, u32-Lawful, u16_replaced}
use hexahedra.Wire.Laws.Elements.{IsText, IsVector}
use hexahedra.Wire.Laws.Sequences.{string-Lawful, vector-Lawful}
use hexahedra.Protocol.Records.{HotbarSlot}
use hexahedra.Protocol.Interface.{
  PlayerStatRegister, PlayerStatUpdate, PlayerConfigureHotbar, GlobalConfig, PrintMsg, slot,
  player_stat_register, player_stat_update, player_configure_hotbar, global_config, print_msg,
}

-- `wield` does not travel in a slot.
abbrev pub SlotFits : HotbarSlot → Type 0
SlotFits m =
    IsByte m.type
    × IsText m.name
    × IsText m.tooltip
    × IsText m.badge
    × IsU16 m.counter
    × IsByte m.progress_bar
    × (m.wield ≡ [])
    × IsByte m.cooldown

abbrev pub PlayerStatRegisterFits : PlayerStatRegister → Type 0
PlayerStatRegisterFits m = IsByte m.id × IsText m.name × IsText m.desc

abbrev pub PlayerStatUpdateFits : PlayerStatUpdate → Type 0
PlayerStatUpdateFits m = IsByte m.id × IsU32 m.value × IsU32 m.max

abbrev pub PlayerConfigureHotbarFits : PlayerConfigureHotbar → Type 0
PlayerConfigureHotbarFits m = IsVector SlotFits m.slots

abbrev pub GlobalConfigFits : GlobalConfig → Type 0
GlobalConfigFits m = IsText m.name × IsText m.value

abbrev pub PrintMsgFits : PrintMsg → Type 0
PrintMsgFits m = IsText m.json

module _ ⦃host : ByteOrder⦄ where
  pub slot-Lawful : Lawful slot SlotFits
  unfolding slot ◌▸◌ initially u8 u16 bool scalar string counted_bytes
  slot-Lawful =
      via-Lawful
        (▸-Lawful u8-Lawful (
          ▸-Lawful string-Lawful (
            ▸-Lawful string-Lawful (
              ▸-Lawful string-Lawful (
                ▸-Lawful (initially-Lawful u16-Lawful 65535 (λ v h. u16_replaced 65535 v))
                  (▸-Lawful u8-Lawful (▸-Lawful bool-Lawful u8-Lawful)))))))
        _ _ _ refl (λ m h. (h.0, (h.1, (h.2, (h.3, (h.4, (h.5, (tt, h.7))))))))
        (λ m h i. record m { wield = sym h.6 i })

  pub player_stat_register-Lawful : Lawful player_stat_register PlayerStatRegisterFits
  unfolding player_stat_register
  player_stat_register-Lawful =
      fields-Lawful (▸-Lawful u8-Lawful (▸-Lawful string-Lawful string-Lawful))
        (λ t. record { id = t.0; name = t.1.0; desc = t.1.1 }) (λ m. (m.id, (m.name, m.desc))) refl
        (λ m h. (h.0, (h.1, h.2))) (λ m h. refl)

  pub player_stat_update-Lawful : Lawful player_stat_update PlayerStatUpdateFits
  unfolding player_stat_update
  player_stat_update-Lawful =
      fields-Lawful (▸-Lawful u8-Lawful (▸-Lawful u32-Lawful u32-Lawful))
        (λ t. record { id = t.0; value = t.1.0; max = t.1.1 }) (λ m. (m.id, (m.value, m.max))) refl
        (λ m h. (h.0, (h.1, h.2))) (λ m h. refl)

  pub player_configure_hotbar-Lawful : Lawful player_configure_hotbar PlayerConfigureHotbarFits
  unfolding player_configure_hotbar
  player_configure_hotbar-Lawful =
      fields-Lawful (vector-Lawful slot-Lawful) (λ t. record { slots = t }) (λ m. m.slots) refl
        (λ m h. h) (λ m h. refl)

  pub global_config-Lawful : Lawful global_config GlobalConfigFits
  unfolding global_config
  global_config-Lawful =
      fields-Lawful (▸-Lawful string-Lawful string-Lawful) (λ t. record { name = t.0; value = t.1 })
        (λ m. (m.name, m.value)) refl (λ m h. (h.0, h.1)) (λ m h. refl)

  pub print_msg-Lawful : Lawful print_msg PrintMsgFits
  unfolding print_msg
  print_msg-Lawful =
      fields-Lawful string-Lawful (λ t. record { json = t }) (λ m. m.json) refl (λ m h. h)
        (λ m h. refl)
