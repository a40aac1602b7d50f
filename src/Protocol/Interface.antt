-- ===== src/Protocol/Interface.antt =====
-- The messages of hexa/protocol.hpp about the player's screen.
pub mod Laws
use hexahedra.Base.{ℕ, ◌≡◌, refl, sym, List, [], ◌∷◌, Bool, true, false}
use hexahedra.Wire.Defs.{Serial, ◌▸◌, via, fields, initially}
use hexahedra.Wire.Endian.{ByteOrder}
use hexahedra.Wire.Scalars.{u8, bool, u16, u32, IsByte, IsU16, IsU32, scalar}
use hexahedra.Wire.Sequences.{elements, string, char_vector, vector, counted_bytes}
use hexahedra.Wire.Points.{
  Vector2, Vector3, Aabb, Wfpos, aabb, chunk_index, coordinates, map_coordinates, wfpos,
}
use hexahedra.Protocol.Records.{
  CompressedData, CustomBlockPart, Material, HotbarSlot, compressed_data, custom_block_part,
  material, hotbar_slot,
}
use hexahedra.Wire.Sequences.{Text}

-- `msg::player_stat_register`
pub record PlayerStatRegister : Type 0 where
  pub id : ℕ
  pub name : Text
  pub desc : Text

-- `msg::player_stat_update`
pub record PlayerStatUpdate : Type 0 where
  pub id : ℕ
  pub value : ℕ
  pub max : ℕ

-- `msg::player_configure_hotbar`; its `slot` adds no member to `hotbar_slot`.
pub record PlayerConfigureHotbar : Type 0 where
  pub slots : List HotbarSlot

-- `msg::global_config`
pub record GlobalConfig : Type 0 where
  pub name : Text
  pub value : Text

-- `msg::print_msg`
pub record PrintMsg : Type 0 where
  pub json : Text

module _ ⦃host : ByteOrder⦄ where
  -- `slot::serialize`, which leaves `wield` out: a read keeps what was there.
  unfoldable pub slot : Serial HotbarSlot
  unfolding via ◌▸◌ initially
  slot =
      via
        (record {
          type = 0;
          name = [];
          tooltip = [];
          badge = [];
          counter = 65535;
          progress_bar = 0;
          wield = [];
          can_drag = false;
          cooldown = 0;
        })
        (λ m t. record m {
          type = t.0;
          name = t.1.0;
          tooltip = t.1.1.0;
          badge = t.1.1.1.0;
          counter = t.1.1.1.1.0;
          progress_bar = t.1.1.1.1.1.0;
          can_drag = t.1.1.1.1.1.1.0;
          cooldown = t.1.1.1.1.1.1.1;
        })
        (λ m. (
          m.type,
          (m.name, (m.tooltip, (m.badge, (m.counter, (m.progress_bar, (m.can_drag, m.cooldown)))))),
        ))
        (u8 ▸ string ▸ string ▸ string ▸ initially 65535 u16 ▸ u8 ▸ bool ▸ u8)

  unfoldable pub player_stat_register : Serial PlayerStatRegister
  unfolding fields ◌▸◌ initially
  player_stat_register =
      fields (λ t. record { id = t.0; name = t.1.0; desc = t.1.1 }) (λ m. (m.id, (m.name, m.desc)))
        (u8 ▸ string ▸ string)

  unfoldable pub player_stat_update : Serial PlayerStatUpdate
  unfolding fields ◌▸◌ initially
  player_stat_update =
      fields (λ t. record { id = t.0; value = t.1.0; max = t.1.1 }) (λ m. (m.id, (m.value, m.max)))
        (u8 ▸ u32 ▸ u32)

  unfoldable pub player_configure_hotbar : Serial PlayerConfigureHotbar
  unfolding fields ◌▸◌ initially
  player_configure_hotbar = fields (λ t. record { slots = t }) (λ m. m.slots) (vector slot)

  unfoldable pub global_config : Serial GlobalConfig
  unfolding fields ◌▸◌ initially
  global_config =
      fields (λ t. record { name = t.0; value = t.1 }) (λ m. (m.name, m.value)) (string ▸ string)

  unfoldable pub print_msg : Serial PrintMsg
  unfolding fields ◌▸◌ initially
  print_msg = fields (λ t. record { json = t }) (λ m. m.json) string
