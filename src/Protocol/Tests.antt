-- ===== src/Protocol/Tests.antt =====
-- Runs of the protocol, and its theorems at concrete messages.
use hexahedra.Base.{ℕ, ◌≡◌, refl, List, [], ◌∷◌, ◌++◌, some, true, arith}
use hexahedra.Wire.Defs.{Fault, ok, err}
use hexahedra.Wire.Endian.{little_endian, memory, to_network}
use hexahedra.Wire.Scalars.{u8, u16, u32}
use hexahedra.Wire.Sequences.{Text, string}
use hexahedra.Wire.Points.{vector3}
use hexahedra.Protocol.Session.{greeting as greeting_archive}
use hexahedra.Protocol.Actions.{button_release as button_release_archive}
use hexahedra.Protocol.Server
use hexahedra.Protocol.Server.{ServerMessage, greeting, player_configure_hotbar, receive}
use hexahedra.Protocol.Records.{HotbarSlot}
use hexahedra.Protocol.Server.Delivery.{receive-packet, receive_truncated}
use hexahedra.Protocol.Client
use hexahedra.Protocol.Client.{ClientMessage, button_release, on_receive}
use hexahedra.Protocol.Client.Delivery.{on_receive-packet, on_receive_truncated}

abbrev hello : ServerMessage
hello = greeting (record {
  client_time = 1000;
  position = record { x = 1; y = 2; z = 3 };
  entity_id = 7;
  motd = b'h' ∷ b'i' ∷ [];
})

abbrev hello_front : List ℕ
hello_front =
    0 ∷ 0 ∷ 3 ∷ 232 ∷ 0 ∷ 0 ∷ 0 ∷ 1 ∷ 0 ∷ 0 ∷ 0 ∷ 2 ∷ 0 ∷ 0 ∷ 0 ∷ 3 ∷ 0 ∷ 0 ∷ 0 ∷ 7 ∷ 0 ∷ 2 ∷ b'h'
    ∷ []

hello_bytes : Server.packet ⦃host = little_endian⦄ hello ≡ ok (2 ∷ (hello_front ++ (b'i' ∷ [])))
unfolding Server.packet greeting_archive vector3 u32 u16 string memory to_network
hello_bytes = refl

abbrev release : ClientMessage
release = button_release (record { button = 3 })

release_bytes : Client.packet ⦃host = little_endian⦄ release ≡ ok (161 ∷ 3 ∷ [])
unfolding Client.packet button_release_archive u8
release_bytes = refl

-- A slot of the hotbar, which arrives without the model that is held.
abbrev slot_with : Text → HotbarSlot
slot_with model = record {
  type = 1;
  name = b'h' ∷ [];
  tooltip = [];
  badge = [];
  counter = 4;
  progress_bar = 0;
  wield = model;
  can_drag = true;
  cooldown = 0;
}

abbrev hotbar_with : Text → ServerMessage
hotbar_with model = player_configure_hotbar (record { slots = slot_with model ∷ [] })

receive-packet_example :
    (b : List ℕ) × (Server.packet ⦃host = little_endian⦄ (hotbar_with (b'i' ∷ [])) ≡ ok b)
    × (receive ⦃host = little_endian⦄ b ≡ ok (some (hotbar_with [])))
receive-packet_example =
    receive-packet ⦃host = little_endian⦄ (hotbar_with (b'i' ∷ [])) (ground arith)

receive_truncated_example :
    (e : Fault) × (receive ⦃host = little_endian⦄ (Server.msg_id hello ∷ hello_front) ≡ err e)
unfolding Server.msg_id
receive_truncated_example =
    receive_truncated ⦃host = little_endian⦄ hello hello_front [] b'i' (omega arith) refl
      hello_bytes

on_receive-packet_example :
    (b : List ℕ) × (Client.packet ⦃host = little_endian⦄ release ≡ ok b)
    × (on_receive ⦃host = little_endian⦄ b ≡ ok (some release))
on_receive-packet_example = on_receive-packet ⦃host = little_endian⦄ release (omega arith)

on_receive_truncated_example :
    (e : Fault) × (on_receive ⦃host = little_endian⦄ (Client.msg_id release ∷ []) ≡ err e)
unfolding Client.msg_id
on_receive_truncated_example =
    on_receive_truncated ⦃host = little_endian⦄ release [] [] 3 (omega arith) refl release_bytes
