-- ===== src/Protocol/Server.antt =====
-- The messages that a server sends, and what a client does with a packet: hexa/protocol.hpp and
-- `main_game::receive` of hexa/client/main_game.cpp.
mod Sent
pub mod Delivery
use hexahedra.Base.{ℕ, List, [], ◌∷◌, Option, none, some, ◌==◌, if◌then◌else◌}
use hexahedra.Wire.Defs.{Result, ok, err, out_of_bounds, ◌>>=◌}
use hexahedra.Wire.Endian.{ByteOrder}
use hexahedra.Protocol.Packet.{Reliability, sequenced, reliable, unreliable, serialize_packet, make}
use hexahedra.Protocol.Session
use hexahedra.Protocol.Resources
use hexahedra.Protocol.Entities
use hexahedra.Protocol.Terrain
use hexahedra.Protocol.Interface

pub data ServerMessage : Type 0 where
  keep_alive : Session.KeepAlive → ServerMessage
  handshake : Session.Handshake → ServerMessage
  greeting : Session.Greeting → ServerMessage
  kick : Session.Kick → ServerMessage
  time_sync_response : Session.TimeSyncResponse → ServerMessage
  define_resources : Resources.DefineResources → ServerMessage
  define_materials : Resources.DefineMaterials → ServerMessage
  define_custom_blocks : Resources.DefineCustomBlocks → ServerMessage
  entity_update : Entities.EntityUpdate → ServerMessage
  entity_update_physics : Entities.EntityUpdatePhysics → ServerMessage
  entity_delete : Entities.EntityDelete → ServerMessage
  heightmap_update : Terrain.HeightmapUpdate → ServerMessage
  lightmap_update : Terrain.LightmapUpdate → ServerMessage
  surface_update : Terrain.SurfaceUpdate → ServerMessage
  player_stat_register : Interface.PlayerStatRegister → ServerMessage
  player_stat_update : Interface.PlayerStatUpdate → ServerMessage
  player_configure_hotbar : Interface.PlayerConfigureHotbar → ServerMessage
  global_config : Interface.GlobalConfig → ServerMessage
  print_msg : Interface.PrintMsg → ServerMessage

-- `msg_id` of each class
unfoldable pub msg_id : ServerMessage → ℕ
msg_id (keep_alive _) = 0
msg_id (handshake _) = 1
msg_id (greeting _) = 2
msg_id (kick _) = 3
msg_id (time_sync_response _) = 4
msg_id (define_resources _) = 5
msg_id (define_materials _) = 6
msg_id (define_custom_blocks _) = 7
msg_id (entity_update _) = 10
msg_id (entity_update_physics _) = 11
msg_id (entity_delete _) = 12
msg_id (heightmap_update _) = 13
msg_id (lightmap_update _) = 15
msg_id (surface_update _) = 16
msg_id (player_stat_register _) = 32
msg_id (player_stat_update _) = 33
msg_id (player_configure_hotbar _) = 34
msg_id (global_config _) = 35
msg_id (print_msg _) = 36

-- `method` of each class
unfoldable pub method : ServerMessage → Reliability
method (keep_alive _) = unreliable
method (handshake _) = reliable
method (greeting _) = reliable
method (kick _) = reliable
method (time_sync_response _) = unreliable
method (define_resources _) = reliable
method (define_materials _) = reliable
method (define_custom_blocks _) = reliable
method (entity_update _) = reliable
method (entity_update_physics _) = unreliable
method (entity_delete _) = reliable
method (heightmap_update _) = reliable
method (lightmap_update _) = reliable
method (surface_update _) = reliable
method (player_stat_register _) = reliable
method (player_stat_update _) = sequenced
method (player_configure_hotbar _) = reliable
method (global_config _) = reliable
method (print_msg _) = reliable

module _ ⦃host : ByteOrder⦄ where
  -- `serialize_packet(m)` at each class
  unfoldable pub packet : ServerMessage → Result (List ℕ)
  unfolding serialize_packet msg_id
  packet (keep_alive m) = serialize_packet (msg_id (keep_alive m)) Session.keep_alive m
  packet (handshake m) = serialize_packet (msg_id (handshake m)) Session.handshake m
  packet (greeting m) = serialize_packet (msg_id (greeting m)) Session.greeting m
  packet (kick m) = serialize_packet (msg_id (kick m)) Session.kick m
  packet (time_sync_response m) =
      serialize_packet (msg_id (time_sync_response m)) Session.time_sync_response m
  packet (define_resources m) =
      serialize_packet (msg_id (define_resources m)) Resources.define_resources m
  packet (define_materials m) =
      serialize_packet (msg_id (define_materials m)) Resources.define_materials m
  packet (define_custom_blocks m) =
      serialize_packet (msg_id (define_custom_blocks m)) Resources.define_custom_blocks m
  packet (entity_update m) = serialize_packet (msg_id (entity_update m)) Entities.entity_update m
  packet (entity_update_physics m) =
      serialize_packet (msg_id (entity_update_physics m)) Entities.entity_update_physics m
  packet (entity_delete m) = serialize_packet (msg_id (entity_delete m)) Entities.entity_delete m
  packet (heightmap_update m) =
      serialize_packet (msg_id (heightmap_update m)) Terrain.heightmap_update m
  packet (lightmap_update m) =
      serialize_packet (msg_id (lightmap_update m)) Terrain.lightmap_update m
  packet (surface_update m) = serialize_packet (msg_id (surface_update m)) Terrain.surface_update m
  packet (player_stat_register m) =
      serialize_packet (msg_id (player_stat_register m)) Interface.player_stat_register m
  packet (player_stat_update m) =
      serialize_packet (msg_id (player_stat_update m)) Interface.player_stat_update m
  packet (player_configure_hotbar m) =
      serialize_packet (msg_id (player_configure_hotbar m)) Interface.player_configure_hotbar m
  packet (global_config m) = serialize_packet (msg_id (global_config m)) Interface.global_config m
  packet (print_msg m) = serialize_packet (msg_id (print_msg m)) Interface.print_msg m

  -- `main_game::receive`: the message that is handed to the handler of its class; `none` is the
  -- default case, an unknown type. No packet is empty: its type is read unchecked.
  unfoldable pub receive : List ℕ → Result (Option ServerMessage)
  unfolding make
  receive [] = err out_of_bounds
  receive (id ∷ body) =
      if id == 1
      then (make Session.handshake body >>= λ m. ok (some (handshake m)))
      else if id == 2
      then (make Session.greeting body >>= λ m. ok (some (greeting m)))
      else if id == 3
      then (make Session.kick body >>= λ m. ok (some (kick m)))
      else if id == 4
      then (make Session.time_sync_response body >>= λ m. ok (some (time_sync_response m)))
      else if id == 5
      then (make Resources.define_resources body >>= λ m. ok (some (define_resources m)))
      else if id == 6
      then (make Resources.define_materials body >>= λ m. ok (some (define_materials m)))
      else if id == 10
      then (make Entities.entity_update body >>= λ m. ok (some (entity_update m)))
      else if id == 11
      then (make Entities.entity_update_physics body >>= λ m. ok (some (entity_update_physics m)))
      else if id == 12
      then (make Entities.entity_delete body >>= λ m. ok (some (entity_delete m)))
      else if id == 16
      then (make Terrain.surface_update body >>= λ m. ok (some (surface_update m)))
      else if id == 15
      then (make Terrain.lightmap_update body >>= λ m. ok (some (lightmap_update m)))
      else if id == 13
      then (make Terrain.heightmap_update body >>= λ m. ok (some (heightmap_update m)))
      else if id == 34
      then (make Interface.player_configure_hotbar body >>= λ m.
          ok (some (player_configure_hotbar m)))
      else if id == 35
      then (make Interface.global_config body >>= λ m. ok (some (global_config m)))
      else if id == 36
      then (make Interface.print_msg body >>= λ m. ok (some (print_msg m)))
      else ok none
