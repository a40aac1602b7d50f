-- ===== src/Protocol/Server/Delivery.antt =====
-- What is sent arrives: the packets of the server.
use hexahedra.Base.{ℕ, ◌≡◌, refl, sym, ◌∙◌, List, ◌∷◌, ◌++◌, Option, none, some}
use hexahedra.Wire.Defs.{Fault, ok, err}
use hexahedra.Wire.Endian.{ByteOrder}
use hexahedra.Protocol.Packet.Laws.{serialize_packet-bytes, make-bytes, make_truncated}
use hexahedra.Protocol.Session.Laws.{
  KeepAliveFits, HandshakeFits, GreetingFits, KickFits, TimeSyncResponseFits, keep_alive-Lawful,
  handshake-Lawful, greeting-Lawful, kick-Lawful, time_sync_response-Lawful,
}
use hexahedra.Protocol.Resources.Laws.{
  DefineResourcesFits, DefineMaterialsFits, DefineCustomBlocksFits, define_resources-Lawful,
  define_materials-Lawful, define_custom_blocks-Lawful,
}
use hexahedra.Protocol.Entities.Laws.{
  EntityUpdateFits, EntityUpdatePhysicsFits, EntityDeleteFits, entity_update-Lawful,
  entity_update_physics-Lawful, entity_delete-Lawful,
}
use hexahedra.Protocol.Terrain.Laws.{
  HeightmapUpdateFits, LightmapUpdateFits, SurfaceUpdateFits, heightmap_update-Lawful,
  lightmap_update-Lawful, surface_update-Lawful,
}
use hexahedra.Protocol.Interface.Laws.{
  PlayerStatRegisterFits, PlayerStatUpdateFits, PlayerConfigureHotbarFits, GlobalConfigFits,
  PrintMsgFits, player_stat_register-Lawful, player_stat_update-Lawful,
  player_configure_hotbar-Lawful, global_config-Lawful, print_msg-Lawful,
}
use hexahedra.Protocol.Server.{
  ServerMessage, keep_alive, handshake, greeting, kick, time_sync_response, define_resources,
  define_materials, define_custom_blocks, entity_update, entity_update_physics, entity_delete,
  heightmap_update, lightmap_update, surface_update, player_stat_register, player_stat_update,
  player_configure_hotbar, global_config, print_msg, msg_id, packet, receive,
}
use hexahedra.Protocol.Server.Sent.{as_sent, packet-as_sent}

-- The format has room for the message, whose fields that are not sent are at their defaults.
abbrev pub Fits : ServerMessage → Type 0
Fits (keep_alive m) = KeepAliveFits m
Fits (handshake m) = HandshakeFits m
Fits (greeting m) = GreetingFits m
Fits (kick m) = KickFits m
Fits (time_sync_response m) = TimeSyncResponseFits m
Fits (define_resources m) = DefineResourcesFits m
Fits (define_materials m) = DefineMaterialsFits m
Fits (define_custom_blocks m) = DefineCustomBlocksFits m
Fits (entity_update m) = EntityUpdateFits m
Fits (entity_update_physics m) = EntityUpdatePhysicsFits m
Fits (entity_delete m) = EntityDeleteFits m
Fits (heightmap_update m) = HeightmapUpdateFits m
Fits (lightmap_update m) = LightmapUpdateFits m
Fits (surface_update m) = SurfaceUpdateFits m
Fits (player_stat_register m) = PlayerStatRegisterFits m
Fits (player_stat_update m) = PlayerStatUpdateFits m
Fits (player_configure_hotbar m) = PlayerConfigureHotbarFits m
Fits (global_config m) = GlobalConfigFits m
Fits (print_msg m) = PrintMsgFits m

-- What the other side makes of a message: it does not know `keep_alive` or `define_custom_blocks`
-- or `player_stat_register` or `player_stat_update`.
abbrev pub arrives : ServerMessage → Option ServerMessage
arrives (keep_alive m) = none
arrives (handshake m) = some (handshake m)
arrives (greeting m) = some (greeting m)
arrives (kick m) = some (kick m)
arrives (time_sync_response m) = some (time_sync_response m)
arrives (define_resources m) = some (define_resources m)
arrives (define_materials m) = some (define_materials m)
arrives (define_custom_blocks m) = none
arrives (entity_update m) = some (entity_update m)
arrives (entity_update_physics m) = some (entity_update_physics m)
arrives (entity_delete m) = some (entity_delete m)
arrives (heightmap_update m) = some (heightmap_update m)
arrives (lightmap_update m) = some (lightmap_update m)
arrives (surface_update m) = some (surface_update m)
arrives (player_stat_register m) = none
arrives (player_stat_update m) = none
arrives (player_configure_hotbar m) = some (player_configure_hotbar m)
arrives (global_config m) = some (global_config m)
arrives (print_msg m) = some (print_msg m)

module _ ⦃host : ByteOrder⦄ where
  -- Of a message that is as it is sent, every field arrives.
  received :
      (m : ServerMessage) → Fits m → (b : List ℕ) × (packet m ≡ ok b) × (receive b ≡ ok (arrives m))
  unfolding packet receive
  received (keep_alive m) h = (_, serialize_packet-bytes 0 keep_alive-Lawful m h, refl)
  received (handshake m) h =
      (_, serialize_packet-bytes 1 handshake-Lawful m h, rw (make-bytes handshake-Lawful m h))
  received (greeting m) h =
      (_, serialize_packet-bytes 2 greeting-Lawful m h, rw (make-bytes greeting-Lawful m h))
  received (kick m) h =
      (_, serialize_packet-bytes 3 kick-Lawful m h, rw (make-bytes kick-Lawful m h))
  received (time_sync_response m) h = (
    _,
    serialize_packet-bytes 4 time_sync_response-Lawful m h,
    rw (make-bytes time_sync_response-Lawful m h),
  )
  received (define_resources m) h = (
    _,
    serialize_packet-bytes 5 define_resources-Lawful m h,
    rw (make-bytes define_resources-Lawful m h),
  )
  received (define_materials m) h = (
    _,
    serialize_packet-bytes 6 define_materials-Lawful m h,
    rw (make-bytes define_materials-Lawful m h),
  )
  received (define_custom_blocks m) h =
      (_, serialize_packet-bytes 7 define_custom_blocks-Lawful m h, refl)
  received (entity_update m) h = (
    _,
    serialize_packet-bytes 10 entity_update-Lawful m h,
    rw (make-bytes entity_update-Lawful m h),
  )
  received (entity_update_physics m) h = (
    _,
    serialize_packet-bytes 11 entity_update_physics-Lawful m h,
    rw (make-bytes entity_update_physics-Lawful m h),
  )
  received (entity_delete m) h = (
    _,
    serialize_packet-bytes 12 entity_delete-Lawful m h,
    rw (make-bytes entity_delete-Lawful m h),
  )
  received (heightmap_update m) h = (
    _,
    serialize_packet-bytes 13 heightmap_update-Lawful m h,
    rw (make-bytes heightmap_update-Lawful m h),
  )
  received (lightmap_update m) h = (
    _,
    serialize_packet-bytes 15 lightmap_update-Lawful m h,
    rw (make-bytes lightmap_update-Lawful m h),
  )
  received (surface_update m) h = (
    _,
    serialize_packet-bytes 16 surface_update-Lawful m h,
    rw (make-bytes surface_update-Lawful m h),
  )
  received (player_stat_register m) h =
      (_, serialize_packet-bytes 32 player_stat_register-Lawful m h, refl)
  received (player_stat_update m) h =
      (_, serialize_packet-bytes 33 player_stat_update-Lawful m h, refl)
  received (player_configure_hotbar m) h = (
    _,
    serialize_packet-bytes 34 player_configure_hotbar-Lawful m h,
    rw (make-bytes player_configure_hotbar-Lawful m h),
  )
  received (global_config m) h = (
    _,
    serialize_packet-bytes 35 global_config-Lawful m h,
    rw (make-bytes global_config-Lawful m h),
  )
  received (print_msg m) h =
      (_, serialize_packet-bytes 36 print_msg-Lawful m h, rw (make-bytes print_msg-Lawful m h))

  -- Every server message for which the format has room is turned into a packet. The client gets
  -- from that packet the message with all its fields, but for two that are not sent: the
  -- `light_emission` of a material arrives as 0, and the `wield` of a slot of the hotbar as the
  -- empty text. That is if the message is of a class that the client handles; else it reports an
  -- unknown type.
  pub receive-packet :
      (m : ServerMessage)
      → Fits (as_sent m)
      → (b : List ℕ) × (packet m ≡ ok b) × (receive b ≡ ok (arrives (as_sent m)))
  receive-packet m h =
      let (b, sent, arrived) = received (as_sent m) h in (b, sym (packet-as_sent m) ∙ sent, arrived)

  -- For a packet from the server that lost its end, of a message that fits the format, with the two
  -- fields that are not sent at their defaults, and whose class the client handles, no message can be
  -- made of the bytes that are left: the read ends in an exception, or goes past the end of the
  -- packet, which is a failed assertion in a build with assertions and is undefined in one without.
  pub receive_truncated :
      (m : ServerMessage) (front back : List ℕ) (x : ℕ)
      → Fits m
      → arrives m ≡ some m
      → packet m ≡ ok (msg_id m ∷ (front ++ (x ∷ back)))
      → (e : Fault) × (receive (msg_id m ∷ front) ≡ err e)
  unfolding packet receive msg_id
  receive_truncated (keep_alive m) front back x h known sent = absurd (cc known)
  receive_truncated (handshake m) front back x h known sent =
      let (e, refused) = make_truncated 1 handshake-Lawful m front back x h sent in (e, rw refused)
  receive_truncated (greeting m) front back x h known sent =
      let (e, refused) = make_truncated 2 greeting-Lawful m front back x h sent in (e, rw refused)
  receive_truncated (kick m) front back x h known sent =
      let (e, refused) = make_truncated 3 kick-Lawful m front back x h sent in (e, rw refused)
  receive_truncated (time_sync_response m) front back x h known sent =
      let (e, refused) = make_truncated 4 time_sync_response-Lawful m front back x h sent in
      (e, rw refused)
  receive_truncated (define_resources m) front back x h known sent =
      let (e, refused) = make_truncated 5 define_resources-Lawful m front back x h sent in
      (e, rw refused)
  receive_truncated (define_materials m) front back x h known sent =
      let (e, refused) = make_truncated 6 define_materials-Lawful m front back x h sent in
      (e, rw refused)
  receive_truncated (define_custom_blocks m) front back x h known sent = absurd (cc known)
  receive_truncated (entity_update m) front back x h known sent =
      let (e, refused) = make_truncated 10 entity_update-Lawful m front back x h sent in
      (e, rw refused)
  receive_truncated (entity_update_physics m) front back x h known sent =
      let (e, refused) = make_truncated 11 entity_update_physics-Lawful m front back x h sent in
      (e, rw refused)
  receive_truncated (entity_delete m) front back x h known sent =
      let (e, refused) = make_truncated 12 entity_delete-Lawful m front back x h sent in
      (e, rw refused)
  receive_truncated (heightmap_update m) front back x h known sent =
      let (e, refused) = make_truncated 13 heightmap_update-Lawful m front back x h sent in
      (e, rw refused)
  receive_truncated (lightmap_update m) front back x h known sent =
      let (e, refused) = make_truncated 15 lightmap_update-Lawful m front back x h sent in
      (e, rw refused)
  receive_truncated (surface_update m) front back x h known sent =
      let (e, refused) = make_truncated 16 surface_update-Lawful m front back x h sent in
      (e, rw refused)
  receive_truncated (player_stat_register m) front back x h known sent = absurd (cc known)
  receive_truncated (player_stat_update m) front back x h known sent = absurd (cc known)
  receive_truncated (player_configure_hotbar m) front back x h known sent =
      let (e, refused) = make_truncated 34 player_configure_hotbar-Lawful m front back x h sent in
      (e, rw refused)
  receive_truncated (global_config m) front back x h known sent =
      let (e, refused) = make_truncated 35 global_config-Lawful m front back x h sent in
      (e, rw refused)
  receive_truncated (print_msg m) front back x h known sent =
      let (e, refused) = make_truncated 36 print_msg-Lawful m front back x h sent in (e, rw refused)
