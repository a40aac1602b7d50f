-- ===== src/Protocol/Server/Sent.antt =====
-- What a packet of the server carries of its message: hexa/block_types.hpp has no `light_emission`
-- in `material::serialize`, and hexa/protocol.hpp no `wield` in `slot::serialize`.
use hexahedra.Base.{ℕ, zero, suc, ◌%◌, ◌^◌, ◌≡◌, refl, ap, ◌∙◌, List, [], ◌∷◌, length, take, map}
use hexahedra.Wire.Defs.{◌>>=◌, Serial, via, fields, ◌▸◌, initially}
use hexahedra.Wire.Endian.{ByteOrder}
use hexahedra.Wire.Scalars.{u16}
use hexahedra.Wire.Sequences.{write_each, vector}
use hexahedra.Protocol.Records.{HotbarSlot, material}
use hexahedra.Protocol.Resources.{MaterialRecord, material_record}
use hexahedra.Protocol.Resources
use hexahedra.Protocol.Interface.{slot}
use hexahedra.Protocol.Interface
use hexahedra.Protocol.Packet.{serialize_packet}
use hexahedra.Protocol.Server.{
  ServerMessage, keep_alive, handshake, greeting, kick, time_sync_response, define_resources,
  define_materials, define_custom_blocks, entity_update, entity_update_physics, entity_delete,
  heightmap_update, lightmap_update, surface_update, player_stat_register, player_stat_update,
  player_configure_hotbar, global_config, print_msg, msg_id, packet,
}

-- A material as the other side has it: the light that it gives is not sent.
abbrev record_sent : MaterialRecord → MaterialRecord
record_sent r = record r { definition = record r.definition { light_emission = 0 } }

-- A slot as the other side has it: the model that is held is not sent.
abbrev slot_sent : HotbarSlot → HotbarSlot
slot_sent x = record x { wield = [] }

-- The message, with the fields that are not sent at their defaults.
abbrev pub as_sent : ServerMessage → ServerMessage
as_sent (keep_alive m) = keep_alive m
as_sent (handshake m) = handshake m
as_sent (greeting m) = greeting m
as_sent (kick m) = kick m
as_sent (time_sync_response m) = time_sync_response m
as_sent (define_resources m) = define_resources m
as_sent (define_materials m) =
    define_materials (record m { materials = map record_sent m.materials })
as_sent (define_custom_blocks m) = define_custom_blocks m
as_sent (entity_update m) = entity_update m
as_sent (entity_update_physics m) = entity_update_physics m
as_sent (entity_delete m) = entity_delete m
as_sent (heightmap_update m) = heightmap_update m
as_sent (lightmap_update m) = lightmap_update m
as_sent (surface_update m) = surface_update m
as_sent (player_stat_register m) = player_stat_register m
as_sent (player_stat_update m) = player_stat_update m
as_sent (player_configure_hotbar m) =
    player_configure_hotbar (record m { slots = map slot_sent m.slots })
as_sent (global_config m) = global_config m
as_sent (print_msg m) = print_msg m

take-map : {A : Type 0} (f : A → A) (n : ℕ) (xs : List A) → take n (map f xs) ≡ map f (take n xs)
take-map f zero xs = refl
take-map f (suc n) [] = refl
take-map f (suc n) (x ∷ xs) = ap (λ ys. f x ∷ ys) (take-map f n xs)

length-map : {A : Type 0} (f : A → A) (xs : List A) → length (map f xs) ≡ length xs
length-map f [] = refl
length-map f (x ∷ xs) = ap suc (length-map f xs)

module _ {A : Type 0} (s : Serial A) (f : A → A)
    (same : (a : A) (out : List ℕ) → s.write (f a) out ≡ s.write a out) where
  write_each-map : (xs : List A) (out : List ℕ) → write_each s (map f xs) out ≡ write_each s xs out
  unfolding write_each
  write_each-map [] out = refl
  write_each-map (x ∷ xs) out =
      ap (λ r. r >>= write_each s (map f xs)) (same x out)
      ∙ ap (λ next. s.write x out >>= next) (λ i out'. write_each-map xs out' i)

  -- A vector is written the same when what is changed in its elements is not written.
  vector-write-map :
      ⦃host : ByteOrder⦄ (xs : List A) (out : List ℕ)
      → (vector s).write (map f xs) out ≡ (vector s).write xs out
  unfolding vector
  vector-write-map xs out =
      let size = length xs % 2 ^ 16 in
      rw (length-map f xs) (
        ap (λ next. u16.write size out >>= next)
          (λ i out'.
            (ap (λ ys. write_each s ys out') (take-map f size xs)
                ∙ write_each-map (take size xs) out')
              i))

module _ ⦃host : ByteOrder⦄ where
  pub packet-as_sent : (m : ServerMessage) → packet (as_sent m) ≡ packet m
  unfolding packet msg_id serialize_packet Resources.define_materials material_record material
      Interface.player_configure_hotbar slot via fields ◌▸◌ initially
  packet-as_sent (keep_alive m) = refl
  packet-as_sent (handshake m) = refl
  packet-as_sent (greeting m) = refl
  packet-as_sent (kick m) = refl
  packet-as_sent (time_sync_response m) = refl
  packet-as_sent (define_resources m) = refl
  packet-as_sent (define_materials m) =
      vector-write-map material_record record_sent (λ r out. refl) m.materials (6 ∷ [])
  packet-as_sent (define_custom_blocks m) = refl
  packet-as_sent (entity_update m) = refl
  packet-as_sent (entity_update_physics m) = refl
  packet-as_sent (entity_delete m) = refl
  packet-as_sent (heightmap_update m) = refl
  packet-as_sent (lightmap_update m) = refl
  packet-as_sent (surface_update m) = refl
  packet-as_sent (player_stat_register m) = refl
  packet-as_sent (player_stat_update m) = refl
  packet-as_sent (player_configure_hotbar m) =
      vector-write-map slot slot_sent (λ x out. refl) m.slots (34 ∷ [])
  packet-as_sent (global_config m) = refl
  packet-as_sent (print_msg m) = refl
