-- ===== src/Protocol/Client.antt =====
-- The messages that a client sends, and what a server does with a packet: hexa/protocol.hpp and
-- `network::on_receive` of hexa/server/network.cpp.
pub mod Delivery
use hexahedra.Base.{ℕ, List, [], ◌∷◌, Option, none, some, ◌==◌, if◌then◌else◌}
use hexahedra.Wire.Defs.{Result, ok, err, out_of_bounds, ◌>>=◌}
use hexahedra.Wire.Endian.{ByteOrder}
use hexahedra.Protocol.Packet.{Reliability, sequenced, reliable, unreliable, serialize_packet, make}
use hexahedra.Protocol.Login
use hexahedra.Protocol.Requests
use hexahedra.Protocol.Actions

pub data ClientMessage : Type 0 where
  login : Login.Login → ClientMessage
  time_sync_request : Login.TimeSyncRequest → ClientMessage
  console : Login.Console → ClientMessage
  request_surfaces : Requests.RequestSurfaces → ClientMessage
  request_heights : Requests.RequestHeights → ClientMessage
  button_press : Actions.ButtonPress → ClientMessage
  button_release : Actions.ButtonRelease → ClientMessage
  trigger : Actions.Trigger → ClientMessage
  look_at : Actions.LookAt → ClientMessage
  motion : Actions.Motion → ClientMessage
  logout : ClientMessage

-- `msg_id` of each class
unfoldable pub msg_id : ClientMessage → ℕ
msg_id (login _) = 128
msg_id (time_sync_request _) = 130
msg_id (console _) = 131
msg_id (request_surfaces _) = 139
msg_id (request_heights _) = 140
msg_id (button_press _) = 160
msg_id (button_release _) = 161
msg_id (trigger _) = 162
msg_id (look_at _) = 163
msg_id (motion _) = 164
msg_id logout = 129

-- `method` of each class
unfoldable pub method : ClientMessage → Reliability
method (login _) = reliable
method (time_sync_request _) = unreliable
method (console _) = sequenced
method (request_surfaces _) = reliable
method (request_heights _) = reliable
method (button_press _) = sequenced
method (button_release _) = sequenced
method (trigger _) = sequenced
method (look_at _) = unreliable
method (motion _) = reliable
method logout = sequenced

module _ ⦃host : ByteOrder⦄ where
  -- `serialize_packet(m)` at each class. `logout` has no `serialize`: its packet is the type alone.
  unfoldable pub packet : ClientMessage → Result (List ℕ)
  unfolding serialize_packet msg_id
  packet (login m) = serialize_packet (msg_id (login m)) Login.login m
  packet (time_sync_request m) =
      serialize_packet (msg_id (time_sync_request m)) Login.time_sync_request m
  packet (console m) = serialize_packet (msg_id (console m)) Login.console m
  packet (request_surfaces m) =
      serialize_packet (msg_id (request_surfaces m)) Requests.request_surfaces m
  packet (request_heights m) =
      serialize_packet (msg_id (request_heights m)) Requests.request_heights m
  packet (button_press m) = serialize_packet (msg_id (button_press m)) Actions.button_press m
  packet (button_release m) = serialize_packet (msg_id (button_release m)) Actions.button_release m
  packet (trigger m) = serialize_packet (msg_id (trigger m)) Actions.trigger m
  packet (look_at m) = serialize_packet (msg_id (look_at m)) Actions.look_at m
  packet (motion m) = serialize_packet (msg_id (motion m)) Actions.motion m
  packet logout = ok (msg_id logout ∷ [])

  -- `network::on_receive`: the message that the handler of its class makes; `none` is `unknown`.
  -- No packet is empty: its type is read unchecked.
  unfoldable pub on_receive : List ℕ → Result (Option ClientMessage)
  unfolding make
  on_receive [] = err out_of_bounds
  on_receive (id ∷ body) =
      if id == 128
      then (make Login.login body >>= λ m. ok (some (login m)))
      else if id == 129
      then ok (some logout)
      else if id == 130
      then (make Login.time_sync_request body >>= λ m. ok (some (time_sync_request m)))
      else if id == 140
      then (make Requests.request_heights body >>= λ m. ok (some (request_heights m)))
      else if id == 139
      then (make Requests.request_surfaces body >>= λ m. ok (some (request_surfaces m)))
      else if id == 163
      then (make Actions.look_at body >>= λ m. ok (some (look_at m)))
      else if id == 164
      then (make Actions.motion body >>= λ m. ok (some (motion m)))
      else if id == 160
      then (make Actions.button_press body >>= λ m. ok (some (button_press m)))
      else if id == 161
      then (make Actions.button_release body >>= λ m. ok (some (button_release m)))
      else if id == 131
      then (make Login.console body >>= λ m. ok (some (console m)))
      else ok none
