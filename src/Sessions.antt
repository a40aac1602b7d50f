-- ===== src/Sessions.antt =====
-- Who is connected and who plays whom: the sessions of hexa/server/network.cpp and its logins.
pub mod Identity
pub mod Outcomes
pub mod Players
pub mod Growth
pub mod Pairing
pub mod Traces
pub mod Admission
pub mod Client
pub mod Refusals
pub mod Listed
mod Tests
use hexahedra.Base.{ℕ, List, [], ◌∷◌, Option, none, some}
use hexahedra.Base.Table.{Table, put, erase_key}
use hexahedra.Wire.Defs.{ok, err}
use hexahedra.Wire.Endian.{ByteOrder}
use hexahedra.Wire.Sequences.{Text}
use hexahedra.Protocol.Login.{Login}
use hexahedra.Protocol.Client.{
  ClientMessage, login, time_sync_request, console, request_surfaces, request_heights, button_press,
  button_release, trigger, look_at, motion, logout, on_receive,
}
use hexahedra.Sessions.Identity.{
  EntitySystem, Ptree, KickReason, Identified, player, refused, assert_failed, identify,
}
use native.Mathlib.Decide.{ℕ_discrete}

-- The three maps of `network`, of which `clock_offset_` and `entities_` are from peers and
-- `connections_` is to peers, and the entity system. A peer is the address of its `ENetPeer`.
pub record Sessions (E : Type 0) : Type 0 where
  pub clock_offset : Table ℕ ℕ
  pub entities : Table ℕ ℕ
  pub connections : Table ℕ ℕ
  pub es : E

-- The mode in the settings, and the reader of JSON, which throws on text that is none.
pub record Server : Type 0 where
  pub mode : Text
  pub read_json : Text → Option Ptree

-- What a handler ends with.
pub data Report : Type 0 where
  welcomed : ℕ → Report
  kicked : KickReason → Report
  threw : Report
  aborted : Report
  handled : Report

-- What the network library reports: `poll` calls the handler of each.
pub data Event : Type 0 where
  connected : ℕ → ℕ → Event
  received : ℕ → List ℕ → Event
  disconnected : ℕ → Event

module _ {E : Type 0} where
  -- A peer is greeted, and its clock starts, unless it has a player already.
  unfoldable pub on_connect : ℕ → ℕ → Sessions E → Sessions E
  on_connect c now s = elim (s.entities c) [
    | some e ↦ s
    | none ↦ record s { clock_offset = put ℕ_discrete c now s.clock_offset }
  ]

  unfoldable pub on_disconnect : ℕ → Sessions E → Sessions E
  on_disconnect c s =
      let clocks = erase_key ℕ_discrete c s.clock_offset in
      elim (s.entities c) [
        | none ↦ record s { clock_offset = clocks }
        | some entity_id ↦ record {
          clock_offset = clocks;
          entities = erase_key ℕ_discrete c s.entities;
          connections = erase_key ℕ_discrete entity_id s.connections;
          es = s.es;
        }
      ]

  -- The peer is told why and cut off, and what it had here is given up.
  unfoldable pub kick_player : ℕ → Sessions E → Sessions E
  unfolding on_disconnect
  kick_player c s = on_disconnect c s

  -- `clock_offset_[c]` where it is read: a peer without an entry gets one.
  unfoldable pub touch_clock : ℕ → Sessions E → Sessions E
  touch_clock c s = elim (s.clock_offset c) [
    | some t ↦ s
    | none ↦ record s { clock_offset = put ℕ_discrete c 0 s.clock_offset }
  ]

  -- `entities_[info.conn] = info.plr; connections_[info.plr] = info.conn;`
  unfoldable pub register : ℕ → ℕ → Sessions E → Sessions E
  register c plr s = record s {
    entities = put ℕ_discrete c plr s.entities;
    connections = put ℕ_discrete plr c s.connections;
  }

  -- How a login ends: the player is entered and greeted, for which the clock of the peer is read,
  -- or the peer is kicked.
  unfoldable pub answer : ℕ → Sessions E → Identified E → Sessions E × Report
  unfolding kick_player touch_clock register
  answer c s (player plr es) = (touch_clock c (register c plr (record s { es = es })), welcomed plr)
  answer c s (refused why) = (kick_player c s, kicked why)
  answer c s assert_failed = (s, aborted)

  module _ ⦃system : EntitySystem E⦄ ⦃host : ByteOrder⦄ (server : Server) where
    -- The handler of `msg::login`. What it does behind the entry of the player is left out but for
    -- the clock that it reads: it sends messages and sets the name and the place of the player.
    unfoldable pub on_login : ℕ → Login → Sessions E → Sessions E × Report
    unfolding identify answer
    on_login c msg s = elim (server.read_json msg.credentials) [
      | none ↦ (s, threw)
      | some tree ↦ answer c s (identify server.mode tree s.es)
    ]

    -- The handlers of the other messages leave the sessions alone, but for the clock of the peer.
    unfoldable pub handle : ℕ → Option ClientMessage → Sessions E → Sessions E × Report
    unfolding on_login touch_clock
    handle c none s = (s, handled)
    handle c (some (login m)) s = on_login c m s
    handle c (some (time_sync_request m)) s = (touch_clock c s, handled)
    handle c (some (console m)) s = (s, handled)
    handle c (some (request_surfaces m)) s = (s, handled)
    handle c (some (request_heights m)) s = (s, handled)
    handle c (some (button_press m)) s = (s, handled)
    handle c (some (button_release m)) s = (s, handled)
    handle c (some (trigger m)) s = (s, handled)
    handle c (some (look_at m)) s = (s, handled)
    handle c (some (motion m)) s = (s, handled)
    handle c (some logout) s = (s, handled)

    -- A packet that cannot be read is logged and dropped.
    unfoldable pub handle_packet : ℕ → List ℕ → Sessions E → Sessions E × Report
    unfolding handle on_receive
    handle_packet c p s = elim (on_receive p) [ err fault ↦ (s, threw) | ok m ↦ handle c m s ]

    unfoldable pub step : Event → Sessions E → Sessions E
    unfolding on_connect handle_packet on_disconnect
    step (connected c now) s = on_connect c now s
    step (received c p) s = (handle_packet c p s).0
    step (disconnected c) s = on_disconnect c s

    unfoldable pub run : List Event → Sessions E → Sessions E
    unfolding step
    run [] s = s
    run (event ∷ later) s = run later (step event s)
