-- ===== src/Sessions/Traces.antt =====
-- The maps of hexa/server/network.cpp over sequences of events.
use hexahedra.Base.{ℕ, ◌≡◌, ◌⊎◌, refl, List, [], ◌∷◌, Option, none, some, inl, inr, Option-cases}
use hexahedra.Wire.Defs.{Result, Fault, ok, err}
use hexahedra.Wire.Endian.{ByteOrder}
use hexahedra.Protocol.Login.{Login}
use hexahedra.Protocol.Client.{
  ClientMessage, login, time_sync_request, console, request_surfaces, request_heights, button_press,
  button_release, trigger, look_at, motion, logout, on_receive,
}
use hexahedra.Sessions.Identity.{EntitySystem, Identified, player, refused, assert_failed, identify}
use hexahedra.Sessions.Pairing.{IsPaired, register-IsPaired_iff, on_disconnect-IsPaired}
use hexahedra.Sessions.{
  Sessions, Server, Event, connected, received, disconnected, welcomed, on_connect, on_disconnect,
  kick_player, touch_clock, register, answer, on_login, handle, handle_packet, step, run,
}

Result-cases : {A : Type 0} (r : Result A) → ((f : Fault) × (r ≡ err f)) ⊎ ((a : A) × (r ≡ ok a))
Result-cases (err f) = inl (f, refl)
Result-cases (ok a) = inr (a, refl)

module _ {E : Type 0} where
  -- The peer has no other player, and the player no other connection.
  abbrev pub IsFree : ℕ → ℕ → Sessions E → Type 0
  IsFree c plr s =
      ((e : ℕ) → s.entities c ≡ some e → e ≡ plr) × ((d : ℕ) → s.connections plr ≡ some d → d ≡ c)

  touch_clock-IsPaired : (c : ℕ) (s : Sessions E) → IsPaired s → IsPaired (touch_clock c s)
  unfolding touch_clock
  touch_clock-IsPaired c s before = elim (Option-cases (s.clock_offset c)) [
    | inl h ↦ rw (touch_clock, h) before
    | inr (t, h) ↦ rw (touch_clock, h) before
  ]

  on_connect-IsPaired : (c now : ℕ) (s : Sessions E) → IsPaired s → IsPaired (on_connect c now s)
  unfolding on_connect
  on_connect-IsPaired c now s before = elim (Option-cases (s.entities c)) [
    | inl h ↦ rw (on_connect, h) before
    | inr (e, h) ↦ rw (on_connect, h) before
  ]

  answer-IsPaired :
      (c : ℕ) (s : Sessions E) (i : Identified E)
      → IsPaired s
      → ((plr : ℕ) → (answer c s i).1 ≡ welcomed plr → IsFree c plr s)
      → IsPaired (answer c s i).0
  unfolding answer kick_player
  answer-IsPaired c s (player plr es) before free =
      let entered = record s { es = es } in
      touch_clock-IsPaired c (register c plr entered)
        ((register-IsPaired_iff c plr entered before).1 (free plr refl))
  answer-IsPaired c s (refused why) before free = (on_disconnect-IsPaired c s before).0
  answer-IsPaired c s assert_failed before free = before

  module _ ⦃system : EntitySystem E⦄ ⦃host : ByteOrder⦄ (server : Server) where
    -- Each peer that is welcomed, is so as a player that is free for it.
    abbrev pub IsOrderly : List Event → Sessions E → Type 0
    IsOrderly [] s = Unit {0}
    IsOrderly (connected c now ∷ later) s = IsOrderly later (step server (connected c now) s)
    IsOrderly (disconnected c ∷ later) s = IsOrderly later (step server (disconnected c) s)
    IsOrderly (received c p ∷ later) s =
        ((plr : ℕ) → (handle_packet server c p s).1 ≡ welcomed plr → IsFree c plr s)
        × IsOrderly later (step server (received c p) s)

    on_login-IsPaired :
        (c : ℕ) (m : Login) (s : Sessions E)
        → IsPaired s
        → ((plr : ℕ) → (on_login server c m s).1 ≡ welcomed plr → IsFree c plr s)
        → IsPaired (on_login server c m s).0
    unfolding on_login
    on_login-IsPaired c m s before = elim (Option-cases (server.read_json m.credentials)) [
      | inl h ↦ rw (on_login, h) (λ free. before)
      | inr (tree, h) ↦
          rw (on_login, h) (answer-IsPaired c s (identify server.mode tree s.es) before)
    ]

    handle-IsPaired :
        (c : ℕ) (m : Option ClientMessage) (s : Sessions E)
        → IsPaired s
        → ((plr : ℕ) → (handle server c m s).1 ≡ welcomed plr → IsFree c plr s)
        → IsPaired (handle server c m s).0
    unfolding handle
    handle-IsPaired c none s before free = before
    handle-IsPaired c (some (login m)) s before free = on_login-IsPaired c m s before free
    handle-IsPaired c (some (time_sync_request m)) s before free = touch_clock-IsPaired c s before
    handle-IsPaired c (some (console m)) s before free = before
    handle-IsPaired c (some (request_surfaces m)) s before free = before
    handle-IsPaired c (some (request_heights m)) s before free = before
    handle-IsPaired c (some (button_press m)) s before free = before
    handle-IsPaired c (some (button_release m)) s before free = before
    handle-IsPaired c (some (trigger m)) s before free = before
    handle-IsPaired c (some (look_at m)) s before free = before
    handle-IsPaired c (some (motion m)) s before free = before
    handle-IsPaired c (some logout) s before free = before

    handle_packet-IsPaired :
        (c : ℕ) (p : List ℕ) (s : Sessions E)
        → IsPaired s
        → ((plr : ℕ) → (handle_packet server c p s).1 ≡ welcomed plr → IsFree c plr s)
        → IsPaired (handle_packet server c p s).0
    unfolding handle_packet
    handle_packet-IsPaired c p s before = elim (Result-cases (on_receive p)) [
      | inl (fault, h) ↦ rw (handle_packet, h) (λ free. before)
      | inr (m, h) ↦ rw (handle_packet, h) (handle-IsPaired c m s before)
    ]

    -- As long as each peer that is welcomed has no other player and its player no other connection,
    -- whatever else happens, the maps stay paired: a peer has a player exactly when the connection
    -- of that player is the peer.
    pub run-IsPaired :
        (events : List Event) (s : Sessions E)
        → IsOrderly events s
        → IsPaired s
        → IsPaired (run server events s)
    unfolding run step
    run-IsPaired [] s orderly before = before
    run-IsPaired (connected c now ∷ later) s orderly before =
        run-IsPaired later (on_connect c now s) orderly (on_connect-IsPaired c now s before)
    run-IsPaired (disconnected c ∷ later) s orderly before =
        run-IsPaired later (on_disconnect c s) orderly (on_disconnect-IsPaired c s before).0
    run-IsPaired (received c p ∷ later) s (free, orderly) before =
        run-IsPaired later (handle_packet server c p s).0 orderly
          (handle_packet-IsPaired c p s before free)
