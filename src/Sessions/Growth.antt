-- ===== src/Sessions/Growth.antt =====
-- What every event leaves of the uids: `poll` and the handlers of hexa/server/network.cpp.
use hexahedra.Base.{ℕ, ◌≡◌, refl, inl, inr, List, [], ◌∷◌, Option, none, some, Option-cases}
use hexahedra.Wire.Defs.{ok, err}
use hexahedra.Wire.Endian.{ByteOrder}
use hexahedra.Protocol.Login.{Login}
use hexahedra.Protocol.Client.{
  ClientMessage, login, time_sync_request, console, request_surfaces, request_heights, button_press,
  button_release, trigger, look_at, motion, logout, on_receive,
}
use hexahedra.Sessions.Identity.{EntitySystem, EntityLaws, Has, player, find_or_add}
use hexahedra.Sessions.Outcomes.{identify-cases}
use hexahedra.Sessions.Players.{UidsAreUnique, find_or_add-Found}
use hexahedra.Sessions.{
  Sessions, Server, Event, connected, received, disconnected, on_connect, on_disconnect,
  kick_player, touch_clock, register, answer, on_login, handle, handle_packet, step, run, Report,
  threw,
}

-- Entities keep their uids, and uids that are unique stay so.
pub record Grown {E : Type 0} (system : EntitySystem E) (es es' : E) : Type 0 where
  pub keeps : (e uid : ℕ) → Has e uid (system.player_uids es) → Has e uid (system.player_uids es')
  pub unique : UidsAreUnique (system.player_uids es) → UidsAreUnique (system.player_uids es')

module _ {E : Type 0} ⦃system : EntitySystem E⦄ where
  Grown-refl : (es : E) → Grown system es es
  Grown-refl es = record { keeps = λ e uid h. h; unique = λ h. h }

  Grown-trans : (a b c : E) → Grown system a b → Grown system b c → Grown system a c
  Grown-trans a b c f g = record {
    keeps = λ e uid h. g.keeps e uid (f.keeps e uid h);
    unique = λ h. g.unique (f.unique h);
  }

  pub Grown-eq : (es es' : E) → es' ≡ es → Grown system es es'
  Grown-eq es es' same = rw same (Grown-refl es)

  find_or_add-Grown :
      EntityLaws system → (uid : ℕ) (es : E) → Grown system es (find_or_add uid es).1
  find_or_add-Grown laws uid es =
      let found = find_or_add-Found laws uid es in
      record { keeps = found.keeps; unique = found.unique }

  pub touch_clock-es : (c : ℕ) (s : Sessions E) → (touch_clock c s).es ≡ s.es
  unfolding touch_clock
  touch_clock-es c s = elim (Option-cases (s.clock_offset c)) [
    | inl h ↦ rw (touch_clock, h) refl
    | inr (t, h) ↦ rw (touch_clock, h) refl
  ]

  pub on_disconnect-es : (c : ℕ) (s : Sessions E) → (on_disconnect c s).es ≡ s.es
  unfolding on_disconnect
  on_disconnect-es c s = elim (Option-cases (s.entities c)) [
    | inl h ↦ rw (on_disconnect, h) refl
    | inr (e, h) ↦ rw (on_disconnect, h) refl
  ]

  on_connect-es : (c now : ℕ) (s : Sessions E) → (on_connect c now s).es ≡ s.es
  unfolding on_connect
  on_connect-es c now s = elim (Option-cases (s.entities c)) [
    | inl h ↦ rw (on_connect, h) refl
    | inr (e, h) ↦ rw (on_connect, h) refl
  ]

  module _ ⦃host : ByteOrder⦄ (laws : EntityLaws system) (server : Server) where
    pub on_login-Grown :
        (c : ℕ) (m : Login) (s : Sessions E) → Grown system s.es (on_login server c m s).0.es
    unfolding on_login answer kick_player
    on_login-Grown c m s = elim (Option-cases (server.read_json m.credentials)) [
      | inl h ↦ rw (on_login, h) (Grown-refl s.es)
      | inr (tree, h) ↦
          let entered : (plr : ℕ) (es : E)
              → Grown system s.es es
              → Grown system s.es (answer c s (player plr es)).0.es =
            λ plr es g.
              Grown-trans _ _ _ g
                (Grown-eq _ _ (touch_clock-es c (register c plr (record s { es = es })))) in
          rw (on_login, h)
            (identify-cases (λ i. Grown system s.es (answer c s i).0.es) s.es
              (λ uid. entered _ _ (find_or_add-Grown laws uid s.es))
              (λ why. Grown-eq _ _ (on_disconnect-es c s)) (Grown-refl s.es) server.mode tree
              (entered 0 s.es (Grown-refl s.es)))
    ]

    handle-Grown :
        (c : ℕ) (m : Option ClientMessage) (s : Sessions E)
        → Grown system s.es (handle server c m s).0.es
    unfolding handle
    handle-Grown c none s = Grown-refl s.es
    handle-Grown c (some (login m)) s = on_login-Grown c m s
    handle-Grown c (some (time_sync_request m)) s = Grown-eq _ _ (touch_clock-es c s)
    handle-Grown c (some (console m)) s = Grown-refl s.es
    handle-Grown c (some (request_surfaces m)) s = Grown-refl s.es
    handle-Grown c (some (request_heights m)) s = Grown-refl s.es
    handle-Grown c (some (button_press m)) s = Grown-refl s.es
    handle-Grown c (some (button_release m)) s = Grown-refl s.es
    handle-Grown c (some (trigger m)) s = Grown-refl s.es
    handle-Grown c (some (look_at m)) s = Grown-refl s.es
    handle-Grown c (some (motion m)) s = Grown-refl s.es
    handle-Grown c (some logout) s = Grown-refl s.es

    handle_packet-Grown :
        (c : ℕ) (p : List ℕ) (s : Sessions E) → Grown system s.es (handle_packet server c p s).0.es
    unfolding handle_packet
    handle_packet-Grown c p s =
        elim (on_receive p)
          as (λ o.
            Grown system s.es
              (elim o as (λ x. Sessions E × Report) [
                | err fault ↦ (s, threw)
                | ok m ↦ handle server c m s
              ]).0.es) [ err fault ↦ Grown-refl s.es | ok m ↦ handle-Grown c m s ]

    step-Grown : (event : Event) (s : Sessions E) → Grown system s.es (step server event s).es
    unfolding step
    step-Grown (connected c now) s = Grown-eq _ _ (on_connect-es c now s)
    step-Grown (received c p) s = handle_packet-Grown c p s
    step-Grown (disconnected c) s = Grown-eq _ _ (on_disconnect-es c s)

    pub run-Grown :
        (events : List Event) (s : Sessions E) → Grown system s.es (run server events s).es
    unfolding run
    run-Grown [] s = Grown-refl s.es
    run-Grown (event ∷ later) s =
        Grown-trans _ _ _ (step-Grown event s) (run-Grown later (step server event s))

    -- Whatever happens, with any peers and any packets, uids that belong to one entity each, one
    -- for each entity, do so afterwards, and every entity keeps the uid it had.
    pub run-UidsAreUnique :
        (events : List Event) (s : Sessions E)
        → UidsAreUnique (system.player_uids s.es)
        → UidsAreUnique (system.player_uids (run server events s).es)
          × ((e uid : ℕ)
              → Has e uid (system.player_uids s.es)
              → Has e uid (system.player_uids (run server events s).es))
    run-UidsAreUnique events s before =
        let grown = run-Grown events s in (grown.unique before, grown.keeps)
