-- ===== src/Sessions/Tests.antt =====
-- The sessions of hexa/server/network.cpp on concrete packets.
use hexahedra.Sessions.Listed.{listed, listed-EntityLaws}
use hexahedra.Base.{
  ℕ, ◌∙◌, ◌↔◌, ◌≡◌, ◌≢◌, refl, sym, inl, inr, List, [], ◌∷◌, none, some, false, arith,
}
use hexahedra.Wire.Endian.{little_endian, load}
use hexahedra.Wire.Defs.{ok}
use hexahedra.Wire.Sequences.{Text}
use hexahedra.Base58.{done}
use hexahedra.Sessions.Client.{PlayerInfo, generate_new_uid, login_tree, client_login, Carries}
use hexahedra.Sessions.{
  Sessions, Server, Event, connected, received, disconnected, welcomed, kicked, register,
  on_disconnect, on_login, handle_packet, run,
}
use hexahedra.Sessions.Client.{handle_packet-client_login}
use hexahedra.Sessions.Admission.{Presents, on_login-same_player}
use hexahedra.Sessions.Players.{UidsAreUnique}
use hexahedra.Sessions.Growth.{run-UidsAreUnique}
use hexahedra.Sessions.Pairing.{IsPaired, register-IsPaired_iff, on_disconnect-IsPaired}
use hexahedra.Sessions.Traces.{IsFree, run-IsPaired}
use hexahedra.Sessions.Refusals.{IsGone, on_login-IsGone}
use hexahedra.Protocol.Login.{Login}
use hexahedra.Protocol.Client.{login, packet}
use hexahedra.Base.Table.{put, erase_key}
use hexahedra.Base58.{base58_decode}
use mathlib.Core.Path.{subst}
use native.Mathlib.Decide.{ℕ_discrete}
use hexahedra.Sessions.Identity.{Has, Ptree, not_in_multiplayer_mode, singleplayer, uid_key}

abbrev uid : List ℕ
uid = 0 ∷ 7 ∷ 255 ∷ 1 ∷ 2 ∷ 3 ∷ 4 ∷ 5 ∷ []

abbrev info : PlayerInfo
info = record { name = 65 ∷ []; uid = []; public_key = 9 ∷ 9 ∷ [] }

-- The uid in text form.
abbrev encoded : Text
encoded = 49 ∷ 74 ∷ 97 ∷ 77 ∷ 67 ∷ 71 ∷ 51 ∷ 102 ∷ 65 ∷ 52 ∷ []

-- Credentials are their uid alone, and the reader adds the rest.
abbrev write_uid : Ptree → Text
write_uid tree = elim (tree uid_key) [ none ↦ [] | some text ↦ text ]

abbrev server : Server
server = record {
  mode = 109 ∷ 112 ∷ [];
  read_json = λ text. some (login_tree false (record info { uid = text }));
}

abbrev none_yet : Sessions (List (ℕ × ℕ))
none_yet = record {
  clock_offset = λ c. none;
  entities = λ c. none;
  connections = λ e. none;
  es = (4, 11) ∷ [];
}

generated : generate_new_uid uid info ≡ done (record info { uid = encoded })
unfolding generate_new_uid
generated = refl

carried :
    (made : PlayerInfo) → generate_new_uid uid info ≡ done made → Carries server write_uid made
unfolding login_tree
carried made new =
    let same : record info { uid = encoded } ≡ made = cc (sym generated ∙ new) in
    subst (Carries server write_uid) same (refl, omega arith)

several : server.mode ≢ singleplayer
several h = cc

handle_packet-client_login_example :
    (made : PlayerInfo) × (b : List ℕ) × (e : ℕ) × (generate_new_uid uid info ≡ done made)
    × (packet ⦃host = little_endian⦄ (login (client_login write_uid false made)) ≡ ok b)
    × ((handle_packet ⦃host = little_endian⦄ server 1 b none_yet).1 ≡ welcomed e)
    × Has e
        (load ⦃host = little_endian⦄ uid)
        (listed.player_uids (handle_packet ⦃host = little_endian⦄ server 1 b none_yet).0.es)
handle_packet-client_login_example =
    handle_packet-client_login server write_uid ⦃host = little_endian⦄ listed-EntityLaws several 1
      uid info none_yet (omega arith) refl carried

abbrev credentials : Login
credentials = record { protocol_version = 1; credentials = encoded }

presented : Presents server credentials uid
unfolding login_tree base58_decode
presented = record {
  tree = login_tree false (record info { uid = encoded });
  text = encoded;
  key = 9 ∷ 9 ∷ [];
  readable = refl;
  by_key = refl;
  with_uid = refl;
  with_key = refl;
  decodes = refl;
  eight = refl;
  bytes = omega arith;
}

abbrev events : List Event
events = connected 3 500 ∷ received 3 (128 ∷ 1 ∷ 0 ∷ 10 ∷ encoded) ∷ disconnected 1 ∷ []

only : (e u : ℕ) → Has e u ((4, 11) ∷ []) → (4 ≡ e) × (11 ≡ u)
only e u (inl h) = h
only e u (inr h) = elim h [ ]

unambiguous : UidsAreUnique ((4, 11) ∷ [])
unambiguous = record {
  one_entity = λ e e' u h h'. sym (only e u h).0 ∙ (only e' u h').0;
  one_uid = λ e u u' h h'. sym (only e u h).1 ∙ (only e u' h').1;
}

on_login-same_player_example :
    (e : ℕ) × (e' : ℕ) × ((on_login ⦃host = little_endian⦄ server 1 credentials none_yet).1
      ≡ welcomed e)
    × ((on_login ⦃host = little_endian⦄ server 2 credentials (
          run ⦃host = little_endian⦄ server events
            (on_login ⦃host = little_endian⦄ server 1 credentials none_yet).0)).1
        ≡ welcomed e')
    × ((e ≡ e') ↔ (uid ≡ uid))
on_login-same_player_example =
    on_login-same_player ⦃host = little_endian⦄ server several listed-EntityLaws 1 2 credentials
      credentials uid uid none_yet events unambiguous presented presented

run-UidsAreUnique_example :
    UidsAreUnique (listed.player_uids (run ⦃host = little_endian⦄ server events none_yet).es)
    × ((e u : ℕ)
        → Has e u (listed.player_uids none_yet.es)
        → Has e u (listed.player_uids (run ⦃host = little_endian⦄ server events none_yet).es))
run-UidsAreUnique_example =
    run-UidsAreUnique ⦃host = little_endian⦄ listed-EntityLaws server events none_yet unambiguous

none_yet-IsPaired : IsPaired none_yet
none_yet-IsPaired c e = (λ h. absurd (cc), λ h. absurd (cc))

none_yet-IsFree : (c plr : ℕ) → IsFree c plr none_yet
none_yet-IsFree c plr = (λ e h. absurd (cc), λ d h. absurd (cc))

abbrev visit : List Event
visit = received 3 (128 ∷ 1 ∷ 0 ∷ 10 ∷ encoded) ∷ disconnected 3 ∷ []

run-IsPaired_example : IsPaired (run ⦃host = little_endian⦄ server visit none_yet)
run-IsPaired_example =
    run-IsPaired ⦃host = little_endian⦄ server visit none_yet
      (λ plr said. none_yet-IsFree 3 plr, tt) none_yet-IsPaired

-- One peer logs in as two players.
abbrev first_player : Sessions (List (ℕ × ℕ))
first_player = register 1 5 none_yet

register-IsPaired_iff_example : IsPaired (register 1 5 none_yet) ↔ (
    ((e : ℕ) → none_yet.entities 1 ≡ some e → e ≡ 5)
    × ((d : ℕ) → none_yet.connections 5 ≡ some d → d ≡ 1))
register-IsPaired_iff_example = register-IsPaired_iff 1 5 none_yet none_yet-IsPaired

first_player-IsPaired : IsPaired first_player
first_player-IsPaired = register-IsPaired_iff_example.1 (none_yet-IsFree 1 5)

on_disconnect-IsPaired_example :
    IsPaired (on_disconnect 1 first_player)
    × ((e : ℕ) → (on_disconnect 1 first_player).connections e ≢ some 1)
    × ((d e : ℕ)
        → d ≢ 1
        → first_player.connections e ≡ some d
        → (on_disconnect 1 first_player).connections e ≡ some d)
on_disconnect-IsPaired_example = on_disconnect-IsPaired 1 first_player first_player-IsPaired

-- After a second login as another player, the first player's connection outlives the peer.
stale_connection : (on_disconnect 1 (register 1 6 first_player)).connections 5 ≡ some 1
unfolding on_disconnect register put erase_key ℕ_discrete
stale_connection = refl

-- Two peers log in as one player: when the first goes, the second has no connection any more.
lost_connection :
    ((on_disconnect 1 (register 2 5 first_player)).connections 5 ≡ none)
    × ((on_disconnect 1 (register 2 5 first_player)).entities 2 ≡ some 5)
unfolding on_disconnect register put erase_key ℕ_discrete
lost_connection = (refl, refl)

abbrev alone : Server
alone = record server { mode = singleplayer }

kicked_alone :
    (on_login ⦃host = little_endian⦄ alone 1 credentials first_player).1
    ≡ kicked not_in_multiplayer_mode
unfolding on_login login_tree
kicked_alone = refl

on_login-IsGone_example :
    IsGone 1 first_player (on_login ⦃host = little_endian⦄ alone 1 credentials first_player).0
on_login-IsGone_example =
    on_login-IsGone ⦃host = little_endian⦄ alone 1 credentials first_player not_in_multiplayer_mode
      kicked_alone
