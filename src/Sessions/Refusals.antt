-- ===== src/Sessions/Refusals.antt =====
-- Logins that are refused by hexa/server/network.cpp.
use hexahedra.Base.{ℕ, ◌≡◌, ◌≢◌, refl, inl, inr, none, Option-cases}
use hexahedra.Base.Table.{erase_key_self, erase_key_ne}
use hexahedra.Wire.Endian.{ByteOrder}
use hexahedra.Protocol.Login.{Login}
use hexahedra.Sessions.Identity.{
  EntitySystem, KickReason, Identified, player, refused, assert_failed, identify,
}
use hexahedra.Sessions.{Sessions, Server, kicked, on_disconnect, kick_player, answer, on_login}
use native.Mathlib.Decide.{ℕ_discrete}

-- Nothing is left of a peer, and the entity system and what other peers play are what they were.
pub record IsGone {E : Type 0} (c : ℕ) (s s' : Sessions E) : Type 0 where
  pub no_player : s'.entities c ≡ none
  pub no_clock : s'.clock_offset c ≡ none
  pub same_es : s'.es ≡ s.es
  pub others : (d : ℕ) → d ≢ c → s'.entities d ≡ s.entities d

module _ {E : Type 0} where
  on_disconnect-IsGone : (c : ℕ) (s : Sessions E) → IsGone c s (on_disconnect c s)
  unfolding on_disconnect
  on_disconnect-IsGone c s = elim (Option-cases (s.entities c)) [
    | inl h ↦
        rw (on_disconnect, h)
          (record {
            no_player = h;
            no_clock = erase_key_self ℕ_discrete c s.clock_offset;
            same_es = refl;
            others = λ d other. refl;
          })
    | inr (e, h) ↦
        rw (on_disconnect, h)
          (record {
            no_player = erase_key_self ℕ_discrete c s.entities;
            no_clock = erase_key_self ℕ_discrete c s.clock_offset;
            same_es = refl;
            others = λ d other. erase_key_ne ℕ_discrete c d s.entities other;
          })
  ]

  answer-IsGone :
      (c : ℕ) (s : Sessions E) (i : Identified E) (why : KickReason)
      → (answer c s i).1 ≡ kicked why
      → IsGone c s (answer c s i).0
  unfolding answer kick_player
  answer-IsGone c s (player plr es) why said = absurd (cc)
  answer-IsGone c s (refused reason) why said = on_disconnect-IsGone c s
  answer-IsGone c s assert_failed why said = absurd (cc)

  module _ ⦃system : EntitySystem E⦄ ⦃host : ByteOrder⦄ (server : Server) where
    -- A peer that is kicked for its login has no player and no clock any more, even if it had a
    -- player before; the entity system is as it was, and so are the players of the other peers.
    pub on_login-IsGone :
        (c : ℕ) (m : Login) (s : Sessions E) (why : KickReason)
        → (on_login server c m s).1 ≡ kicked why
        → IsGone c s (on_login server c m s).0
    unfolding on_login
    on_login-IsGone c m s why = elim (Option-cases (server.read_json m.credentials)) [
      | inl h ↦ rw (on_login, h) (λ said. absurd (cc))
      | inr (tree, h) ↦ rw (on_login, h) (answer-IsGone c s (identify server.mode tree s.es) why)
    ]
