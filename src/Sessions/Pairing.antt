-- ===== src/Sessions/Pairing.antt =====
-- Whether `entities_` and `connections_` of hexa/server/network.cpp say the same.
use hexahedra.Base.{ℕ, ◌≡◌, ◌≢◌, ◌↔◌, sym, ◌∙◌, inl, inr, some, Option-cases}
use hexahedra.Base.Table.{erase_key, put_self, put_ne, put_cases, erase_key_cases, erase_key_ne}
use hexahedra.Sessions.{Sessions, on_disconnect, register}
use native.Mathlib.Decide.{ℕ_discrete}

module _ {E : Type 0} where
  -- A peer has a player exactly when the connection of that player is the peer.
  abbrev pub IsPaired : Sessions E → Type 0
  IsPaired s = (c e : ℕ) → (s.entities c ≡ some e) ↔ (s.connections e ≡ some c)

  module _ (c plr : ℕ) (s : Sessions E) (before : IsPaired s) where
    -- Entering a player for a peer keeps the maps paired when neither has another partner.
    register-IsPaired :
        ((e : ℕ) → s.entities c ≡ some e → e ≡ plr)
        → ((d : ℕ) → s.connections plr ≡ some d → d ≡ c)
        → IsPaired (register c plr s)
    unfolding register
    register-IsPaired peer_free player_free d e = (
      λ h. elim (put_cases ℕ_discrete c d plr e s.entities h) [
        | inl (here, same) ↦ rw (here, same) (put_self ℕ_discrete plr c s.connections)
        | inr (away, old) ↦
            let connected = (before d e).0 old in
            let other : e ≢ plr = λ same. away (player_free d (rw (sym same) connected)) in
            put_ne ℕ_discrete plr e c s.connections other ∙ connected
      ],
      λ h. elim (put_cases ℕ_discrete plr e c d s.connections h) [
        | inl (here, same) ↦ rw (here, same) (put_self ℕ_discrete c plr s.entities)
        | inr (away, old) ↦
            let has = (before d e).1 old in
            let other : d ≢ c = λ same. away (peer_free e (rw (sym same) has)) in
            put_ne ℕ_discrete c d plr s.entities other ∙ has
      ],
    )

    -- When the maps are paired, entering a player for a peer leaves them paired exactly when the
    -- peer had no other player and the player no other connection.
    pub register-IsPaired_iff : IsPaired (register c plr s) ↔ (
        ((e : ℕ) → s.entities c ≡ some e → e ≡ plr)
        × ((d : ℕ) → s.connections plr ≡ some d → d ≡ c))
    unfolding register
    register-IsPaired_iff = (
      λ after. (
        λ e old. elim (ℕ_discrete e plr) [
          | yes same ↦ same
          | no away ↦
              let kept = put_ne ℕ_discrete plr e c s.connections away ∙ (before c e).0 old in
              let now = (after c e).1 kept in
              let entered = put_self ℕ_discrete c plr s.entities in cc
        ],
        λ d old. elim (ℕ_discrete d c) [
          | yes same ↦ same
          | no away ↦
              let kept = put_ne ℕ_discrete c d plr s.entities away ∙ (before d plr).1 old in
              let now = (after d plr).0 kept in
              let entered = put_self ℕ_discrete plr c s.connections in cc
        ],
      ),
      λ free. register-IsPaired free.0 free.1,
    )

  -- What `on_disconnect` makes of the two maps where the peer has a player.
  abbrev parted : ℕ → ℕ → Sessions E → Sessions E
  parted c e s = record s {
    entities = erase_key ℕ_discrete c s.entities;
    connections = erase_key ℕ_discrete e s.connections;
  }

  -- Two players of one peer are one.
  same_player :
      (c e e' : ℕ) (s : Sessions E) → s.entities c ≡ some e → s.entities c ≡ some e' → e ≡ e'
  same_player c e e' s h h' = cc

  parted-IsPaired :
      (c e : ℕ) (s : Sessions E) → IsPaired s → s.entities c ≡ some e → IsPaired (parted c e s)
  parted-IsPaired c e s before had d f = (
    λ h.
        let (away, old) = erase_key_cases ℕ_discrete c d f s.entities h in
        let connected = (before d f).0 old in
        let other : f ≢ e =
          λ same. let mine : s.connections f ≡ some c = rw same ((before c e).0 had) in away (cc) in
        erase_key_ne ℕ_discrete e f s.connections other ∙ connected,
    λ h.
        let (away, old) = erase_key_cases ℕ_discrete e f d s.connections h in
        let has = (before d f).1 old in
        let other : d ≢ c = λ same. away (same_player c f e s (rw (sym same) has) had) in
        erase_key_ne ℕ_discrete c d s.entities other ∙ has,
  )

  -- When the maps of players and connections are paired before, a peer that goes leaves them
  -- paired, and no connection leads to it. The players of the other peers stay connected to them.
  pub on_disconnect-IsPaired :
      (c : ℕ) (s : Sessions E)
      → IsPaired s
      → IsPaired (on_disconnect c s)
        × ((e : ℕ) → (on_disconnect c s).connections e ≢ some c)
        × ((d e : ℕ)
            → d ≢ c
            → s.connections e ≡ some d
            → (on_disconnect c s).connections e ≡ some d)
  unfolding on_disconnect
  on_disconnect-IsPaired c s before = elim (Option-cases (s.entities c)) [
    | inl h ↦
        rw (on_disconnect, h)
          (before, λ e back. let mine = (before c e).1 back in cc, λ d e other old. old)
    | inr (e, h) ↦
        rw (on_disconnect, h)
          (
            parted-IsPaired c e s before h,
            λ f back.
                let (away, old) = erase_key_cases ℕ_discrete e f c s.connections back in
                away (same_player c f e s ((before c f).1 old) h),
            λ d f other old.
                let away : f ≢ e = λ same.
                  other (let mine : s.connections f ≡ some c = rw same ((before c e).0 h) in cc) in
                erase_key_ne ℕ_discrete e f s.connections away ∙ old,
          )
  ]
