-- ===== src/Sessions/Players.antt =====
-- Uids and the entities of players, through the logins of hexa/server/network.cpp.
use hexahedra.Base.{
  ℕ, ◌≡◌, ◌≢◌, sym, ap, ◌∙◌, ◌⊎◌, inl, inr, List, [], ◌∷◌, none, some, Option-cases, arith,
}
use hexahedra.Sessions.Identity.{EntitySystem, EntityLaws, Has, last_with, find_or_add}
use mathlib.Core.Path.{subst}

-- No uid belongs to two entities, and no entity has two uids.
pub record UidsAreUnique (ps : List (ℕ × ℕ)) : Type 0 where
  pub one_entity : (e e' uid : ℕ) → Has e uid ps → Has e' uid ps → e ≡ e'
  pub one_uid : (e uid uid' : ℕ) → Has e uid ps → Has e uid' ps → uid ≡ uid'

last_with-Has : (uid e : ℕ) (ps : List (ℕ × ℕ)) → last_with uid ps ≡ some e → Has e uid ps
unfolding last_with
last_with-Has uid e [] found = absurd (cc)
last_with-Has uid e (p ∷ ps) found = elim (Option-cases (last_with uid ps)) [
  | inr (e', h) ↦ inr (last_with-Has uid e ps (ground arith))
  | inl h ↦ inl (ground arith)
]

last_with-none : (uid e : ℕ) (ps : List (ℕ × ℕ)) → last_with uid ps ≡ none → Has e uid ps → ⊥
unfolding last_with
last_with-none uid e [] found has = has
last_with-none uid e (p ∷ ps) found (inr has) = last_with-none uid e ps (ground arith) has
last_with-none uid e (p ∷ ps) found (inl (here, same)) = (ground arith)

pub last_with-UidsAreUnique :
    (uid e : ℕ) (ps : List (ℕ × ℕ)) → UidsAreUnique ps → Has e uid ps → last_with uid ps ≡ some e
last_with-UidsAreUnique uid e ps unique has = elim (Option-cases (last_with uid ps)) [
  | inl h ↦ absurd (last_with-none uid e ps h has)
  | inr (e', h) ↦ h ∙ ap some (unique.one_entity e' e uid (last_with-Has uid e' ps h) has)
]

-- What a search for a uid, or a new entity with it, leads to.
pub record Found {E : Type 0} (system : EntitySystem E) (uid e : ℕ) (es es' : E) : Type 0 where
  pub has : Has e uid (system.player_uids es')
  pub keeps :
      (e' uid' : ℕ) → Has e' uid' (system.player_uids es) → Has e' uid' (system.player_uids es')
  pub unique : UidsAreUnique (system.player_uids es) → UidsAreUnique (system.player_uids es')

module _ {E : Type 0} ⦃system : EntitySystem E⦄ (laws : EntityLaws system) where
  -- A new entity with a uid that no entity had.
  add-Found :
      (uid : ℕ) (es : E)
      → ((e : ℕ) → Has e uid (system.player_uids es) → ⊥)
      → Found system uid
          (system.new_entity es).0
          es
          (system.set_uid (system.new_entity es).0 uid (system.new_entity es).1)
  add-Found uid es absent =
      let e = (system.new_entity es).0 in
      let es₁ = (system.new_entity es).1 in
      let uids : system.player_uids es₁ ≡ system.player_uids es = laws.new_entity_uids es in
      let cases : (e' uid' : ℕ)
          → Has e' uid' (system.player_uids (system.set_uid e uid es₁))
          → ((e' ≡ e) × (uid' ≡ uid)) ⊎ ((e' ≢ e) × Has e' uid' (system.player_uids es)) =
        λ e' uid' h. elim (laws.set_uid_cases e uid e' uid' es₁ h) [
          | inl same ↦ inl same
          | inr (away, old) ↦ inr (away, subst (λ ps. Has e' uid' ps) uids old)
        ] in
      record {
        has = laws.set_uid_self e uid es₁;
        keeps = λ e' uid' h.
            laws.set_uid_keeps e uid e' uid' es₁ (laws.new_entity_unused es e' uid' h)
              (subst (λ ps. Has e' uid' ps) (sym uids) h);
        unique = λ before. record {
          one_entity = λ a b u ha hb. elim (cases a u ha) [
            | inl (ea, ua) ↦ elim (cases b u hb) [
              | inl (eb, ub) ↦ ea ∙ sym eb
              | inr (away, old) ↦
                  absurd (absent b (subst (λ v. Has b v (system.player_uids es)) ua old))
            ]
            | inr (away, old) ↦ elim (cases b u hb) [
              | inl (eb, ub) ↦
                  absurd (absent a (subst (λ v. Has a v (system.player_uids es)) ub old))
              | inr (away', old') ↦ before.one_entity a b u old old'
            ]
          ];
          one_uid = λ a u v hu hv. elim (cases a u hu) [
            | inl (ea, ua) ↦ elim (cases a v hv) [
              | inl (eb, ub) ↦ ua ∙ sym ub
              | inr (away, old) ↦ absurd (away ea)
            ]
            | inr (away, old) ↦ elim (cases a v hv) [
              | inl (eb, ub) ↦ absurd (away eb)
              | inr (away', old') ↦ before.one_uid a u v old old'
            ]
          ];
        };
      }

  pub find_or_add-Found :
      (uid : ℕ) (es : E) → Found system uid (find_or_add uid es).0 es (find_or_add uid es).1
  unfolding find_or_add
  find_or_add-Found uid es = elim (Option-cases (last_with uid (system.player_uids es))) [
    | inl h ↦
        rw (find_or_add, h) (add-Found uid es (λ e. last_with-none uid e (system.player_uids es) h))
    | inr (e, h) ↦
        rw (find_or_add, h)
          (record {
            has = last_with-Has uid e (system.player_uids es) h;
            keeps = λ e' uid' old. old;
            unique = λ before. before;
          })
  ]
