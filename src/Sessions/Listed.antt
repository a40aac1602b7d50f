-- ===== src/Sessions/Listed.antt =====
-- An entity system for the logins of hexa/server/network.cpp: the list of the entities with their
-- uids.
use hexahedra.Base.{
  ℕ, suc, ◌+◌, ◌<◌, ◌≡◌, ◌≢◌, refl, sym, inl, inr, List, [], ◌∷◌, false, ◌==◌, if◌then◌else◌,
  Bool-cases, arith,
}
use hexahedra.Sessions.Identity.{EntitySystem, EntityLaws, Has}

abbrev largest : List (ℕ × ℕ) → ℕ
largest [] = 0
largest (p ∷ ps) = p.0 + largest ps

abbrev without : ℕ → List (ℕ × ℕ) → List (ℕ × ℕ)
without e [] = []
without e (p ∷ ps) = let rest = without e ps in if p.0 == e then rest else p ∷ rest

instance abbrev pub listed : EntitySystem (List (ℕ × ℕ))
listed = record {
  player_uids = λ es. es;
  new_entity = λ es. (suc (largest es), es);
  set_uid = λ e uid es. (e, uid) ∷ without e es;
}

largest-Has : (e uid : ℕ) (ps : List (ℕ × ℕ)) → Has e uid ps → e < suc (largest ps)
largest-Has e uid [] has = elim has [ ]
largest-Has e uid (p ∷ ps) (inl (here, same)) = omega arith
largest-Has e uid (p ∷ ps) (inr has) = let later = largest-Has e uid ps has in omega arith

without_keeps :
    (e e' uid : ℕ) (ps : List (ℕ × ℕ)) → e' ≢ e → Has e' uid ps → Has e' uid (without e ps)
without_keeps e e' uid [] other has = elim has [ ]
without_keeps e e' uid (p ∷ ps) other (inl (here, same)) =
    let differs : (p.0 == e) ≡ false = ground arith in rw differs (inl (here, same))
without_keeps e e' uid (p ∷ ps) other (inr has) =
    let later = without_keeps e e' uid ps other has in
    elim (Bool-cases (p.0 == e)) [ inl h ↦ rw h later | inr h ↦ rw h (inr later) ]

without_cases :
    (e e' uid : ℕ) (ps : List (ℕ × ℕ)) → Has e' uid (without e ps) → (e' ≢ e) × Has e' uid ps
without_cases e e' uid [] = λ has. elim has [ ]
without_cases e e' uid (p ∷ ps) = elim (Bool-cases (p.0 == e)) [
  | inl h ↦ rw h (λ has. let (away, old) = without_cases e e' uid ps has in (away, inr old))
  | inr h ↦ rw h (λ has. elim has [
    | inl (here, same) ↦ (ground arith, inl (here, same))
    | inr later ↦ let (away, old) = without_cases e e' uid ps later in (away, inr old)
  ])
]

pub listed-EntityLaws : EntityLaws listed
listed-EntityLaws = record {
  new_entity_uids = λ es. refl;
  new_entity_unused = λ es e uid has. let small = largest-Has e uid es has in omega arith;
  set_uid_self = λ e uid es. inl (refl, refl);
  set_uid_keeps = λ e uid e' uid' es other has. inr (without_keeps e e' uid' es other has);
  set_uid_cases = λ e uid e' uid' es has. elim has [
    | inl (here, same) ↦ inl (sym here, sym same)
    | inr later ↦ inr (without_cases e e' uid' es later)
  ];
}
