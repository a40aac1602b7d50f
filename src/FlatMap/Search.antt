-- ===== src/FlatMap/Search.antt =====
-- hexa/flat_map.hpp without iterators: what its operations do from the front of the vector on.
use hexahedra.Base.{
  ℕ, zero, suc, ◌<◌, ◌≡◌, refl, ap, ◌∙◌, inl, inr, [], ◌∷◌, Option, none, some, true, false, ltb,
  ◌==◌, if◌then◌else◌, Bool-cases, length, arith,
}
use hexahedra.FlatMap.{
  FlatMap, entry_at, lower_bound, is_absent, insert_at, erase_at, insert, find, value_of, erase,
}

module _ {V : Type 0} where
  abbrev pub search : ℕ → FlatMap V → Option V
  search k [] = none
  search k (p ∷ m) =
      let later = search k m in if ltb p.0 k then later else if ltb k p.0 then none else some p.1

  abbrev pub place : ℕ × V → FlatMap V → FlatMap V
  place q [] = q ∷ []
  place q (p ∷ m) =
      let later = place q m in
      if ltb p.0 q.0 then p ∷ later else if ltb q.0 p.0 then q ∷ p ∷ m else p ∷ m

  abbrev pub drop : ℕ → FlatMap V → FlatMap V
  drop k [] = []
  drop k (p ∷ m) =
      let later = drop k m in if ltb p.0 k then p ∷ later else if ltb k p.0 then p ∷ m else m

  entry_at-length : (m : FlatMap V) → entry_at (length m) m ≡ none
  unfolding entry_at
  entry_at-length [] = refl
  entry_at-length (p ∷ m) = entry_at-length m

  entry_at_lt : (i : ℕ) (m : FlatMap V) (p : ℕ × V) → entry_at i m ≡ some p → i < length m
  unfolding entry_at
  entry_at_lt i [] p h = absurd (cc)
  entry_at_lt zero (q ∷ m) p h = omega arith
  entry_at_lt (suc i) (q ∷ m) p h = let later = entry_at_lt i m p h in omega arith

  -- The three ways in which a search goes on from an entry.
  module _ (k : ℕ) (p : ℕ × V) (m : FlatMap V) where
    lower_bound-less : ltb p.0 k ≡ true → lower_bound k (p ∷ m) ≡ suc (lower_bound k m)
    unfolding lower_bound
    lower_bound-less less = rw (lower_bound, less) refl

    lower_bound-here : ltb p.0 k ≡ false → lower_bound k (p ∷ m) ≡ 0
    unfolding lower_bound
    lower_bound-here more = rw (lower_bound, more) refl

    find-less : ltb p.0 k ≡ true → find k (p ∷ m) ≡ suc (find k m)
    unfolding find is_absent entry_at
    find-less less = elim (Bool-cases (is_absent k (lower_bound k m) m)) [
      | inl gone ↦ rw (find, lower_bound-less less) (rw gone refl)
      | inr here ↦ rw (find, lower_bound-less less) (rw here refl)
    ]

    find-gone : ltb p.0 k ≡ false → ltb k p.0 ≡ true → find k (p ∷ m) ≡ suc (length m)
    unfolding find is_absent entry_at
    find-gone more gone = rw (find, lower_bound-here more) (rw gone refl)

    find-here : ltb p.0 k ≡ false → ltb k p.0 ≡ false → find k (p ∷ m) ≡ 0
    unfolding find is_absent entry_at
    find-here more here = rw (find, lower_bound-here more) (rw here refl)

  pub value_of-search : (k : ℕ) (m : FlatMap V) → value_of k m ≡ search k m
  unfolding value_of entry_at find lower_bound is_absent
  value_of-search k [] = refl
  value_of-search k (p ∷ m) = elim (Bool-cases (ltb p.0 k)) [
    | inl less ↦ rw (value_of, find-less k p m less) (rw less (value_of-search k m))
    | inr more ↦ elim (Bool-cases (ltb k p.0)) [
      | inl gone ↦
          rw (value_of, find-gone k p m more gone) (rw more (rw gone (rw (entry_at-length m) refl)))
      | inr here ↦ rw (value_of, find-here k p m more here) (rw more (rw here refl))
    ]
  ]

  inserted :
      (q : ℕ × V) (m : FlatMap V)
      → is_absent q.0 (lower_bound q.0 m) m ≡ true
      → insert_at (lower_bound q.0 m) q m ≡ (insert q m).0
  unfolding insert
  inserted q m gone = rw (insert, gone) refl

  kept :
      (q : ℕ × V) (m : FlatMap V) → is_absent q.0 (lower_bound q.0 m) m ≡ false → m ≡ (insert q m).0
  unfolding insert
  kept q m here = rw (insert, here) refl

  pub insert-place : (q : ℕ × V) (m : FlatMap V) → (insert q m).0 ≡ place q m
  unfolding insert is_absent entry_at insert_at lower_bound
  insert-place q [] = refl
  insert-place q (p ∷ m) = elim (Bool-cases (ltb p.0 q.0)) [
    | inl less ↦ elim (Bool-cases (is_absent q.0 (lower_bound q.0 m) m)) [
      | inl gone ↦
          rw (insert, lower_bound-less q.0 p m less)
            (rw gone (rw less (ap (◌∷◌ p) (inserted q m gone ∙ insert-place q m))))
      | inr here ↦
          rw (insert, lower_bound-less q.0 p m less)
            (rw here (rw less (ap (◌∷◌ p) (kept q m here ∙ insert-place q m))))
    ]
    | inr more ↦ elim (Bool-cases (ltb q.0 p.0)) [
      | inl gone ↦ rw (insert, lower_bound-here q.0 p m more) (rw gone (rw more refl))
      | inr here ↦ rw (insert, lower_bound-here q.0 p m more) (rw here (rw more refl))
    ]
  ]

  unerased : (k : ℕ) (m : FlatMap V) → (find k m == length m) ≡ true → m ≡ (erase k m).0
  unfolding erase
  unerased k m gone = rw (erase, gone) refl

  erased :
      (k : ℕ) (m : FlatMap V)
      → (find k m == length m) ≡ false
      → erase_at (find k m) m ≡ (erase k m).0
  unfolding erase
  erased k m here = rw (erase, here) refl

  pub erase-drop : (k : ℕ) (m : FlatMap V) → (erase k m).0 ≡ drop k m
  unfolding erase erase_at
  erase-drop k [] = refl
  erase-drop k (p ∷ m) = elim (Bool-cases (ltb p.0 k)) [
    | inl less ↦ elim (Bool-cases (find k m == length m)) [
      | inl gone ↦
          let end : (suc (find k m) == suc (length m)) ≡ true = ground arith in
          rw (erase, find-less k p m less)
            (rw end (rw less (ap (◌∷◌ p) (unerased k m gone ∙ erase-drop k m))))
      | inr here ↦
          let end : (suc (find k m) == suc (length m)) ≡ false = ground arith in
          rw (erase, find-less k p m less)
            (rw end (rw less (ap (◌∷◌ p) (erased k m here ∙ erase-drop k m))))
    ]
    | inr more ↦ elim (Bool-cases (ltb k p.0)) [
      | inl gone ↦
          let end : (suc (length m) == suc (length m)) ≡ true = ground arith in
          rw (erase, find-gone k p m more gone) (rw end (rw more (rw gone refl)))
      | inr here ↦
          let end : (0 == suc (length m)) ≡ false = ground arith in
          rw (erase, find-here k p m more here) (rw end (rw more (rw here refl)))
    ]
  ]
