-- ===== src/FlatMap/Refinement.antt =====
-- A sorted vector of hexa/flat_map.hpp as a map.
use hexahedra.Base.{
  ℕ, suc, ◌<◌, ◌≡◌, refl, inl, inr, [], ◌∷◌, Option, none, some, true, false, ltb, ◌==◌,
  if◌then◌else◌, Bool-cases, All, arith,
}
use hexahedra.FlatMap.{FlatMap, insert, value_of, erase}
use hexahedra.FlatMap.Search.{search, place, drop, value_of-search, insert-place, erase-drop}

module _ {V : Type 0} where
  -- Each key is less than all behind it.
  abbrev pub IsSorted : FlatMap V → Type 0
  IsSorted [] = Unit {0}
  IsSorted (p ∷ m) = All (λ (q : ℕ × V). p.0 < q.0) m × IsSorted m

  search-none :
      (k l : ℕ) (m : FlatMap V) → All (λ (q : ℕ × V). k < q.0) m → l < suc k → search l m ≡ none
  search-none k l [] above le = refl
  search-none k l (p ∷ m) (lt, above) le =
      let far : ltb p.0 l ≡ false = ground arith in
      let near : ltb l p.0 ≡ true = ground arith in rw far (rw near refl)

  place-All :
      (k : ℕ) (q : ℕ × V) (m : FlatMap V)
      → k < q.0
      → All (λ (p : ℕ × V). k < p.0) m
      → All (λ (p : ℕ × V). k < p.0) (place q m)
  place-All k q [] lt above = (lt, tt)
  place-All k q (p ∷ m) lt (first, above) = elim (Bool-cases (ltb p.0 q.0)) [
    | inl less ↦ rw less (first, place-All k q m lt above)
    | inr more ↦ elim (Bool-cases (ltb q.0 p.0)) [
      | inl gone ↦ rw more (rw gone (lt, (first, above)))
      | inr here ↦ rw more (rw here (first, above))
    ]
  ]

  All-lt :
      (a b : ℕ) (m : FlatMap V)
      → a < b
      → All (λ (p : ℕ × V). b < p.0) m
      → All (λ (p : ℕ × V). a < p.0) m
  All-lt a b [] lt above = tt
  All-lt a b (p ∷ m) lt (first, above) = (omega arith, All-lt a b m lt above)

  place-IsSorted : (q : ℕ × V) (m : FlatMap V) → IsSorted m → IsSorted (place q m)
  place-IsSorted q [] sorted = (tt, tt)
  place-IsSorted q (p ∷ m) (above, sorted) = elim (Bool-cases (ltb p.0 q.0)) [
    | inl less ↦
        let lt : p.0 < q.0 = ground arith in
        rw less (place-All p.0 q m lt above, place-IsSorted q m sorted)
    | inr more ↦ elim (Bool-cases (ltb q.0 p.0)) [
      | inl gone ↦
          let lt : q.0 < p.0 = ground arith in
          rw more (rw gone ((lt, All-lt q.0 p.0 m lt above), (above, sorted)))
      | inr here ↦ rw more (rw here (above, sorted))
    ]
  ]

  drop-All :
      (k l : ℕ) (m : FlatMap V)
      → All (λ (p : ℕ × V). k < p.0) m
      → All (λ (p : ℕ × V). k < p.0) (drop l m)
  drop-All k l [] above = tt
  drop-All k l (p ∷ m) (first, above) = elim (Bool-cases (ltb p.0 l)) [
    | inl less ↦ rw less (first, drop-All k l m above)
    | inr more ↦ elim (Bool-cases (ltb l p.0)) [
      | inl gone ↦ rw more (rw gone (first, above))
      | inr here ↦ rw more (rw here above)
    ]
  ]

  drop-IsSorted : (k : ℕ) (m : FlatMap V) → IsSorted m → IsSorted (drop k m)
  drop-IsSorted k [] sorted = tt
  drop-IsSorted k (p ∷ m) (above, sorted) = elim (Bool-cases (ltb p.0 k)) [
    | inl less ↦ rw less (drop-All p.0 k m above, drop-IsSorted k m sorted)
    | inr more ↦ elim (Bool-cases (ltb k p.0)) [
      | inl gone ↦ rw more (rw gone (above, sorted))
      | inr here ↦ rw more (rw here sorted)
    ]
  ]

  -- The value that an insertion leaves at its key: the old one where there is one.
  abbrev pub first_of : Option V → V → V
  first_of none v = v
  first_of (some old) v = old

  search-place :
      (l : ℕ) (q : ℕ × V) (m : FlatMap V)
      → search l (place q m) ≡ (if l == q.0 then some (first_of (search l m) q.1) else search l m)
  search-place l q [] = ground arith
  search-place l q (p ∷ m) = let later = search-place l q m in ground arith

  search-drop :
      (l k : ℕ) (m : FlatMap V)
      → IsSorted m
      → search l (drop k m) ≡ (if l == k then none else search l m)
  search-drop l k [] sorted = ground arith
  search-drop l k (p ∷ m) (above, sorted) =
      let later = search-drop l k m sorted in
      let none_left : l < suc p.0 → search l m ≡ none = search-none p.0 l m above in ground arith

  -- An insertion into a sorted vector leaves a sorted one, in which each key has the value that it
  -- had; the key of the insertion keeps an old value, and gets the new one only where it had none.
  pub insert-value_of :
      (q : ℕ × V) (m : FlatMap V)
      → IsSorted m
      → IsSorted (insert q m).0
        × ((l : ℕ)
            → value_of l (insert q m).0
              ≡ (if l == q.0 then some (first_of (value_of l m) q.1) else value_of l m))
  insert-value_of q m sorted = rw (insert-place q m) (
    place-IsSorted q m sorted,
    λ l. rw (value_of-search l (place q m), value_of-search l m) (search-place l q m),
  )

  -- Erasing a key of a sorted vector leaves a sorted one, in which the key has no value, and each
  -- other key the value that it had.
  pub erase-value_of :
      (k : ℕ) (m : FlatMap V)
      → IsSorted m
      → IsSorted (erase k m).0
        × ((l : ℕ) → value_of l (erase k m).0 ≡ (if l == k then none else value_of l m))
  erase-value_of k m sorted = rw (erase-drop k m) (
    drop-IsSorted k m sorted,
    λ l. rw (value_of-search l (drop k m), value_of-search l m) (search-drop l k m sorted),
  )
