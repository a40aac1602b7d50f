-- ===== src/Surface/Loops.antt =====
-- How often the loops of hexa/server/extract_surface.cpp meet a place.
use hexahedra.Base.{
  ℕ, zero, suc, ◌+◌, ◌<◌, ◌≤◌, ◌≡◌, ◌≢◌, ◌⊎◌, ap, ◌∙◌, inl, inr, List, [], ◌∷◌, ◌++◌, ltb, leb,
  ◌==◌, ◌&&◌, if◌then◌else◌, Bool-cases, arith,
}
use hexahedra.Wire.Points.{Vector3}
use hexahedra.VoxelRange.{is_same_voxel}
use hexahedra.Surface.{at, loop, x_sides, y_sides, z_sides, chunk_inner_core}

abbrev pub meets : Vector3 ℕ → List (Vector3 ℕ) → ℕ
meets p [] = 0
meets p (q ∷ places) = (if is_same_voxel q p then 1 else 0) + meets p places

pub meets-append :
    (p : Vector3 ℕ) (xs ys : List (Vector3 ℕ)) → meets p (xs ++ ys) ≡ meets p xs + meets p ys
meets-append p [] ys = omega arith
meets-append p (q ∷ xs) ys = omega (arith, meets-append p xs ys)

-- A loop of which one turn can meet a place.
meets-loop :
    (p : Vector3 ℕ) (a n k : ℕ) (turn : ℕ → List (Vector3 ℕ))
    → ((j : ℕ) → j ≢ k → meets p (turn j) ≡ 0)
    → meets p (loop a n turn) ≡ (if leb a k && ltb k (a + n) then meets p (turn k) else 0)
unfolding loop
meets-loop p a zero k turn away = ground arith
meets-loop p a (suc n) k turn away =
    let rest = meets-loop p (suc a) n k turn away in
    let both = meets-append p (turn a) (loop (suc a) n turn) in
    elim (Bool-cases (a == k)) [
      | inl here ↦ let same : a ≡ k = ground arith in ground (arith, rest, both)
      | inr other ↦
          let first : meets p (turn a) ≡ 0 = away a (ground arith) in
          ground (arith, rest, both, first)
    ]

-- The value at a turn that a loop makes.
unfoldable pub turned : ℕ → ℕ → ℕ → ℕ → ℕ
turned a n k value = if leb a k && ltb k (a + n) then value else 0

pub turned_zero : (a n k : ℕ) → turned a n k 0 ≡ 0
unfolding turned
turned_zero a n k = ground arith

-- Two loops in each other.
meets-loop-loop :
    (p : Vector3 ℕ) (a n b m k l : ℕ) (turn : ℕ → ℕ → List (Vector3 ℕ))
    → ((i j : ℕ) → i ≢ k → meets p (turn i j) ≡ 0)
    → ((i j : ℕ) → j ≢ l → meets p (turn i j) ≡ 0)
    → meets p (loop a n (λ i. loop b m (turn i))) ≡ turned a n k (turned b m l (meets p (turn k l)))
unfolding turned
meets-loop-loop p a n b m k l turn outer inner =
    meets-loop p a n k (λ i. loop b m (turn i))
      (λ i away.
        meets-loop p b m l (turn i) (inner i)
        ∙ ap (turned b m l) (outer i l away)
        ∙ turned_zero b m l)
    ∙ ap (turned a n k) (meets-loop p b m l (turn k) (inner k))

pub x_sides-meets :
    (p : Vector3 ℕ)
    → meets p x_sides
      ≡ turned 0 16 p.y (turned 0 16 p.z (meets p (at 0 p.y p.z ∷ at 15 p.y p.z ∷ [])))
unfolding x_sides is_same_voxel
x_sides-meets p =
    meets-loop-loop p 0 16 0 16 p.y p.z (λ y z. at 0 y z ∷ at 15 y z ∷ []) (λ i j h. ground arith)
      (λ i j h. ground arith)

pub y_sides-meets :
    (p : Vector3 ℕ)
    → meets p y_sides
      ≡ turned 0 16 p.z (turned 1 14 p.x (meets p (at p.x 0 p.z ∷ at p.x 15 p.z ∷ [])))
unfolding y_sides is_same_voxel
y_sides-meets p =
    meets-loop-loop p 0 16 1 14 p.z p.x (λ z x. at x 0 z ∷ at x 15 z ∷ []) (λ i j h. ground arith)
      (λ i j h. ground arith)

pub z_sides-meets :
    (p : Vector3 ℕ)
    → meets p z_sides
      ≡ turned 1 14 p.y (turned 1 14 p.x (meets p (at p.x p.y 0 ∷ at p.x p.y 15 ∷ [])))
unfolding z_sides is_same_voxel
z_sides-meets p =
    meets-loop-loop p 1 14 1 14 p.y p.x (λ y x. at x y 0 ∷ at x y 15 ∷ []) (λ i j h. ground arith)
      (λ i j h. ground arith)

pub core-meets :
    (p : Vector3 ℕ)
    → meets p chunk_inner_core
      ≡ turned 1 14 p.z (turned 1 14 p.y (turned 1 14 p.x (meets p (at p.x p.y p.z ∷ []))))
unfolding turned chunk_inner_core is_same_voxel
core-meets p =
    meets-loop-loop p 1 14 1 14 p.z p.y (λ z y. loop 1 14 (λ x. at x y z ∷ []))
      (λ i j h. row i j (λ x. ground arith)) (λ i j h. row i j (λ x. ground arith))
    ∙ ap (λ n. turned 1 14 p.z (turned 1 14 p.y n))
        (meets-loop p 1 14 p.x (λ x. at x p.y p.z ∷ []) (λ j h. ground arith))
  where
    row :
        (z y : ℕ)
        → ((x : ℕ) → meets p (at x y z ∷ []) ≡ 0)
        → meets p (loop 1 14 (λ x. at x y z ∷ [])) ≡ 0
    row z y none_here =
        meets-loop p 1 14 p.x (λ x. at x y z ∷ []) (λ j h. none_here j)
        ∙ ap (turned 1 14 p.x) (none_here p.x)
        ∙ turned_zero 1 14 p.x

abbrev pub IsInside : Vector3 ℕ → Type 0
IsInside p = (p.x < 16) × (p.y < 16) × (p.z < 16)

-- A place that is not on a side.
abbrev pub IsInCore : Vector3 ℕ → Type 0
IsInCore p = ((1 ≤ p.x) × (p.x < 15)) × ((1 ≤ p.y) × (p.y < 15)) × ((1 ≤ p.z) × (p.z < 15))

-- How many of the two ends a coordinate is.
abbrev pub ends : ℕ → ℕ
ends k = (if 0 == k then 1 else 0) + ((if 15 == k then 1 else 0) + 0)

pub ends-cases :
    (k : ℕ)
    → k < 16
    → ((ends k ≡ 1) × ((v : ℕ) → turned 1 14 k v ≡ 0))
      ⊎ ((ends k ≡ 0) × ((v : ℕ) → turned 1 14 k v ≡ v))
unfolding turned
ends-cases k lt = elim (Bool-cases (leb 1 k && ltb k 15)) [
  | inl mid ↦ inr (ground arith, λ v. ground arith)
  | inr end ↦ inl (ground arith, λ v. ground arith)
]

pub turned_whole : (k v : ℕ) → k < 16 → turned 0 16 k v ≡ v
unfolding turned
turned_whole k v lt = ground arith
