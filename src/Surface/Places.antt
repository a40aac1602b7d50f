-- ===== src/Surface/Places.antt =====
-- The places that hexa/server/extract_surface.cpp goes over are those of a chunk, each of them
-- once.
use hexahedra.Base.{
  ℕ, ◌+◌, ◌<◌, ◌≤◌, ◌≡◌, ◌≢◌, ap, ◌∙◌, inl, inr, [], ◌∷◌, ◌++◌, ◌==◌, Bool-cases, arith,
}
use hexahedra.Wire.Points.{Vector3}
use hexahedra.VoxelRange.{is_same_voxel}
use hexahedra.Surface.{at, x_sides, y_sides, z_sides, chunk_inner_core}
use hexahedra.Surface.Loops.{
  meets, meets-append, turned, turned_zero, x_sides-meets, y_sides-meets, z_sides-meets, core-meets,
  IsInside, IsInCore, ends, ends-cases, turned_whole,
}

module _ (p : Vector3 ℕ) where
  x-ends : meets p (at 0 p.y p.z ∷ at 15 p.y p.z ∷ []) ≡ ends p.x
  unfolding is_same_voxel
  x-ends = ground arith

  y-ends : meets p (at p.x 0 p.z ∷ at p.x 15 p.z ∷ []) ≡ ends p.y
  unfolding is_same_voxel
  y-ends = ground arith

  z-ends : meets p (at p.x p.y 0 ∷ at p.x p.y 15 ∷ []) ≡ ends p.z
  unfolding is_same_voxel
  z-ends = ground arith

  self-meets : meets p (at p.x p.y p.z ∷ []) ≡ 1
  unfolding is_same_voxel
  self-meets = ground arith

  module _ (inside : IsInside p) where
    x_sides-ends : meets p x_sides ≡ ends p.x
    x_sides-ends =
        x_sides-meets p ∙ turned_whole p.y _ inside.1 ∙ turned_whole p.z _ inside.2 ∙ x-ends

    y_sides-ends : meets p y_sides ≡ turned 1 14 p.x (ends p.y)
    y_sides-ends = y_sides-meets p ∙ turned_whole p.z _ inside.2 ∙ ap (turned 1 14 p.x) y-ends

    z_sides-ends : meets p z_sides ≡ turned 1 14 p.y (turned 1 14 p.x (ends p.z))
    z_sides-ends = z_sides-meets p ∙ ap (λ n. turned 1 14 p.y (turned 1 14 p.x n)) z-ends

    core-ends : meets p chunk_inner_core ≡ turned 1 14 p.z (turned 1 14 p.y (turned 1 14 p.x 1))
    core-ends =
        core-meets p ∙ ap (λ n. turned 1 14 p.z (turned 1 14 p.y (turned 1 14 p.x n))) self-meets

    once :
        ends p.x
          + (turned 1 14 p.x (ends p.y)
              + (turned 1 14 p.y (turned 1 14 p.x (ends p.z))
                  + turned 1 14 p.z (turned 1 14 p.y (turned 1 14 p.x 1))))
        ≡ 1
    once = elim (ends-cases p.x inside.0) [
      | inl (x, none_x) ↦ simp (x, none_x, turned_zero)
      | inr (x, all_x) ↦ elim (ends-cases p.y inside.1) [
        | inl (y, none_y) ↦ simp (x, y, all_x, none_y, turned_zero)
        | inr (y, all_y) ↦ elim (ends-cases p.z inside.2) [
          | inl (z, none_z) ↦ simp (x, y, z, all_x, all_y, none_z)
          | inr (z, all_z) ↦ simp (x, y, z, all_x, all_y, all_z)
        ]
      ]
    ]

    -- The shell and the core meet every place of a chunk once between them.
    pub shell-core-meets : meets p (x_sides ++ (y_sides ++ z_sides)) + meets p chunk_inner_core ≡ 1
    shell-core-meets =
        let first = meets-append p x_sides (y_sides ++ z_sides) in
        let second = meets-append p y_sides z_sides in
        omega (arith, first, second, x_sides-ends, y_sides-ends, z_sides-ends, core-ends, once)

turned_ne : (a n k v : ℕ) → turned a n k v ≢ 0 → (a ≤ k) × (k < a + n) × (v ≢ 0)
unfolding turned
turned_ne a n k v met = ground arith

ends_lt : (k : ℕ) → ends k ≢ 0 → k < 16
ends_lt k met = ground arith

-- What the core meets does not lie on a side.
pub core-IsInCore : (p : Vector3 ℕ) → meets p chunk_inner_core ≢ 0 → IsInCore p
core-IsInCore p met =
    let (az, bz, rest) = turned_ne 1 14 p.z _ (λ e. met (core-meets p ∙ e)) in
    let (ay, by, last) = turned_ne 1 14 p.y _ rest in
    let (ax, bx, one) = turned_ne 1 14 p.x _ last in omega arith

x_sides-IsInside : (p : Vector3 ℕ) → meets p x_sides ≢ 0 → IsInside p
x_sides-IsInside p met =
    let (ay, by, rest) = turned_ne 0 16 p.y _ (λ e. met (x_sides-meets p ∙ e)) in
    let (az, bz, last) = turned_ne 0 16 p.z _ rest in
    (ends_lt p.x (λ e. last (x-ends p ∙ e)), omega arith, omega arith)

y_sides-IsInside : (p : Vector3 ℕ) → meets p y_sides ≢ 0 → IsInside p
y_sides-IsInside p met =
    let (az, bz, rest) = turned_ne 0 16 p.z _ (λ e. met (y_sides-meets p ∙ e)) in
    let (ax, bx, last) = turned_ne 1 14 p.x _ rest in
    (omega arith, ends_lt p.y (λ e. last (y-ends p ∙ e)), omega arith)

z_sides-IsInside : (p : Vector3 ℕ) → meets p z_sides ≢ 0 → IsInside p
z_sides-IsInside p met =
    let (ay, by, rest) = turned_ne 1 14 p.y _ (λ e. met (z_sides-meets p ∙ e)) in
    let (ax, bx, last) = turned_ne 1 14 p.x _ rest in
    (omega arith, omega arith, ends_lt p.z (λ e. last (z-ends p ∙ e)))

-- What the shell meets lies inside the chunk.
pub shell-IsInside : (p : Vector3 ℕ) → meets p (x_sides ++ (y_sides ++ z_sides)) ≢ 0 → IsInside p
shell-IsInside p met =
    let first = meets-append p x_sides (y_sides ++ z_sides) in
    let second = meets-append p y_sides z_sides in
    elim (Bool-cases (meets p x_sides == 0)) [
      | inr some_x ↦ x_sides-IsInside p (ground arith)
      | inl no_x ↦ elim (Bool-cases (meets p y_sides == 0)) [
        | inr some_y ↦ y_sides-IsInside p (ground arith)
        | inl no_y ↦ z_sides-IsInside p (λ no_z. met (ground (arith, first, second)))
      ]
    ]
