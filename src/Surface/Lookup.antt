-- ===== src/Surface/Lookup.antt =====
-- What hexa/server/extract_surface.cpp finds next to a block, in the chunk or in those around it.
use hexahedra.Base.{
  ℕ, ◌+◌, ◌-◌, ◌*◌, ◌%◌, ◌<◌, ◌≤◌, ◌≡◌, ◌⊎◌, refl, sym, ap, ◌∙◌, inl, inr, some, ◌==◌, Bool-cases,
  All, arith,
}
use hexahedra.Base.Int.{ℤ, pos, negsuc, ◌+ℤ◌, shift_right4, low4, to_u8}
use hexahedra.Wire.Points.{Vector3}
use hexahedra.Surface.{
  Blocks, WorldVector, vec, signed, translate, block_at, Subsection, terrain_at, directions,
}
use hexahedra.Surface.Loops.{IsInside, IsInCore}

-- A unit step along an axis stays in the chunk or leads into the next one.
axis_up :
    (x : ℕ)
    → x < 16
    → (shift_right4 (pos x +ℤ pos 1) ≡ pos 0) ⊎ (shift_right4 (pos x +ℤ pos 1) ≡ pos 1)
unfolding ◌+ℤ◌ shift_right4
axis_up x lt = elim (Bool-cases (x == 15)) [
  | inl edge ↦ inr (ground arith)
  | inr mid ↦ inl (ground arith)
]

axis_down :
    (x : ℕ)
    → x < 16
    → (shift_right4 (pos x +ℤ negsuc 0) ≡ pos 0) ⊎ (shift_right4 (pos x +ℤ negsuc 0) ≡ negsuc 0)
unfolding ◌+ℤ◌ shift_right4
axis_down x lt = elim (Bool-cases (x == 0)) [
  | inl edge ↦ inr (ground arith)
  | inr mid ↦ inl (ground arith)
]

axis_stay : (x : ℕ) → x < 16 → shift_right4 (pos x +ℤ pos 0) ≡ pos 0
unfolding ◌+ℤ◌ shift_right4
axis_stay x lt = ground arith

low4_lt : (v : ℤ) → low4 v < 16
unfolding low4
low4_lt v = ground arith

pub block_at-some :
    (c : Blocks) (x y z : ℕ)
    → x < 16
    → y < 16
    → z < 16
    → block_at c (vec (pos x) (pos y) (pos z)) ≡ some (c (x + y * 16 + z * 256))
unfolding block_at to_u8
block_at-some c x y z lx ly lz =
    let ex : x % 256 ≡ x = omega arith in
    let ey : y % 256 ≡ y = omega arith in
    let ez : z % 256 ≡ z = omega arith in rw (ex, ey, ez) (ground arith)

terrain_at-block_at :
    (terrain : Subsection) (p : WorldVector) (c : Blocks)
    → terrain (vec (shift_right4 p.x) (shift_right4 p.y) (shift_right4 p.z)) ≡ some c
    → terrain_at terrain p ≡ block_at c (vec (pos (low4 p.x)) (pos (low4 p.y)) (pos (low4 p.z)))
unfolding terrain_at
terrain_at-block_at terrain p c there = rw (there, terrain_at) refl

-- In a chunk that is there, every place has a block.
terrain_at-some :
    (terrain : Subsection) (p : WorldVector) (c : Blocks)
    → terrain (vec (shift_right4 p.x) (shift_right4 p.y) (shift_right4 p.z)) ≡ some c
    → (t : ℕ) × (terrain_at terrain p ≡ some t)
terrain_at-some terrain p c there = (
  c (low4 p.x + low4 p.y * 16 + low4 p.z * 256),
  terrain_at-block_at terrain p c there
      ∙ block_at-some c (low4 p.x) (low4 p.y) (low4 p.z) (low4_lt p.x) (low4_lt p.y) (low4_lt p.z),
)

plus_one : (x : ℕ) → pos x +ℤ pos 1 ≡ pos (x + 1)
unfolding ◌+ℤ◌
plus_one x = ground arith

plus_none : (x : ℕ) → pos x +ℤ pos 0 ≡ pos x
unfolding ◌+ℤ◌
plus_none x = ground arith

minus_one : (x : ℕ) → 1 ≤ x → pos x +ℤ negsuc 0 ≡ pos (x - 1)
unfolding ◌+ℤ◌
minus_one x le = ground arith

shift_inside : (x : ℕ) → x < 16 → shift_right4 (pos x) ≡ pos 0
unfolding shift_right4
shift_inside x lt = ground arith

low_inside : (x : ℕ) → x < 16 → low4 (pos x) ≡ x
unfolding low4
low_inside x lt = omega arith

-- The chunk in the middle and the six next to it.
pub record HasNeighbours (terrain : Subsection) : Type 0 where
  pub center : (c : Blocks) × (terrain (vec (pos 0) (pos 0) (pos 0)) ≡ some c)
  pub east : (c : Blocks) × (terrain (vec (pos 1) (pos 0) (pos 0)) ≡ some c)
  pub west : (c : Blocks) × (terrain (vec (negsuc 0) (pos 0) (pos 0)) ≡ some c)
  pub north : (c : Blocks) × (terrain (vec (pos 0) (pos 1) (pos 0)) ≡ some c)
  pub south : (c : Blocks) × (terrain (vec (pos 0) (negsuc 0) (pos 0)) ≡ some c)
  pub up : (c : Blocks) × (terrain (vec (pos 0) (pos 0) (pos 1)) ≡ some c)
  pub down : (c : Blocks) × (terrain (vec (pos 0) (pos 0) (negsuc 0)) ≡ some c)

module _ (terrain : Subsection) (around : HasNeighbours terrain) where
  -- The lookup at a place whose chunk is the middle one or a given one next to it.
  found :
      (p q : WorldVector) (here : (c : Blocks) × (terrain q ≡ some c))
      → (vec (shift_right4 p.x) (shift_right4 p.y) (shift_right4 p.z) ≡ vec (pos 0) (pos 0) (pos 0))
        ⊎ (vec (shift_right4 p.x) (shift_right4 p.y) (shift_right4 p.z) ≡ q)
      → (t : ℕ) × (terrain_at terrain p ≡ some t)
  found p q here (inl middle) =
      terrain_at-some terrain p around.center.0 (ap terrain middle ∙ around.center.1)
  found p q here (inr next) = terrain_at-some terrain p here.0 (ap terrain next ∙ here.1)

  -- From a place inside the chunk, every direction leads to a block.
  pub next-some :
      (i : Vector3 ℕ)
      → IsInside i
      → All
          (λ (d : ℕ × WorldVector).
            (t : ℕ) × (terrain_at terrain (translate (signed i) d.1) ≡ some t))
          directions
  unfolding directions translate
  next-some i (lx, ly, lz) =
      let sx = axis_stay i.x lx in
      let sy = axis_stay i.y ly in
      let sz = axis_stay i.z lz in
      (
        found _ _ around.east (elim (axis_up i.x lx) [ inl e ↦ inl (cc) | inr e ↦ inr (cc) ]),
        (
          found _ _ around.west (elim (axis_down i.x lx) [ inl e ↦ inl (cc) | inr e ↦ inr (cc) ]),
          (
            found _ _ around.north (elim (axis_up i.y ly) [ inl e ↦ inl (cc) | inr e ↦ inr (cc) ]),
            (
              found _ _ around.south
                  (elim (axis_down i.y ly) [ inl e ↦ inl (cc) | inr e ↦ inr (cc) ]),
              (
                found _ _ around.up (elim (axis_up i.z lz) [ inl e ↦ inl (cc) | inr e ↦ inr (cc) ]),
                (
                  found _ _ around.down
                      (elim (axis_down i.z lz) [ inl e ↦ inl (cc) | inr e ↦ inr (cc) ]),
                  tt,
                ),
              ),
            ),
          ),
        ),
      )

  -- Inside the chunk, the middle chunk alone says the same.
  pub inner :
      (p : WorldVector) (x y z : ℕ)
      → p ≡ vec (pos x) (pos y) (pos z)
      → x < 16
      → y < 16
      → z < 16
      → block_at around.center.0 p ≡ terrain_at terrain p
  inner p x y z same lx ly lz =
      let sx = shift_inside x lx in
      let sy = shift_inside y ly in
      let sz = shift_inside z lz in
      let middle : vec (shift_right4 p.x) (shift_right4 p.y) (shift_right4 p.z)
          ≡ vec (pos 0) (pos 0) (pos 0) =
        rw same (cc) in
      let low : vec (pos (low4 p.x)) (pos (low4 p.y)) (pos (low4 p.z)) ≡ p =
        rw same (cc (low_inside x lx, low_inside y ly, low_inside z lz)) in
      sym (
        terrain_at-block_at terrain p around.center.0 (ap terrain middle ∙ around.center.1)
        ∙ ap (block_at around.center.0) low)

  pub next-inner :
      (i : Vector3 ℕ)
      → IsInCore i
      → All
          (λ (d : ℕ × WorldVector).
            block_at around.center.0 (translate (signed i) d.1)
            ≡ terrain_at terrain (translate (signed i) d.1))
          directions
  unfolding directions translate
  next-inner i ((ax, bx), (ay, by), (az, bz)) =
      let sx = plus_none i.x in
      let sy = plus_none i.y in
      let sz = plus_none i.z in
      let lx : i.x < 16 = omega arith in
      let ly : i.y < 16 = omega arith in
      let lz : i.z < 16 = omega arith in
      (
        inner _ (i.x + 1) i.y i.z (cc (plus_one i.x)) (omega arith) ly lz,
        (
          inner _ (i.x - 1) i.y i.z (cc (minus_one i.x ax)) (omega arith) ly lz,
          (
            inner _ i.x (i.y + 1) i.z (cc (plus_one i.y)) lx (omega arith) lz,
            (
              inner _ i.x (i.y - 1) i.z (cc (minus_one i.y ay)) lx (omega arith) lz,
              (
                inner _ i.x i.y (i.z + 1) (cc (plus_one i.z)) lx ly (omega arith),
                (inner _ i.x i.y (i.z - 1) (cc (minus_one i.z az)) lx ly (omega arith), tt),
              ),
            ),
          ),
        ),
      )
