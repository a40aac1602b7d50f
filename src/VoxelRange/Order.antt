-- ===== src/VoxelRange/Order.antt =====
-- The order in which hexa/voxel_range.hpp visits the voxels of a box.
use hexahedra.Base.{
  ℕ, zero, suc, ◌+◌, ◌-◌, ◌*◌, ◌%◌, ◌^◌, ◌<◌, ◌≡◌, refl, sym, ap, ◌∙◌, List, [], ◌∷◌, ◌++◌, Option,
  none, some, true, false, leb, ◌==◌, append_assoc, append-nil, arith,
}
use hexahedra.Wire.Points.{Vector3}
use hexahedra.VoxelRange.{
  Range, is_same_voxel, voxel, advance_z, advance_y, advance, visit, dimensions, size,
}

-- Three loops in each other: `n` voxels of a row, `n` rows of a slab, `n` slabs.
abbrev pub row : ℕ → ℕ → ℕ → ℕ → List (Vector3 ℕ)
row zero x y z = []
row (suc n) x y z = voxel x y z ∷ row n (suc x) y z

abbrev pub slab : ℕ → ℕ → ℕ → ℕ → ℕ → List (Vector3 ℕ)
slab w zero x y z = []
slab w (suc n) x y z = row w x y z ++ slab w n x (suc y) z

abbrev pub box : ℕ → ℕ → ℕ → ℕ → ℕ → ℕ → List (Vector3 ℕ)
box w h zero x y z = []
box w h (suc n) x y z = slab w h x y z ++ box w h n x y (suc z)

abbrev prefix : List (Vector3 ℕ) → Option (List (Vector3 ℕ)) → Option (List (Vector3 ℕ))
prefix ps none = none
prefix ps (some qs) = some (ps ++ qs)

prefix-append :
    (ps qs : List (Vector3 ℕ)) (o : Option (List (Vector3 ℕ)))
    → prefix ps (prefix qs o) ≡ prefix (ps ++ qs) o
prefix-append ps qs none = refl
prefix-append ps qs (some rs) = ap some (sym (append_assoc ps qs rs))

prefix-cons :
    (p : Vector3 ℕ) (o : Option (List (Vector3 ℕ)))
    → elim o as (λ x. Option (List (Vector3 ℕ))) [ none ↦ none | some ps ↦ some (p ∷ ps) ]
      ≡ prefix (p ∷ []) o
prefix-cons p none = refl
prefix-cons p (some ps) = refl

plus_one : (n : ℕ) → 1 + n ≡ suc n
plus_one n = omega arith

plus_suc : (k n : ℕ) → suc k + n ≡ suc (k + n)
plus_suc k n = omega arith

-- As many steps as a block of rows and what is behind it take.
more_rows : (j w n : ℕ) → suc (suc j) * w + n ≡ w + (suc j * w + n)
more_rows j w n = grind arith

one_row : (w n : ℕ) → 1 * w + n ≡ w + n
one_row w n = omega arith

more_slabs : (i w : ℕ) → suc (suc i) * w ≡ w + suc i * w
more_slabs i w = grind arith

one_slab : (w : ℕ) → 1 * w ≡ w + 0
one_slab w = omega arith

volume : (w h i : ℕ) → suc w * suc h * suc i ≡ suc i * (suc h * suc w)
volume w h i = grind arith

gap : (a b : ℕ) → a < b → (k : ℕ) × (b - a ≡ suc k) × (a + suc k ≡ b)
gap a b lt = (b - a - 1, omega arith, omega arith)

module _ (r : Range) where
  inside_ne : (x y z : ℕ) → z < r.last.z → is_same_voxel (voxel x y z) r.last ≡ false
  unfolding is_same_voxel
  inside_ne x y z lt = ground arith

  visit-inside :
      (n x y z : ℕ)
      → z < r.last.z
      → visit (suc n) r (voxel x y z)
        ≡ prefix (voxel x y z ∷ []) (visit n r (advance r (voxel x y z)))
  unfolding visit
  visit-inside n x y z lt =
      rw (inside_ne x y z lt) (prefix-cons (voxel x y z) (visit n r (advance r (voxel x y z))))

  visit-last : (z : ℕ) → z + 1 ≡ r.last.z → visit 0 r (voxel r.last.x r.last.y (suc z)) ≡ some []
  unfolding visit is_same_voxel
  visit-last z meets = ground arith

  -- A row from a cursor in it on, and what the end of the row leads to.
  visit-row :
      (k n x y z : ℕ)
      → x + suc k ≡ r.last.x
      → z < r.last.z
      → visit (suc k + n) r (voxel x y z) ≡ prefix (row (suc k) x y z) (visit n r (advance_y r y z))
  unfolding advance
  visit-row zero n x y z meets lt =
      let edge : leb r.last.x (suc x) ≡ true = ground arith in
      let next : advance r (voxel x y z) ≡ advance_y r y z = rw (advance, edge) refl in
      ap (λ m. visit m r (voxel x y z)) (plus_one n)
      ∙ visit-inside n x y z lt
      ∙ ap (λ c. prefix (voxel x y z ∷ []) (visit n r c)) next
  visit-row (suc k) n x y z meets lt =
      let before : leb r.last.x (suc x) ≡ false = ground arith in
      let next : advance r (voxel x y z) ≡ voxel (suc x) y z = rw (advance, before) refl in
      ap (λ m. visit m r (voxel x y z)) (plus_suc (suc k) n)
      ∙ visit-inside (suc k + n) x y z lt
      ∙ ap (λ c. prefix (voxel x y z ∷ []) (visit (suc k + n) r c)) next
      ∙ ap (prefix (voxel x y z ∷ [])) (visit-row k n (suc x) y z (omega arith) lt)
      ∙ prefix-append (voxel x y z ∷ []) (row (suc k) (suc x) y z) (visit n r (advance_y r y z))

  module _ (w : ℕ) (wide : r.first.x + suc w ≡ r.last.x) where
    -- A slab from the front of a row in it on.
    visit-slab :
        (j n y z : ℕ)
        → y + suc j ≡ r.last.y
        → z < r.last.z
        → visit (suc j * suc w + n) r (voxel r.first.x y z)
          ≡ prefix (slab (suc w) (suc j) r.first.x y z) (visit n r (advance_z r z))
    unfolding advance_y
    visit-slab zero n y z meets lt =
        let edge : leb r.last.y (suc y) ≡ true = ground arith in
        let next : advance_y r y z ≡ advance_z r z = rw (advance_y, edge) refl in
        ap (λ m. visit m r (voxel r.first.x y z)) (one_row (suc w) n)
        ∙ visit-row w n r.first.x y z wide lt
        ∙ ap (λ c. prefix (row (suc w) r.first.x y z) (visit n r c)) next
        ∙ ap (λ ps. prefix ps (visit n r (advance_z r z)))
            (sym (append-nil (row (suc w) r.first.x y z)))
    visit-slab (suc j) n y z meets lt =
        let before : leb r.last.y (suc y) ≡ false = ground arith in
        let next : advance_y r y z ≡ voxel r.first.x (suc y) z = rw (advance_y, before) refl in
        ap (λ m. visit m r (voxel r.first.x y z)) (more_rows j (suc w) n)
        ∙ visit-row w (suc j * suc w + n) r.first.x y z wide lt
        ∙ ap (λ c. prefix (row (suc w) r.first.x y z) (visit (suc j * suc w + n) r c)) next
        ∙ ap (prefix (row (suc w) r.first.x y z)) (visit-slab j n (suc y) z (omega arith) lt)
        ∙ prefix-append (row (suc w) r.first.x y z) (slab (suc w) (suc j) r.first.x (suc y) z)
            (visit n r (advance_z r z))

    module _ (h : ℕ) (deep : r.first.y + suc h ≡ r.last.y) where
      visit-box :
          (i z : ℕ)
          → z + suc i ≡ r.last.z
          → visit (suc i * (suc h * suc w)) r (voxel r.first.x r.first.y z)
            ≡ some (box (suc w) (suc h) (suc i) r.first.x r.first.y z)
      unfolding advance_z
      visit-box zero z meets =
          let start = voxel r.first.x r.first.y z in
          let area = suc h * suc w in
          let edge : (suc z == r.last.z) ≡ true = ground arith in
          let next : advance_z r z ≡ voxel r.last.x r.last.y (suc z) = rw (advance_z, edge) refl in
          ap (λ m. visit m r start) (one_slab area)
          ∙ visit-slab h 0 r.first.y z deep (omega arith)
          ∙ ap (λ c. prefix (slab (suc w) (suc h) r.first.x r.first.y z) (visit 0 r c)) next
          ∙ ap (prefix (slab (suc w) (suc h) r.first.x r.first.y z)) (visit-last z meets)
      visit-box (suc i) z meets =
          let start = voxel r.first.x r.first.y z in
          let area = suc h * suc w in
          let before : (suc z == r.last.z) ≡ false = ground arith in
          let next : advance_z r z ≡ voxel r.first.x r.first.y (suc z) =
            rw (advance_z, before) refl in
          ap (λ m. visit m r start) (more_slabs i area)
          ∙ visit-slab h (suc i * area) r.first.y z deep (omega arith)
          ∙ ap (λ c. prefix (slab (suc w) (suc h) r.first.x r.first.y z) (visit (suc i * area) r c))
              next
          ∙ ap (prefix (slab (suc w) (suc h) r.first.x r.first.y z))
              (visit-box i (suc z) (omega arith))

-- A product below 2 ^ 32 is the same when each factor is multiplied in 32 bits.
exact :
    (area depth : ℕ)
    → area * suc depth < 2 ^ 32
    → (area % 2 ^ 32) * suc depth % 2 ^ 32 ≡ area * suc depth
exact area depth lt =
    let low : area < 2 ^ 32 = omega arith in
    let same : area % 2 ^ 32 ≡ area = omega arith in rw same (omega arith)

-- A loop over a box that is not empty and has less than 2 ^ 32 voxels ends after as many steps as
-- `size` says, and meets them in three loops in each other: row by row, slab by slab, each row,
-- slab and the box from its first coordinate on.
pub visit-box_all :
    (r : Range)
    → r.first.x < r.last.x
    → r.first.y < r.last.y
    → r.first.z < r.last.z
    → (dimensions r).x * (dimensions r).y * (dimensions r).z < 2 ^ 32
    → visit (size r) r r.first
      ≡ some (box (dimensions r).x (dimensions r).y (dimensions r).z r.first.x r.first.y r.first.z)
unfolding size dimensions
visit-box_all r lx ly lz small =
    let (w, dx, wide) = gap r.first.x r.last.x lx in
    let (h, dy, deep) = gap r.first.y r.last.y ly in
    let (i, dz, tall) = gap r.first.z r.last.z lz in
    let fits : suc w * suc h * suc i < 2 ^ 32 = rw (dx, dy, dz) at small in
    rw (size, dx)
      (rw dy (
        rw dz (
          ap (λ m. visit m r r.first) (exact (suc w * suc h) i fits ∙ volume w h i)
          ∙ visit-box r w wide h deep i r.first.z tall)))
