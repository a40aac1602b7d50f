-- ===== src/Surface/Extraction.antt =====
-- The surfaces that hexa/server/extract_surface.cpp makes, place by place.
use hexahedra.Base.{
  ℕ, zero, suc, ◌+◌, ◌*◌, ◌≡◌, ◌≢◌, refl, ap, ◌∙◌, inl, inr, List, [], ◌∷◌, ◌++◌, append-nil,
  Option, some, true, Bool-cases, All, arith,
}
use hexahedra.Wire.Points.{Vector3}
use hexahedra.VoxelRange.{is_same_voxel}
use hexahedra.Surface.{
  Blocks, BlockFaces, WorldVector, signed, directions, block_at, Subsection, terrain_at,
  extract_each, extract, x_sides, y_sides, z_sides, chunk_inner_core,
}
use hexahedra.Surface.Loops.{meets, IsInside, IsInCore}
use hexahedra.Surface.Places.{shell-core-meets, core-IsInCore, shell-IsInside}
use hexahedra.Surface.Lookup.{HasNeighbours, block_at-some, next-some, next-inner}
use hexahedra.Surface.Mask.{Look, AllSome, AllSame}
use hexahedra.Surface.Faces.{faces_at, IsBody}

is_same_voxel-eq : (i p : Vector3 ℕ) → is_same_voxel i p ≡ true → i ≡ p
unfolding is_same_voxel
is_same_voxel-eq i p h = ground arith

count_self : (q : Vector3 ℕ) (places : List (Vector3 ℕ)) → meets q (q ∷ places) ≢ 0
unfolding is_same_voxel
count_self q places h = ground arith

-- What holds of every place that a list meets.
All-meets :
    (P : Vector3 ℕ → Type 0) (places : List (Vector3 ℕ))
    → ((p : Vector3 ℕ) → meets p places ≢ 0 → P p)
    → All P places
All-meets P [] h = tt
All-meets P (q ∷ places) h = (
  h q (count_self q places),
  All-meets P places (λ p some_there. h p (λ none_there. some_there (omega arith))),
)

All-some :
    (look look' : Look) (i : WorldVector) (ds : List (ℕ × WorldVector))
    → AllSame look look' i ds
    → AllSome look' i ds
    → AllSome look i ds
All-some look look' i [] same all = tt
All-some look look' i (d ∷ ds) (e, same) ((t, there), all) =
    ((t, e ∙ there), All-some look look' i ds same all)

faces_at-append :
    (p : Vector3 ℕ) (xs ys : List BlockFaces)
    → faces_at p (xs ++ ys) ≡ faces_at p xs ++ faces_at p ys
faces_at-append p [] ys = refl
faces_at-append p (f ∷ xs) ys = elim (Bool-cases (is_same_voxel f.pos p)) [
  | inl here ↦ rw here (ap (◌∷◌ f) (faces_at-append p xs ys))
  | inr away ↦ rw away (faces_at-append p xs ys)
]

abbrev copies : ℕ → List BlockFaces → List BlockFaces
copies zero fs = []
copies (suc n) fs = fs ++ copies n fs

one_more : (n : ℕ) → suc n ≡ 1 + n
one_more n = omega arith

no_more : (n : ℕ) → n ≡ 0 + n
no_more n = omega arith

copies_once : (fs : List BlockFaces) (a b : ℕ) → a + b ≡ 1 → copies a fs ++ copies b fs ≡ fs
copies_once fs zero zero h = absurd (omega arith)
copies_once fs zero (suc zero) h = append-nil fs
copies_once fs zero (suc (suc b)) h = absurd (omega arith)
copies_once fs (suc zero) zero h = append-nil (fs ++ []) ∙ append-nil fs
copies_once fs (suc zero) (suc b) h = absurd (omega arith)
copies_once fs (suc (suc a)) b h = absurd (omega arith)

module _ {body : Look → Vector3 ℕ → ℕ → Option (List BlockFaces)}
    {expected : Look → Vector3 ℕ → ℕ → List BlockFaces} (good : IsBody body expected)
    (terrain : Subsection) (around : HasNeighbours terrain) where
  abbrev pub center : Blocks
  center = around.center.0

  -- The type of the block at a place of the middle chunk, and the faces that are expected there.
  abbrev pub type_at : Vector3 ℕ → ℕ
  type_at i = center (i.x + i.y * 16 + i.z * 256)

  abbrev pub expected_at : Vector3 ℕ → List BlockFaces
  expected_at i = expected (terrain_at terrain) i (type_at i)

  pub gather : List (Vector3 ℕ) → List BlockFaces
  gather [] = []
  gather (i ∷ places) = expected_at i ++ gather places

  extract_each-gather :
      (look : Look) (places : List (Vector3 ℕ))
      → All
          (λ (i : Vector3 ℕ). IsInside i × (body look i (type_at i) ≡ some (expected_at i)))
          places
      → extract_each center (body look) places ≡ some (gather places)
  unfolding extract_each gather
  extract_each-gather look [] all = refl
  extract_each-gather look (i ∷ places) (((lx, ly, lz), here), all) =
      let there = block_at-some center i.x i.y i.z lx ly lz in
      rw (there, extract_each) (rw here (rw (extract_each-gather look places all) refl))

  outer_body :
      (i : Vector3 ℕ)
      → IsInside i
      → IsInside i × (body (terrain_at terrain) i (type_at i) ≡ some (expected_at i))
  outer_body i inside =
      (inside, good.gives (terrain_at terrain) i (type_at i) (next-some terrain around i inside))

  inner_body :
      (i : Vector3 ℕ)
      → IsInCore i
      → IsInside i × (body (block_at center) i (type_at i) ≡ some (expected_at i))
  inner_body i core =
      let same = next-inner terrain around i core in
      let inside : IsInside i = omega arith in
      (
        inside,
        good.gives (block_at center) i (type_at i) (
              All-some (block_at center) (terrain_at terrain) (signed i) directions same
                (next-some terrain around i inside))
            ∙ ap some (good.looks (block_at center) (terrain_at terrain) i (type_at i) same),
      )

  faces_at-gather :
      (p : Vector3 ℕ) (places : List (Vector3 ℕ))
      → faces_at p (gather places) ≡ copies (meets p places) (expected_at p)
  unfolding gather
  faces_at-gather p [] = refl
  faces_at-gather p (i ∷ places) =
      let rest = faces_at-gather p places in
      let kept = good.stays (terrain_at terrain) i p (type_at i) in
      faces_at-append p (expected_at i) (gather places)
      ∙ ap (λ fs. faces_at p (expected_at i) ++ fs) rest
      ∙ ap (λ fs. fs ++ copies (meets p places) (expected_at p)) kept
      ∙ elim (Bool-cases (is_same_voxel i p)) [
        | inl here ↦ rw here (
            ap (λ (q : Vector3 ℕ). expected_at q ++ copies (meets p places) (expected_at p))
              (is_same_voxel-eq i p here)
            ∙ ap (λ n. copies n (expected_at p)) (one_more (meets p places)))
        | inr away ↦ rw away (ap (λ n. copies n (expected_at p)) (no_more (meets p places)))
      ]

  -- Both passes over a shell and a core whose places are those of the loops.
  pub extract-gather :
      (shell : List (Vector3 ℕ))
      → ((p : Vector3 ℕ) → meets p shell ≡ meets p (x_sides ++ (y_sides ++ z_sides)))
      → extract body terrain shell chunk_inner_core ≡ some (gather shell ++ gather chunk_inner_core)
  unfolding extract
  extract-gather shell sorted =
      let outer = extract_each-gather (terrain_at terrain) shell (
        All-meets _ shell
          (λ p met. outer_body p (shell-IsInside p (λ none_there. met (sorted p ∙ none_there))))) in
      let inner =
        extract_each-gather (block_at center) chunk_inner_core
          (All-meets _ chunk_inner_core (λ p met. inner_body p (core-IsInCore p met))) in
      rw (around.center.1, extract) (rw outer (rw inner refl))

  -- The result of both passes has at each place inside the chunk the faces that are expected there,
  -- once.
  pub extract-faces_at :
      (shell : List (Vector3 ℕ)) (p : Vector3 ℕ)
      → ((q : Vector3 ℕ) → meets q shell ≡ meets q (x_sides ++ (y_sides ++ z_sides)))
      → IsInside p
      → faces_at p (gather shell ++ gather chunk_inner_core) ≡ expected_at p
  extract-faces_at shell p sorted inside =
      let once : meets p shell + meets p chunk_inner_core ≡ 1 =
        omega (arith, sorted p, shell-core-meets p inside) in
      faces_at-append p (gather shell) (gather chunk_inner_core)
      ∙ ap (λ fs. fs ++ faces_at p (gather chunk_inner_core)) (faces_at-gather p shell)
      ∙ ap (λ fs. copies (meets p shell) (expected_at p) ++ fs) (faces_at-gather p chunk_inner_core)
      ∙ copies_once (expected_at p) (meets p shell) (meets p chunk_inner_core) once
