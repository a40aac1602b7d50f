-- ===== src/World/Areas/Branches.antt =====
-- The branches of world::get_area_data_writable of hexa/server/world.cpp.
use hexahedra.Base.{
  ℕ, ◌≤◌, ◌≡◌, true, refl, ap, ◌∙◌, inl, inr, none, some, arith, Bool-cases, Option-cases, List, [],
  ◌∷◌, length, zero, suc,
}
use hexahedra.Wire.Points.{Vector3}
use hexahedra.Wire.Sequences.{Text}
use hexahedra.World.Heights.{MapCoordinates}
use hexahedra.Base.Table.{put_self}
use hexahedra.World.State.{chunk_discrete}
use hexahedra.World.Areas.{
  AreaGenerator, AreaSetup, Areas, TerrainGenerator, generator_at, adapt, store_area,
  get_area_data_writable, make_area_data, entered,
}

-- The key of area data.
abbrev pub place : MapCoordinates → ℕ → Vector3 ℕ
place pos2d index = record { x = pos2d.x; y = pos2d.y; z = index }

pub generator_at_out :
    {Data : Type 0} (gens : List (AreaGenerator Data)) (index : ℕ)
    → length gens ≤ index
    → generator_at gens index ≡ none
unfolding generator_at
generator_at_out [] index le = refl
generator_at_out (g ∷ gens) zero le = absurd (omega arith)
generator_at_out (g ∷ gens) (suc index) le = generator_at_out gens index (omega arith)

module _ {Data Packed : Type 0} (setup : AreaSetup Data Packed) where
  open setup use {areagen, terraingen, new_data, pack, unpack_as}

  -- What the terrain generators end with is in memory, whatever else they changed there.
  adapt_kept :
      (tgs : List (TerrainGenerator Data Packed)) (name : Text) (pos : MapCoordinates) (index : ℕ)
      (ad : Data) (w : Areas Data Packed) (out : Data)
      → w.area_data (place pos index) ≡ some ad
      → (adapt setup tgs name pos index ad w).1 ≡ some out
      → (adapt setup tgs name pos index ad w).0.area_data (place pos index) ≡ some out
  unfolding adapt
  adapt_kept [] name pos index ad w out here made = here ∙ made
  adapt_kept (tg ∷ tgs) name pos index ad w out here made =
      elim (Option-cases (tg name pos ad w).1) [
        | inl thrown ↦ absurd (cc (rw (thrown, adapt) at made))
        | inr (next, given) ↦
            let w' = entered setup pos index next (tg name pos ad w).0 in
            rw (given, adapt)
              (adapt_kept tgs name pos index next w' out
                (put_self chunk_discrete (place pos index) next (tg name pos ad w).0.area_data)
                (rw (given, adapt) at made))
      ]

  store_area_kept :
      (g : AreaGenerator Data) (pos : MapCoordinates) (index : ℕ) (ad : Data)
      (w : Areas Data Packed)
      → (store_area setup g pos index ad w).area_data ≡ w.area_data
  unfolding store_area
  store_area_kept g pos index ad w = elim (Bool-cases g.should_write_to_file) [
    | inl writes ↦ rw (writes, store_area) refl
    | inr keeps ↦ rw (keeps, store_area) refl
  ]

  -- Area data that were made are in memory, and in the database if their generator says so.
  pub made_kept :
      (g : AreaGenerator Data) (pos : MapCoordinates) (index : ℕ) (w : Areas Data Packed)
      (ad : Data)
      → (make_area_data setup g pos index w).1 ≡ some ad
      → ((make_area_data setup g pos index w).0.area_data (place pos index) ≡ some ad)
        × (g.should_write_to_file ≡ true
            → (make_area_data setup g pos index w).0.stored_areas (place pos index)
              ≡ some (pack ad))
  unfolding make_area_data store_area
  made_kept g pos index w ad made =
      let new = g.generate pos in
      let start = entered setup pos index new w in
      let r = adapt setup terraingen g.name pos index new start in
      elim (Option-cases r.1) [
        | inl thrown ↦ absurd (cc (rw (thrown, make_area_data) at made))
        | inr (out, given) ↦
            let same : out ≡ ad = cc (rw (given, make_area_data) at made) in
            let here =
              adapt_kept terraingen g.name pos index new start out
                (put_self chunk_discrete (place pos index) new w.area_data) given in
            rw (given, make_area_data)
              (
                ap (λ t. t (place pos index)) (store_area_kept g pos index out r.0)
                    ∙ here
                    ∙ ap some same,
                λ writes. rw writes (
                    put_self chunk_discrete (place pos index) (pack out) r.0.stored_areas
                    ∙ ap (λ x. some (pack x)) same),
              )
      ]

  module _ (pos : MapCoordinates) (index : ℕ) (w : Areas Data Packed) where
    pub area_in_memory :
        (ad : Data)
        → w.area_data (place pos index) ≡ some ad
        → get_area_data_writable setup pos index w ≡ (w, some ad)
    unfolding get_area_data_writable
    area_in_memory ad here = rw (here, get_area_data_writable)

    pub area_in_database :
        (x : Packed) (ad : Data)
        → w.area_data (place pos index) ≡ none
        → w.stored_areas (place pos index) ≡ some x
        → unpack_as x ≡ some ad
        → get_area_data_writable setup pos index w ≡ (entered setup pos index ad w, some ad)
    unfolding get_area_data_writable
    area_in_database x ad away there back = rw (away, there, get_area_data_writable) (rw back refl)

    pub area_spoiled :
        (x : Packed)
        → w.area_data (place pos index) ≡ none
        → w.stored_areas (place pos index) ≡ some x
        → unpack_as x ≡ none
        → get_area_data_writable setup pos index w ≡ (entered setup pos index new_data w, none)
    unfolding get_area_data_writable
    area_spoiled x away there bad = rw (away, there, get_area_data_writable) (rw bad refl)

    pub area_refused :
        w.area_data (place pos index) ≡ none
        → w.stored_areas (place pos index) ≡ none
        → generator_at areagen index ≡ none
        → get_area_data_writable setup pos index w ≡ (entered setup pos index new_data w, none)
    unfolding get_area_data_writable
    area_refused away nowhere out = rw (away, nowhere, out, get_area_data_writable)

    pub area_made :
        (g : AreaGenerator Data)
        → w.area_data (place pos index) ≡ none
        → w.stored_areas (place pos index) ≡ none
        → generator_at areagen index ≡ some g
        → get_area_data_writable setup pos index w ≡ make_area_data setup g pos index w
    unfolding get_area_data_writable
    area_made g away nowhere in_range = rw (away, nowhere, in_range, get_area_data_writable)
