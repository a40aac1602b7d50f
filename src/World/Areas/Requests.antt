-- ===== src/World/Areas/Requests.antt =====
-- What requests for area data give: after a restart, and for an index out of range.
use hexahedra.Base.{
  ℕ, ◌%◌, ◌^◌, ◌≤◌, ◌<◌, ◌≡◌, refl, sym, ap, ◌∙◌, inl, inr, true, false, Option, none, some, arith,
  ltb, Option-cases, length,
}
use hexahedra.World.Heights.{MapCoordinates}
use hexahedra.Base.Table.{put_self}
use std.Path.{subst}
use hexahedra.World.State.{chunk_discrete}
use hexahedra.World.Areas.{
  AreaGenerator, AreaSetup, Areas, generator_at, get_area_data_writable, try_get_area_data,
  make_area_data, entered,
}
use hexahedra.World.Areas.Branches.{
  place, generator_at_out, area_in_memory, area_in_database, area_spoiled, area_refused, area_made,
  made_kept,
}

-- A new start: no area data are in memory.
abbrev pub forget : {Data Packed : Type 0} → Areas Data Packed → Areas Data Packed
forget w = record w { area_data = λ p. none }

module _ {Data Packed : Type 0} (setup : AreaSetup Data Packed) where
  open setup use {areagen, new_data, pack, unpack_as}

  -- For an index that no generator has, and a place that is neither in memory nor in the database,
  -- the first request is refused, and the second one gives new area data.
  pub get_area_data_refused :
      (pos : MapCoordinates) (index : ℕ) (w : Areas Data Packed)
      → length areagen ≤ index
      → w.area_data (place pos index) ≡ none
      → w.stored_areas (place pos index) ≡ none
      → ((get_area_data_writable setup pos index w).1 ≡ none)
        × ((get_area_data_writable setup pos index (get_area_data_writable setup pos index w).0).1
            ≡ some new_data)
  get_area_data_refused pos index w le away nowhere =
      let eq = area_refused setup pos index w away nowhere (generator_at_out areagen index le) in
      (
        ap (λ r. r.1) eq,
        rw eq (
            ap (λ r. r.1)
              (area_in_memory setup pos index (entered setup pos index new_data w) new_data
                (put_self chunk_discrete (place pos index) new_data w.area_data))),
      )

  -- Area data whose generator is one that is written to the database: where what is packed unpacks
  -- to what it was, what a request gives that does not find them in memory is given again after a
  -- restart, whatever the terrain generators read, change or make on the way.
  pub get_area_data_restart :
      (pos : MapCoordinates) (index : ℕ) (w : Areas Data Packed) (g : AreaGenerator Data)
      (ad : Data)
      → generator_at areagen index ≡ some g
      → g.should_write_to_file ≡ true
      → ((c : Data) → unpack_as (pack c) ≡ some c)
      → w.area_data (place pos index) ≡ none
      → (get_area_data_writable setup pos index w).1 ≡ some ad
      → (get_area_data_writable setup pos index
          (forget (get_area_data_writable setup pos index w).0)).1
        ≡ some ad
  get_area_data_restart pos index w g ad in_range writes law away given =
      elim (Option-cases (w.stored_areas (place pos index))) [
        | inr (x, there) ↦ elim (Option-cases (unpack_as x)) [
          | inl bad ↦
              let eq = area_spoiled setup pos index w x away there bad in
              absurd (cc (sym (ap (λ r. r.1) eq) ∙ given))
          | inr (c, back) ↦
              let eq = area_in_database setup pos index w x c away there back in
              rw eq (
                ap (λ r. r.1)
                  (area_in_database setup pos index (forget (entered setup pos index c w)) x c refl
                    there back)
                ∙ sym (ap (λ r. r.1) eq)
                ∙ given)
        ]
        | inl nowhere ↦
            let eq = area_made setup pos index w g away nowhere in_range in
            let made = sym (ap (λ r. r.1) eq) ∙ given in
            let (_, stored) = made_kept setup g pos index w ad made in
            rw eq (
              ap (λ r. r.1)
                (area_in_database setup pos index (forget (make_area_data setup g pos index w).0)
                  (pack ad) ad refl (stored writes) (law ad)))
      ]

  -- An index that passes the test of `try_get_area_data`, and fits in 16 bits.
  try_get_passed :
      (pos : MapCoordinates) (i : ℕ) (w : Areas Data Packed) (r : Option Data)
      → i ≤ length areagen
      → i < 2 ^ 16
      → (get_area_data_writable setup pos i w).1 ≡ r
      → (try_get_area_data setup pos (some i) w).1
        ≡ elim r [ none ↦ none | some ad ↦ some (some ad) ]
  unfolding try_get_area_data
  try_get_passed pos i w r le fits given =
      let in_range : ltb (length areagen) i ≡ false = ground arith in
      let same : i % 2 ^ 16 ≡ i = omega arith in
      rw (in_range, try_get_area_data)
        ((ap
          (λ (x : Option Data). elim x as (λ y. Option (Option Data)) [
            | none ↦ none
            | some ad ↦ some (some ad)
          ])
          (subst (λ k. (get_area_data_writable setup pos k w).1 ≡ r) (sym same) given)))

  -- With fewer than 2^16 generators, an index one past the last generator is not told apart from
  -- the valid ones: at a place that is neither in memory nor in the database the request throws.
  pub try_get_area_data_end :
      (pos : MapCoordinates) (w : Areas Data Packed)
      → length areagen < 2 ^ 16
      → w.area_data (place pos (length areagen)) ≡ none
      → w.stored_areas (place pos (length areagen)) ≡ none
      → (try_get_area_data setup pos (some (length areagen)) w).1 ≡ none
  unfolding try_get_area_data
  try_get_area_data_end pos w few away nowhere =
      let (refused, _) = get_area_data_refused pos (length areagen) w (omega arith) away nowhere in
      try_get_passed pos (length areagen) w none (omega arith) few refused
