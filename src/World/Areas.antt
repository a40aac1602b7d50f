-- ===== src/World/Areas.antt =====
-- Area data of hexa/server/world.cpp, and how terrain generators reach it through
-- hexa/server/world_terraingen_access.cpp.
use hexahedra.Base.{
  ℕ, ◌+◌, ◌%◌, ◌^◌, ◌≤◌, ◌<◌, ◌≡◌, ◌≢◌, ◌⊎◌, refl, sym, ap, ◌∙◌, inl, inr, Bool, true, false, not,
  Option, none, some, arith, ltb, leb, if◌then◌else◌, Bool-cases, Option-cases, List, [], ◌∷◌,
  length, zero, suc,
}
use hexahedra.Wire.Points.{Vector3}
use hexahedra.Wire.Sequences.{Text}
use hexahedra.World.Heights.{ChunkCoordinates, MapCoordinates}
use hexahedra.Base.Table.{Table, put, put_self}
use hexahedra.World.State.{chunk_discrete}
use mathlib.Core.Logic.{ite}
use native.Mathlib.Decide.{ℕ_discrete}
pub mod Branches
pub mod Requests
mod Tests

pub text_discrete : Discrete Text
text_discrete = hlevel ℕ_discrete

-- An area generator, with what its three virtual functions give.
pub record AreaGenerator (Data : Type 0) : Type 0 where
  pub name : Text
  pub generate : MapCoordinates → Data
  pub should_write_to_file : Bool

-- Area data in memory and in the database, by column and index.
pub record Areas (Data Packed : Type 0) : Type 0 where
  pub area_data : Table (Vector3 ℕ) Data
  pub stored_areas : Table (Vector3 ℕ) Packed

-- A terrain generator works on area data, by the name of their generator. Through its
-- `world_terraingen_access` it may read and change the other area data, and make more of them; no
-- result is an exception.
abbrev pub TerrainGenerator : Type 0 → Type 0 → Type 0
TerrainGenerator Data Packed =
    Text → MapCoordinates → Data → Areas Data Packed → Areas Data Packed × Option Data

-- What area data are made with. Unpacking throws where it gives `none`.
pub record AreaSetup (Data Packed : Type 0) : Type 0 where
  pub areagen : List (AreaGenerator Data)
  pub terraingen : List (TerrainGenerator Data Packed)
  pub new_data : Data
  pub pack : Data → Packed
  pub unpack_as : Packed → Option Data

module _ {Data : Type 0} where
  -- The loop of `find_area_generator`; `index` is `none` for a negative number.
  unfoldable pub find_from : Text → List (AreaGenerator Data) → ℕ → Option ℕ
  find_from name [] index = none
  find_from name (g ∷ gs) index =
      ite (text_discrete g.name name) (some index) (find_from name gs (index + 1))

  unfoldable pub find_area_generator : Text → List (AreaGenerator Data) → Option ℕ
  unfolding find_from
  find_area_generator name gens = find_from name gens 0

  -- `areagen_[index]`, with the test of the index before it.
  unfoldable pub generator_at : List (AreaGenerator Data) → ℕ → Option (AreaGenerator Data)
  generator_at [] index = none
  generator_at (g ∷ gs) zero = some g
  generator_at (g ∷ gs) (suc index) = generator_at gs index

module _ {Data Packed : Type 0} (setup : AreaSetup Data Packed) where
  open setup use {areagen, terraingen, new_data, pack, unpack_as}

  -- Area data at a place, in memory.
  abbrev pub entered : MapCoordinates → ℕ → Data → Areas Data Packed → Areas Data Packed
  entered pos2d index ad w = record w {
    area_data = put chunk_discrete (record { x = pos2d.x; y = pos2d.y; z = index }) ad w.area_data;
  }

  -- The terrain generators work in turn on new area data, which are in memory already.
  unfoldable pub adapt :
      List (TerrainGenerator Data Packed)
      → Text
      → MapCoordinates
      → ℕ
      → Data
      → Areas Data Packed
      → Areas Data Packed × Option Data
  adapt [] name pos2d index ad w = (w, some ad)
  adapt (tg ∷ tgs) name pos2d index ad w =
      let (w', made) = tg name pos2d ad w in
      elim made [
        | none ↦ (w', none)
        | some next ↦ adapt tgs name pos2d index next (entered pos2d index next w')
      ]

  -- `storage_.store`, for a generator that says so
  unfoldable pub store_area :
      AreaGenerator Data → MapCoordinates → ℕ → Data → Areas Data Packed → Areas Data Packed
  store_area generator pos2d index ad w =
      if generator.should_write_to_file
      then record w {
        stored_areas =
            put chunk_discrete (record { x = pos2d.x; y = pos2d.y; z = index }) (pack ad)
              w.stored_areas;
      }
      else w

  -- The last part of `get_area_data_writable`: a generator makes the area data.
  unfoldable pub make_area_data :
      AreaGenerator Data → MapCoordinates → ℕ → Areas Data Packed → Areas Data Packed × Option Data
  unfolding adapt store_area
  make_area_data generator pos2d index w =
      let new = generator.generate pos2d in
      let (w', made) =
        adapt terraingen generator.name pos2d index new (entered pos2d index new w) in
      elim made [ none ↦ (w', none) | some ad ↦ (store_area generator pos2d index ad w', some ad) ]

  -- `get_area_data_writable`; no data is `std::out_of_range`, or an exception of the unpacking or
  -- of a terrain generator. All of them leave the entry that `area_data_[pos]` has made.
  unfoldable pub get_area_data_writable :
      MapCoordinates → ℕ → Areas Data Packed → Areas Data Packed × Option Data
  unfolding generator_at make_area_data
  get_area_data_writable pos2d index w =
      elim (w.area_data (record { x = pos2d.x; y = pos2d.y; z = index })) [
        | some ad ↦ (w, some ad)
        | none ↦ elim (w.stored_areas (record { x = pos2d.x; y = pos2d.y; z = index })) [
          | some compressed ↦ elim (unpack_as compressed) [
            | none ↦ (entered pos2d index new_data w, none)
            | some ad ↦ (entered pos2d index ad w, some ad)
          ]
          | none ↦ elim (generator_at areagen index) [
            | none ↦ (entered pos2d index new_data w, none)
            | some generator ↦ make_area_data generator pos2d index w
          ]
        ]
      ]

  -- `try_get_area_data`: no area data, for an index out of range, is told apart from the exception.
  unfoldable pub try_get_area_data :
      MapCoordinates → Option ℕ → Areas Data Packed → Areas Data Packed × Option (Option Data)
  unfolding get_area_data_writable
  try_get_area_data pos none w = (w, some none)
  try_get_area_data pos (some index) w =
      if ltb (length areagen) index
      then (w, some none)
      else (let (w', found) = get_area_data_writable pos (index % 2 ^ 16) w in
          (w', elim found [ none ↦ none | some ad ↦ some (some ad) ]))
