-- ===== src/World/Invariant/Column.antt =====
-- The heights of hexa/server/world.cpp, in memory and in the database, and the operations on them.
use hexahedra.Base.{
  ℕ, ◌+◌, ◌%◌, ◌^◌, ◌≤◌, ◌<◌, ◌≡◌, ◌≢◌, refl, ◌∙◌, inl, inr, true, false, none, some, arith,
  if◌then◌else◌, Bool-cases, Option-cases,
}
use hexahedra.World.Heights.{
  ChunkCoordinates, MapCoordinates, undefined_height, chunk_world_limit,
  needs_chunk_height_adjustment, IsLegal, is_legal_chunk_coordinate,
}
use hexahedra.Base.Table.{Table, put, put_self, put_ne, put_cases}
use hexahedra.World.State.{
  World, Setup, map_discrete, column, generate_coarse_height, set_coarse_height, get_coarse_height,
  adjust_coarse_height,
}

abbrev Heights : Type 0
Heights = Table MapCoordinates ℕ

-- There is a height for the chunk's column, and the chunk lies below it.
abbrev pub Below : Table MapCoordinates ℕ → ChunkCoordinates → Type 0
Below heights p = (h : ℕ) × (heights (column p) ≡ some h) × (p.z < h)

-- No height is lost or lowered.
abbrev pub Grows : Table MapCoordinates ℕ → Table MapCoordinates ℕ → Type 0
Grows heights heights' =
    (m : MapCoordinates) (h : ℕ) → heights m ≡ some h → (h' : ℕ) × (heights' m ≡ some h') × (h ≤ h')

pub Grows-refl : (t : Heights) → Grows t t
Grows-refl t m h e = (h, e, omega arith)

pub Grows-trans : (t t' t'' : Heights) → Grows t t' → Grows t' t'' → Grows t t''
Grows-trans t t' t'' g g' m h e =
    let (h', e', le) = g m h e in let (h'', e'', le') = g' m h' e' in (h'', e'', omega arith)

pub Below-Grows : (t t' : Heights) (p : ChunkCoordinates) → Grows t t' → Below t p → Below t' p
Below-Grows t t' p g (h, e, lt) = let (h', e', le) = g (column p) h e in (h', e', omega arith)

put-Grows :
    (m : MapCoordinates) (z : ℕ) (t : Heights)
    → ((h : ℕ) → t m ≡ some h → h ≤ z)
    → Grows t (put map_discrete m z t)
put-Grows m z t raised k h e = elim (map_discrete k m) [
  | yes here ↦ (z, rw here (put_self map_discrete m z t), raised h (rw here at e))
  | no away ↦ (h, put_ne map_discrete m k z t away ∙ e, omega arith)
]

-- Heights in memory are those of the database, and all heights are known.
pub record HasHeights {Chunk Packed : Type 0} (w : World Chunk Packed) : Type 0 where
  pub same_height :
      (m : MapCoordinates) (h : ℕ) → w.coarse_heights m ≡ some h → w.stored_heights m ≡ some h
  pub known : (m : MapCoordinates) (h : ℕ) → w.stored_heights m ≡ some h → h ≢ undefined_height

module _ {Chunk Packed : Type 0} (w : World Chunk Packed) (s : HasHeights w) where
  set_coarse_height-HasHeights :
      (pos : ChunkCoordinates)
      → pos.z ≢ undefined_height
      → ((h : ℕ) → w.stored_heights (column pos) ≡ some h → h ≤ pos.z)
      → HasHeights (set_coarse_height pos w).0
  unfolding set_coarse_height
  set_coarse_height-HasHeights pos known raised = record {
    same_height = λ m h e. elim (put_cases map_discrete (column pos) m pos.z h w.coarse_heights e) [
      | inl (here, written) ↦ rw (here, written) (put_self map_discrete _ _ _)
      | inr (away, there) ↦
          put_ne map_discrete (column pos) m pos.z w.stored_heights away ∙ s.same_height m h there
    ];
    known = λ m h e. elim (put_cases map_discrete (column pos) m pos.z h w.stored_heights e) [
      | inl (here, written) ↦ rw written known
      | inr (away, there) ↦ s.known m h there
    ];
  }

  -- A height of the database is copied into memory.
  cached-HasHeights :
      (m : MapCoordinates) (h : ℕ)
      → w.stored_heights m ≡ some h
      → HasHeights (record w { coarse_heights = put map_discrete m h w.coarse_heights })
  cached-HasHeights m h stored = record {
    same_height = λ k v e. elim (put_cases map_discrete m k h v w.coarse_heights e) [
      | inl (here, written) ↦ rw (here, written) stored
      | inr (away, there) ↦ s.same_height k v there
    ];
    known = s.known;
  }

-- What an operation on the heights leaves behind: the same chunks, heights that have not fallen,
-- and the height `h` for the column `m`.
pub record HeightAt {Chunk Packed : Type 0} (w w' : World Chunk Packed) (m : MapCoordinates) (h : ℕ)
    : Type 0 where
  pub sound : HasHeights w'
  pub height : w'.stored_heights m ≡ some h
  pub grows : Grows w.stored_heights w'.stored_heights
  pub same_chunks : w'.chunks ≡ w.chunks
  pub same_stored : w'.stored_chunks ≡ w.stored_chunks

pub legal_z : (p : ChunkCoordinates) → IsLegal p → p.z < chunk_world_limit
unfolding is_legal_chunk_coordinate
legal_z p legal = ground arith

too_low :
    (pos : ChunkCoordinates) (h : ℕ)
    → needs_chunk_height_adjustment pos h ≡ true
    → h ≢ undefined_height
    → h ≤ pos.z
unfolding needs_chunk_height_adjustment
too_low pos h low known = ground arith

high_enough :
    (pos : ChunkCoordinates) (h : ℕ) → needs_chunk_height_adjustment pos h ≡ false → pos.z < h
unfolding needs_chunk_height_adjustment
high_enough pos h high = ground arith

-- The height of a column is set above the chunk that was at or above it.
raised :
    {Chunk Packed : Type 0} {w : World Chunk Packed} (pos : ChunkCoordinates) (z : ℕ)
    (w' : World Chunk Packed) (current : ℕ)
    → HeightAt w w' (column pos) current
    → current ≤ z
    → z ≢ undefined_height
    → HeightAt w (set_coarse_height (record pos { z = z }) w').0 (column pos) z
unfolding set_coarse_height
raised {w} pos z w' current found low known =
    let above : (h : ℕ) → w'.stored_heights (column pos) ≡ some h → h ≤ z =
      λ h e. let same : h ≡ current = cc found.height in omega arith in
    record {
      sound = set_coarse_height-HasHeights w' found.sound (record pos { z = z }) known above;
      height = put_self map_discrete (column pos) z w'.stored_heights;
      grows =
          Grows-trans w.stored_heights w'.stored_heights _ found.grows
            (put-Grows (column pos) z w'.stored_heights above);
      same_chunks = found.same_chunks;
      same_stored = found.same_stored;
    }

-- The second half of an adjustment, from the height that was found.
adjusted :
    {Chunk Packed : Type 0} {w : World Chunk Packed} (pos : ChunkCoordinates)
    → IsLegal pos
    → (w' : World Chunk Packed) (current : ℕ) → HeightAt w w' (column pos) current
    → (h : ℕ) × HeightAt w
        (if needs_chunk_height_adjustment pos current
          then (set_coarse_height (record pos { z = (pos.z + 1) % 2 ^ 32 }) w').0
          else w')
        (column pos)
        h
      × (pos.z < h)
adjusted pos legal w' current found =
    elim (Bool-cases (needs_chunk_height_adjustment pos current)) [
      | inl low ↦
          let known = found.sound.known (column pos) current found.height in
          rw low (
            (pos.z + 1) % 2 ^ 32,
            raised pos ((pos.z + 1) % 2 ^ 32) w' current found
                (omega (arith, legal_z pos legal, too_low pos current low known))
                (omega (arith, legal_z pos legal)),
            omega (arith, legal_z pos legal),
          )
      | inr high ↦ rw high (current, found, high_enough pos current high)
    ]

module _ {Chunk Packed : Type 0} (setup : Setup Chunk Packed) where
  generate_coarse_height-known :
      (m : MapCoordinates) → generate_coarse_height setup m ≢ undefined_height
  unfolding generate_coarse_height
  generate_coarse_height-known m = ground arith

  module _ (w : World Chunk Packed) (s : HasHeights w) where
    -- A height that is found nowhere is generated.
    generated :
        (m : MapCoordinates)
        → w.stored_heights m ≡ none
        → HeightAt w
            (set_coarse_height
              (record { x = m.x; y = m.y; z = generate_coarse_height setup m })
              w).0
            m
            (generate_coarse_height setup m)
    unfolding set_coarse_height
    generated m unknown =
        let z = generate_coarse_height setup m in
        record {
          sound =
              set_coarse_height-HasHeights w s (record { x = m.x; y = m.y; z = z })
                (generate_coarse_height-known m) (λ h e. absurd (cc unknown));
          height = put_self map_discrete m z w.stored_heights;
          grows = put-Grows m z w.stored_heights (λ h e. absurd (cc unknown));
          same_chunks = refl;
          same_stored = refl;
        }

    -- Whether the height was in memory, in the database or in neither, it is in the database now.
    pub get_coarse_height-HeightAt :
        (m : MapCoordinates)
        → HeightAt w (get_coarse_height setup m w).0 m (get_coarse_height setup m w).1
    unfolding get_coarse_height
    get_coarse_height-HeightAt m = elim (Option-cases (w.coarse_heights m)) [
      | inr (h, cached) ↦
          rw (cached, get_coarse_height)
            (record {
              sound = s;
              height = s.same_height m h cached;
              grows = Grows-refl w.stored_heights;
              same_chunks = refl;
              same_stored = refl;
            })
      | inl new ↦ elim (Option-cases (w.stored_heights m)) [
        | inr (h, stored) ↦
            rw (new, stored, get_coarse_height)
              (record {
                sound = cached-HasHeights w s m h stored;
                height = stored;
                grows = Grows-refl w.stored_heights;
                same_chunks = refl;
                same_stored = refl;
              })
        | inl unknown ↦ rw (new, unknown, get_coarse_height) (generated m unknown)
      ]
    ]

    -- After the adjustment the world holds the same chunks, and the chunk at `pos` lies below the
    -- height of its column.
    pub adjust_coarse_height-HeightAt :
        (pos : ChunkCoordinates)
        → IsLegal pos
        → (h : ℕ) × HeightAt w (adjust_coarse_height setup pos w) (column pos) h × (pos.z < h)
    unfolding adjust_coarse_height
    adjust_coarse_height-HeightAt pos legal =
        let found = get_coarse_height-HeightAt (column pos) in
        adjusted pos legal (get_coarse_height setup (column pos) w).0
          (get_coarse_height setup (column pos) w).1 found
