-- ===== src/World/Surfaces/Reads.antt =====
-- The reads of surfaces and chunks in hexa/server/world.cpp run without a failure.
use hexahedra.Base.{
  ℕ, ◌≡◌, ◌≢◌, refl, ap, ◌∙◌, inl, inr, Option, none, some, Bool, true, ltb, ◌&&◌, arith,
}
use hexahedra.Base.Table.{Table, put, put_cases}
use hexahedra.World.Heights.{
  ChunkCoordinates, chunk_world_limit, is_air_chunk, is_legal_chunk_coordinate, IsLegal,
}
use hexahedra.World.State.{World, chunk_discrete, column, get_coarse_height, get_chunk}
use hexahedra.World.Invariant.Column.{HasHeights, get_coarse_height-HeightAt}
use hexahedra.Surface.{Blocks}
use hexahedra.World.Surfaces.State.{
  SurfaceData, SceneSetup, Scene, Step, give, ◌>>=◌, on_world, check_column, check_place,
  reach_chunk, is_air_at,
}
use hexahedra.World.Surfaces.Steady.{
  Steady, Steady-refl, Steady-trans, get_coarse_height-Steady, get_chunk-Steady,
}

-- Everything that the database has can be unpacked.
abbrev pub Unpacks :
    {Packed A : Type 0} → (Packed → Option A) → Table ChunkCoordinates Packed → Type 0
Unpacks {A = A} unpack stored =
    (p : ChunkCoordinates) (x : _) → stored p ≡ some x → (a : A) × (unpack x ≡ some a)

pub put-Unpacks :
    {Packed A : Type 0} (unpack : Packed → Option A) (stored : Table ChunkCoordinates Packed)
    (p : ChunkCoordinates) (x : Packed) (a : A)
    → unpack x ≡ some a
    → Unpacks unpack stored
    → Unpacks unpack (put chunk_discrete p x stored)
put-Unpacks unpack stored p x a back before q y e =
    elim (put_cases chunk_discrete p q x y stored e) [
      | inl (_, same) ↦ (a, ap unpack same ∙ back)
      | inr (_, there) ↦ before q y there
    ]

pub check_place-runs :
    {S : Type 0} (p : ChunkCoordinates) (s : S) → IsLegal p → check_place p s ≡ (s, some tt)
unfolding check_place
check_place-runs p s legal = rw legal refl

pub check_column-runs :
    {S : Type 0} (p : ChunkCoordinates) (s : S) → IsLegal p → check_column p s ≡ (s, some tt)
unfolding check_column is_legal_chunk_coordinate
check_column-runs p s legal =
    let inside : (ltb p.x chunk_world_limit && ltb p.y chunk_world_limit) ≡ true = ground arith in
    rw inside refl

module _ {Light Packed : Type 0} where
  -- The answer is that for the height that the database has from then on.
  abbrev pub AirAt : ChunkCoordinates → Bool → Scene Light Packed → Type 0
  AirAt p air s = (h : ℕ) × (s.world.stored_heights (column p) ≡ some h) × (is_air_chunk p h ≡ air)

  -- What a read leaves alone: the light maps, but for one that is being made, the heights that are
  -- known, the surfaces that are there, and the news of changes.
  pub record Quiet (lit : Option ChunkCoordinates) (s s' : Scene Light Packed) : Type 0 where
    pub steady : Steady s.world s'.world
    pub same_lightmaps : (q : ChunkCoordinates) → lit ≢ some q → s'.lightmaps q ≡ s.lightmaps q
    pub same_stored_lightmaps : s'.stored_lightmaps ≡ s.stored_lightmaps
    pub same_updates : s'.surface_updates ≡ s.surface_updates
    pub surfaces_kept :
        (p : ChunkCoordinates) (srf : SurfaceData)
        → s.surfaces p ≡ some srf
        → s'.surfaces p ≡ some srf
    pub stored_kept :
        (p : ChunkCoordinates) (x : Packed)
        → s.stored_surfaces p ≡ some x
        → s'.stored_surfaces p ≡ some x

  pub Quiet-trans :
      {lit : Option ChunkCoordinates} {s s' s'' : Scene Light Packed}
      → Quiet lit s s'
      → Quiet lit s' s''
      → Quiet lit s s''
  Quiet-trans a b = record {
    steady = Steady-trans a.steady b.steady;
    same_lightmaps = λ q ne. b.same_lightmaps q ne ∙ a.same_lightmaps q ne;
    same_stored_lightmaps = b.same_stored_lightmaps ∙ a.same_stored_lightmaps;
    same_updates = b.same_updates ∙ a.same_updates;
    surfaces_kept = λ p srf e. b.surfaces_kept p srf (a.surfaces_kept p srf e);
    stored_kept = λ p x e. b.stored_kept p x (a.stored_kept p x e);
  }

  pub then_runs :
      {A B : Type 0} (m : Step (Scene Light Packed) A) (f : A → Step (Scene Light Packed) B)
      (s s' : Scene Light Packed) (a : A)
      → m s ≡ (s', some a)
      → (m >>= f) s ≡ f a s'
  unfolding ◌>>=◌
  then_runs {A = A} {B = B} m f s s' a e =
      ap
        (λ (r : Scene Light Packed × Option A). elim r.1 as (λ x. Scene Light Packed × Option B) [
          | none ↦ (r.0, none)
          | some b ↦ f b r.0
        ])
        e

module _ {Light Packed : Type 0} (setup : SceneSetup Light Packed)
    (hole : Option ChunkCoordinates) where
  open setup use {unpack_surface}

  -- The heights are in order, and the database has every surface that is in memory, but for one
  -- that is being made; and every surface in it can be unpacked.
  pub record IsReady (s : Scene Light Packed) : Type 0 where
    pub heights : HasHeights s.world
    pub surfaces_stored :
        (p : ChunkCoordinates) (srf : SurfaceData)
        → hole ≢ some p
        → s.surfaces p ≡ some srf
        → (x : Packed) × (s.stored_surfaces p ≡ some x) × (unpack_surface x ≡ some srf)
    pub unpacks : Unpacks unpack_surface s.stored_surfaces

  -- A read that gives a value, of which something holds.
  pub record IsRead (lit : Option ChunkCoordinates) {A : Type 0} (m : Step (Scene Light Packed) A)
      (s : Scene Light Packed) (Holds : A → Scene Light Packed → Type 0) : Type 0 where
    pub value : A
    pub final : Scene Light Packed
    pub runs : m s ≡ (final, some value)
    pub quiet : Quiet lit s final
    pub ready : IsReady final
    pub holds : Holds value final

module _ {Light Packed : Type 0} {setup : SceneSetup Light Packed}
    {hole lit : Option ChunkCoordinates} where
  pub Quiet-refl : {s : Scene Light Packed} → IsReady setup hole s → Quiet lit s s
  Quiet-refl ready = record {
    steady = Steady-refl ready.heights;
    same_lightmaps = λ q ne. refl;
    same_stored_lightmaps = refl;
    same_updates = refl;
    surfaces_kept = λ p srf e. e;
    stored_kept = λ p x e. e;
  }

  pub give-IsRead :
      {A : Type 0} {Holds : A → Scene Light Packed → Type 0} (a : A) (s : Scene Light Packed)
      → IsReady setup hole s
      → Holds a s
      → IsRead setup hole lit (give a) s Holds
  give-IsRead a s ready holds = record {
    value = a;
    final = s;
    runs = refl;
    quiet = Quiet-refl ready;
    ready = ready;
    holds = holds;
  }

  pub then-IsRead :
      {A B : Type 0} {m : Step (Scene Light Packed) A} {s : Scene Light Packed}
      {Holds : A → Scene Light Packed → Type 0} {Then : B → Scene Light Packed → Type 0}
      (f : A → Step (Scene Light Packed) B) (first : IsRead setup hole lit m s Holds)
      → IsRead setup hole lit (f first.value) first.final Then
      → IsRead setup hole lit (m >>= f) s Then
  then-IsRead {m = m} {s = s} f first second = record {
    value = second.value;
    final = second.final;
    runs = then_runs m f s first.final first.value first.runs ∙ second.runs;
    quiet = Quiet-trans first.quiet second.quiet;
    ready = second.ready;
    holds = second.holds;
  }

  -- A step that does the same is a read as well.
  pub same-IsRead :
      {A : Type 0} {m : Step (Scene Light Packed) A} (m' : Step (Scene Light Packed) A)
      {s : Scene Light Packed} {Holds : A → Scene Light Packed → Type 0}
      → m' s ≡ m s
      → IsRead setup hole lit m s Holds
      → IsRead setup hole lit m' s Holds
  same-IsRead m' same r = record {
    value = r.value;
    final = r.final;
    runs = same ∙ r.runs;
    quiet = r.quiet;
    ready = r.ready;
    holds = r.holds;
  }

  -- A read behind an assert that holds.
  pub checked-IsRead :
      {A : Type 0} {s : Scene Light Packed} {Holds : A → Scene Light Packed → Type 0}
      (check : Step (Scene Light Packed) Unit) (m : Step (Scene Light Packed) A)
      → check s ≡ (s, some tt)
      → IsRead setup hole lit m s Holds
      → IsRead setup hole lit (check >>= λ _. m) s Holds
  checked-IsRead {s = s} check m passes r = same-IsRead _ (then_runs check (λ _. m) s s tt passes) r

  -- Something else holds of the outcome.
  pub map-IsRead :
      {A : Type 0} {m : Step (Scene Light Packed) A} {s : Scene Light Packed}
      {Holds Then : A → Scene Light Packed → Type 0} (r : IsRead setup hole lit m s Holds)
      → Then r.value r.final
      → IsRead setup hole lit m s Then
  map-IsRead r holds = record {
    value = r.value;
    final = r.final;
    runs = r.runs;
    quiet = r.quiet;
    ready = r.ready;
    holds = holds;
  }

  -- A step of the world that keeps the heights that are known.
  pub on_world-IsRead :
      {A : Type 0} (f : World Blocks Packed → World Blocks Packed × A) (s : Scene Light Packed)
      {Holds : A → Scene Light Packed → Type 0}
      → IsReady setup hole s
      → Steady s.world (f s.world).0
      → Holds (f s.world).1 (record s { world = (f s.world).0 })
      → IsRead setup hole lit (on_world f) s Holds
  on_world-IsRead f s ready steady holds = record {
    value = (f s.world).1;
    final = record s { world = (f s.world).0 };
    runs = refl;
    quiet = record {
      steady = steady;
      same_lightmaps = λ q ne. refl;
      same_stored_lightmaps = refl;
      same_updates = refl;
      surfaces_kept = λ p srf e. e;
      stored_kept = λ p x e. e;
    };
    ready = record {
      heights = steady.heights;
      surfaces_stored = ready.surfaces_stored;
      unpacks = ready.unpacks;
    };
    holds = holds;
  }

module _ {Light Packed : Type 0} (setup : SceneSetup Light Packed)
    {hole lit : Option ChunkCoordinates} where
  open setup use {chunks}

  pub reach_chunk-IsRead :
      (p : ChunkCoordinates) (s : Scene Light Packed)
      → IsReady setup hole s
      → IsLegal p
      → IsRead setup hole lit (reach_chunk setup p) s (λ c s'. Unit)
  unfolding reach_chunk
  reach_chunk-IsRead p s ready legal =
      let read : IsRead setup hole lit (on_world (get_chunk chunks p)) s (λ c s'. Unit) =
        on_world-IsRead (get_chunk chunks p) s ready
          (get_chunk-Steady chunks s.world p ready.heights) tt in
      same-IsRead _
        (then_runs (check_column p) _ s s tt (check_column-runs p s legal) ∙ rw legal refl) read

  pub is_air_at-IsRead :
      (p : ChunkCoordinates) (s : Scene Light Packed)
      → IsReady setup hole s
      → IsLegal p
      → IsRead setup hole lit
          (is_air_at setup p)
          s
          (λ air s'. AirAt p air s' × (s'.surfaces ≡ s.surfaces))
  unfolding is_air_at
  is_air_at-IsRead p s ready legal =
      let height : IsRead setup hole lit (on_world (get_coarse_height chunks (column p))) s
          (λ h s'. (s'.world.stored_heights (column p) ≡ some h) × (s'.surfaces ≡ s.surfaces)) =
        on_world-IsRead (get_coarse_height chunks (column p)) s ready
          (get_coarse_height-Steady chunks s.world (column p) ready.heights)
          ((get_coarse_height-HeightAt chunks s.world ready.heights (column p)).height, refl) in
      checked-IsRead (check_column p) _ (check_column-runs p s legal) (
        then-IsRead _ height (
          give-IsRead (is_air_chunk p height.value) height.final height.ready
            ((height.value, height.holds.0, refl), height.holds.1)))
