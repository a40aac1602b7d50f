-- ===== src/ChunkCache/Tier.antt =====
-- Reads, writes and pruning of one kind of data of hexa/client/chunk_cache.cpp, against the
-- database alone.
use hexahedra.Base.{
  ℕ, ◌≡◌, refl, sym, ap, ◌∙◌, inl, inr, Option, none, some, ◌∷◌, Option-cases, Bool, true, false,
  ◌||◌,
}
use hexahedra.Base.Table.{Table, put, put_self, put_ne}
use hexahedra.LruCache.{LruCache, try_get, pairs, count, get}
use hexahedra.LruCache.Invariant.{IsValid}
use hexahedra.LruCache.Refinement.{without, remove-pairs}
use hexahedra.LruCache.Reading.{find, try_get-pairs, get-pairs}
use hexahedra.LruCache.Pruning.{prune-pairs}
use hexahedra.LruCache.Assign.{assign, assign-pairs}
use hexahedra.ChunkCache.Memory.{
  Cached, is_available, read_through, replace_packed, replace_value, prune_to,
}
use hexahedra.ChunkCache.Coherence.{
  IsCoherent, unpacked, newest_first-IsCoherent, find-front, find-take, find-without_self,
  find-without_ne,
}

abbrev pub is_stored : {K P : Type 0} → K → Table K P → Bool
is_stored k stored = elim (stored k) [ none ↦ false | some x ↦ true ]

or_true : (b : Bool) → (b || true) ≡ true
or_true true = refl
or_true false = refl

module _ {K V P : Type 0} (dec : Discrete K) (unpack_as : P → V) where
  module _ (new_value : V) (k : K) (c : Cached K V P) (r : LruCache K V × Option V)
      (run : try_get k c.cache ≡ some r) where
    read_hit :
        (x : V)
        → r.1 ≡ some x
        → read_through dec unpack_as new_value k c ≡ some (record c { cache = r.0 }, some x)
    unfolding read_through
    read_hit x hit = rw (run, read_through) (rw hit refl)

    read_nowhere :
        r.1 ≡ none
        → c.stored k ≡ none
        → read_through dec unpack_as new_value k c ≡ some (record c { cache = r.0 }, none)
    unfolding read_through
    read_nowhere miss nowhere = rw (run, read_through) (rw (miss, nowhere) refl)

    read_miss :
        (x : P) (cache' : LruCache K V)
        → r.1 ≡ none
        → c.stored k ≡ some x
        → assign dec new_value k (unpack_as x) r.0 ≡ some cache'
        → read_through dec unpack_as new_value k c
          ≡ some (record c { cache = cache' }, some (unpack_as x))
    unfolding read_through
    read_miss x cache' miss there done = rw (run, read_through) (rw (miss, there) (rw done refl))

  module _ (c : Cached K V P) (v : IsCoherent dec unpack_as c) where
    -- A pair that the database has too is put in front.
    front-IsCoherent :
        (k : K) (p : P) (cache' : LruCache K V)
        → c.stored k ≡ some p
        → IsCoherent dec unpack_as (record c { cache = cache' })
        → (c' : LruCache K V) → IsValid c'
        → pairs c' ≡ (k, unpack_as p) ∷ without dec k (pairs cache')
        → IsCoherent dec unpack_as (record c { cache = c' })
    front-IsCoherent k p cache' there w c' valid e = record {
      valid = valid;
      same = λ j x found.
          elim (find-front dec j k (unpack_as p) x (pairs cache')
            (sym (ap (find dec j) e) ∙ found)) [
              | inl (j_is, x_is) ↦ (p, ap c.stored j_is ∙ there, sym x_is)
              | inr (other, old) ↦ w.same j x old
            ];
    }

    -- A read gives what the database has, unpacked, whether it was in memory or not; it leaves the
    -- database alone and the memory in step.
    pub read_through-IsCoherent :
        (new_value : V) (k : K)
        → (r : Cached K V P × Option V) × (read_through dec unpack_as new_value k c ≡ some r)
          × IsCoherent dec unpack_as r.0
          × (r.0.stored ≡ c.stored)
          × (r.1 ≡ unpacked unpack_as c.stored k)
    read_through-IsCoherent new_value k =
        let (r, run, valid, value, kept) = try_get-pairs dec c.cache v.valid k in
        let w = newest_first-IsCoherent dec unpack_as c v k r.0 valid kept in
        elim (Option-cases (find dec k (pairs c.cache))) [
          | inr (x, here) ↦
              let (p, there, is_x) = v.same k x here in
              (
                (record c { cache = r.0 }, some x),
                read_hit new_value k c r run x (value ∙ here),
                w,
                refl,
                rw (there, unpacked) (ap some (sym is_x)),
              )
          | inl absent ↦ elim (Option-cases (c.stored k)) [
            | inl nowhere ↦ (
              (record c { cache = r.0 }, none),
              read_nowhere new_value k c r run (value ∙ absent) nowhere,
              w,
              refl,
              rw (nowhere, unpacked) refl,
            )
            | inr (p, there) ↦
                let (c', done, valid', front) =
                  assign-pairs dec r.0 valid k new_value (unpack_as p) in
                (
                  (record c { cache = c' }, some (unpack_as p)),
                  read_miss new_value k c r run p c' (value ∙ absent) there done,
                  front-IsCoherent k p r.0 there w c' valid' front,
                  refl,
                  rw (there, unpacked) refl,
                )
          ]
        ]

    -- Data are available just when the database has them.
    pub is_available-IsCoherent : (k : K) → is_available k c ≡ is_stored k c.stored
    unfolding is_available count get
    is_available-IsCoherent k = elim (Option-cases (c.stored k)) [
      | inr (p, there) ↦ rw (there, is_stored) (or_true _)
      | inl nowhere ↦ elim (Option-cases (c.cache.index k)) [
        | inl absent ↦
            let zero_count : count k c.cache ≡ 0 = rw (absent, count) refl in
            rw (nowhere, is_stored) (rw zero_count refl)
        | inr (it, e) ↦
            let (n, at, key) = v.valid.points k it e in
            let found : some (some n.second) ≡ some (find dec k (pairs c.cache)) =
              sym (rw (e, at, get) refl) ∙ get-pairs dec c.cache v.valid k in
            let (p, there, _) = v.same k n.second (sym (cc found)) in
            absurd (cc (sym nowhere ∙ there))
      ]
    ]

    -- A write of packed data goes to the database, and memory stays in step with it.
    pub replace_packed-IsCoherent :
        (k : K) (x : P)
        → (c' : Cached K V P) × (replace_packed dec k x c ≡ some c')
          × IsCoherent dec unpack_as c'
          × (c'.stored ≡ put dec k x c.stored)
    unfolding replace_packed
    replace_packed-IsCoherent k x =
        let (cache', run, valid, left) = remove-pairs dec c.cache v.valid k in
        (
          record c { cache = cache'; stored = put dec k x c.stored },
          rw (run, replace_packed) refl,
          record {
            valid = valid;
            same = λ j y found.
                let found' = sym (ap (find dec j) left) ∙ found in
                elim (dec j k) [
                  | yes here ↦ absurd (
                      cc (
                        sym (find-without_self dec k (pairs c.cache))
                        ∙ ap (λ i. find dec i (without dec k (pairs c.cache))) (sym here)
                        ∙ found'))
                  | no away ↦
                      let (p, there, is_y) =
                        v.same j y (sym (find-without_ne dec j k (pairs c.cache) away) ∙ found') in
                      (p, put_ne dec k j x c.stored away ∙ there, is_y)
                ];
          },
          refl,
        )

    -- Pruning leaves the database alone, and the memory in step with it.
    pub prune_to-IsCoherent :
        (limit : ℕ)
        → (c' : Cached K V P) × (prune_to dec limit c ≡ some c')
          × IsCoherent dec unpack_as c'
          × (c'.stored ≡ c.stored)
    unfolding prune_to
    prune_to-IsCoherent limit =
        let (r, run, valid, left, _) = prune-pairs dec limit c.cache v.valid in
        (
          record c { cache = r.1 },
          rw (run, prune_to) refl,
          record {
            valid = valid;
            same = λ j y found.
                v.same j y
                  (find-take dec j limit (pairs c.cache) y (sym (ap (find dec j) left) ∙ found));
          },
          refl,
        )

module _ {K V : Type 0} (dec : Discrete K) (c : Cached K V V) (v : IsCoherent dec (λ x. x) c) where
  -- A write of a value goes to memory and to the database.
  pub replace_value-IsCoherent :
      (new_value : V) (k : K) (x : V)
      → (c' : Cached K V V) × (replace_value dec new_value k x c ≡ some c')
        × IsCoherent dec (λ x. x) c'
        × (c'.stored ≡ put dec k x c.stored)
  unfolding replace_value
  replace_value-IsCoherent new_value k x =
      let (cache', run, valid, front) = assign-pairs dec c.cache v.valid k new_value x in
      (
        record c { cache = cache'; stored = put dec k x c.stored },
        rw (run, replace_value) refl,
        record {
          valid = valid;
          same = λ j y found.
              elim (find-front dec j k x y (pairs c.cache) (sym (ap (find dec j) front) ∙ found)) [
                | inl (j_is, y_is) ↦
                    (x, ap (put dec k x c.stored) j_is ∙ put_self dec k x c.stored, sym y_is)
                | inr (away, there) ↦
                    let (p, at, is_y) = v.same j y there in
                    (p, put_ne dec k j x c.stored away ∙ at, is_y)
              ];
        },
        refl,
      )
