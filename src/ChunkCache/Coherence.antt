-- ===== src/ChunkCache/Coherence.antt =====
-- How a cache of hexa/client/chunk_cache.cpp and the database behind it belong together.
use hexahedra.Base.{
  ℕ, zero, suc, ◌≡◌, ◌≢◌, refl, sym, ap, ◌∙◌, inl, inr, Option, none, some, List, [], ◌∷◌,
  Option-cases, take, ◌⊎◌,
}
use hexahedra.Base.Table.{Table}
use hexahedra.LruCache.{LruCache, pairs}
use hexahedra.LruCache.Invariant.{IsValid}
use hexahedra.LruCache.Refinement.{without}
use hexahedra.LruCache.Reading.{find, newest_first}
use hexahedra.ChunkCache.Memory.{Cached}
use mathlib.Core.Logic.{ite, if_pos, if_neg}

module _ {K V : Type 0} (dec : Discrete K) where
  pub find-without_self : (k : K) (ps : List (K × V)) → find dec k (without dec k ps) ≡ none
  unfolding find without
  find-without_self k [] = refl
  find-without_self k (p ∷ ps) = elim (dec p.0 k) [
    | yes here ↦ ap (find dec k) (if_pos (dec p.0 k) here _ _) ∙ find-without_self k ps
    | no away ↦
        ap (find dec k) (if_neg (dec p.0 k) away _ _)
        ∙ if_neg (dec p.0 k) away _ _
        ∙ find-without_self k ps
  ]

  pub find-without_ne :
      (j k : K) (ps : List (K × V)) → j ≢ k → find dec j (without dec k ps) ≡ find dec j ps
  unfolding find without
  find-without_ne j k [] ne = refl
  find-without_ne j k (p ∷ ps) ne = elim (dec p.0 k) [
    | yes here ↦
        ap (find dec j) (if_pos (dec p.0 k) here _ _)
        ∙ find-without_ne j k ps ne
        ∙ sym (if_neg (dec p.0 j) (λ e. ne (sym e ∙ here)) _ _)
    | no away ↦
        ap (find dec j) (if_neg (dec p.0 k) away _ _)
        ∙ ap (λ o. ite (dec p.0 j) (some p.1) o) (find-without_ne j k ps ne)
  ]

  pub find-take :
      (k : K) (n : ℕ) (ps : List (K × V)) (x : V)
      → find dec k (take n ps) ≡ some x
      → find dec k ps ≡ some x
  unfolding find
  find-take k zero ps x e = absurd (cc e)
  find-take k (suc n) [] x e = e
  find-take k (suc n) (p ∷ ps) x e = elim (dec p.0 k) [
    | yes here ↦ if_pos (dec p.0 k) here _ _ ∙ sym (if_pos (dec p.0 k) here _ _) ∙ e
    | no away ↦
        if_neg (dec p.0 k) away _ _ ∙ find-take k n ps x (sym (if_neg (dec p.0 k) away _ _) ∙ e)
  ]

  -- What is found behind a pair that was put in front was there, or is that pair.
  pub find-front :
      (j k : K) (y x : V) (ps : List (K × V))
      → find dec j ((k, y) ∷ without dec k ps) ≡ some x
      → ((j ≡ k) × (x ≡ y)) ⊎ ((j ≢ k) × (find dec j ps ≡ some x))
  unfolding find
  find-front j k y x ps e = elim (dec k j) [
    | yes here ↦ inl (sym here, cc (sym (if_pos (dec k j) here (some y) _) ∙ e))
    | no away ↦ inr (
      λ f. away (sym f),
      sym (find-without_ne j k ps (λ f. away (sym f))) ∙ sym (if_neg (dec k j) away _ _) ∙ e,
    )
  ]

-- What is in memory is what the database has, unpacked.
pub record IsCoherent {K V P : Type 0} (dec : Discrete K) (unpack_as : P → V) (c : Cached K V P)
    : Type 0 where
  pub valid : IsValid c.cache
  pub same :
      (k : K) (x : V)
      → find dec k (pairs c.cache) ≡ some x
      → (p : P) × (c.stored k ≡ some p) × (unpack_as p ≡ x)

-- The value of a key in a database alone.
abbrev pub unpacked : {K V P : Type 0} → (P → V) → Table K P → K → Option V
unpacked unpack_as stored k = elim (stored k) [ none ↦ none | some p ↦ some (unpack_as p) ]

module _ {K V P : Type 0} (dec : Discrete K) (unpack_as : P → V) (c : Cached K V P)
    (v : IsCoherent dec unpack_as c) where
  -- A cache with the pairs of the old one, one of them first.
  pub newest_first-IsCoherent :
      (k : K) (cache' : LruCache K V)
      → IsValid cache'
      → pairs cache' ≡ newest_first dec k (pairs c.cache)
      → IsCoherent dec unpack_as (record c { cache = cache' })
  unfolding newest_first
  newest_first-IsCoherent k cache' valid e = elim (Option-cases (find dec k (pairs c.cache))) [
    | inl nothing ↦
        let kept : pairs cache' ≡ pairs c.cache = e ∙ rw (nothing, newest_first) refl in
        record {
          valid = valid;
          same = λ j x found. v.same j x (sym (ap (find dec j) kept) ∙ found);
        }
    | inr (y, here) ↦
        let moved : pairs cache' ≡ (k, y) ∷ without dec k (pairs c.cache) =
          e ∙ rw (here, newest_first) refl in
        record {
          valid = valid;
          same = λ j x found.
              elim (find-front dec j k y x (pairs c.cache) (sym (ap (find dec j) moved) ∙ found)) [
                | inl (j_is, x_is) ↦
                    v.same j x
                      (ap (λ i. find dec i (pairs c.cache)) j_is ∙ here ∙ ap some (sym x_is))
                | inr (other, there) ↦ v.same j x there
              ];
        }
  ]
