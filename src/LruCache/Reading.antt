-- ===== src/LruCache/Reading.antt =====
-- `get` and `try_get` of hexa/lru_cache.hpp, and the pairs that they read.
use hexahedra.Base.{
  ℕ, ◌≡◌, ◌≢◌, ◌<◌, refl, sym, ap, ◌∙◌, inl, inr, Option, none, some, arith, List, [], ◌∷◌, All,
  Option-cases, Bool-cases, ◌==◌,
}
use hexahedra.LruCache.{Node, LruCache, deref, erase_at, splice_front, get, try_get, pairs}
use hexahedra.LruCache.Nodes.{deref_here, deref_later, deref-All}
use hexahedra.LruCache.Invariant.{IsValid, front-IsValid}
use hexahedra.LruCache.Refinement.{entries, without, without_key, agrees, absent_everywhere}
use std.Path.{ap₂}
use mathlib.Core.Logic.{ite, if_pos, if_neg}

module _ {K V : Type 0} (dec : Discrete K) (k : K) where
  -- The value of the first pair with the key.
  unfoldable pub find : List (K × V) → Option V
  find [] = none
  find (p ∷ ps) = ite (dec p.0 k) (some p.1) (find ps)

  -- The pairs with that of the key in front, if there is one.
  unfoldable pub newest_first : List (K × V) → List (K × V)
  unfolding find
  newest_first ps = elim (find ps) [ none ↦ ps | some x ↦ (k, x) ∷ without dec k ps ]

  find_absent : (ns : List (Node K V)) → All (λ m. m.first ≢ k) ns → find (entries ns) ≡ none
  unfolding find
  find_absent [] all = refl
  find_absent (m ∷ ns) (ne, all) = if_neg (dec m.first k) ne _ _ ∙ find_absent ns all

  find_key :
      (it : ℕ) (ns : List (Node K V)) (n : Node K V)
      → All (λ m. (m.first ≡ k → m.iterator ≡ it) × (m.iterator ≡ it → m.first ≡ k)) ns
      → deref it ns ≡ some n
      → find (entries ns) ≡ some n.second
  unfolding find deref
  find_key it [] n all e = absurd (cc)
  find_key it (m ∷ ns) n ((to, from), all) e = elim (Bool-cases (m.iterator == it)) [
    | inl here ↦
        let it_is : m.iterator ≡ it = ground arith in
        let same : m ≡ n = cc (sym (deref_here it m ns here) ∙ e) in
        if_pos (dec m.first k) (from it_is) _ _ ∙ ap (λ x. some x.second) same
    | inr away ↦
        let it_is_not : m.iterator ≢ it = ground arith in
        if_neg (dec m.first k) (λ key. it_is_not (to key)) _ _
        ∙ find_key it ns n all (sym (deref_later it m ns away) ∙ e)
  ]

module _ {K V : Type 0} (dec : Discrete K) (c : LruCache K V) (v : IsValid c) (k : K) where
  -- On a valid cache `get` never uses an iterator whose element is gone, and gives what the pairs
  -- have for the key: nothing just when no pair has it.
  pub get-pairs : get k c ≡ some (find dec k (pairs c))
  unfolding get
  get-pairs = elim (Option-cases (c.index k)) [
    | inl absent ↦
        rw (absent, get)
          (ap some (sym (find_absent dec k c.list (absent_everywhere dec c v k absent))))
    | inr (it, e) ↦
        let (n, at, key) = v.points k it e in
        rw (e, at, get)
          (ap some (sym (find_key dec k it c.list n (agrees dec c v k it n e at key) at)))
  ]

  -- On a valid cache `try_get` succeeds with what the pairs have for the key, and leaves a valid
  -- cache in which a pair that was found is the newest, and the others follow in the order they
  -- had.
  pub try_get-pairs :
      (r : LruCache K V × Option V) × (try_get k c ≡ some r)
      × IsValid r.0
      × (r.1 ≡ find dec k (pairs c))
      × (pairs r.0 ≡ newest_first dec k (pairs c))
  unfolding try_get newest_first
  try_get-pairs = elim (Option-cases (c.index k)) [
    | inl absent ↦
        let nothing = find_absent dec k c.list (absent_everywhere dec c v k absent) in
        ((c, none), rw (absent, try_get) refl, v, sym nothing, rw (nothing, newest_first) refl)
    | inr (it, e) ↦
        let (n, at, key) = v.points k it e in
        let all = agrees dec c v k it n e at key in
        let found = find_key dec k it c.list n all at in
        let (_, it_is) = deref-All (λ x. x.iterator < c.allocated) it c.list n v.below at in
        let in_front : deref it (n ∷ erase_at it c.list) ≡ some n =
          deref_here it n (erase_at it c.list) (ground arith) in
        (
          (record c { list = n ∷ erase_at it c.list }, some n.second),
          rw (e, try_get) (rw (at, splice_front) (rw in_front refl)),
          front-IsValid c v k it n at,
          sym found,
          rw (found, newest_first)
              (ap₂ (λ (p : K × V) ps. p ∷ ps) (ap (λ a. (a, n.second)) key)
                (without_key dec k it c.list v.distinct all)),
        )
  ]
