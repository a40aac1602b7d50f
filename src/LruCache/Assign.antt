-- ===== src/LruCache/Assign.antt =====
-- `cache[key] = value` on the cache of hexa/lru_cache.hpp: `operator[]`, and a write through the
-- reference that it returns.
use hexahedra.Base.{
  ℕ, ◌+◌, ◌<◌, ◌≡◌, refl, sym, ap, ◌∙◌, inl, inr, Option, none, some, arith, List, [], ◌∷◌,
  Option-cases, Bool-cases, ◌==◌, true, if◌then◌else◌,
}
use hexahedra.Base.Table.{put}
use hexahedra.LruCache.{Node, LruCache, erase_at, splice_front, lookup, pairs}
use hexahedra.LruCache.Nodes.{Distinct, deref_here, deref_later, deref-All}
use hexahedra.LruCache.Invariant.{IsValid, front-IsValid, added-IsValid}
use hexahedra.LruCache.Refinement.{without, without_absent, without_key, agrees, absent_everywhere}
use std.Path.{ap₂}

module _ {K V : Type 0} where
  -- A write to the value of the element that an iterator points to; nothing if it is gone.
  unfoldable pub write_at : ℕ → V → List (Node K V) → Option (List (Node K V))
  write_at it x [] = none
  write_at it x (n ∷ ns) =
      let later : Option (List (Node K V)) = elim (write_at it x ns) [
        | none ↦ none
        | some ns' ↦ some (n ∷ ns')
      ] in
      if n.iterator == it then some (record n { second = x } ∷ ns) else later

  write_at_front :
      (it : ℕ) (x : V) (n : Node K V) (ns : List (Node K V))
      → n.iterator ≡ it
      → write_at it x (n ∷ ns) ≡ some (record n { second = x } ∷ ns)
  unfolding write_at
  write_at_front it x n ns e = let here : (n.iterator == it) ≡ true = ground arith in rw here refl

  -- The value of the newest element plays no part in the validity of a cache.
  front_written-IsValid :
      (c : LruCache K V) (n : Node K V) (ns : List (Node K V)) (x : V)
      → IsValid (record c { list = n ∷ ns })
      → IsValid (record c { list = record n { second = x } ∷ ns })
  unfolding Distinct
  front_written-IsValid c n ns x v = record {
    size_is = v.size_is;
    distinct = v.distinct;
    indexed = v.indexed;
    points = λ k it at.
        let (m, found, key) = v.points k it at in
        elim (Bool-cases (n.iterator == it)) [
          | inl here ↦
              let same : n ≡ m = cc (sym (deref_here it n ns here) ∙ found) in
              (
                record n { second = x },
                deref_here it (record n { second = x }) ns here,
                ap (λ y. y.first) same ∙ key,
              )
          | inr away ↦ (
            m,
            deref_later it (record n { second = x }) ns away
                ∙ sym (deref_later it n ns away)
                ∙ found,
            key,
          )
        ];
    below = v.below;
  }

module _ {K V : Type 0} (dec : Discrete K) where
  unfoldable pub assign : V → K → V → LruCache K V → Option (LruCache K V)
  unfolding lookup write_at
  assign new_value k x c = elim (lookup dec new_value k c) [
    | none ↦ none
    | some r ↦ elim (write_at r.1 x r.0.list) [
      | none ↦ none
      | some ns ↦ some (record r.0 { list = ns })
    ]
  ]

  assign_through :
      (new_value x : V) (k : K) (c : LruCache K V) (r : LruCache K V × ℕ) (ns : List (Node K V))
      → lookup dec new_value k c ≡ some r
      → write_at r.1 x r.0.list ≡ some ns
      → assign new_value k x c ≡ some (record r.0 { list = ns })
  unfolding assign
  assign_through new_value x k c r ns looked written = rw (looked, assign) (rw written refl)

  module _ (c : LruCache K V) (v : IsValid c) (k : K) where
    -- On a valid cache `cache[key] = value` succeeds and leaves a valid cache, whose newest pair is
    -- the key and the value.
    pub assign-pairs :
        (new_value x : V)
        → (c' : LruCache K V) × (assign new_value k x c ≡ some c')
          × IsValid c'
          × (pairs c' ≡ (k, x) ∷ without dec k (pairs c))
    unfolding lookup
    assign-pairs new_value x = elim (Option-cases (c.index k)) [
      | inl absent ↦
          let added = added-IsValid c v dec k new_value absent in
          let n : Node K V = record { iterator = c.allocated; first = k; second = new_value } in
          let c1 : LruCache K V = record {
            list = n ∷ c.list;
            index = put dec k c.allocated c.index;
            size = c.size + 1;
            allocated = c.allocated + 1;
          } in
          (
            record c1 { list = record n { second = x } ∷ c.list },
            assign_through new_value x k c (c1, c.allocated) _ (rw (absent, lookup) refl)
                (write_at_front c.allocated x n c.list refl),
            front_written-IsValid c1 n c.list x added,
            ap (◌∷◌ (k, x))
                (sym (without_absent dec k c.list (absent_everywhere dec c v k absent))),
          )
      | inr (it, e) ↦
          let (n, at, key) = v.points k it e in
          let all = agrees dec c v k it n e at key in
          let (_, it_is) = deref-All (λ y. y.iterator < c.allocated) it c.list n v.below at in
          (
            record c { list = record n { second = x } ∷ erase_at it c.list },
            assign_through new_value x k c (record c { list = n ∷ erase_at it c.list }, it) _
                (rw (e, lookup) (rw (at, splice_front) refl))
                (write_at_front it x n (erase_at it c.list) it_is),
            front_written-IsValid c n (erase_at it c.list) x (front-IsValid c v k it n at),
            ap₂ (λ (p : K × V) ps. p ∷ ps) (ap (λ a. (a, x)) key)
                (without_key dec k it c.list v.distinct all),
          )
    ]
