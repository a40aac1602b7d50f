-- ===== src/LruCache/Pruning.antt =====
-- `prune` of hexa/lru_cache.hpp: its loop, and the pairs before and after it.
use hexahedra.Base.{
  ℕ, zero, suc, ◌-◌, ◌<◌, ◌≤◌, ◌≡◌, ◌≢◌, refl, sym, ap, ◌∙◌, inl, inr, some, arith, List, [], ◌∷◌,
  length, Bool-cases, ◌==◌, true, false, take, ◌++◌, take_all, take-append_le, ltb, append-nil,
  append_assoc,
}
use hexahedra.Base.Table.{erase_key}
use hexahedra.LruCache.{
  Node, LruCache, deref, erase_at, pairs, prune, prune_while, prune_step, pop_back,
}
use hexahedra.LruCache.Nodes.{
  Distinct, deref_here, deref_later, erase_at_here, erase_at_later, deref-All,
}
use hexahedra.LruCache.Invariant.{IsValid, removed-IsValid}
use hexahedra.LruCache.Refinement.{entries}
use mathlib.Core.List.{reverse, reverse-cons}

-- What `pop_back` takes from a list of elements.
last_of :
    {K V : Type 0} (m : Node K V) (ns : List (Node K V))
    → Distinct (m ∷ ns)
    → (r : Node K V × List (Node K V)) × (pop_back (m ∷ ns) ≡ some r)
      × (deref r.0.iterator (m ∷ ns) ≡ some r.0)
      × (r.1 ≡ erase_at r.0.iterator (m ∷ ns))
      × (m ∷ ns ≡ r.1 ++ (r.0 ∷ []))
unfolding Distinct pop_back
last_of m [] d =
    let itself : (m.iterator == m.iterator) ≡ true = ground arith in
    (
      (m, []),
      refl,
      deref_here m.iterator m [] itself,
      sym (erase_at_here m.iterator m [] itself),
      refl,
    )
last_of m (x ∷ xs) (others, d) =
    let (r, popped, at, erased, all) = last_of x xs d in
    let (ne, _) = deref-All (λ y. y.iterator ≢ m.iterator) r.0.iterator (x ∷ xs) r.0 others at in
    let later : (m.iterator == r.0.iterator) ≡ false = ground arith in
    (
      (r.0, m ∷ r.1),
      rw popped refl,
      deref_later r.0.iterator m (x ∷ xs) later ∙ at,
      ap (◌∷◌ m) erased ∙ sym (erase_at_later r.0.iterator m (x ∷ xs) later),
      ap (◌∷◌ m) all,
    )

last_of_some :
    {K V : Type 0} (ns : List (Node K V))
    → Distinct ns
    → 0 < length ns
    → (r : Node K V × List (Node K V)) × (pop_back ns ≡ some r)
      × (deref r.0.iterator ns ≡ some r.0)
      × (r.1 ≡ erase_at r.0.iterator ns)
      × (ns ≡ r.1 ++ (r.0 ∷ []))
last_of_some [] d lt = absurd (omega arith)
last_of_some (m ∷ ns) d lt = last_of m ns d

length-entries : {K V : Type 0} (ns : List (Node K V)) → length (entries ns) ≡ length ns
length-entries [] = refl
length-entries (n ∷ ns) = ap suc (length-entries ns)

entries-append :
    {K V : Type 0} (xs ys : List (Node K V)) → entries (xs ++ ys) ≡ entries xs ++ entries ys
entries-append [] ys = refl
entries-append (x ∷ xs) ys = ap (◌∷◌ (x.first, x.second)) (entries-append xs ys)

module _ {K V : Type 0} (dec : Discrete K) where
  -- One turn of the loop, on a cache that is not empty.
  prune_step-IsValid :
      (c : LruCache K V)
      → IsValid c
      → 0 < c.size
      → (r : (K × V) × LruCache K V) × (prune_step dec c ≡ some r)
        × IsValid r.1
        × (suc r.1.size ≡ c.size)
        × (pairs c ≡ pairs r.1 ++ (r.0 ∷ []))
  unfolding prune_step
  prune_step-IsValid c v lt =
      let size_is = v.size_is in
      let (r, popped, at, erased, all) = last_of_some c.list v.distinct (omega arith) in
      let (indexed, _) =
        deref-All (λ x. c.index x.first ≡ some x.iterator) r.0.iterator c.list r.0 v.indexed at in
      let valid = removed-IsValid c v dec r.0.first r.0.iterator r.0 at indexed in
      (
        (
          (r.0.first, r.0.second),
          record c { index = erase_key dec r.0.first c.index; list = r.1; size = c.size - 1 },
        ),
        rw (popped, prune_step) refl,
        rw erased valid,
        omega arith,
        ap entries all ∙ entries-append r.1 (r.0 ∷ []),
      )

  -- The loop of `prune` on fuel that is larger than the cache.
  prune_while-IsValid :
      (fuel max_size : ℕ) (c : LruCache K V)
      → IsValid c
      → c.size < fuel
      → (r : List (K × V) × LruCache K V) × (prune_while dec fuel max_size c ≡ some r)
        × IsValid r.1
        × (pairs r.1 ≡ take max_size (pairs c))
        × (pairs c ≡ pairs r.1 ++ reverse r.0)
  unfolding prune_while
  prune_while-IsValid zero max_size c v lt = absurd (omega arith)
  prune_while-IsValid (suc fuel) max_size c v lt =
      let size_is = v.size_is in
      let entries_length = length-entries c.list in
      elim (Bool-cases (ltb max_size c.size)) [
        | inl larger ↦
            let (s, step, valid, smaller, split) = prune_step-IsValid c v (ground arith) in
            let (r, run, valid', kept, removed) =
              prune_while-IsValid fuel max_size s.1 valid (omega arith) in
            let size_is' = valid.size_is in
            let entries_length' = length-entries s.1.list in
            let enough : max_size ≤ length (pairs s.1) = ground arith in
            (
              (s.0 ∷ r.0, r.1),
              rw (larger, step, run) refl,
              valid',
              kept
                  ∙ sym (take-append_le max_size (pairs s.1) (s.0 ∷ []) enough)
                  ∙ sym (ap (take max_size) split),
              split
                  ∙ ap (λ x. x ++ (s.0 ∷ [])) removed
                  ∙ append_assoc (pairs r.1) (reverse r.0) (s.0 ∷ [])
                  ∙ ap (λ x. pairs r.1 ++ x) (sym (reverse-cons s.0 r.0)),
            )
        | inr small ↦
            let few : length (pairs c) ≤ max_size = ground arith in
            (
              ([], c),
              rw small refl,
              v,
              sym (take_all (pairs c) max_size few),
              sym (append-nil (pairs c)),
            )
      ]

  -- On a valid cache `prune` ends, never takes from an empty list, leaves a valid cache with the
  -- newest pairs, as many as it may keep, in the order they had, and calls `on_remove` for all the
  -- others, the oldest first.
  pub prune-pairs :
      (max_size : ℕ) (c : LruCache K V)
      → IsValid c
      → (r : List (K × V) × LruCache K V) × (prune dec max_size c ≡ some r)
        × IsValid r.1
        × (pairs r.1 ≡ take max_size (pairs c))
        × (pairs c ≡ pairs r.1 ++ reverse r.0)
  unfolding prune
  prune-pairs max_size c v = prune_while-IsValid (suc c.size) max_size c v (omega arith)
