-- ===== src/LruCache/Refinement.antt =====
-- The cache of hexa/lru_cache.hpp as its pairs, the newest first, under `operator[]` and `remove`.
use hexahedra.Base.{
  ℕ, ◌+◌, ◌-◌, ◌≡◌, ◌≢◌, refl, sym, ap, ◌∙◌, inl, inr, none, some, arith, List, [], ◌∷◌, All,
  Option-cases, Bool-cases, ◌==◌, false, map,
}
use hexahedra.LruCache.{Node, LruCache, deref, erase_at, splice_front, lookup, remove, pairs}
use hexahedra.LruCache.Nodes.{Distinct, deref_here, deref_later, erase_at_here, erase_at_later}
use hexahedra.LruCache.Invariant.{
  IsValid, All-map, All-zip, front-IsValid, removed-IsValid, added-IsValid,
}
use mathlib.Core.Logic.{ite, if_pos, if_neg}
use std.Path.{ap₂}
use hexahedra.Base.Table.{put, erase_key}

abbrev pub entries : {K V : Type 0} → List (Node K V) → List (K × V)
entries ns = map (λ n. (n.first, n.second)) ns

module _ {K V : Type 0} (dec : Discrete K) (k : K) where
  -- The pairs with another key.
  unfoldable pub without : List (K × V) → List (K × V)
  without [] = []
  without (p ∷ ps) = ite (dec p.0 k) (without ps) (p ∷ without ps)

  -- The value of the first pair with the key, or the given one.
  unfoldable pub value_or : V → List (K × V) → V
  value_or new_value [] = new_value
  value_or new_value (p ∷ ps) = ite (dec p.0 k) p.1 (value_or new_value ps)

  pub without_absent :
      (ns : List (Node K V)) → All (λ m. m.first ≢ k) ns → without (entries ns) ≡ entries ns
  unfolding without
  without_absent [] all = refl
  without_absent (m ∷ ns) (ne, all) =
      if_neg (dec m.first k) ne _ _ ∙ ap (◌∷◌ (m.first, m.second)) (without_absent ns all)

  value_absent :
      (new_value : V) (ns : List (Node K V))
      → All (λ m. m.first ≢ k) ns
      → value_or new_value (entries ns) ≡ new_value
  unfolding value_or
  value_absent new_value [] all = refl
  value_absent new_value (m ∷ ns) (ne, all) =
      if_neg (dec m.first k) ne _ _ ∙ value_absent new_value ns all

  -- Among elements that have the key just when they have the iterator, the element of the iterator
  -- is the one with the key.
  module _ (it : ℕ) where
    pub without_key :
        (ns : List (Node K V))
        → Distinct ns
        → All (λ m. (m.first ≡ k → m.iterator ≡ it) × (m.iterator ≡ it → m.first ≡ k)) ns
        → entries (erase_at it ns) ≡ without (entries ns)
    unfolding Distinct erase_at without
    without_key [] d all = refl
    without_key (m ∷ ns) (others, d) ((to, from), all) = elim (Bool-cases (m.iterator == it)) [
      | inl here ↦
          let it_is : m.iterator ≡ it = ground arith in
          let rest : without (entries ns) ≡ entries ns = without_absent ns (
            All-map _ _ ns (λ x (ne, f). λ key. ne (f.0 key ∙ sym it_is))
              (All-zip _ _ ns others all)) in
          ap entries (erase_at_here it m ns here)
          ∙ sym rest
          ∙ sym (if_pos (dec m.first k) (from it_is) _ _)
      | inr away ↦
          let it_is_not : m.iterator ≢ it = ground arith in
          ap entries (erase_at_later it m ns away)
          ∙ ap (◌∷◌ (m.first, m.second)) (without_key ns d all)
          ∙ sym (if_neg (dec m.first k) (λ key. it_is_not (to key)) _ _)
    ]

    value_key :
        (new_value : V) (ns : List (Node K V)) (n : Node K V)
        → All (λ m. (m.first ≡ k → m.iterator ≡ it) × (m.iterator ≡ it → m.first ≡ k)) ns
        → deref it ns ≡ some n
        → value_or new_value (entries ns) ≡ n.second
    unfolding value_or deref
    value_key new_value [] n all e = absurd (cc)
    value_key new_value (m ∷ ns) n ((to, from), all) e = elim (Bool-cases (m.iterator == it)) [
      | inl here ↦
          let it_is : m.iterator ≡ it = ground arith in
          let same : m ≡ n = cc (sym (deref_here it m ns here) ∙ e) in
          if_pos (dec m.first k) (from it_is) _ _ ∙ ap (λ x. x.second) same
      | inr away ↦
          let it_is_not : m.iterator ≢ it = ground arith in
          if_neg (dec m.first k) (λ key. it_is_not (to key)) _ _
          ∙ value_key new_value ns n all (sym (deref_later it m ns away) ∙ e)
    ]

pub self_deref :
    {K V : Type 0} (ns : List (Node K V)) → Distinct ns → All (λ m. deref m.iterator ns ≡ some m) ns
unfolding Distinct
self_deref [] d = tt
self_deref (n ∷ ns) (others, d) = (
  deref_here n.iterator n ns (ground arith),
  All-map _ _ ns
      (λ m (ne, e).
        let other : (n.iterator == m.iterator) ≡ false = ground arith in
        deref_later m.iterator n ns other ∙ e)
      (All-zip _ _ ns others (self_deref ns d)),
)

module _ {K V : Type 0} (dec : Discrete K) (c : LruCache K V) (v : IsValid c) (k : K) where
  pub agrees :
      (it : ℕ) (n : Node K V)
      → c.index k ≡ some it
      → deref it c.list ≡ some n
      → n.first ≡ k
      → All (λ m. (m.first ≡ k → m.iterator ≡ it) × (m.iterator ≡ it → m.first ≡ k)) c.list
  agrees it n e at key =
      All-map _ _ c.list
        (λ m (indexed, self). (
          λ m_key. cc (sym indexed ∙ ap c.index m_key ∙ e),
          λ m_it.
              let same : m ≡ n = cc (sym self ∙ ap (λ i. deref i c.list) m_it ∙ at) in
              ap (λ x. x.first) same ∙ key,
        ))
        (All-zip _ _ c.list v.indexed (self_deref c.list v.distinct))

  pub absent_everywhere : c.index k ≡ none → All (λ m. m.first ≢ k) c.list
  absent_everywhere absent =
      All-map _ _ c.list (λ m e key. cc (sym absent ∙ ap c.index (sym key) ∙ e)) v.indexed

  -- On a valid cache `operator[]` succeeds and leaves a valid cache, in which the key is the
  -- newest, with the value that it had, or the new one, and the other pairs follow in the order
  -- they had.
  pub lookup-pairs :
      (new_value : V)
      → (r : LruCache K V × ℕ) × (lookup dec new_value k c ≡ some r)
        × IsValid r.0
        × (pairs r.0 ≡ (k, value_or dec k new_value (pairs c)) ∷ without dec k (pairs c))
  unfolding lookup
  lookup-pairs new_value = elim (Option-cases (c.index k)) [
    | inl absent ↦ (
      (
        record {
          list = record { iterator = c.allocated; first = k; second = new_value } ∷ c.list;
          index = put dec k c.allocated c.index;
          size = c.size + 1;
          allocated = c.allocated + 1;
        },
        c.allocated,
      ),
      rw (absent, lookup) refl,
      added-IsValid c v dec k new_value absent,
      ap₂ (λ x ps. (k, x) ∷ ps)
          (sym (value_absent dec k new_value c.list (absent_everywhere absent)))
          (sym (without_absent dec k c.list (absent_everywhere absent))),
    )
    | inr (it, e) ↦
        let (n, at, key) = v.points k it e in
        let all = agrees it n e at key in
        (
          (record c { list = n ∷ erase_at it c.list }, it),
          rw (e, lookup) (rw (at, splice_front) refl),
          front-IsValid c v k it n at,
          ap₂ (λ (p : K × V) ps. p ∷ ps)
              (ap₂ (λ a b. (a, b)) key (sym (value_key dec k it new_value c.list n all at)))
              (without_key dec k it c.list v.distinct all),
        )
  ]

  -- On a valid cache `remove` succeeds and leaves a valid cache without the key, with the other
  -- pairs in the order they had.
  pub remove-pairs :
      (c' : LruCache K V) × (remove dec k c ≡ some c')
      × IsValid c'
      × (pairs c' ≡ without dec k (pairs c))
  unfolding remove
  remove-pairs = elim (Option-cases (c.index k)) [
    | inl absent ↦ (
      c,
      rw (absent, remove) refl,
      v,
      sym (without_absent dec k c.list (absent_everywhere absent)),
    )
    | inr (it, e) ↦
        let (n, at, key) = v.points k it e in
        (
          record c {
            list = erase_at it c.list;
            index = erase_key dec k c.index;
            size = c.size - 1;
          },
          rw (e, at, remove) refl,
          removed-IsValid c v dec k it n at e,
          without_key dec k it c.list v.distinct (agrees it n e at key),
        )
  ]
