-- ===== src/LruCache/Invariant.antt =====
-- How the list, the map and the size of the cache of hexa/lru_cache.hpp belong together, and the
-- operations on them.
use hexahedra.Base.{
  ℕ, ◌+◌, ◌-◌, ◌<◌, ◌≡◌, ◌≢◌, refl, sym, ap, ◌∙◌, inl, inr, none, some, arith, List, [], ◌∷◌,
  length, All, Option-cases, Bool-cases, ◌==◌, false,
}
use hexahedra.Base.Table.{
  put, put_self, put_ne, put_cases, erase_key, erase_key_ne, erase_key_cases,
}
use hexahedra.LruCache.{
  clear, Node, LruCache, deref, erase_at, splice_front, touch, remove, empty_cache,
}
use hexahedra.LruCache.Nodes.{
  Distinct, erase_at-All, deref-All, length-erase_at, erase_at-Distinct, erase_at-All_ne,
  deref-erase_at, deref_here, deref_later,
}

-- The size is the number of elements, no two elements have the same iterator, and the map has for
-- each element's key its iterator, and nothing else.
pub record IsValid {K V : Type 0} (c : LruCache K V) : Type 0 where
  pub size_is : c.size ≡ length c.list
  pub distinct : Distinct c.list
  pub indexed : All (λ n. c.index n.first ≡ some n.iterator) c.list
  pub points :
      (k : K) (it : ℕ)
      → c.index k ≡ some it
      → (n : Node K V) × (deref it c.list ≡ some n) × (n.first ≡ k)
  pub below : All (λ n. n.iterator < c.allocated) c.list

pub empty_cache-IsValid : {K V : Type 0} → IsValid (empty_cache {K = K} {V = V})
unfolding Distinct
empty_cache-IsValid = record {
  size_is = refl;
  distinct = tt;
  indexed = tt;
  points = λ k it e. absurd (cc);
  below = tt;
}

pub clear-IsValid : {K V : Type 0} (c : LruCache K V) → IsValid (clear c)
unfolding clear Distinct
clear-IsValid c = record {
  size_is = refl;
  distinct = tt;
  indexed = tt;
  points = λ k it e. absurd (cc);
  below = tt;
}

pub All-map :
    {A : Type 0} (P Q : A → Type 0) (xs : List A) → ((x : A) → P x → Q x) → All P xs → All Q xs
All-map P Q [] f all = tt
All-map P Q (x ∷ xs) f (p, all) = (f x p, All-map P Q xs f all)

pub All-zip :
    {A : Type 0} (P Q : A → Type 0) (xs : List A) → All P xs → All Q xs → All (λ x. P x × Q x) xs
All-zip P Q [] ps qs = tt
All-zip P Q (x ∷ xs) (p, ps) (q, qs) = ((p, q), All-zip P Q xs ps qs)

module _ {K V : Type 0} (c : LruCache K V) (v : IsValid c) where
  module _ (k : K) (it : ℕ) (n : Node K V) (at : deref it c.list ≡ some n) where
    same_iterator : n.iterator ≡ it
    same_iterator = (deref-All (λ x. x.iterator < c.allocated) it c.list n v.below at).1

    -- After the element has moved to the front, each iterator points to what it pointed to.
    deref-front : (it' : ℕ) → deref it' (n ∷ erase_at it c.list) ≡ deref it' c.list
    deref-front it' =
        let is_it = same_iterator in
        elim (Bool-cases (n.iterator == it')) [
          | inl here ↦
              let it_is : it ≡ it' = ground arith in
              deref_here it' n (erase_at it c.list) here ∙ sym at ∙ ap (λ i. deref i c.list) it_is
          | inr away ↦
              let other : it' ≢ it = ground arith in
              deref_later it' n (erase_at it c.list) away ∙ deref-erase_at it' it c.list other
        ]

    -- The element of an iterator is moved to the front.
    pub front-IsValid : IsValid (record c { list = n ∷ erase_at it c.list })
    unfolding Distinct
    front-IsValid = record {
      size_is = v.size_is ∙ sym (length-erase_at it c.list n at);
      distinct = (
        rw same_iterator (erase_at-All_ne it c.list v.distinct),
        erase_at-Distinct it c.list v.distinct,
      );
      indexed = (
        (deref-All (λ x. c.index x.first ≡ some x.iterator) it c.list n v.indexed at).0,
        erase_at-All (λ x. c.index x.first ≡ some x.iterator) it c.list v.indexed,
      );
      points = λ k' it' e.
          let (n', found, key) = v.points k' it' e in (n', deref-front it' ∙ found, key);
      below = (
        (deref-All (λ x. x.iterator < c.allocated) it c.list n v.below at).0,
        erase_at-All (λ x. x.iterator < c.allocated) it c.list v.below,
      );
    }

  module _ (dec : Discrete K) (k : K) where
    -- The element of a key is taken out of the list and the map.
    pub removed-IsValid :
        (it : ℕ) (n : Node K V)
        → deref it c.list ≡ some n
        → c.index k ≡ some it
        → IsValid (record c {
          list = erase_at it c.list;
          index = erase_key dec k c.index;
          size = c.size - 1;
        })
    removed-IsValid it n at indexed_at = record {
      size_is =
          let shorter = length-erase_at it c.list n at in let size_is = v.size_is in omega arith;
      distinct = erase_at-Distinct it c.list v.distinct;
      indexed =
          All-map (λ m. (m.iterator ≢ it) × (c.index m.first ≡ some m.iterator))
            (λ m. erase_key dec k c.index m.first ≡ some m.iterator) (erase_at it c.list)
            (λ m (ne, e).
              erase_key_ne dec k m.first c.index
                (λ key. ne (cc (sym e ∙ ap c.index key ∙ indexed_at)))
              ∙ e)
            (All-zip (λ m. m.iterator ≢ it) (λ m. c.index m.first ≡ some m.iterator)
              (erase_at it c.list) (erase_at-All_ne it c.list v.distinct)
              (erase_at-All (λ m. c.index m.first ≡ some m.iterator) it c.list v.indexed));
      points = λ k' it' e.
          let (other, e') = erase_key_cases dec k k' it' c.index e in
          let (n', found, key) = v.points k' it' e' in
          let (n0, found0, key0) = v.points k it indexed_at in
          (
            n',
            deref-erase_at it' it c.list (λ eq.
                  let same : n' ≡ n0 = cc (sym found ∙ ap (λ i. deref i c.list) eq ∙ found0) in
                  other (sym key ∙ ap (λ x. x.first) same ∙ key0))
                ∙ found,
            key,
          );
      below = erase_at-All (λ x. x.iterator < c.allocated) it c.list v.below;
    }

    -- A new element is put in front, for a key that the map does not have.
    pub added-IsValid :
        (new_value : V)
        → c.index k ≡ none
        → IsValid (record {
          list = record { iterator = c.allocated; first = k; second = new_value } ∷ c.list;
          index = put dec k c.allocated c.index;
          size = c.size + 1;
          allocated = c.allocated + 1;
        })
    unfolding Distinct
    added-IsValid new_value absent = record {
      size_is = let size_is = v.size_is in omega arith;
      distinct = (All-map _ _ c.list (λ m lt eq. omega arith) v.below, v.distinct);
      indexed = (
        put_self dec k c.allocated c.index,
        All-map _ _ c.list
            (λ m e.
              put_ne dec k m.first c.allocated c.index
                (λ key. cc (sym absent ∙ ap c.index (sym key) ∙ e))
              ∙ e)
            v.indexed,
      );
      points = λ k' it' e. elim (put_cases dec k k' c.allocated it' c.index e) [
        | inl (key, it_is) ↦ (
          record { iterator = c.allocated; first = k; second = new_value },
          deref_here it' _ c.list (ground arith),
          sym key,
        )
        | inr (other, e') ↦
            let (n', found, key) = v.points k' it' e' in
            let (lt, is_it) =
              deref-All (λ x. x.iterator < c.allocated) it' c.list n' v.below found in
            let not_new : (c.allocated == it') ≡ false = ground arith in
            (n', deref_later it' _ c.list not_new ∙ found, key)
      ];
      below = (omega arith, All-map _ _ c.list (λ m lt. omega arith) v.below);
    }

    pub touch-IsValid : (c' : LruCache K V) × (touch k c ≡ some c') × IsValid c'
    unfolding touch
    touch-IsValid = elim (Option-cases (c.index k)) [
      | inl absent ↦ (c, rw (absent, touch) refl, v)
      | inr (it, e) ↦
          let (n, at, key) = v.points k it e in
          (_, rw (e, touch) (rw (at, splice_front) refl), front-IsValid k it n at)
    ]

    pub remove-IsValid : (c' : LruCache K V) × (remove dec k c ≡ some c') × IsValid c'
    unfolding remove
    remove-IsValid = elim (Option-cases (c.index k)) [
      | inl absent ↦ (c, rw (absent, remove) refl, v)
      | inr (it, e) ↦
          let (n, at, key) = v.points k it e in
          (_, rw (e, at, remove) refl, removed-IsValid it n at e)
    ]
