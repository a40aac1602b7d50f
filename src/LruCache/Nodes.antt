-- ===== src/LruCache/Nodes.antt =====
-- The list of hexa/lru_cache.hpp: elements of which no two have the same iterator.
use hexahedra.Base.{
  ℕ, suc, ◌≡◌, ◌≢◌, refl, sym, ap, ◌∙◌, inl, inr, true, false, some, arith, ◌==◌, List, [], ◌∷◌,
  length, All, Bool-cases,
}
use hexahedra.LruCache.{Node, deref, erase_at}

module _ {K V : Type 0} where
  unfoldable pub Distinct : List (Node K V) → Type 0
  Distinct [] = Unit
  Distinct (n ∷ ns) = All (λ m. m.iterator ≢ n.iterator) ns × Distinct ns

  module _ (it : ℕ) (m : Node K V) (ns : List (Node K V)) where
    pub deref_here : (m.iterator == it) ≡ true → deref it (m ∷ ns) ≡ some m
    unfolding deref
    deref_here here = rw here refl

    pub deref_later : (m.iterator == it) ≡ false → deref it (m ∷ ns) ≡ deref it ns
    unfolding deref
    deref_later away = rw away refl

    pub erase_at_here : (m.iterator == it) ≡ true → erase_at it (m ∷ ns) ≡ ns
    unfolding erase_at
    erase_at_here here = rw here refl

    pub erase_at_later : (m.iterator == it) ≡ false → erase_at it (m ∷ ns) ≡ m ∷ erase_at it ns
    unfolding erase_at
    erase_at_later away = rw away refl

  pub erase_at-All :
      (P : Node K V → Type 0) (it : ℕ) (ns : List (Node K V)) → All P ns → All P (erase_at it ns)
  unfolding erase_at
  erase_at-All P it [] all = all
  erase_at-All P it (n ∷ ns) (p, all) = elim (Bool-cases (n.iterator == it)) [
    | inl here ↦ rw here all
    | inr away ↦ rw away (p, erase_at-All P it ns all)
  ]

  -- What an iterator points to is an element, and has that iterator.
  pub deref-All :
      (P : Node K V → Type 0) (it : ℕ) (ns : List (Node K V)) (n : Node K V)
      → All P ns
      → deref it ns ≡ some n
      → P n × (n.iterator ≡ it)
  unfolding deref
  deref-All P it [] n all e = absurd (cc)
  deref-All P it (m ∷ ns) n (p, all) e = elim (Bool-cases (m.iterator == it)) [
    | inl here ↦
        let same : m ≡ n = cc (sym (deref_here it m ns here) ∙ e) in
        let it_is : m.iterator ≡ it = ground arith in rw (sym same) (p, it_is)
    | inr away ↦ deref-All P it ns n all (sym (deref_later it m ns away) ∙ e)
  ]

  -- Taking the element of an iterator out leaves one element less.
  pub length-erase_at :
      (it : ℕ) (ns : List (Node K V)) (n : Node K V)
      → deref it ns ≡ some n
      → suc (length (erase_at it ns)) ≡ length ns
  unfolding deref
  length-erase_at it [] n e = absurd (cc)
  length-erase_at it (m ∷ ns) n e = elim (Bool-cases (m.iterator == it)) [
    | inl here ↦ rw (erase_at_here it m ns here) refl
    | inr away ↦
        rw (erase_at_later it m ns away)
          (ap suc (length-erase_at it ns n (sym (deref_later it m ns away) ∙ e)))
  ]

  pub erase_at-Distinct : (it : ℕ) (ns : List (Node K V)) → Distinct ns → Distinct (erase_at it ns)
  unfolding Distinct erase_at
  erase_at-Distinct it [] d = d
  erase_at-Distinct it (m ∷ ns) (others, d) = elim (Bool-cases (m.iterator == it)) [
    | inl here ↦ rw here d
    | inr away ↦
        rw away
          (erase_at-All (λ x. x.iterator ≢ m.iterator) it ns others, erase_at-Distinct it ns d)
  ]

  -- No element has the iterator any more.
  pub erase_at-All_ne :
      (it : ℕ) (ns : List (Node K V)) → Distinct ns → All (λ m. m.iterator ≢ it) (erase_at it ns)
  unfolding Distinct erase_at
  erase_at-All_ne it [] d = tt
  erase_at-All_ne it (m ∷ ns) (others, d) = elim (Bool-cases (m.iterator == it)) [
    | inl here ↦ let it_is : m.iterator ≡ it = ground arith in rw (here, sym it_is) others
    | inr away ↦
        let it_is_not : m.iterator ≢ it = ground arith in
        rw away (it_is_not, erase_at-All_ne it ns d)
  ]

  pub deref-erase_at :
      (other it : ℕ) (ns : List (Node K V))
      → other ≢ it
      → deref other (erase_at it ns) ≡ deref other ns
  unfolding deref erase_at
  deref-erase_at other it [] ne = refl
  deref-erase_at other it (m ∷ ns) ne = elim (Bool-cases (m.iterator == it)) [
    | inl here ↦
        let not_other : (m.iterator == other) ≡ false = ground arith in
        rw (erase_at_here it m ns here) (sym (deref_later other m ns not_other))
    | inr away ↦ rw (erase_at_later it m ns away) (elim (Bool-cases (m.iterator == other)) [
      | inl found ↦ deref_here other m _ found ∙ sym (deref_here other m ns found)
      | inr missed ↦
          deref_later other m _ missed
          ∙ deref-erase_at other it ns ne
          ∙ sym (deref_later other m ns missed)
    ])
  ]
