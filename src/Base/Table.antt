-- ===== src/Base/Table.antt =====
-- A map of the program as a function: what it holds at each key.
use hexahedra.Base.{◌≡◌, ◌≢◌, ◌⊎◌, inl, inr, refl, sym, ◌∙◌, Option, none, some}
use mathlib.Core.Logic.{ite, if_pos, if_neg}

abbrev pub Table : Type 0 → Type 0 → Type 0
Table K V = K → Option V

module _ {K V : Type 0} (dec : Discrete K) where
  -- `table[key] = value`
  unfoldable pub put : K → V → Table K V → Table K V
  put key value table k = ite (dec k key) (some value) (table k)

  -- `table.erase(key)`
  unfoldable pub erase_key : K → Table K V → Table K V
  erase_key key table k = ite (dec k key) none (table k)

  pub erase_key_self : (key : K) (table : Table K V) → erase_key key table key ≡ none
  unfolding erase_key
  erase_key_self key table = if_pos (dec key key) refl _ _

  pub erase_key_ne : (key k : K) (table : Table K V) → k ≢ key → erase_key key table k ≡ table k
  unfolding erase_key
  erase_key_ne key k table other = if_neg (dec k key) other _ _

  -- What is found after a key was erased was there, at another key.
  pub erase_key_cases :
      (key k : K) (v : V) (table : Table K V)
      → erase_key key table k ≡ some v
      → (k ≢ key) × (table k ≡ some v)
  unfolding erase_key
  erase_key_cases key k v table found = elim (dec k key) [
    | yes here ↦ absurd (cc (sym (if_pos (dec k key) here none (table k)) ∙ found))
    | no away ↦ (away, sym (if_neg (dec k key) away none (table k)) ∙ found)
  ]

  pub put_self : (key : K) (value : V) (table : Table K V) → put key value table key ≡ some value
  unfolding put
  put_self key value table = if_pos (dec key key) refl _ _

  pub put_ne :
      (key k : K) (value : V) (table : Table K V) → k ≢ key → put key value table k ≡ table k
  unfolding put
  put_ne key k value table other = if_neg (dec k key) other _ _

  -- What is found in a table after a write was written, or was there.
  pub put_cases :
      (key k : K) (value v : V) (table : Table K V)
      → put key value table k ≡ some v
      → ((k ≡ key) × (v ≡ value)) ⊎ ((k ≢ key) × (table k ≡ some v))
  put_cases key k value v table found = elim (dec k key) [
    | yes here ↦
        let written : put key value table k ≡ some value = rw here (put_self key value table) in
        inl (here, cc)
    | no away ↦ inr (away, sym (put_ne key k value table away) ∙ found)
  ]
