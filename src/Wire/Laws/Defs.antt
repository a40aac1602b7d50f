-- ===== src/Wire/Laws/Defs.antt =====
-- The contract of an archived type.
use hexahedra.Base.{ℕ, ◌≡◌, List, ◌++◌, All}
use hexahedra.Wire.Defs.{ok, Serial}
use hexahedra.Wire.Scalars.{IsByte}

-- `Fits` are the values that the format has room for. They are written as `bytes`, behind what is
-- in the buffer. A read of those bytes over the object `old` gives `merge old a`, which over a
-- fresh object is `a`; it looks at no byte behind those it takes.
pub record Lawful {A : Type 0} (s : Serial A) (Fits : A → Type 0) : Type 0 where
  pub bytes : A → List ℕ
  pub merge : A → A → A
  pub writes : (a : A) (out : List ℕ) → Fits a → s.write a out ≡ ok (out ++ bytes a)
  pub reads :
      (old a : A) (rest : List ℕ) → Fits a → s.read old (bytes a ++ rest) ≡ ok (merge old a, rest)
  pub fresh_merge : (a : A) → Fits a → merge s.fresh a ≡ a
  pub octets : (a : A) → Fits a → All IsByte (bytes a)
  pub extends :
      (old a : A) (src rest more : List ℕ)
      → s.read old src ≡ ok (a, rest)
      → s.read old (src ++ more) ≡ ok (a, rest ++ more)
  pub takes :
      (old a : A) (src rest : List ℕ)
      → s.read old src ≡ ok (a, rest)
      → (taken : List ℕ) × (src ≡ taken ++ rest)
