-- ===== src/Wire/Laws/Elements.antt =====
-- The elements of vectors and arrays of hexa/serialize.hpp, one after the other.
use hexahedra.Base.{
  ℕ, zero, suc, ◌<◌, ◌≡◌, refl, sym, ap, ◌∙◌, List, [], ◌∷◌, ◌++◌, length, replicate, All,
  All-append, arith, append-nil, append_assoc,
}
use hexahedra.Wire.Defs.{ok, >>=-eq-ok, Serial}
use hexahedra.Wire.Scalars.{IsByte}
use hexahedra.Wire.Sequences.{resize, write_each, read_each, elements}
use hexahedra.Wire.Laws.Defs.{Lawful}

pub resize-nil {ℓ} : {A : Type ℓ} (n : ℕ) (fresh : A) → resize n fresh [] ≡ replicate n fresh
resize-nil zero fresh = refl
resize-nil (suc n) fresh = ap (◌∷◌ fresh) (resize-nil n fresh)

resize-replicate {ℓ} :
    {A : Type ℓ} (n : ℕ) (fresh : A) → resize n fresh (replicate n fresh) ≡ replicate n fresh
resize-replicate zero fresh = refl
resize-replicate (suc n) fresh = ap (◌∷◌ fresh) (resize-replicate n fresh)

pub length-resize {ℓ} :
    {A : Type ℓ} (n : ℕ) (fresh : A) (old : List A) → length (resize n fresh old) ≡ n
length-resize zero fresh old = refl
length-resize (suc n) fresh [] = ap suc (length-resize n fresh [])
length-resize (suc n) fresh (x ∷ xs) = ap suc (length-resize n fresh xs)

-- Lengths that the 16 bits of the format hold.
abbrev pub IsShort : {A : Type 0} → List A → Type 0
IsShort xs = length xs < 65536

abbrev pub IsText : List ℕ → Type 0
IsText val = IsShort val × All IsByte val

abbrev pub IsVector : {A : Type 0} → (A → Type 0) → List A → Type 0
IsVector P xs = IsShort xs × All P xs

abbrev pub IsArray : {A : Type 0} → ℕ → (A → Type 0) → List A → Type 0
IsArray count P xs = (length xs ≡ count) × All P xs

module _ {A : Type 0} {s : Serial A} {P : A → Type 0} (ls : Lawful s P) where
  abbrev pub bytes_each : List A → List ℕ
  bytes_each [] = []
  bytes_each (x ∷ xs) = ls.bytes x ++ bytes_each xs

  pub write_each-bytes :
      (xs : List A) (out : List ℕ) → All P xs → write_each s xs out ≡ ok (out ++ bytes_each xs)
  unfolding write_each
  write_each-bytes [] out h = rw append-nil
  write_each-bytes (x ∷ xs) out (hx, hxs) =
      rw (ls.writes x out hx) (rw (write_each-bytes xs (out ++ ls.bytes x) hxs, append_assoc))

  abbrev pub merge_each : List A → List A → List A
  merge_each [] xs = []
  merge_each (o ∷ os) [] = []
  merge_each (o ∷ os) (x ∷ xs) = ls.merge o x ∷ merge_each os xs

  pub read_each-bytes :
      (olds xs : List A) (rest : List ℕ)
      → length olds ≡ length xs
      → All P xs
      → read_each s olds (bytes_each xs ++ rest) ≡ ok (merge_each olds xs, rest)
  unfolding read_each
  read_each-bytes [] [] rest e h = refl
  read_each-bytes [] (x ∷ xs) rest e h = absurd (omega arith)
  read_each-bytes (o ∷ os) [] rest e h = absurd (omega arith)
  read_each-bytes (o ∷ os) (x ∷ xs) rest e (hx, hxs) =
      rw (append_assoc, ls.reads o x (bytes_each xs ++ rest) hx)
        (rw (read_each-bytes os xs rest (omega arith) hxs))

  pub merge_each-replicate :
      (xs : List A) → All P xs → merge_each (replicate (length xs) s.fresh) xs ≡ xs
  merge_each-replicate [] h = refl
  merge_each-replicate (x ∷ xs) (hx, hxs) = rw (ls.fresh_merge x hx, merge_each-replicate xs hxs)

  pub bytes_each-IsByte : (xs : List A) → All P xs → All IsByte (bytes_each xs)
  bytes_each-IsByte [] h = tt
  bytes_each-IsByte (x ∷ xs) (hx, hxs) =
      All-append IsByte (ls.bytes x) (bytes_each xs) (ls.octets x hx) (bytes_each-IsByte xs hxs)

  pub read_each-extends :
      (old xs : List A) (src rest more : List ℕ)
      → read_each s old src ≡ ok (xs, rest)
      → read_each s old (src ++ more) ≡ ok (xs, rest ++ more)
  unfolding read_each
  read_each-extends [] xs src rest more h = cc
  read_each-extends (x ∷ old) xs src rest more h =
      let ((y, mid), e, h') = >>=-eq-ok (s.read x src) _ h in
      let ((ys, rest'), e', h'') = >>=-eq-ok (read_each s old mid) _ h' in
      rw (ls.extends x y src mid more e, read_each-extends old ys mid rest' more e') (cc)

  pub read_each_takes :
      (old xs : List A) (src rest : List ℕ)
      → read_each s old src ≡ ok (xs, rest)
      → (taken : List ℕ) × (src ≡ taken ++ rest)
  unfolding read_each
  read_each_takes [] xs src rest h = ([], cc)
  read_each_takes (x ∷ old) xs src rest h =
      let ((y, mid), e, h') = >>=-eq-ok (s.read x src) _ h in
      let ((ys, rest'), e', h'') = >>=-eq-ok (read_each s old mid) _ h' in
      let (front, here) = ls.takes x y src mid e in
      let (back, there) = read_each_takes old ys mid rest' e' in
      (front ++ back, cc (append_assoc front back rest'))

  -- A fixed number of objects, one after the other.
  pub elements-Lawful : (count : ℕ) → Lawful (elements s count) (IsArray count P)
  unfolding elements
  elements-Lawful count = record {
    bytes = bytes_each;
    writes = λ xs out h. write_each-bytes xs out h.1;
    merge = λ old xs. merge_each (resize count s.fresh old) xs;
    reads = λ old xs rest h.
        read_each-bytes (resize count s.fresh old) xs rest
          (length-resize count s.fresh old ∙ sym h.0) h.1;
    fresh_merge = λ xs h. rw (resize-replicate count s.fresh, ← h.0) (merge_each-replicate xs h.1);
    octets = λ xs h. bytes_each-IsByte xs h.1;
    extends =
        λ old xs src rest more h. read_each-extends (resize count s.fresh old) xs src rest more h;
    takes = λ old xs src rest h. read_each_takes (resize count s.fresh old) xs src rest h;
  }
