-- ===== src/Wire/Laws/Sequences.antt =====
-- The contract of strings, vectors and arrays.
use hexahedra.Base.{
  ℕ, ◌%◌, ◌≡◌, refl, List, [], ◌∷◌, ◌++◌, length, take, ◌==◌, Bool-cases, inl, inr, All, All-append,
  arith, append-nil, append_assoc, length-append, take_all, take-append-drop, take-append_length,
  drop-append_length, take-append_le, drop-append_le,
}
use hexahedra.Wire.Defs.{
  Fault, string_too_long, array_too_long, end_of_string, end_of_array, ok, >>=-eq-ok, Serial,
}
use hexahedra.Wire.Endian.{ByteOrder}
use hexahedra.Wire.Scalars.{u16, IsByte, IsU16}
use hexahedra.Wire.Sequences.{refill, resize, counted_bytes, string, char_vector, vector}
use hexahedra.Wire.Laws.Defs.{Lawful}
use hexahedra.Wire.Laws.Scalars.{u16-Lawful, u16_replaced}
use hexahedra.Wire.Laws.Elements.{
  resize-nil, length-resize, IsShort, IsText, IsVector, bytes_each, write_each-bytes, merge_each,
  read_each-bytes, merge_each-replicate, bytes_each-IsByte, read_each-extends, read_each_takes,
}

-- What a read leaves in a text that was `old`: an empty text does not replace it.
abbrev pub refilled : List ℕ → List ℕ → List ℕ
refilled old [] = old
refilled old (b ∷ bs) = b ∷ bs

module _ ⦃host : ByteOrder⦄ where
  u16_reads :
      (v : ℕ) (rest : List ℕ) → IsU16 v → u16.read 0 (u16-Lawful.bytes v ++ rest) ≡ ok (v, rest)
  unfolding u16
  u16_reads v rest h = rw (u16-Lawful.reads 0 v rest h, u16_replaced)

  module _ {A : Type 0} {s : Serial A} {P : A → Type 0} (ls : Lawful s P) where
    vector-writes :
        (xs : List A) (out : List ℕ)
        → IsShort xs × All P xs
        → (vector s).write xs out ≡ ok (out ++ (u16-Lawful.bytes (length xs) ++ bytes_each ls xs))
    unfolding vector
    vector-writes xs out h =
        let small : length xs % 65536 ≡ length xs = omega arith in
        rw (small, u16-Lawful.writes (length xs) out h.0, take_all xs (length xs) (omega arith))
          (rw (write_each-bytes ls xs _ h.1, append_assoc))

    abbrev vector_merge : List A → List A → List A
    vector_merge old xs = merge_each ls (resize (length xs) s.fresh old) xs

    vector-reads :
        (old xs : List A) (rest : List ℕ)
        → IsShort xs × All P xs
        → (vector s).read old ((u16-Lawful.bytes (length xs) ++ bytes_each ls xs) ++ rest)
          ≡ ok (vector_merge old xs, rest)
    unfolding vector
    vector-reads old xs rest h =
        rw (append_assoc, u16_reads (length xs) (bytes_each ls xs ++ rest) h.0)
          (read_each-bytes ls (resize (length xs) s.fresh old) xs rest
            (length-resize (length xs) s.fresh old) h.1)

    vector-fresh_merge :
        (xs : List A) → IsShort xs × All P xs → vector_merge (vector s).fresh xs ≡ xs
    unfolding vector
    vector-fresh_merge xs h = rw (resize-nil (length xs) s.fresh) (merge_each-replicate ls xs h.1)

    vector-extends :
        (old xs : List A) (src rest more : List ℕ)
        → (vector s).read old src ≡ ok (xs, rest)
        → (vector s).read old (src ++ more) ≡ ok (xs, rest ++ more)
    unfolding vector
    vector-extends old xs src rest more h =
        let ((len, mid), e, h') = >>=-eq-ok (u16.read 0 src) _ h in
        rw (u16-Lawful.extends 0 len src mid more e)
          (read_each-extends ls (resize len s.fresh old) xs mid rest more h')

    vector-takes :
        (old xs : List A) (src rest : List ℕ)
        → (vector s).read old src ≡ ok (xs, rest)
        → (taken : List ℕ) × (src ≡ taken ++ rest)
    unfolding vector
    vector-takes old xs src rest h =
        let ((len, mid), e, h') = >>=-eq-ok (u16.read 0 src) _ h in
        let (front, here) = u16-Lawful.takes 0 len src mid e in
        let (back, there) = read_each_takes ls (resize len s.fresh old) xs mid rest h' in
        (front ++ back, cc (append_assoc front back rest))

    -- A vector of at most 65535 elements.
    pub vector-Lawful : Lawful (vector s) (IsVector P)
    vector-Lawful = record {
      bytes = λ xs. u16-Lawful.bytes (length xs) ++ bytes_each ls xs;
      merge = vector_merge;
      writes = vector-writes;
      reads = vector-reads;
      fresh_merge = vector-fresh_merge;
      octets = λ xs h.
          All-append IsByte (u16-Lawful.bytes (length xs)) (bytes_each ls xs)
            (u16-Lawful.octets (length xs) h.0) (bytes_each-IsByte ls xs h.1);
      extends = vector-extends;
      takes = vector-takes;
    }

  module _ (long short : Fault) where
    pub counted-writes :
        (val out : List ℕ)
        → IsShort val × All IsByte val
        → (counted_bytes long short).write val out
          ≡ ok (out ++ (u16-Lawful.bytes (length val) ++ val))
    unfolding counted_bytes
    counted-writes [] out h = rw (u16-Lawful.writes 0 out (omega arith), append-nil)
    counted-writes (b ∷ bs) out h = ground (
      arith,
      u16-Lawful.writes (length (b ∷ bs)) out,
      append_assoc out (u16-Lawful.bytes (length (b ∷ bs))) (b ∷ bs),
    )

    pub counted-reads :
        (old val rest : List ℕ)
        → IsShort val
        → (counted_bytes long short).read old ((u16-Lawful.bytes (length val) ++ val) ++ rest)
          ≡ ok (refilled old val, rest)
    unfolding counted_bytes
    counted-reads old [] rest h = rw (append-nil, u16_reads 0 rest (omega arith))
    counted-reads old (b ∷ bs) rest h =
        let val : List ℕ = b ∷ bs in
        rw
          (
            append_assoc (u16-Lawful.bytes (length val)) val rest,
            u16_reads (length val) (val ++ rest) h,
          )
          (ground (
            arith,
            length-append val rest,
            take-append_length val rest,
            drop-append_length val rest,
          ))

    refilled-nil : (val : List ℕ) → refilled (counted_bytes long short).fresh val ≡ val
    unfolding counted_bytes
    refilled-nil [] = refl
    refilled-nil (b ∷ bs) = refl

    counted-extends :
        (old val src rest more : List ℕ)
        → (counted_bytes long short).read old src ≡ ok (val, rest)
        → (counted_bytes long short).read old (src ++ more) ≡ ok (val, rest ++ more)
    unfolding counted_bytes
    counted-extends old val src rest more h =
        let ((len, mid), e, h') = >>=-eq-ok (u16.read 0 src) _ h in
        rw (u16-Lawful.extends 0 len src mid more e) (
          ground (
            arith,
            h',
            length-append mid more,
            take-append_le len mid more,
            drop-append_le len mid more,
          ))

    counted_rest :
        (len : ℕ) (old val mid rest : List ℕ)
        → refill short len old mid ≡ ok (val, rest)
        → (taken : List ℕ) × (mid ≡ taken ++ rest)
    unfolding refill
    counted_rest len old val mid rest h = elim (Bool-cases (len == 0)) [
      | inl none_left ↦ ([], ground arith)
      | inr some_left ↦ (take len mid, ground (arith, take-append-drop len mid))
    ]

    counted-takes :
        (old val src rest : List ℕ)
        → (counted_bytes long short).read old src ≡ ok (val, rest)
        → (taken : List ℕ) × (src ≡ taken ++ rest)
    unfolding counted_bytes
    counted-takes old val src rest h =
        let ((len, mid), e, h') = >>=-eq-ok (u16.read 0 src) _ h in
        let (front, here) = u16-Lawful.takes 0 len src mid e in
        let (back, there) = counted_rest len old val mid rest h' in
        (front ++ back, cc (append_assoc front back rest))

    pub counted-Lawful : Lawful (counted_bytes long short) IsText
    counted-Lawful = record {
      bytes = λ val. u16-Lawful.bytes (length val) ++ val;
      merge = refilled;
      writes = counted-writes;
      reads = λ old val rest h. counted-reads old val rest h.0;
      fresh_merge = λ val h. refilled-nil val;
      octets = λ val h.
          All-append IsByte (u16-Lawful.bytes (length val)) val (u16-Lawful.octets (length val) h.0)
            h.1;
      extends = counted-extends;
      takes = counted-takes;
    }

  pub string-Lawful : Lawful string IsText
  unfolding string
  string-Lawful = counted-Lawful string_too_long end_of_string

  pub char_vector-Lawful : Lawful char_vector IsText
  unfolding char_vector
  char_vector-Lawful = counted-Lawful array_too_long end_of_array
