-- ===== src/Wire/Laws/Combinators.antt =====
-- The contract for fields one after the other, for records and behind a boundary check.
use hexahedra.Base.{ℕ, ◌≤◌, ◌≡◌, List, ◌++◌, append_assoc, length, length-append, All-append, arith}
use hexahedra.Wire.Defs.{
  ok, >>=-eq-ok, Serial, boundary_check, ◌▸◌, via, fields, initially, checked,
}
use hexahedra.Wire.Scalars.{IsByte}
use hexahedra.Wire.Laws.Defs.{Lawful}

abbrev pub Both : {A B : Type 0} → (A → Type 0) → (B → Type 0) → A × B → Type 0
Both P Q p = P p.0 × Q p.1

module _ {A B : Type 0} {s : Serial A} {t : Serial B} {P : A → Type 0} {Q : B → Type 0}
    (ls : Lawful s P) (lt : Lawful t Q) where
  ▸-writes :
      (p : A × B) (out : List ℕ)
      → Both P Q p
      → (s ▸ t).write p out ≡ ok (out ++ (ls.bytes p.0 ++ lt.bytes p.1))
  unfolding ◌▸◌
  ▸-writes p out h =
      rw (ls.writes p.0 out h.0, lt.writes p.1 (out ++ ls.bytes p.0) h.1, append_assoc)

  abbrev ▸_merge : A × B → A × B → A × B
  ▸_merge old p = (ls.merge old.0 p.0, lt.merge old.1 p.1)

  ▸-reads :
      (old p : A × B) (rest : List ℕ)
      → Both P Q p
      → (s ▸ t).read old ((ls.bytes p.0 ++ lt.bytes p.1) ++ rest) ≡ ok (▸_merge old p, rest)
  unfolding ◌▸◌
  ▸-reads old p rest h =
      rw (append_assoc, ls.reads old.0 p.0 (lt.bytes p.1 ++ rest) h.0, lt.reads old.1 p.1 rest h.1)

  ▸-fresh_merge : (p : A × B) → Both P Q p → ▸_merge (s ▸ t).fresh p ≡ p
  unfolding ◌▸◌
  ▸-fresh_merge p h = rw (ls.fresh_merge p.0 h.0, lt.fresh_merge p.1 h.1)

  ▸-extends :
      (old p : A × B) (src rest more : List ℕ)
      → (s ▸ t).read old src ≡ ok (p, rest)
      → (s ▸ t).read old (src ++ more) ≡ ok (p, rest ++ more)
  unfolding ◌▸◌
  ▸-extends old p src rest more h =
      let ((a, mid), e, h') = >>=-eq-ok (s.read old.0 src) _ h in
      let ((b, rest'), e', h'') = >>=-eq-ok (t.read old.1 mid) _ h' in
      rw (ls.extends old.0 a src mid more e, lt.extends old.1 b mid rest' more e') (cc)

  ▸-takes :
      (old p : A × B) (src rest : List ℕ)
      → (s ▸ t).read old src ≡ ok (p, rest)
      → (taken : List ℕ) × (src ≡ taken ++ rest)
  unfolding ◌▸◌
  ▸-takes old p src rest h =
      let ((a, mid), e, h') = >>=-eq-ok (s.read old.0 src) _ h in
      let ((b, rest'), e', h'') = >>=-eq-ok (t.read old.1 mid) _ h' in
      let (front, here) = ls.takes old.0 a src mid e in
      let (back, there) = lt.takes old.1 b mid rest' e' in
      (front ++ back, cc (append_assoc front back rest'))

  -- Two fields, one after the other.
  unfoldable pub ▸-Lawful : Lawful (s ▸ t) (Both P Q)
  unfolding ▸-writes ▸-reads ▸-fresh_merge ▸-extends ▸-takes
  ▸-Lawful = record {
    bytes = λ p. ls.bytes p.0 ++ lt.bytes p.1;
    merge = ▸_merge;
    writes = ▸-writes;
    reads = ▸-reads;
    fresh_merge = ▸-fresh_merge;
    octets = λ p h.
        All-append IsByte (ls.bytes p.0) (lt.bytes p.1) (ls.octets p.0 h.0) (lt.octets p.1 h.1);
    extends = ▸-extends;
    takes = ▸-takes;
  }

module _ {A B : Type 0} {s : Serial A} {P : A → Type 0} (ls : Lawful s P) (fresh : B)
    (into : B → A → B) (from : B → A) {Q : B → Type 0} (from-fresh : from fresh ≡ s.fresh)
    (fits : (b : B) → Q b → P (from b)) (into-from : (b : B) → Q b → into fresh (from b) ≡ b) where
  abbrev via_merge : B → B → B
  via_merge old b = into old (ls.merge (from old) (from b))

  via-reads :
      (old b : B) (rest : List ℕ)
      → Q b
      → (via fresh into from s).read old (ls.bytes (from b) ++ rest) ≡ ok (via_merge old b, rest)
  unfolding via
  via-reads old b rest h = rw (ls.reads (from old) (from b) rest (fits b h))

  via-fresh_merge : (b : B) → Q b → via_merge fresh b ≡ b
  via-fresh_merge b h = rw (from-fresh, ls.fresh_merge (from b) (fits b h)) (into-from b h)

  via-extends :
      (old b : B) (src rest more : List ℕ)
      → (via fresh into from s).read old src ≡ ok (b, rest)
      → (via fresh into from s).read old (src ++ more) ≡ ok (b, rest ++ more)
  unfolding via
  via-extends old b src rest more h =
      let ((a, rest'), e, h') = >>=-eq-ok (s.read (from old) src) _ h in
      rw (ls.extends (from old) a src rest' more e) (cc)

  via-takes :
      (old b : B) (src rest : List ℕ)
      → (via fresh into from s).read old src ≡ ok (b, rest)
      → (taken : List ℕ) × (src ≡ taken ++ rest)
  unfolding via
  via-takes old b src rest h =
      let ((a, rest'), e, h') = >>=-eq-ok (s.read (from old) src) _ h in
      let (taken, here) = ls.takes (from old) a src rest' e in (taken, cc)

  -- An object with archived fields.
  unfoldable pub via-Lawful : Lawful (via fresh into from s) Q
  unfolding via via-reads via-fresh_merge via-extends via-takes
  via-Lawful = record {
    bytes = λ b. ls.bytes (from b);
    merge = via_merge;
    writes = λ b out h. ls.writes (from b) out (fits b h);
    reads = via-reads;
    fresh_merge = via-fresh_merge;
    octets = λ b h. ls.octets (from b) (fits b h);
    extends = via-extends;
    takes = via-takes;
  }

-- An object that is made of archived fields alone.
unfoldable pub fields-Lawful :
    {A B : Type 0} {s : Serial A} {P : A → Type 0} (ls : Lawful s P) (to : A → B) (from : B → A)
    {Q : B → Type 0} (from-to : from (to s.fresh) ≡ s.fresh) (fits : (b : B) → Q b → P (from b))
    (to-from : (b : B) → Q b → to (from b) ≡ b)
    → Lawful (fields to from s) Q
unfolding fields via-Lawful
fields-Lawful {s} ls to from from-to fits to-from =
    via-Lawful ls (to s.fresh) (λ _ a. to a) from from-to fits to-from

-- A member with an initial value that no read keeps.
unfoldable pub initially-Lawful :
    {A : Type 0} {s : Serial A} {P : A → Type 0} (ls : Lawful s P) (value : A)
    → ((a : A) → P a → ls.merge value a ≡ a)
    → Lawful (initially value s) P
unfolding initially
initially-Lawful ls value replaced = record {
  bytes = ls.bytes;
  merge = ls.merge;
  writes = ls.writes;
  reads = ls.reads;
  fresh_merge = replaced;
  octets = ls.octets;
  extends = ls.extends;
  takes = ls.takes;
}

pub boundary_check-append :
    (size : ℕ) (src more : List ℕ)
    → boundary_check size src ≡ ok tt
    → boundary_check size (src ++ more) ≡ ok tt
unfolding boundary_check
boundary_check-append size src more h = ground (arith, length-append src more)

module _ {A : Type 0} {s : Serial A} {P : A → Type 0} (ls : Lawful s P) (size : ℕ)
    (room : (a : A) → P a → size ≤ length (ls.bytes a)) where
  checked-reads :
      (old a : A) (rest : List ℕ)
      → P a
      → (checked size s).read old (ls.bytes a ++ rest) ≡ ok (ls.merge old a, rest)
  unfolding checked boundary_check
  checked-reads old a rest h =
      ground (arith, room a h, length-append (ls.bytes a) rest, ls.reads old a rest h)

  checked-extends :
      (old a : A) (src rest more : List ℕ)
      → (checked size s).read old src ≡ ok (a, rest)
      → (checked size s).read old (src ++ more) ≡ ok (a, rest ++ more)
  unfolding checked
  checked-extends old a src rest more h =
      let (u, e, h') = >>=-eq-ok (boundary_check size src) _ h in
      rw (boundary_check-append size src more e) (ls.extends old a src rest more h')

  checked-takes :
      (old a : A) (src rest : List ℕ)
      → (checked size s).read old src ≡ ok (a, rest)
      → (taken : List ℕ) × (src ≡ taken ++ rest)
  unfolding checked
  checked-takes old a src rest h =
      let (u, e, h') = >>=-eq-ok (boundary_check size src) _ h in ls.takes old a src rest h'

  -- A boundary check that the format satisfies.
  unfoldable pub checked-Lawful : Lawful (checked size s) P
  unfolding checked checked-reads checked-extends checked-takes
  checked-Lawful = record {
    bytes = ls.bytes;
    merge = ls.merge;
    writes = ls.writes;
    reads = checked-reads;
    fresh_merge = ls.fresh_merge;
    octets = ls.octets;
    extends = checked-extends;
    takes = checked-takes;
  }
