-- ===== src/Wire/Defs.antt =====
-- The archives of hexa/serialize.hpp: a serializer appends bytes to a buffer, a deserializer moves
-- a cursor over one and fills an object that is there already.
use hexahedra.Base.{ℕ, ◌≡◌, refl, List, [], length, take, drop, leb, if◌then◌else◌}

-- Where the model of an operation ends early: an exception, by its text, or a read past the end of
-- the buffer. For such a read C++ gives no result: `past_the_end` is the failed `assert` of
-- `boundary_check`, which aborts the program, and which a build with NDEBUG leaves out, so that the
-- read goes on into memory behind the buffer; `out_of_bounds` is a read that nothing checks in any
-- build. No caller gets hold of these two.
pub data Fault : Type 0 where
  string_too_long array_too_long past_the_end out_of_bounds end_of_string end_of_array : Fault

-- A step of an archive ends in a value or in a fault.
pub data Result {ℓ} (R : Type ℓ) : Type ℓ where
  err : Fault → Result R
  ok : R → Result R

infixl 5 ◌>>=◌
abbrev pub ◌>>=◌ {ℓ κ} : {R : Type ℓ} {S : Type κ} → Result R → (R → Result S) → Result S
err fault >>= next = err fault
ok value >>= next = next value

-- Two steps that succeed do so one after the other.
pub >>=-eq-ok {ℓ κ} :
    {R : Type ℓ} {S : Type κ} (first : Result R) (next : R → Result S) {end : S}
    → (first >>= next) ≡ ok end
    → (mid : R) × (first ≡ ok mid) × (next mid ≡ ok end)
>>=-eq-ok (err fault) next both = cc
>>=-eq-ok (ok value) next both = (value, refl, both)

-- How values of one C++ type pass through an archive. `write` appends to the buffer; `read` fills
-- an object, given by its value before, from the bytes at the cursor, and returns the bytes behind
-- the new cursor; `fresh` is a newly made object (with 0 for what C++ leaves indeterminate).
pub record Serial (A : Type 0) : Type 0 where
  pub write : A → List ℕ → Result (List ℕ)
  pub read : A → List ℕ → Result (A × List ℕ)
  pub fresh : A

-- `boundary_check`, an `assert` that is left out of a build with NDEBUG. Either way a read of
-- `size` bytes has a result from the buffer only if it has so many left.
unfoldable pub boundary_check : ℕ → List ℕ → Result (Unit {0})
boundary_check size src = if leb size (length src) then ok tt else err past_the_end

-- The `size` bytes at the cursor, and the cursor behind them.
unfoldable pub read_raw : ℕ → List ℕ → Result (List ℕ × List ℕ)
unfolding boundary_check
read_raw size src = do _ ← boundary_check size src; ok (take size src, drop size src)

-- `serialize`: one object into an empty buffer.
abbrev pub serialize : {A : Type 0} → Serial A → A → Result (List ℕ)
serialize s a = s.write a []

-- `deserialize_as`: an empty buffer leaves the object as it was.
unfoldable pub deserialize_as : {A : Type 0} → Serial A → List ℕ → A → Result A
deserialize_as s buffer result =
    if leb (length buffer) 0 then ok result else (do (a, _) ← s.read result buffer; ok a)

module _ {A B : Type 0} where
  -- `ar(a)(b)`
  infixr 20 ◌▸◌
  unfoldable pub ◌▸◌ : Serial A → Serial B → Serial (A × B)
  s ▸ t = record {
    write = λ p out. s.write p.0 out >>= t.write p.1;
    read = λ p src. (do (a, mid) ← s.read p.0 src; (b, rest) ← t.read p.1 mid; ok ((a, b), rest));
    fresh = (s.fresh, t.fresh);
  }

  -- An object whose archived fields make up an `A`: `from` gives those fields and `into` replaces
  -- them in the object that is read.
  unfoldable pub via : B → (B → A → B) → (B → A) → Serial A → Serial B
  via fresh into from s = record {
    write = λ b out. s.write (from b) out;
    read = λ b src. (do (a, rest) ← s.read (from b) src; ok (into b a, rest));
    fresh = fresh;
  }

  -- An object that is made of archived fields alone.
  unfoldable pub fields : (A → B) → (B → A) → Serial A → Serial B
  unfolding via
  fields to from s = via (to s.fresh) (λ _ a. to a) from s

module _ {A : Type 0} where
  -- A read behind a `boundary_check`.
  unfoldable pub checked : ℕ → Serial A → Serial A
  checked size s = record s { read = λ a src. boundary_check size src >>= λ _. s.read a src }

  -- A member that the constructor sets to `value`.
  unfoldable pub initially : A → Serial A → Serial A
  initially value s = record s { fresh = value }
