-- ===== src/Base58/RoundTrip.antt =====
-- hexa/base58.cpp from bytes to text and back.
use hexahedra.Base.{
  ℕ, zero, suc, ◌+◌, ◌*◌, ◌/◌, ◌^◌, ◌≤◌, ◌<◌, ◌≡◌, ◌≢◌, refl, ap, ◌∙◌, List, [], ◌∷◌, ◌++◌, length,
  map, replicate, ◌==◌, ◌&&◌, ◌||◌, not, All, All-append, arith, inl, inr, Bool, Bool-cases, true,
  false, Option, none, some,
}
use hexahedra.Wire.Sequences.{Text}
use hexahedra.Base58.{
  done, alphabet, multiply_add, convert, count_leading, position, character, decode_chars, c_str,
  base58_decode, base58_encode,
}
use hexahedra.Base58.Digits.{value, IsDigit}
use hexahedra.Base58.Convert.{convert-Takes}
use hexahedra.Base58.Leading.{
  NotLed, count_leading-NotLed, count_leading-append, count_leading-All, count_leading-value,
  count_leading_front, value-replicate, replicate-IsDigit, length-replicate, value-canonical,
}
use hexahedra.Base58.Power.{every, every_below, decode_room, encode_room}
use hexahedra.Base58.Digits.{value_lt}

abbrev digit_char : ℕ → ℕ
digit_char d = character d alphabet

-- The characters of the digits are found at their places, none is a terminator, and only that of 0
-- is a '1'.
abbrev is_found : ℕ → Bool
is_found d = elim (position (digit_char d) alphabet) [ none ↦ false | some i ↦ i == d ]

found_table : every 58 is_found ≡ true
unfolding every position character alphabet
found_table = refl

char_table :
    every 58 (λ d. not (digit_char d == 0) && ((d == 0) || not (digit_char d == 49))) ≡ true
unfolding every character alphabet
char_table = refl

found_at :
    (o : Option ℕ) (d : ℕ)
    → elim o as (λ x. Bool) [ none ↦ false | some i ↦ i == d ] ≡ true
    → o ≡ some d
found_at none d h = absurd (cc)
found_at (some i) d h = let same : i ≡ d = ground arith in ap some same

digit-found : (d : ℕ) → d < 58 → position (digit_char d) alphabet ≡ some d
digit-found d lt =
    found_at (position (digit_char d) alphabet) d (every_below 58 is_found d found_table lt)

char_lem :
    (c d : ℕ) → (not (c == 0) && ((d == 0) || not (c == 49))) ≡ true → (c ≢ 0) × (d ≢ 0 → c ≢ 49)
char_lem c d h = ground arith

digit_char_lem : (d : ℕ) → d < 58 → (digit_char d ≢ 0) × (d ≢ 0 → digit_char d ≢ 49)
digit_char_lem d lt = char_lem (digit_char d) d (
    every_below 58 (λ i. not (digit_char i == 0) && ((i == 0) || not (digit_char i == 49))) d
      char_table lt)

-- The decoder's loop over the characters of digits is the loop over the digits.
decode_chars-convert :
    (ds buffer : List ℕ)
    → All (IsDigit 58) ds
    → decode_chars (map digit_char ds) buffer ≡ convert 256 58 ds buffer
unfolding decode_chars convert
decode_chars-convert [] buffer h = refl
decode_chars-convert (d ∷ ds) buffer (lt, h) =
    let carry = (multiply_add 256 58 d buffer).1 in
    elim (Bool-cases (carry == 0)) [
      | inl fits ↦
          rw (digit-found d lt, decode_chars)
            (rw fits (decode_chars-convert ds (multiply_add 256 58 d buffer).0 h))
      | inr left ↦ rw (digit-found d lt, decode_chars) (rw left refl)
    ]

c_str-All : (cs : Text) → All (λ (c : ℕ). c ≢ 0) cs → c_str cs ≡ cs
unfolding c_str
c_str-All [] h = refl
c_str-All (c ∷ cs) (ne, h) =
    let away : (c == 0) ≡ false = ground arith in rw away (ap (◌∷◌ c) (c_str-All cs h))

chars-All : (ds : List ℕ) → All (IsDigit 58) ds → All (λ (c : ℕ). c ≢ 0) (map digit_char ds)
chars-All [] h = tt
chars-All (d ∷ ds) (lt, h) = ((digit_char_lem d lt).0, chars-All ds h)

ones-All : (n : ℕ) → All (λ (c : ℕ). c ≢ 0) (replicate n 49)
ones-All zero = tt
ones-All (suc n) = (omega arith, ones-All n)

room : (v w s : ℕ) → v < w → w ≤ s → 0 * w + v < s
room v w s lt le = grind arith

chars-NotLed : (ds : List ℕ) → All (IsDigit 58) ds → NotLed 0 ds → NotLed 49 (map digit_char ds)
chars-NotLed [] h n = tt
chars-NotLed (d ∷ ds) (lt, h) n = (digit_char_lem d lt).1 n

length-chars : (ds : List ℕ) → length (map digit_char ds) ≡ length ds
length-chars [] = refl
length-chars (d ∷ ds) = ap suc (length-chars ds)

-- The text of bytes, without the '1's for the zeros at their front: the digits of their number.
record Encoded (bytes : List ℕ) : Type 0 where
  b58 : List ℕ
  returns : convert 58 256 bytes (replicate (length bytes * 138 / 100 + 1) 0) ≡ done b58
  in_base : All (IsDigit 58) (count_leading 0 b58).1
  stands_for : value 58 (count_leading 0 b58).1 ≡ value 256 bytes

-- The buffers have room for the numbers, so that no carry is left.
convert-Encoded : (bytes : List ℕ) → All (IsDigit 256) bytes → Encoded bytes
convert-Encoded bytes h =
    let n = length bytes * 138 / 100 + 1 in
    let nothing = value-replicate 58 n in
    let size = length-replicate n 0 in
    let t =
      convert-Takes 58 256 (omega arith) (omega arith) bytes (replicate n 0)
        (replicate-IsDigit 58 n (omega arith))
        (rw (nothing, size)
          (room (value 256 bytes) (256 ^ length bytes) (58 ^ n) (value_lt 256 (omega arith) bytes h)
            (encode_room (length bytes)))) in
    record {
      b58 = t.out;
      returns = t.returns;
      in_base = count_leading-All (IsDigit 58) 0 t.out t.in_base;
      stands_for = count_leading-value 58 t.out ∙ t.stands_for ∙ rw nothing (omega arith);
    }

-- The digits of a number of bytes that do not begin with 0 are decoded to these bytes.
decoded :
    (bytes ds : List ℕ)
    → All (IsDigit 256) bytes
    → NotLed 0 bytes
    → All (IsDigit 58) ds
    → value 58 ds ≡ value 256 bytes
    → (out : List ℕ) × (convert 256 58 ds (replicate (length ds * 733 / 1000 + 1) 0) ≡ done out)
      × ((count_leading 0 out).1 ≡ bytes)
decoded bytes ds h led hd same =
    let n = length ds * 733 / 1000 + 1 in
    let nothing = value-replicate 256 n in
    let size = length-replicate n 0 in
    let t =
      convert-Takes 256 58 (omega arith) (omega arith) ds (replicate n 0)
        (replicate-IsDigit 256 n (omega arith))
        (rw (nothing, size)
          (room (value 58 ds) (58 ^ length ds) (256 ^ n) (value_lt 58 (omega arith) ds hd)
            (decode_room (length ds)))) in
    let total : value 256 t.out ≡ value 58 ds = t.stands_for ∙ rw nothing (omega arith) in
    (
      t.out,
      t.returns,
      value-canonical 256 (omega arith) (count_leading 0 t.out).1 bytes
          (count_leading-All (IsDigit 256) 0 t.out t.in_base) h (count_leading-NotLed 0 t.out) led
          (count_leading-value 256 t.out ∙ total ∙ same),
    )

encode_steps :
    (input b58 : List ℕ)
    → convert 58 256
        (count_leading 0 input).1
        (replicate (length (count_leading 0 input).1 * 138 / 100 + 1) 0)
      ≡ done b58
    → base58_encode input
      ≡ done (replicate (count_leading 0 input).0 49 ++ map digit_char (count_leading 0 b58).1)
unfolding base58_encode
encode_steps input b58 e = rw (e, base58_encode) refl

decode_steps :
    (text psz : Text) (z : ℕ) (b256 : List ℕ)
    → count_leading 49 (c_str text) ≡ (z, psz)
    → decode_chars psz (replicate (length psz * 733 / 1000 + 1) 0) ≡ done b256
    → base58_decode text ≡ done (replicate z 0 ++ (count_leading 0 b256).1)
unfolding base58_decode
decode_steps text psz z b256 led e =
    rw (led, base58_decode)
      (rw e (ap (λ (r : ℕ × Text). done (replicate r.0 0 ++ (count_leading 0 b256).1)) led))

-- Every list of bytes, with zeros at its front or empty, is encoded without a failed assertion, and
-- the text decodes to the same bytes, again without a failure.
pub base58_decode-base58_encode :
    (input : List ℕ)
    → All (IsDigit 256) input
    → (text : Text) × (base58_encode input ≡ done text) × (base58_decode text ≡ done input)
base58_decode-base58_encode input h =
    let z = (count_leading 0 input).0 in
    let bytes = (count_leading 0 input).1 in
    let e = convert-Encoded bytes (count_leading-All (IsDigit 256) 0 input h) in
    let ds = (count_leading 0 e.b58).1 in
    let psz = map digit_char ds in
    let text = replicate z 49 ++ psz in
    let (out, run, trimmed) =
      decoded bytes ds (count_leading-All (IsDigit 256) 0 input h) (count_leading-NotLed 0 input)
        e.in_base e.stands_for in
    let whole : c_str text ≡ text =
      c_str-All text (
        All-append (λ (c : ℕ). c ≢ 0) (replicate z 49) psz (ones-All z) (chars-All ds e.in_base)) in
    let led : count_leading 49 (c_str text) ≡ (z, psz) =
      ap (count_leading 49) whole
      ∙ count_leading_front 49 z psz (chars-NotLed ds e.in_base (count_leading-NotLed 0 e.b58)) in
    let run' : decode_chars psz (replicate (length psz * 733 / 1000 + 1) 0) ≡ done out =
      ap (λ n. decode_chars psz (replicate (n * 733 / 1000 + 1) 0)) (length-chars ds)
      ∙ decode_chars-convert ds (replicate (length ds * 733 / 1000 + 1) 0) e.in_base
      ∙ run in
    (
      text,
      encode_steps input e.b58 e.returns,
      decode_steps text psz z out led run'
          ∙ ap (λ xs. done (replicate z 0 ++ xs)) trimmed
          ∙ ap done (count_leading-append 0 input),
    )
