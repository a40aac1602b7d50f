-- ===== src/Protocol/Packet/Laws.antt =====
-- Packets of an archived type.
use hexahedra.Base.{ℕ, ◌≡◌, refl, List, [], ◌∷◌, ◌++◌, append-nil}
use hexahedra.Wire.Defs.{Fault, Result, ok, err, ◌>>=◌, Serial}
use hexahedra.Wire.Laws.Defs.{Lawful}
use hexahedra.Protocol.Packet.{serialize_packet, make}

>>=-err {ℓ κ} :
    {A : Type ℓ} {B : Type κ} (r : Result A) (f : A → Result B) (e : Fault)
    → r ≡ err e
    → (r >>= f) ≡ err e
>>=-err r f e h = rw h

append-ne-nil : (rest back : List ℕ) (x : ℕ) → rest ++ (x ∷ back) ≡ [] → ⊥
append-ne-nil [] back x h = cc
append-ne-nil (y ∷ rest) back x h = cc

module _ {A : Type 0} {s : Serial A} {P : A → Type 0} where
  pub serialize_packet-bytes :
      (id : ℕ) (ls : Lawful s P) (m : A) → P m → serialize_packet id s m ≡ ok (id ∷ ls.bytes m)
  unfolding serialize_packet
  serialize_packet-bytes id ls m h = ls.writes m (id ∷ []) h

  whole :
      (ls : Lawful s P) (m : A) → P m → s.read s.fresh (ls.bytes m) ≡ ok (ls.merge s.fresh m, [])
  whole ls m h = rw append-nil at (ls.reads s.fresh m [] h)

  pub make-bytes : (ls : Lawful s P) (m : A) → P m → make s (ls.bytes m) ≡ ok m
  unfolding make
  make-bytes ls m h = rw (whole ls m h, ls.fresh_merge m h)

  -- A body that lost its end is read by no one.
  read_truncated :
      (ls : Lawful s P) (m : A) (front back : List ℕ) (x : ℕ)
      → P m
      → ls.bytes m ≡ front ++ (x ∷ back)
      → (r : Result (A × List ℕ)) → s.read s.fresh front ≡ r
      → (e : Fault) × (r ≡ err e)
  read_truncated ls m front back x h sent (err e) eq = (e, refl)
  read_truncated ls m front back x h sent (ok (a, rest)) eq =
      absurd (
        append-ne-nil rest back x
          (cc (whole ls m h, ls.extends s.fresh a front rest (x ∷ back) eq)))

  pub make_truncated :
      (id : ℕ) (ls : Lawful s P) (m : A) (front back : List ℕ) (x : ℕ)
      → P m
      → serialize_packet id s m ≡ ok (id ∷ (front ++ (x ∷ back)))
      → (e : Fault) × (make s front ≡ err e)
  unfolding make
  make_truncated id ls m front back x h sent =
      let same : ls.bytes m ≡ front ++ (x ∷ back) = cc (serialize_packet-bytes id ls m h) in
      let (e, refused) = read_truncated ls m front back x h same (s.read s.fresh front) refl in
      (e, >>=-err (s.read s.fresh front) _ e refused)
