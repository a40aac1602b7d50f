-- ===== src/Sessions/Admission.antt =====
-- Logins with a uid: who is let in by `network::login` of hexa/server/network.cpp, and as whom.
use hexahedra.Base.{
  ℕ, ◌+◌, ◌*◌, ◌≡◌, ◌≢◌, ◌↔◌, refl, sym, ap, ◌∙◌, inl, inr, List, [], ◌∷◌, some, true, false,
  length, All, arith, Bool-cases,
}
use hexahedra.Wire.Endian.{ByteOrder, little_endian, big_endian, load, low_value, high_value}
use hexahedra.Wire.Sequences.{Text}
use hexahedra.Protocol.Login.{Login}
use hexahedra.Base58.{done, base58_decode}
use hexahedra.Base58.Digits.{IsDigit}
use hexahedra.Sessions.Identity.{
  EntitySystem, EntityLaws, Has, Ptree, player, singleplayer, ecdh, method_key, uid_key,
  public_key_key, is_same, get_or, find_or_add, identify_ecdh, identify,
}
use hexahedra.Sessions.Players.{UidsAreUnique, find_or_add-Found}
use hexahedra.Sessions.Growth.{touch_clock-es, on_login-Grown, run-Grown}
use mathlib.Core.Path.{subst}
use hexahedra.Sessions.{Sessions, Server, Event, welcomed, answer, on_login, run, register}

low_value-injective :
    (xs ys : List ℕ)
    → All (IsDigit 256) xs
    → All (IsDigit 256) ys
    → length xs ≡ length ys
    → low_value xs ≡ low_value ys
    → xs ≡ ys
low_value-injective [] [] hx hy size same = refl
low_value-injective [] (y ∷ ys) hx hy size same = absurd (omega arith)
low_value-injective (x ∷ xs) [] hx hy size same = absurd (omega arith)
low_value-injective (x ∷ xs) (y ∷ ys) (lx, hx) (ly, hy) size same =
    let first : x ≡ y = omega arith in
    let later : low_value xs ≡ low_value ys = omega arith in
    let rest = low_value-injective xs ys hx hy (omega arith) later in cc

high_value-injective :
    (a b : ℕ) (xs ys : List ℕ)
    → All (IsDigit 256) xs
    → All (IsDigit 256) ys
    → length xs ≡ length ys
    → high_value a xs ≡ high_value b ys
    → (a ≡ b) × (xs ≡ ys)
high_value-injective a b [] [] hx hy size same = (same, refl)
high_value-injective a b [] (y ∷ ys) hx hy size same = absurd (omega arith)
high_value-injective a b (x ∷ xs) [] hx hy size same = absurd (omega arith)
high_value-injective a b (x ∷ xs) (y ∷ ys) (lx, hx) (ly, hy) size same =
    let (front, rest) =
      high_value-injective (256 * a + x) (256 * b + y) xs ys hx hy (omega arith) same in
    let first : x ≡ y = omega arith in (omega arith, cc)

load-injective :
    ⦃host : ByteOrder⦄ (xs ys : List ℕ)
    → All (IsDigit 256) xs
    → All (IsDigit 256) ys
    → length xs ≡ length ys
    → load xs ≡ load ys
    → xs ≡ ys
unfolding load
load-injective ⦃host = little_endian⦄ xs ys hx hy size same =
    low_value-injective xs ys hx hy size same
load-injective ⦃host = big_endian⦄ xs ys hx hy size same =
    (high_value-injective 0 0 xs ys hx hy size same).1

pub is_same-eq : (a b : Text) → is_same a b ≡ true → a ≡ b
unfolding is_same
is_same-eq [] [] h = refl
is_same-eq [] (b ∷ t) h = absurd (cc)
is_same-eq (a ∷ s) [] h = absurd (cc)
is_same-eq (a ∷ s) (b ∷ t) h =
    let first : a ≡ b = ground arith in
    let rest : is_same s t ≡ true = ground arith in let tail = is_same-eq s t rest in cc

pub is_same_ne : (a b : Text) → a ≢ b → is_same a b ≡ false
is_same_ne a b ne = elim (Bool-cases (is_same a b)) [
  | inl h ↦ absurd (ne (is_same-eq a b h))
  | inr h ↦ h
]

-- The credentials of a login that presents a uid of eight bytes, with a public key.
pub record Presents (server : Server) (m : Login) (uid : List ℕ) : Type 0 where
  pub tree : Ptree
  pub text : Text
  pub key : Text
  pub readable : server.read_json m.credentials ≡ some tree
  pub by_key : tree method_key ≡ some ecdh
  pub with_uid : tree uid_key ≡ some text
  pub with_key : tree public_key_key ≡ some key
  pub decodes : base58_decode text ≡ done uid
  pub eight : length uid ≡ 8
  pub bytes : All (IsDigit 256) uid

module _ {E : Type 0} ⦃system : EntitySystem E⦄ ⦃host : ByteOrder⦄ (server : Server)
    (multi : server.mode ≢ singleplayer) where
  module _ (m : Login) (uid : List ℕ) (p : Presents server m uid) (es : E) where
    method-ecdh : get_or p.tree method_key singleplayer ≡ ecdh
    unfolding get_or
    method-ecdh = rw (get_or, p.by_key) refl

    identify_ecdh-player :
        identify_ecdh p.tree es ≡ player (find_or_add (load uid) es).0 (find_or_add (load uid) es).1
    unfolding identify_ecdh
    identify_ecdh-player =
        rw (identify_ecdh, p.with_uid) (rw (p.decodes) (rw (p.with_key) (rw (p.eight) refl)))

    identify-player :
        identify server.mode p.tree es
        ≡ player (find_or_add (load uid) es).0 (find_or_add (load uid) es).1
    unfolding identify is_same
    identify-player =
        rw (identify, method-ecdh)
          (rw (is_same_ne server.mode singleplayer multi) identify_ecdh-player)

  on_login-answer :
      (c : ℕ) (m : Login) (uid : List ℕ) (s : Sessions E)
      → Presents server m uid
      → on_login server c m s
        ≡ answer c s (player (find_or_add (load uid) s.es).0 (find_or_add (load uid) s.es).1)
  unfolding on_login
  on_login-answer c m uid s p =
      rw (on_login, p.readable) (ap (answer c s) (identify-player m uid p s.es))

  answer-es : (c plr : ℕ) (s : Sessions E) (es : E) → (answer c s (player plr es)).0.es ≡ es
  unfolding answer register
  answer-es c plr s es = touch_clock-es c (register c plr (record s { es = es }))

  answer-report :
      (c plr : ℕ) (s : Sessions E) (es : E) → (answer c s (player plr es)).1 ≡ welcomed plr
  unfolding answer
  answer-report c plr s es = refl

  module _ (laws : EntityLaws system) where
    -- A login that presents a uid of eight bytes to a server of more than one player lets the peer
    -- in, as a player that has this uid from then on.
    pub on_login-Has :
        (c : ℕ) (m : Login) (uid : List ℕ) (s : Sessions E)
        → Presents server m uid
        → (e : ℕ) × ((on_login server c m s).1 ≡ welcomed e)
          × Has e (load uid) (system.player_uids (on_login server c m s).0.es)
    on_login-Has c m uid s p =
        let (e, es) = find_or_add (load uid) s.es in
        let ended = on_login-answer c m uid s p in
        let found = find_or_add-Found laws (load uid) s.es in
        (
          e,
          ap (λ r. r.1) ended ∙ answer-report c e s es,
          subst (λ (x : E). Has e (load uid) (system.player_uids x))
              (sym (ap (λ r. r.0.es) ended ∙ answer-es c e s es)) found.has,
        )

    -- When two logins present uids of eight bytes to a server of more than one player, with any
    -- events in between, and no uid was ambiguous before, both peers are let in, and as the same
    -- player exactly when the uids are the same.
    pub on_login-same_player :
        (c c' : ℕ) (m m' : Login) (uid uid' : List ℕ) (s : Sessions E) (events : List Event)
        → UidsAreUnique (system.player_uids s.es)
        → Presents server m uid
        → Presents server m' uid'
        → (e : ℕ) × (e' : ℕ) × ((on_login server c m s).1 ≡ welcomed e)
          × ((on_login server c' m' (run server events (on_login server c m s).0)).1 ≡ welcomed e')
          × ((e ≡ e') ↔ (uid ≡ uid'))
    on_login-same_player c c' m m' uid uid' s events before p p' =
        let s₁ = (on_login server c m s).0 in
        let s₂ = run server events s₁ in
        let s₃ = (on_login server c' m' s₂).0 in
        let (e, welcome, has) = on_login-Has c m uid s p in
        let (e', welcome', has') = on_login-Has c' m' uid' s₂ p' in
        let first = on_login-Grown laws server c m s in
        let between = run-Grown laws server events s₁ in
        let second = on_login-Grown laws server c' m' s₂ in
        let after = second.unique (between.unique (first.unique before)) in
        let had = second.keeps e (load uid) (between.keeps e (load uid) has) in
        (
          e,
          e',
          welcome,
          welcome',
          (
            λ same. load-injective uid uid' p.bytes p'.bytes (p.eight ∙ sym p'.eight) (
                after.one_uid e (load uid) (load uid') had
                  (subst (λ x. Has x (load uid') (system.player_uids s₃.es)) (sym same) has')),
            λ same.
                after.one_entity e e' (load uid) had
                  (subst (λ x. Has e' (load x) (system.player_uids s₃.es)) (sym same) has'),
          ),
        )
