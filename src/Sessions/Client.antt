-- ===== src/Sessions/Client.antt =====
-- The login of a client: hexa/client/player_info.cpp and main_game::login of
-- hexa/client/main_game.cpp, up to the welcome of hexa/server/network.cpp.
use hexahedra.Base.{
  ℕ, ◌≡◌, ◌≢◌, refl, sym, ap, ◌∙◌, List, [], ◌∷◌, none, some, Bool, false, if◌then◌else◌, length,
  All, arith,
}
use hexahedra.Wire.Defs.{ok}
use hexahedra.Wire.Endian.{ByteOrder, load}
use hexahedra.Wire.Sequences.{Text}
use hexahedra.Wire.Laws.Elements.{IsText}
use hexahedra.Protocol.Login.{Login}
use hexahedra.Protocol.Client.{login, packet}
use hexahedra.Protocol.Client.Delivery.{on_receive-packet}
use hexahedra.Base58.{Outcome, done, base58_error, carry_left, base58_encode}
use hexahedra.Base58.Digits.{IsDigit}
use hexahedra.Base58.RoundTrip.{base58_decode-base58_encode}
use hexahedra.Sessions.Identity.{
  EntitySystem, EntityLaws, Has, Ptree, singleplayer, ecdh, method_key, uid_key, public_key_key,
  is_same,
}
use hexahedra.Sessions.Admission.{Presents, on_login-Has}
use mathlib.Core.Path.{subst}
use hexahedra.Sessions.{Sessions, Server, welcomed, handle, handle_packet, on_login}

-- `player_info`, without the private key and the password, which stay with the client.
pub record PlayerInfo : Type 0 where
  pub name : Text
  pub uid : Text
  pub public_key : Text

abbrev name_key : Text
name_key = 110 ∷ 97 ∷ 109 ∷ 101 ∷ []

-- `generate_new_uid`, given the random bytes
unfoldable pub generate_new_uid : List ℕ → PlayerInfo → Outcome PlayerInfo
unfolding base58_encode
generate_new_uid random info = elim (base58_encode random) [
  | done text ↦ done (record info { uid = text })
  | base58_error ↦ base58_error
  | carry_left ↦ carry_left
]

-- `tree.put(path, value)`
unfoldable pub tree_put : Text → Text → Ptree → Ptree
unfolding is_same
tree_put path value tree other = if is_same other path then some value else tree other

-- What a client says of itself.
unfoldable pub login_tree : Bool → PlayerInfo → Ptree
unfolding tree_put
login_tree singleplayer_ plr_info =
    let method = if singleplayer_ then singleplayer else ecdh in
    let named = tree_put name_key plr_info.name (λ path. none) in
    let with_uid = tree_put uid_key plr_info.uid named in
    let with_key = tree_put public_key_key plr_info.public_key with_uid in
    tree_put method_key method with_key

-- `main_game::login`, where `write_json` is the library's.
unfoldable pub client_login : (Ptree → Text) → Bool → PlayerInfo → Login
unfolding login_tree
client_login write_json singleplayer_ plr_info = record {
  protocol_version = 1;
  credentials = write_json (login_tree singleplayer_ plr_info);
}

module _ (server : Server) (write_json : Ptree → Text) where
  -- The server reads what the client wrote, and a packet has room for it.
  abbrev pub Carries : PlayerInfo → Type 0
  Carries made =
      (server.read_json (write_json (login_tree false made)) ≡ some (login_tree false made))
      × IsText (write_json (login_tree false made))

  client_login-Presents :
      (random : List ℕ) (info : PlayerInfo)
      → All (IsDigit 256) random
      → length random ≡ 8
      → ((made : PlayerInfo) → generate_new_uid random info ≡ done made → Carries made)
      → (made : PlayerInfo) × (generate_new_uid random info ≡ done made)
        × Presents server (client_login write_json false made) random
  unfolding generate_new_uid client_login login_tree tree_put is_same
  client_login-Presents random info bytes eight carried =
      let (text, encoded, decoded) = base58_decode-base58_encode random bytes in
      let made : PlayerInfo = record info { uid = text } in
      let new : generate_new_uid random info ≡ done made = rw (generate_new_uid, encoded) refl in
      (
        made,
        new,
        record {
          tree = login_tree false made;
          text = text;
          key = info.public_key;
          readable = (carried made new).0;
          by_key = refl;
          with_uid = refl;
          with_key = refl;
          decodes = decoded;
          eight = eight;
          bytes = bytes;
        },
      )

  module _ {E : Type 0} ⦃system : EntitySystem E⦄ ⦃host : ByteOrder⦄ (laws : EntityLaws system)
      (multi : server.mode ≢ singleplayer) where
    -- A client that makes a new uid of eight random bytes, and whose credentials a packet has room
    -- for and the server reads as they were written, is let in by a server of more than one player:
    -- whatever the server's sessions are, the packet of its login arrives, and the peer is welcomed
    -- as a player that has these eight bytes as its uid.
    pub handle_packet-client_login :
        (c : ℕ) (random : List ℕ) (info : PlayerInfo) (s : Sessions E)
        → All (IsDigit 256) random
        → length random ≡ 8
        → ((made : PlayerInfo) → generate_new_uid random info ≡ done made → Carries made)
        → (made : PlayerInfo) × (b : List ℕ) × (e : ℕ) × (generate_new_uid random info ≡ done made)
          × (packet (login (client_login write_json false made)) ≡ ok b)
          × ((handle_packet server c b s).1 ≡ welcomed e)
          × Has e (load random) (system.player_uids (handle_packet server c b s).0.es)
    unfolding handle_packet handle client_login
    handle_packet-client_login c random info s bytes eight carried =
        let (made, new, p) = client_login-Presents random info bytes eight carried in
        let m = client_login write_json false made in
        let (b, sent, arrived) = on_receive-packet (login m) (omega arith, (carried made new).1) in
        let (e, welcome, has) = on_login-Has server multi laws c m random s p in
        let same : handle_packet server c b s ≡ on_login server c m s =
          rw (handle_packet, arrived) refl in
        (
          made,
          b,
          e,
          new,
          sent,
          ap (λ r. r.1) same ∙ welcome,
          subst (λ (x : E). Has e (load random) (system.player_uids x))
              (sym (ap (λ r. r.0.es) same)) has,
        )
