-- ===== src/Protocol/Session/Laws.antt =====
-- The contract of the server's session messages.
use hexahedra.Base.{refl}
use hexahedra.Wire.Endian.{ByteOrder}
use hexahedra.Wire.Scalars.{IsU32}
use hexahedra.Wire.Laws.Defs.{Lawful}
use hexahedra.Wire.Laws.Combinators.{▸-Lawful, fields-Lawful}
use hexahedra.Wire.Laws.Scalars.{u8-Lawful, u32-Lawful}
use hexahedra.Wire.Laws.Elements.{IsText, IsVector}
use hexahedra.Wire.Laws.Sequences.{string-Lawful, vector-Lawful}
use hexahedra.Wire.Laws.Points.{Each3, coordinates-Lawful}
use hexahedra.Protocol.Session.{
  KeepAlive, Handshake, Greeting, Kick, TimeSyncResponse, keep_alive, handshake, greeting, kick,
  time_sync_response,
}

abbrev pub KeepAliveFits : KeepAlive → Type 0
KeepAliveFits m = IsU32 m.ticks

abbrev pub HandshakeFits : Handshake → Type 0
HandshakeFits m = IsText m.server_name × IsText m.public_key × IsVector IsText m.login_methods

abbrev pub GreetingFits : Greeting → Type 0
GreetingFits m = IsU32 m.client_time × Each3 IsU32 m.position × IsU32 m.entity_id × IsText m.motd

abbrev pub KickFits : Kick → Type 0
KickFits m = IsText m.reason

abbrev pub TimeSyncResponseFits : TimeSyncResponse → Type 0
TimeSyncResponseFits m = IsU32 m.request × IsU32 m.response

module _ ⦃host : ByteOrder⦄ where
  pub keep_alive-Lawful : Lawful keep_alive KeepAliveFits
  unfolding keep_alive
  keep_alive-Lawful =
      fields-Lawful u32-Lawful (λ t. record { ticks = t }) (λ m. m.ticks) refl (λ m h. h)
        (λ m h. refl)

  pub handshake-Lawful : Lawful handshake HandshakeFits
  unfolding handshake
  handshake-Lawful =
      fields-Lawful
        (▸-Lawful string-Lawful (▸-Lawful (vector-Lawful u8-Lawful) (vector-Lawful string-Lawful)))
        (λ t. record { server_name = t.0; public_key = t.1.0; login_methods = t.1.1 })
        (λ m. (m.server_name, (m.public_key, m.login_methods))) refl (λ m h. (h.0, (h.1, h.2)))
        (λ m h. refl)

  pub greeting-Lawful : Lawful greeting GreetingFits
  unfolding greeting
  greeting-Lawful =
      fields-Lawful
        (▸-Lawful u32-Lawful (▸-Lawful coordinates-Lawful (▸-Lawful u32-Lawful string-Lawful)))
        (λ t. record { client_time = t.0; position = t.1.0; entity_id = t.1.1.0; motd = t.1.1.1 })
        (λ m. (m.client_time, (m.position, (m.entity_id, m.motd)))) refl
        (λ m h. (h.0, (h.1, (h.2, h.3)))) (λ m h. refl)

  pub kick-Lawful : Lawful kick KickFits
  unfolding kick
  kick-Lawful =
      fields-Lawful string-Lawful (λ t. record { reason = t }) (λ m. m.reason) refl (λ m h. h)
        (λ m h. refl)

  pub time_sync_response-Lawful : Lawful time_sync_response TimeSyncResponseFits
  unfolding time_sync_response
  time_sync_response-Lawful =
      fields-Lawful (▸-Lawful u32-Lawful u32-Lawful) (λ t. record { request = t.0; response = t.1 })
        (λ m. (m.request, m.response)) refl (λ m h. (h.0, h.1)) (λ m h. refl)
