-- ===== src/Protocol/Client/Delivery.antt =====
-- What is sent arrives: the packets of a client.
use hexahedra.Base.{ℕ, ◌≡◌, refl, List, [], ◌∷◌, ◌++◌, Option, none, some}
use hexahedra.Wire.Defs.{Fault, ok, err}
use hexahedra.Wire.Endian.{ByteOrder}
use hexahedra.Protocol.Packet.Laws.{serialize_packet-bytes, make-bytes, make_truncated}
use hexahedra.Protocol.Login.Laws.{
  LoginFits, TimeSyncRequestFits, ConsoleFits, login-Lawful, time_sync_request-Lawful,
  console-Lawful,
}
use hexahedra.Protocol.Requests.Laws.{
  RequestSurfacesFits, RequestHeightsFits, request_surfaces-Lawful, request_heights-Lawful,
}
use hexahedra.Protocol.Actions.Laws.{
  ButtonPressFits, ButtonReleaseFits, TriggerFits, LookAtFits, MotionFits, button_press-Lawful,
  button_release-Lawful, trigger-Lawful, look_at-Lawful, motion-Lawful,
}
use hexahedra.Protocol.Client.{
  ClientMessage, login, time_sync_request, console, request_surfaces, request_heights, button_press,
  button_release, trigger, look_at, motion, logout, msg_id, packet, on_receive,
}

-- The format has room for the message.
abbrev pub Fits : ClientMessage → Type 0
Fits (login m) = LoginFits m
Fits (time_sync_request m) = TimeSyncRequestFits m
Fits (console m) = ConsoleFits m
Fits (request_surfaces m) = RequestSurfacesFits m
Fits (request_heights m) = RequestHeightsFits m
Fits (button_press m) = ButtonPressFits m
Fits (button_release m) = ButtonReleaseFits m
Fits (trigger m) = TriggerFits m
Fits (look_at m) = LookAtFits m
Fits (motion m) = MotionFits m
Fits logout = Unit {0}

-- What the other side makes of a message: it does not know `trigger`.
abbrev pub arrives : ClientMessage → Option ClientMessage
arrives (login m) = some (login m)
arrives (time_sync_request m) = some (time_sync_request m)
arrives (console m) = some (console m)
arrives (request_surfaces m) = some (request_surfaces m)
arrives (request_heights m) = some (request_heights m)
arrives (button_press m) = some (button_press m)
arrives (button_release m) = some (button_release m)
arrives (trigger m) = none
arrives (look_at m) = some (look_at m)
arrives (motion m) = some (motion m)
arrives logout = some logout

no_body : (front back : List ℕ) (x : ℕ) → ok (129 ∷ []) ≡ ok (129 ∷ (front ++ (x ∷ back))) → ⊥
no_body [] back x h = cc
no_body (y ∷ front) back x h = cc

module _ ⦃host : ByteOrder⦄ where
  -- Every client message that fits the format is turned into a packet, and the server gets from
  -- that packet the very message, with all its fields, if it is of a class that it handles, and
  -- else reports an unknown type.
  pub on_receive-packet :
      (m : ClientMessage)
      → Fits m
      → (b : List ℕ) × (packet m ≡ ok b) × (on_receive b ≡ ok (arrives m))
  unfolding packet on_receive
  on_receive-packet (login m) h =
      (_, serialize_packet-bytes 128 login-Lawful m h, rw (make-bytes login-Lawful m h))
  on_receive-packet (time_sync_request m) h = (
    _,
    serialize_packet-bytes 130 time_sync_request-Lawful m h,
    rw (make-bytes time_sync_request-Lawful m h),
  )
  on_receive-packet (console m) h =
      (_, serialize_packet-bytes 131 console-Lawful m h, rw (make-bytes console-Lawful m h))
  on_receive-packet (request_surfaces m) h = (
    _,
    serialize_packet-bytes 139 request_surfaces-Lawful m h,
    rw (make-bytes request_surfaces-Lawful m h),
  )
  on_receive-packet (request_heights m) h = (
    _,
    serialize_packet-bytes 140 request_heights-Lawful m h,
    rw (make-bytes request_heights-Lawful m h),
  )
  on_receive-packet (button_press m) h = (
    _,
    serialize_packet-bytes 160 button_press-Lawful m h,
    rw (make-bytes button_press-Lawful m h),
  )
  on_receive-packet (button_release m) h = (
    _,
    serialize_packet-bytes 161 button_release-Lawful m h,
    rw (make-bytes button_release-Lawful m h),
  )
  on_receive-packet (trigger m) h = (_, serialize_packet-bytes 162 trigger-Lawful m h, refl)
  on_receive-packet (look_at m) h =
      (_, serialize_packet-bytes 163 look_at-Lawful m h, rw (make-bytes look_at-Lawful m h))
  on_receive-packet (motion m) h =
      (_, serialize_packet-bytes 164 motion-Lawful m h, rw (make-bytes motion-Lawful m h))
  on_receive-packet logout h = (_, refl, refl)

  -- For a packet from a client that lost its end, of a message that fits the format and whose class
  -- the server handles, no message can be made of the bytes that are left: the read ends in an
  -- exception, or goes past the end of the packet, which is a failed assertion in a build with
  -- assertions and is undefined in one without.
  pub on_receive_truncated :
      (m : ClientMessage) (front back : List ℕ) (x : ℕ)
      → Fits m
      → arrives m ≡ some m
      → packet m ≡ ok (msg_id m ∷ (front ++ (x ∷ back)))
      → (e : Fault) × (on_receive (msg_id m ∷ front) ≡ err e)
  unfolding packet on_receive msg_id
  on_receive_truncated (login m) front back x h known sent =
      let (e, refused) = make_truncated 128 login-Lawful m front back x h sent in (e, rw refused)
  on_receive_truncated (time_sync_request m) front back x h known sent =
      let (e, refused) = make_truncated 130 time_sync_request-Lawful m front back x h sent in
      (e, rw refused)
  on_receive_truncated (console m) front back x h known sent =
      let (e, refused) = make_truncated 131 console-Lawful m front back x h sent in (e, rw refused)
  on_receive_truncated (request_surfaces m) front back x h known sent =
      let (e, refused) = make_truncated 139 request_surfaces-Lawful m front back x h sent in
      (e, rw refused)
  on_receive_truncated (request_heights m) front back x h known sent =
      let (e, refused) = make_truncated 140 request_heights-Lawful m front back x h sent in
      (e, rw refused)
  on_receive_truncated (button_press m) front back x h known sent =
      let (e, refused) = make_truncated 160 button_press-Lawful m front back x h sent in
      (e, rw refused)
  on_receive_truncated (button_release m) front back x h known sent =
      let (e, refused) = make_truncated 161 button_release-Lawful m front back x h sent in
      (e, rw refused)
  on_receive_truncated (trigger m) front back x h known sent = absurd (cc known)
  on_receive_truncated (look_at m) front back x h known sent =
      let (e, refused) = make_truncated 163 look_at-Lawful m front back x h sent in (e, rw refused)
  on_receive_truncated (motion m) front back x h known sent =
      let (e, refused) = make_truncated 164 motion-Lawful m front back x h sent in (e, rw refused)
  on_receive_truncated logout front back x h known sent = absurd (no_body front back x sent)
