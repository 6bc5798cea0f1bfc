-- ===== src/Receiver/Deliver.antt =====
-- What the sending half writes, the receiving half delivers.
use true_mqtt_cpp.Base.{
  ℕ, ◌+◌, ◌/◌, ◌%◌, ◌^◌, ◌≤◌, ◌<◌, ◌≡◌, refl, Bool, true, some, List, [], ◌∷◌, ◌++◌, Text, length,
  arith, length-append, if◌then◌else◌, ◌∙◌,
}
use true_mqtt_cpp.Packet.{
  PacketType, new_packet, received_packet, write, write_string, read_remaining,
}
use true_mqtt_cpp.Packet.RoundTrip.{reading, read_string-write_string_short}
use true_mqtt_cpp.Frame.{frame}
use true_mqtt_cpp.Frame.Layout.{wire, HasBody}
use true_mqtt_cpp.Subscription.{parts, find_match}
use true_mqtt_cpp.Connection.{Connection}
use true_mqtt_cpp.Client.{Impl}
use true_mqtt_cpp.Sender.{publish_packet}
use true_mqtt_cpp.Handlers.{message_received, is_connected, arrivals}
use true_mqtt_cpp.Handlers.Subscribed.{message_received_lem}
use true_mqtt_cpp.Receiver.{
  Poll, done, handle, handle_publish, finish, recv_loop, ◌>>=◌, lift, pure,
}
use true_mqtt_cpp.Receiver.Socket.{AllSteady, world}
use true_mqtt_cpp.Receiver.Decode.{recv_loop-frame}

-- The body of a PUBLISH packet.
abbrev publish_body : Text → Text → List ℕ
publish_body topic message =
    (length topic % 2 ^ 16 / 2 ^ 8 % 2 ^ 8 ∷ length topic % 2 ^ 16 % 2 ^ 8 ∷ topic) ++ message

publish-HasBody :
    (topic message : Text) (retain : Bool)
    → HasBody (publish_packet topic message retain) (publish_body topic message)
unfolding publish_packet new_packet write write_string
publish-HasBody topic message retain = refl

publish-flags :
    (topic message : Text) (retain : Bool) → (publish_packet topic message retain).flags < 16
unfolding publish_packet new_packet write write_string
publish-flags topic message retain = ground arith

publish-type :
    (topic message : Text) (retain : Bool)
    → (publish_packet topic message retain).packet_type ≡ PacketType.publish
unfolding publish_packet new_packet write write_string
publish-type topic message retain = refl

-- The packet that `recvLoop` hands to the PUBLISH case.
publish-reading :
    (flags : ℕ) (topic message : Text)
    → received_packet PacketType.publish flags (publish_body topic message)
      ≡ reading
          (received_packet PacketType.publish flags [])
          (write_string topic (received_packet PacketType.publish flags []))
          message
unfolding received_packet write_string
publish-reading flags topic message = refl

-- The PUBLISH case passes on the topic and the message.
handle_publish_lem :
    (flags : ℕ) (topic message : Text)
    → length topic < 2 ^ 16
    → handle PacketType.publish
        (received_packet PacketType.publish flags (publish_body topic message))
      ≡ (lift (message_received topic message) >>= λ _. pure true)
unfolding handle handle_publish read_remaining
handle_publish_lem flags topic message h =
    let empty = received_packet PacketType.publish flags [] in
    let r = read_string-write_string_short empty topic message h in
    rw (publish-reading flags topic message, r.0, r.1) refl

-- The client behind a message, at the clock `now`.
abbrev pub delivered : Connection → Impl → ℕ → Text → Text → Impl
delivered c s now topic message = record s {
  connection = some (record c { last_received_packet = now });
  calls =
      if is_connected s.state
      then s.calls ++ arrivals (find_match (parts topic) s.subscriptions) topic message
      else s.calls;
}

publish_finished :
    (c : Connection) (s : Impl) (now flags : ℕ) (topic message : Text) (rest : List ℕ)
    (left : List Poll)
    → s.connection ≡ some c
    → length topic < 2 ^ 16
    → (handle PacketType.publish
            (received_packet PacketType.publish flags (publish_body topic message))
          >>= finish now)
        (world s rest left)
      ≡ done true (world (delivered c s now topic message) rest left)
publish_finished c s now flags topic message rest left linked h =
    rw (handle_publish_lem flags topic message h, message_received_lem topic message s)
      (ground arith)

-- A PUBLISH as this library frames it, with a topic of at most 65535 bytes and a body below 2 ^ 28
-- bytes, is received as the same topic and message: the matching callbacks are called with them in
-- order if the client is connected, and none otherwise; the time of the last packet is noted, and the
-- bytes behind it are left on the socket. This holds however the socket cuts the bytes up, on a client
-- with a connection and with a steady poll for each byte.
pub recv_loop-publish :
    (c : Connection) (s : Impl) (now : ℕ) (topic message : Text) (retain : Bool) (rest : List ℕ)
    (ps : List Poll)
    → s.connection ≡ some c
    → length topic < 2 ^ 16
    → length topic + length message + 2 < 2 ^ 28
    → length (wire (frame (publish_packet topic message retain))) ≤ length ps
    → AllSteady c s ps
    → (left : List Poll) × (recv_loop now
          (world s (wire (frame (publish_packet topic message retain)) ++ rest) ps)
        ≡ done true (world (delivered c s now topic message) rest left))
recv_loop-publish c s now topic message retain rest ps linked ht hn hp st =
    let p = publish_packet topic message retain in
    let body = publish_body topic message in
    let (left, e) =
      recv_loop-frame c s linked now p body rest ps (publish-HasBody topic message retain)
        (publish-flags topic message retain) (omega (arith, length-append topic message)) hp st in
    (
      left,
      e
          ∙ rw (publish-type topic message retain)
              (publish_finished c s now p.flags topic message rest left linked ht),
    )
