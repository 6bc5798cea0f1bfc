-- ===== src/Session/Receiving.antt =====
-- `recvLoop` of src/Packet.cpp keeps the client in step with its connection.
use true_mqtt_cpp.Base.{
  ℕ, ◌≡◌, refl, Bool, true, false, none, some, Option, [], ltb, ◌==◌, arith, inl, inr,
}
use true_mqtt_cpp.Base.Bits.{shr, low_bits}
use true_mqtt_cpp.Packet.{
  Packet, PacketType, received_packet, read_uint8, read_uint16, read_string, read_remaining,
}
use true_mqtt_cpp.Connection.{Connection}
use true_mqtt_cpp.Connection
use true_mqtt_cpp.Client.{Impl, M, log, Call, Error}
use true_mqtt_cpp.Handlers.{connection_state_change, message_received}
use true_mqtt_cpp.Handlers.Validity.{Ensures, Ensures-ok, Result-cases}
use true_mqtt_cpp.Receiver.{
  lift, pure, ◌>>◌, on_connection, recv_byte, read_length, read_body, packet_type_of, handle,
  handle_connack, handle_publish, handle_suback, handle_unsuback, finish, receive_body,
  receive_typed, recv_loop,
}
use true_mqtt_cpp.Session.Sending.{IsFit, message_received-IsFit}
use true_mqtt_cpp.Session.Opening.{made-IsFit}
use true_mqtt_cpp.Session.Reading.{
  Leaves, IsKeeper, bind-IsKeeper, lift-IsKeeper, recv_byte-IsKeeper, or_false-IsKeeper,
  if-IsKeeper, pure-IsKeeper, read_length-IsKeeper, read_body-IsKeeper,
}

-- A function of the client, and true.
then_true :
    (m : M (Unit {0}))
    → ((s : Impl) → IsFit s → Ensures IsFit (m s))
    → IsKeeper (lift m >> pure true)
then_true m h =
    bind-IsKeeper (lift m) (λ u. pure true) (lift-IsKeeper m h) (λ u. pure-IsKeeper true)

handle_publish-IsKeeper : (p : Packet) → IsKeeper (handle_publish p)
unfolding handle_publish
handle_publish-IsKeeper p = or_false-IsKeeper (read_string p).1 _ λ topic.
    let message = (read_remaining (read_string p).0).1 in
    then_true (message_received topic message) (message_received-IsFit topic message)

log-IsFit : (call : Call) (s : Impl) → IsFit s → Ensures IsFit (log call s)
log-IsFit call s v = v

handle_suback-IsKeeper : (p : Packet) → IsKeeper (handle_suback p)
unfolding handle_suback
handle_suback-IsKeeper p = or_false-IsKeeper (read_uint16 p).1 _ λ id.
    or_false-IsKeeper (read_uint8 (read_uint16 p).0).1 _ λ return_code.
      let call = Call.error_raised Error.subscribe_failed [] in
      if-IsKeeper (ltb 2 return_code) _ _ (then_true (log call) (log-IsFit call))
        (pure-IsKeeper true)

-- The connection is CONNECTED a moment before the client is.
accepted-IsKeeper : IsKeeper (
    lift (on_connection (λ c. record c { state = Connection.State.connected }))
    >> (lift (connection_state_change true) >> pure true))
accepted-IsKeeper w v = at w.impl.connection refl
  where
    at :
        (o : Option Connection)
        → w.impl.connection ≡ o
        → Leaves (
            (lift (on_connection (λ c. record c { state = Connection.State.connected }))
                >> (lift (connection_state_change true) >> pure true))
              w)
    at none e = rw e tt
    at (some c) e =
        let c' : Connection = record c { state = Connection.State.connected } in
        let s : Impl = record w.impl { connection = some c' } in
        let made : Ensures IsFit (connection_state_change true s) = made-IsFit c' s refl refl in
        elim (Result-cases (connection_state_change true s)) [
          | inl ((u, t), f) ↦ rw (e, f) (Ensures-ok IsFit _ made f)
          | inr (k, f) ↦ rw (e, f) tt
        ]

handle_connack-IsKeeper : (p : Packet) → IsKeeper (handle_connack p)
unfolding handle_connack
handle_connack-IsKeeper p = or_false-IsKeeper (read_uint8 p).1 _ λ acknowledge.
    or_false-IsKeeper (read_uint8 (read_uint8 p).0).1 _
      λ return_code. if-IsKeeper (return_code == 0) _ _ accepted-IsKeeper (pure-IsKeeper false)

handle-IsKeeper : (t : PacketType) (p : Packet) → IsKeeper (handle t p)
unfolding handle handle_unsuback
handle-IsKeeper PacketType.connack p = handle_connack-IsKeeper p
handle-IsKeeper PacketType.publish p = handle_publish-IsKeeper p
handle-IsKeeper PacketType.suback p = handle_suback-IsKeeper p
handle-IsKeeper PacketType.unsuback p =
    or_false-IsKeeper (read_uint16 p).1 _ λ id. pure-IsKeeper true
handle-IsKeeper PacketType.pingresp p = pure-IsKeeper true
handle-IsKeeper _ p = pure-IsKeeper false

noted-IsFit :
    (now : ℕ) (s : Impl)
    → IsFit s
    → Ensures IsFit (on_connection (λ c. record c { last_received_packet = now }) s)
noted-IsFit now s v = ground arith

finish-IsKeeper : (now : ℕ) (b : Bool) → IsKeeper (finish now b)
finish-IsKeeper now false = pure-IsKeeper false
finish-IsKeeper now true =
    then_true (on_connection (λ c. record c { last_received_packet = now })) (noted-IsFit now)

receive_body-IsKeeper : (t : PacketType) (flags now : ℕ) → IsKeeper (receive_body t flags now)
receive_body-IsKeeper t flags now =
    bind-IsKeeper (read_length 4 0 0) _ (read_length-IsKeeper 4 0 0) λ o. or_false-IsKeeper o _ λ n.
      bind-IsKeeper (read_body n n []) _ (read_body-IsKeeper n n []) λ body.
        or_false-IsKeeper body _ λ bytes.
          bind-IsKeeper (handle t (received_packet t flags bytes)) (finish now)
            (handle-IsKeeper t (received_packet t flags bytes)) (finish-IsKeeper now)

receive_typed-IsKeeper :
    (o : Option PacketType) (flags now : ℕ) → IsKeeper (receive_typed o flags now)
receive_typed-IsKeeper none flags now = pure-IsKeeper false
receive_typed-IsKeeper (some t) flags now = receive_body-IsKeeper t flags now

-- A packet, whatever it is and however it comes, keeps client and connection in step.
pub recv_loop-IsKeeper : (now : ℕ) → IsKeeper (recv_loop now)
unfolding recv_loop
recv_loop-IsKeeper now = bind-IsKeeper recv_byte _ recv_byte-IsKeeper λ o.
    or_false-IsKeeper o _
      λ header. receive_typed-IsKeeper (packet_type_of (shr header 4)) (low_bits header 4) now
