-- ===== src/Handlers/Resubscribe.antt =====
-- `connectionStateChange` of src/Client.cpp: what a new connection is given to send.
use true_mqtt_cpp.Base.{
  ℕ, zero, suc, ◌+◌, ◌-◌, ◌%◌, ◌^◌, ◌≤◌, ◌<◌, ◌≡◌, refl, true, false, some, List, [], ◌∷◌, ◌++◌,
  map, Text, length, take, arith, length-append, if◌then◌else◌, ◌==◌, ap, ◌∙◌,
}
use native.Mathlib.Decide.{dec_lt}
use mathlib.Core.List.{append_assoc, append-nil}
use true_mqtt_cpp.Packet.{Packet}
use true_mqtt_cpp.Frame.{frame}
use true_mqtt_cpp.Connection.{Connection}
use true_mqtt_cpp.Client.{State, Message, Call, Impl, Fault, ok, fault}
use true_mqtt_cpp.Sender.{send_subscribe, send_publish, subscribe_packet, publish_packet}
use true_mqtt_cpp.Handlers.{resubscribe, flush, connection_state_change}
use true_mqtt_cpp.Handlers.Opening.{restart_faults}

-- The id that a packet gets when the counter stands at `next`, and where the counter stands then.
abbrev pub id_from : ℕ → ℕ
id_from next = if next == 0 then 1 else next

abbrev pub id_after : ℕ → ℕ
id_after next = (id_from next + 1) % 2 ^ 16

unfoldable pub subscribe_frames : ℕ → List Text → List Packet
subscribe_frames next [] = []
subscribe_frames next (t ∷ ts) =
    frame (subscribe_packet (id_from next) t) ∷ subscribe_frames (id_after next) ts

unfoldable pub id_after_all : ℕ → List Text → ℕ
id_after_all next [] = next
id_after_all next (t ∷ ts) = id_after_all (id_after next) ts

abbrev pub publish_frame : Message → Packet
publish_frame m = frame (publish_packet m.topic m.message m.retain)

take-nil : (n : ℕ) → take {A = Message} n [] ≡ []
take-nil zero = refl
take-nil (suc n) = refl

-- The client with a send queue and a packet id.
abbrev pub sending : Connection → List Packet → ℕ → Impl → Impl
sending c queue next s = record s {
  connection = some (record c { send_queue = queue });
  packet_id = next;
}

module _ (c : Connection) (s : Impl) where
  subscribe_room :
      (t : Text) (queue : List Packet) (next : ℕ)
      → length queue ≤ s.send_queue_size
      → send_subscribe t (sending c queue next s)
        ≡ ok (
          true,
          sending c (queue ++ (frame (subscribe_packet (id_from next) t) ∷ [])) (id_after next) s,
        )
  unfolding send_subscribe
  subscribe_room t queue next h = ground arith

  subscribe_no_room :
      (t : Text) (queue : List Packet) (next : ℕ)
      → s.send_queue_size < length queue
      → send_subscribe t (sending c queue next s) ≡ ok (false, sending c queue (id_after next) s)
  unfolding send_subscribe
  subscribe_no_room t queue next h = ground arith

  publish_room :
      (m : Message) (queue : List Packet) (next : ℕ)
      → length queue ≤ s.send_queue_size
      → send_publish m.topic m.message m.retain (sending c queue next s)
        ≡ ok (true, sending c (queue ++ (publish_frame m ∷ [])) next s)
  unfolding send_publish
  publish_room m queue next h = ground arith

  publish_no_room :
      (m : Message) (queue : List Packet) (next : ℕ)
      → s.send_queue_size < length queue
      → send_publish m.topic m.message m.retain (sending c queue next s)
        ≡ ok (false, sending c queue next s)
  unfolding send_publish
  publish_no_room m queue next h = ground arith

  resubscribe_lem :
      (ts : List Text) (queue : List Packet) (next : ℕ)
      → length queue + length ts ≤ s.send_queue_size + 1
      → resubscribe ts (sending c queue next s)
        ≡ ok (true, sending c (queue ++ subscribe_frames next ts) (id_after_all next ts) s)
  unfolding resubscribe subscribe_frames id_after_all
  resubscribe_lem [] queue next h = rw append-nil refl
  resubscribe_lem (t ∷ ts) queue next h =
      let sent = frame (subscribe_packet (id_from next) t) in
      rw (subscribe_room t queue next (omega arith)) (
        resubscribe_lem ts (queue ++ (sent ∷ [])) (id_after next)
          (omega (arith, length-append queue (sent ∷ [])))
        ∙ ap (λ (ps : List Packet). ok (true, sending c ps (id_after_all (id_after next) ts) s))
            (append_assoc queue (sent ∷ []) (subscribe_frames (id_after next) ts)))

  resubscribe_overload :
      (ts : List Text) (queue : List Packet) (next : ℕ)
      → length queue ≤ s.send_queue_size + 1
      → s.send_queue_size + 1 < length queue + length ts
      → resubscribe ts (sending c queue next s) ≡ fault Fault.self_join
  unfolding resubscribe
  resubscribe_overload [] queue next h o = absurd (omega arith)
  resubscribe_overload (t ∷ ts) queue next h o = elim (dec_lt s.send_queue_size (length queue)) [
    | yes full ↦
        rw
          (
            subscribe_no_room t queue next full,
            restart_faults (sending c queue (id_after next) s) refl,
          )
          refl
    | no room ↦
        let sent = frame (subscribe_packet (id_from next) t) in
        rw (subscribe_room t queue next (omega arith)) (
          resubscribe_overload ts (queue ++ (sent ∷ [])) (id_after next)
            (omega (arith, length-append queue (sent ∷ [])))
            (omega (arith, length-append queue (sent ∷ []))))
  ]

  -- The messages that the send queue has room for are queued in order; the rest is dropped.
  flush_lem :
      (ms : List Message) (queue : List Packet) (next : ℕ)
      → flush ms (sending c queue next s)
        ≡ ok (
          tt,
          sending c
              (queue ++ map publish_frame (take (s.send_queue_size + 1 - length queue) ms))
              next
              s,
        )
  unfolding flush
  flush_lem [] queue next = rw (take-nil (s.send_queue_size + 1 - length queue), append-nil) refl
  flush_lem (m ∷ ms) queue next = elim (dec_lt s.send_queue_size (length queue)) [
    | yes full ↦
        let none_fit : s.send_queue_size + 1 - length queue ≡ 0 = omega arith in
        rw (publish_no_room m queue next full, none_fit, append-nil) refl
    | no room ↦
        let sent = publish_frame m in
        let one_less : s.send_queue_size + 1 - length queue
            ≡ suc (s.send_queue_size + 1 - length (queue ++ (sent ∷ []))) =
          omega (arith, length-append queue (sent ∷ [])) in
        rw (publish_room m queue next (omega arith), one_less)
          (flush_lem ms (queue ++ (sent ∷ [])) next
            ∙ ap (λ (ps : List Packet). ok (tt, sending c ps next s))
                (append_assoc queue (sent ∷ []) _))
  ]

-- What the connection's send queue holds when a connection was made.
abbrev pub restored_queue : Connection → Impl → List Packet
restored_queue c s =
    let queue = c.send_queue ++ subscribe_frames s.packet_id s.subscription_topics in
    queue ++ map publish_frame (take (s.send_queue_size + 1 - length queue) s.publish_queue)

abbrev pub restored : Connection → Impl → Impl
restored c s = record s {
  state = State.connected;
  connection = some (record c { send_queue = restored_queue c s });
  packet_id = id_after_all s.packet_id s.subscription_topics;
  publish_queue = [];
  calls = s.calls ++ (Call.state_changed State.connected ∷ []);
}

abbrev opening : Impl → Impl
opening s = record s {
  state = State.connected;
  calls = s.calls ++ (Call.state_changed State.connected ∷ []);
}

opening-sending :
    (c : Connection) (s : Impl)
    → s.connection ≡ some c
    → opening s ≡ sending c c.send_queue s.packet_id (opening s)
opening-sending c s e = ground arith

-- When a connection is made and the send queue, of size + 1 packets, has room for all topics, the client
-- becomes CONNECTED and says so. Behind what the send queue held come a SUBSCRIBE for every topic of the flat list, in
-- order and with consecutive packet ids, and then a PUBLISH for the waiting messages, oldest first, as
-- far as there is room for them. No message waits any more.
pub connection_state_change-restored :
    (c : Connection) (s : Impl)
    → s.connection ≡ some c
    → length c.send_queue + length s.subscription_topics ≤ s.send_queue_size + 1
    → connection_state_change true s ≡ ok (tt, restored c s)
unfolding connection_state_change
connection_state_change-restored c s e h =
    let ts = s.subscription_topics in
    let queue = c.send_queue ++ subscribe_frames s.packet_id ts in
    rw
      (
        opening-sending c s e,
        resubscribe_lem c (opening s) ts c.send_queue s.packet_id h,
        flush_lem c (opening s) s.publish_queue queue (id_after_all s.packet_id ts),
      )
      refl

-- When a connection is made whose send queue is within its limit of size + 1 packets, and which has no
-- room for all topics of the flat list, the read thread joins itself.
pub connection_state_change-overload :
    (c : Connection) (s : Impl)
    → s.connection ≡ some c
    → length c.send_queue ≤ s.send_queue_size + 1
    → s.send_queue_size + 1 < length c.send_queue + length s.subscription_topics
    → connection_state_change true s ≡ fault Fault.self_join
unfolding connection_state_change
connection_state_change-overload c s e h o =
    rw
      (
        opening-sending c s e,
        resubscribe_overload c (opening s) s.subscription_topics c.send_queue s.packet_id h o,
      )
      refl

-- No packet id is 0, and each is the one before it plus 1, with 1 again after 65535.
pub id_sequence :
    (next : ℕ)
    → next < 2 ^ 16
    → (1 ≤ id_from next)
      × (id_from next < 2 ^ 16)
      × (id_from (id_after next) ≡ id_from next % 65535 + 1)
id_sequence next h = ground arith
