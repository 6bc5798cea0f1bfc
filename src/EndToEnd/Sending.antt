-- ===== src/EndToEnd/Sending.antt =====
-- The client that publishes.
use true_mqtt_cpp.Base.{
  ◌+◌, ◌≤◌, ◌≡◌, refl, Bool, true, some, List, [], ◌∷◌, ◌++◌, map, length, arith, length-append, ap,
}
use mathlib.Core.List.{append_assoc, append-nil}
use true_mqtt_cpp.Packet.{Packet}
use true_mqtt_cpp.Connection.{Connection}
use true_mqtt_cpp.Client.{State, Message, Impl, M, ok, pure, ◌>>=◌}
use true_mqtt_cpp.Sender.{send_publish}
use true_mqtt_cpp.Handlers.{publish}
use true_mqtt_cpp.Handlers.Resubscribe.{publish_frame}

-- The client with a send queue.
abbrev pub queueing : Connection → List Packet → Impl → Impl
queueing c packets s = record s { connection = some (record c { send_queue = packets }) }

publish_connected :
    (m : Message) (c : Connection) (packets : List Packet) (s : Impl)
    → s.state ≡ State.connected
    → length packets ≤ s.send_queue_size
    → publish m.topic m.message m.retain (queueing c packets s)
      ≡ ok (true, queueing c (packets ++ (publish_frame m ∷ [])) s)
unfolding publish send_publish
publish_connected m c packets s h room = ground arith

-- The calls of `publish` for a list of messages, and what each of them returns.
unfoldable pub publish_each : List Message → M (List Bool)
publish_each [] = pure []
publish_each (m ∷ ms) =
    publish m.topic m.message m.retain >>= λ b. publish_each ms >>= λ bs. pure (b ∷ bs)

abbrev pub all_true : List Message → List Bool
all_true ms = map (λ m. true) ms

-- A connected client queues a packet for each message, in order, while there is room.
pub publish_each_connected :
    (ms : List Message) (c : Connection) (packets : List Packet) (s : Impl)
    → s.state ≡ State.connected
    → length packets + length ms ≤ s.send_queue_size + 1
    → publish_each ms (queueing c packets s)
      ≡ ok (all_true ms, queueing c (packets ++ map publish_frame ms) s)
unfolding publish_each
publish_each_connected [] c packets s h room = rw (append-nil packets) refl
publish_each_connected (m ∷ ms) c packets s h room =
    let sent = publish_frame m in
    let others =
      publish_each_connected ms c (packets ++ (sent ∷ [])) s h
        (omega (arith, length-append packets (sent ∷ []))) in
    rw (publish_connected m c packets s h (omega arith), others)
      (ap (λ (ps : List Packet). ok (true ∷ all_true ms, queueing c ps s))
        (append_assoc packets (sent ∷ []) (map publish_frame ms)))
