-- ===== src/Sender.antt =====
-- The sending half of src/Packet.cpp: `Connection::send` and the functions that build a packet.
use true_mqtt_cpp.Base.{
  ℕ, ◌+◌, ◌%◌, ◌^◌, Bool, true, false, not, ◌&&◌, Option, none, some, List, [], ◌∷◌, ◌++◌, Text,
  ltb, ◌==◌, if◌then◌else◌, length, bit_or,
}
use true_mqtt_cpp.Packet.{
  Packet, PacketType, new_packet, write_uint8, write_uint16, write, write_string,
}
use true_mqtt_cpp.Frame.{frame}
use true_mqtt_cpp.Connection.{Connection}
use true_mqtt_cpp.Client.{Impl, Fault, M, pure, raise, gets, modifies, ◌>>=◌, ◌>>◌}

-- The packet enters the queue of the write thread: in front, if it has priority.
abbrev pub enqueue : Bool → Packet → List Packet → List Packet
enqueue true packet queue = packet ∷ queue
enqueue false packet queue = queue ++ (packet ∷ [])

-- `send` on a connection, with `m_send_queue_size` of its client.
unfoldable pub connection_send : ℕ → Bool → Packet → Connection → Bool × Connection
connection_send send_queue_size has_priority packet c =
    if not has_priority && ltb send_queue_size (length c.send_queue)
    then (false, c)
    else (true, record c { send_queue = enqueue has_priority (frame packet) c.send_queue })

-- The same through the client's `m_connection`.
abbrev pub send_on : Bool → Packet → Option Connection → M Bool
send_on has_priority packet none = raise Fault.null_connection
send_on has_priority packet (some c) = do
  size ← gets λ s. s.send_queue_size
  let (done, c') = connection_send size has_priority packet c
  modifies λ s. record s { connection = some c' }
  pure done

unfoldable pub send : Bool → Packet → M Bool
unfolding connection_send
send has_priority packet = do
  connection ← gets λ s. s.connection
  send_on has_priority packet connection

-- The flags of the CONNECT packet, for whether there is a last will and whether it is retained.
unfoldable pub connect_flags : Bool → Bool → ℕ
connect_flags false retain = 2
connect_flags true false = bit_or 2 4
connect_flags true true = bit_or (bit_or 2 4) 32

-- "MQTT"
abbrev pub protocol_name : Text
protocol_name = 77 ∷ 81 ∷ 84 ∷ 84 ∷ []

abbrev is_empty : Text → Bool
is_empty [] = true
is_empty (c ∷ t) = false

abbrev write_last_will : Bool → Text → Text → Packet → Packet
write_last_will true topic message packet = write_string message (write_string topic packet)
write_last_will false topic message packet = packet

unfoldable pub connect_packet : Impl → Packet
unfolding new_packet write_uint8 write_uint16 write_string connect_flags
connect_packet s =
    let has_will = not (is_empty s.last_will_topic) in
    let flags = connect_flags has_will s.last_will_retain in
    let header = write_uint16 30 (
      write_uint8 flags
        (write_uint8 4 (write_string protocol_name (new_packet PacketType.connect 0)))) in
    write_last_will has_will s.last_will_topic s.last_will_message (write_string s.client_id header)

unfoldable pub send_connect : M Bool
unfolding send
send_connect = do packet ← gets connect_packet; send true packet

unfoldable pub send_ping_request : M Bool
unfolding send
send_ping_request = send true (new_packet PacketType.pingreq 0)

unfoldable pub publish_packet : Text → Text → Bool → Packet
unfolding new_packet write write_string
publish_packet topic message retain =
    write message (write_string topic (new_packet PacketType.publish (if retain then 1 else 0)))

unfoldable pub send_publish : Text → Text → Bool → M Bool
unfolding send
send_publish topic message retain = send false (publish_packet topic message retain)

-- `if (m_packet_id == 0) m_packet_id++`, and then `m_packet_id++` as a value; 16 bits.
unfoldable pub take_packet_id : M ℕ
take_packet_id s =
    let id = if s.packet_id == 0 then 1 else s.packet_id in
    (modifies (λ t. record t { packet_id = (id + 1) % 2 ^ 16 }) >> pure id) s

unfoldable pub subscribe_packet : ℕ → Text → Packet
unfolding new_packet write_uint8 write_uint16 write_string
subscribe_packet id topic =
    write_uint8 0 (write_string topic (write_uint16 id (new_packet PacketType.subscribe 2)))

unfoldable pub send_subscribe : Text → M Bool
unfolding take_packet_id send
send_subscribe topic = do id ← take_packet_id; send false (subscribe_packet id topic)

unfoldable pub unsubscribe_packet : ℕ → Text → Packet
unfolding new_packet write_uint16 write_string
unsubscribe_packet id topic =
    write_string topic (write_uint16 id (new_packet PacketType.unsubscribe 2))

unfoldable pub send_unsubscribe : Text → M Bool
unfolding take_packet_id send
send_unsubscribe topic = do id ← take_packet_id; send false (unsubscribe_packet id topic)
