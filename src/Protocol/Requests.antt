-- ===== src/Protocol/Requests.antt =====
-- What the functions of src/Packet.cpp that build a packet say to a broker.
use true_mqtt_cpp.Base.{
  ℕ, ◌+◌, ◌*◌, ◌/◌, ◌%◌, ◌^◌, ◌<◌, ◌≡◌, refl, Bool, true, false, some, List, [], ◌∷◌, ◌++◌, Text,
  length, arith, length-append,
}
use true_mqtt_cpp.Packet.{
  Packet, PacketType, code, new_packet, write, write_string, write_uint16, write_uint8,
}
use true_mqtt_cpp.Frame.{frame}
use true_mqtt_cpp.Frame.Layout.{wire}
use true_mqtt_cpp.Protocol.{
  decode, decode_body, decode_publish, decode_subscribe, decode_unsubscribe, Request,
}
use true_mqtt_cpp.Client.{Impl}
use true_mqtt_cpp.Sender.{connect_packet, publish_packet, subscribe_packet, unsubscribe_packet}
use true_mqtt_cpp.Protocol.Strings.{
  string_bytes, split_string-string_bytes, split_string_alone, decode-frame,
}
use true_mqtt_cpp.Protocol.Connecting.{will_of, decode-connect}

-- The packets of the client, and what each is to say. The keep-alive is always 30 seconds.
pub data Says (s : Impl) : Packet → Request → Type 0 where
  connecting :
      length s.client_id < 2 ^ 16
      → length s.last_will_topic < 2 ^ 16
      → length s.last_will_message < 2 ^ 16
      → Says s (connect_packet s) (
          Request.connects s.client_id 30
            (will_of s.last_will_topic s.last_will_message s.last_will_retain))
  publishing :
      (topic message : Text) (retain : Bool)
      → length topic < 2 ^ 16
      → length topic + length message + 2 < 2 ^ 28
      → Says s (publish_packet topic message retain) (Request.publishes topic message retain)
  subscribing :
      (id : ℕ) (topic : Text)
      → id < 2 ^ 16
      → length topic < 2 ^ 16
      → Says s (subscribe_packet id topic) (Request.subscribes id topic 0)
  unsubscribing :
      (id : ℕ) (topic : Text)
      → id < 2 ^ 16
      → length topic < 2 ^ 16
      → Says s (unsubscribe_packet id topic) (Request.unsubscribes id topic)
  pinging : Says s (new_packet PacketType.pingreq 0) Request.pings

module _ (rest : List ℕ) where
  decode-publish :
      (topic message : Text) (retain : Bool)
      → length topic < 2 ^ 16
      → length topic + length message + 2 < 2 ^ 28
      → decode (wire (frame (publish_packet topic message retain)) ++ rest)
        ≡ some (Request.publishes topic message retain, rest)
  unfolding publish_packet new_packet write write_string decode_body decode_publish code
  decode-publish topic message true ht hm =
      decode-frame (publish_packet topic message true) (string_bytes topic ++ message) rest _ refl
        (omega arith) (omega (arith, length-append topic message))
        (rw (split_string-string_bytes topic message ht) refl)
  decode-publish topic message false ht hm =
      decode-frame (publish_packet topic message false) (string_bytes topic ++ message) rest _ refl
        (omega arith) (omega (arith, length-append topic message))
        (rw (split_string-string_bytes topic message ht) refl)

  decode-subscribe :
      (id : ℕ) (topic : Text)
      → id < 2 ^ 16
      → length topic < 2 ^ 16
      → decode (wire (frame (subscribe_packet id topic)) ++ rest)
        ≡ some (Request.subscribes id topic 0, rest)
  unfolding subscribe_packet new_packet write write_string write_uint16 write_uint8 decode_body
      decode_subscribe code
  decode-subscribe id topic hi ht =
      let whole : id / 2 ^ 8 % 2 ^ 8 * 256 + id % 2 ^ 8 ≡ id = omega arith in
      decode-frame (subscribe_packet id topic)
        (id / 2 ^ 8 % 2 ^ 8 ∷ id % 2 ^ 8 ∷ (string_bytes topic ++ (0 ∷ []))) rest _ refl
        (omega arith) (omega (arith, length-append topic (0 ∷ [])))
        (rw (split_string-string_bytes topic (0 ∷ []) ht, whole) refl)

  decode-unsubscribe :
      (id : ℕ) (topic : Text)
      → id < 2 ^ 16
      → length topic < 2 ^ 16
      → decode (wire (frame (unsubscribe_packet id topic)) ++ rest)
        ≡ some (Request.unsubscribes id topic, rest)
  unfolding unsubscribe_packet new_packet write write_string write_uint16 decode_body
      decode_unsubscribe code
  decode-unsubscribe id topic hi ht =
      let whole : id / 2 ^ 8 % 2 ^ 8 * 256 + id % 2 ^ 8 ≡ id = omega arith in
      decode-frame (unsubscribe_packet id topic)
        (id / 2 ^ 8 % 2 ^ 8 ∷ id % 2 ^ 8 ∷ string_bytes topic) rest _ refl (omega arith)
        (omega (arith, ht)) (rw (split_string_alone topic ht, whole) refl)

  decode-ping :
      decode (wire (frame (new_packet PacketType.pingreq 0)) ++ rest) ≡ some (Request.pings, rest)
  unfolding new_packet decode_body code
  decode-ping =
      decode-frame (new_packet PacketType.pingreq 0) [] rest _ refl (omega arith) (omega arith) refl

-- Every packet that a client sends is read by a broker, with whatever bytes behind it, as what it is to
-- say: a CONNECT as the client id, the last will if its topic is not empty, and a keep-alive of 30
-- seconds, a PUBLISH as its topic, message and retain flag, a SUBSCRIBE as its packet id and its topic
-- with QoS 0, an UNSUBSCRIBE as its packet id and its topic, and a PINGREQ. Strings that have their
-- length in front are shorter than 65536 bytes, packet ids have 16 bits, and the body of a PUBLISH is
-- below 2 ^ 28 bytes.
pub decode-wire :
    (s : Impl) (p : Packet) (request : Request) (rest : List ℕ)
    → Says s p request
    → decode (wire (frame p) ++ rest) ≡ some (request, rest)
decode-wire s _ _ rest (connecting hc ht hm) = decode-connect s rest hc ht hm
decode-wire s _ _ rest (publishing topic message retain ht hm) =
    decode-publish rest topic message retain ht hm
decode-wire s _ _ rest (subscribing id topic hi ht) = decode-subscribe rest id topic hi ht
decode-wire s _ _ rest (unsubscribing id topic hi ht) = decode-unsubscribe rest id topic hi ht
decode-wire s _ _ rest pinging = decode-ping rest
