-- ===== src/Protocol.antt =====
-- What a broker reads: the packets of MQTT 3.1.1 that a client sends, decoded from the bytes on the socket
-- as the protocol describes them. It is no code of the program, and knows none of it.
pub mod Strings
pub mod Connecting
pub mod Requests
mod Examples
use true_mqtt_cpp.Base.{
  ℕ, zero, suc, ◌+◌, ◌-◌, ◌*◌, ◌/◌, ◌%◌, Bool, true, false, ◌&&◌, Option, none, some, List, [], ◌∷◌,
  Text, ltb, ◌==◌, if◌then◌else◌, length, take, drop, text_eq,
}
use true_mqtt_cpp.Packet.Reads.{split_string}

pub record Will : Type 0 where
  pub topic : Text
  pub message : Text
  pub retain : Bool

-- A CONNECT with its client id, keep-alive and last will, in a clean session; a PUBLISH, a SUBSCRIBE and
-- an UNSUBSCRIBE with one topic, and a PINGREQ.
pub data Request : Type 0 where
  connects : Text → ℕ → Option Will → Request
  publishes : Text → Text → Bool → Request
  subscribes : ℕ → Text → ℕ → Request
  unsubscribes : ℕ → Text → Request
  pings : Request

-- A value, and the bytes behind it.
abbrev pub Parse : Type 0 → Type 0
Parse A = Option (A × List ℕ)

abbrev pub and_then : {A B : Type 0} → Parse A → (A → List ℕ → Option B) → Option B
and_then none f = none
and_then (some (a, bytes)) f = f a bytes

-- The remaining length: seven bits a byte, lowest first, in at most so many bytes.
unfoldable pub split_length : ℕ → List ℕ → Parse ℕ
split_length zero bytes = none
split_length (suc most) [] = none
split_length (suc most) (b ∷ bytes) =
    let rest = split_length most bytes in
    if ltb b 128 then some (b, bytes) else and_then rest (λ n left. some (b - 128 + 128 * n, left))

abbrev pub split_bytes : ℕ → List ℕ → Parse (List ℕ)
split_bytes n bytes = if ltb (length bytes) n then none else some (take n bytes, drop n bytes)

abbrev pub split_uint8 : List ℕ → Parse ℕ
split_uint8 [] = none
split_uint8 (b ∷ bytes) = some (b, bytes)

abbrev pub split_uint16 : List ℕ → Parse ℕ
split_uint16 [] = none
split_uint16 (hi ∷ []) = none
split_uint16 (hi ∷ lo ∷ bytes) = some (hi * 256 + lo, bytes)

-- Nothing more may follow.
abbrev pub at_end : Request → List ℕ → Option Request
at_end request [] = some request
at_end request (b ∷ bytes) = none

-- The last will, if the flags say that there is one; of QoS 0.
abbrev pub decode_will : Text → ℕ → Bool → Bool → List ℕ → Option Request
decode_will client_id seconds false retain bytes =
    at_end (Request.connects client_id seconds none) bytes
decode_will client_id seconds true retain bytes = and_then (split_string bytes) λ topic behind.
    and_then (split_string behind) λ message left.
      at_end
        (Request.connects client_id seconds
          (some (record { topic = topic; message = message; retain = retain })))
        left

-- "MQTT"
abbrev mqtt : Text
mqtt = 77 ∷ 81 ∷ 84 ∷ 84 ∷ []

-- The reserved bit is clear, the session is clean, the will has QoS 0, and there is neither a user name
-- nor a password.
abbrev are_known : ℕ → Bool
are_known flags =
    ((flags % 2 == 0) && (flags / 2 % 2 == 1)) && ((flags / 8 % 4 == 0) && (flags / 64 == 0))

unfoldable pub decode_connect : List ℕ → Option Request
unfolding text_eq
decode_connect bytes = and_then (split_string bytes) λ name level_on.
    and_then (split_uint8 level_on) λ level flags_on.
      and_then (split_uint8 flags_on) λ flags seconds_on.
        and_then (split_uint16 seconds_on) λ seconds id_on.
          and_then (split_string id_on) λ client_id will_on.
            if text_eq name mqtt && ((level == 4) && are_known flags)
            then decode_will client_id seconds (flags / 4 % 2 == 1) (flags / 32 % 2 == 1) will_on
            else none

-- Of QoS 0: there is no packet id.
unfoldable pub decode_publish : Bool → List ℕ → Option Request
decode_publish retain bytes =
    and_then (split_string bytes) λ topic message. some (Request.publishes topic message retain)

unfoldable pub decode_subscribe : List ℕ → Option Request
decode_subscribe bytes = and_then (split_uint16 bytes) λ id topic_on.
    and_then (split_string topic_on) λ topic qos_on.
      and_then (split_uint8 qos_on) λ qos left. at_end (Request.subscribes id topic qos) left

unfoldable pub decode_unsubscribe : List ℕ → Option Request
decode_unsubscribe bytes = and_then (split_uint16 bytes) λ id topic_on.
    and_then (split_string topic_on) λ topic left. at_end (Request.unsubscribes id topic) left

-- By the first byte: the type, and the flags that the protocol wants with it.
unfoldable pub decode_body : ℕ → List ℕ → Option Request
decode_body header body =
    if header == 16
    then decode_connect body
    else if header == 48
    then decode_publish false body
    else if header == 49
    then decode_publish true body
    else if header == 130
    then decode_subscribe body
    else if header == 162
    then decode_unsubscribe body
    else if header == 192
    then at_end Request.pings body
    else none

abbrev pub with_rest : List ℕ → Option Request → Parse Request
with_rest left none = none
with_rest left (some request) = some (request, left)

-- One packet, and the bytes behind it.
unfoldable pub decode : List ℕ → Parse Request
decode bytes = and_then (split_uint8 bytes) λ header length_on.
    and_then (split_length 4 length_on) λ n body_on.
      and_then (split_bytes n body_on) λ body left. with_rest left (decode_body header body)
