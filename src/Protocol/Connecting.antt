-- ===== src/Protocol/Connecting.antt =====
-- What `sendConnect` of src/Packet.cpp says to a broker.
use true_mqtt_cpp.Base.{
  Option, ℕ, ◌^◌, ◌<◌, ◌≡◌, refl, Bool, true, false, none, some, List, [], ◌∷◌, ◌++◌, Text, length,
  arith, length-append, text_eq,
}
use mathlib.Core.List.{append_assoc}
use true_mqtt_cpp.Packet.{new_packet, write, write_string, write_uint16, write_uint8, code}
use true_mqtt_cpp.Frame.{frame}
use true_mqtt_cpp.Frame.Layout.{wire, header_byte, HasBody}
use true_mqtt_cpp.Client.{Impl}
use true_mqtt_cpp.Sender.{connect_packet, connect_flags, protocol_name}
use true_mqtt_cpp.Protocol.{decode, decode_body, decode_connect, Request, Will}
use true_mqtt_cpp.Protocol.Strings.{
  string_bytes, split_string-string_bytes, split_string_alone, decode-frame,
}

-- The last will of a client: none, if its topic is empty.
abbrev pub will_of : Text → Text → Bool → Option Will
will_of [] message retain = none
will_of (c ∷ t) message retain = some (record { topic = c ∷ t; message = message; retain = retain })

-- Behind the name of the protocol: its level, the flags, 30 seconds, and the client id.
abbrev opening_bytes : ℕ → Text → List ℕ
opening_bytes flags client_id =
    string_bytes protocol_name ++ (4 ∷ flags ∷ 0 ∷ 30 ∷ string_bytes client_id)

abbrev will_flags : Bool → ℕ
will_flags true = 38
will_flags false = 6

connect-HasBody_alone :
    (s : Impl) → s.last_will_topic ≡ [] → HasBody (connect_packet s) (opening_bytes 2 s.client_id)
unfolding connect_packet connect_flags new_packet write write_string write_uint16 write_uint8
connect-HasBody_alone s e = rw e refl

connect-HasBody_will :
    (s : Impl) (c : ℕ) (t : Text) (retain : Bool)
    → s.last_will_topic ≡ c ∷ t
    → s.last_will_retain ≡ retain
    → HasBody (connect_packet s) (
        opening_bytes (will_flags retain) s.client_id
        ++ (string_bytes (c ∷ t) ++ string_bytes s.last_will_message))
unfolding connect_packet connect_flags new_packet write write_string write_uint16 write_uint8
connect-HasBody_will s c t true e r = simp (e, r, append_assoc)
connect-HasBody_will s c t false e r = simp (e, r, append_assoc)

decode_connect_alone :
    (client_id : Text)
    → length client_id < 2 ^ 16
    → decode_connect (opening_bytes 2 client_id) ≡ some (Request.connects client_id 30 none)
unfolding decode_connect text_eq
decode_connect_alone client_id h =
    rw
      (
        split_string-string_bytes protocol_name (4 ∷ 2 ∷ 0 ∷ 30 ∷ string_bytes client_id)
            (omega arith),
        split_string_alone client_id h,
      )
      refl

decode_connect_will :
    (client_id topic message : Text) (retain : Bool)
    → length client_id < 2 ^ 16
    → length topic < 2 ^ 16
    → length message < 2 ^ 16
    → decode_connect (
        opening_bytes (will_flags retain) client_id ++ (string_bytes topic ++ string_bytes message))
      ≡ some (
          Request.connects client_id 30
            (some (record { topic = topic; message = message; retain = retain })))
unfolding decode_connect text_eq
decode_connect_will client_id topic message retain hc ht hm = both retain
  where
    wills : List ℕ
    wills = string_bytes topic ++ string_bytes message

    both :
        (retain : Bool)
        → decode_connect (opening_bytes (will_flags retain) client_id ++ wills)
          ≡ some (
              Request.connects client_id 30
                (some (record { topic = topic; message = message; retain = retain })))
    both true =
        rw
          (
            split_string-string_bytes protocol_name
                (4 ∷ 38 ∷ 0 ∷ 30 ∷ (string_bytes client_id ++ wills)) (omega arith),
            split_string-string_bytes client_id wills hc,
            split_string-string_bytes topic (string_bytes message) ht,
            split_string_alone message hm,
          )
          refl
    both false =
        rw
          (
            split_string-string_bytes protocol_name
                (4 ∷ 6 ∷ 0 ∷ 30 ∷ (string_bytes client_id ++ wills)) (omega arith),
            split_string-string_bytes client_id wills hc,
            split_string-string_bytes topic (string_bytes message) ht,
            split_string_alone message hm,
          )
          refl

connect-header :
    (s : Impl) (t : Text)
    → s.last_will_topic ≡ t
    → (header_byte (connect_packet s) ≡ 16) × ((connect_packet s).flags ≡ 0)
unfolding connect_packet new_packet write write_string write_uint16 write_uint8 code
connect-header s [] e = rw e (refl, refl)
connect-header s (c ∷ t) e = rw e (refl, refl)

connect-decoded :
    (s : Impl) (body rest : List ℕ) (request : Request)
    → HasBody (connect_packet s) body
    → length body < 2 ^ 28
    → decode_connect body ≡ some request
    → decode (wire (frame (connect_packet s)) ++ rest) ≡ some (request, rest)
unfolding decode_body
connect-decoded s body rest request hb hn e =
    let header = connect-header s s.last_will_topic refl in
    decode-frame (connect_packet s) body rest request hb (omega (arith, header.1)) hn
      (rw (header.0) e)

-- The CONNECT of a client is read as its client id, 30 seconds and its last will.
pub decode-connect :
    (s : Impl) (rest : List ℕ)
    → length s.client_id < 2 ^ 16
    → length s.last_will_topic < 2 ^ 16
    → length s.last_will_message < 2 ^ 16
    → decode (wire (frame (connect_packet s)) ++ rest)
      ≡ some (
        Request.connects s.client_id 30
            (will_of s.last_will_topic s.last_will_message s.last_will_retain),
        rest,
      )
decode-connect s rest hc ht hm = at s.last_will_topic s.last_will_retain refl refl ht
  where
    at :
        (t : Text) (retain : Bool)
        → s.last_will_topic ≡ t
        → s.last_will_retain ≡ retain
        → length t < 2 ^ 16
        → decode (wire (frame (connect_packet s)) ++ rest)
          ≡ some (Request.connects s.client_id 30 (will_of t s.last_will_message retain), rest)
    at [] retain e r h =
        connect-decoded s (opening_bytes 2 s.client_id) rest _ (connect-HasBody_alone s e)
          (omega arith) (decode_connect_alone s.client_id hc)
    at (c ∷ t) retain e r h =
        let wills : List ℕ = string_bytes (c ∷ t) ++ string_bytes s.last_will_message in
        connect-decoded s (opening_bytes (will_flags retain) s.client_id ++ wills) rest _
          (connect-HasBody_will s c t retain e r)
          (omega (
            arith,
            length-append s.client_id wills,
            length-append t (string_bytes s.last_will_message),
          ))
          (decode_connect_will s.client_id (c ∷ t) s.last_will_message retain hc h hm)
