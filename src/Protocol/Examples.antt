-- ===== src/Protocol/Examples.antt =====
-- Packets as a broker reads them.
use true_mqtt_cpp.Base.{◌≡◌, refl, true, none, some, [], ◌∷◌, ◌++◌, Text, arith}
use true_mqtt_cpp.Frame.{frame}
use true_mqtt_cpp.Frame.Layout.{wire}
use true_mqtt_cpp.Client.{Impl, new_impl}
use true_mqtt_cpp.Sender.{connect_packet}
use true_mqtt_cpp.Protocol.{split_length, decode, decode_body, decode_publish, Request}
use true_mqtt_cpp.Protocol.Requests.{connecting, decode-wire}

abbrev topic : Text
topic = 97 ∷ []

abbrev gone : Text
gone = 98 ∷ 121 ∷ 101 ∷ []

-- A client with a retained last will.
abbrev user : Impl
user = record (new_impl (99 ∷ []) 5000 1000 30000 30000) {
  last_will_topic = topic;
  last_will_message = gone;
  last_will_retain = true;
}

decode-wire_example :
    decode (wire (frame (connect_packet user)) ++ (192 ∷ 0 ∷ []))
    ≡ some (
      Request.connects
          (99 ∷ [])
          30
          (some (record { topic = topic; message = gone; retain = true })),
      192 ∷ 0 ∷ [],
    )
unfolding new_impl
decode-wire_example =
    decode-wire user (connect_packet user)
      (Request.connects (99 ∷ []) 30
        (some (record { topic = topic; message = gone; retain = true })))
      (192 ∷ 0 ∷ []) (connecting (omega arith) (omega arith) (omega arith))

-- A PUBLISH as in the protocol's standard, and one of QoS 1, which is not among the requests.
decodes_publish :
    decode (49 ∷ 5 ∷ 0 ∷ 1 ∷ 97 ∷ 104 ∷ 105 ∷ [])
    ≡ some (Request.publishes topic (104 ∷ 105 ∷ []) true, [])
unfolding decode split_length decode_body decode_publish
decodes_publish = refl

decodes_no_qos : decode (50 ∷ 5 ∷ 0 ∷ 1 ∷ 97 ∷ 0 ∷ 9 ∷ []) ≡ none
unfolding decode split_length decode_body
decodes_no_qos = refl
