-- ===== src/Frame/Examples.antt =====
-- Frames of concrete packets.
use true_mqtt_cpp.Base.{ℕ, ◌≡◌, refl, List, [], ◌∷◌, ◌++◌, length, copies, length-copies, arith}
use true_mqtt_cpp.Packet.{Packet, PacketType, code}
use true_mqtt_cpp.Frame.{frame}
use true_mqtt_cpp.Frame.Length.{length_bytes}
use true_mqtt_cpp.Frame.Layout.{wire, header_byte, frame-wire_oversize}

abbrev with_body : List ℕ → Packet
with_body body = record {
  buffer = 0 ∷ 0 ∷ 0 ∷ 0 ∷ 0 ∷ body;
  read_offset = 0;
  write_offset = 0;
  packet_type = PacketType.publish;
  flags = 1;
}

-- A retained PUBLISH with an empty topic and message.
frames_two_bytes : wire (frame (with_body (0 ∷ 0 ∷ []))) ≡ 49 ∷ 2 ∷ 0 ∷ 0 ∷ []
unfolding frame code
frames_two_bytes = refl

abbrev oversize_body : List ℕ
oversize_body = copies 268435456 65

frame-wire_oversize_example :
    wire (frame (with_body (66 ∷ oversize_body)))
    ≡ header_byte (with_body (66 ∷ oversize_body))
      ∷ (length_bytes 4 (length (66 ∷ oversize_body)) ++ oversize_body)
frame-wire_oversize_example =
    frame-wire_oversize (with_body (66 ∷ oversize_body)) 66 oversize_body refl (omega arith)
      (omega (arith, length-copies 268435456 65)) (omega (arith, length-copies 268435456 65))
