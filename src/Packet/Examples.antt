-- ===== src/Packet/Examples.antt =====
-- The packet primitives on concrete buffers.
use true_mqtt_cpp.Base.{◌≡◌, refl, ◌≢◌, some, none, [], ◌∷◌, Text, copies, length-copies, arith}
use true_mqtt_cpp.Packet.{
  Packet, PacketType, write_uint16, write_string, read_uint8, read_uint16, read_bytes, read_string,
}
use true_mqtt_cpp.Packet.Reads.{unread, Agrees, split_string, read_string-Agrees}
use true_mqtt_cpp.Packet.RoundTrip.{reading, read_string-write_string_long}

abbrev empty : Packet
empty = record {
  buffer = [];
  read_offset = 0;
  write_offset = 0;
  packet_type = PacketType.publish;
  flags = 0;
}

-- A string of two bytes, with one byte in front and one behind.
abbrev filled : Packet
filled = record empty { buffer = 9 ∷ 0 ∷ 2 ∷ 104 ∷ 105 ∷ 33 ∷ []; read_offset = 1 }

abbrev hi : Text
hi = 104 ∷ 105 ∷ []

reads_hi : (read_string filled).1 ≡ some hi
unfolding read_string read_uint16 read_bytes
reads_hi = refl

-- A string that is cut off.
reads_nothing : (read_string (record filled { buffer = 9 ∷ 0 ∷ 2 ∷ 104 ∷ [] })).1 ≡ none
unfolding read_string read_uint16 read_bytes
reads_nothing = refl

reads_no_byte : (read_uint8 empty).1 ≡ none
unfolding read_uint8
reads_no_byte = refl

writes_hi : (write_string hi empty).buffer ≡ 0 ∷ 2 ∷ 104 ∷ 105 ∷ []
unfolding write_string write_uint16
writes_hi = refl

read_string-Agrees_example : Agrees filled (read_string filled) (split_string (unread filled))
read_string-Agrees_example =
    read_string-Agrees filled
      (omega arith, (omega arith, (omega arith, (omega arith, (omega arith, tt))))) (omega arith)

read_string-write_string_long_example :
    (read_string (reading empty (write_string (copies 65536 65) empty) [])).1
    ≢ some (copies 65536 65)
read_string-write_string_long_example =
    read_string-write_string_long empty (copies 65536 65) [] (omega (arith, length-copies 65536 65))
