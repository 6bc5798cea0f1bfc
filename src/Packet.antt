-- ===== src/Packet.antt =====
-- src/Packet.h: one MQTT packet, with its buffer and the primitives that write to and read from it.
-- A byte is a number below 256 and a string is the list of its bytes. `size_t` offsets stay at most
-- the size of the buffer, so their sums do not wrap.
pub mod Reads
pub mod RoundTrip
mod Examples
use true_mqtt_cpp.Base.{
  ℕ, suc, ◌+◌, ◌*◌, ◌%◌, ◌^◌, Bool, true, false, Option, none, some, List, [], ◌∷◌, ◌++◌, Text, ltb,
  if◌then◌else◌, length, get_or, take, drop, bit_or,
}
use true_mqtt_cpp.Base.Bits.{shr, low_bits}

pub data PacketType : Type 0 where
  connect connack publish puback pubrec pubrel pubcomp subscribe suback unsubscribe unsuback pingreq
        pingresp disconnect :
      PacketType

-- The value of the enumerator.
unfoldable pub code : PacketType → ℕ
code PacketType.connect = 1
code PacketType.connack = 2
code PacketType.publish = 3
code PacketType.puback = 4
code PacketType.pubrec = 5
code PacketType.pubrel = 6
code PacketType.pubcomp = 7
code PacketType.subscribe = 8
code PacketType.suback = 9
code PacketType.unsubscribe = 10
code PacketType.unsuback = 11
code PacketType.pingreq = 12
code PacketType.pingresp = 13
code PacketType.disconnect = 14

pub record Packet : Type 0 where
  pub buffer : List ℕ
  pub read_offset : ℕ
  pub write_offset : ℕ
  pub packet_type : PacketType
  pub flags : ℕ

-- The constructor of a packet to send: five bytes are kept for the header.
unfoldable pub new_packet : PacketType → ℕ → Packet
new_packet packet_type flags = record {
  buffer = 0 ∷ 0 ∷ 0 ∷ 0 ∷ 0 ∷ [];
  read_offset = 0;
  write_offset = 0;
  packet_type = packet_type;
  flags = flags;
}

-- The constructor of a packet that was received.
unfoldable pub received_packet : PacketType → ℕ → List ℕ → Packet
received_packet packet_type flags bytes = record {
  buffer = bytes;
  read_offset = 0;
  write_offset = 0;
  packet_type = packet_type;
  flags = flags;
}

unfoldable pub write_uint8 : ℕ → Packet → Packet
write_uint8 value p = record p { buffer = p.buffer ++ (value ∷ []) }

-- `push_back(value >> 8)` narrows to a byte.
unfoldable pub write_uint16 : ℕ → Packet → Packet
write_uint16 value p = record p {
  buffer = p.buffer ++ (shr value 8 % 2 ^ 8 ∷ low_bits value 8 ∷ []);
}

unfoldable pub write : Text → Packet → Packet
write str p = record p { buffer = p.buffer ++ str }

-- The length is narrowed to 16 bits; the whole string is written.
unfoldable pub write_string : Text → Packet → Packet
unfolding write_uint16 write
write_string str p = write str (write_uint16 (length str % 2 ^ 16) p)

-- A read returns the packet, with its read offset moved, and the value where the C++ function
-- returns true.
abbrev pub Read : Type 0 → Type 0
Read A = Packet → Packet × Option A

unfoldable pub read_uint8 : Read ℕ
read_uint8 p =
    if ltb (length p.buffer) (p.read_offset + 1)
    then (p, none)
    else (record p { read_offset = p.read_offset + 1 }, some (get_or p.buffer p.read_offset 0))

unfoldable pub read_uint16 : Read ℕ
read_uint16 p = if ltb (length p.buffer) (p.read_offset + 2) then (p, none) else (
  record p { read_offset = p.read_offset + 2 },
  some (
      bit_or (get_or p.buffer p.read_offset 0 * 2 ^ 8 % 2 ^ 16)
        (get_or p.buffer (p.read_offset + 1) 0)),
)

-- The second half of `read_string`, with the length that was read.
unfoldable pub read_bytes : Packet × Option ℕ → Packet × Option Text
read_bytes (p, none) = (p, none)
read_bytes (p, some n) =
    if ltb (length p.buffer) (p.read_offset + n)
    then (p, none)
    else (record p { read_offset = p.read_offset + n }, some (take n (drop p.read_offset p.buffer)))

unfoldable pub read_string : Read Text
unfolding read_uint16 read_bytes
read_string p = read_bytes (read_uint16 p)

unfoldable pub read_remaining : Packet → Packet × Text
read_remaining p = (record p { read_offset = length p.buffer }, drop p.read_offset p.buffer)
