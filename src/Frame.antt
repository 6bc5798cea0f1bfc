-- ===== src/Frame.antt =====
-- The fixed header: the part of `Connection::send` in src/Packet.cpp that puts the packet type, the
-- flags and the remaining length in front of a packet's body.
pub mod Length
pub mod Layout
mod Examples
use true_mqtt_cpp.Base.{
  ℕ, zero, suc, ◌+◌, ◌-◌, ◌*◌, ◌%◌, ◌^◌, List, ltb, leb, if◌then◌else◌, length, set, bit_or,
}
use true_mqtt_cpp.Base.Bits.{shr, low_bits}
use true_mqtt_cpp.Packet.{Packet, code}

-- One byte of the remaining length; `more` says that `length >> 7` is not zero.
abbrev pub length_byte : ℕ → ℕ
length_byte len = if ltb 0 (shr len 7) then bit_or (low_bits len 7) 0x80 else low_bits len 7

-- The `do … while (length > 0)` loop, which writes at `offset`. A `size_t` has 64 bits, so ten rounds
-- are enough.
unfoldable pub write_length : ℕ → ℕ → ℕ → List ℕ → List ℕ
write_length zero len offset buffer = buffer
write_length (suc fuel) len offset buffer =
    let buffer' = set buffer offset (length_byte len) in
    let rest = write_length fuel (shr len 7) (offset + 1) buffer' in
    if ltb 0 (shr len 7) then rest else buffer'

-- Where the header has to start, so that it ends right before the body.
unfoldable pub header_offset : ℕ → ℕ
header_offset len =
    if leb len 127 then 3 else if leb len 16383 then 2 else if leb len 2097151 then 1 else 0

unfoldable pub frame : Packet → Packet
unfolding write_length header_offset
frame p =
    let len = (length p.buffer + 2 ^ 64 - 5) % 2 ^ 64 in
    let offset = header_offset len in
    let header = bit_or (code p.packet_type * 2 ^ 4) p.flags % 2 ^ 8 in
    record p {
      write_offset = offset;
      buffer = write_length 10 len (offset + 1) (set p.buffer offset header);
    }
