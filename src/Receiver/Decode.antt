-- ===== src/Receiver/Decode.antt =====
-- `recvLoop` on the bytes of one framed packet.
use true_mqtt_cpp.Base.{
  ℕ, ◌+◌, ◌*◌, ◌/◌, ◌^◌, ◌≤◌, ◌<◌, ◌≡◌, refl, some, List, [], ◌∷◌, ◌++◌, length, take, drop, arith,
  length-append, ap, length-drop, length-take_short, take-append-drop,
}
use mathlib.Core.List.{append_assoc}
use true_mqtt_cpp.Base.Bits.{shr, low_bits}
use true_mqtt_cpp.Packet.{Packet, PacketType, code, received_packet}
use true_mqtt_cpp.Frame.{frame}
use true_mqtt_cpp.Frame.Layout.{wire, header_byte, HasBody, frame-wire}
use true_mqtt_cpp.Frame.Length.{length_bytes}
use true_mqtt_cpp.Connection.{Connection}
use true_mqtt_cpp.Client.{Impl}
use true_mqtt_cpp.Receiver.{
  Poll, done, read_length, read_body, packet_type_of, handle, finish, recv_loop, ◌>>=◌,
}
use true_mqtt_cpp.Receiver.Socket.{
  AllSteady, world, recv_byte_steady, read_length-length_bytes, read_body_steady, behind,
}

-- The number of a type stands for that type.
pub packet_type_of-code : (t : PacketType) → packet_type_of (code t) ≡ some t
unfolding packet_type_of code
packet_type_of-code PacketType.connect = refl
packet_type_of-code _ = refl

type_of_header :
    (p : Packet) → p.flags < 16 → packet_type_of (shr (header_byte p) 4) ≡ some p.packet_type
type_of_header p h =
    let e : (code p.packet_type * 16 + p.flags) / 2 ^ 4 ≡ code p.packet_type = omega arith in
    rw e (packet_type_of-code p.packet_type)

flags_of_header : (p : Packet) → p.flags < 16 → low_bits (header_byte p) 4 ≡ p.flags
flags_of_header p h = omega arith

module _ (c : Connection) (s : Impl) (linked : s.connection ≡ some c) where
  -- The three parts of the packet one after the other, on polls that are split likewise.
  recv_loop_parts :
      (now : ℕ) (p : Packet) (body rest : List ℕ) (q : Poll) (qs ps : List Poll)
      → p.flags < 16
      → length body < 2 ^ 28
      → length qs ≡ length (length_bytes 3 (length body))
      → length body ≤ length ps
      → AllSteady c s (q ∷ (qs ++ ps))
      → (left : List Poll) × (recv_loop now (
            world s
              (header_byte p ∷ (length_bytes 3 (length body) ++ (body ++ rest)))
              (q ∷ (qs ++ ps)))
          ≡ (handle p.packet_type (received_packet p.packet_type p.flags body) >>= finish now)
              (world s rest left))
  unfolding recv_loop
  recv_loop_parts now p body rest q qs ps hf hb hq hp st =
      let n = length body in
      let lengths =
        read_length-length_bytes c s linked 3 4 0 0 n (body ++ rest) qs ps (omega arith)
          (omega arith) (omega arith) hq st.1 in
      let (left, e) =
        read_body_steady c s linked n n [] body rest ps refl (omega arith) hp
          (behind c s linked qs ps st.1) in
      (left, joined left lengths e)
    where
      joined :
          (left : List Poll)
          → read_length 4 0 0 (world s (length_bytes 3 (length body) ++ (body ++ rest)) (qs ++ ps))
            ≡ done (some (0 + length body * 2 ^ (7 * 0))) (world s (body ++ rest) ps)
          → read_body (length body) (length body) [] (world s (body ++ rest) ps)
            ≡ done (some body) (world s rest left)
          → recv_loop now (
              world s
                (header_byte p ∷ (length_bytes 3 (length body) ++ (body ++ rest)))
                (q ∷ (qs ++ ps)))
            ≡ (handle p.packet_type (received_packet p.packet_type p.flags body) >>= finish now)
                (world s rest left)
      joined left lengths e =
          let whole : 0 + length body * 2 ^ (7 * 0) ≡ length body = omega arith in
          rw
            (
              recv_byte_steady c s linked q (qs ++ ps) (header_byte p)
                  (length_bytes 3 (length body) ++ (body ++ rest)) st.0,
              type_of_header p hf,
              flags_of_header p hf,
              lengths,
              whole,
              e,
            )
            refl

  -- On a client with a connection, the bytes of a framed packet whose flags have four bits and whose
  -- body is below 2 ^ 28 bytes, with more bytes behind them, are read as that packet: its type, its
  -- flags and its body go to the handler, and what follows is left on the socket. This holds however
  -- the socket cuts the bytes up, with a steady poll for each byte.
  pub recv_loop-frame :
      (now : ℕ) (p : Packet) (body rest : List ℕ) (ps : List Poll)
      → HasBody p body
      → p.flags < 16
      → length body < 2 ^ 28
      → length (wire (frame p)) ≤ length ps
      → AllSteady c s ps
      → (left : List Poll) × (recv_loop now (world s (wire (frame p) ++ rest) ps)
          ≡ (handle p.packet_type (received_packet p.packet_type p.flags body) >>= finish now)
              (world s rest left))
  recv_loop-frame now p body rest [] hb hf hn hp st =
      absurd (omega (arith, ap length (frame-wire p body hb hf hn)))
  recv_loop-frame now p body rest (q ∷ ps) hb hf hn hp st =
      let n = length body in
      let k = length (length_bytes 3 n) in
      let sized = length-append (length_bytes 3 n) body in
      let room = ap length (frame-wire p body hb hf hn) in
      let split = take-append-drop k ps in
      let (left, e) =
        recv_loop_parts now p body rest q (take k ps) (drop k ps) hf hn
          (length-take_short k ps (omega (arith, sized, room)))
          (omega (arith, sized, room, length-drop k ps)) (rw split st) in
      (
        left,
        rw (frame-wire p body hb hf hn, append_assoc (length_bytes 3 n) body rest) (rw split at e),
      )
