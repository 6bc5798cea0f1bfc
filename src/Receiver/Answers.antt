-- ===== src/Receiver/Answers.antt =====
-- The `switch` in `recvLoop` of src/Packet.cpp on every packet but a CONNACK or PUBLISH that is taken.
use true_mqtt_cpp.Base.{
  ℕ, ◌^◌, ◌≤◌, ◌<◌, ◌≡◌, refl, ◌⊎◌, Bool, true, false, some, List, [], ◌∷◌, ◌++◌, length, ltb, All,
  arith, if◌then◌else◌, ◌∙◌, Bool-cases, inl, inr,
}
use mathlib.Core.List.{append-nil}
use true_mqtt_cpp.Packet.{Packet, PacketType, received_packet}
use true_mqtt_cpp.Packet.Reads.{IsByte, advance, read_uint8-cons, read_uint16-cons}
use true_mqtt_cpp.Frame.{frame}
use true_mqtt_cpp.Frame.Layout.{wire, HasBody}
use true_mqtt_cpp.Connection.{Connection}
use true_mqtt_cpp.Client.{Impl, Call, Error}
use true_mqtt_cpp.Receiver.{
  Poll, done, handle, handle_suback, handle_unsuback, finish, recv_loop, ◌>>=◌,
}
use true_mqtt_cpp.Receiver.Socket.{AllSteady, world}
use true_mqtt_cpp.Receiver.Decode.{recv_loop-frame}
use true_mqtt_cpp.Receiver.Refusal.{is_taken, handle_refuses}

-- The answers to what the client has sent, but for the CONNACK.
abbrev pub is_answer : PacketType → Bool
is_answer PacketType.suback = true
is_answer PacketType.unsuback = true
is_answer PacketType.pingresp = true
is_answer _ = false

-- The calls of the error callback: one for a SUBACK with a code above 2.
unfoldable pub complaints : PacketType → List ℕ → List Call
complaints PacketType.suback (hi ∷ lo ∷ return_code ∷ rest) =
    if ltb 2 return_code then Call.error_raised Error.subscribe_failed [] ∷ [] else []
complaints _ body = []

-- The client that has heard of the broker at the clock `now`.
abbrev pub heard : Connection → Impl → ℕ → List Call → Impl
heard c s now calls = record s {
  connection = some (record c { last_received_packet = now });
  calls = s.calls ++ calls;
}

module _ (c : Connection) (s : Impl) (linked : s.connection ≡ some c) where
  suback_taken :
      (flags now : ℕ) (body rest : List ℕ) (left : List Poll)
      → All IsByte body
      → is_taken PacketType.suback body ≡ true
      → (handle_suback (received_packet PacketType.suback flags body) >>= finish now)
          (world s rest left)
        ≡ done true (world (heard c s now (complaints PacketType.suback body)) rest left)
  unfolding handle_suback received_packet is_taken complaints
  suback_taken flags now [] rest left b h = absurd (ground arith)
  suback_taken flags now (x ∷ []) rest left b h = absurd (ground arith)
  suback_taken flags now (x ∷ y ∷ []) rest left b h = absurd (ground arith)
  suback_taken flags now (x ∷ y ∷ z ∷ more) rest left b h =
      let p = received_packet PacketType.suback flags (x ∷ y ∷ z ∷ more) in
      let r = read_uint16-cons p x y (z ∷ more) b.0 b.1.0 refl in
      let r' = read_uint8-cons (advance 2 p) z more r.1 in
      elim (Bool-cases (ltb 2 z)) [
        | inl e ↦ rw (r.0, r'.0, e, linked) refl
        | inr e ↦ rw (r.0, r'.0, e, linked, append-nil) refl
      ]

  unsuback_taken :
      (flags now : ℕ) (body rest : List ℕ) (left : List Poll)
      → All IsByte body
      → is_taken PacketType.unsuback body ≡ true
      → (handle_unsuback (received_packet PacketType.unsuback flags body) >>= finish now)
          (world s rest left)
        ≡ done true (world (heard c s now []) rest left)
  unfolding handle_unsuback received_packet is_taken
  unsuback_taken flags now [] rest left b h = absurd (ground arith)
  unsuback_taken flags now (x ∷ []) rest left b h = absurd (ground arith)
  unsuback_taken flags now (x ∷ y ∷ more) rest left b h =
      let p = received_packet PacketType.unsuback flags (x ∷ y ∷ more) in
      let r = read_uint16-cons p x y more b.0 b.1.0 refl in rw (r.0, linked, append-nil) refl

  answer_taken :
      (t : PacketType) (flags now : ℕ) (body rest : List ℕ) (left : List Poll)
      → All IsByte body
      → is_answer t ≡ true
      → is_taken t body ≡ true
      → (handle t (received_packet t flags body) >>= finish now) (world s rest left)
        ≡ done true (world (heard c s now (complaints t body)) rest left)
  unfolding handle complaints
  answer_taken PacketType.suback flags now body rest left b a h =
      suback_taken flags now body rest left b h
  answer_taken PacketType.unsuback flags now body rest left b a h =
      unsuback_taken flags now body rest left b h
  answer_taken PacketType.pingresp flags now body rest left b a h = rw (linked, append-nil) refl
  answer_taken _ flags now body rest left b a h = absurd (ground arith)

  answered :
      (t : PacketType) (flags now : ℕ) (body rest : List ℕ) (left : List Poll)
      → All IsByte body
      → (is_answer t ≡ true) ⊎ (is_taken t body ≡ false)
      → (handle t (received_packet t flags body) >>= finish now) (world s rest left) ≡ (
          if is_taken t body
          then done true (world (heard c s now (complaints t body)) rest left)
          else done false (world s rest left))
  answered t flags now body rest left b a = elim (Bool-cases (is_taken t body)) [
    | inl h ↦ rw h (answer_taken t flags now body rest left b (ground (arith, a, h)) h)
    | inr h ↦ rw (h, handle_refuses t flags body (world s rest left) b h) refl
  ]

-- On a client with a connection, a framed packet of bytes, other than a CONNACK with code 0 and a PUBLISH
-- that is as long as its topic says, is read to its end. A SUBACK of three bytes or more, an UNSUBACK of
-- two or more and a PINGRESP give true: the client notes the time, and calls its error callback for a
-- SUBACK with a code above 2. Everything else gives false, and leaves the client as it was: these three
-- or a PUBLISH cut short, a CONNACK cut short or with another code, and the types that a broker may not
-- send. There is a steady poll for each byte.
pub recv_loop-answers :
    (c : Connection) (s : Impl) (now : ℕ) (p : Packet) (body rest : List ℕ) (ps : List Poll)
    → s.connection ≡ some c
    → HasBody p body
    → p.flags < 16
    → length body < 2 ^ 28
    → length (wire (frame p)) ≤ length ps
    → AllSteady c s ps
    → All IsByte body
    → (is_answer p.packet_type ≡ true) ⊎ (is_taken p.packet_type body ≡ false)
    → (left : List Poll) × (recv_loop now (world s (wire (frame p) ++ rest) ps) ≡ (
        if is_taken p.packet_type body
        then done true (world (heard c s now (complaints p.packet_type body)) rest left)
        else done false (world s rest left)))
recv_loop-answers c s now p body rest ps linked hb hf hn enough st b a =
    let (left, e) = recv_loop-frame c s linked now p body rest ps hb hf hn enough st in
    (left, e ∙ answered c s linked p.packet_type p.flags now body rest left b a)
