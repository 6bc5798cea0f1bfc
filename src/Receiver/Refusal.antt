-- ===== src/Receiver/Refusal.antt =====
-- What the `switch` in `recvLoop` of src/Packet.cpp closes the connection for.
use true_mqtt_cpp.Base.{
  ℕ, ◌≡◌, refl, Bool, true, false, none, List, [], ◌∷◌, length, leb, ◌==◌, All, arith, Option-cases,
  inl, inr,
}
use true_mqtt_cpp.Packet.{PacketType, received_packet, read_string}
use true_mqtt_cpp.Packet.Reads.{
  IsByte, advance, split_string, read_uint8-cons, read_uint8-nil, read_uint16-cons,
  read_uint16-short, read_string-Agrees,
}
use true_mqtt_cpp.Handlers.Validity.{is_some}
use true_mqtt_cpp.Receiver.{
  World, done, handle, handle_connack, handle_publish, handle_suback, handle_unsuback,
}

-- The packets that a client takes from a broker: a CONNACK with code 0, a PUBLISH that is as long as its
-- topic says, a SUBACK of three bytes, an UNSUBACK of two, and a PINGRESP.
unfoldable pub is_taken : PacketType → List ℕ → Bool
is_taken PacketType.connack [] = false
is_taken PacketType.connack (acknowledge ∷ []) = false
is_taken PacketType.connack (acknowledge ∷ return_code ∷ rest) = return_code == 0
is_taken PacketType.publish body = is_some (split_string body)
is_taken PacketType.suback body = leb 3 (length body)
is_taken PacketType.unsuback body = leb 2 (length body)
is_taken PacketType.pingresp body = true
is_taken PacketType.connect body = false
is_taken PacketType.puback body = false
is_taken PacketType.pubrec body = false
is_taken PacketType.pubrel body = false
is_taken PacketType.pubcomp body = false
is_taken PacketType.subscribe body = false
is_taken PacketType.unsubscribe body = false
is_taken PacketType.pingreq body = false
is_taken PacketType.disconnect body = false

connack_refused :
    (flags : ℕ) (body : List ℕ) (w : World)
    → is_taken PacketType.connack body ≡ false
    → handle_connack (received_packet PacketType.connack flags body) w ≡ done false w
unfolding handle_connack received_packet is_taken
connack_refused flags [] w h =
    let p = received_packet PacketType.connack flags [] in rw (read_uint8-nil p refl) refl
connack_refused flags (a ∷ []) w h =
    let p = received_packet PacketType.connack flags (a ∷ []) in
    let r = read_uint8-cons p a [] refl in rw (r.0, read_uint8-nil (advance 1 p) r.1) refl
connack_refused flags (a ∷ b ∷ rest) w h =
    let p = received_packet PacketType.connack flags (a ∷ b ∷ rest) in
    let r = read_uint8-cons p a (b ∷ rest) refl in
    let r' = read_uint8-cons (advance 1 p) b rest r.1 in rw (r.0, r'.0, h) refl

publish_refused :
    (flags : ℕ) (body : List ℕ) (w : World)
    → All IsByte body
    → is_taken PacketType.publish body ≡ false
    → handle_publish (received_packet PacketType.publish flags body) w ≡ done false w
unfolding handle_publish received_packet is_taken
publish_refused flags body w b h = elim (Option-cases (split_string body)) [
  | inl e ↦
      let p = received_packet PacketType.publish flags body in
      let r : (read_string p).1 ≡ none = rw e at (read_string-Agrees p b (omega arith)) in rw r refl
  | inr (x, e) ↦ absurd (ground (arith, h, e))
]

suback_refused :
    (flags : ℕ) (body : List ℕ) (w : World)
    → All IsByte body
    → is_taken PacketType.suback body ≡ false
    → handle_suback (received_packet PacketType.suback flags body) w ≡ done false w
unfolding handle_suback received_packet is_taken
suback_refused flags [] w b h =
    rw (read_uint16-short (received_packet PacketType.suback flags []) (omega arith)) refl
suback_refused flags (x ∷ []) w b h =
    rw (read_uint16-short (received_packet PacketType.suback flags (x ∷ [])) (omega arith)) refl
suback_refused flags (x ∷ y ∷ []) w b h =
    let p = received_packet PacketType.suback flags (x ∷ y ∷ []) in
    let r = read_uint16-cons p x y [] b.0 b.1.0 refl in
    rw (r.0, read_uint8-nil (advance 2 p) r.1) refl
suback_refused flags (x ∷ y ∷ z ∷ rest) w b h = absurd (ground arith)

unsuback_refused :
    (flags : ℕ) (body : List ℕ) (w : World)
    → is_taken PacketType.unsuback body ≡ false
    → handle_unsuback (received_packet PacketType.unsuback flags body) w ≡ done false w
unfolding handle_unsuback received_packet is_taken
unsuback_refused flags body w h =
    rw (read_uint16-short (received_packet PacketType.unsuback flags body) (ground arith)) refl

-- A packet that is not taken gives false, and changes nothing.
pub handle_refuses :
    (t : PacketType) (flags : ℕ) (body : List ℕ) (w : World)
    → All IsByte body
    → is_taken t body ≡ false
    → handle t (received_packet t flags body) w ≡ done false w
unfolding handle is_taken
handle_refuses PacketType.connack flags body w b h = connack_refused flags body w h
handle_refuses PacketType.publish flags body w b h = publish_refused flags body w b h
handle_refuses PacketType.suback flags body w b h = suback_refused flags body w b h
handle_refuses PacketType.unsuback flags body w b h = unsuback_refused flags body w h
handle_refuses PacketType.pingresp flags body w b h = absurd (ground arith)
handle_refuses _ flags body w b h = refl
