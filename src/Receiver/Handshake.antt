-- ===== src/Receiver/Handshake.antt =====
-- The answer of the broker to CONNECT, as `recvLoop` of src/Packet.cpp takes it.
use true_mqtt_cpp.Base.{
  ℕ, ◌+◌, ◌≤◌, ◌≡◌, refl, true, false, some, List, [], ◌∷◌, ◌++◌, length, arith, ◌==◌,
  if◌then◌else◌, ap, sym, ◌∙◌, Bool-cases, inl, inr,
}
use true_mqtt_cpp.Packet.{Packet, PacketType, code, received_packet, read_uint8}
use true_mqtt_cpp.Packet.Reads.{advance}
use true_mqtt_cpp.Frame.{frame}
use true_mqtt_cpp.Frame.Layout.{wire}
use true_mqtt_cpp.Connection.{Connection}
use true_mqtt_cpp.Connection
use true_mqtt_cpp.Client.{Impl}
use true_mqtt_cpp.Handlers.{connection_state_change}
use true_mqtt_cpp.Handlers.Resubscribe.{restored, restored_queue, connection_state_change-restored}
use true_mqtt_cpp.Receiver.{
  Poll, World, done, handle, handle_connack, finish, recv_loop, ◌>>=◌, lift,
}
use true_mqtt_cpp.Receiver.Socket.{AllSteady, world}
use true_mqtt_cpp.Receiver.Decode.{recv_loop-frame}

-- A CONNACK with its two bytes.
abbrev pub connack : ℕ → ℕ → Packet
connack acknowledge return_code = record {
  buffer = 0 ∷ 0 ∷ 0 ∷ 0 ∷ 0 ∷ acknowledge ∷ return_code ∷ [];
  read_offset = 0;
  write_offset = 0;
  packet_type = PacketType.connack;
  flags = 0;
}

pub connack-wire :
    (acknowledge return_code : ℕ)
    → wire (frame (connack acknowledge return_code)) ≡ 32 ∷ 2 ∷ acknowledge ∷ return_code ∷ []
unfolding frame code
connack-wire acknowledge return_code = refl

-- The connection that the broker has accepted.
abbrev pub accepted : Connection → Connection
accepted c = record c { state = Connection.State.connected }

abbrev pub linked_to : Connection → Impl → Impl
linked_to c s = record s { connection = some c }

-- The client behind the CONNACK, at the clock `now`: all that a new connection is given to send is
-- queued.
abbrev pub welcomed : Connection → Impl → ℕ → Impl
welcomed c s now =
    let t = restored (accepted c) (linked_to (accepted c) s) in
    record t {
      connection = some (record c {
        state = Connection.State.connected;
        send_queue = restored_queue (accepted c) (linked_to (accepted c) s);
        last_received_packet = now;
      });
    }

reads_two :
    (flags acknowledge return_code : ℕ)
    → let p = received_packet PacketType.connack flags (acknowledge ∷ return_code ∷ []) in
      (read_uint8 p ≡ (advance 1 p, some acknowledge))
      × (read_uint8 (advance 1 p) ≡ (advance 1 (advance 1 p), some return_code))
unfolding received_packet read_uint8
reads_two flags acknowledge return_code = (refl, refl)

handle_connack_refused :
    (flags acknowledge return_code : ℕ) (w : World)
    → (return_code == 0) ≡ false
    → handle_connack (received_packet PacketType.connack flags (acknowledge ∷ return_code ∷ [])) w
      ≡ done false w
unfolding handle_connack
handle_connack_refused flags acknowledge return_code w h =
    let r = reads_two flags acknowledge return_code in rw (r.0, r.1, h) refl

module _ (c : Connection) (s : Impl) (linked : s.connection ≡ some c) where
  accepted-world :
      (rest : List ℕ) (left : List Poll)
      → length c.send_queue + length s.subscription_topics ≤ s.send_queue_size + 1
      → lift (connection_state_change true) (world (linked_to (accepted c) s) rest left)
        ≡ done tt (world (restored (accepted c) (linked_to (accepted c) s)) rest left)
  accepted-world rest left room =
      rw (connection_state_change-restored (accepted c) (linked_to (accepted c) s) refl room) refl

  handle_connack_accepted :
      (flags acknowledge : ℕ) (now : ℕ) (rest : List ℕ) (left : List Poll)
      → length c.send_queue + length s.subscription_topics ≤ s.send_queue_size + 1
      → (handle_connack (received_packet PacketType.connack flags (acknowledge ∷ 0 ∷ []))
            >>= finish now)
          (world s rest left)
        ≡ done true (world (welcomed c s now) rest left)
  unfolding handle_connack
  handle_connack_accepted flags acknowledge now rest left room =
      let r = reads_two flags acknowledge 0 in
      rw (r.0, r.1, linked, accepted-world rest left room) refl

  handled :
      (acknowledge return_code now : ℕ) (rest : List ℕ) (left : List Poll)
      → length c.send_queue + length s.subscription_topics ≤ s.send_queue_size + 1
      → (handle PacketType.connack
              (received_packet PacketType.connack 0 (acknowledge ∷ return_code ∷ []))
            >>= finish now)
          (world s rest left)
        ≡ (if return_code == 0
            then done true (world (welcomed c s now) rest left)
            else done false (world s rest left))
  unfolding handle
  handled acknowledge return_code now rest left room = elim (Bool-cases (return_code == 0)) [
    | inl z ↦
        let e : return_code ≡ 0 = ground arith in
        rw e (handle_connack_accepted 0 acknowledge now rest left room)
    | inr n ↦ rw (handle_connack_refused 0 acknowledge return_code (world s rest left) n, n) refl
  ]

-- On a client with a connection whose send queue, of size + 1 packets, has room for all topics, a CONNACK
-- with return code 0 makes connection and client CONNECTED, queues what a new connection is given to
-- send, and notes the time; with any other code it changes nothing, and `recvLoop` returns false. The
-- bytes behind it stay on the socket. There is a steady poll for each of its four bytes.
pub recv_loop-connack :
    (c : Connection) (s : Impl) (now acknowledge return_code : ℕ) (rest : List ℕ) (ps : List Poll)
    → s.connection ≡ some c
    → length c.send_queue + length s.subscription_topics ≤ s.send_queue_size + 1
    → 4 ≤ length ps
    → AllSteady c s ps
    → (left : List Poll) × (recv_loop now (world s (32 ∷ 2 ∷ acknowledge ∷ return_code ∷ rest) ps)
        ≡ (if return_code == 0
            then done true (world (welcomed c s now) rest left)
            else done false (world s rest left)))
recv_loop-connack c s now acknowledge return_code rest ps linked room enough st =
    let p = connack acknowledge return_code in
    let bytes = connack-wire acknowledge return_code in
    let sized : length (wire (frame p)) ≡ 4 = ap length bytes in
    let (left, e) =
      recv_loop-frame c s linked now p (acknowledge ∷ return_code ∷ []) rest ps refl (omega arith)
        (omega arith) (omega (arith, sized)) st in
    let onto = ap (λ (xs : List ℕ). recv_loop now (world s (xs ++ rest) ps)) bytes in
    (left, sym onto ∙ e ∙ handled c s linked acknowledge return_code now rest left room)
