-- ===== src/Receiver.antt =====
-- The receiving half of src/Packet.cpp: `recv`, with its keep-alive, and `recvLoop`, which reads one
-- packet and acts on it. They run on the read thread.
-- What the operating system and the other threads do enters as a list of polls, one for each round of
-- the loop in `recv`, and as the bytes that the broker sends.
pub mod Socket
pub mod Decode
pub mod Deliver
pub mod Handshake
pub mod Idle
pub mod Refusal
pub mod Malformed
pub mod Answers
mod Examples
use true_mqtt_cpp.Base.{
  ℕ, zero, suc, ◌+◌, ◌-◌, ◌*◌, ◌/◌, ◌%◌, ◌^◌, min, Bool, true, false, not, ◌||◌, Option, none, some,
  List, [], ◌∷◌, ◌++◌, Text, ltb, ◌==◌, if◌then◌else◌, length, take, drop, bit_or,
}
use true_mqtt_cpp.Base.Bits.{shr, low_bits}
use true_mqtt_cpp.Packet.{
  Packet, PacketType, received_packet, read_uint8, read_uint16, read_string, read_remaining,
}
use true_mqtt_cpp.Connection.{Connection}
use true_mqtt_cpp.Connection
use true_mqtt_cpp.Client.{Impl, Fault, Result, ok, fault, Error, Call, M, log, bind_result}
use true_mqtt_cpp.Sender.{send_ping_request}
use true_mqtt_cpp.Handlers.{connection_state_change, message_received}

-- What `::recv` returns: at most k + 1 bytes, 0 for the end of the stream, or -1.
pub data Arrival : Type 0 where
  arrived : ℕ → Arrival
  closed failed : Arrival

-- One round: the state that `m_state` has after `select`, the two readings of the clock, whether
-- `select` returned something else than 0, and what `::recv` does if it is called.
pub record Poll : Type 0 where
  pub seen : Connection.State
  pub now : ℕ
  pub later : ℕ
  pub ready : Bool
  pub arrival : Arrival

pub record World : Type 0 where
  pub impl : Impl
  pub incoming : List ℕ
  pub polls : List Poll

-- `waiting` is a `recv` that has not returned when the polls end.
pub data Outcome (A : Type 0) : Type 0 where
  done : A → World → Outcome A
  faulted : Fault → Outcome A
  waiting : World → Outcome A

abbrev pub W : Type 0 → Type 0
W A = World → Outcome A

abbrev pub bind_outcome : {A B : Type 0} → Outcome A → (A → W B) → Outcome B
bind_outcome (done a w) f = f a w
bind_outcome (faulted e) f = faulted e
bind_outcome (waiting w) f = waiting w

infixl 5 ◌>>=◌ ◌>>◌
abbrev pub ◌>>=◌ : {A B : Type 0} → W A → (A → W B) → W B
◌>>=◌ m f w = bind_outcome (m w) f

abbrev pub ◌>>◌ : {B : Type 0} → W (Unit {0}) → W B → W B
m >> k = m >>= λ _. k

abbrev pub pure : {A : Type 0} → A → W A
pure a w = done a w

-- The result is false, or a read has failed.
abbrev pub or_false : {A : Type 0} → Option A → (A → W Bool) → W Bool
or_false none f = pure false
or_false (some a) f = f a

abbrev lifted : {A : Type 0} → World → Result (A × Impl) → Outcome A
lifted w (ok (a, s)) = done a (record w { impl = s })
lifted w (fault e) = faulted e

-- A function of the client, on the read thread.
abbrev pub lift : {A : Type 0} → M A → W A
lift m w = lifted w (m w.impl)

-- A change of the connection itself.
abbrev pub on_connection : (Connection → Connection) → M (Unit {0})
on_connection f s = elim s.connection [
  | none ↦ fault Fault.null_connection
  | some c ↦ ok (tt, record s { connection = some (f c) })
]

abbrev pub ping_if_due : Bool → ℕ → M (Unit {0})
ping_if_due false later s = ok (tt, s)
ping_if_due true later s =
    bind_result (on_connection (λ c. record c { last_sent_packet = later }) s)
      (λ _ t. bind_result (send_ping_request t) (λ _ u. ok (tt, u)))

abbrev keep_alive_of : ℕ → ℕ → Option Connection → M Bool
keep_alive_of now later none s = fault Fault.null_connection
keep_alive_of now later (some c) s =
    let heard = not (ltb (c.last_received_packet + s.keep_alive_interval * 15 / 10) now) in
    bind_result (ping_if_due (ltb (c.last_sent_packet + s.keep_alive_interval) now) later s)
      (λ _ t. ok (heard, t))

-- The keep-alive of one round: a ping, if nothing was sent for the interval. The result is whether the
-- broker was heard of within one and a half intervals.
unfoldable pub keep_alive : ℕ → ℕ → M Bool
keep_alive now later s = keep_alive_of now later s.connection s

abbrev pub is_stopping : Connection.State → Bool
is_stopping Connection.State.resolving = false
is_stopping Connection.State.connecting = false
is_stopping Connection.State.authenticating = false
is_stopping Connection.State.connected = false
is_stopping Connection.State.backing_off = false
is_stopping Connection.State.socket_error = true
is_stopping Connection.State.stopped = true

-- `::recv(m_socket, buffer, length, 0)`; it blocks while no byte has come.
abbrev pub take_bytes : ℕ → Arrival → W (Option (List ℕ))
take_bytes n closed w = done none w
take_bytes n failed w = done none w
take_bytes n (arrived k) w = elim w.incoming [
  | [] ↦ waiting w
  | b ∷ bs ↦
      done (some (take (min n (suc k)) (b ∷ bs)))
        (record w { incoming = drop (min n (suc k)) (b ∷ bs) })
]

abbrev pub recv_round : ℕ → Poll → W (Option (List ℕ)) → Bool → W (Option (List ℕ))
recv_round n p again false = pure none
recv_round n p again true = if p.ready then take_bytes n p.arrival else again

-- `recv`: the bytes that were read, or `none` for -1.
unfoldable pub recv_loop_over : List Poll → ℕ → W (Option (List ℕ))
recv_loop_over [] n w = waiting (record w { polls = [] })
recv_loop_over (p ∷ ps) n w =
    let again = recv_loop_over ps n in
    (if is_stopping p.seen
        then pure none
        else (lift (keep_alive p.now p.later) >>= recv_round n p again))
      (record w { polls = ps })

unfoldable pub recv : ℕ → W (Option (List ℕ))
recv n w = recv_loop_over w.polls n w

-- One byte; `recv` with length 1 returns no more.
abbrev pub first : Option (List ℕ) → Option ℕ
first none = none
first (some []) = none
first (some (b ∷ bs)) = some b

abbrev pub recv_byte : W (Option ℕ)
recv_byte = recv 1 >>= λ bytes. pure (first bytes)

-- The loop that reads the remaining length. The first argument counts the rounds that are left, `i`
-- those that were made.
unfoldable pub read_length : ℕ → ℕ → ℕ → W (Option ℕ)
read_length zero i remaining_length = pure none
read_length (suc rounds) i remaining_length = recv_byte >>= λ o. elim o [
  | none ↦ pure none
  | some b ↦
      let more =
        read_length rounds (suc i) (bit_or remaining_length (low_bits b 7 * 2 ^ (7 * i))) in
      if shr b 7 % 2 == 0
      then pure (some (bit_or remaining_length (low_bits b 7 * 2 ^ (7 * i))))
      else more
]

-- The loop that reads the body, n bytes behind the bytes that it has. Each round reads a byte at least,
-- so n rounds are enough.
unfoldable pub read_body : ℕ → ℕ → List ℕ → W (Option (List ℕ))
read_body zero n bytes = pure (some bytes)
read_body (suc fuel) n bytes =
    if n == 0
    then pure (some bytes)
    else (recv n >>= λ o. elim o [
      | none ↦ pure none
      | some [] ↦ pure none
      | some (b ∷ chunk) ↦ read_body fuel (n - length (b ∷ chunk)) (bytes ++ (b ∷ chunk))
    ])

-- `static_cast<Packet::PacketType>` of a number from 1 to 14.
unfoldable pub packet_type_of : ℕ → Option PacketType
packet_type_of n =
    if n == 1
    then some PacketType.connect
    else if n == 2
    then some PacketType.connack
    else if n == 3
    then some PacketType.publish
    else if n == 4
    then some PacketType.puback
    else if n == 5
    then some PacketType.pubrec
    else if n == 6
    then some PacketType.pubrel
    else if n == 7
    then some PacketType.pubcomp
    else if n == 8
    then some PacketType.subscribe
    else if n == 9
    then some PacketType.suback
    else if n == 10
    then some PacketType.unsubscribe
    else if n == 11
    then some PacketType.unsuback
    else if n == 12
    then some PacketType.pingreq
    else if n == 13
    then some PacketType.pingresp
    else if n == 14
    then some PacketType.disconnect
    else none

-- The cases of the `switch`. False closes the connection.
unfoldable pub handle_connack : Packet → W Bool
handle_connack p =
    let (p', acknowledge) = read_uint8 p in
    or_false acknowledge λ _. or_false (read_uint8 p').1 λ return_code.
      if return_code == 0
      then (lift (on_connection (λ c. record c { state = Connection.State.connected }))
          >> (lift (connection_state_change true) >> pure true))
      else pure false

unfoldable pub handle_publish : Packet → W Bool
handle_publish p =
    let (p', o) = read_string p in
    or_false o λ topic. lift (message_received topic (read_remaining p').1) >> pure true

unfoldable pub handle_suback : Packet → W Bool
handle_suback p =
    let (p', packet_id) = read_uint16 p in
    or_false packet_id λ _. or_false (read_uint8 p').1 λ return_code.
      if ltb 2 return_code
      then (lift (log (Call.error_raised Error.subscribe_failed [])) >> pure true)
      else pure true

unfoldable pub handle_unsuback : Packet → W Bool
handle_unsuback p = or_false (read_uint16 p).1 λ packet_id. pure true

unfoldable pub handle : PacketType → Packet → W Bool
handle PacketType.connack p = handle_connack p
handle PacketType.publish p = handle_publish p
handle PacketType.suback p = handle_suback p
handle PacketType.unsuback p = handle_unsuback p
handle PacketType.pingresp p = pure true
handle PacketType.connect p = pure false
handle PacketType.puback p = pure false
handle PacketType.pubrec p = pure false
handle PacketType.pubrel p = pure false
handle PacketType.pubcomp p = pure false
handle PacketType.subscribe p = pure false
handle PacketType.unsubscribe p = pure false
handle PacketType.pingreq p = pure false
handle PacketType.disconnect p = pure false

abbrev pub finish : ℕ → Bool → W Bool
finish now false = pure false
finish now true = lift (on_connection (λ c. record c { last_received_packet = now })) >> pure true

abbrev pub receive_body : PacketType → ℕ → ℕ → W Bool
receive_body packet_type flags now = read_length 4 0 0 >>= λ o. or_false o λ n.
    read_body n n [] >>= λ b.
    or_false b λ bytes. handle packet_type (received_packet packet_type flags bytes) >>= finish now

abbrev pub receive_typed : Option PacketType → ℕ → ℕ → W Bool
receive_typed none flags now = pure false
receive_typed (some packet_type) flags now = receive_body packet_type flags now

-- `recvLoop`: one packet. `now` is the clock at its end.
unfoldable pub recv_loop : ℕ → W Bool
recv_loop now = recv_byte >>= λ o.
    or_false o λ header. receive_typed (packet_type_of (shr header 4)) (low_bits header 4) now
