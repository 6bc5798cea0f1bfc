-- ===== src/Receiver/Examples.antt =====
-- The read thread on concrete bytes.
use true_mqtt_cpp.Base.{
  inl, ◌<◌, if◌then◌else◌, false, ℕ, ◌+◌, ◌*◌, ◌≤◌, All, ◌≡◌, refl, ap, true, some, none, List, [],
  ◌∷◌, ◌++◌, Text, length, arith,
}
use true_mqtt_cpp.Packet.{
  Packet, PacketType, code, received_packet, new_packet, write, write_string, write_uint16,
}
use true_mqtt_cpp.Frame.{frame}
use true_mqtt_cpp.Frame.Layout.{wire}
use true_mqtt_cpp.Subscription.{nil, child, part}
use true_mqtt_cpp.Connection.{Connection, new_connection}
use true_mqtt_cpp.Connection
use true_mqtt_cpp.Client.{State, Impl, new_impl}
use true_mqtt_cpp.Sender.{publish_packet}
use true_mqtt_cpp.Receiver.{
  arrived, closed, Poll, done, handle, finish, recv, recv_loop_over, keep_alive, recv_loop, ◌>>=◌,
}
use true_mqtt_cpp.Receiver.Socket.{world, AllSteady, IsSteady}
use true_mqtt_cpp.Receiver.Decode.{recv_loop-frame}
use true_mqtt_cpp.Receiver.Idle.{pinged, with_link, IsIdle, ping_times, latest, recv-times_out}
use true_mqtt_cpp.Receiver.Handshake.{welcomed, recv_loop-connack}
use true_mqtt_cpp.Receiver.Malformed.{recv_loop-malformed, no_end}
use true_mqtt_cpp.Receiver.Refusal.{is_taken}
use true_mqtt_cpp.Receiver.Answers.{heard, complaints, recv_loop-answers}
use true_mqtt_cpp.Receiver.Deliver.{delivered, recv_loop-publish}

abbrev topic : Text
topic = 97 ∷ []

abbrev hello : Text
hello = 104 ∷ 105 ∷ []

abbrev link : Connection
link = record (new_connection 1000) {
  state = Connection.State.connected;
  last_sent_packet = 50;
  last_received_packet = 50;
}

abbrev user : Impl
user = record (new_impl (99 ∷ []) 5000 1000 30000 30000) {
  state = State.connected;
  keep_alive_interval = 30000;
  connection = some link;
  subscriptions = child topic (part nil (7 ∷ [])) nil;
}

-- A round in which `::recv` gives one byte, or three.
abbrev one_byte : Poll
one_byte = record {
  seen = Connection.State.connected;
  now = 100;
  later = 100;
  ready = true;
  arrival = arrived 0;
}

abbrev three_bytes : Poll
three_bytes = record one_byte { arrival = arrived 2 }

abbrev polls : List Poll
polls =
    one_byte ∷ three_bytes ∷ one_byte ∷ three_bytes ∷ one_byte ∷ one_byte ∷ one_byte ∷ one_byte ∷ []

IsSteady-one_byte : IsSteady link user one_byte
IsSteady-one_byte = record {
  goes_on = refl;
  sent_lately = omega arith;
  heard_lately = omega arith;
  is_ready = refl;
  at_most = 0;
  reads = refl;
}

IsSteady-three_bytes : IsSteady link user three_bytes
IsSteady-three_bytes = record {
  goes_on = refl;
  sent_lately = omega arith;
  heard_lately = omega arith;
  is_ready = refl;
  at_most = 2;
  reads = refl;
}

polls-AllSteady : AllSteady link user polls
polls-AllSteady = (
  IsSteady-one_byte,
  (
    IsSteady-three_bytes,
    (
      IsSteady-one_byte,
      (
        IsSteady-three_bytes,
        (IsSteady-one_byte, (IsSteady-one_byte, (IsSteady-one_byte, (IsSteady-one_byte, tt)))),
      ),
    ),
  ),
)

length-wire : length (wire (frame (publish_packet topic hello true))) ≡ 7
unfolding frame code publish_packet new_packet write write_string write_uint16
length-wire = refl

-- The end of the stream.
recv_closed :
    recv 5 (world user [] (record one_byte { arrival = closed } ∷ []))
    ≡ done none (world user [] [])
unfolding recv recv_loop_over keep_alive
recv_closed = refl

recv_loop-publish_example :
    (left : List Poll) × (recv_loop 200
        (world user (wire (frame (publish_packet topic hello true)) ++ (208 ∷ 0 ∷ [])) polls)
      ≡ done true (world (delivered link user 200 topic hello) (208 ∷ 0 ∷ []) left))
recv_loop-publish_example =
    recv_loop-publish link user 200 topic hello true (208 ∷ 0 ∷ []) polls refl (omega arith)
      (omega arith) (omega (arith, length-wire)) polls-AllSteady

-- A PINGRESP.
abbrev pong : Packet
pong = record {
  buffer = 0 ∷ 0 ∷ 0 ∷ 0 ∷ 0 ∷ [];
  read_offset = 0;
  write_offset = 0;
  packet_type = PacketType.pingresp;
  flags = 0;
}

wire-pong : wire (frame pong) ≡ 208 ∷ 0 ∷ []
unfolding frame code
wire-pong = refl

recv_loop-frame_example :
    (left : List Poll) × (recv_loop 200 (world user (wire (frame pong) ++ hello) polls)
      ≡ (handle PacketType.pingresp (received_packet PacketType.pingresp 0 []) >>= finish 200)
          (world user hello left))
recv_loop-frame_example =
    recv_loop-frame link user refl 200 pong [] hello polls refl (omega arith) (omega arith)
      (omega (arith, ap length wire-pong)) polls-AllSteady

-- A CONNACK with code 0, and a PINGRESP behind it.
recv_loop-connack_example :
    (left : List Poll) × (recv_loop 200 (world user (32 ∷ 2 ∷ 0 ∷ 0 ∷ 208 ∷ 0 ∷ []) polls)
      ≡ done true (world (welcomed link user 200) (208 ∷ 0 ∷ []) left))
unfolding new_connection new_impl
recv_loop-connack_example =
    recv_loop-connack link user 200 0 0 (208 ∷ 0 ∷ []) polls refl (omega arith) (omega arith)
      polls-AllSteady

-- A SUBACK in which the broker refuses.
abbrev refusal : Packet
refusal = record pong {
  buffer = 0 ∷ 0 ∷ 0 ∷ 0 ∷ 0 ∷ 0 ∷ 1 ∷ 128 ∷ [];
  packet_type = PacketType.suback;
}

wire-refusal : wire (frame refusal) ≡ 144 ∷ 3 ∷ 0 ∷ 1 ∷ 128 ∷ []
unfolding frame code
wire-refusal = refl

recv_loop-answers_example :
    (left : List Poll) × (recv_loop 200 (world user (wire (frame refusal) ++ hello) polls) ≡ (
      if is_taken PacketType.suback (0 ∷ 1 ∷ 128 ∷ [])
      then done true
          (world (heard link user 200 (complaints PacketType.suback (0 ∷ 1 ∷ 128 ∷ []))) hello left)
      else done false (world user hello left)))
recv_loop-answers_example =
    recv_loop-answers link user 200 refusal (0 ∷ 1 ∷ 128 ∷ []) hello polls refl refl (omega arith)
      (omega arith) (omega (arith, ap length wire-refusal)) polls-AllSteady
      (omega arith, (omega arith, (omega arith, tt))) (inl refl)

-- A PUBLISH whose length has no end.
recv_loop-malformed_example :
    recv_loop 200 (
      world user ((48 ∷ 255 ∷ 255 ∷ 255 ∷ 128 ∷ []) ++ hello) (
        (one_byte ∷ three_bytes ∷ one_byte ∷ three_bytes ∷ one_byte ∷ [])
        ++ (one_byte ∷ one_byte ∷ one_byte ∷ [])))
    ≡ done false (world user hello (one_byte ∷ one_byte ∷ one_byte ∷ []))
recv_loop-malformed_example =
    let on : (b : ℕ) → b ≡ 255 → (128 ≤ b) × (b < 256) =
      λ b h. (omega (arith, h), omega (arith, h)) in
    recv_loop-malformed link user 200 (48 ∷ 255 ∷ 255 ∷ 255 ∷ 128 ∷ []) hello
      (one_byte ∷ three_bytes ∷ one_byte ∷ three_bytes ∷ one_byte ∷ [])
      (one_byte ∷ one_byte ∷ one_byte ∷ []) refl
      (no_end 48 (255 ∷ 255 ∷ 255 ∷ 128 ∷ []) (omega arith) (omega arith) refl
        (on 255 refl, (on 255 refl, (on 255 refl, ((omega arith, omega arith), tt)))))
      refl polls-AllSteady

-- Nothing comes for 45 seconds; a ping is due after 30.
abbrev silence : ℕ → Poll
silence now = record one_byte { now = now; later = now; ready = false }

silence-IsIdle : (now : ℕ) → now ≤ 45050 → IsIdle 50 30000 (silence now)
silence-IsIdle now h = record {
  goes_on = refl;
  heard_lately = omega (arith, h);
  is_silent = refl;
  forward = omega arith;
}

recv-times_out_example :
    (m : ℕ) × (t : ℕ) × (recv 1
        (world user [] ((silence 20000 ∷ silence 31000 ∷ []) ++ (silence 45051 ∷ polls)))
      ≡ done none (world (with_link (pinged m t link) user) [] polls))
    × (length (ping_times 30000 50 (silence 20000 ∷ silence 31000 ∷ silence 45051 ∷ [])) ≡ m)
    × (latest 50 (ping_times 30000 50 (silence 20000 ∷ silence 31000 ∷ silence 45051 ∷ [])) ≡ t)
    × (50 + m * (30000 + 1) ≤ t)
    × All (λ q. q.now ≤ t + 30000) (silence 20000 ∷ silence 31000 ∷ [])
unfolding new_connection new_impl
recv-times_out_example =
    recv-times_out link user 1 [] (silence 20000 ∷ silence 31000 ∷ []) (silence 45051) polls refl
      (silence-IsIdle 20000 (omega arith), (silence-IsIdle 31000 (omega arith), tt)) refl
      (omega arith) (omega arith)
