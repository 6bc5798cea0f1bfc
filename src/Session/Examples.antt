-- ===== src/Session/Examples.antt =====
-- A client that meets its broker.
use true_mqtt_cpp.Base.{◌≡◌, refl, Bool, true, false, some, [], ◌∷◌}
use true_mqtt_cpp.Packet.{received_packet, read_uint8}
use true_mqtt_cpp.Connection.{Connection, new_connection}
use true_mqtt_cpp.Connection
use true_mqtt_cpp.Client.{State, new_impl}
use true_mqtt_cpp.Handlers.{connection_state_change, resubscribe, flush}
use true_mqtt_cpp.Network.{lookup_failed, no_socket, Answer, idle, run_read}
use true_mqtt_cpp.Receiver.{
  arrived, Poll, World, Outcome, done, faulted, waiting, recv, recv_loop_over, keep_alive,
  recv_loop, read_length, read_body, packet_type_of, handle, handle_connack,
}
use true_mqtt_cpp.Session.{Turn, round, tell, here, hears, turns}
use true_mqtt_cpp.Session.Sending.{IsFit}
use true_mqtt_cpp.Session.Agreement.{Reaches-IsFit}

abbrev answer : Answer
answer = record {
  stop = false;
  selection = idle;
  now = 100;
  later = 100;
  tried_at = 100;
  opening = no_socket;
  has_error = λ x. false;
  is_writable = λ x. false;
}

abbrev turn : Turn
turn = record { lookup = lookup_failed []; answer = answer; stop = false; now = 200 }

abbrev steady : Poll
steady = record {
  seen = Connection.State.authenticating;
  now = 100;
  later = 100;
  ready = true;
  arrival = arrived 9;
}

-- A client that has sent its CONNECT.
abbrev hopeful : World
hopeful = record {
  impl = record (new_impl (99 ∷ []) 5000 1000 30000 30000) {
    state = State.connecting;
    connection = some (record (new_connection 1000) {
      state = Connection.State.authenticating;
      last_sent_packet = 50;
      last_received_packet = 50;
    });
  };
  incoming = [];
  polls = [];
}

-- The broker accepts it.
abbrev greeted : World
greeted = record hopeful {
  incoming = 32 ∷ 2 ∷ 0 ∷ 0 ∷ [];
  polls = steady ∷ steady ∷ steady ∷ steady ∷ [];
}

abbrev world_of : Outcome Bool → World
world_of (done b w) = w
world_of (faulted e) = hopeful
world_of (waiting w) = w

greets : (world_of (round turn greeted)).impl.state ≡ State.connected
unfolding new_connection new_impl round recv_loop recv recv_loop_over keep_alive read_length
    read_body packet_type_of handle handle_connack received_packet read_uint8
    connection_state_change resubscribe flush run_read tell
greets = refl

Reaches-IsFit_example : IsFit (world_of (round turn greeted)).impl
unfolding new_connection new_impl round recv_loop recv recv_loop_over keep_alive read_length
    read_body packet_type_of handle handle_connack received_packet read_uint8
    connection_state_change resubscribe flush run_read tell
Reaches-IsFit_example =
    Reaches-IsFit hopeful (world_of (round turn greeted)) refl
      (turns turn true (hears greeted.incoming greeted.polls here) refl)
