-- ===== src/Writer/Examples.antt =====
-- The write thread on concrete packets.
use true_mqtt_cpp.Base.{◌≡◌, refl, some, [], ◌∷◌, ◌++◌, arith}
use true_mqtt_cpp.Packet.{Packet, PacketType}
use true_mqtt_cpp.Connection.{State, Connection, new_connection}
use true_mqtt_cpp.Network.{Net}
use true_mqtt_cpp.Writer.{accepted, refused, Output, send_packet, goes_on, returns, run_write}
use true_mqtt_cpp.Writer.Partial.{output_of, Conserves, send_packet-Conserves}
use true_mqtt_cpp.Writer.Drain.{WriteRound, run_writes, all_unsent, run_writes-all_unsent}

-- A framed PINGREQ, which starts at offset 3.
abbrev ping : Packet
ping = record {
  buffer = 0 ∷ 0 ∷ 0 ∷ 192 ∷ 0 ∷ [];
  read_offset = 0;
  write_offset = 3;
  packet_type = PacketType.pingreq;
  flags = 0;
}

abbrev link : Connection
link = record (new_connection 1000) {
  state = State.connected;
  socket = some 5;
  send_queue = ping ∷ ping ∷ [];
}

abbrev output : Output
output = record { net = record { connection = link; closed = []; notices = [] }; sent = 1 ∷ [] }

-- The socket takes one byte, and then breaks: it is closed.
breaks : (output_of (send_packet 9 (accepted 1 ∷ refused ∷ []) ping output)).net.closed ≡ 5 ∷ []
unfolding send_packet true_mqtt_cpp.Network.socket_error
breaks = refl

-- A thread that is stopped returns.
stops :
    run_write 9 [] link (record output {
      net = record {
        connection = record link { state = State.stopped };
        closed = [];
        notices = [];
      };
    })
    ≡ returns
unfolding run_write
stops = refl

send_packet-Conserves_example :
    Conserves ping output (send_packet 9 (accepted 1 ∷ refused ∷ []) ping output)
send_packet-Conserves_example = send_packet-Conserves 9 (accepted 1 ∷ refused ∷ []) ping output

abbrev bytewise : WriteRound
bytewise = record { now = 9; answers = accepted 1 ∷ accepted 1 ∷ []; later = link }

run_writes-all_unsent_example :
    (o' : Output) × (run_writes (bytewise ∷ bytewise ∷ []) output ≡ goes_on o')
    × (o'.sent ≡ (1 ∷ []) ++ all_unsent (ping ∷ ping ∷ []))
    × (o'.net.connection.send_queue ≡ [])
run_writes-all_unsent_example =
    run_writes-all_unsent (bytewise ∷ bytewise ∷ []) (ping ∷ ping ∷ []) output refl refl (
      (omega arith, (omega arith, tt)),
      omega arith,
      ((omega arith, (omega arith, tt)), omega arith, tt),
    )
