-- ===== src/Pubsub/Ending.antt =====
-- Runs of the program, for each call that its connection may be made behind. The broker's message is
-- scripted: it comes whatever the client has sent.
use true_mqtt_cpp.Base.{ℕ, zero, suc, Option, ◌≡◌, refl, false, none, some, List, [], ◌∷◌, Text}
use true_mqtt_cpp.Packet.{Packet}
use true_mqtt_cpp.Frame.{frame}
use true_mqtt_cpp.Connection.{Connection}
use true_mqtt_cpp.Client.{State, Call, Impl, ok}
use true_mqtt_cpp.Sender.{publish_packet, send_subscribe, send_unsubscribe, send_publish}
use true_mqtt_cpp.Base.{text_eq}
use true_mqtt_cpp.Subscription.{
  remove, parts, insert, parts_loop, next_part, find, emplace, modify, erase, clear_path,
  find_match,
}
use true_mqtt_cpp.Client.Topics.{set_emplace, set_erase, set_contains, text_ltb}
use true_mqtt_cpp.Client.{new_impl, impl_connect}
use true_mqtt_cpp.Handlers.{
  set_publish_queue, set_last_will, connect, disconnect, subscribe, unsubscribe, publish,
  connection_state_change, message_received, resubscribe, flush,
}
use true_mqtt_cpp.Handlers.Lifecycle.{Operation, run}
use true_mqtt_cpp.Handlers.Careful.{run_all}
use true_mqtt_cpp.Pubsub.{test_client, exact_topic, up_to_loop, stop}

-- The four callbacks that the message calls, in order.
abbrev four_calls : Text → List Call
four_calls payload =
    Call.message_arrived 1 exact_topic payload
    ∷ Call.message_arrived 2 exact_topic payload
    ∷ Call.message_arrived 4 exact_topic payload
    ∷ Call.message_arrived 3 exact_topic payload
    ∷ []

unfoldable last_packet : List Packet → Option Packet
last_packet [] = none
last_packet (p ∷ []) = some p
last_packet (p ∷ q ∷ ps) = last_packet (q ∷ ps)

-- What the program does where the connection is made behind n of its calls.
abbrev Ends : ℕ → Text → Type 0
Ends n payload =
    (s : Impl) × (c : Connection) × (t : Impl) × (u : Impl) × (run_all (up_to_loop n payload)
        test_client
      ≡ ok (tt, s))
    × (s.connection ≡ some c)
    × (last_packet c.send_queue ≡ some (frame (publish_packet exact_topic payload false)))
    × (run (Operation.receives exact_topic payload) s ≡ ok (tt, t))
    × (t.calls
        ≡ Call.state_changed State.connecting
          ∷ Call.state_changed State.connected
          ∷ four_calls payload)
    × (stop t.calls ≡ 4)
    × (run Operation.disconnects t ≡ ok (tt, u))
    × (u.connection ≡ none)

-- Whichever of its calls the connection is made behind, the program runs up to its loop without a fault,
-- and the last packet that it has queued then is its PUBLISH. When the broker sends that message back,
-- `stop` becomes 4: the callbacks are called for the exact topic, the second one for it, the one of '#'
-- and the one of '+', and the callback that was unsubscribed is not. The `disconnect` behind the loop
-- returns and leaves no connection.
main-Ends : (n : ℕ) (payload : Text) → Ends n payload
unfolding run set_publish_queue set_last_will connect subscribe unsubscribe publish
    connection_state_change message_received new_impl impl_connect resubscribe flush set_emplace
    set_contains set_erase text_ltb text_eq send_subscribe send_unsubscribe send_publish remove
    parts insert parts_loop next_part find emplace modify erase clear_path find_match disconnect
    stop last_packet
main-Ends zero payload = (_, _, _, _, refl, refl, refl, refl, refl, refl, refl, refl)
main-Ends (suc zero) payload = (_, _, _, _, refl, refl, refl, refl, refl, refl, refl, refl)
main-Ends (suc (suc zero)) payload = (_, _, _, _, refl, refl, refl, refl, refl, refl, refl, refl)
main-Ends (suc (suc (suc zero))) payload =
    (_, _, _, _, refl, refl, refl, refl, refl, refl, refl, refl)
main-Ends (suc (suc (suc (suc zero)))) payload =
    (_, _, _, _, refl, refl, refl, refl, refl, refl, refl, refl)
main-Ends (suc (suc (suc (suc (suc zero))))) payload =
    (_, _, _, _, refl, refl, refl, refl, refl, refl, refl, refl)
main-Ends (suc (suc (suc (suc (suc (suc zero)))))) payload =
    (_, _, _, _, refl, refl, refl, refl, refl, refl, refl, refl)
main-Ends (suc (suc (suc (suc (suc (suc (suc zero))))))) payload =
    (_, _, _, _, refl, refl, refl, refl, refl, refl, refl, refl)
main-Ends (suc (suc (suc (suc (suc (suc (suc (suc n)))))))) payload =
    (_, _, _, _, refl, refl, refl, refl, refl, refl, refl, refl)
