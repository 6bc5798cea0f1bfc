-- ===== src/Regression/Passing.antt =====
-- Runs of the regression test, for each order in which the connections may be made. The broker's
-- messages are scripted: they come whatever the clients have sent.
use true_mqtt_cpp.Base.{◌≡◌, refl, false, none, some, Text}
use true_mqtt_cpp.Sender.{send_subscribe, send_unsubscribe, send_publish}
use true_mqtt_cpp.Base.{text_eq}
use true_mqtt_cpp.Subscription.{
  remove, parts, insert, parts_loop, next_part, find, emplace, modify, erase, clear_path,
  find_match,
}
use true_mqtt_cpp.Client.Topics.{set_emplace, set_erase, set_contains, text_ltb}
use true_mqtt_cpp.Client.{new_impl, impl_connect}
use true_mqtt_cpp.Handlers.{
  set_publish_queue, set_last_will, connect, disconnect, subscribe, unsubscribe, publish,
  connection_state_change, message_received, resubscribe, flush,
}
use true_mqtt_cpp.Handlers.Lifecycle.{run}
use true_mqtt_cpp.Base.{Bool, true}
use true_mqtt_cpp.Regression.{Test, Step, start, hear}
use true_mqtt_cpp.Regression.Cases.{regression}

-- The test passes, and no client has a connection or a counter that is not 0 then.
abbrev Passes : Step → Type 0
Passes step =
    (t : Test) × (step start ≡ some t)
    × (t.client1.connection ≡ none)
    × (t.client2.connection ≡ none)
    × (t.received ≡ 0)
    × (t.received2 ≡ 0)

-- On its script the test passes with any text, whether each client's connection is made before or after
-- the call behind its `connect`, and whether or not the broker still passes messages on to a client that
-- has unsubscribed: no call faults, every call of `publish` returns what it should, every callback
-- that is called has the topic that it should, and the counters are those that the test waits for. Two
-- clients without a connection are left, and no count. The texts of the log are not checked.
regression-Passes :
    (early1 early2 forwards : Bool) (text : Text) → Passes (regression early1 early2 forwards text)
unfolding run set_publish_queue set_last_will connect subscribe unsubscribe publish
    connection_state_change message_received new_impl impl_connect resubscribe flush set_emplace
    set_contains set_erase text_ltb text_eq send_subscribe send_unsubscribe send_publish remove
    parts insert parts_loop next_part find emplace modify erase clear_path find_match disconnect
    hear regression
regression-Passes false false false text = (_, refl, refl, refl, refl, refl)
regression-Passes false false true text = (_, refl, refl, refl, refl, refl)
regression-Passes false true false text = (_, refl, refl, refl, refl, refl)
regression-Passes false true true text = (_, refl, refl, refl, refl, refl)
regression-Passes true false false text = (_, refl, refl, refl, refl, refl)
regression-Passes true false true text = (_, refl, refl, refl, refl, refl)
regression-Passes true true false text = (_, refl, refl, refl, refl, refl)
regression-Passes true true true text = (_, refl, refl, refl, refl, refl)
