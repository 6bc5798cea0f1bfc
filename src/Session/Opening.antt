-- ===== src/Session/Opening.antt =====
-- `connectionStateChange` of src/Client.cpp keeps the client in step with its connection.
use true_mqtt_cpp.Base.{
  ◌≡◌, refl, Bool, true, false, some, List, [], ◌∷◌, ◌++◌, Text, arith, inl, inr,
}
use true_mqtt_cpp.Connection.{Connection}
use true_mqtt_cpp.Connection
use true_mqtt_cpp.Client.{State, Message, Call, Impl}
use true_mqtt_cpp.Sender.{send_publish, send_subscribe}
use true_mqtt_cpp.Handlers.{resubscribe, flush, connection_state_change}
use true_mqtt_cpp.Handlers.Validity.{is_some, Ensures, Ensures-ok, Result-cases}
use true_mqtt_cpp.Handlers.Opening.{restart_faults}
use true_mqtt_cpp.Session.Sending.{IsFit}

-- A client that is CONNECTED.
abbrev IsUp : Impl → Type 0
IsUp s = (s.state ≡ State.connected) × IsFit s

up-is_some : (s : Impl) → IsUp s → is_some s.connection ≡ true
up-is_some s v = ground arith

send_subscribe-IsUp : (t : Text) (s : Impl) → IsUp s → Ensures IsUp (send_subscribe t s)
unfolding send_subscribe
send_subscribe-IsUp t s v = ground arith

send_publish-IsUp :
    (t m : Text) (r : Bool) (s : Impl) → IsUp s → Ensures IsUp (send_publish t m r s)
unfolding send_publish
send_publish-IsUp t m r s v = ground arith

resubscribe-IsUp : (ts : List Text) (s : Impl) → IsUp s → Ensures IsUp (resubscribe ts s)
unfolding resubscribe
resubscribe-IsUp [] s v = v
resubscribe-IsUp (t ∷ ts) s v =
    let sent = send_subscribe-IsUp t s v in
    elim (Result-cases (send_subscribe t s)) [
      | inl ((true, s'), e) ↦ rw e (resubscribe-IsUp ts s' (Ensures-ok IsUp _ sent e))
      | inl ((false, s'), e) ↦
          rw (e, restart_faults s' (up-is_some s' (Ensures-ok IsUp _ sent e))) tt
      | inr (f, e) ↦ rw e tt
    ]

flush-IsUp : (ms : List Message) (s : Impl) → IsUp s → Ensures IsUp (flush ms s)
unfolding flush
flush-IsUp [] s v = v
flush-IsUp (m ∷ ms) s v =
    let sent = send_publish-IsUp m.topic m.message m.retain s v in
    elim (Result-cases (send_publish m.topic m.message m.retain s)) [
      | inl ((true, s'), e) ↦ rw e (flush-IsUp ms s' (Ensures-ok IsUp _ sent e))
      | inl ((false, s'), e) ↦ rw e (Ensures-ok IsUp _ sent e)
      | inr (f, e) ↦ rw e tt
    ]

abbrev opened : Impl → Impl
opened s = record s {
  state = State.connected;
  calls = s.calls ++ (Call.state_changed State.connected ∷ []);
}

-- A connection that the broker has accepted.
pub made-IsFit :
    (c : Connection) (s : Impl)
    → s.connection ≡ some c
    → c.state ≡ Connection.State.connected
    → Ensures IsFit (connection_state_change true s)
unfolding connection_state_change
made-IsFit c s e h =
    let start : IsUp (opened s) = (refl, ground arith) in
    let restored = resubscribe-IsUp s.subscription_topics (opened s) start in
    elim (Result-cases (resubscribe s.subscription_topics (opened s))) [
      | inl ((false, s'), f) ↦ rw f (Ensures-ok IsUp _ restored f).1
      | inl ((true, s'), f) ↦
          let flushed = flush-IsUp s'.publish_queue s' (Ensures-ok IsUp _ restored f) in
          elim (Result-cases (flush s'.publish_queue s')) [
            | inl ((u, s''), g) ↦ rw (f, g) (Ensures-ok IsUp _ flushed g).1
            | inr (k, g) ↦ rw (f, g) tt
          ]
      | inr (k, f) ↦ rw f tt
    ]
