-- ===== src/Handlers/Opening.antt =====
-- The invariant of a client while `connectionStateChange` of src/Client.cpp runs on the read thread.
use true_mqtt_cpp.Base.{
  ◌^◌, ◌≤◌, ◌<◌, ◌≡◌, refl, ◌≢◌, inl, inr, Bool, true, false, List, [], ◌∷◌, ◌++◌, Text, length,
  arith,
}
use true_mqtt_cpp.Client.{
  State, Message, Call, Impl, Fault, Result, ok, fault, Thread, impl_connect, impl_disconnect,
}
use true_mqtt_cpp.Sender.{send_subscribe, send_publish}
use true_mqtt_cpp.Handlers.{restart, resubscribe, flush, connection_state_change}
use true_mqtt_cpp.Handlers.Validity.{is_some, IsValid, Ensures, Result-cases, Ensures-ok}

-- While the connection's read thread restores what the user asked for.
record IsOpen (s : Impl) : Type 0 where
  is_connected : s.state ≡ State.connected
  linked : is_some s.connection ≡ true
  bounded : length s.publish_queue ≤ s.publish_queue_size
  packet_ids : s.packet_id < 2 ^ 16

send_subscribe-IsOpen : (t : Text) (s : Impl) → IsOpen s → Ensures IsOpen (send_subscribe t s)
unfolding send_subscribe
send_subscribe-IsOpen t s v = ground arith

send_publish-IsOpen :
    (t m : Text) (r : Bool) (s : Impl) → IsOpen s → Ensures IsOpen (send_publish t m r s)
unfolding send_publish
send_publish-IsOpen t m r s v = ground arith

-- The same with the value that a function returns.
abbrev Returns : {A : Type 0} → (A → Impl → Type 0) → Result (A × Impl) → Type 0
Returns P (ok (a, s)) = P a s
Returns P (fault e) = Unit {0}

Returns-ok :
    {A : Type 0} (P : A → Impl → Type 0) (r : Result (A × Impl)) {a : A} {s : Impl}
    → Returns P r
    → r ≡ ok (a, s)
    → P a s
Returns-ok P r h e = rw e at h

-- The read thread cannot restart the connection that it runs for.
pub restart_faults :
    (s : Impl) → is_some s.connection ≡ true → restart Thread.reader s ≡ fault Fault.self_join
unfolding impl_disconnect impl_connect
restart_faults s h = ground arith

abbrev DoneOpen : Bool → Impl → Type 0
DoneOpen done s = (done ≡ true) × IsOpen s

resubscribe-DoneOpen : (ts : List Text) (s : Impl) → IsOpen s → Returns DoneOpen (resubscribe ts s)
unfolding resubscribe
resubscribe-DoneOpen [] s v = (refl, v)
resubscribe-DoneOpen (t ∷ ts) s v =
    let sent = send_subscribe-IsOpen t s v in
    elim (Result-cases (send_subscribe t s)) [
      | inl ((true, s'), e) ↦ rw e (resubscribe-DoneOpen ts s' (Ensures-ok IsOpen _ sent e))
      | inl ((false, s'), e) ↦ rw (e, restart_faults s' (Ensures-ok IsOpen _ sent e).linked) tt
      | inr (f, e) ↦ rw e tt
    ]

flush-IsOpen : (ms : List Message) (s : Impl) → IsOpen s → Ensures IsOpen (flush ms s)
unfolding flush
flush-IsOpen [] s v = v
flush-IsOpen (m ∷ ms) s v =
    let sent = send_publish-IsOpen m.topic m.message m.retain s v in
    elim (Result-cases (send_publish m.topic m.message m.retain s)) [
      | inl ((true, s'), e) ↦ rw e (flush-IsOpen ms s' (Ensures-ok IsOpen _ sent e))
      | inl ((false, s'), e) ↦ rw e (Ensures-ok IsOpen _ sent e)
      | inr (f, e) ↦ rw e tt
    ]

abbrev opened : Impl → Impl
opened s = record s {
  state = State.connected;
  calls = s.calls ++ (Call.state_changed State.connected ∷ []);
}

opened-IsOpen : (s : Impl) → IsValid s → s.state ≢ State.disconnected → IsOpen (opened s)
opened-IsOpen s v h = ground arith

closed_queue-IsValid : (s : Impl) → IsOpen s → IsValid (record s { publish_queue = [] })
closed_queue-IsValid s v = ground arith

not_done : ¬ (false ≡ true)
not_done h = cc

pub connected-IsValid :
    (s : Impl)
    → IsValid s
    → s.state ≢ State.disconnected
    → Ensures IsValid (connection_state_change true s)
unfolding connection_state_change
connected-IsValid s v h =
    let restored = resubscribe-DoneOpen s.subscription_topics (opened s) (opened-IsOpen s v h) in
    elim (Result-cases (resubscribe s.subscription_topics (opened s))) [
      | inl ((false, s'), e) ↦ absurd (not_done (Returns-ok DoneOpen _ restored e).0)
      | inl ((true, s'), e) ↦
          let flushed = flush-IsOpen s'.publish_queue s' (Returns-ok DoneOpen _ restored e).1 in
          elim (Result-cases (flush s'.publish_queue s')) [
            | inl ((u, s''), e') ↦
                rw (e, e') (closed_queue-IsValid s'' (Ensures-ok IsOpen _ flushed e'))
            | inr (f, e') ↦ rw (e, e') tt
          ]
      | inr (f, e) ↦ rw e tt
    ]
