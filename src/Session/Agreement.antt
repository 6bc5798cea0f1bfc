-- ===== src/Session/Agreement.antt =====
-- The state of a client and the state of its connection, in every run of src/Client.cpp, src/Packet.cpp
-- and src/Connection.cpp together.
use true_mqtt_cpp.Base.{
  ℕ, ◌≡◌, refl, Bool, true, false, none, some, Option, List, [], ◌∷◌, arith, inl, inr, ap,
  Bool-cases,
}
use true_mqtt_cpp.Connection.{Address, Connection}
use true_mqtt_cpp.Connection
use true_mqtt_cpp.Client.{State, Impl}
use true_mqtt_cpp.Handlers.{connection_state_change}
use true_mqtt_cpp.Handlers.Validity.{Ensures, Ensures-ok, Result-cases}
use true_mqtt_cpp.Network.{
  socket_error, Net, Notice, called, lost, Lookup, lookup_failed, found, order_addresses, resolve,
  with_connection, notify, set_state, Answer, connect_to_any, connect_round, stop_if, or_back_off,
  run_read, read_round, after_receive, after_sleep, is_stopped,
}
use true_mqtt_cpp.Network.Transitions.{Pending, try_next_address-state, connect_to_any-Pending}
use true_mqtt_cpp.Receiver.{World, Outcome, done, recv_loop, ◌>>=◌}
use true_mqtt_cpp.Session.{
  Turn, round_of, net_of, tell, keep_net, go_on, network_of, network_round, receives_in, round_on,
  round, Reaches, here, calls, hears, turns, breaks,
}
use true_mqtt_cpp.Session.Sending.{is_low, is_high, fits, IsFit, run-IsFit}
use true_mqtt_cpp.Session.Reading.{Leaves, IsKeeper, bind-IsKeeper, if-IsKeeper}
use true_mqtt_cpp.Session.Receiving.{recv_loop-IsKeeper}

-- The connection is of a client that is CONNECTING, and its notices are told.
tell-IsFit :
    (notices : List Notice) (c : Connection) (s : Impl)
    → s.connection ≡ some c
    → is_low c.state ≡ true
    → s.state ≡ State.connecting
    → Ensures IsFit (tell notices s)
unfolding tell connection_state_change
tell-IsFit [] c s e l h = rw (h, e) l
tell-IsFit (called call ∷ notices) c s e l h = tell-IsFit notices c _ e l h
tell-IsFit (lost ∷ notices) c s e l h = tell-IsFit notices c _ e l refl

stop_if-low :
    (b : Bool) (n : Net)
    → is_low n.connection.state ≡ true
    → is_low (stop_if b n).connection.state ≡ true
stop_if-low false n l = l
stop_if-low true n l = refl

resolve-low :
    (lookup : Lookup) (b : Bool) (n : Net)
    → n.connection.state ≡ Connection.State.resolving
    → is_low (or_back_off (resolve lookup b n)).connection.state ≡ true
unfolding resolve
resolve-low (lookup_failed text) b n h = refl
resolve-low (found list) b n h = at (order_addresses list) b refl
  where
    at :
        (ordered : List Address) (b : Bool)
        → order_addresses list ≡ ordered
        → is_low (or_back_off (resolve (found list) b n)).connection.state ≡ true
    at [] b e = rw e refl
    at (a ∷ more) false e = rw (e, h) refl
    at (a ∷ more) true e = rw e refl

or_back_off-low :
    (r : Bool × Net)
    → is_low r.1.connection.state ≡ true
    → is_low (or_back_off r).connection.state ≡ true
or_back_off-low (true, n) l = l
or_back_off-low (false, n) l = refl

Pending-low : (n : Net) → Pending n → is_low n.connection.state ≡ true
Pending-low n (inl e) = rw e refl
Pending-low n (inr e) = rw e refl

asked_round-low :
    (xs : List ℕ) (s : Impl) (a : Answer) (n : Net)
    → n.connection.state ≡ Connection.State.connecting
    → a.stop ≡ true
    → is_low (connect_round xs s a n).1.connection.state ≡ true
asked_round-low [] s a n h asked =
    let same = try_next_address-state a.tried_at a.opening n in rw (same, h) refl
asked_round-low (x ∷ xs) s a n h asked = rw asked refl

connect_to_any-low :
    (s : Impl) (a : Answer) (n : Net)
    → n.connection.state ≡ Connection.State.connecting
    → is_low (connect_to_any s a n).1.connection.state ≡ true
unfolding connect_to_any
connect_to_any-low s a n h = elim (Bool-cases a.stop) [
  | inl asked ↦ asked_round-low n.connection.sockets s a n h asked
  | inr quiet ↦ Pending-low (connect_to_any s a n).1 (connect_to_any-Pending s a n h quiet)
]

after_sleep-low :
    (s : Impl) (n : Net)
    → is_low n.connection.state ≡ true
    → is_low (after_sleep s n).connection.state ≡ true
after_sleep-low s n l = elim (Bool-cases (is_stopped n.connection.state)) [
  | inl e ↦ rw e l
  | inr e ↦ rw e refl
]

after_receive-low :
    (b : Bool) (n : Net)
    → is_low n.connection.state ≡ true
    → is_low (after_receive b n).connection.state ≡ true
unfolding socket_error
after_receive-low true n l = l
after_receive-low false n l = elim (Bool-cases (is_stopped n.connection.state)) [
  | inl e ↦ rw e l
  | inr e ↦ rw e refl
]

kept : (n : Net) (w : World) → Ensures IsFit (keep_net n w.impl) → Leaves (go_on (some n) w)
kept n w h = elim (Result-cases (keep_net n w.impl)) [
  | inl ((u, t), e) ↦ rw e (Ensures-ok IsFit _ h e)
  | inr (f, e) ↦ rw e tt
]

module _ (t : Turn) (received_one : Bool) (w : World) (c : Connection) where
  connecting_on :
      (n : Net)
      → w.impl.state ≡ State.connecting
      → is_low n.connection.state ≡ true
      → Leaves (go_on (some n) w)
  connecting_on n h l = kept n w (tell-IsFit n.notices n.connection _ refl l h)

  connecting_round :
      (st : Connection.State)
      → c.state ≡ st
      → w.impl.state ≡ State.connecting
      → is_low st ≡ true
      → IsFit w.impl
      → Leaves (go_on (read_round st w.impl (round_of t received_one) (net_of c)) w)
  connecting_round Connection.State.resolving e h l v =
      connecting_on (or_back_off (resolve t.lookup t.stop (net_of c))) h
        (resolve-low t.lookup t.stop (net_of c) e)
  connecting_round Connection.State.connecting e h l v =
      connecting_on (or_back_off (connect_to_any w.impl t.answer (net_of c))) h (
        or_back_off-low (connect_to_any w.impl t.answer (net_of c))
          (connect_to_any-low w.impl t.answer (net_of c) e))
  connecting_round Connection.State.backing_off e h l v =
      connecting_on (after_sleep w.impl (stop_if t.stop (net_of c))) h (
        after_sleep-low w.impl (stop_if t.stop (net_of c))
          (stop_if-low t.stop (net_of c) (rw e refl)))
  connecting_round Connection.State.authenticating e h l v =
      connecting_on (after_receive received_one (stop_if t.stop (net_of c))) h (
        after_receive-low received_one (stop_if t.stop (net_of c))
          (stop_if-low t.stop (net_of c) (rw e refl)))
  connecting_round Connection.State.connected e h l v = absurd (ground arith)
  connecting_round Connection.State.socket_error e h l v =
      connecting_on
        (with_connection (λ d. record d { send_queue = [] })
          (notify lost (set_state Connection.State.backing_off (net_of c))))
        h refl
  connecting_round Connection.State.stopped e h l v = v

  after_receive_round :
      (asked b : Bool)
      → c.state ≡ Connection.State.connected
      → w.impl.state ≡ State.connected
      → Leaves (go_on (some (after_receive b (stop_if asked (net_of c)))) w)
  unfolding socket_error tell
  after_receive_round true true e h = kept (stop_if true (net_of c)) w (rw h refl)
  after_receive_round true false e h = kept (stop_if true (net_of c)) w (rw h refl)
  after_receive_round false true e h =
      let fit : fits w.impl.state (some c) ≡ true = ground arith in kept (net_of c) w fit
  after_receive_round false false e h =
      let goes_on : is_stopped c.state ≡ false = ap is_stopped e in
      rw goes_on (kept (socket_error (net_of c)) w (rw h refl))

  connected_round :
      (st : Connection.State)
      → c.state ≡ st
      → w.impl.state ≡ State.connected
      → is_high st ≡ true
      → IsFit w.impl
      → Leaves (go_on (read_round st w.impl (round_of t received_one) (net_of c)) w)
  unfolding tell connection_state_change
  connected_round Connection.State.connected e h l v = after_receive_round t.stop received_one e h
  connected_round Connection.State.socket_error e h l v = refl
  connected_round Connection.State.stopped e h l v = v
  connected_round _ e h l v = absurd (ground arith)

  fitting_round :
      w.impl.connection ≡ some c
      → IsFit w.impl
      → Leaves (go_on (run_read w.impl (round_of t received_one) (net_of c)) w)
  unfolding run_read
  fitting_round e v = at w.impl.state refl
    where
      at :
          (st : State)
          → w.impl.state ≡ st
          → Leaves (go_on (run_read w.impl (round_of t received_one) (net_of c)) w)
      at State.disconnected h = absurd (ground arith)
      at State.connecting h = connecting_round c.state refl h (ground arith) v
      at State.connected h = connected_round c.state refl h (ground arith) v

network_round-IsKeeper : (t : Turn) (b : Bool) → IsKeeper (network_round t b)
network_round-IsKeeper t b w v = at w.impl.connection refl
  where
    at : (o : Option Connection) → w.impl.connection ≡ o → Leaves (network_of t b o w)
    at none e = tt
    at (some c) e = fitting_round t b w c e v

round_on-IsKeeper : (o : Option Connection) (t : Turn) → IsKeeper (round_on o t)
round_on-IsKeeper none t = λ w v. tt
round_on-IsKeeper (some c) t =
    if-IsKeeper (receives_in c.state) (recv_loop t.now >>= network_round t) (network_round t false)
      (bind-IsKeeper (recv_loop t.now) (network_round t) (recv_loop-IsKeeper t.now)
        (network_round-IsKeeper t))
      (network_round-IsKeeper t false)

round-IsKeeper : (t : Turn) → IsKeeper (round t)
unfolding round
round-IsKeeper t w v = round_on-IsKeeper w.impl.connection t w v

Leaves-done :
    {A : Type 0} (o : Outcome A) {a : A} {w : World} → Leaves o → o ≡ done a w → IsFit w.impl
Leaves-done o h e = rw e at h

-- The write thread's `socketError` fits any client that has a connection.
breaks-IsFit :
    (s : Impl) (c : Connection)
    → s.connection ≡ some c
    → IsFit s
    → IsFit (record s { connection = some (socket_error (net_of c)).connection })
unfolding socket_error
breaks-IsFit s c e v = ground arith

-- Of a client whose states fit, as those of a new client do: whatever its user calls, with room in the
-- send queue for what `subscribe` and `unsubscribe` send, whatever bytes come, however they are cut up,
-- whatever the read thread meets in its rounds, a request to stop included, and whenever the write
-- thread calls `socketError`, the states fit after all calls and rounds that return. The client is
-- DISCONNECTED exactly while it has no connection, is CONNECTED only while the connection is CONNECTED,
-- is in the state SOCKET_ERROR or is in the state STOP, and is CONNECTED whenever the connection is.
pub Reaches-IsFit : (start w : World) → IsFit start.impl → Reaches start w → IsFit w.impl
Reaches-IsFit start _ v here = v
Reaches-IsFit start _ v (calls op t r used e) =
    Ensures-ok IsFit _ (run-IsFit op _ used (Reaches-IsFit start _ v r)) e
Reaches-IsFit start _ v (hears bytes polls r) = Reaches-IsFit start _ v r
Reaches-IsFit start _ v (turns {w = before} t goes_on r e) =
    Leaves-done (round t before) (round-IsKeeper t before (Reaches-IsFit start _ v r)) e
Reaches-IsFit start _ v (breaks {w = before} c r e) =
    breaks-IsFit before.impl c e (Reaches-IsFit start _ v r)
