-- ===== src/Network/Transitions.antt =====
-- The states that the loop `runRead` of src/Connection.cpp goes through.
use true_mqtt_cpp.Base.{
  ℕ, ◌≡◌, refl, ◌⊎◌, true, false, not, Bool, Option, none, some, List, [], ◌∷◌, Text, arith, inl,
  inr, ap, ◌∙◌,
}
use true_mqtt_cpp.Connection.{State}
use true_mqtt_cpp.Client.{Impl}
use true_mqtt_cpp.Sender.{connection_send}
use true_mqtt_cpp.Network.{
  Opening, no_socket, refused, under_way, Net, lookup_failed, resolve, Selection, select_failed,
  idle, active, Answer, set_state, is_stopped, stop_if, keep, first_of_test, try_next_address,
  wait_for_any, authenticate, pick_socket, select_round, connect_round, connect_to_any,
  socket_error, Round, after_sleep, read_round, run_read,
}

abbrev pub state_of : Net → State
state_of n = n.connection.state

-- The states that may follow each other in a round, when nobody asks the thread to stop. The Boolean is
-- what `recvLoop` returns; a round stays in its state only while a connection is pending, or where a
-- packet was received.
pub data Next : Bool → State → State → Type 0 where
  resolved : {b : Bool} → Next b State.resolving State.connecting
  unresolved : {b : Bool} → Next b State.resolving State.backing_off
  pending : {b : Bool} → Next b State.connecting State.connecting
  sent_connect : {b : Bool} → Next b State.connecting State.authenticating
  unconnected : {b : Bool} → Next b State.connecting State.backing_off
  waited : {b : Bool} → Next b State.backing_off State.resolving
  received_authenticating : Next true State.authenticating State.authenticating
  received_connected : Next true State.connected State.connected
  broken_authenticating : Next false State.authenticating State.socket_error
  broken_connected : Next false State.connected State.socket_error
  reported : {b : Bool} → Next b State.socket_error State.backing_off

-- The CONNECT packet has priority, so it is always queued.
authenticate_sends :
    (s : Impl) (n : Net)
    → state_of n ≡ State.connecting
    → state_of (authenticate s (state_of n) n).1 ≡ State.authenticating
unfolding authenticate connection_send
authenticate_sends s n h = rw h refl

abbrev pub Pending : Net → Type 0
Pending n = (state_of n ≡ State.connecting) ⊎ (state_of n ≡ State.authenticating)

pub try_next_address-state :
    (now : ℕ) (o : Opening) (n : Net) → state_of (try_next_address now o n).1 ≡ state_of n
unfolding try_next_address
try_next_address-state now no_socket n = ground arith
try_next_address-state now (refused y) n = ground arith
try_next_address-state now (under_way y) n = ground arith

wait_for_any-state : (t : ℕ) (a : Answer) (n : Net) → state_of (wait_for_any t a n).1 ≡ state_of n
unfolding wait_for_any
wait_for_any-state t a n = ground (arith, try_next_address-state a.tried_at a.opening n)

pick_socket-Pending :
    (s : Impl) (a : Answer) (n : Net)
    → state_of n ≡ State.connecting
    → Pending (pick_socket s a n).1
unfolding pick_socket
pick_socket-Pending s a n h = at (first_of_test a.is_writable survivors) refl
  where
    survivors : List ℕ
    survivors = keep (λ x. not (a.has_error x)) n.connection.sockets

    at : (o : Option ℕ) → first_of_test a.is_writable survivors ≡ o → Pending (pick_socket s a n).1
    at none e = rw e (inl h)
    at (some socket) e = rw e (inr (authenticate_sends s _ h))

pub connect_to_any-Pending :
    (s : Impl) (a : Answer) (n : Net)
    → state_of n ≡ State.connecting
    → a.stop ≡ false
    → Pending (connect_to_any s a n).1
unfolding connect_to_any
connect_to_any-Pending s a n h st = by_sockets n.connection.sockets
  where
    by_selection : (x : Selection) → Pending (select_round x s a n).1
    by_selection select_failed = inl h
    by_selection idle = inl (wait_for_any-state s.connection_timeout a n ∙ h)
    by_selection active = pick_socket-Pending s a n h

    by_sockets : (xs : List ℕ) → Pending (connect_round xs s a n).1
    by_sockets [] = inl (try_next_address-state a.tried_at a.opening n ∙ h)
    by_sockets (x ∷ xs) =
        let runs : stop_if a.stop n ≡ n = ap (λ (b : Bool). stop_if b n) st in
        let goes_on : is_stopped (state_of n) ≡ false = ap is_stopped h in
        rw (runs, goes_on) (by_selection a.selection)

-- The rounds in which the thread sleeps, or waits for bytes.
abbrev pub blocks : State → Bool
blocks State.backing_off = true
blocks State.authenticating = true
blocks State.connected = true
blocks State.resolving = false
blocks State.connecting = false
blocks State.socket_error = false
blocks State.stopped = false

-- A round that begins in a state: it returns, in a state that may follow.
abbrev Goes : Bool → State → Option Net → Type 0
Goes b st o = (n' : Net) × (o ≡ some n') × Next b st (state_of n')

blocked_stops :
    (st : State) (s : Impl) (r : Round) (n : Net)
    → blocks st ≡ true
    → r.stop ≡ true
    → r.received ≡ false
    → read_round st s r n ≡ some (set_state State.stopped n)
blocked_stops State.backing_off s r n b h e = ground arith
blocked_stops State.authenticating s r n b h e = ground arith
blocked_stops State.connected s r n b h e = ground arith
blocked_stops State.resolving s r n b h e = absurd (ground arith)
blocked_stops State.connecting s r n b h e = absurd (ground arith)
blocked_stops State.socket_error s r n b h e = absurd (ground arith)
blocked_stops State.stopped s r n b h e = absurd (ground arith)

-- A thread that is asked to stop while it sleeps, or while it waits for bytes that do not come, is
-- stopped after that round, and returns from the loop in the next, whatever that meets.
pub run_read-stops :
    (s : Impl) (r next_round : Round) (n : Net)
    → blocks (state_of n) ≡ true
    → r.stop ≡ true
    → r.received ≡ false
    → (run_read s r n ≡ some (set_state State.stopped n))
      × (run_read s next_round (set_state State.stopped n) ≡ none)
unfolding run_read
run_read-stops s r next_round n b h e = (blocked_stops (state_of n) s r n b h e, refl)

-- A thread that is asked to stop while the host name is looked up, and whose look-up fails, backs off;
-- if it is not asked again, it resolves again after that.
pub run_read_loses_stop :
    (s : Impl) (r next_round : Round) (text : Text) (n : Net)
    → state_of n ≡ State.resolving
    → r.lookup ≡ lookup_failed text
    → r.stop ≡ true
    → next_round.stop ≡ false
    → (n' : Net) × (n'' : Net) × (run_read s r n ≡ some n')
      × (state_of n' ≡ State.backing_off)
      × (run_read s next_round n' ≡ some n'')
      × (state_of n'' ≡ State.resolving)
unfolding run_read resolve
run_read_loses_stop s r next_round text n h failed asked quiet =
    let lost_it = set_state State.backing_off (resolve r.lookup r.stop n).1 in
    (lost_it, after_sleep s lost_it, rw (h, failed) refl, refl, rw quiet refl, refl)
