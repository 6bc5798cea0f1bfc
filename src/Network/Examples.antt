-- ===== src/Network/Examples.antt =====
-- The network half on concrete addresses, sockets and answers.
use true_mqtt_cpp.Base.{
  count, ℕ, ◌+◌, ◌≡◌, refl, true, false, not, some, none, List, [], ◌∷◌, arith, ◌==◌,
}
use true_mqtt_cpp.Connection.{State, Family, Address, new_connection}
use true_mqtt_cpp.Client.{Impl, new_impl}
use true_mqtt_cpp.Sender.{connection_send}
use true_mqtt_cpp.Network.{
  of_family, interweave, order_addresses, no_socket, refused, idle, wait_for_any, try_next_address,
  Net, lookup_failed, found, active, Answer, Round, set_state, or_back_off, connect_to_any,
  pick_socket, authenticate, run_read, stop_read,
}
use true_mqtt_cpp.Network.Descriptors.{held, IsSettled}
use true_mqtt_cpp.Network.Descriptors.Rounds.{Run, begun, further, stop_read-Run}
use true_mqtt_cpp.Network.Transitions.{state_of, run_read-stops, run_read_loses_stop}

abbrev four : ℕ → Address
four n = record { family = Family.inet; identity = n }

abbrev six : ℕ → Address
six n = record { family = Family.inet6; identity = n }

abbrev local : Address
local = record { family = Family.unspec; identity = 9 }

abbrev looked_up : List Address
looked_up = four 1 ∷ four 2 ∷ local ∷ four 3 ∷ six 4 ∷ []

orders_addresses : order_addresses looked_up ≡ six 4 ∷ four 1 ∷ four 2 ∷ four 3 ∷ []
unfolding order_addresses of_family interweave
orders_addresses = refl

abbrev user : Impl
user = new_impl (99 ∷ []) 5000 1000 30000 30000

abbrev net : State → List ℕ → Net
net state sockets = record {
  connection = record (new_connection 1000) {
    state = state;
    sockets = sockets;
    socket = none;
    addresses = four 1 ∷ [];
    address_current = 1;
  };
  closed = [];
  notices = [];
}

-- Socket 3 is in error, sockets 5 and 6 are writable.
abbrev answer : Answer
answer = record {
  stop = false;
  selection = active;
  now = 100;
  later = 100;
  tried_at = 100;
  opening = no_socket;
  has_error = λ x. x == 3;
  is_writable = λ x. not (x == 4);
}

-- The first writable socket is kept, and all others are closed.
picks_socket :
    ((connect_to_any user answer (net State.connecting (3 ∷ 4 ∷ 5 ∷ 6 ∷ []))).1.connection.socket
      ≡ some 5)
    × ((connect_to_any user answer (net State.connecting (3 ∷ 4 ∷ 5 ∷ 6 ∷ []))).1.closed
        ≡ 3 ∷ 4 ∷ 6 ∷ [])
unfolding connect_to_any pick_socket authenticate connection_send new_impl
picks_socket = (refl, refl)

abbrev quiet : Round
quiet = record { lookup = found looked_up; answer = answer; stop = false; received = false }

abbrev asked : Round
asked = record { lookup = lookup_failed []; answer = answer; stop = true; received = false }

run_read-stops_example :
    (run_read user asked (net State.connected [])
      ≡ some (set_state State.stopped (net State.connected [])))
    × (run_read user quiet (set_state State.stopped (net State.connected [])) ≡ none)
run_read-stops_example = run_read-stops user asked quiet (net State.connected []) refl refl refl

run_read_loses_stop_example :
    (n' : Net) × (n'' : Net) × (run_read user asked (net State.resolving []) ≡ some n')
    × (state_of n' ≡ State.backing_off)
    × (run_read user quiet n' ≡ some n'')
    × (state_of n'' ≡ State.resolving)
run_read_loses_stop_example =
    run_read_loses_stop user asked quiet [] (net State.resolving []) refl refl refl refl

abbrev start : Net
start = net State.connecting (4 ∷ 5 ∷ [])

-- There is an address left; the connection of socket 7 to it fails at once.
abbrev with_address : Net
with_address = record start { connection = record start.connection { address_current = 0 } }

with_address-IsSettled : IsSettled with_address
with_address-IsSettled = record { fits = refl; distinct = λ x. ground arith }

abbrev refusal : Round
refusal = record quiet {
  answer = record answer { selection = idle; now = 900; tried_at = 901; opening = refused 7 };
}

abbrev tried : Net
tried = or_back_off (connect_to_any user refusal.answer with_address)

-- Socket 5 is kept, and socket 4 closed, as socket 7 was before.
abbrev picked : Net
picked = or_back_off (connect_to_any user answer tried)

two_rounds : Run user with_address (7 ∷ []) picked
unfolding run_read connect_to_any pick_socket authenticate connection_send new_impl wait_for_any
    try_next_address new_connection
two_rounds = further quiet (further refusal begun refl refl) tt refl

closes_both : (stop_read picked).closed ≡ 7 ∷ 4 ∷ 5 ∷ []
unfolding stop_read connect_to_any pick_socket authenticate connection_send new_impl wait_for_any
    try_next_address new_connection
closes_both = refl

stop_read-Run_example :
    IsSettled picked
    × ((x : ℕ)
        → count x (stop_read picked).connection.sockets + count x (stop_read picked).closed
          ≡ count x (held with_address) + count x [] + count x (7 ∷ []))
stop_read-Run_example =
    stop_read-Run user with_address picked (7 ∷ []) with_address-IsSettled two_rounds
