-- ===== src/Network/Descriptors/Rounds.antt =====
-- The sockets of a round of `runRead` in src/Connection.cpp.
use true_mqtt_cpp.Base.{
  count, count-append, ℕ, ◌+◌, ◌++◌, ◌≡◌, refl, ◌≢◌, Bool, true, false, none, some, List, [], ◌∷◌,
  arith, ap, ◌∙◌,
}
use mathlib.Core.Option.{some-injective}
use true_mqtt_cpp.Connection.{State, Address}
use true_mqtt_cpp.Client.{Impl}
use true_mqtt_cpp.Network.{
  Net, Lookup, order_addresses, resolve, some_socket, connect_to_any, is_stopped, stop_if,
  socket_error, Round, or_back_off, after_sleep, after_receive, read_round, run_read, stop_read,
  some_socket,
}
use true_mqtt_cpp.Network.Descriptors.{held, Fits, IsSettled, opened_in, opened, Balanced, IsFresh}
use true_mqtt_cpp.Network.Descriptors.Attempts.{Handled, connect_to_any-Handled}

-- What a round leaves.
abbrev Leaves : State → Round → Net → Net → Type 0
Leaves st r n n' = IsSettled n' × Balanced (opened_in st r n n') n n'

connecting-Leaves :
    (r : Round) (n : Net) (m : Bool × Net)
    → Handled r.answer.opening n m
    → Leaves State.connecting r n (or_back_off m)
connecting-Leaves r n (true, n') h = (record { fits = h.on refl; distinct = h.apart }, h.balance)
connecting-Leaves r n (false, n') h = (record { fits = h.back refl; distinct = h.apart }, h.balance)

-- A round that closes and opens nothing, on a connection that has no sockets.
bare-Leaves :
    (st : State) (r : Round) (n n' : Net)
    → st ≢ State.connecting
    → n.connection.sockets ≡ []
    → n.connection.socket ≡ none
    → n'.connection.sockets ≡ []
    → n'.connection.socket ≡ none
    → n'.closed ≡ n.closed
    → Leaves st r n n'
bare-Leaves st r n n' h e f e' f' c = (
  record { fits = bare_fits n'.connection.state refl; distinct = λ x. ground arith },
  bare_balance st h,
)
  where
    bare_fits : (t : State) → n'.connection.state ≡ t → Fits t n'.connection
    bare_fits t k = ground arith

    bare_balance : (t : State) → t ≢ State.connecting → Balanced (opened_in t r n n') n n'
    bare_balance State.connecting k x = absurd (k refl)
    bare_balance State.resolving k x = ground arith
    bare_balance State.backing_off k x = ground arith
    bare_balance State.socket_error k x = ground arith
    bare_balance State.authenticating k x = ground arith
    bare_balance State.connected k x = ground arith
    bare_balance State.stopped k x = ground arith

-- What `resolve` leaves alone.
resolve_kept :
    (lookup : Lookup) (b : Bool) (n : Net)
    → ((or_back_off (resolve lookup b n)).connection.sockets ≡ n.connection.sockets)
      × ((or_back_off (resolve lookup b n)).connection.socket ≡ none)
      × ((or_back_off (resolve lookup b n)).closed ≡ n.closed)
unfolding resolve
resolve_kept (Lookup.lookup_failed text) false n = (refl, refl, refl)
resolve_kept (Lookup.lookup_failed text) true n = (refl, refl, refl)
resolve_kept (Lookup.found list) b n = found_kept b (order_addresses list) refl
  where
    found_kept :
        (b : Bool) (l : List Address)
        → order_addresses list ≡ l
        → ((or_back_off (resolve (Lookup.found list) b n)).connection.sockets
            ≡ n.connection.sockets)
          × ((or_back_off (resolve (Lookup.found list) b n)).connection.socket ≡ none)
          × ((or_back_off (resolve (Lookup.found list) b n)).closed ≡ n.closed)
    found_kept false [] e = rw e (refl, refl, refl)
    found_kept true [] e = rw e (refl, refl, refl)
    found_kept false (x ∷ xs) e = rw e (refl, refl, refl)
    found_kept true (x ∷ xs) e = rw e (refl, refl, refl)

-- A round that opens nothing: the connection keeps its sockets or closes the connected one.
module _ (n : Net) (f : n.connection.sockets ≡ []) where
  closed_balance : Balanced [] n (socket_error n)
  unfolding socket_error
  closed_balance x =
      rw f (ground (arith, count-append x n.closed (some_socket n.connection.socket)))

  received_balance :
      (b c : Bool)
      → is_stopped n.connection.state ≡ false
      → Balanced [] n (after_receive b (stop_if c n))
  received_balance true false k x = omega arith
  received_balance true true k x = omega arith
  received_balance false true k x = omega arith
  received_balance false false k x = rw k (closed_balance x)

  received-IsSettled :
      (b c : Bool)
      → is_stopped n.connection.state ≡ false
      → IsSettled n
      → IsSettled (after_receive b (stop_if c n))
  unfolding socket_error
  received-IsSettled true false k v = v
  received-IsSettled true true k v = record { fits = tt; distinct = v.distinct }
  received-IsSettled false true k v = record { fits = tt; distinct = v.distinct }
  received-IsSettled false false k v = rw k (record { fits = (f, refl); distinct = v.distinct })

-- A round of `runRead` on a connection whose sockets are settled leaves them settled.
run_read-IsSettled :
    (s : Impl) (r : Round) (n n' : Net)
    → IsSettled n
    → IsFresh r.answer.opening n
    → run_read s r n ≡ some n'
    → IsSettled n' × Balanced (opened r n n') n n'
unfolding run_read
run_read-IsSettled s r n n' v fresh h = at n.connection.state refl v.fits h
  where
    at :
        (st : State)
        → n.connection.state ≡ st
        → Fits st n.connection
        → read_round st s r n ≡ some n'
        → Leaves st r n n'
    at State.resolving e (f, g) h =
        let k = resolve_kept r.lookup r.stop n in
        let same = some-injective _ _ h in
        rw (← same) (
          bare-Leaves State.resolving r n (or_back_off (resolve r.lookup r.stop n)) (λ z. cc) f g
            (k.0 ∙ f) k.1 k.2)
    at State.connecting e f h = rw (← some-injective _ _ h) (
        connecting-Leaves r n (connect_to_any s r.answer n)
          (connect_to_any-Handled s r.answer n v e fresh))
    at State.backing_off e (f, g) h = rw (← some-injective _ _ h) (
        bare-Leaves State.backing_off r n (after_sleep s (stop_if r.stop n)) (λ z. cc) f g
          (ground arith) (ground arith) (ground arith))
    at State.authenticating e f h = rw (← some-injective _ _ h) (
      received-IsSettled n f r.received r.stop (ap is_stopped e) v,
      received_balance n f r.received r.stop (ap is_stopped e),
    )
    at State.connected e f h = rw (← some-injective _ _ h) (
      received-IsSettled n f r.received r.stop (ap is_stopped e) v,
      received_balance n f r.received r.stop (ap is_stopped e),
    )
    at State.socket_error e (f, g) h =
        rw (← some-injective _ _ h) (bare-Leaves State.socket_error r n _ (λ z. cc) f g f g refl)
    at State.stopped e f h = absurd (ground arith)

-- The rounds that `runRead` makes, with the sockets that they have opened.
pub data Run (s : Impl) (n : Net) : List ℕ → Net → Type 0 where
  begun : Run s n [] n
  further :
      {ops : List ℕ} {n' n'' : Net} (r : Round)
      → Run s n ops n'
      → IsFresh r.answer.opening n'
      → run_read s r n' ≡ some n''
      → Run s n (ops ++ opened r n' n'') n''

Run-Balanced :
    {s : Impl} {n n' : Net} {ops : List ℕ}
    → Run s n ops n'
    → IsSettled n
    → IsSettled n' × Balanced ops n n'
Run-Balanced begun v = (v, λ x. omega arith)
Run-Balanced {s} {n} (further {ops} {n'} {n''} r run fresh h) v =
    let (v', b') = Run-Balanced run v in
    let (v'', b'') = run_read-IsSettled s r n' n'' v' fresh h in
    (v'', λ x. omega (arith, b' x, b'' x, count-append x ops (opened r n' n'')))

-- On a connection whose sockets are settled they are settled after any number of rounds of `runRead`, in
-- which the system opens no socket that the connection has already. When the loop then ends, a socket
-- is closed or pending as often as it was held, closed or opened: each one that is opened, also one
-- whose connection fails at once, is closed once, but for those that are pending then.
pub stop_read-Run :
    (s : Impl) (n n' : Net) (ops : List ℕ)
    → IsSettled n
    → Run s n ops n'
    → IsSettled n'
      × ((x : ℕ)
          → count x (stop_read n').connection.sockets + count x (stop_read n').closed
            ≡ count x (held n) + count x n.closed + count x ops)
unfolding stop_read
stop_read-Run s n n' ops v run =
    let (v', b) = Run-Balanced run v in
    (
      v',
      λ x. omega (
        arith,
        b x,
        count-append x n'.connection.sockets (some_socket n'.connection.socket),
        count-append x n'.closed (some_socket n'.connection.socket),
      ),
    )
