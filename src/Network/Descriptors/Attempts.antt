-- ===== src/Network/Descriptors/Attempts.antt =====
-- The sockets of the rounds that `connectToAny` of src/Connection.cpp makes.
use true_mqtt_cpp.Base.{
  count, count-append, ℕ, ◌+◌, ◌≤◌, ◌≡◌, refl, Bool, true, false, not, none, some, List, [], ◌∷◌,
  ◌++◌, ◌==◌, ltb, arith, if◌then◌else◌, ap, sym, Bool-cases, Option-cases, inl, inr,
}
use mathlib.Core.Path.{subst}
use true_mqtt_cpp.Connection.{State}
use true_mqtt_cpp.Client.{Impl}
use true_mqtt_cpp.Sender.{connection_send}
use true_mqtt_cpp.Network.{
  Opening, no_socket, refused, under_way, Net, Answer, Selection, some_socket, keep, first_of_test,
  try_next_address, wait_for_any, authenticate, pick_socket, select_round, connect_round,
  connect_to_any, is_stopped, stop_if, close, with_connection,
}
use true_mqtt_cpp.Network.Descriptors.{
  count-keep, count-keep-le, count_others, count-first_of_test, Fits, IsSettled, opened_by,
  Balanced, IsFresh,
}

-- What a round in state CONNECTING leaves, with the socket `p` that it may have opened.
pub record Handled (p : Opening) (n : Net) (m : Bool × Net) : Type 0 where
  pub balance :
      Balanced
        (if m.1.connection.address_current == n.connection.address_current then [] else opened_by p)
        n
        m.1
  pub back : m.0 ≡ false → (m.1.connection.sockets ≡ []) × (m.1.connection.socket ≡ none)
  pub on : m.0 ≡ true → Fits m.1.connection.state m.1.connection
  pub apart : (x : ℕ) → count x m.1.connection.sockets ≤ 1

-- An attempt on a connection that is CONNECTING.
module _ (n : Net) (v : IsSettled n) (st : n.connection.state ≡ State.connecting) where
  alone : n.connection.socket ≡ none
  alone = let f = v.fits in ground arith

  unchanged-Handled : (p : Opening) → Handled p n (true, n)
  unchanged-Handled p = record {
    balance = λ x. ground arith;
    back = λ h. cc;
    on = λ h. v.fits;
    apart = v.distinct;
  }

  attempted : ℕ → Opening → Net
  attempted now p = (try_next_address now p n).1

  tried-Handled :
      (now : ℕ) (p : Opening)
      → IsFresh p n
      → (try_next_address now p n).0 ≡ true
      → Handled p n (true, attempted now p)
  unfolding try_next_address attempted
  tried-Handled now no_socket fresh t = record {
    balance = λ x. ground (arith, alone);
    back = λ h. cc;
    on = λ h. ground (arith, alone);
    apart = λ x. ground (arith, v.distinct x);
  }
  tried-Handled now (refused y) fresh t = record {
    balance = λ x. ground (arith, alone, count-append x n.closed (y ∷ []));
    back = λ h. cc;
    on = λ h. ground (arith, alone);
    apart = λ x. ground (arith, v.distinct x);
  }
  tried-Handled now (under_way y) fresh t = record {
    balance = λ x. ground (
      arith,
      alone,
      count-append x n.connection.sockets (y ∷ []),
      count-append x (n.connection.sockets ++ (y ∷ [])) (some_socket n.connection.socket),
      count-append x n.connection.sockets (some_socket n.connection.socket),
    );
    back = λ h. cc;
    on = λ h. ground (arith, alone);
    apart = λ x. ground (
      arith,
      v.distinct x,
      count-append x n.connection.sockets (y ∷ []),
      count-append y n.connection.sockets (some_socket n.connection.socket),
    );
  }

  given_up-Handled :
      (now : ℕ) (p : Opening)
      → n.connection.sockets ≡ []
      → (try_next_address now p n).0 ≡ false
      → Handled p n (false, attempted now p)
  unfolding try_next_address attempted
  given_up-Handled now p e t = record {
    balance = λ x. ground (arith, alone);
    back = λ h. ground (arith, alone);
    on = λ h. cc;
    apart = λ x. ground (arith, v.distinct x);
  }

  closed-Handled :
      (p : Opening)
      → Handled p n
          (false, close n.connection.sockets (with_connection (λ d. record d { sockets = [] }) n))
  closed-Handled p = record {
    balance = λ x. ground (
      arith,
      alone,
      count-append x n.connection.sockets (some_socket n.connection.socket),
      count-append x n.closed n.connection.sockets,
    );
    back = λ h. ground (arith, alone);
    on = λ h. cc;
    apart = λ x. omega arith;
  }

  wait_for_any-Handled :
      (t : ℕ) (a : Answer) → IsFresh a.opening n → Handled a.opening n (wait_for_any t a n)
  unfolding wait_for_any attempted
  wait_for_any-Handled t a fresh = elim (Bool-cases (ltb a.now (n.connection.last_attempt + 250))) [
    | inl early ↦ rw early (unchanged-Handled a.opening)
    | inr late ↦ elim (Bool-cases (try_next_address a.tried_at a.opening n).0) [
      | inl tried ↦ rw (late, tried) (tried-Handled a.tried_at a.opening fresh tried)
      | inr done ↦ elim (Bool-cases (ltb a.later (n.connection.last_attempt + t))) [
        | inl soon ↦ rw (late, done, soon) (unchanged-Handled a.opening)
        | inr over ↦ rw (late, done, over) (closed-Handled a.opening)
      ]
    ]
  ]

-- What the last part of `connectToAny` leaves alone, and the state that it sets.
authenticate_lem :
    (s : Impl) (n : Net)
    → ((authenticate s State.connecting n).0 ≡ true)
      × ((authenticate s State.connecting n).1.connection.sockets ≡ n.connection.sockets)
      × ((authenticate s State.connecting n).1.connection.socket ≡ n.connection.socket)
      × ((authenticate s State.connecting n).1.connection.address_current
          ≡ n.connection.address_current)
      × ((authenticate s State.connecting n).1.connection.state ≡ State.authenticating)
      × ((authenticate s State.connecting n).1.closed ≡ n.closed)
unfolding authenticate connection_send
authenticate_lem s n = (refl, refl, refl, refl, refl, refl)

module _ (s : Impl) (a : Answer) (n : Net) (v : IsSettled n)
    (st : n.connection.state ≡ State.connecting) where
  survivors : List ℕ
  survivors = keep (λ x. not (a.has_error x)) n.connection.sockets

  survivors_apart : (x : ℕ) → count x survivors ≤ 1
  unfolding survivors
  survivors_apart x =
      omega (arith, v.distinct x, count-keep-le x (λ y. not (a.has_error y)) n.connection.sockets)

  -- The connection whose erroneous sockets are closed, and which has chosen one.
  chosen : ℕ → Net
  chosen z = close (keep (λ x. not (x == z)) survivors) (
      with_connection
        (λ c. record c {
          sockets = [];
          socket = some z;
          last_sent_packet = a.now;
          last_received_packet = a.now;
        })
        (close (keep a.has_error n.connection.sockets) n))

  chosen-Handled :
      (z : ℕ)
      → first_of_test a.is_writable survivors ≡ some z
      → Handled a.opening n (authenticate s State.connecting (chosen z))
  unfolding chosen survivors
  chosen-Handled z found =
      let l = authenticate_lem s (chosen z) in
      record {
        balance = λ x. ground (
          arith,
          l,
          alone n v st,
          count-first_of_test a.is_writable z survivors found,
          survivors_apart z,
          count_others x z survivors,
          count-keep x a.has_error n.connection.sockets,
          count-append x n.connection.sockets (some_socket n.connection.socket),
          count-append x (n.closed ++ keep a.has_error n.connection.sockets)
              (keep (λ y. not (y == z)) survivors),
          count-append x n.closed (keep a.has_error n.connection.sockets),
        );
        back = λ h. absurd (ground (arith, l));
        on = λ h. ground (arith, l);
        apart = λ x. ground (arith, l);
      }

  none-Handled : Handled a.opening n (
    true,
    with_connection
        (λ c. record c { sockets = survivors })
        (close (keep a.has_error n.connection.sockets) n),
  )
  unfolding survivors
  none-Handled = record {
    balance = λ x. ground (
      arith,
      alone n v st,
      count-keep x a.has_error n.connection.sockets,
      count-append x n.connection.sockets (some_socket n.connection.socket),
      count-append x survivors (some_socket n.connection.socket),
      count-append x n.closed (keep a.has_error n.connection.sockets),
    );
    back = λ h. cc;
    on = λ h. ground (arith, alone n v st);
    apart = survivors_apart;
  }

  pick_socket-Handled : Handled a.opening n (pick_socket s a n)
  unfolding pick_socket survivors chosen
  pick_socket-Handled = elim (Option-cases (first_of_test a.is_writable survivors)) [
    | inl e ↦ rw e none-Handled
    | inr (z, e) ↦
        let onto = ap (λ (w : State). authenticate s w (chosen z)) (sym st) in
        rw e (subst (Handled a.opening n) onto (chosen-Handled z e))
  ]

module _ (s : Impl) (a : Answer) (n : Net) (v : IsSettled n)
    (st : n.connection.state ≡ State.connecting) where
  stopped : Net
  stopped = stop_if true n

  stopped-Handled : Handled a.opening n (true, stopped)
  unfolding stopped
  stopped-Handled = record {
    balance = λ x. ground arith;
    back = λ h. cc;
    on = λ h. tt;
    apart = v.distinct;
  }

  by_selection : (x : Selection) → IsFresh a.opening n → Handled a.opening n (select_round x s a n)
  by_selection Selection.select_failed fresh = unchanged-Handled n v st a.opening
  by_selection Selection.idle fresh = wait_for_any-Handled n v st s.connection_timeout a fresh
  by_selection Selection.active fresh = pick_socket-Handled s a n v st

  by_answer :
      (b : Bool)
      → a.stop ≡ b
      → IsFresh a.opening n
      → (y : ℕ) (ys : List ℕ) → Handled a.opening n (connect_round (y ∷ ys) s a n)
  unfolding stopped
  by_answer true e fresh y ys = rw e stopped-Handled
  by_answer false e fresh y ys =
      let runs : stop_if a.stop n ≡ n = ap (λ (b : Bool). stop_if b n) e in
      let goes_on : is_stopped n.connection.state ≡ false = ap is_stopped st in
      rw (runs, goes_on) (by_selection a.selection fresh)

  by_sockets :
      (xs : List ℕ)
      → n.connection.sockets ≡ xs
      → IsFresh a.opening n
      → Handled a.opening n (connect_round xs s a n)
  unfolding attempted
  by_sockets [] e fresh = elim (Bool-cases (try_next_address a.tried_at a.opening n).0) [
    | inl tried ↦ rw tried (tried-Handled n v st a.tried_at a.opening fresh tried)
    | inr done ↦ rw done (given_up-Handled n v st a.tried_at a.opening e done)
  ]
  by_sockets (y ∷ ys) e fresh = by_answer a.stop refl fresh y ys

  pub connect_to_any-Handled : IsFresh a.opening n → Handled a.opening n (connect_to_any s a n)
  unfolding connect_to_any
  connect_to_any-Handled fresh = by_sockets n.connection.sockets refl fresh
