-- ===== src/Writer/Drain.antt =====
-- `runWrite` of src/Connection.cpp, round after round, on a queue of packets.
use true_mqtt_cpp.Base.{
  ℕ, ◌+◌, ◌≤◌, ◌≡◌, refl, true, false, List, [], ◌∷◌, ◌++◌, ltb, length, arith, ap, sym, ◌∙◌,
  Bool-cases, inl, inr, All,
}
use mathlib.Core.List.{append_assoc, append-nil}
use true_mqtt_cpp.Packet.{Packet}
use true_mqtt_cpp.Connection.{State, Connection}
use true_mqtt_cpp.Network.{Net, is_stopped, with_connection}
use true_mqtt_cpp.Writer.{
  SendAnswer, accepted, refused, Output, Progress, completed, given_up, waiting, note_sent,
  hand_over, accepted_of, send_loop, is_open, send_packet, pop_send_queue, Written, goes_on, waits,
  returns, go_on, run_write,
}
use true_mqtt_cpp.Writer.Partial.{unsent, Accepts, IsCompleted, output_of, send_packet-IsCompleted}

-- A packet that was sent leaves the connection as it was but for the time.
abbrev pub KeepsNet : ℕ → Output → Progress → Type 0
KeepsNet now o (completed q r) = r.net ≡ (note_sent now o).net
KeepsNet now o (given_up q r) = Unit {0}
KeepsNet now o (waiting q r) = Unit {0}

send_loop-KeepsNet :
    (now : ℕ) (answers : List SendAnswer) (p : Packet) (o : Output)
    → KeepsNet now o (send_loop now answers p o)
unfolding send_loop
send_loop-KeepsNet now [] p o = elim (Bool-cases (ltb p.write_offset (length p.buffer))) [
  | inl e ↦ rw e tt
  | inr e ↦ rw e refl
]
send_loop-KeepsNet now (refused ∷ answers) p o =
    elim (Bool-cases (ltb p.write_offset (length p.buffer))) [ inl e ↦ rw e tt | inr e ↦ rw e refl ]
send_loop-KeepsNet now (accepted n ∷ answers) p o =
    elim (Bool-cases (ltb p.write_offset (length p.buffer))) [
      | inl e ↦ rw e (
          send_loop-KeepsNet now answers
            (record p { write_offset = p.write_offset + accepted_of n p })
            (hand_over (accepted_of n p) p o))
      | inr e ↦ rw e refl
    ]

send_packet-KeepsNet :
    (now : ℕ) (answers : List SendAnswer) (p : Packet) (o : Output)
    → KeepsNet now o (send_packet now answers p o)
unfolding send_packet
send_packet-KeepsNet now answers p o = elim (Bool-cases (is_open o.net.connection.state)) [
  | inl e ↦ rw e (send_loop-KeepsNet now answers p o)
  | inr e ↦ rw e tt
]

-- What a round of `runWrite` meets.
pub record WriteRound : Type 0 where
  pub now : ℕ
  pub answers : List SendAnswer
  pub later : Connection

abbrev next_rounds : Written → (Output → Written) → Written
next_rounds (goes_on o) f = f o
next_rounds (waits o) f = waits o
next_rounds returns f = returns

-- The rounds of the loop, one after the other.
unfoldable pub run_writes : List WriteRound → Output → Written
run_writes [] o = goes_on o
run_writes (r ∷ rounds) o = next_rounds (run_write r.now r.answers r.later o) (run_writes rounds)

-- A round for each packet, with a socket that takes a byte at least each time it is asked, and is
-- asked as often as the packet has bytes left.
abbrev pub Serves : List WriteRound → List Packet → Type 0
Serves [] [] = Unit {0}
Serves [] (p ∷ ps) = ⊥
Serves (r ∷ rs) [] = ⊥
Serves (r ∷ rs) (p ∷ ps) =
    All Accepts r.answers × (length p.buffer ≤ p.write_offset + length r.answers) × Serves rs ps

-- The unsent bytes of the packets, one packet after the other.
unfoldable pub all_unsent : List Packet → List ℕ
all_unsent [] = []
all_unsent (p ∷ ps) = unsent p ++ all_unsent ps

abbrev with_send_queue : List Packet → Output → Output
with_send_queue ps o = record o { net = with_connection (λ c. record c { send_queue = ps }) o.net }

-- What a round that sends a whole packet leaves.
abbrev Wrote : List Packet → List ℕ → Output → Written → Type 0
Wrote ps bytes o w =
    (o' : Output) × (w ≡ goes_on o')
    × (o'.sent ≡ o.sent ++ bytes)
    × (o'.net.connection.send_queue ≡ ps)
    × (o'.net.connection.state ≡ o.net.connection.state)

completed-Wrote :
    (now : ℕ) (ps : List Packet) (p : Packet) (o : Output) (g : Progress)
    → IsCompleted g
    → (output_of g).sent ≡ o.sent ++ unsent p
    → KeepsNet now (with_send_queue ps o) g
    → Wrote ps (unsent p) o (go_on g)
completed-Wrote now ps p o (completed q r) c e k = (
  r,
  refl,
  e,
  ap (λ (n : Net). n.connection.send_queue) k,
  ap (λ (n : Net). n.connection.state) k,
)
completed-Wrote now ps p o (given_up q r) c e k = absurd c
completed-Wrote now ps p o (waiting q r) c e k = absurd c

open_not_stopped : (st : State) → is_open st ≡ true → is_stopped st ≡ false
open_not_stopped st h = ground arith

run_write-Wrote :
    (r : WriteRound) (p : Packet) (ps : List Packet) (o : Output)
    → is_open o.net.connection.state ≡ true
    → o.net.connection.send_queue ≡ p ∷ ps
    → All Accepts r.answers
    → length p.buffer ≤ p.write_offset + length r.answers
    → Wrote ps (unsent p) o (run_write r.now r.answers r.later o)
unfolding run_write pop_send_queue
run_write-Wrote r p ps o ready queue a h =
    let o' = with_send_queue ps o in
    let done = send_packet-IsCompleted r.now r.answers p o' ready a h in
    let runs = open_not_stopped o.net.connection.state ready in
    rw (runs, ready, queue)
      (completed-Wrote r.now ps p o (send_packet r.now r.answers p o') done.0 done.1
        (send_packet-KeepsNet r.now r.answers p o'))

-- On an open connection with a round for each packet of the send queue, in which the socket takes a byte
-- at least each time it is asked and is asked as often as the packet has bytes left, `runWrite` sends
-- the bytes of all packets, in the order of the queue and with nothing between them, and the queue is
-- empty afterwards.
pub run_writes-all_unsent :
    (rounds : List WriteRound) (ps : List Packet) (o : Output)
    → is_open o.net.connection.state ≡ true
    → o.net.connection.send_queue ≡ ps
    → Serves rounds ps
    → (o' : Output) × (run_writes rounds o ≡ goes_on o')
      × (o'.sent ≡ o.sent ++ all_unsent ps)
      × (o'.net.connection.send_queue ≡ [])
unfolding run_writes all_unsent
run_writes-all_unsent [] [] o ready queue s = (o, refl, sym (append-nil o.sent), queue)
run_writes-all_unsent [] (p ∷ ps) o ready queue s = absurd s
run_writes-all_unsent (r ∷ rounds) [] o ready queue s = absurd s
run_writes-all_unsent (r ∷ rounds) (p ∷ ps) o ready queue (a, h, s) =
    let (o', e, sent, left, state) = run_write-Wrote r p ps o ready queue a h in
    let (o'', e', sent', left') =
      run_writes-all_unsent rounds ps o' (ap is_open state ∙ ready) left s in
    (
      o'',
      rw e e',
      sent'
          ∙ ap (λ (xs : List ℕ). xs ++ all_unsent ps) sent
          ∙ append_assoc o.sent (unsent p) (all_unsent ps),
      left',
    )
