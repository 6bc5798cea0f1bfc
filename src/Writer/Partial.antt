-- ===== src/Writer/Partial.antt =====
-- `sendPacket` of src/Packet.cpp, on a socket that takes any number of bytes at a time.
use true_mqtt_cpp.Base.{
  ℕ, zero, suc, ◌+◌, ◌≤◌, ◌<◌, ◌≡◌, refl, true, false, List, [], ◌∷◌, ◌++◌, ltb, length, take, drop,
  arith, ap, ◌∙◌, Bool-cases, inl, inr, All, drop-drop, take-append-drop,
}
use mathlib.Core.List.{append_assoc, append-nil}
use true_mqtt_cpp.Packet.{Packet}
use true_mqtt_cpp.Writer.{
  SendAnswer, accepted, refused, Output, Progress, completed, given_up, waiting, note_sent,
  hand_over, accepted_of, send_loop, is_open, send_packet,
}

-- The bytes of a packet that are still to be sent.
abbrev pub unsent : Packet → List ℕ
unsent p = drop p.write_offset p.buffer

abbrev pub packet_of : Progress → Packet
packet_of (completed p o) = p
packet_of (given_up p o) = p
packet_of (waiting p o) = p

abbrev pub output_of : Progress → Output
output_of (completed p o) = o
output_of (given_up p o) = o
output_of (waiting p o) = o

-- What was sent and what is left make up what there was, and nothing is left of a packet that counts
-- as sent.
abbrev pub Conserves : Packet → Output → Progress → Type 0
Conserves p o (completed q r) = (r.sent ≡ o.sent ++ unsent p) × (unsent q ≡ [])
Conserves p o (given_up q r) = r.sent ++ unsent q ≡ o.sent ++ unsent p
Conserves p o (waiting q r) = r.sent ++ unsent q ≡ o.sent ++ unsent p

drop_past : (n : ℕ) (xs : List ℕ) → length xs ≤ n → drop n xs ≡ []
drop_past zero [] h = refl
drop_past (suc n) [] h = refl
drop_past zero (x ∷ xs) h = absurd (omega arith)
drop_past (suc n) (x ∷ xs) h = drop_past n xs (omega arith)

-- A packet that has no bytes left.
at_end :
    (now : ℕ) (p : Packet) (o : Output)
    → ltb p.write_offset (length p.buffer) ≡ false
    → Conserves p o (completed p (note_sent now o))
at_end now p o h =
    let e : unsent p ≡ [] = drop_past p.write_offset p.buffer (ground arith) in
    (rw (e, append-nil) refl, e)

-- The bytes that one call of `::send` takes.
taken :
    (n : ℕ) (p : Packet) (o : Output)
    → (hand_over n p o).sent ++ unsent (record p { write_offset = p.write_offset + n })
      ≡ o.sent ++ unsent p
taken n p o =
    append_assoc o.sent (take n (unsent p)) _
    ∙ ap (λ (xs : List ℕ). o.sent ++ xs)
        (rw (← drop-drop p.write_offset n p.buffer) (take-append-drop n (unsent p)))

Conserves-trans :
    (p q : Packet) (o r : Output) (g : Progress)
    → r.sent ++ unsent q ≡ o.sent ++ unsent p
    → Conserves q r g
    → Conserves p o g
Conserves-trans p q o r (completed s t) e (h, k) = (h ∙ e, k)
Conserves-trans p q o r (given_up s t) e h = h ∙ e
Conserves-trans p q o r (waiting s t) e h = h ∙ e

send_loop-Conserves :
    (now : ℕ) (answers : List SendAnswer) (p : Packet) (o : Output)
    → Conserves p o (send_loop now answers p o)
unfolding send_loop
send_loop-Conserves now [] p o = elim (Bool-cases (ltb p.write_offset (length p.buffer))) [
  | inl e ↦ rw e refl
  | inr e ↦ rw e (at_end now p o e)
]
send_loop-Conserves now (refused ∷ answers) p o =
    elim (Bool-cases (ltb p.write_offset (length p.buffer))) [
      | inl e ↦ rw e refl
      | inr e ↦ rw e (at_end now p o e)
    ]
send_loop-Conserves now (accepted n ∷ answers) p o =
    elim (Bool-cases (ltb p.write_offset (length p.buffer))) [
      | inl e ↦
          let k = accepted_of n p in
          let q : Packet = record p { write_offset = p.write_offset + k } in
          let r = hand_over k p o in
          rw e (
            Conserves-trans p q o r (send_loop now answers q r) (taken k p o)
              (send_loop-Conserves now answers q r))
      | inr e ↦ rw e (at_end now p o e)
    ]

-- However `sendPacket` ends or waits, and whatever `::send` has accepted at a time, the bytes of the
-- packet went out in order with none twice: those that were sent and those that are left make up those
-- that there were, and when it counts the packet as sent, none is left.
pub send_packet-Conserves :
    (now : ℕ) (answers : List SendAnswer) (p : Packet) (o : Output)
    → Conserves p o (send_packet now answers p o)
unfolding send_packet
send_packet-Conserves now answers p o = elim (Bool-cases (is_open o.net.connection.state)) [
  | inl e ↦ rw e (send_loop-Conserves now answers p o)
  | inr e ↦ rw e refl
]

-- An answer that takes a byte at least.
abbrev pub Accepts : SendAnswer → Type 0
Accepts (accepted n) = 0 < n
Accepts refused = ⊥

abbrev pub IsCompleted : Progress → Type 0
IsCompleted (completed p o) = Unit {0}
IsCompleted (given_up p o) = ⊥
IsCompleted (waiting p o) = ⊥

send_loop-IsCompleted :
    (now : ℕ) (answers : List SendAnswer) (p : Packet) (o : Output)
    → All Accepts answers
    → length p.buffer ≤ p.write_offset + length answers
    → IsCompleted (send_loop now answers p o)
unfolding send_loop
send_loop-IsCompleted now [] p o a h =
    let e : ltb p.write_offset (length p.buffer) ≡ false = ground arith in rw e tt
send_loop-IsCompleted now (refused ∷ answers) p o a h = absurd (a.0)
send_loop-IsCompleted now (accepted n ∷ answers) p o a h =
    elim (Bool-cases (ltb p.write_offset (length p.buffer))) [
      | inl e ↦
          let less : p.write_offset < length p.buffer = ground arith in
          let pos : 0 < n = a.0 in
          rw e (
            send_loop-IsCompleted now answers
              (record p { write_offset = p.write_offset + accepted_of n p })
              (hand_over (accepted_of n p) p o) a.1 (omega arith))
      | inr e ↦ rw e tt
    ]

-- On an open connection whose socket takes a byte at least each time it is asked, and is asked as often
-- as the packet has bytes left, `sendPacket` comes to an end and the whole packet was sent.
pub send_packet-IsCompleted :
    (now : ℕ) (answers : List SendAnswer) (p : Packet) (o : Output)
    → is_open o.net.connection.state ≡ true
    → All Accepts answers
    → length p.buffer ≤ p.write_offset + length answers
    → IsCompleted (send_packet now answers p o)
      × ((output_of (send_packet now answers p o)).sent ≡ o.sent ++ unsent p)
unfolding send_packet
send_packet-IsCompleted now answers p o ready a h = rw ready (
    whole (send_loop now answers p o) (send_loop-IsCompleted now answers p o a h)
      (send_loop-Conserves now answers p o))
  where
    whole :
        (g : Progress)
        → IsCompleted g
        → Conserves p o g
        → IsCompleted g × ((output_of g).sent ≡ o.sent ++ unsent p)
    whole (completed q r) c k = (tt, k.0)
    whole (given_up q r) c k = absurd c
    whole (waiting q r) c k = absurd c
