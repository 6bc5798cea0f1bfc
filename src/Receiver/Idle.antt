-- ===== src/Receiver/Idle.antt =====
-- The keep-alive of `recv` in src/Packet.cpp, on a connection on which nothing comes.
use true_mqtt_cpp.Base.{
  ℕ, suc, ◌+◌, ◌*◌, ◌/◌, ◌≤◌, ◌<◌, ◌≡◌, refl, false, Option, none, some, List, [], ◌∷◌, ◌++◌, arith,
  length, ltb, if◌then◌else◌, zero, Bool-cases, inl, inr, All, ap, ◌∙◌,
}
use true_mqtt_cpp.Packet.{Packet, PacketType, new_packet}
use true_mqtt_cpp.Frame.{frame}
use true_mqtt_cpp.Connection.{Connection}
use true_mqtt_cpp.Client.{Impl}
use true_mqtt_cpp.Sender.{send_ping_request}
use true_mqtt_cpp.Receiver.{Poll, Outcome, done, is_stopping, keep_alive, recv_loop_over, recv}
use true_mqtt_cpp.Receiver.Socket.{world}

-- A PINGREQ as it stands in the send queue, and m of them.
abbrev pub ping : Packet
ping = frame (new_packet PacketType.pingreq 0)

unfoldable pub pings : ℕ → List Packet
pings zero = []
pings (suc m) = ping ∷ pings m

-- A round in which nothing can be read, no stop is requested, and the broker was heard of in time. The
-- clock does not run backwards.
pub record IsIdle (last_received keep_alive_interval : ℕ) (p : Poll) : Type 0 where
  pub goes_on : is_stopping p.seen ≡ false
  pub heard_lately : p.now ≤ last_received + keep_alive_interval * 15 / 10
  pub is_silent : p.ready ≡ false
  pub forward : p.now ≤ p.later

-- A connection that has queued m pings in front of its packets, and the client that it is of.
abbrev pub pinged : ℕ → ℕ → Connection → Connection
pinged m t c = record c { last_sent_packet = t; send_queue = pings m ++ c.send_queue }

-- The times of the pings: of every round that begins more than an interval after the last packet.
unfoldable pub ping_times : ℕ → ℕ → List Poll → List ℕ
ping_times interval last [] = []
ping_times interval last (p ∷ ps) =
    let due = p.later ∷ ping_times interval p.later ps in
    let soon = ping_times interval last ps in if ltb (last + interval) p.now then due else soon

-- The last of them, or the time of the last packet before.
abbrev pub latest : ℕ → List ℕ → ℕ
latest last [] = last
latest last (t ∷ ts) = latest t ts

abbrev pub with_link : Connection → Impl → Impl
with_link c s = record s { connection = some c }

pings-ping : (m : ℕ) (queue : List Packet) → pings m ++ (pings 1 ++ queue) ≡ pings (suc m) ++ queue
unfolding pings
pings-ping zero queue = refl
pings-ping (suc m) queue = ap (λ (rest : List Packet). ping ∷ rest) (pings-ping m queue)

one_more :
    (last k m later t now : ℕ)
    → last + k < now
    → now ≤ later
    → later + m * (k + 1) ≤ t
    → last + suc m * (k + 1) ≤ t
one_more last k m later t now h f l = ground arith

module _ (s : Impl) (n : ℕ) (bs : List ℕ) where
  -- What the read thread goes on with, on a connection.
  abbrev going_on : Connection → List Poll → Outcome (Option (List ℕ))
  going_on c ps = recv n (world (with_link c s) bs ps)

  idle_round :
      (c : Connection) (p : Poll) (ps : List Poll)
      → IsIdle c.last_received_packet s.keep_alive_interval p
      → going_on c (p ∷ ps) ≡ (
          if ltb (c.last_sent_packet + s.keep_alive_interval) p.now
          then going_on (pinged 1 p.later c) ps
          else going_on c ps)
  unfolding recv recv_loop_over keep_alive send_ping_request pings
  idle_round c p ps h = ground arith

  none_yet : (c : Connection) → c ≡ pinged 0 c.last_sent_packet c
  unfolding pings
  none_yet c = refl

  pinged_again :
      (m t later : ℕ) (c : Connection) → pinged m t (pinged 1 later c) ≡ pinged (suc m) t c
  pinged_again m t later c =
      ap (λ (queue : List Packet). record c { last_sent_packet = t; send_queue = queue })
        (pings-ping m c.send_queue)

  recv_idle :
      (ps qs : List Poll) (c : Connection)
      → All (IsIdle c.last_received_packet s.keep_alive_interval) ps
      → (m : ℕ) × (t : ℕ) × (going_on c (ps ++ qs) ≡ going_on (pinged m t c) qs)
        × ((more : List Poll)
            → (length (ping_times s.keep_alive_interval c.last_sent_packet (ps ++ more))
                ≡ m + length (ping_times s.keep_alive_interval t more))
              × (latest c.last_sent_packet
                    (ping_times s.keep_alive_interval c.last_sent_packet (ps ++ more))
                  ≡ latest t (ping_times s.keep_alive_interval t more)))
        × (c.last_sent_packet + m * (s.keep_alive_interval + 1) ≤ t)
        × All (λ p. p.now ≤ t + s.keep_alive_interval) ps
  unfolding ping_times
  recv_idle [] qs c h = (
    0,
    c.last_sent_packet,
    ap (λ (d : Connection). going_on d qs) (none_yet c),
    (λ more. (omega arith, refl)),
    omega arith,
    tt,
  )
  recv_idle (p ∷ ps) qs c (h, hs) =
      elim (Bool-cases (ltb (c.last_sent_packet + s.keep_alive_interval) p.now)) [
        | inl due ↦
            let (m, t, e, k, l, a) = recv_idle ps qs (pinged 1 p.later c) hs in
            (
              suc m,
              t,
              rw (idle_round c p (ps ++ qs) h, due)
                  (e ∙ ap (λ (d : Connection). going_on d qs) (pinged_again m t p.later c)),
              (λ more. rw due (omega (arith, (k more).0), (k more).1)),
              one_more c.last_sent_packet s.keep_alive_interval m p.later t p.now (ground arith)
                  h.forward l,
              (ground (arith, l), a),
            )
        | inr soon ↦
            let (m, t, e, k, l, a) = recv_idle ps qs c hs in
            (
              m,
              t,
              rw (idle_round c p (ps ++ qs) h, soon) e,
              (λ more. rw soon (k more)),
              l,
              (ground (arith, l), a),
            )
      ]

  dead_round :
      (c : Connection) (p : Poll) (ps : List Poll)
      → is_stopping p.seen ≡ false
      → c.last_received_packet + s.keep_alive_interval * 15 / 10 < p.now
      → going_on c (p ∷ ps) ≡ (
          if ltb (c.last_sent_packet + s.keep_alive_interval) p.now
          then done none (world (with_link (pinged 1 p.later c) s) bs ps)
          else done none (world (with_link c s) bs ps))
  unfolding recv recv_loop_over keep_alive send_ping_request pings
  dead_round c p ps g h = ground arith

  -- The last round, behind the idle ones.
  last_round :
      (k u : ℕ) (p : Poll) (qs : List Poll) (c : Connection)
      → is_stopping p.seen ≡ false
      → c.last_received_packet + s.keep_alive_interval * 15 / 10 < p.now
      → p.now ≤ p.later
      → c.last_sent_packet + k * (s.keep_alive_interval + 1) ≤ u
      → (m : ℕ) × (t : ℕ) × (going_on (pinged k u c) (p ∷ qs)
          ≡ done none (world (with_link (pinged m t c) s) bs qs))
        × (k + length (ping_times s.keep_alive_interval u (p ∷ [])) ≡ m)
        × (latest u (ping_times s.keep_alive_interval u (p ∷ [])) ≡ t)
        × (c.last_sent_packet + m * (s.keep_alive_interval + 1) ≤ t)
        × (u ≤ t)
  unfolding pings ping_times
  last_round k u p qs c g h f l = elim (Bool-cases (ltb (u + s.keep_alive_interval) p.now)) [
    | inl due ↦ (
      suc k,
      p.later,
      rw (dead_round (pinged k u c) p qs g h, due) refl,
      rw due (omega arith),
      rw due refl,
      ground (arith, l),
      ground arith,
    )
    | inr soon ↦ (
      k,
      u,
      rw (dead_round (pinged k u c) p qs g h, soon) refl,
      rw soon (omega arith),
      rw soon refl,
      l,
      omega arith,
    )
  ]

All-later :
    (i u t : ℕ) (ps : List Poll) → u ≤ t → All (λ q. q.now ≤ u + i) ps → All (λ q. q.now ≤ t + i) ps
All-later i u t [] h a = tt
All-later i u t (p ∷ ps) h (b, a) = (omega (arith, h, b), All-later i u t ps h a)

-- A connection on which nothing comes. Through any number of rounds in which the broker was heard of in
-- time, and then one in which it was not heard of for one and a half intervals of the keep-alive, no stop
-- being requested and the clock running forwards: `recv` returns -1 in that round, with the rounds behind
-- it left and no byte read. It has put a PINGREQ in front of the send queue in exactly the rounds that
-- begin more than an interval of the keep-alive after the last packet was sent, m in all, each of which
-- makes its later clock reading t the time of the last packet. So m intervals, each longer than that of
-- the keep-alive, lie between the last packet before and t.
pub recv-times_out :
    (c : Connection) (s : Impl) (n : ℕ) (bs : List ℕ) (ps : List Poll) (p : Poll) (qs : List Poll)
    → s.connection ≡ some c
    → All (IsIdle c.last_received_packet s.keep_alive_interval) ps
    → is_stopping p.seen ≡ false
    → c.last_received_packet + s.keep_alive_interval * 15 / 10 < p.now
    → p.now ≤ p.later
    → (m : ℕ) × (t : ℕ) × (recv n (world s bs (ps ++ (p ∷ qs)))
        ≡ done none (world (with_link (pinged m t c) s) bs qs))
      × (length (ping_times s.keep_alive_interval c.last_sent_packet (ps ++ (p ∷ []))) ≡ m)
      × (latest c.last_sent_packet
            (ping_times s.keep_alive_interval c.last_sent_packet (ps ++ (p ∷ [])))
          ≡ t)
      × (c.last_sent_packet + m * (s.keep_alive_interval + 1) ≤ t)
      × All (λ q. q.now ≤ t + s.keep_alive_interval) ps
recv-times_out c s n bs ps p qs linked idle g h f =
    let (k, u, e, count, l, a) = recv_idle s n bs ps (p ∷ qs) c idle in
    let (m, t, e', number, time, l', o) = last_round s n bs k u p qs c g h f l in
    let same : s ≡ with_link c s = ground arith in
    (
      m,
      t,
      ap (λ (r : Impl). recv n (world r bs (ps ++ (p ∷ qs)))) same ∙ e ∙ e',
      (count (p ∷ [])).0 ∙ number,
      (count (p ∷ [])).1 ∙ time,
      l',
      All-later s.keep_alive_interval u t ps o a,
    )
