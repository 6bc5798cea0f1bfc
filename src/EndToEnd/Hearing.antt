-- ===== src/EndToEnd/Hearing.antt =====
-- The client that receives.
use true_mqtt_cpp.Base.{
  ℕ, ◌+◌, ◌^◌, ◌≤◌, ◌<◌, ◌≡◌, refl, Bool, true, false, some, List, [], ◌∷◌, ◌++◌, map, length, All,
  sym, ◌∙◌,
}
use mathlib.Core.List.{append_assoc, append-nil}
use true_mqtt_cpp.Frame.Layout.{wire}
use true_mqtt_cpp.Subscription.{Children, parts, find_match}
use true_mqtt_cpp.Connection.{Connection}
use true_mqtt_cpp.Client.{State, Message, Call, Impl}
use true_mqtt_cpp.Handlers.{arrivals}
use true_mqtt_cpp.Handlers.Resubscribe.{publish_frame}
use true_mqtt_cpp.Receiver.{Poll, done, W, pure, ◌>>=◌, recv_loop}
use true_mqtt_cpp.Receiver.Socket.{AllSteady, world}
use true_mqtt_cpp.Receiver.Deliver.{delivered, recv_loop-publish}
use true_mqtt_cpp.Writer.Drain.{all_unsent}

-- Sizes that MQTT can carry.
abbrev pub IsSmall : Message → Type 0
IsSmall m = (length m.topic < 2 ^ 16) × (length m.topic + length m.message + 2 < 2 ^ 28)

-- A call of `recvLoop`: the clock at its end, and what its calls of `recv` meet.
pub record Hearing : Type 0 where
  pub now : ℕ
  pub polls : List Poll

-- `recvLoop` again and again, as in `runRead` while it returns true.
unfoldable pub recv_all : List Hearing → W Bool
recv_all [] w = done true w
recv_all (h ∷ hs) w =
    (recv_loop h.now >>= λ goes_on. elim goes_on [ true ↦ recv_all hs | false ↦ pure false ])
      (record w { polls = h.polls })

-- A call for each message, on a client whose polls are steady, with one for each byte.
abbrev pub Hears : Connection → Impl → List Hearing → List Message → Type 0
Hears c s [] [] = Unit {0}
Hears c s [] (m ∷ ms) = ⊥
Hears c s (h ∷ hs) [] = ⊥
Hears c s (h ∷ hs) (m ∷ ms) =
    (length (wire (publish_frame m)) ≤ length h.polls)
    × AllSteady c s h.polls
    × Hears (record c { last_received_packet = h.now }) (delivered c s h.now m.topic m.message) hs
        ms

-- The calls of callbacks for a list of messages.
unfoldable pub deliveries : Children → List Message → List Call
deliveries cs [] = []
deliveries cs (m ∷ ms) =
    arrivals (find_match (parts m.topic) cs) m.topic m.message ++ deliveries cs ms

-- A client that hears the messages, one after the other, calls back for each.
pub recv_all-deliveries :
    (ms : List Message) (hs : List Hearing) (c : Connection) (s : Impl) (ps : List Poll)
    → s.state ≡ State.connected
    → s.connection ≡ some c
    → All IsSmall ms
    → Hears c s hs ms
    → (s' : Impl) × (left : List Poll) × (recv_all hs
          (world s (all_unsent (map publish_frame ms)) ps)
        ≡ done true (world s' [] left))
      × (s'.calls ≡ s.calls ++ deliveries s.subscriptions ms)
unfolding recv_all deliveries all_unsent
recv_all-deliveries [] [] c s ps st linked small hears = (s, ps, refl, sym (append-nil s.calls))
recv_all-deliveries [] (h ∷ hs) c s ps st linked small hears = absurd hears
recv_all-deliveries (m ∷ ms) [] c s ps st linked small hears = absurd hears
recv_all-deliveries (m ∷ ms) (h ∷ hs) c s ps st linked (sizes, small) (enough, steady, hears) =
    let rest = all_unsent (map publish_frame ms) in
    let (left, e) =
      recv_loop-publish c s h.now m.topic m.message m.retain rest h.polls linked sizes.0 sizes.1
        enough steady in
    let s1 = delivered c s h.now m.topic m.message in
    let (s2, left2, e2, calls) =
      recv_all-deliveries ms hs (record c { last_received_packet = h.now }) s1 left st refl small
        hears in
    (s2, left2, rw e e2, calls ∙ rw st (append_assoc s.calls _ (deliveries s.subscriptions ms)))
