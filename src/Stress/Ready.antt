-- ===== src/Stress/Ready.antt =====
-- The client of example/stress/main.cpp takes every message that the loop publishes.
use true_mqtt_cpp.Base.{◌≤◌, ◌≡◌, refl, Bool, List, [], ◌∷◌, Text, arith, inl, inr, ◌∙◌}
use true_mqtt_cpp.Client.{PublishQueueType, Message, Call, Impl, ok}
use true_mqtt_cpp.Sender.{send_publish}
use true_mqtt_cpp.Handlers.{publish}
use true_mqtt_cpp.Handlers.Validity.{IsValid, Ensures, Ensures-ok, Result-cases, publish-IsValid}
use true_mqtt_cpp.Handlers.Returning.{publish-Returns}

-- A client that the loop may use.
pub record IsReady (s : Impl) : Type 0 where
  pub valid : IsValid s
  pub queues : s.publish_queue_type ≡ PublishQueueType.fifo
  pub sized : 1 ≤ s.publish_queue_size

abbrev IsAlike : Impl → Impl → Type 0
IsAlike s t =
    (t.publish_queue_type ≡ s.publish_queue_type)
    × (t.publish_queue_size ≡ s.publish_queue_size)
    × (t.calls ≡ s.calls)

publish-IsAlike : (t m : Text) (r : Bool) (s : Impl) → Ensures (IsAlike s) (publish t m r s)
unfolding publish send_publish
publish-IsAlike t m r s = at s.publish_queue refl
  where
    at : (queue : List Message) → s.publish_queue ≡ queue → Ensures (IsAlike s) (publish t m r s)
    at [] e = ground arith
    at (n ∷ ms) e = ground arith

pub publish-IsReady :
    (t m : Text) (r : Bool) (s : Impl)
    → IsReady s
    → (b : Bool) × (s' : Impl) × (publish t m r s ≡ ok (b, s')) × IsReady s' × (s'.calls ≡ s.calls)
publish-IsReady t m r s v =
    let done = publish-Returns t m r s v.valid (inr v.sized) in
    elim (Result-cases (publish t m r s)) [
      | inl ((b, s'), e) ↦
          let same = Ensures-ok (IsAlike s) _ (publish-IsAlike t m r s) e in
          (
            b,
            s',
            e,
            record {
              valid = Ensures-ok IsValid _ (publish-IsValid t m r s v.valid) e;
              queues = same.0 ∙ v.queues;
              sized = rw (same.1) v.sized;
            },
            same.2,
          )
      | inr (f, e) ↦ absurd (rw e at done)
    ]

pub with_calls-IsReady : (s : Impl) (cs : List Call) → IsReady s → IsReady (record s { calls = cs })
with_calls-IsReady s cs v = record {
  valid = record {
    linked = v.valid.linked;
    waiting = v.valid.waiting;
    bounded = v.valid.bounded;
    packet_ids = v.valid.packet_ids;
  };
  queues = v.queues;
  sized = v.sized;
}
