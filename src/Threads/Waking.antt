-- ===== src/Threads/Waking.antt =====
-- When the destructor of the connection wakes the write thread.
use true_mqtt_cpp.Base.{◌≡◌, Bool, true, false, arith}
use true_mqtt_cpp.Threads.{
  UserAt, ReadAt, System, notified, started, is_tested, refuses, UserStep, ReadStep, WriteStep,
  Step, by_user, by_reader, by_writer, at_rest, Reach, here, next,
}
use true_mqtt_cpp.Threads.Deadlock.{is_past_test}

-- The user thread is behind the destructor's `notify_one`.
abbrev joins : UserAt → Bool
joins UserAt.idle = false
joins (UserAt.calls r) = false
joins (UserAt.runs r) = false
joins (UserAt.resets again) = false
joins (UserAt.notifies again) = false
joins (UserAt.joins_read again) = true
joins (UserAt.joins_write again) = true
joins UserAt.leaves = false

-- The read thread has ended only while m_state is STOP. Behind the `notify_one`, and while m_state is
-- STOP, the write thread is behind its test only if it missed the notification.
pub record Woken (s : System) : Type 0 where
  pub ended : s.read_at ≡ ReadAt.ended → s.stop ≡ true
  pub by_missing :
      joins s.user_at ≡ true → s.stop ≡ true → is_past_test s.write_at ≡ true → s.missed ≡ true

UserStep-Woken : {s t : System} → UserStep s t → Woken s → Woken t
unfolding notified started refuses is_tested
UserStep-Woken (UserStep.call r e t) v = ground (arith, v.ended, v.by_missing)
UserStep-Woken (UserStep.lock r e h t) v = ground (arith, v.ended, v.by_missing)
UserStep-Woken (UserStep.refuse r e g t) v = ground (arith, v.ended, v.by_missing)
UserStep-Woken (UserStep.connect e l t) v = ground (arith, v.ended, v.by_missing)
UserStep-Woken (UserStep.disconnect e l t) v = ground (arith, v.ended, v.by_missing)
UserStep-Woken (UserStep.send e l w t) v = ground (arith, v.ended, v.by_missing)
UserStep-Woken (UserStep.restart e l t) v = ground (arith, v.ended, v.by_missing)
UserStep-Woken (UserStep.stop a e t) v = ground (arith, v.ended, v.by_missing)
UserStep-Woken (UserStep.notify a e t) v = ground (arith, v.ended, v.by_missing)
UserStep-Woken (UserStep.join_read a e r t) v = ground (arith, v.ended, v.by_missing)
UserStep-Woken (UserStep.join_write e w t) v = ground (arith, v.ended, v.by_missing)
UserStep-Woken (UserStep.reconnect e w t) v = ground (arith, v.ended, v.by_missing)
UserStep-Woken (UserStep.unlock e t) v = ground (arith, v.ended, v.by_missing)

ReadStep-Woken : {s t : System} → ReadStep s t → Woken s → Woken t
unfolding notified
ReadStep-Woken (ReadStep.end e st t) v = ground (arith, v.ended, v.by_missing)
ReadStep-Woken (ReadStep.go_on e st t) v = ground (arith, v.ended, v.by_missing)
ReadStep-Woken (ReadStep.nothing e t) v = ground (arith, v.ended, v.by_missing)
ReadStep-Woken (ReadStep.overwrite e t) v = ground (arith, v.ended, v.by_missing)
ReadStep-Woken (ReadStep.ping e w t) v = ground (arith, v.ended, v.by_missing)
ReadStep-Woken (ReadStep.clear e w t) v = ground (arith, v.ended, v.by_missing)
ReadStep-Woken (ReadStep.tell ev e t) v = ground (arith, v.ended, v.by_missing)
ReadStep-Woken (ReadStep.lock ev e h t) v = ground (arith, v.ended, v.by_missing)
ReadStep-Woken (ReadStep.resubscribe e w t) v = ground (arith, v.ended, v.by_missing)
ReadStep-Woken (ReadStep.unlock ev e t) v = ground (arith, v.ended, v.by_missing)

WriteStep-Woken : {s t : System} → WriteStep s t → Woken s → Woken t
WriteStep-Woken (WriteStep.end e st t) v = ground (arith, v.ended, v.by_missing)
WriteStep-Woken (WriteStep.go_on e st t) v = ground (arith, v.ended, v.by_missing)
WriteStep-Woken (WriteStep.pop e q more t) v = ground (arith, v.ended, v.by_missing)
WriteStep-Woken (WriteStep.give_up e q st t) v = ground (arith, v.ended, v.by_missing)
WriteStep-Woken (WriteStep.test e q st t) v = ground (arith, v.ended, v.by_missing)
WriteStep-Woken (WriteStep.block e t) v = ground (arith, v.ended, v.by_missing)
WriteStep-Woken (WriteStep.fill e t) v = ground (arith, v.ended, v.by_missing)
WriteStep-Woken (WriteStep.drain e t) v = ground (arith, v.ended, v.by_missing)
WriteStep-Woken (WriteStep.sent e t) v = ground (arith, v.ended, v.by_missing)

Step-Woken : {s t : System} → Step s t → Woken s → Woken t
Step-Woken (by_user st) v = UserStep-Woken st v
Step-Woken (by_reader st) v = ReadStep-Woken st v
Step-Woken (by_writer st) v = WriteStep-Woken st v

pub Reach-Woken : (s : System) → Reach at_rest s → Woken s
Reach-Woken s here = record { ended = λ h. cc; by_missing = λ h. cc }
Reach-Woken s (next {t = t} r st) = Step-Woken st (Reach-Woken t r)

pub Reach-trans : {s t u : System} → Reach s t → Reach t u → Reach s u
Reach-trans r here = r
Reach-trans r (next r' st) = next (Reach-trans r r') st
