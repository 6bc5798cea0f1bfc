-- ===== src/Threads/Examples.antt =====
-- Schedules of the threads.
use true_mqtt_cpp.Base.{◌≡◌, refl, true, false, none, some}
use true_mqtt_cpp.Threads.{
  user, Request, UserAt, Event, ReadAt, WriteAt, System, notified, started, is_tested, UserStep,
  ReadStep, WriteStep, by_user, by_reader, by_writer, at_rest, Reach, here, next,
}
use true_mqtt_cpp.Threads.Mutex.{user_inside, Inv, Reach-Inv}
use true_mqtt_cpp.Threads.Waking.{Reach-trans}
use true_mqtt_cpp.Threads.Waiting.{Going, Going-user}
use true_mqtt_cpp.Threads.Deadlock.{Doomed, crossing, unwoken, Doomed-never_returns}

-- `connect` was called and has returned.
abbrev linked_up : System
linked_up = record {
  holder = none;
  linked = true;
  stop = false;
  queued = false;
  missed = false;
  user_at = UserAt.idle;
  read_at = ReadAt.checks;
  write_at = WriteAt.checks;
}

connects : Reach at_rest linked_up
unfolding started
connects =
    next
      (next
        (next (next here (by_user (UserStep.call Request.connects refl refl)))
          (by_user (UserStep.lock Request.connects refl refl refl)))
        (by_user (UserStep.connect refl refl refl)))
      (by_user (UserStep.unlock refl refl))

-- The user thread has locked in `disconnect` while the read thread has a message.
abbrev crossed : System
crossed = record linked_up {
  holder = some user;
  user_at = UserAt.runs Request.disconnects;
  read_at = ReadAt.tells Event.message;
}

crosses : Reach linked_up crossed
crosses =
    next
      (next
        (next (next here (by_reader (ReadStep.go_on refl refl refl)))
          (by_reader (ReadStep.tell Event.message refl refl)))
        (by_user (UserStep.call Request.disconnects refl refl)))
      (by_user (UserStep.lock Request.disconnects refl refl refl))

crossed-Doomed : Doomed crossed
crossed-Doomed = crossing Event.message refl refl refl refl

-- The write thread blocks after the stop was set and notified.
abbrev asleep : System
asleep = record linked_up {
  holder = some user;
  stop = true;
  missed = true;
  user_at = UserAt.joins_write false;
  read_at = ReadAt.ended;
  write_at = WriteAt.waits;
}

falls_asleep : Reach linked_up asleep
unfolding notified is_tested
falls_asleep =
    next
      (next
        (next
          (next
            (next
              (next
                (next
                  (next
                    (next (next here (by_writer (WriteStep.go_on refl refl refl)))
                      (by_writer (WriteStep.test refl refl refl refl)))
                    (by_user (UserStep.call Request.disconnects refl refl)))
                  (by_user (UserStep.lock Request.disconnects refl refl refl)))
                (by_user (UserStep.disconnect refl refl refl)))
              (by_user (UserStep.stop false refl refl)))
            (by_user (UserStep.notify false refl refl)))
          (by_writer (WriteStep.block refl refl)))
        (by_reader (ReadStep.end refl refl refl)))
      (by_user (UserStep.join_read false refl refl refl))

asleep-Doomed : Doomed asleep
asleep-Doomed = unwoken false refl refl refl

Reach-Inv_example : Inv linked_up
Reach-Inv_example = Reach-Inv linked_up connects

Going-user_example : Going asleep
Going-user_example = Going-user asleep (Reach-trans connects falls_asleep)

Doomed-never_returns_example : Doomed asleep × (user_inside asleep.user_at ≡ true)
Doomed-never_returns_example = Doomed-never_returns asleep asleep asleep-Doomed here
