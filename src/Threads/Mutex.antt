-- ===== src/Threads/Mutex.antt =====
-- Who holds m_state_mutex, and which threads there are.
use true_mqtt_cpp.Base.{◌≡◌, refl, Bool, true, false, not, ◌&&◌, Option, none, some, arith}
use true_mqtt_cpp.Threads.{
  Holder, user, reader, UserAt, ReadAt, WriteAt, System, notified, started, refuses, UserStep,
  ReadStep, WriteStep, Step, by_user, by_reader, by_writer, at_rest, Reach, here, next,
}

-- The user thread is between lock and unlock.
abbrev pub user_inside : UserAt → Bool
user_inside UserAt.idle = false
user_inside (UserAt.calls r) = false
user_inside (UserAt.runs r) = true
user_inside (UserAt.resets again) = true
user_inside (UserAt.notifies again) = true
user_inside (UserAt.joins_read again) = true
user_inside (UserAt.joins_write again) = true
user_inside UserAt.leaves = true

abbrev pub reader_inside : ReadAt → Bool
reader_inside ReadAt.absent = false
reader_inside ReadAt.checks = false
reader_inside ReadAt.reads = false
reader_inside (ReadAt.tells e) = false
reader_inside (ReadAt.runs e) = true
reader_inside ReadAt.ended = false

-- The user thread is in the destructor of the connection.
abbrev pub destroys : UserAt → Bool
destroys UserAt.idle = false
destroys (UserAt.calls r) = false
destroys (UserAt.runs r) = false
destroys (UserAt.resets again) = true
destroys (UserAt.notifies again) = true
destroys (UserAt.joins_read again) = true
destroys (UserAt.joins_write again) = true
destroys UserAt.leaves = false

abbrev pub is_user : Option Holder → Bool
is_user none = false
is_user (some user) = true
is_user (some reader) = false

abbrev pub is_reader : Option Holder → Bool
is_reader none = false
is_reader (some user) = false
is_reader (some reader) = true

abbrev pub is_absent_read : ReadAt → Bool
is_absent_read ReadAt.absent = true
is_absent_read ReadAt.checks = false
is_absent_read ReadAt.reads = false
is_absent_read (ReadAt.tells e) = false
is_absent_read (ReadAt.runs e) = false
is_absent_read ReadAt.ended = false

abbrev pub is_absent_write : WriteAt → Bool
is_absent_write WriteAt.absent = true
is_absent_write WriteAt.checks = false
is_absent_write WriteAt.pops = false
is_absent_write WriteAt.tested = false
is_absent_write WriteAt.waits = false
is_absent_write WriteAt.sends = false
is_absent_write WriteAt.stuck = false
is_absent_write WriteAt.ended = false

abbrev pub joins_last : UserAt → Bool
joins_last UserAt.idle = false
joins_last (UserAt.calls r) = false
joins_last (UserAt.runs r) = false
joins_last (UserAt.resets again) = false
joins_last (UserAt.notifies again) = false
joins_last (UserAt.joins_read again) = false
joins_last (UserAt.joins_write again) = true
joins_last UserAt.leaves = false

-- The mutex is held by exactly the thread that is between its lock and unlock; there are a read thread
-- and a write thread exactly while there is a connection; a connection that is being destroyed is
-- there; and the read thread has ended when the write thread is joined.
pub record Inv (s : System) : Type 0 where
  pub of_user : is_user s.holder ≡ user_inside s.user_at
  pub of_reader : is_reader s.holder ≡ reader_inside s.read_at
  pub reading : is_absent_read s.read_at ≡ not s.linked
  pub writing : is_absent_write s.write_at ≡ not s.linked
  pub destroyed : destroys s.user_at ≡ true → s.linked ≡ true
  pub joined : joins_last s.user_at ≡ true → s.read_at ≡ ReadAt.ended

UserStep-Inv : {s t : System} → UserStep s t → Inv s → Inv t
unfolding notified started refuses
UserStep-Inv (UserStep.call r e t) v = ground (arith, v.destroyed, v.joined)
UserStep-Inv (UserStep.lock r e h t) v = ground (arith, v.destroyed, v.joined)
UserStep-Inv (UserStep.refuse r e g t) v = ground (arith, v.destroyed, v.joined)
UserStep-Inv (UserStep.connect e l t) v = ground (arith, v.destroyed, v.joined)
UserStep-Inv (UserStep.disconnect e l t) v = ground (arith, v.destroyed, v.joined)
UserStep-Inv (UserStep.send e l w t) v = ground (arith, v.destroyed, v.joined)
UserStep-Inv (UserStep.restart e l t) v = ground (arith, v.destroyed, v.joined)
UserStep-Inv (UserStep.stop a e t) v = ground (arith, v.destroyed, v.joined)
UserStep-Inv (UserStep.notify a e t) v = ground (arith, v.destroyed, v.joined)
UserStep-Inv (UserStep.join_read a e r t) v = ground (arith, v.destroyed, v.joined)
UserStep-Inv (UserStep.join_write e w t) v = ground (arith, v.destroyed, v.joined)
UserStep-Inv (UserStep.reconnect e w t) v = ground (arith, v.destroyed, v.joined)
UserStep-Inv (UserStep.unlock e t) v = ground (arith, v.destroyed, v.joined)

ReadStep-Inv : {s t : System} → ReadStep s t → Inv s → Inv t
unfolding notified
ReadStep-Inv (ReadStep.end e st t) v = ground (arith, v.destroyed, v.joined)
ReadStep-Inv (ReadStep.go_on e st t) v = ground (arith, v.destroyed, v.joined)
ReadStep-Inv (ReadStep.nothing e t) v = ground (arith, v.destroyed, v.joined)
ReadStep-Inv (ReadStep.overwrite e t) v = ground (arith, v.destroyed, v.joined)
ReadStep-Inv (ReadStep.ping e w t) v = ground (arith, v.destroyed, v.joined)
ReadStep-Inv (ReadStep.clear e w t) v = ground (arith, v.destroyed, v.joined)
ReadStep-Inv (ReadStep.tell ev e t) v = ground (arith, v.destroyed, v.joined)
ReadStep-Inv (ReadStep.lock ev e h t) v = ground (arith, v.destroyed, v.joined)
ReadStep-Inv (ReadStep.resubscribe e w t) v = ground (arith, v.destroyed, v.joined)
ReadStep-Inv (ReadStep.unlock ev e t) v = ground (arith, v.destroyed, v.joined)

WriteStep-Inv : {s t : System} → WriteStep s t → Inv s → Inv t
WriteStep-Inv (WriteStep.end e st t) v = ground (arith, v.destroyed, v.joined)
WriteStep-Inv (WriteStep.go_on e st t) v = ground (arith, v.destroyed, v.joined)
WriteStep-Inv (WriteStep.pop e q more t) v = ground (arith, v.destroyed, v.joined)
WriteStep-Inv (WriteStep.give_up e q st t) v = ground (arith, v.destroyed, v.joined)
WriteStep-Inv (WriteStep.test e q st t) v = ground (arith, v.destroyed, v.joined)
WriteStep-Inv (WriteStep.block e t) v = ground (arith, v.destroyed, v.joined)
WriteStep-Inv (WriteStep.fill e t) v = ground (arith, v.destroyed, v.joined)
WriteStep-Inv (WriteStep.drain e t) v = ground (arith, v.destroyed, v.joined)
WriteStep-Inv (WriteStep.sent e t) v = ground (arith, v.destroyed, v.joined)

pub Step-Inv : {s t : System} → Step s t → Inv s → Inv t
Step-Inv (by_user st) v = UserStep-Inv st v
Step-Inv (by_reader st) v = ReadStep-Inv st v
Step-Inv (by_writer st) v = WriteStep-Inv st v

at_rest-Inv : Inv at_rest
at_rest-Inv = record {
  of_user = refl;
  of_reader = refl;
  reading = refl;
  writing = refl;
  destroyed = λ h. cc;
  joined = λ h. cc;
}

-- However the steps of the three threads alternate from the start: m_state_mutex is held by exactly the
-- thread that is between its lock and its unlock, there are a read and a write thread exactly while
-- there is a connection, one that is being destroyed is still there, and the read thread has ended when
-- the write thread is joined.
pub Reach-Inv : (s : System) → Reach at_rest s → Inv s
Reach-Inv s here = at_rest-Inv
Reach-Inv s (next {t = t} r st) = Step-Inv st (Reach-Inv t r)

-- The user thread and the read thread are never both under the lock.
pub mutual_exclusion :
    (s : System) → Inv s → (user_inside s.user_at && reader_inside s.read_at) ≡ false
mutual_exclusion s v = ground arith
