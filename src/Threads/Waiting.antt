-- ===== src/Threads/Waiting.antt =====
-- What a thread that cannot go on waits for.
use true_mqtt_cpp.Base.{
  ◌≡◌, refl, inl, inr, Bool, true, false, Option, none, some, arith, Bool-cases,
}
use true_mqtt_cpp.Threads.{
  Holder, user, reader, Request, UserAt, Event, ReadAt, WriteAt, System, refuses, UserStep,
  ReadStep, WriteStep, at_rest, Reach,
}
use true_mqtt_cpp.Threads.Mutex.{Inv, Reach-Inv}
use true_mqtt_cpp.Threads.Waking.{Woken, Reach-Woken}

abbrev pub UserMoves : System → Type 0
UserMoves s = (t : System) × UserStep s t

abbrev pub ReadMoves : System → Type 0
ReadMoves s = (t : System) × ReadStep s t

abbrev pub WriteMoves : System → Type 0
WriteMoves s = (t : System) × WriteStep s t

-- The user thread joins the read thread, which is about to lock m_state_mutex; or it joins the write
-- thread, which is blocked on the condition variable because the destructor's notification came between
-- its test and its wait.
pub data Dead (s : System) : Type 0 where
  crossed :
      (again : Bool) (e : Event)
      → s.user_at ≡ UserAt.joins_read again
      → s.read_at ≡ ReadAt.tells e
      → Dead s
  unwoken :
      (again : Bool)
      → s.user_at ≡ UserAt.joins_write again
      → s.write_at ≡ WriteAt.waits
      → s.stop ≡ true
      → s.missed ≡ true
      → Dead s

-- A thread moves, or the one that it waits for does.
pub data Going (s : System) : Type 0 where
  user_moves : UserMoves s → Going s
  awaits_unlock :
      (r : Request) → s.user_at ≡ UserAt.calls r → s.holder ≡ some reader → ReadMoves s → Going s
  awaits_reader : (again : Bool) → s.user_at ≡ UserAt.joins_read again → ReadMoves s → Going s
  awaits_writer : (again : Bool) → s.user_at ≡ UserAt.joins_write again → WriteMoves s → Going s
  awaits_peer :
      (again : Bool) → s.user_at ≡ UserAt.joins_write again → s.write_at ≡ WriteAt.stuck → Going s
  is_dead : Dead s → Going s

missing :
    (s : System) (again : Bool)
    → Woken s
    → Inv s
    → s.user_at ≡ UserAt.joins_write again
    → s.write_at ≡ WriteAt.waits
    → (s.stop ≡ true) × (s.missed ≡ true)
missing s again k v e ea =
    let stopped : s.stop ≡ true = k.ended (v.joined (rw e refl)) in
    (stopped, k.by_missing (rw e refl) stopped (rw ea refl))

module _ (s : System) (v : Inv s) (k : Woken s) where
  locking :
      (r : Request)
      → s.user_at ≡ UserAt.calls r
      → (h : Option Holder) → s.holder ≡ h
      → (a : ReadAt) → s.read_at ≡ a
      → Going s
  locking r e none h a ea = user_moves (_, UserStep.lock r e h refl)
  locking r e (some user) h a ea = absurd (ground (arith, v.of_user))
  locking r e (some reader) h (ReadAt.runs ev) ea =
      awaits_unlock r e h (_, ReadStep.unlock ev ea refl)
  locking r e (some reader) h ReadAt.absent ea = absurd (ground (arith, v.of_reader))
  locking r e (some reader) h ReadAt.checks ea = absurd (ground (arith, v.of_reader))
  locking r e (some reader) h ReadAt.reads ea = absurd (ground (arith, v.of_reader))
  locking r e (some reader) h (ReadAt.tells ev) ea = absurd (ground (arith, v.of_reader))
  locking r e (some reader) h ReadAt.ended ea = absurd (ground (arith, v.of_reader))

  running : (r : Request) → s.user_at ≡ UserAt.runs r → UserMoves s
  unfolding refuses
  running Request.connects e = elim (Bool-cases s.linked) [
    | inl l ↦ (_, UserStep.refuse Request.connects e l refl)
    | inr l ↦ (_, UserStep.connect e l refl)
  ]
  running Request.disconnects e = elim (Bool-cases s.linked) [
    | inl l ↦ (_, UserStep.disconnect e l refl)
    | inr l ↦ (_, UserStep.refuse Request.disconnects e (ground arith) refl)
  ]
  running Request.sends e = (_, UserStep.refuse Request.sends e refl refl)

  joining_read :
      (again : Bool) → s.user_at ≡ UserAt.joins_read again → (a : ReadAt) → s.read_at ≡ a → Going s
  joining_read again e ReadAt.absent ea = absurd (ground (arith, v.destroyed))
  joining_read again e ReadAt.checks ea = elim (Bool-cases s.stop) [
    | inl st ↦ awaits_reader again e (_, ReadStep.end ea st refl)
    | inr st ↦ awaits_reader again e (_, ReadStep.go_on ea st refl)
  ]
  joining_read again e ReadAt.reads ea = awaits_reader again e (_, ReadStep.nothing ea refl)
  joining_read again e (ReadAt.tells ev) ea = is_dead (crossed again ev e ea)
  joining_read again e (ReadAt.runs ev) ea = absurd (ground (arith, v.of_user, v.of_reader))
  joining_read again e ReadAt.ended ea = user_moves (_, UserStep.join_read again e ea refl)

  ended_write :
      (again : Bool)
      → s.user_at ≡ UserAt.joins_write again
      → s.write_at ≡ WriteAt.ended
      → UserMoves s
  ended_write false e ea = (_, UserStep.join_write e ea refl)
  ended_write true e ea = (_, UserStep.reconnect e ea refl)

  joining_write :
      (again : Bool)
      → s.user_at ≡ UserAt.joins_write again
      → (a : WriteAt) → s.write_at ≡ a
      → Going s
  joining_write again e WriteAt.absent ea = absurd (ground (arith, v.destroyed))
  joining_write again e WriteAt.checks ea = elim (Bool-cases s.stop) [
    | inl st ↦ awaits_writer again e (_, WriteStep.end ea st refl)
    | inr st ↦ awaits_writer again e (_, WriteStep.go_on ea st refl)
  ]
  joining_write again e WriteAt.pops ea = elim (Bool-cases s.queued) [
    | inl q ↦ awaits_writer again e (_, WriteStep.pop ea q false refl)
    | inr q ↦ elim (Bool-cases s.stop) [
      | inl st ↦ awaits_writer again e (_, WriteStep.give_up ea q st refl)
      | inr st ↦ awaits_writer again e (_, WriteStep.test ea q st refl)
    ]
  ]
  joining_write again e WriteAt.tested ea = awaits_writer again e (_, WriteStep.block ea refl)
  joining_write again e WriteAt.waits ea =
      let (stopped, missed) = missing s again k v e ea in
      is_dead (unwoken again e ea stopped missed)
  joining_write again e WriteAt.sends ea = awaits_writer again e (_, WriteStep.sent ea refl)
  joining_write again e WriteAt.stuck ea = awaits_peer again e ea
  joining_write again e WriteAt.ended ea = user_moves (ended_write again e ea)

  going : (a : UserAt) → s.user_at ≡ a → Going s
  going UserAt.idle e = user_moves (_, UserStep.call Request.sends e refl)
  going (UserAt.calls r) e = locking r e s.holder refl s.read_at refl
  going (UserAt.runs r) e = user_moves (running r e)
  going (UserAt.resets again) e = user_moves (_, UserStep.stop again e refl)
  going (UserAt.notifies again) e = user_moves (_, UserStep.notify again e refl)
  going (UserAt.joins_read again) e = joining_read again e s.read_at refl
  going (UserAt.joins_write again) e = joining_write again e s.write_at refl
  going UserAt.leaves e = user_moves (_, UserStep.unlock e refl)

-- However the steps of the three threads alternate from the start, the user thread waits for nothing
-- else: it can take a step, or the thread that it waits for can, or it joins a write thread whose
-- `::send` blocks until the peer makes room, or the two are in one of the two deadlocks of `Dead`. One of
-- them is that it joins the read thread, which is about to lock m_state_mutex; the other that it joins
-- the write thread, which is blocked on the condition variable although m_state is STOP, and that only if
-- the destructor's notification came between the write thread's test and its wait.
pub Going-user : (s : System) → Reach at_rest s → Going s
Going-user s r = going s (Reach-Inv s r) (Reach-Woken s r) s.user_at refl
