-- ===== src/Threads/Deadlock.antt =====
-- The two ways in which `disconnect` never returns.
use true_mqtt_cpp.Base.{◌≡◌, Bool, true, false, some, arith}
use true_mqtt_cpp.Threads.{
  user, Request, UserAt, Event, ReadAt, WriteAt, System, refuses, UserStep, ReadStep, WriteStep,
  Step, by_user, by_reader, by_writer, Reach, here, next,
}
use true_mqtt_cpp.Threads.Mutex.{user_inside}

-- From the guard of `disconnect` to the join of the read thread.
abbrev pub before_join : UserAt → Bool
before_join UserAt.idle = false
before_join (UserAt.calls r) = false
before_join (UserAt.runs Request.disconnects) = true
before_join (UserAt.runs Request.connects) = false
before_join (UserAt.runs Request.sends) = false
before_join (UserAt.resets again) = true
before_join (UserAt.notifies again) = true
before_join (UserAt.joins_read again) = true
before_join (UserAt.joins_write again) = false
before_join UserAt.leaves = false

-- Behind the test of the predicate of `wait`.
abbrev pub is_past_test : WriteAt → Bool
is_past_test WriteAt.absent = false
is_past_test WriteAt.checks = false
is_past_test WriteAt.pops = false
is_past_test WriteAt.tested = true
is_past_test WriteAt.waits = true
is_past_test WriteAt.sends = false
is_past_test WriteAt.stuck = false
is_past_test WriteAt.ended = false

-- The user thread has the lock and will join the read thread, which has an event to tell; or it joins
-- the write thread, which tested its predicate before it could see the stop, and the read thread has
-- ended.
pub data Doomed (s : System) : Type 0 where
  crossing :
      (e : Event)
      → s.holder ≡ some user
      → s.linked ≡ true
      → before_join s.user_at ≡ true
      → s.read_at ≡ ReadAt.tells e
      → Doomed s
  unwoken :
      (again : Bool)
      → s.user_at ≡ UserAt.joins_write again
      → s.read_at ≡ ReadAt.ended
      → is_past_test s.write_at ≡ true
      → Doomed s

crossing_by_user :
    {s t : System} (e : Event)
    → s.holder ≡ some user
    → s.linked ≡ true
    → before_join s.user_at ≡ true
    → s.read_at ≡ ReadAt.tells e
    → UserStep s t
    → Doomed t
unfolding refuses
crossing_by_user ev h l b r (UserStep.call q e t) = absurd (ground arith)
crossing_by_user ev h l b r (UserStep.lock q e n t) = absurd (ground arith)
crossing_by_user ev h l b r (UserStep.refuse Request.connects e g t) = absurd (ground arith)
crossing_by_user ev h l b r (UserStep.refuse Request.disconnects e g t) = absurd (ground arith)
crossing_by_user ev h l b r (UserStep.refuse Request.sends e g t) = absurd (ground arith)
crossing_by_user ev h l b r (UserStep.connect e n t) = absurd (ground arith)
crossing_by_user ev h l b r (UserStep.disconnect e n t) =
    crossing ev (ground arith) (ground arith) (ground arith) (ground arith)
crossing_by_user ev h l b r (UserStep.send e n w t) = absurd (ground arith)
crossing_by_user ev h l b r (UserStep.restart e n t) = absurd (ground arith)
crossing_by_user ev h l b r (UserStep.stop a e t) =
    crossing ev (ground arith) (ground arith) (ground arith) (ground arith)
crossing_by_user ev h l b r (UserStep.notify a e t) =
    crossing ev (ground arith) (ground arith) (ground arith) (ground arith)
crossing_by_user ev h l b r (UserStep.join_read a e n t) = absurd (ground arith)
crossing_by_user ev h l b r (UserStep.join_write e n t) = absurd (ground arith)
crossing_by_user ev h l b r (UserStep.reconnect e n t) = absurd (ground arith)
crossing_by_user ev h l b r (UserStep.unlock e t) = absurd (ground arith)

crossing_by_reader :
    {s t : System} (e : Event)
    → s.holder ≡ some user
    → s.read_at ≡ ReadAt.tells e
    → ReadStep s t
    → ⊥
crossing_by_reader ev h r (ReadStep.end e st t) = ground arith
crossing_by_reader ev h r (ReadStep.go_on e st t) = ground arith
crossing_by_reader ev h r (ReadStep.nothing e t) = ground arith
crossing_by_reader ev h r (ReadStep.overwrite e t) = ground arith
crossing_by_reader ev h r (ReadStep.ping e w t) = ground arith
crossing_by_reader ev h r (ReadStep.clear e w t) = ground arith
crossing_by_reader ev h r (ReadStep.tell q e t) = ground arith
crossing_by_reader ev h r (ReadStep.lock q e n t) = ground arith
crossing_by_reader ev h r (ReadStep.resubscribe e w t) = ground arith
crossing_by_reader ev h r (ReadStep.unlock q e t) = ground arith

-- What a step of the write thread leaves alone.
WriteStep-kept :
    {s t : System}
    → WriteStep s t
    → (t.holder ≡ s.holder)
      × (t.linked ≡ s.linked)
      × (t.user_at ≡ s.user_at)
      × (t.read_at ≡ s.read_at)
WriteStep-kept (WriteStep.end e st t) = ground arith
WriteStep-kept (WriteStep.go_on e st t) = ground arith
WriteStep-kept (WriteStep.pop e q more t) = ground arith
WriteStep-kept (WriteStep.give_up e q st t) = ground arith
WriteStep-kept (WriteStep.test e q st t) = ground arith
WriteStep-kept (WriteStep.block e t) = ground arith
WriteStep-kept (WriteStep.fill e t) = ground arith
WriteStep-kept (WriteStep.drain e t) = ground arith
WriteStep-kept (WriteStep.sent e t) = ground arith

past_test_kept :
    {s t : System} → WriteStep s t → is_past_test s.write_at ≡ true → is_past_test t.write_at ≡ true
past_test_kept (WriteStep.end e st t) h = absurd (ground arith)
past_test_kept (WriteStep.go_on e st t) h = absurd (ground arith)
past_test_kept (WriteStep.pop e q more t) h = absurd (ground arith)
past_test_kept (WriteStep.give_up e q st t) h = absurd (ground arith)
past_test_kept (WriteStep.test e q st t) h = absurd (ground arith)
past_test_kept (WriteStep.block e t) h = ground arith
past_test_kept (WriteStep.fill e t) h = absurd (ground arith)
past_test_kept (WriteStep.drain e t) h = absurd (ground arith)
past_test_kept (WriteStep.sent e t) h = absurd (ground arith)

joining_by_user :
    {s t : System} (again : Bool)
    → s.user_at ≡ UserAt.joins_write again
    → is_past_test s.write_at ≡ true
    → UserStep s t
    → ⊥
joining_by_user a u w (UserStep.call q e t) = ground arith
joining_by_user a u w (UserStep.lock q e n t) = ground arith
joining_by_user a u w (UserStep.refuse q e g t) = ground arith
joining_by_user a u w (UserStep.connect e n t) = ground arith
joining_by_user a u w (UserStep.disconnect e n t) = ground arith
joining_by_user a u w (UserStep.send e n x t) = ground arith
joining_by_user a u w (UserStep.restart e n t) = ground arith
joining_by_user a u w (UserStep.stop b e t) = ground arith
joining_by_user a u w (UserStep.notify b e t) = ground arith
joining_by_user a u w (UserStep.join_read b e n t) = ground arith
joining_by_user a u w (UserStep.join_write e n t) = ground arith
joining_by_user a u w (UserStep.reconnect e n t) = ground arith
joining_by_user a u w (UserStep.unlock e t) = ground arith

ended_by_reader : {s t : System} → s.read_at ≡ ReadAt.ended → ReadStep s t → ⊥
ended_by_reader r (ReadStep.end e st t) = ground arith
ended_by_reader r (ReadStep.go_on e st t) = ground arith
ended_by_reader r (ReadStep.nothing e t) = ground arith
ended_by_reader r (ReadStep.overwrite e t) = ground arith
ended_by_reader r (ReadStep.ping e w t) = ground arith
ended_by_reader r (ReadStep.clear e w t) = ground arith
ended_by_reader r (ReadStep.tell q e t) = ground arith
ended_by_reader r (ReadStep.lock q e n t) = ground arith
ended_by_reader r (ReadStep.resubscribe e w t) = ground arith
ended_by_reader r (ReadStep.unlock q e t) = ground arith

Step-Doomed : {s t : System} → Step s t → Doomed s → Doomed t
Step-Doomed (by_user st) (crossing e h l b r) = crossing_by_user e h l b r st
Step-Doomed (by_reader st) (crossing e h l b r) = absurd (crossing_by_reader e h r st)
Step-Doomed (by_writer st) (crossing e h l b r) =
    let kept = WriteStep-kept st in
    crossing e (ground arith) (ground arith) (ground arith) (ground arith)
Step-Doomed (by_user st) (unwoken a u r w) = absurd (joining_by_user a u w st)
Step-Doomed (by_reader st) (unwoken a u r w) = absurd (ended_by_reader r st)
Step-Doomed (by_writer st) (unwoken a u r w) =
    let kept = WriteStep-kept st in unwoken a (ground arith) (ground arith) (past_test_kept st w)

Reach-Doomed : {s t : System} → Reach s t → Doomed s → Doomed t
Reach-Doomed here d = d
Reach-Doomed (next r st) d = Step-Doomed st (Reach-Doomed r d)

Doomed-inside : {s : System} → Doomed s → user_inside s.user_at ≡ true
Doomed-inside (crossing e h l b r) = ground arith
Doomed-inside (unwoken a u r w) = ground arith

-- Once the user thread is in `disconnect`, under the lock and behind or before its guard on a client
-- with a connection, or in the destructor of the connection, and the read thread has an event to tell,
-- the user thread never leaves the lock again; nor does it when it joins the write thread, the read
-- thread has ended, and the write thread has tested the predicate of its wait and found it false.
pub Doomed-never_returns :
    (s t : System) → Doomed s → Reach s t → Doomed t × (user_inside t.user_at ≡ true)
Doomed-never_returns s t d r = let d' = Reach-Doomed r d in (d', Doomed-inside d')
