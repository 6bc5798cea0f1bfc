-- ===== src/Threads.antt =====
-- The threads of a client and of its connection, and what they wait for: the mutex m_state_mutex, the
-- condition variable of the send queue, and the joins in the destructor of the connection. The scoped
-- locks stand in src/Client.cpp, the destructor, `popSendQueueBlocking` and `runWrite` in
-- src/Connection.cpp.
-- One user thread, the read thread and the write thread take steps in any order. What the functions do
-- to the client is in the other modules; here they lock, wait, notify and end. A round of a loop that
-- changes nothing is no step, the wait on the condition variable has no spurious wake-ups, and the
-- write thread is not followed where the socket breaks. Nor is the read thread where
-- `connectionStateChange` calls `disconnect` and `connect` itself: the destructor would join the thread
-- that runs it, which ends the program.
pub mod Mutex
pub mod Deadlock
pub mod Waking
pub mod Waiting
mod Examples
use true_mqtt_cpp.Base.{◌≡◌, ◌≢◌, Bool, true, false, not, Option, none, some}

-- The holder of m_state_mutex.
pub data Holder : Type 0 where
  user reader : Holder

-- A function of the public interface, as far as threads see it. `sends` is any of those that may queue
-- a packet.
pub data Request : Type 0 where
  connects disconnects sends : Request

-- Where the user thread stands. `again` is true in `restart`, and false in `disconnect`.
pub data UserAt : Type 0 where
  idle : UserAt
  calls : Request → UserAt  -- before the lock
  runs : Request → UserAt  -- under the lock
  resets : (again : Bool) → UserAt  -- m_connection.reset()
  notifies : (again : Bool) → UserAt  -- behind m_state = STOP
  joins_read : (again : Bool) → UserAt
  joins_write : (again : Bool) → UserAt
  leaves : UserAt  -- before the unlock

-- What the read thread has to tell the client.
pub data Event : Type 0 where
  made lost message : Event

pub data ReadAt : Type 0 where
  absent : ReadAt
  checks : ReadAt  -- before the test of m_state
  reads : ReadAt  -- behind it
  tells : Event → ReadAt  -- before the lock
  runs : Event → ReadAt  -- under the lock
  ended : ReadAt

pub data WriteAt : Type 0 where
  absent : WriteAt
  checks : WriteAt  -- before the test of m_state
  pops : WriteAt  -- `popSendQueueBlocking`, before the tests
  tested : WriteAt  -- the predicate of `wait` was false
  waits : WriteAt  -- blocked on the condition variable
  sends : WriteAt  -- `sendPacket`
  stuck : WriteAt  -- in a `::send` that blocks
  ended : WriteAt

-- `stop` says that m_state of the connection is STOP, and `queued` that the send queue has a packet.
-- `missed` is a ghost: the destructor's `notify_one` came when the write thread had tested its predicate
-- and was not waiting yet.
pub record System : Type 0 where
  pub holder : Option Holder
  pub linked : Bool
  pub stop : Bool
  pub queued : Bool
  pub missed : Bool
  pub user_at : UserAt
  pub read_at : ReadAt
  pub write_at : WriteAt

-- `notify_one`
unfoldable pub notified : WriteAt → WriteAt
notified WriteAt.waits = WriteAt.pops
notified WriteAt.absent = WriteAt.absent
notified WriteAt.checks = WriteAt.checks
notified WriteAt.pops = WriteAt.pops
notified WriteAt.tested = WriteAt.tested
notified WriteAt.sends = WriteAt.sends
notified WriteAt.stuck = WriteAt.stuck
notified WriteAt.ended = WriteAt.ended

-- Between the test of the predicate and the wait.
unfoldable pub is_tested : WriteAt → Bool
is_tested WriteAt.tested = true
is_tested _ = false

-- A new connection with its two threads.
unfoldable pub started : System → System
started s = record s {
  linked = true;
  stop = false;
  queued = false;
  user_at = UserAt.leaves;
  read_at = ReadAt.checks;
  write_at = WriteAt.checks;
}

-- Where the guard of a function returns at once: `connect` on a client with a connection, `disconnect`
-- on one without. A function that sends may end without a packet.
unfoldable pub refuses : Request → Bool → Bool
refuses Request.connects linked = linked
refuses Request.disconnects linked = not linked
refuses Request.sends linked = true

-- The steps of the user thread. A thread in `wait` has m_send_queue_mutex until it blocks, and a packet
-- is queued under that mutex.
pub data UserStep (s t : System) : Type 0 where
  call :
      (r : Request)
      → s.user_at ≡ UserAt.idle
      → t ≡ record s { user_at = UserAt.calls r }
      → UserStep s t
  lock :
      (r : Request)
      → s.user_at ≡ UserAt.calls r
      → s.holder ≡ none
      → t ≡ record s { user_at = UserAt.runs r; holder = some Holder.user }
      → UserStep s t
  refuse :
      (r : Request)
      → s.user_at ≡ UserAt.runs r
      → refuses r s.linked ≡ true
      → t ≡ record s { user_at = UserAt.leaves }
      → UserStep s t
  connect :
      s.user_at ≡ UserAt.runs Request.connects → s.linked ≡ false → t ≡ started s → UserStep s t
  disconnect :
      s.user_at ≡ UserAt.runs Request.disconnects
      → s.linked ≡ true
      → t ≡ record s { user_at = UserAt.resets false }
      → UserStep s t
  send :
      s.user_at ≡ UserAt.runs Request.sends
      → s.linked ≡ true
      → s.write_at ≢ WriteAt.tested
      → t ≡ record s { user_at = UserAt.leaves; queued = true; write_at = notified s.write_at }
      → UserStep s t
  restart :
      s.user_at ≡ UserAt.runs Request.sends
      → s.linked ≡ true
      → t ≡ record s { user_at = UserAt.resets true }
      → UserStep s t
  stop :
      (again : Bool)
      → s.user_at ≡ UserAt.resets again
      → t ≡ record s { user_at = UserAt.notifies again; stop = true }
      → UserStep s t
  notify :
      (again : Bool)
      → s.user_at ≡ UserAt.notifies again
      → t ≡ record s {
        user_at = UserAt.joins_read again;
        write_at = notified s.write_at;
        missed = is_tested s.write_at;
      }
      → UserStep s t
  join_read :
      (again : Bool)
      → s.user_at ≡ UserAt.joins_read again
      → s.read_at ≡ ReadAt.ended
      → t ≡ record s { user_at = UserAt.joins_write again }
      → UserStep s t
  join_write :
      s.user_at ≡ UserAt.joins_write false
      → s.write_at ≡ WriteAt.ended
      → t ≡ record s {
        user_at = UserAt.leaves;
        linked = false;
        read_at = ReadAt.absent;
        write_at = WriteAt.absent;
      }
      → UserStep s t
  reconnect :
      s.user_at ≡ UserAt.joins_write true
      → s.write_at ≡ WriteAt.ended
      → t ≡ started s
      → UserStep s t
  unlock :
      s.user_at ≡ UserAt.leaves
      → t ≡ record s { user_at = UserAt.idle; holder = none }
      → UserStep s t

-- The steps of the read thread. `overwrite` is an assignment of m_state that does not look at STOP:
-- BACKOFF behind a failed look-up, or CONNECTED at a CONNACK.
pub data ReadStep (s t : System) : Type 0 where
  end :
      s.read_at ≡ ReadAt.checks
      → s.stop ≡ true
      → t ≡ record s { read_at = ReadAt.ended }
      → ReadStep s t
  go_on :
      s.read_at ≡ ReadAt.checks
      → s.stop ≡ false
      → t ≡ record s { read_at = ReadAt.reads }
      → ReadStep s t
  nothing : s.read_at ≡ ReadAt.reads → t ≡ record s { read_at = ReadAt.checks } → ReadStep s t
  overwrite :
      s.read_at ≡ ReadAt.reads
      → t ≡ record s { read_at = ReadAt.checks; stop = false }
      → ReadStep s t
  ping :
      s.read_at ≡ ReadAt.reads
      → s.write_at ≢ WriteAt.tested
      → t ≡ record s { queued = true; write_at = notified s.write_at }
      → ReadStep s t
  clear :
      s.read_at ≡ ReadAt.checks
      → s.write_at ≢ WriteAt.tested
      → t ≡ record s { queued = false }
      → ReadStep s t
  tell :
      (e : Event)
      → s.read_at ≡ ReadAt.reads
      → t ≡ record s { read_at = ReadAt.tells e }
      → ReadStep s t
  lock :
      (e : Event)
      → s.read_at ≡ ReadAt.tells e
      → s.holder ≡ none
      → t ≡ record s { read_at = ReadAt.runs e; holder = some Holder.reader }
      → ReadStep s t
  resubscribe :
      s.read_at ≡ ReadAt.runs Event.made
      → s.write_at ≢ WriteAt.tested
      → t ≡ record s { queued = true; write_at = notified s.write_at }
      → ReadStep s t
  unlock :
      (e : Event)
      → s.read_at ≡ ReadAt.runs e
      → t ≡ record s { read_at = ReadAt.checks; holder = none }
      → ReadStep s t

-- The steps of the write thread. A `::send` blocks in `fill`, and goes on in `drain` when the peer has
-- made room.
pub data WriteStep (s t : System) : Type 0 where
  end :
      s.write_at ≡ WriteAt.checks
      → s.stop ≡ true
      → t ≡ record s { write_at = WriteAt.ended }
      → WriteStep s t
  go_on :
      s.write_at ≡ WriteAt.checks
      → s.stop ≡ false
      → t ≡ record s { write_at = WriteAt.pops }
      → WriteStep s t
  pop :
      s.write_at ≡ WriteAt.pops
      → s.queued ≡ true
      → (more : Bool) → t ≡ record s { write_at = WriteAt.sends; queued = more }
      → WriteStep s t
  give_up :
      s.write_at ≡ WriteAt.pops
      → s.queued ≡ false
      → s.stop ≡ true
      → t ≡ record s { write_at = WriteAt.checks }
      → WriteStep s t
  test :
      s.write_at ≡ WriteAt.pops
      → s.queued ≡ false
      → s.stop ≡ false
      → t ≡ record s { write_at = WriteAt.tested }
      → WriteStep s t
  block : s.write_at ≡ WriteAt.tested → t ≡ record s { write_at = WriteAt.waits } → WriteStep s t
  fill : s.write_at ≡ WriteAt.sends → t ≡ record s { write_at = WriteAt.stuck } → WriteStep s t
  drain : s.write_at ≡ WriteAt.stuck → t ≡ record s { write_at = WriteAt.sends } → WriteStep s t
  sent : s.write_at ≡ WriteAt.sends → t ≡ record s { write_at = WriteAt.checks } → WriteStep s t

pub data Step (s t : System) : Type 0 where
  by_user : UserStep s t → Step s t
  by_reader : ReadStep s t → Step s t
  by_writer : WriteStep s t → Step s t

-- A client that was not connected yet.
abbrev pub at_rest : System
at_rest = record {
  holder = none;
  linked = false;
  stop = false;
  queued = false;
  missed = false;
  user_at = UserAt.idle;
  read_at = ReadAt.absent;
  write_at = WriteAt.absent;
}

pub data Reach (s : System) : System → Type 0 where
  here : Reach s s
  next : {t u : System} → Reach s t → Step t u → Reach s u
