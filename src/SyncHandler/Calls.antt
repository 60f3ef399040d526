-- ===== src/SyncHandler/Calls.antt =====
-- bas/sync_handler.hpp: the blocking calls, and what can happen between two of their steps.
use baserver.Base.{
  ℕ, ◌==◌, ltb, Bool, true, false, if◌then◌else◌, ◌&&◌, ◌||◌, not, List, [], ◌∷◌, Option, none,
  some,
}
use baserver.ErrorCode.{ErrorCode, is_success, success, already_started, invalid_argument}
use baserver.IoBuffer.{IoBuffer, size, space, empty}
use baserver.ServiceHandler.Steps.{remove_at}
use baserver.SyncHandler.{
  System, Transfer, Task, Caller, close_i, write_read_i, connect_i, read_some_i, read_i, write_i,
  handle_connect, handle_timeout, handle_read_write, post, notified,
}
use baserver.SyncHandler.Tasks.{run_task}

-- What a call does before it waits: it has posted its task, or returns.
pub data Outcome : Type 0 where
  blocks : Outcome
  returns : ErrorCode → Outcome

-- The common part of the calls: the task is posted, and the thread waits.
unfoldable pub submit : Task → System → Outcome × System
submit t s = if s.handler.waiting then (returns already_started, s) else (
  blocks,
  record (post t s) { handler = record (s.handler) { waiting = true }; caller = Caller.waits },
)

unfoldable pub connect : Bool → Option ErrorCode → System → Outcome × System
connect reconnect bound s =
    if s.handler.waiting
    then (returns already_started, s)
    else (if is_success s.handler.ec && (s.handler.opened && not reconnect)
        then (returns s.handler.ec, s)
        else submit (connect_i reconnect bound) s)

unfoldable pub read_some : System → Outcome × System
read_some s =
    let n = space s.handler.buffer in
    if n == 0 then (returns invalid_argument, s) else submit (read_some_i n) s

unfoldable pub read : System → Outcome × System
read s =
    let n = space s.handler.buffer in
    if n == 0 then (returns invalid_argument, s) else submit (read_i n) s

unfoldable pub read_length : ℕ → System → Outcome × System
read_length length s =
    if (length == 0) || ltb (space s.handler.buffer) length
    then (returns invalid_argument, s)
    else submit (read_i length) s

unfoldable pub write : System → Outcome × System
write s =
    if empty s.handler.buffer
    then (returns invalid_argument, s)
    else submit (write_i (size s.handler.buffer)) s

unfoldable pub write_length : ℕ → System → Outcome × System
write_length length s =
    if (length == 0) || ltb (size s.handler.buffer) length
    then (returns invalid_argument, s)
    else submit (write_i length) s

unfoldable pub write_read : System → Outcome × System
write_read s =
    if empty s.handler.buffer then (returns invalid_argument, s) else submit write_read_i s

-- `close()`, from any thread.
unfoldable pub close : System → System
close s = post close_i s

-- What can happen: a call, a change of the buffer by its user, the end of a call that has been woken, a wake-up without a notification,
-- a close, the run of the next ready handler, the completion of an operation, the timer's expiry.
pub data Event : Type 0 where
  connects : Bool → Option ErrorCode → Event
  reads_some reads writes writes_reads closes resumes wakes runs expires : Event
  reads_length writes_length : ℕ → Event
  reads_some_to reads_to writes_from : ℕ → Event
  completes : ℕ → ErrorCode → ℕ → Event
  edits : IoBuffer → Event

abbrev pub completion : Transfer → ErrorCode → ℕ → Task
completion Transfer.connecting ec n = handle_connect ec
completion (Transfer.reading_some _) ec n = handle_read_write ec n
completion (Transfer.reading _) ec n = handle_read_write ec n
completion (Transfer.writing _) ec n = handle_read_write ec n

-- The call's last lines, after the wait.
unfoldable pub resume : System → System
resume s = elim s.caller [
  | Caller.woken ↦ record s {
    handler = record (s.handler) { waiting = false };
    caller = Caller.outside;
  }
  | Caller.waits ↦ s
  | Caller.outside ↦ s
]

unfoldable pub run_next : System → System
run_next s = elim s.tasks [ [] ↦ s | t ∷ rest ↦ run_task t (record s { tasks = rest }) ]

unfoldable pub expire : System → System
expire s =
    if s.timer_waits then record (post (handle_timeout success) s) { timer_waits = false } else s

unfoldable pub complete : ℕ → ErrorCode → ℕ → System → System
complete i ec n s = elim (remove_at i s.transfers) [
  | none ↦ s
  | some (o, rest) ↦ post (completion o ec n) (record s { transfers = rest })
]

unfoldable pub step : Event → System → System
step (connects reconnect bound) s = (connect reconnect bound s).1
step reads_some s = (read_some s).1
step reads s = (read s).1
step writes s = (write s).1
step writes_reads s = (write_read s).1
step (reads_length n) s = (read_length n s).1
step (writes_length n) s = (write_length n s).1
step (reads_some_to n) s = (submit (read_some_i n) s).1
step (reads_to n) s = (submit (read_i n) s).1
step (writes_from n) s = (submit (write_i n) s).1
step closes s = close s
step resumes s = resume s
step wakes s = record s { caller = notified s.caller }
step (edits b) s = record s { handler = record (s.handler) { buffer = b } }
step runs s = run_next s
step expires s = expire s
step (completes i ec n) s = complete i ec n s

unfoldable pub run : List Event → System → System
run [] s = s
run (e ∷ es) s = run es (step e s)
