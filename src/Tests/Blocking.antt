-- ===== src/Tests/Blocking.antt =====
-- Tests of the handler of bas/sync_handler.hpp.
use baserver.Base.{◌≡◌, refl, List, [], ◌∷◌, Bool, false, none, sub_word}
use baserver.ErrorCode.{ErrorCode, success, shut_down, eof, timed_out, operation_aborted}
use baserver.IoBuffer.{IoBuffer, new, size, space, capacity, clear, empty}
use baserver.ServiceHandler.Steps.{remove_at}
use baserver.SyncHandler.{
  System, Task, Caller, connect_i, handle_timeout, handle_read_write, make, post, notify_i,
  close_socket, set_timer, clear_timer, start_transfer,
}
use baserver.SyncHandler.Tasks.{
  start_connect, bind_connect, run_connect_i, run_transfer_i, run_handle_connect, set_result,
  finish_transfer, run_handle_read_write, run_handle_timeout, shut, run_close_i, run_task,
}
use baserver.SyncHandler.Calls.{
  submit, connect, read_some, read, read_length, write, write_length, write_read, close, Event,
  connects, reads_some, writes_reads, closes, resumes, runs, expires, completes, edits, resume,
  run_next, expire, complete, step, run,
}
use baserver.SyncHandler.Progress.{Wakes, run-Wakes}

program : Unit {0}
unfolding new size space capacity clear empty sub_word remove_at make post notify_i close_socket
    set_timer clear_timer start_transfer start_connect bind_connect run_connect_i run_transfer_i
    run_handle_connect set_result finish_transfer run_handle_read_write run_handle_timeout shut
    run_close_i run_task submit connect read_some read read_length write write_length write_read
    close resume run_next expire complete step run
program = tt

-- The connection is made, and a read is asked for.
abbrev reading : List Event
reading =
    connects false none
    ∷ runs
    ∷ completes 0 success 0
    ∷ runs
    ∷ resumes
    ∷ reads_some
    ∷ runs
    ∷ runs
    ∷ []

run-Wakes_example : Wakes (run reading (make 16))
run-Wakes_example = run-Wakes reading 16

reading_waits : (run reading (make 16)).caller ≡ Caller.waits
unfolding program
reading_waits = refl

abbrev summary : System → ErrorCode × (Bool × (List Task × Caller))
summary s = (s.handler.ec, (s.handler.opened, (s.tasks, s.caller)))

-- The peer has closed the connection when the read completes.
read_eof :
    summary (run (completes 0 eof 0 ∷ runs ∷ resumes ∷ []) (run reading (make 16)))
    ≡ (eof, (false, (handle_timeout operation_aborted ∷ [], Caller.outside)))
unfolding program
read_eof = refl

-- Nothing comes, and the timer expires.
read_timed_out :
    summary (run (expires ∷ runs ∷ resumes ∷ []) (run reading (make 16)))
    ≡ (timed_out, (false, (handle_read_write operation_aborted 0 ∷ [], Caller.outside)))
unfolding program
read_timed_out = refl

-- A close stands before the read in the queue: its notification ends the read, and that of the read
-- ends the call after it, which returns while its own task is still in the queue.
abbrev closed_first : List Event
closed_first =
    connects false none
    ∷ runs
    ∷ completes 0 success 0
    ∷ runs
    ∷ runs
    ∷ resumes
    ∷ closes
    ∷ reads_some
    ∷ runs
    ∷ resumes
    ∷ connects false none
    ∷ runs
    ∷ resumes
    ∷ []

connect_too_early :
    summary (run closed_first (make 16))
    ≡ (shut_down, (false, (connect_i false none ∷ [], Caller.outside)))
unfolding program
connect_too_early = refl

abbrev four_bytes : IoBuffer
four_bytes = record { begin_offset = 0; end_offset = 4; buffer = 1 ∷ 2 ∷ 3 ∷ 4 ∷ [] }

-- The timer of the write expires just before the write completes, so that the expiry is handled when
-- the read has begun: the read is ended as timed out.
abbrev late_expiry : List Event
late_expiry =
    connects false none
    ∷ runs
    ∷ completes 0 success 0
    ∷ runs
    ∷ runs
    ∷ resumes
    ∷ edits four_bytes
    ∷ writes_reads
    ∷ runs
    ∷ completes 0 success 4
    ∷ expires
    ∷ runs
    ∷ runs
    ∷ resumes
    ∷ []

read_timed_out_at_once :
    summary (run late_expiry (make 16))
    ≡ (timed_out, (false, (handle_read_write operation_aborted 0 ∷ [], Caller.outside)))
unfolding program
read_timed_out_at_once = refl
