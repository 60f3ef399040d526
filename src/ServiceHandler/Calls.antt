-- ===== src/ServiceHandler/Calls.antt =====
-- bas/service_handler.hpp: the public methods that start asynchronous operations, the methods that
-- the io service runs, and those that the work service runs.
use baserver.Base.{ℕ, ◌==◌, ltb, if◌then◌else◌, ◌||◌, none, some, Run, ok, fault, assertion}
use baserver.ErrorCode.{ErrorCode, is_success, is_aborted, no_buffer_space, timed_out}
use baserver.IoBuffer
use baserver.ServiceHandler.{
  HandlerEvent, Bound, usable, IoTask, read_some_i, read_i, write_i, WorkTask, do_read, do_write,
  do_parent, do_child, Operation, connecting, reading, writing, Callback, on_open, on_read,
  on_write, on_parent, on_child, on_close, System, is_none, dispatch, post, start_operation, call,
  set_session_expiry, set_io_expiry, cancel_io_expiry, close, start, run_close_i,
}

-- `async_read_some()`: as much as the read buffer has room for.
unfoldable pub async_read_some : System → Run System
async_read_some s =
    let room = IoBuffer.space s.handler.read_buffer in
    if room == 0 then close no_buffer_space s else dispatch (read_some_i room) s

-- `async_read(length)`.
unfoldable pub async_read : ℕ → System → Run System
async_read n s =
    if (n == 0) || ltb (IoBuffer.space s.handler.read_buffer) n
    then close no_buffer_space s
    else dispatch (read_i n) s

-- `async_write()`: all the unread bytes of the write buffer.
unfoldable pub async_write : System → Run System
async_write s =
    if IoBuffer.empty s.handler.write_buffer
    then close no_buffer_space s
    else dispatch (write_i (IoBuffer.size s.handler.write_buffer)) s

-- `async_write(length)`.
unfoldable pub async_write_length : ℕ → System → Run System
async_write_length n s =
    if (n == 0) || ltb (IoBuffer.size s.handler.write_buffer) n
    then close no_buffer_space s
    else dispatch (write_i n) s

-- `parent_post(event)` and `child_post(event)`.
unfoldable pub parent_post : HandlerEvent → System → Run System
parent_post e s = post (do_parent e) s

unfoldable pub child_post : HandlerEvent → System → Run System
child_post e s = post (do_child e) s

-- `socket()`, where an operation is started on it.
unfoldable pub on_socket : Operation → System → Run System
on_socket o s = if is_none s.handler.socket then fault assertion else ok (start_operation o s)

-- The socket's `open`.
unfoldable pub open_socket : System → System
open_socket s = record s { handler = record (s.handler) { socket = some usable } }

-- The end of `connect_i`. `async_connect` opens the socket, if it is closed, whether the handler is
-- stopped or not; that open is taken to succeed.
unfoldable pub start_connect : System → Run System
start_connect s = on_socket connecting (open_socket (set_io_expiry (set_session_expiry s)))

-- `connect_i(…)` after its assertions.
unfoldable pub bind_connect : Bound → System → Run System
bind_connect none s = start_connect s
bind_connect (some (opened, bound)) s =
    if is_success opened
    then (if is_success bound
        then start_connect (open_socket s)
        else run_close_i bound (open_socket s))
    else run_close_i opened s

unfoldable pub run_connect_i : Bound → System → Run System
run_connect_i bound s =
    if is_none s.handler.socket || (is_none s.handler.io_service || is_none s.handler.work_service)
    then fault assertion
    else bind_connect bound s

-- `async_read_some_i`, `async_read_i` and `async_write_i` are this at their operations.
unfoldable pub run_operation_i : Operation → System → Run System
run_operation_i o s = if s.handler.stopped then ok s else on_socket o (set_io_expiry s)

unfoldable pub run_io_task : IoTask → System → Run System
run_io_task (IoTask.close_i ec) s = run_close_i ec s
run_io_task (IoTask.connect_i bound) s = run_connect_i bound s
run_io_task (IoTask.read_some_i n) s = run_operation_i (reading n) s
run_io_task (IoTask.read_i n) s = run_operation_i (reading n) s
run_io_task (IoTask.write_i n) s = run_operation_i (writing n) s

-- `handle_connect`, `handle_read` and `handle_write`: an operation has completed.
unfoldable pub handle_connect : ErrorCode → System → Run System
handle_connect ec s =
    if s.handler.stopped
    then ok s
    else if is_success ec
    then start (cancel_io_expiry s)
    else run_close_i ec (cancel_io_expiry s)

unfoldable pub handle_transfer : WorkTask → ErrorCode → System → Run System
handle_transfer t ec s =
    if s.handler.stopped
    then ok s
    else if is_success ec
    then post t (cancel_io_expiry s)
    else run_close_i ec (cancel_io_expiry s)

unfoldable pub handle_timeout : ErrorCode → System → Run System
handle_timeout ec s =
    if s.handler.stopped || is_aborted ec
    then ok s
    else run_close_i (if is_success ec then timed_out else ec) s

-- The completion of an operation, with its result.
unfoldable pub run_completion : Operation → ErrorCode → ℕ → System → Run System
run_completion Operation.connecting ec n s = handle_connect ec s
run_completion Operation.timing ec n s = handle_timeout ec s
run_completion (Operation.reading _) ec n s = handle_transfer (do_read n) ec s
run_completion (Operation.writing _) ec n s = handle_transfer (do_write n) ec s

-- `do_open`, `do_read`, `do_write`, `do_parent` and `do_child` are this at their callbacks.
unfoldable pub unless_stopped : Callback → System → System
unless_stopped c s = if s.handler.stopped then s else call c s

-- `do_close(ec)`.
unfoldable pub run_do_close : ErrorCode → System → System
run_do_close ec s =
    call (on_close ec)
      (record s { handler = record (s.handler) { session_timer = none; io_timer = none } })

unfoldable pub run_work_task : WorkTask → System → System
run_work_task WorkTask.do_open s = unless_stopped on_open s
run_work_task (WorkTask.do_read n) s = unless_stopped (on_read n) s
run_work_task (WorkTask.do_write n) s = unless_stopped (on_write n) s
run_work_task (WorkTask.do_parent e) s = unless_stopped (on_parent e) s
run_work_task (WorkTask.do_child e) s = unless_stopped (on_child e) s
run_work_task (WorkTask.do_close ec) s = run_do_close ec s
