-- ===== src/SyncHandler/Tasks.antt =====
-- bas/sync_handler.hpp: the methods that the io service's thread runs.
use baserver.Base.{ℕ, ◌==◌, Bool, true, false, if◌then◌else◌, ◌&&◌, ◌||◌, not, Option, none, some}
use baserver.ErrorCode.{ErrorCode, is_success, is_aborted, operation_aborted, timed_out, shut_down}
use baserver.IoBuffer.{size, space, clear}
use baserver.SyncHandler.{
  System, Transfer, Task, close_i, write_read_i, connect_i, read_some_i, read_i, write_i,
  handle_connect, handle_timeout, handle_read_write, notify_i, close_socket, set_timer, clear_timer,
  start_transfer,
}

-- The end of `connect_i`.
unfoldable pub start_connect : System → System
start_connect s = start_transfer Transfer.connecting (set_timer s)

-- `connect_i` after its test of `opened_`: the socket is opened and bound to a local endpoint if there
-- is one.
unfoldable pub bind_connect : Option ErrorCode → System → System
bind_connect none s = start_connect s
bind_connect (some ec) s =
    let t = record s { handler = record (s.handler) { ec = ec } } in
    if is_success ec then start_connect t else notify_i (close_socket t)

unfoldable pub run_connect_i : Bool → Option ErrorCode → System → System
run_connect_i reconnect bound s =
    if s.handler.opened
    then (if reconnect then bind_connect bound (close_socket s) else notify_i s)
    else bind_connect bound s

-- `read_some_i`, `read_i`, `write_i` and `write_read_i`, which differ in the operation and the flag.
unfoldable pub run_transfer_i : Bool → Transfer → System → System
run_transfer_i duplex o s =
    if s.handler.opened
    then start_transfer o
        (set_timer (record s { handler = record (s.handler) { duplex = duplex } }))
    else notify_i s

unfoldable pub run_handle_connect : ErrorCode → System → System
run_handle_connect ec s =
    if not (is_success s.handler.ec)
    then s
    else (let t = clear_timer s in
        let u = if is_success ec then t else close_socket t in
        notify_i (record u { handler = record (u.handler) { opened = is_success ec; ec = ec } }))

-- The result of a transfer that is not followed by another.
unfoldable pub set_result : ErrorCode → ℕ → System → System
set_result ec n s =
    if s.handler.duplex
    then record s {
      handler = record (s.handler) {
        bytes_transferred = 0;
        ec = if is_success ec then operation_aborted else ec;
      };
    }
    else record s { handler = record (s.handler) { bytes_transferred = n; ec = ec } }

-- The second part of `handle_read_write`: after the whole buffer has been written, it is read.
unfoldable pub finish_transfer : ErrorCode → ℕ → System → System
finish_transfer ec n s =
    if s.handler.duplex && (is_success ec && (n == size s.handler.buffer))
    then (let t = record s { handler = record (s.handler) { buffer = clear s.handler.buffer } } in
        run_transfer_i false (Transfer.reading_some (space t.handler.buffer)) t)
    else notify_i (set_result ec n s)

unfoldable pub run_handle_read_write : ErrorCode → ℕ → System → System
run_handle_read_write ec n s =
    if not s.handler.opened || not (is_success s.handler.ec)
    then s
    else (let t = clear_timer s in
        finish_transfer ec n (if is_success ec then t else close_socket t))

unfoldable pub run_handle_timeout : ErrorCode → System → System
run_handle_timeout ec s =
    if not (is_success s.handler.ec) || (not s.handler.pending || is_aborted ec)
    then s
    else (let t = close_socket s in
        notify_i (record t { handler = record (t.handler) { ec = timed_out } }))

-- `close_i()`.
unfoldable pub shut : System → System
shut s = record s { handler = record (s.handler) { bytes_transferred = 0; ec = shut_down } }

unfoldable pub run_close_i : System → System
run_close_i s =
    if s.handler.pending || s.handler.opened
    then notify_i (shut (close_socket (clear_timer s)))
    else shut s

unfoldable pub run_task : Task → System → System
run_task close_i s = run_close_i s
run_task write_read_i s = run_transfer_i true (Transfer.writing (size s.handler.buffer)) s
run_task (connect_i reconnect bound) s = run_connect_i reconnect bound s
run_task (read_some_i n) s = run_transfer_i false (Transfer.reading_some n) s
run_task (read_i n) s = run_transfer_i false (Transfer.reading n) s
run_task (write_i n) s = run_transfer_i false (Transfer.writing n) s
run_task (handle_connect ec) s = run_handle_connect ec s
run_task (handle_timeout ec) s = run_handle_timeout ec s
run_task (handle_read_write ec n) s = run_handle_read_write ec n s
