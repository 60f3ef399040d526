-- ===== src/Tests/Handlers.antt =====
-- Tests of the handler of bas/service_handler.hpp.
use baserver.Base.{
  if◌then◌else◌, ◌≡◌, refl, List, [], ◌∷◌, ok, Returns, ◌>>=◌, Bool, true, Option, some, none,
  sub_word,
}
use baserver.ErrorCode.{success, eof, invalid_argument}
use baserver.ServiceHandler.{
  Handler, System, Callback, on_close, IoTask, WorkTask, do_close, Socket, usable, closed,
  Operation, connecting, make, bind, dispatch, post, start_operation, call, set_session_expiry,
  set_io_expiry, cancel_io_expiry, close, start, shut_down, run_close_i,
}
use baserver.ServiceHandler.Calls.{
  async_read_some, run_io_task, run_work_task, run_completion, on_socket, open_socket,
  start_connect, bind_connect, run_connect_i, run_operation_i, handle_transfer, unless_stopped,
  run_do_close,
}
use baserver.IoBuffer.{new, space, capacity, clear as clear_buffer}
use baserver.ServiceHandler.Steps.{
  Event, starts, closes, connects, runs_work, reads_some, runs_io, completes, remove_at, step, run,
}
use baserver.ServiceHandler.Session.{Session}
use baserver.ServiceHandler.Releasing.{run-bind-Releases}
use baserver.ServiceHandler.Draining.{Closed, close_and_drain, run-close_and_drain}

abbrev fresh : Handler
fresh = make 256 0 0 0

-- The connection opens, reads, and is closed by the peer; the read's task comes too late.
abbrev session : List Event
session =
    starts
    ∷ runs_work 0
    ∷ reads_some
    ∷ runs_io 0
    ∷ completes 0 success 12
    ∷ reads_some
    ∷ runs_io 0
    ∷ completes 0 eof 0
    ∷ runs_work 0
    ∷ runs_work 0
    ∷ []

program : Unit {0}
unfolding make bind dispatch post start_operation call set_session_expiry set_io_expiry
    cancel_io_expiry close start shut_down run_close_i async_read_some run_io_task run_work_task
    run_completion on_socket open_socket start_connect bind_connect run_connect_i run_operation_i
    handle_transfer unless_stopped run_do_close new space capacity remove_at step run sub_word
    clear_buffer
program = tt

-- The bytes that were read before the peer closed are not delivered: their task finds the handler
-- stopped.
session_calls :
    (run session (bind 1 2 fresh) >>= λ s. ok s.callbacks)
    ≡ ok (on_close eof ∷ Callback.on_open ∷ Callback.on_clear ∷ [])
unfolding program
session_calls = refl

-- The handler has been stopped by the peer, and its close is not called yet.
abbrev closing : System
closing = record {
  handler = record fresh {
    stopped = true;
    socket = some closed;
    io_service = some 1;
    work_service = some 2;
  };
  io_tasks = IoTask.read_some_i 256 ∷ [];
  work_tasks = WorkTask.do_read 12 ∷ do_close eof ∷ [];
  operations = [];
  callbacks = Callback.on_clear ∷ [];
}

-- A session opens, a connect is posted, and the close comes last.
run-close_and_drain_example :
    Returns (run (starts ∷ connects none ∷ []) (bind 1 2 fresh) >>= close_and_drain eof) Closed
run-close_and_drain_example = run-close_and_drain 1 2 fresh (starts ∷ connects none ∷ []) eof

-- A session without a connect is opened, and closed twice.
run-bind-Releases_example :
    Returns
      (run (starts ∷ closes eof ∷ runs_io 0 ∷ closes eof ∷ runs_work 0 ∷ []) (bind 1 2 fresh))
      (λ t. t.handler.socket ≡ some (if t.handler.stopped then closed else usable))
run-bind-Releases_example =
    run-bind-Releases 1 2 fresh (starts ∷ closes eof ∷ runs_io 0 ∷ closes eof ∷ runs_work 0 ∷ [])
      (tt, (tt, (tt, (tt, (tt, tt)))))

-- A connect that is run after the close opens the socket of the stopped handler again.
abbrev reconnects : List Event
reconnects = closes eof ∷ connects none ∷ runs_io 0 ∷ runs_io 0 ∷ []

abbrev outcome : System → Bool × (Option Socket × List Operation)
outcome s = (s.handler.stopped, (s.handler.socket, s.operations))

reopened :
    (run reconnects (bind 1 2 fresh) >>= λ s. ok (outcome s))
    ≡ ok (true, (some usable, connecting ∷ []))
unfolding program
reopened = refl

-- If the open of its local endpoint fails, the socket stays closed.
still_closed :
    (run
        (closes eof ∷ connects (some (invalid_argument, success)) ∷ runs_io 0 ∷ runs_io 0 ∷ [])
        (bind 1 2 fresh)
      >>= λ s. ok (outcome s))
    ≡ ok (true, (some closed, []))
unfolding program
still_closed = refl
