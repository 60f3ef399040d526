-- ===== src/ServiceHandler.antt =====
-- bas/service_handler.hpp: the handler of one connection. Its methods leave tasks with the io
-- service and the work service, start asynchronous operations on the socket and the timers, and
-- call the work handler. Which task runs next, what an operation completes with, and which thread
-- calls a public method when, is the environment's choice.
pub mod Calls
pub mod Steps
pub mod Session
pub mod Lifecycle
pub mod Closing
pub mod Draining
pub mod Shutting
pub mod Releasing
use baserver.Base.{
  ℕ, suc, zero, ◌+◌, ◌==◌, ltb, leb, if◌then◌else◌, Bool, true, false, not, ◌&&◌, ◌||◌, List, [],
  ◌∷◌, ◌++◌, Option, none, some, Run, ok, fault, assertion, ◌>>=◌,
}
use baserver.ErrorCode.{ErrorCode, is_success, is_aborted, success, no_buffer_space, timed_out}
use baserver.IoBuffer
use baserver.IoBuffer.{IoBuffer}

-- `event_t`: the user's states are numbers from 1000.
pub data EventState : Type 0 where
  no_state open_state read_state write_state write_read_state close_state notify_state : EventState
  user_state : ℕ → EventState

pub record HandlerEvent : Type 0 where
  pub state : EventState
  pub value : ℕ
  pub ec : ErrorCode

-- The socket and the timers, as far as the handler can tell them apart.
pub data Socket : Type 0 where
  usable closed : Socket

pub data Timer : Type 0 where
  idle waiting : Timer

pub record Handler : Type 0 where
  pub socket : Option Socket
  pub session_timer : Option Timer
  pub session_timeout : ℕ
  pub io_timer : Option Timer
  pub io_timeout : ℕ
  pub io_service : Option ℕ
  pub work_service : Option ℕ
  pub stopped : Bool
  pub read_buffer : IoBuffer
  pub write_buffer : IoBuffer

-- What the socket's open and its bind give to `connect_i`, if it is called with a local endpoint.
abbrev pub Bound : Type 0
Bound = Option (ErrorCode × ErrorCode)

-- What is dispatched to the io service: the methods named `_i`.
pub data IoTask : Type 0 where
  close_i : ErrorCode → IoTask
  connect_i : Bound → IoTask
  read_some_i read_i write_i : ℕ → IoTask

-- What is posted to the work service.
pub data WorkTask : Type 0 where
  do_open : WorkTask
  do_read do_write : ℕ → WorkTask
  do_parent do_child : HandlerEvent → WorkTask
  do_close : ErrorCode → WorkTask

-- The asynchronous operations that have been started, with the number of bytes they ask for.
pub data Operation : Type 0 where
  connecting timing : Operation
  reading writing : ℕ → Operation

-- The calls of the work handler.
pub data Callback : Type 0 where
  on_clear on_open : Callback
  on_read on_write : ℕ → Callback
  on_parent on_child : HandlerEvent → Callback
  on_close : ErrorCode → Callback

-- One handler, with what it has left to run and what it has called, the latest first.
pub record System : Type 0 where
  pub handler : Handler
  pub io_tasks : List IoTask
  pub work_tasks : List WorkTask
  pub operations : List Operation
  pub callbacks : List Callback

abbrev pub is_none {ℓ} : {A : Type ℓ} → Option A → Bool
is_none none = true
is_none (some a) = false

-- `io_service().dispatch(…)` and `work_service().post(…)`, behind their assertions.
unfoldable pub dispatch : IoTask → System → Run System
dispatch t s =
    if is_none s.handler.io_service
    then fault assertion
    else ok (record s { io_tasks = s.io_tasks ++ t ∷ [] })

unfoldable pub post : WorkTask → System → Run System
post t s =
    if is_none s.handler.work_service
    then fault assertion
    else ok (record s { work_tasks = s.work_tasks ++ t ∷ [] })

unfoldable pub start_operation : Operation → System → System
start_operation o s = record s { operations = s.operations ++ o ∷ [] }

unfoldable pub call : Callback → System → System
call c s = record s { callbacks = c ∷ s.callbacks }

-- `new service_handler(…)`.
unfoldable pub make : ℕ → ℕ → ℕ → ℕ → Handler
make read_buffer_size write_buffer_size session_timeout io_timeout = record {
  socket = none;
  session_timer = none;
  session_timeout = session_timeout;
  io_timer = none;
  io_timeout = io_timeout;
  io_service = none;
  work_service = none;
  stopped = true;
  read_buffer = IoBuffer.new read_buffer_size;
  write_buffer = IoBuffer.new write_buffer_size;
}

abbrev timer_for : ℕ → Option Timer → Option Timer
timer_for timeout old = if timeout == 0 then old else some idle

-- `bind(…)`, with the handler's references to itself gone: no task or operation is left.
unfoldable pub bind : ℕ → ℕ → Handler → System
bind io_service work_service h = record {
  handler = record h {
    stopped = false;
    socket = some usable;
    session_timer = timer_for h.session_timeout h.session_timer;
    io_timer = timer_for h.io_timeout h.io_timer;
    io_service = some io_service;
    work_service = some work_service;
    read_buffer = IoBuffer.clear h.read_buffer;
    write_buffer = IoBuffer.clear h.write_buffer;
  };
  io_tasks = [];
  work_tasks = [];
  operations = [];
  callbacks = on_clear ∷ [];
}

-- `clear()`, when the handler goes back to its pool.
unfoldable pub clear : Handler → Handler
clear h = record h {
  socket = none;
  io_service = none;
  work_service = none;
  read_buffer = IoBuffer.clear h.read_buffer;
  write_buffer = IoBuffer.clear h.write_buffer;
}

-- `set_session_expiry()`, and `set_io_expiry()` below.
unfoldable pub set_session_expiry : System → System
set_session_expiry s =
    if (s.handler.session_timeout == 0) || is_none s.handler.session_timer
    then s
    else start_operation timing
        (record s { handler = record (s.handler) { session_timer = some waiting } })

unfoldable pub set_io_expiry : System → System
set_io_expiry s =
    if (s.handler.io_timeout == 0) || is_none s.handler.io_timer
    then s
    else start_operation timing
        (record s { handler = record (s.handler) { io_timer = some waiting } })

abbrev cancelled : Option Timer → Option Timer
cancelled none = none
cancelled (some t) = some idle

unfoldable pub cancel_io_expiry : System → System
cancel_io_expiry s = record s {
  handler = record (s.handler) { io_timer = cancelled s.handler.io_timer };
}

-- `close(ec)`, from any thread.
unfoldable pub close : ErrorCode → System → Run System
close ec s = if s.handler.stopped then ok s else dispatch (close_i ec) s

-- `start()`.
unfoldable pub start : System → Run System
start s =
    if is_none s.handler.socket || (is_none s.handler.io_service || is_none s.handler.work_service)
    then fault assertion
    else post do_open (set_session_expiry s)

-- The handler's flag, its socket's shutdown and close, and its timers' cancellation in `close_i`.
unfoldable pub shut_down : System → System
shut_down s = record s {
  handler = record (s.handler) {
    stopped = true;
    socket = some closed;
    session_timer = cancelled s.handler.session_timer;
    io_timer = cancelled s.handler.io_timer;
  };
}

-- `close_i(ec)`, in an io service thread.
unfoldable pub run_close_i : ErrorCode → System → Run System
run_close_i ec s =
    if s.handler.stopped
    then ok s
    else if is_none s.handler.socket
    then fault assertion
    else post (do_close ec) (shut_down s)
