-- ===== src/SyncHandler.antt =====
-- bas/sync_handler.hpp: blocking calls over the asynchronous operations of one socket. The state is
-- the handler's, the ready handlers of its io service, the socket operations and the timer's wait that
-- are under way, and the thread that calls. The io service is run by one thread, as those of
-- bas/io_service_pool.hpp are, so that the ready handlers are run in order.
pub mod Tasks
pub mod Calls
pub mod Waiting
pub mod Frame
pub mod History
pub mod Progress
use baserver.Base.{ℕ, Bool, true, false, List, [], ◌∷◌, ◌++◌, map, Option, none, some}
use baserver.ErrorCode.{ErrorCode, success, operation_aborted, shut_down}
use baserver.IoBuffer.{IoBuffer, new}

pub record SyncHandler : Type 0 where
  pub buffer : IoBuffer
  pub waiting : Bool
  pub opened : Bool
  pub duplex : Bool
  pub ec : ErrorCode
  pub pending : Bool
  pub bytes_transferred : ℕ

-- A socket operation that is under way, with the number of bytes that it asks for.
pub data Transfer : Type 0 where
  connecting : Transfer
  reading_some reading writing : ℕ → Transfer

-- What the io service runs. `connect_i` has the result of opening and binding the socket to the local
-- endpoint, if there is one.
pub data Task : Type 0 where
  close_i write_read_i : Task
  connect_i : Bool → Option ErrorCode → Task
  read_some_i read_i write_i : ℕ → Task
  handle_connect handle_timeout : ErrorCode → Task
  handle_read_write : ErrorCode → ℕ → Task

-- The thread that calls: not in a call, in the condition's wait, or after it.
pub data Caller : Type 0 where
  outside waits woken : Caller

pub record System : Type 0 where
  pub handler : SyncHandler
  pub tasks : List Task
  pub transfers : List Transfer
  pub timer_waits : Bool
  pub caller : Caller

-- `new sync_handler(…)`.
unfoldable pub make : ℕ → System
make buffer_size = record {
  handler = record {
    buffer = new buffer_size;
    waiting = false;
    opened = false;
    duplex = false;
    ec = shut_down;
    pending = false;
    bytes_transferred = 0;
  };
  tasks = [];
  transfers = [];
  timer_waits = false;
  caller = Caller.outside;
}

unfoldable pub post : Task → System → System
post t s = record s { tasks = s.tasks ++ t ∷ [] }

abbrev pub notified : Caller → Caller
notified Caller.outside = Caller.outside
notified Caller.waits = Caller.woken
notified Caller.woken = Caller.woken

-- `notify_i()`: without a thread in the wait, the notification is lost.
unfoldable pub notify_i : System → System
notify_i s = record s { caller = notified s.caller }

-- The handler of an operation that is cancelled.
abbrev pub aborted : Transfer → Task
aborted Transfer.connecting = handle_connect operation_aborted
aborted (Transfer.reading_some n) = handle_read_write operation_aborted 0
aborted (Transfer.reading n) = handle_read_write operation_aborted 0
aborted (Transfer.writing n) = handle_read_write operation_aborted 0

-- `close_socket()`, which cancels the socket's operations.
unfoldable pub close_socket : System → System
close_socket s = record s {
  handler = record (s.handler) { opened = false };
  tasks = s.tasks ++ map aborted s.transfers;
  transfers = [];
}

abbrev pub cancelled_wait : Bool → List Task
cancelled_wait true = handle_timeout operation_aborted ∷ []
cancelled_wait false = []

-- `set_timer()`, which cancels a wait of the timer and starts another.
unfoldable pub set_timer : System → System
set_timer s = record s {
  handler = record (s.handler) { ec = success; bytes_transferred = 0; pending = true };
  tasks = s.tasks ++ cancelled_wait s.timer_waits;
  timer_waits = true;
}

unfoldable pub clear_timer : System → System
clear_timer s = record s {
  handler = record (s.handler) { pending = false };
  tasks = s.tasks ++ cancelled_wait s.timer_waits;
  timer_waits = false;
}

unfoldable pub start_transfer : Transfer → System → System
start_transfer o s = record s { transfers = s.transfers ++ o ∷ [] }
