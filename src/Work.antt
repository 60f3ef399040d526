-- ===== src/Work.antt =====
-- bastool/server_work.hpp and bastool/client_work.hpp: the work handlers that a business object drives
-- by a state code. A work handler's state is its own with the read buffer of its service handler; its
-- calls of service handlers and of the client are a list, the latest last. An address is a number.
pub mod Buffers
pub mod ServerWork
pub mod ClientWork
pub mod Echo
pub mod Proxy
pub mod Relay
use baserver.Base.{ℕ, Bool, List, [], ◌∷◌, ◌++◌, Option, length, Run, ok, ◌>>=◌}
use baserver.ErrorCode.{ErrorCode, success}
use baserver.IoBuffer.{IoBuffer, copy_to, produce, size, clear}
use baserver.ServiceHandler.{HandlerEvent, EventState}

pub data StateCode : Type 0 where
  no_code do_read do_write do_close : StateCode
  do_client_open do_client_read do_client_write do_client_write_read do_client_close : StateCode
  on_open on_read on_write on_close : StateCode
  on_client_open on_client_read on_client_write on_client_close on_notify : StateCode
  other_code : ℕ → StateCode

pub record Status : Type 0 where
  pub state : StateCode
  pub bytes_transferred : ℕ
  pub ec : ErrorCode
  pub peer_endpoint : ℕ
  pub local_endpoint : ℕ
  pub remote_endpoint : ℕ
  pub child_endpoint : ℕ

-- `status_t::clear`, where 0 is the default endpoint, and `status_t::set`.
abbrev pub no_status : Status
no_status = record {
  state = StateCode.no_code;
  bytes_transferred = 0;
  ec = success;
  peer_endpoint = 0;
  local_endpoint = 0;
  remote_endpoint = 0;
  child_endpoint = 0;
}

unfoldable pub set_status : StateCode → ℕ → ErrorCode → Status → Status
set_status s b e status = record status { state = s; bytes_transferred = b; ec = e }

-- The calls of a work handler.
pub data WorkCall : Type 0 where
  async_read_some closes : WorkCall
  async_write : List ℕ → WorkCall
  parent_post child_post : HandlerEvent → WorkCall
  connects : ℕ → ℕ → WorkCall

-- `event_t(state, value, ec)`.
abbrev pub make_event : EventState → ℕ → ErrorCode → HandlerEvent
make_event s v e = record { state = s; value = v; ec = e }

-- `process(status, input, output)` of a business object: the status and the output that it leaves. The
-- object is the template's argument; it leaves the input as it is, unless it is the output.
abbrev pub Process : Type 0
Process = Status → IoBuffer → IoBuffer → Run (Status × IoBuffer)

-- `clear()`, `memcpy` to `data()` and `produce(…)`.
unfoldable pub load : List ℕ → IoBuffer → Run IoBuffer
load bytes b = do
  v ← copy_to 0 bytes b.buffer
  produce (length bytes) (record (clear b) { buffer = v })

-- The socket has written the bytes behind the unread ones: `data() + size()`.
unfoldable pub receive : List ℕ → IoBuffer → Run IoBuffer
receive bytes b = do v ← copy_to b.end_offset bytes b.buffer; ok (record b { buffer = v })
