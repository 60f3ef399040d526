-- ===== src/Work/ServerWork.antt =====
-- bastool/server_work.hpp: the work handler of a server's connection.
use baserver.Base.{
  ℕ, ◌==◌, ltb, Bool, true, false, if◌then◌else◌, List, [], ◌∷◌, ◌++◌, Option, none, some, Run, ok,
  fault, assertion, ◌>>=◌,
}
use baserver.ErrorCode.{ErrorCode, success, no_buffer_space}
use baserver.IoBuffer.{
  IoBuffer, produce, consume, crunch, size, space, unread, clear as clear_buffer,
}
use baserver.ServiceHandler.{HandlerEvent, EventState}
use baserver.Work.{
  StateCode, Status, no_status, set_status, WorkCall, async_read_some, closes, async_write,
  parent_post, child_post, connects, make_event, Process, load,
}

-- `has_client` is whether there is a client object. The child is the client's service handler, of which
-- only the read buffer is used here.
pub record ServerWork : Type 0 where
  pub status : Status
  pub has_client : Bool
  pub child : Option IoBuffer
  pub passive_close : Bool
  pub read_buffer : IoBuffer
  pub calls : List WorkCall

unfoldable pub does : WorkCall → ServerWork → ServerWork
does c w = record w { calls = w.calls ++ c ∷ [] }

-- `on_set_child`, which the client calls when it has a handler.
unfoldable pub on_set_child : IoBuffer → ServerWork → ServerWork
on_set_child b w = record w { passive_close = false; child = some b }

-- The child is told to close, unless it asked for it, and is forgotten.
unfoldable pub drop_child : ErrorCode → ServerWork → ServerWork
drop_child ec w = elim w.child [
  | none ↦ w
  | some b ↦
      let t =
        if w.passive_close
        then w
        else does (parent_post (make_event EventState.close_state 0 ec)) w in
      record t { child = none }
]

-- `client_->connect(…)`, which answers with the read buffer of a new handler, or with no handler.
unfoldable pub connect_child : Option IoBuffer → ServerWork → ServerWork
connect_child answer w =
    let t = does (connects w.status.peer_endpoint w.status.local_endpoint) w in
    elim answer [ none ↦ does closes t | some b ↦ on_set_child b t ]

unfoldable pub do_client_open : Option IoBuffer → ServerWork → ServerWork
do_client_open answer w =
    if w.has_client then connect_child answer (drop_child success w) else does closes w

unfoldable pub do_client_close : ServerWork → ServerWork
do_client_close w =
    if w.has_client
    then does (child_post (make_event EventState.notify_state 0 success)) (drop_child success w)
    else does closes w

unfoldable pub do_client_read : ServerWork → ServerWork
do_client_read w = elim w.child [
  | none ↦ does closes w
  | some b ↦
      if space b == 0
      then does (child_post (make_event EventState.read_state 0 no_buffer_space)) w
      else does (parent_post (make_event EventState.read_state 0 success)) w
]

-- The request goes to the child's buffer. `event` is what the child is to do with it.
unfoldable pub do_client_write : EventState → ServerWork → Run ServerWork
do_client_write event w = elim w.child [
  | none ↦ ok (does closes w)
  | some b ↦
      if ltb (space (clear_buffer b)) (size w.read_buffer)
      then ok (
          does (child_post (make_event EventState.write_state 0 no_buffer_space))
            (record w { child = some (clear_buffer b) }))
      else (load (unread w.read_buffer) b >>= λ c.
          ok (does (parent_post (make_event event 0 success)) (record w { child = some c })))
]

unfoldable pub do_io : Option IoBuffer → ServerWork → Run ServerWork
do_io answer w = elim w.status.state [
  | StateCode.do_read ↦ ok (does async_read_some w)
  | StateCode.do_write ↦ ok (does (async_write (unread w.read_buffer)) w)
  | StateCode.do_client_open ↦ ok (do_client_open answer w)
  | StateCode.do_client_close ↦ ok (do_client_close w)
  | StateCode.do_client_read ↦ ok (do_client_read w)
  | StateCode.do_client_write ↦ do_client_write EventState.write_state w
  | StateCode.do_client_write_read ↦ do_client_write EventState.write_read_state w
  | _ ↦ ok (does closes w)
]

-- `biz_->process(…)` on an input, with the read buffer as the output, and `do_io`.
unfoldable pub process_io : Process → Option IoBuffer → IoBuffer → ServerWork → Run ServerWork
process_io process answer input w = do
  (status, output) ← process w.status input w.read_buffer
  do_io answer (record w { status = status; read_buffer = output })

-- `remote` is the address of the connection's peer.
unfoldable pub on_open : Process → Option IoBuffer → ℕ → ServerWork → Run ServerWork
on_open process answer remote w =
    let b = clear_buffer w.read_buffer in
    let status =
      set_status StateCode.on_open 0 success (record no_status { remote_endpoint = remote }) in
    process_io process answer b (record w { status = status; read_buffer = b })

unfoldable pub on_read : Process → Option IoBuffer → ℕ → ServerWork → Run ServerWork
on_read process answer n w = do
  b ← produce n w.read_buffer
  process_io process answer b
      (record w { status = set_status StateCode.on_read n success w.status; read_buffer = b })

unfoldable pub on_write : Process → Option IoBuffer → ℕ → ServerWork → Run ServerWork
on_write process answer n w = do
  b ← consume n w.read_buffer
  c ← crunch b
  process_io process answer c
      (record w { status = set_status StateCode.on_write n success w.status; read_buffer = c })

unfoldable pub on_close : Process → ErrorCode → ServerWork → Run ServerWork
on_close process ec w = do
  let t = drop_child ec w
  (status, output) ←
      process (set_status StateCode.on_close 0 ec t.status) t.read_buffer t.read_buffer
  ok (record t { status = set_status StateCode.no_code 0 success status; read_buffer = output })

-- The cases of `on_child` that need the child: without it, the pointer's assertion fails.
unfoldable pub with_child : Option IoBuffer → (IoBuffer → Run ServerWork) → Run ServerWork
with_child none rest = fault assertion
with_child (some b) rest = rest b

-- `child_endpoint` is the address of the child's peer.
unfoldable pub on_child : Process → Option IoBuffer → ℕ → HandlerEvent → ServerWork → Run ServerWork
on_child process answer child_endpoint e w = elim e.state [
  | EventState.notify_state ↦
      process_io process answer w.read_buffer
        (record w { status = set_status StateCode.on_notify 0 success w.status })
  | EventState.open_state ↦ with_child w.child λ b.
      process_io process answer w.read_buffer (record w {
        status =
            set_status StateCode.on_client_open 0 success
              (record (w.status) { child_endpoint = child_endpoint });
      })
  | EventState.read_state ↦ with_child w.child λ b.
      process_io process answer b
        (record w { status = set_status StateCode.on_client_read e.value e.ec w.status })
  | EventState.write_state ↦
      process_io process answer w.read_buffer
        (record w { status = set_status StateCode.on_client_write e.value e.ec w.status })
  | EventState.close_state ↦ process_io process answer w.read_buffer (record w {
    passive_close = true;
    status = set_status StateCode.on_client_close e.value e.ec w.status;
  })
  | _ ↦ ok w
]
