-- ===== src/Work/ClientWork.antt =====
-- bastool/client_work.hpp: the work handler of a connection that a server's work handler has asked for.
use baserver.Base.{
  ℕ, Bool, true, false, if◌then◌else◌, List, [], ◌∷◌, ◌++◌, Run, ok, assert, ◌>>=◌, ◌>>◌,
}
use baserver.ErrorCode.{ErrorCode, success}
use baserver.IoBuffer.{IoBuffer, produce, consume, crunch, unread, clear as clear_buffer}
use baserver.ServiceHandler.{HandlerEvent, EventState}
use baserver.Work.{WorkCall, async_read_some, closes, async_write, child_post, make_event}

-- The read buffer is that of the service handler, to which the parent writes as well.
pub record ClientWork : Type 0 where
  pub has_parent : Bool
  pub event : HandlerEvent
  pub passive_close : Bool
  pub read_buffer : IoBuffer
  pub calls : List WorkCall

unfoldable pub does : WorkCall → ClientWork → ClientWork
does c w = record w { calls = w.calls ++ c ∷ [] }

unfoldable pub on_set_parent : ClientWork → ClientWork
on_set_parent w = record w { passive_close = false; has_parent = true }

unfoldable pub on_open : ClientWork → Run ClientWork
on_open w = do
  assert w.has_parent
  ok (
      does (child_post (make_event EventState.open_state 0 success))
        (record w { read_buffer = clear_buffer w.read_buffer }))

unfoldable pub on_read : ℕ → ClientWork → Run ClientWork
on_read n w = do
  assert w.has_parent
  b ← produce n w.read_buffer
  ok (does (child_post (make_event EventState.read_state n success)) (record w { read_buffer = b }))

-- The test at the end of `on_write`.
abbrev pub wants_read : EventState → Bool
wants_read EventState.write_read_state = true
wants_read _ = false

unfoldable pub on_write : ℕ → ClientWork → Run ClientWork
on_write n w = do
  assert w.has_parent
  b ← consume n w.read_buffer
  c ← crunch b
  ok (
      does
        (if wants_read w.event.state
          then async_read_some
          else child_post (make_event EventState.write_state n success))
        (record w { read_buffer = c }))

unfoldable pub on_close : ErrorCode → ClientWork → ClientWork
on_close ec w =
    if w.has_parent
    then (let t =
          if w.passive_close
          then w
          else does (child_post (make_event EventState.close_state 0 ec)) w in
        record t { has_parent = false })
    else w

unfoldable pub on_parent : HandlerEvent → ClientWork → Run ClientWork
on_parent e w = do
  assert w.has_parent
  let t = record w { event = e }
  elim e.state [
    | EventState.close_state ↦ ok (does closes (record t { passive_close = true }))
    | EventState.write_state ↦ ok (does (async_write (unread t.read_buffer)) t)
    | EventState.write_read_state ↦ ok (does (async_write (unread t.read_buffer)) t)
    | EventState.read_state ↦ ok (does async_read_some t)
    | _ ↦ ok t
  ]
