-- ===== src/ServiceHandler/Closing.antt =====
-- bas/service_handler.hpp: a handler that is stopped.
use baserver.Base.{
  ℕ, ◌+◌, ◌≤◌, ◌≡◌, refl, ◌∙◌, ◌⊎◌, inl, Bool, true, false, if◌then◌else◌, List, [], ◌∷◌, ◌++◌,
  none, some, Run, Returns, arith,
}
use baserver.ErrorCode.{ErrorCode, is_success}
use baserver.IoBuffer
use baserver.ServiceHandler.{
  Bound, IoTask, Operation, on_close, System, is_none, start_operation, set_session_expiry,
  set_io_expiry, run_close_i,
}
use baserver.ServiceHandler.Calls.{
  run_io_task, on_socket, open_socket, start_connect, bind_connect, run_connect_i, run_operation_i,
}
use baserver.ServiceHandler.Session.{Session, has_socket, open_socket-Session}

-- How many reads and writes of the socket have been started and not completed.
abbrev pub transfer : Operation → ℕ
transfer (Operation.reading n) = 1
transfer (Operation.writing n) = 1
transfer _ = 0

abbrev pub transfers : List Operation → ℕ
transfers [] = 0
transfers (o ∷ os) = transfer o + transfers os

transfers-append :
    (os : List Operation) (o : Operation) → transfers (os ++ o ∷ []) ≡ transfers os + transfer o
transfers-append [] o = omega arith
transfers-append (p ∷ os) o = omega (arith, transfers-append os o)

-- The step of a stopped handler: it stays stopped, starts no read or write, and calls nothing but
-- `on_close`.
pub record IsSilent (s t : System) : Type 0 where
  pub stays : t.handler.stopped ≡ true
  pub starts_none : transfers t.operations ≤ transfers s.operations
  pub calls :
      (t.callbacks ≡ s.callbacks) ⊎ ((ec : ErrorCode) × (t.callbacks ≡ on_close ec ∷ s.callbacks))

-- Setting a timer starts no read or write.
record Timed (s t : System) : Type 0 where
  same_flag : t.handler.stopped ≡ s.handler.stopped
  same_calls : t.callbacks ≡ s.callbacks
  same_transfers : transfers t.operations ≡ transfers s.operations
  same_socket : is_none t.handler.socket ≡ is_none s.handler.socket
  same_work : is_none t.handler.work_service ≡ is_none s.handler.work_service

set_session_expiry-Timed : (s : System) → Timed s (set_session_expiry s)
unfolding set_session_expiry start_operation
set_session_expiry-Timed s = record {
  same_flag = ground arith;
  same_calls = ground arith;
  same_transfers = ground (arith, transfers-append s.operations Operation.timing);
  same_socket = ground arith;
  same_work = ground arith;
}

set_io_expiry-Timed : (s : System) → Timed s (set_io_expiry s)
unfolding set_io_expiry start_operation
set_io_expiry-Timed s = record {
  same_flag = ground arith;
  same_calls = ground arith;
  same_transfers = ground (arith, transfers-append s.operations Operation.timing);
  same_socket = ground arith;
  same_work = ground arith;
}

if-Returns :
    {P : System → Type 0} (b : Bool) (x y : Run System)
    → Returns x P
    → Returns y P
    → Returns (if b then x else y) P
if-Returns true x y p q = p
if-Returns false x y p q = q

module _ (s : System) (v : Session 0 s) (h : s.handler.stopped ≡ true) where
  stays-IsSilent : IsSilent s s
  stays-IsSilent = record { stays = h; starts_none = omega arith; calls = inl refl }

  run_close_i-IsSilent : (ec : ErrorCode) → Returns (run_close_i ec s) (IsSilent s)
  run_close_i-IsSilent ec = (s, unfold run_close_i in rw (run_close_i, h), stays-IsSilent)

  start_connect-IsSilent : Returns (start_connect s) (IsSilent s)
  unfolding start_connect on_socket open_socket start_operation
  start_connect-IsSilent =
      let t = set_session_expiry s in
      let u = set_io_expiry t in
      let y = set_session_expiry-Timed s in
      let z = set_io_expiry-Timed t in
      (
        start_operation Operation.connecting (open_socket u),
        refl,
        record {
          stays = z.same_flag ∙ y.same_flag ∙ h;
          starts_none = omega (
            arith,
            y.same_transfers,
            z.same_transfers,
            transfers-append u.operations Operation.connecting,
          );
          calls = inl (z.same_calls ∙ y.same_calls);
        },
      )

open_socket-stopped : (s : System) → (open_socket s).handler.stopped ≡ s.handler.stopped
unfolding open_socket
open_socket-stopped s = refl

-- To open the socket is no read or write and no callback.
open_socket-IsSilent :
    (s : System) (r : Run System) → Returns r (IsSilent (open_socket s)) → Returns r (IsSilent s)
unfolding open_socket
open_socket-IsSilent s r (t, e, z) =
    (t, e, record { stays = z.stays; starts_none = z.starts_none; calls = z.calls })

bind_connect-IsSilent :
    (bound : Bound) (s : System)
    → Session 0 s
    → s.handler.stopped ≡ true
    → Returns (bind_connect bound s) (IsSilent s)
unfolding bind_connect
bind_connect-IsSilent none s v h = start_connect-IsSilent s v h
bind_connect-IsSilent (some (opened, bound)) s v h =
    let w = open_socket-Session s v in
    let k : (open_socket s).handler.stopped ≡ true = open_socket-stopped s ∙ h in
    if-Returns (is_success opened) _ _
      (if-Returns (is_success bound) _ _
        (open_socket-IsSilent s _ (start_connect-IsSilent (open_socket s) w k))
        (open_socket-IsSilent s _ (run_close_i-IsSilent (open_socket s) w k bound)))
      (run_close_i-IsSilent s v h opened)

module _ (s : System) (v : Session 0 s) (h : s.handler.stopped ≡ true) where
  run_connect_i-IsSilent : (bound : Bound) → Returns (run_connect_i bound s) (IsSilent s)
  unfolding run_connect_i
  run_connect_i-IsSilent bound =
      rw (has_socket 0 s v, v.has_io, v.has_work) (bind_connect-IsSilent bound s v h)

  pub run_io_task-IsSilent : (t : IoTask) → Returns (run_io_task t s) (IsSilent s)
  unfolding run_io_task run_operation_i
  run_io_task-IsSilent (IoTask.close_i ec) = run_close_i-IsSilent s v h ec
  run_io_task-IsSilent (IoTask.connect_i bound) = run_connect_i-IsSilent bound
  run_io_task-IsSilent (IoTask.read_some_i n) = (s, rw (run_operation_i, h), stays-IsSilent s v h)
  run_io_task-IsSilent (IoTask.read_i n) = (s, rw (run_operation_i, h), stays-IsSilent s v h)
  run_io_task-IsSilent (IoTask.write_i n) = (s, rw (run_operation_i, h), stays-IsSilent s v h)
