-- ===== src/ServiceHandler/Shutting.antt =====
-- bas/service_handler.hpp: a handler that connects nowhere, as those of a server, and its socket.
use baserver.Base.{
  ℕ, ◌≤◌, ◌≡◌, refl, sym, ◌∙◌, subst, inl, inr, Bool, true, false, if◌then◌else◌, ◌||◌, List, [],
  ◌∷◌, ◌++◌, some, Run, Fault, fault, ok, zero, suc, arith, Option-cases,
}
use baserver.ErrorCode.{ErrorCode, is_success, is_aborted}
use baserver.ServiceHandler.{
  closed, IoTask, WorkTask, Operation, Callback, System, is_none, dispatch, post, start_operation,
  call, set_session_expiry, set_io_expiry, cancel_io_expiry, close, start, shut_down, run_close_i,
}
use baserver.ServiceHandler.Calls.{
  on_socket, run_operation_i, run_io_task, handle_connect, handle_transfer, handle_timeout,
  run_completion, unless_stopped, run_do_close, run_work_task,
}
use baserver.ServiceHandler.Steps.{remove_at}

abbrev pub IsOther : IoTask → Type 0
IsOther (IoTask.connect_i b) = 1 ≤ 0
IsOther _ = Unit {0}

abbrev pub AllOther : List IoTask → Type 0
AllOther [] = Unit {0}
AllOther (t ∷ ts) = IsOther t × AllOther ts

AllOther-append :
    (ts : List IoTask) (t : IoTask) → AllOther ts → IsOther t → AllOther (ts ++ t ∷ [])
AllOther-append [] t v w = (w, tt)
AllOther-append (u ∷ ts) t (v, x) w = (v, AllOther-append ts t x w)

rest_eq : (p q : IoTask × List IoTask) → some p ≡ some q → p ≡ q
rest_eq p q e = cc

pub AllOther-remove_at :
    (i : ℕ) (ts : List IoTask) (t : IoTask) (rest : List IoTask)
    → remove_at i ts ≡ some (t, rest)
    → AllOther ts
    → IsOther t × AllOther rest
unfolding remove_at
AllOther-remove_at i [] t rest e v = cc
AllOther-remove_at zero (u ∷ ts) t rest e (v, w) =
    subst (λ p. IsOther p.0 × AllOther p.1) (rest_eq (u, ts) (t, rest) e) (v, w)
AllOther-remove_at (suc i) (u ∷ ts) t rest e (v, w) = elim (Option-cases (remove_at i ts)) [
  | inl n ↦ absurd (ground (arith, n, e))
  | inr ((x, others), n) ↦
      let (y, z) = AllOther-remove_at i ts x others n w in
      let k : some (x, u ∷ others) ≡ some (t, rest) = ground (arith, n, e) in
      subst (λ p. IsOther p.0 × AllOther p.1) (rest_eq (x, u ∷ others) (t, rest) k) (y, (v, z))
]

-- No connect waits in the io service, and the socket of a stopped handler is closed.
pub record Shut (s : System) : Type 0 where
  pub others : AllOther s.io_tasks
  pub released : s.handler.stopped ≡ true → s.handler.socket ≡ some closed

abbrev pub Shuts : Run System → Type 0
Shuts r = (t : System) → r ≡ ok t → Shut t

pub ok-Shuts : (s : System) → Shut s → Shuts (ok s)
ok-Shuts s v t e = subst Shut (ok_eq e) v
  where
    ok_eq : ok s ≡ ok t → s ≡ t
    ok_eq k = cc

pub if-Shuts : (b : Bool) (x y : Run System) → Shuts x → Shuts y → Shuts (if b then x else y)
if-Shuts true x y h k = h
if-Shuts false x y h k = k

fault-Shuts : (f : Fault) → Shuts (fault f)
fault-Shuts f t e = cc

pub Shut-same :
    (s s' : System)
    → s'.io_tasks ≡ s.io_tasks
    → s'.handler.stopped ≡ s.handler.stopped
    → s'.handler.socket ≡ s.handler.socket
    → Shut s
    → Shut s'
Shut-same s s' a b c v = record {
  others = subst AllOther (sym a) v.others;
  released = λ h. c ∙ v.released (sym b ∙ h);
}

set_session_expiry-Shut : (s : System) → Shut s → Shut (set_session_expiry s)
unfolding set_session_expiry start_operation
set_session_expiry-Shut s v = Shut-same s _ (ground arith) (ground arith) (ground arith) v

set_io_expiry-Shut : (s : System) → Shut s → Shut (set_io_expiry s)
unfolding set_io_expiry start_operation
set_io_expiry-Shut s v = Shut-same s _ (ground arith) (ground arith) (ground arith) v

cancel_io_expiry-Shut : (s : System) → Shut s → Shut (cancel_io_expiry s)
unfolding cancel_io_expiry
cancel_io_expiry-Shut s v = Shut-same s _ refl refl refl v

pub dispatch-Shuts : (t : IoTask) (s : System) → IsOther t → Shut s → Shuts (dispatch t s)
unfolding dispatch
dispatch-Shuts t s w v = if-Shuts (is_none s.handler.io_service) _ _ (fault-Shuts _) (
    ok-Shuts _ (record { others = AllOther-append s.io_tasks t v.others w; released = v.released }))

pub post-Shuts : (t : WorkTask) (s : System) → Shut s → Shuts (post t s)
unfolding post
post-Shuts t s v =
    if-Shuts (is_none s.handler.work_service) _ _ (fault-Shuts _)
      (ok-Shuts _ (Shut-same s _ refl refl refl v))

pub close-Shuts : (ec : ErrorCode) (s : System) → Shut s → Shuts (close ec s)
unfolding close
close-Shuts ec s v =
    if-Shuts s.handler.stopped _ _ (ok-Shuts s v) (dispatch-Shuts (IoTask.close_i ec) s tt v)

shut_down-Shut : (s : System) → Shut s → Shut (shut_down s)
unfolding shut_down
shut_down-Shut s v = record { others = v.others; released = λ h. refl }

run_close_i-Shuts : (ec : ErrorCode) (s : System) → Shut s → Shuts (run_close_i ec s)
unfolding run_close_i
run_close_i-Shuts ec s v = if-Shuts s.handler.stopped _ _ (ok-Shuts s v) (
    if-Shuts (is_none s.handler.socket) _ _ (fault-Shuts _)
      (post-Shuts (WorkTask.do_close ec) (shut_down s) (shut_down-Shut s v)))

pub start-Shuts : (s : System) → Shut s → Shuts (start s)
unfolding start
start-Shuts s v =
    if-Shuts
      (is_none s.handler.socket || (is_none s.handler.io_service || is_none s.handler.work_service))
      _ _ (fault-Shuts _) (post-Shuts WorkTask.do_open _ (set_session_expiry-Shut s v))

on_socket-Shuts : (o : Operation) (s : System) → Shut s → Shuts (on_socket o s)
unfolding on_socket start_operation
on_socket-Shuts o s v =
    if-Shuts (is_none s.handler.socket) _ _ (fault-Shuts _)
      (ok-Shuts _ (Shut-same s _ refl refl refl v))

run_operation_i-Shuts : (o : Operation) (s : System) → Shut s → Shuts (run_operation_i o s)
unfolding run_operation_i
run_operation_i-Shuts o s v =
    if-Shuts s.handler.stopped _ _ (ok-Shuts s v) (on_socket-Shuts o _ (set_io_expiry-Shut s v))

pub run_io_task-Shuts : (t : IoTask) (s : System) → IsOther t → Shut s → Shuts (run_io_task t s)
unfolding run_io_task
run_io_task-Shuts (IoTask.close_i ec) s w v = run_close_i-Shuts ec s v
run_io_task-Shuts (IoTask.connect_i bound) s w v = absurd (omega (arith, w))
run_io_task-Shuts (IoTask.read_some_i n) s w v = run_operation_i-Shuts _ s v
run_io_task-Shuts (IoTask.read_i n) s w v = run_operation_i-Shuts _ s v
run_io_task-Shuts (IoTask.write_i n) s w v = run_operation_i-Shuts _ s v

handle_connect-Shuts : (ec : ErrorCode) (s : System) → Shut s → Shuts (handle_connect ec s)
unfolding handle_connect
handle_connect-Shuts ec s v =
    let w = cancel_io_expiry-Shut s v in
    if-Shuts s.handler.stopped _ _ (ok-Shuts s v)
      (if-Shuts (is_success ec) _ _ (start-Shuts _ w) (run_close_i-Shuts ec _ w))

handle_transfer-Shuts :
    (t : WorkTask) (ec : ErrorCode) (s : System) → Shut s → Shuts (handle_transfer t ec s)
unfolding handle_transfer
handle_transfer-Shuts t ec s v =
    let w = cancel_io_expiry-Shut s v in
    if-Shuts s.handler.stopped _ _ (ok-Shuts s v)
      (if-Shuts (is_success ec) _ _ (post-Shuts t _ w) (run_close_i-Shuts ec _ w))

pub run_completion-Shuts :
    (o : Operation) (ec : ErrorCode) (n : ℕ) (s : System) → Shut s → Shuts (run_completion o ec n s)
unfolding run_completion handle_timeout
run_completion-Shuts Operation.connecting ec n s v = handle_connect-Shuts ec s v
run_completion-Shuts Operation.timing ec n s v =
    if-Shuts (s.handler.stopped || is_aborted ec) _ _ (ok-Shuts s v) (run_close_i-Shuts _ s v)
run_completion-Shuts (Operation.reading _) ec n s v = handle_transfer-Shuts _ ec s v
run_completion-Shuts (Operation.writing _) ec n s v = handle_transfer-Shuts _ ec s v

unless_stopped-Shut : (c : Callback) (s : System) → Shut s → Shut (unless_stopped c s)
unfolding unless_stopped call
unless_stopped-Shut c s v = Shut-same s _ (ground arith) (ground arith) (ground arith) v

pub run_work_task-Shut : (t : WorkTask) (s : System) → Shut s → Shut (run_work_task t s)
unfolding run_work_task run_do_close call
run_work_task-Shut WorkTask.do_open s v = unless_stopped-Shut _ s v
run_work_task-Shut (WorkTask.do_read n) s v = unless_stopped-Shut _ s v
run_work_task-Shut (WorkTask.do_write n) s v = unless_stopped-Shut _ s v
run_work_task-Shut (WorkTask.do_parent e) s v = unless_stopped-Shut _ s v
run_work_task-Shut (WorkTask.do_child e) s v = unless_stopped-Shut _ s v
run_work_task-Shut (WorkTask.do_close ec) s v = Shut-same s _ refl refl refl v
