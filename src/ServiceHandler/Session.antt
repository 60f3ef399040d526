-- ===== src/ServiceHandler/Session.antt =====
-- bas/service_handler.hpp: what holds through a session, whatever the environment does.
use baserver.Base.{
  ℕ, suc, zero, ◌+◌, ◌≡◌, refl, ap, sym, ◌∙◌, inl, inr, Bool, true, false, List, [], ◌∷◌, ◌++◌,
  none, some, Returns, arith, Bool-cases, Option-cases,
}
use baserver.ErrorCode.{ErrorCode, is_success}
use baserver.ServiceHandler.{
  usable, Bound, IoTask, WorkTask, do_close, Operation, Callback, on_close, System, is_none,
  dispatch, post, start_operation, set_session_expiry, set_io_expiry, cancel_io_expiry, close,
  start, run_close_i, shut_down,
}
use baserver.ServiceHandler.Calls.{
  on_socket, open_socket, start_connect, bind_connect, run_connect_i, run_operation_i,
}
use baserver.ServiceHandler.Steps.{remove_at, run}

-- How many closes are posted, and how many have been called.
abbrev pub closes_task : WorkTask → ℕ
closes_task (do_close ec) = 1
closes_task _ = 0

abbrev pub closes_in : List WorkTask → ℕ
closes_in [] = 0
closes_in (t ∷ ts) = closes_task t + closes_in ts

abbrev pub closes_callback : Callback → ℕ
closes_callback (on_close ec) = 1
closes_callback _ = 0

abbrev pub closes_called : List Callback → ℕ
closes_called [] = 0
closes_called (c ∷ cs) = closes_callback c + closes_called cs

abbrev pub earlier : List Callback → List Callback
earlier [] = []
earlier (c ∷ cs) = cs

abbrev pub to_nat : Bool → ℕ
to_nat true = 1
to_nat false = 0

-- The handler has its services and its socket, which is not closed unless the handler is stopped. A
-- handler that is stopped has one close in all, posted (`due` more are being run) or called, and
-- one that is not has none. A close that has been called is the latest callback.
pub record Session (due : ℕ) (s : System) : Type 0 where
  pub has_io : is_none s.handler.io_service ≡ false
  pub has_work : is_none s.handler.work_service ≡ false
  pub present : is_none s.handler.socket ≡ false
  pub socket_state : s.handler.stopped ≡ false → s.handler.socket ≡ some usable
  pub once : due + closes_in s.work_tasks + closes_called s.callbacks ≡ to_nat s.handler.stopped
  pub last : closes_called (earlier s.callbacks) ≡ 0

pub closes_in-append :
    (ts : List WorkTask) (t : WorkTask) → closes_in (ts ++ t ∷ []) ≡ closes_in ts + closes_task t
closes_in-append [] t = omega arith
closes_in-append (u ∷ ts) t = omega (arith, closes_in-append ts t)

pub closes_in-remove_at :
    (i : ℕ) (ts : List WorkTask) (t : WorkTask) (rest : List WorkTask)
    → remove_at i ts ≡ some (t, rest)
    → closes_in ts ≡ closes_task t + closes_in rest
unfolding remove_at
closes_in-remove_at i [] t rest h = cc
closes_in-remove_at zero (u ∷ ts) t rest h = ground arith
closes_in-remove_at (suc i) (u ∷ ts) t rest h = elim (Option-cases (remove_at i ts)) [
  | inl e ↦ ground (arith, e)
  | inr ((t', rest'), e) ↦ ground (arith, e, closes_in-remove_at i ts t' rest' e)
]

-- The timers, the operations and the io service's tasks have no part in it.
pub Session-same :
    (n : ℕ) (s s' : System)
    → s'.handler.io_service ≡ s.handler.io_service
    → s'.handler.work_service ≡ s.handler.work_service
    → s'.handler.socket ≡ s.handler.socket
    → s'.handler.stopped ≡ s.handler.stopped
    → s'.work_tasks ≡ s.work_tasks
    → s'.callbacks ≡ s.callbacks
    → Session n s
    → Session n s'
Session-same n s s' a b c d e f v = record {
  has_io = ap is_none a ∙ v.has_io;
  has_work = ap is_none b ∙ v.has_work;
  present = ap is_none c ∙ v.present;
  socket_state = λ k. c ∙ v.socket_state (sym d ∙ k);
  once = rw (e, f, d) v.once;
  last = rw f v.last;
}

pub set_session_expiry-Session :
    (n : ℕ) (s : System) → Session n s → Session n (set_session_expiry s)
unfolding set_session_expiry start_operation
set_session_expiry-Session n s v =
    Session-same n s _ (ground arith) (ground arith) (ground arith) (ground arith) (ground arith)
      (ground arith) v

pub set_io_expiry-Session : (n : ℕ) (s : System) → Session n s → Session n (set_io_expiry s)
unfolding set_io_expiry start_operation
set_io_expiry-Session n s v =
    Session-same n s _ (ground arith) (ground arith) (ground arith) (ground arith) (ground arith)
      (ground arith) v

pub cancel_io_expiry-Session : (n : ℕ) (s : System) → Session n s → Session n (cancel_io_expiry s)
unfolding cancel_io_expiry
cancel_io_expiry-Session n s v = Session-same n s _ refl refl refl refl refl refl v

pub dispatch-Session :
    (n : ℕ) (t : IoTask) (s : System) → Session n s → Returns (dispatch t s) (Session n)
unfolding dispatch
dispatch-Session n t s v = (
  record s { io_tasks = s.io_tasks ++ t ∷ [] },
  rw v.has_io,
  Session-same n s _ refl refl refl refl refl refl v,
)

-- A task that is no close.
pub post-Session :
    (t : WorkTask) (s : System) → closes_task t ≡ 0 → Session 0 s → Returns (post t s) (Session 0)
unfolding post
post-Session t s h v = (
  record s { work_tasks = s.work_tasks ++ t ∷ [] },
  rw v.has_work,
  record {
    has_io = v.has_io;
    has_work = v.has_work;
    present = v.present;
    socket_state = v.socket_state;
    once = omega (arith, v.once, closes_in-append s.work_tasks t);
    last = v.last;
  },
)

pub close-Session : (ec : ErrorCode) (s : System) → Session 0 s → Returns (close ec s) (Session 0)
unfolding close
close-Session ec s v = elim (Bool-cases s.handler.stopped) [
  | inl e ↦ (s, ground arith, v)
  | inr e ↦
      let (r, run, w) = dispatch-Session 0 (IoTask.close_i ec) s v in (r, ground (arith, run), w)
]

pub has_socket : (n : ℕ) (s : System) → Session n s → is_none s.handler.socket ≡ false
has_socket n s v = v.present

pub run_close_i-Session :
    (ec : ErrorCode) (s : System) → Session 0 s → Returns (run_close_i ec s) (Session 0)
unfolding run_close_i post shut_down
run_close_i-Session ec s v = elim (Bool-cases s.handler.stopped) [
  | inl e ↦ (s, ground arith, v)
  | inr e ↦
      let d = shut_down s in
      (
        record d { work_tasks = d.work_tasks ++ do_close ec ∷ [] },
        ground (arith, has_socket 0 s v),
        record {
          has_io = v.has_io;
          has_work = v.has_work;
          present = refl;
          socket_state = λ k. cc;
          once = omega (arith, v.once, ap to_nat e, closes_in-append s.work_tasks (do_close ec));
          last = v.last;
        },
      )
]

pub start-Session : (s : System) → Session 0 s → Returns (start s) (Session 0)
unfolding start
start-Session s v =
    let (r, run, w) =
      post-Session WorkTask.do_open (set_session_expiry s) refl
        (set_session_expiry-Session 0 s v) in
    (r, rw (has_socket 0 s v, v.has_io, v.has_work) run, w)

on_socket-Session : (o : Operation) (s : System) → Session 0 s → Returns (on_socket o s) (Session 0)
unfolding on_socket start_operation
on_socket-Session o s v = (
  record s { operations = s.operations ++ o ∷ [] },
  rw (has_socket 0 s v),
  Session-same 0 s _ refl refl refl refl refl refl v,
)

pub run_operation_i-Session :
    (o : Operation) (s : System) → Session 0 s → Returns (run_operation_i o s) (Session 0)
unfolding run_operation_i
run_operation_i-Session o s v = elim (Bool-cases s.handler.stopped) [
  | inl e ↦ (s, ground arith, v)
  | inr e ↦
      let (r, run, w) = on_socket-Session o (set_io_expiry s) (set_io_expiry-Session 0 s v) in
      (r, ground (arith, run), w)
]

pub open_socket-Session : (s : System) → Session 0 s → Session 0 (open_socket s)
unfolding open_socket
open_socket-Session s v = record {
  has_io = v.has_io;
  has_work = v.has_work;
  present = refl;
  socket_state = λ k. refl;
  once = v.once;
  last = v.last;
}

start_connect-Session : (s : System) → Session 0 s → Returns (start_connect s) (Session 0)
unfolding start_connect
start_connect-Session s v =
    on_socket-Session Operation.connecting _
      (open_socket-Session _ (set_io_expiry-Session 0 _ (set_session_expiry-Session 0 s v)))

bind_connect-Session :
    (bound : Bound) (s : System) → Session 0 s → Returns (bind_connect bound s) (Session 0)
unfolding bind_connect
bind_connect-Session none s v = start_connect-Session s v
bind_connect-Session (some (opened, bound)) s v = elim (Bool-cases (is_success opened)) [
  | inl e ↦ elim (Bool-cases (is_success bound)) [
    | inl k ↦ rw (e, k) (start_connect-Session (open_socket s) (open_socket-Session s v))
    | inr k ↦ rw (e, k) (run_close_i-Session bound (open_socket s) (open_socket-Session s v))
  ]
  | inr e ↦ rw e (run_close_i-Session opened s v)
]

pub run_connect_i-Session :
    (bound : Bound) (s : System) → Session 0 s → Returns (run_connect_i bound s) (Session 0)
unfolding run_connect_i
run_connect_i-Session bound s v =
    rw (has_socket 0 s v, v.has_io, v.has_work) (bind_connect-Session bound s v)
