-- ===== src/ServiceHandler/Draining.antt =====
-- bas/service_handler.hpp: what a close comes to when the services run what waits in them.
use baserver.Base.{
  ℕ, ◌≤◌, ◌≡◌, refl, ap, sym, ◌∙◌, ◌⊎◌, inl, inr, true, Bool-cases, List, [], ◌∷◌, ◌++◌, Run, ok,
  ◌>>=◌, Returns, arith,
}
use baserver.ErrorCode.{ErrorCode}
use baserver.ServiceHandler.{
  Handler, IoTask, close_i, WorkTask, do_close, System, bind, dispatch, call, close, post,
  shut_down, run_close_i,
}
use baserver.ServiceHandler.Calls.{run_io_task, unless_stopped, run_do_close, run_work_task}
use baserver.ServiceHandler.Steps.{Event, run}
use baserver.ServiceHandler.Session.{
  Session, closes_in, closes_called, earlier, to_nat, Session-same, has_socket, run_close_i-Session,
}
use baserver.ServiceHandler.Lifecycle.{run_io_task-Session, run_work_task-Session, run-bind-Session}
use baserver.ServiceHandler.Closing.{run_io_task-IsSilent}

-- The io service runs the tasks that wait in it, in order, and so does the work service.
unfoldable pub run_each : List IoTask → System → Run System
run_each [] s = ok s
run_each (t ∷ ts) s = run_io_task t s >>= run_each ts

unfoldable pub drain_io : System → Run System
drain_io s = run_each s.io_tasks (record s { io_tasks = [] })

unfoldable pub run_all : List WorkTask → System → System
run_all [] s = s
run_all (t ∷ ts) s = run_all ts (run_work_task t s)

unfoldable pub drain_work : System → System
drain_work s = run_all s.work_tasks (record s { work_tasks = [] })

-- A close from any thread, and then what waits in both services.
unfoldable pub close_and_drain : ErrorCode → System → Run System
close_and_drain ec s = close ec s >>= drain_io >>= λ t. ok (drain_work t)

-- The session goes on, and the handler is stopped.
pub record Stopped (s : System) : Type 0 where
  pub session : Session 0 s
  pub flag : s.handler.stopped ≡ true

abbrev AsksClose : List IoTask → Type 0
AsksClose [] = 1 ≤ 0
AsksClose (close_i ec ∷ ts) = Unit {0}
AsksClose (t ∷ ts) = AsksClose ts

AsksClose-append : (ts : List IoTask) (ec : ErrorCode) → AsksClose (ts ++ close_i ec ∷ [])
AsksClose-append [] ec = tt
AsksClose-append (close_i e ∷ ts) ec = tt
AsksClose-append (IoTask.connect_i b ∷ ts) ec = AsksClose-append ts ec
AsksClose-append (IoTask.read_some_i n ∷ ts) ec = AsksClose-append ts ec
AsksClose-append (IoTask.read_i n ∷ ts) ec = AsksClose-append ts ec
AsksClose-append (IoTask.write_i n ∷ ts) ec = AsksClose-append ts ec

ok-injective : (s t : System) → ok s ≡ ok t → s ≡ t
ok-injective s t e = cc

-- A stopped handler stays stopped.
run_io_task-Stopped : (t : IoTask) (s : System) → Stopped s → Returns (run_io_task t s) Stopped
run_io_task-Stopped t s v =
    let (r, e, w) = run_io_task-Session t s v.session in
    let (q, f, z) = run_io_task-IsSilent s v.session v.flag t in
    (
      r,
      e,
      record {
        session = w;
        flag = ap (λ u. u.handler.stopped) (ok-injective r q (sym e ∙ f)) ∙ z.stays;
      },
    )

-- A close that is run stops the handler.
run_close_i-Stopped :
    (ec : ErrorCode) (s : System) → Session 0 s → Returns (run_close_i ec s) Stopped
unfolding run_close_i post shut_down
run_close_i-Stopped ec s v = elim (Bool-cases s.handler.stopped) [
  | inl e ↦ (s, ground arith, record { session = v; flag = e })
  | inr e ↦
      let (r, runs, w) = run_close_i-Session ec s v in
      let d = shut_down s in
      let stops : run_close_i ec s
          ≡ ok (record d { work_tasks = d.work_tasks ++ do_close ec ∷ [] }) =
        ground (arith, has_socket 0 s v, v.has_work) in
      (
        r,
        runs,
        record {
          session = w;
          flag =
              ap (λ u. u.handler.stopped)
                (ok-injective r (record d { work_tasks = d.work_tasks ++ do_close ec ∷ [] })
                  (sym runs ∙ stops));
        },
      )
]

-- So it is stopped when all has been run that waits behind the close.
run_each-Stopped :
    (ts : List IoTask) (s : System)
    → Session 0 s
    → (s.handler.stopped ≡ true) ⊎ AsksClose ts
    → Returns (run_each ts s) Stopped
unfolding run_each run_io_task
run_each-Stopped [] s v (inl h) = (s, refl, record { session = v; flag = h })
run_each-Stopped [] s v (inr h) = absurd (omega (arith, h))
run_each-Stopped (t ∷ ts) s v (inl h) =
    let (r, e, w) = run_io_task-Stopped t s (record { session = v; flag = h }) in
    let (q, f, z) = run_each-Stopped ts r w.session (inl w.flag) in (q, rw e f, z)
run_each-Stopped (close_i ec ∷ ts) s v (inr h) =
    let (r, e, w) = run_close_i-Stopped ec s v in
    let (q, f, z) = run_each-Stopped ts r w.session (inl w.flag) in (q, rw e f, z)
run_each-Stopped (t ∷ ts) s v (inr h) =
    let (r, e, w) = run_io_task-Session t s v in
    let (q, f, z) = run_each-Stopped ts r w (inr h) in (q, rw e f, z)

-- The close is at the end of the queue, or the handler was stopped.
close-asks :
    (ec : ErrorCode) (s : System)
    → Session 0 s
    → Returns (close ec s) (λ t. Session 0 t × ((t.handler.stopped ≡ true) ⊎ AsksClose t.io_tasks))
unfolding close dispatch
close-asks ec s v = elim (Bool-cases s.handler.stopped) [
  | inl e ↦ (s, ground arith, (v, inl e))
  | inr e ↦ (
    record s { io_tasks = s.io_tasks ++ close_i ec ∷ [] },
    ground (arith, v.has_io),
    (Session-same 0 s _ refl refl refl refl refl refl v, inr (AsksClose-append s.io_tasks ec)),
  )
]

drain_io-Stopped :
    (s : System)
    → Session 0 s
    → (s.handler.stopped ≡ true) ⊎ AsksClose s.io_tasks
    → Returns (drain_io s) Stopped
unfolding drain_io
drain_io-Stopped s v h =
    run_each-Stopped s.io_tasks (record s { io_tasks = [] })
      (Session-same 0 s _ refl refl refl refl refl refl v) h

-- A task of the work service posts nothing and leaves the flag.
run_work_task-same :
    (t : WorkTask) (s : System)
    → ((run_work_task t s).work_tasks ≡ s.work_tasks)
      × ((run_work_task t s).handler.stopped ≡ s.handler.stopped)
unfolding run_work_task run_do_close unless_stopped call
run_work_task-same WorkTask.do_open s = (ground arith, ground arith)
run_work_task-same (WorkTask.do_read n) s = (ground arith, ground arith)
run_work_task-same (WorkTask.do_write n) s = (ground arith, ground arith)
run_work_task-same (WorkTask.do_parent e) s = (ground arith, ground arith)
run_work_task-same (WorkTask.do_child e) s = (ground arith, ground arith)
run_work_task-same (do_close ec) s = (refl, refl)

run_all-Session :
    (ts : List WorkTask) (s : System)
    → Session (closes_in ts) s
    → Session 0 (run_all ts s)
      × ((run_all ts s).work_tasks ≡ s.work_tasks)
      × ((run_all ts s).handler.stopped ≡ s.handler.stopped)
unfolding run_all
run_all-Session [] s v = (v, refl, refl)
run_all-Session (t ∷ ts) s v =
    let (a, b) = run_work_task-same t s in
    let (w, c, d) =
      run_all-Session ts (run_work_task t s) (run_work_task-Session (closes_in ts) t s v) in
    (w, c ∙ a, d ∙ b)

take_all-Session :
    (s : System) → Session 0 s → Session (closes_in s.work_tasks) (record s { work_tasks = [] })
take_all-Session s v = record {
  has_io = v.has_io;
  has_work = v.has_work;
  present = v.present;
  socket_state = v.socket_state;
  once = omega (arith, v.once);
  last = v.last;
}

-- The handler is stopped, `on_close` has been called once, and no callback after it.
pub record Closed (s : System) : Type 0 where
  pub stopped : s.handler.stopped ≡ true
  pub called_once : closes_called s.callbacks ≡ 1
  pub called_last : closes_called (earlier s.callbacks) ≡ 0

drain_work-Closed : (s : System) → Stopped s → Closed (drain_work s)
unfolding drain_work
drain_work-Closed s v =
    let (w, t, f) =
      run_all-Session s.work_tasks (record s { work_tasks = [] }) (take_all-Session s v.session) in
    record {
      stopped = f ∙ v.flag;
      called_once = omega (arith, w.once, ap closes_in t, ap to_nat (f ∙ v.flag));
      called_last = w.last;
    }

-- After `bind` and any sequence of calls, tasks and completions, a close, followed by the tasks that then
-- wait in the io service and in the work service, runs without a fault. At its end the handler is
-- stopped, `on_close` has been called exactly once since `bind`, and no callback after it.
pub run-close_and_drain :
    (io work : ℕ) (h : Handler) (es : List Event) (ec : ErrorCode)
    → Returns (run es (bind io work h) >>= close_and_drain ec) Closed
unfolding close_and_drain
run-close_and_drain io work h es ec =
    let (s, e, v) = run-bind-Session io work h es in
    let (t, f, (w, a)) = close-asks ec s v in
    let (u, g, x) = drain_io-Stopped t w a in
    (drain_work u, rw (e, f, g) refl, drain_work-Closed u x)
