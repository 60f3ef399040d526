-- ===== src/ServiceHandler/Lifecycle.antt =====
-- bas/service_handler.hpp: a session from `bind` on, over every sequence of events.
use baserver.Base.{
  ℕ, ◌≤◌, ◌≡◌, refl, ap, subst, ◌+◌, inl, inr, Bool, true, false, if◌then◌else◌, ◌||◌, ◌==◌, ltb,
  List, [], ◌∷◌, some, Run, Returns, arith, Option-cases,
}
use baserver.ErrorCode.{ErrorCode, is_success, is_aborted, no_buffer_space, timed_out}
use baserver.IoBuffer
use baserver.ServiceHandler.{
  Handler, IoTask, WorkTask, do_close, Operation, Callback, System, call, bind,
}
use baserver.ServiceHandler.Calls.{
  async_read_some, async_read, async_write, async_write_length, parent_post, child_post,
  run_io_task, handle_connect, handle_transfer, handle_timeout, run_completion, unless_stopped,
  run_do_close, run_work_task,
}
use baserver.ServiceHandler.Steps.{
  Event, closes, starts, reads_some, writes_all, connects, reads, writes, reads_some_to, reads_to,
  writes_from, posts_parent, posts_child, runs_io, runs_work, completes, remove_at, step, run,
}
use baserver.ServiceHandler.Session.{
  Session, closes_task, closes_callback, to_nat, closes_in-remove_at, Session-same,
  cancel_io_expiry-Session, dispatch-Session, post-Session, close-Session, run_close_i-Session,
  start-Session, run_operation_i-Session, run_connect_i-Session,
}

abbrev Keeps : Run System → Type 0
Keeps r = Returns r (Session 0)

-- A test picks one of two runs that keep the session.
if-Keeps : (b : Bool) (x y : Run System) → Keeps x → Keeps y → Keeps (if b then x else y)
if-Keeps true x y h k = h
if-Keeps false x y h k = k

pub run_io_task-Session : (t : IoTask) (s : System) → Session 0 s → Keeps (run_io_task t s)
unfolding run_io_task
run_io_task-Session (IoTask.close_i ec) s v = run_close_i-Session ec s v
run_io_task-Session (IoTask.connect_i bound) s v = run_connect_i-Session bound s v
run_io_task-Session (IoTask.read_some_i n) s v = run_operation_i-Session (Operation.reading n) s v
run_io_task-Session (IoTask.read_i n) s v = run_operation_i-Session (Operation.reading n) s v
run_io_task-Session (IoTask.write_i n) s v = run_operation_i-Session (Operation.writing n) s v

handle_transfer-Session :
    (t : WorkTask) (ec : ErrorCode) (s : System)
    → closes_task t ≡ 0
    → Session 0 s
    → Keeps (handle_transfer t ec s)
unfolding handle_transfer
handle_transfer-Session t ec s h v =
    let w = cancel_io_expiry-Session 0 s v in
    if-Keeps s.handler.stopped _ _ (s, refl, v)
      (if-Keeps (is_success ec) _ _ (post-Session t _ h w) (run_close_i-Session ec _ w))

run_completion-Session :
    (o : Operation) (ec : ErrorCode) (n : ℕ) (s : System)
    → Session 0 s
    → Keeps (run_completion o ec n s)
unfolding run_completion handle_connect handle_timeout
run_completion-Session Operation.connecting ec n s v =
    let w = cancel_io_expiry-Session 0 s v in
    if-Keeps s.handler.stopped _ _ (s, refl, v)
      (if-Keeps (is_success ec) _ _ (start-Session _ w) (run_close_i-Session ec _ w))
run_completion-Session Operation.timing ec n s v =
    if-Keeps (s.handler.stopped || is_aborted ec) _ _ (s, refl, v)
      (run_close_i-Session (if is_success ec then timed_out else ec) s v)
run_completion-Session (Operation.reading m) ec n s v =
    handle_transfer-Session (WorkTask.do_read n) ec s refl v
run_completion-Session (Operation.writing m) ec n s v =
    handle_transfer-Session (WorkTask.do_write n) ec s refl v

unless_stopped-Session :
    (n : ℕ) (c : Callback) (s : System)
    → closes_callback c ≡ 0
    → Session (0 + n) s
    → Session n (unless_stopped c s)
unfolding unless_stopped call
unless_stopped-Session n c s h v = go s.handler.stopped refl
  where
    go : (b : Bool) → s.handler.stopped ≡ b → Session n (if b then s else call c s)
    go true e = subst (λ m. Session m s) (omega arith) v
    go false e = record {
      has_io = v.has_io;
      has_work = v.has_work;
      present = v.present;
      socket_state = v.socket_state;
      once = omega (arith, h, v.once);
      last = omega (arith, v.once, ap to_nat e);
    }

to_nat-le : (b : Bool) → to_nat b ≤ 1
to_nat-le true = omega arith
to_nat-le false = omega arith

-- A task that has been taken from the work service's queue, with `n` closes more to be run.
pub run_work_task-Session :
    (n : ℕ) (t : WorkTask) (s : System)
    → Session (closes_task t + n) s
    → Session n (run_work_task t s)
unfolding run_work_task run_do_close call
run_work_task-Session n WorkTask.do_open s v = unless_stopped-Session n Callback.on_open s refl v
run_work_task-Session n (WorkTask.do_read m) s v =
    unless_stopped-Session n (Callback.on_read m) s refl v
run_work_task-Session n (WorkTask.do_write m) s v =
    unless_stopped-Session n (Callback.on_write m) s refl v
run_work_task-Session n (WorkTask.do_parent e) s v =
    unless_stopped-Session n (Callback.on_parent e) s refl v
run_work_task-Session n (WorkTask.do_child e) s v =
    unless_stopped-Session n (Callback.on_child e) s refl v
run_work_task-Session n (do_close ec) s v = record {
  has_io = v.has_io;
  has_work = v.has_work;
  present = v.present;
  socket_state = v.socket_state;
  once = omega (arith, v.once);
  last = omega (arith, v.once, to_nat-le s.handler.stopped);
}

-- The queues without the task or the operation that an event takes.
take_work-Session :
    (i : ℕ) (s : System) (t : WorkTask) (rest : List WorkTask)
    → remove_at i s.work_tasks ≡ some (t, rest)
    → Session 0 s
    → Session (closes_task t + 0) (record s { work_tasks = rest })
take_work-Session i s t rest e v = record {
  has_io = v.has_io;
  has_work = v.has_work;
  present = v.present;
  socket_state = v.socket_state;
  once = omega (arith, v.once, closes_in-remove_at i s.work_tasks t rest e);
  last = v.last;
}

-- Every event keeps the session, and no assertion fails.
pub step-Session : (e : Event) (s : System) → Session 0 s → Returns (step e s) (Session 0)
unfolding step async_read_some async_read async_write async_write_length parent_post child_post
step-Session (closes ec) s v = close-Session ec s v
step-Session starts s v = start-Session s v
step-Session reads_some s v =
    if-Keeps (IoBuffer.space s.handler.read_buffer == 0) _ _ (close-Session no_buffer_space s v)
      (dispatch-Session 0 _ s v)
step-Session writes_all s v =
    if-Keeps (IoBuffer.empty s.handler.write_buffer) _ _ (close-Session no_buffer_space s v)
      (dispatch-Session 0 _ s v)
step-Session (connects bound) s v = dispatch-Session 0 _ s v
step-Session (reads n) s v =
    if-Keeps ((n == 0) || ltb (IoBuffer.space s.handler.read_buffer) n) _ _
      (close-Session no_buffer_space s v) (dispatch-Session 0 _ s v)
step-Session (writes n) s v =
    if-Keeps ((n == 0) || ltb (IoBuffer.size s.handler.write_buffer) n) _ _
      (close-Session no_buffer_space s v) (dispatch-Session 0 _ s v)
step-Session (reads_some_to n) s v = dispatch-Session 0 _ s v
step-Session (reads_to n) s v = dispatch-Session 0 _ s v
step-Session (writes_from n) s v = dispatch-Session 0 _ s v
step-Session (posts_parent e) s v = post-Session (WorkTask.do_parent e) s refl v
step-Session (posts_child e) s v = post-Session (WorkTask.do_child e) s refl v
step-Session (runs_io i) s v = elim (Option-cases (remove_at i s.io_tasks)) [
  | inl e ↦ (s, rw (step, e), v)
  | inr ((t, rest), e) ↦
      let w = Session-same 0 s (record s { io_tasks = rest }) refl refl refl refl refl refl v in
      let (r, run, u) = run_io_task-Session t (record s { io_tasks = rest }) w in
      (r, rw (step, e) run, u)
]
step-Session (runs_work i) s v = elim (Option-cases (remove_at i s.work_tasks)) [
  | inl e ↦ (s, rw (step, e), v)
  | inr ((t, rest), e) ↦ (
    run_work_task t (record s { work_tasks = rest }),
    rw (step, e),
    run_work_task-Session 0 t _ (take_work-Session i s t rest e v),
  )
]
step-Session (completes i ec n) s v = elim (Option-cases (remove_at i s.operations)) [
  | inl e ↦ (s, rw (step, e), v)
  | inr ((o, rest), e) ↦
      let w = Session-same 0 s (record s { operations = rest }) refl refl refl refl refl refl v in
      let (r, run, u) = run_completion-Session o ec n (record s { operations = rest }) w in
      (r, rw (step, e) run, u)
]

pub run-Session : (es : List Event) (s : System) → Session 0 s → Returns (run es s) (Session 0)
unfolding run
run-Session [] s v = (s, refl, v)
run-Session (e ∷ es) s v =
    let (t, one, w) = step-Session e s v in
    let (u, rest, x) = run-Session es t w in (u, rw one rest, x)

pub bind-Session : (io work : ℕ) (h : Handler) → Session 0 (bind io work h)
unfolding bind
bind-Session io work h = record {
  has_io = refl;
  has_work = refl;
  present = refl;
  socket_state = λ k. refl;
  once = refl;
  last = refl;
}

pub run-bind-Session :
    (io work : ℕ) (h : Handler) (es : List Event) → Returns (run es (bind io work h)) (Session 0)
run-bind-Session io work h es = run-Session es (bind io work h) (bind-Session io work h)
