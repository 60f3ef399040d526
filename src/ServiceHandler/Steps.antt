-- ===== src/ServiceHandler/Steps.antt =====
-- bas/service_handler.hpp: the steps of one session, from `bind` until the handler goes back to its
-- pool. The environment chooses each event: a public method is called from some thread, a task of
-- the io service or of the work service is run, or an operation completes.
use baserver.Base.{ℕ, suc, zero, List, [], ◌∷◌, Option, none, some, Run, ok, ◌>>=◌}
use mathlib.Core.Option
use baserver.ErrorCode.{ErrorCode}
use baserver.ServiceHandler.{HandlerEvent, Bound, IoTask, System, dispatch, close, start}
use baserver.ServiceHandler.Calls.{
  async_read_some, async_read, async_write, async_write_length, parent_post, child_post,
  run_io_task, run_work_task, run_completion,
}

pub data Event : Type 0 where
  closes : ErrorCode → Event
  starts reads_some writes_all : Event
  connects : Bound → Event
  reads writes : ℕ → Event
  reads_some_to reads_to writes_from : ℕ → Event
  posts_parent posts_child : HandlerEvent → Event
  runs_io runs_work : ℕ → Event
  completes : ℕ → ErrorCode → ℕ → Event

-- The element at an index, and the others.
unfoldable pub remove_at {ℓ} : {A : Type ℓ} → ℕ → List A → Option (A × List A)
remove_at i [] = none
remove_at zero (x ∷ xs) = some (x, xs)
remove_at (suc i) (x ∷ xs) = Option.map (λ r. (r.0, x ∷ r.1)) (remove_at i xs)

-- The overloads for a caller's own buffers dispatch whatever length they are given. An index at
-- which nothing waits is no event.
unfoldable pub step : Event → System → Run System
step (closes ec) s = close ec s
step starts s = start s
step reads_some s = async_read_some s
step writes_all s = async_write s
step (connects bound) s = dispatch (IoTask.connect_i bound) s
step (reads n) s = async_read n s
step (writes n) s = async_write_length n s
step (reads_some_to n) s = dispatch (IoTask.read_some_i n) s
step (reads_to n) s = dispatch (IoTask.read_i n) s
step (writes_from n) s = dispatch (IoTask.write_i n) s
step (posts_parent e) s = parent_post e s
step (posts_child e) s = child_post e s
step (runs_io i) s = elim (remove_at i s.io_tasks) [
  | none ↦ ok s
  | some (t, rest) ↦ run_io_task t (record s { io_tasks = rest })
]
step (runs_work i) s = elim (remove_at i s.work_tasks) [
  | none ↦ ok s
  | some (t, rest) ↦ ok (run_work_task t (record s { work_tasks = rest }))
]
step (completes i ec n) s = elim (remove_at i s.operations) [
  | none ↦ ok s
  | some (o, rest) ↦ run_completion o ec n (record s { operations = rest })
]

unfoldable pub run : List Event → System → Run System
run [] s = ok s
run (e ∷ es) s = step e s >>= run es
