-- ===== src/ServiceHandler/Releasing.antt =====
-- bas/service_handler.hpp: when the socket of a session that connects nowhere is closed.
use baserver.Base.{
  ℕ, ◌≤◌, ◌≡◌, refl, sym, ◌∙◌, inl, inr, if◌then◌else◌, ◌||◌, ◌==◌, ltb, Bool-cases, List, [], ◌∷◌,
  some, ok, Returns, arith, Option-cases,
}
use baserver.ErrorCode.{no_buffer_space}
use baserver.IoBuffer
use baserver.ServiceHandler.{Handler, usable, closed, System, bind}
use baserver.ServiceHandler.Calls.{
  async_read_some, async_read, async_write, async_write_length, parent_post, child_post,
  run_io_task, run_completion, run_work_task,
}
use baserver.ServiceHandler.Steps.{
  Event, closes, starts, reads_some, writes_all, connects, reads, writes, reads_some_to, reads_to,
  writes_from, posts_parent, posts_child, runs_io, runs_work, completes, remove_at, step, run,
}
use baserver.ServiceHandler.Session.{Session}
use baserver.ServiceHandler.Lifecycle.{step-Session, bind-Session, run-bind-Session}
use baserver.ServiceHandler.Shutting.{
  AllOther-remove_at, Shut, Shuts, ok-Shuts, if-Shuts, Shut-same, dispatch-Shuts, post-Shuts,
  close-Shuts, start-Shuts, run_io_task-Shuts, run_completion-Shuts, run_work_task-Shut,
}

abbrev pub ConnectsNot : Event → Type 0
ConnectsNot (connects b) = 1 ≤ 0
ConnectsNot _ = Unit {0}

abbrev pub AllConnectNot : List Event → Type 0
AllConnectNot [] = Unit {0}
AllConnectNot (e ∷ es) = ConnectsNot e × AllConnectNot es

step-Shuts : (e : Event) (s : System) → ConnectsNot e → Shut s → Shuts (step e s)
unfolding step async_read_some async_read async_write async_write_length parent_post child_post
step-Shuts (closes ec) s w v t h = (close-Shuts ec s v) t h
step-Shuts starts s w v t h = (start-Shuts s v) t h
step-Shuts reads_some s w v t h =
    (if-Shuts (IoBuffer.space s.handler.read_buffer == 0) _ _ (close-Shuts no_buffer_space s v)
        (dispatch-Shuts _ s tt v))
      t h
step-Shuts writes_all s w v t h =
    (if-Shuts (IoBuffer.empty s.handler.write_buffer) _ _ (close-Shuts no_buffer_space s v)
        (dispatch-Shuts _ s tt v))
      t h
step-Shuts (connects bound) s w v t h = absurd (omega (arith, w))
step-Shuts (reads n) s w v t h =
    (if-Shuts ((n == 0) || ltb (IoBuffer.space s.handler.read_buffer) n) _ _
        (close-Shuts no_buffer_space s v) (dispatch-Shuts _ s tt v))
      t h
step-Shuts (writes n) s w v t h =
    (if-Shuts ((n == 0) || ltb (IoBuffer.size s.handler.write_buffer) n) _ _
        (close-Shuts no_buffer_space s v) (dispatch-Shuts _ s tt v))
      t h
step-Shuts (reads_some_to n) s w v t h = (dispatch-Shuts _ s tt v) t h
step-Shuts (reads_to n) s w v t h = (dispatch-Shuts _ s tt v) t h
step-Shuts (writes_from n) s w v t h = (dispatch-Shuts _ s tt v) t h
step-Shuts (posts_parent e) s w v t h = (post-Shuts _ s v) t h
step-Shuts (posts_child e) s w v t h = (post-Shuts _ s v) t h
step-Shuts (runs_io i) s w v t h = elim (Option-cases (remove_at i s.io_tasks)) [
  | inl e ↦ let k : step (runs_io i) s ≡ ok s = rw (step, e) in ok-Shuts s v t (sym k ∙ h)
  | inr ((x, rest), e) ↦
      let q = record s { io_tasks = rest } in
      let k : step (runs_io i) s ≡ run_io_task x q = rw (step, e) in
      let (y, z) = AllOther-remove_at i s.io_tasks x rest e v.others in
      run_io_task-Shuts x q y (record { others = z; released = v.released }) t (sym k ∙ h)
]
step-Shuts (runs_work i) s w v t h = elim (Option-cases (remove_at i s.work_tasks)) [
  | inl e ↦ let k : step (runs_work i) s ≡ ok s = rw (step, e) in ok-Shuts s v t (sym k ∙ h)
  | inr ((x, rest), e) ↦
      let q = record s { work_tasks = rest } in
      let k : step (runs_work i) s ≡ ok (run_work_task x q) = rw (step, e) in
      ok-Shuts _ (run_work_task-Shut x q (Shut-same s q refl refl refl v)) t (sym k ∙ h)
]
step-Shuts (completes i ec n) s w v t h = elim (Option-cases (remove_at i s.operations)) [
  | inl e ↦ let k : step (completes i ec n) s ≡ ok s = rw (step, e) in ok-Shuts s v t (sym k ∙ h)
  | inr ((x, rest), e) ↦
      let q = record s { operations = rest } in
      let k : step (completes i ec n) s ≡ run_completion x ec n q = rw (step, e) in
      run_completion-Shuts x ec n q (Shut-same s q refl refl refl v) t (sym k ∙ h)
]

run-Shuts :
    (es : List Event) (s : System) → AllConnectNot es → Session 0 s → Shut s → Shuts (run es s)
unfolding run
run-Shuts [] s w y v t h = ok-Shuts s v t h
run-Shuts (e ∷ es) s (w, x) y v t h =
    let (r, k, z) = step-Session e s y in
    let m : run (e ∷ es) s ≡ run es r = rw k in
    run-Shuts es r x z (step-Shuts e s w v r k) t (sym m ∙ h)

bind-Shut : (io work : ℕ) (h : Handler) → Shut (bind io work h)
unfolding bind
bind-Shut io work h = record { others = tt; released = λ e. cc }

-- After `bind`, any sequence of events with no `connects` among them runs to its end, and then the
-- socket is closed exactly if the handler is stopped, and is as `bind` has left it otherwise.
pub run-bind-Releases :
    (io work : ℕ) (h : Handler) (es : List Event)
    → AllConnectNot es
    → Returns
        (run es (bind io work h))
        (λ t. t.handler.socket ≡ some (if t.handler.stopped then closed else usable))
run-bind-Releases io work h es w =
    let (t, done, v) = run-bind-Session io work h es in
    let u = run-Shuts es (bind io work h) w (bind-Session io work h) (bind-Shut io work h) t done in
    (
      t,
      done,
      elim (Bool-cases t.handler.stopped) [
        | inl e ↦ rw e (u.released e)
        | inr e ↦ rw e (v.socket_state e)
      ],
    )
