-- ===== src/SyncHandler/Progress.antt =====
-- bas/sync_handler.hpp: a thread that waits is woken.
use mathlib.Core.List.{append_assoc}
use baserver.Base.{
  ℕ, zero, suc, ◌≡◌, refl, ap, sym, ◌∙◌, subst, ◌⊎◌, inl, inr, Bool, true, false, if◌then◌else◌,
  ◌||◌, not, List, [], ◌∷◌, ◌++◌, Option, none, some, Bool-cases, arith,
}
use baserver.ErrorCode.{ErrorCode, is_success, is_aborted, success}
use baserver.SyncHandler.{
  System, Transfer, Task, Caller, close_i, write_read_i, connect_i, read_some_i, read_i, write_i,
  handle_connect, handle_timeout, handle_read_write, post, notified, notify_i, close_socket,
  set_timer, start_transfer, make,
}
use baserver.SyncHandler.Tasks.{
  start_connect, bind_connect, run_connect_i, run_transfer_i, run_handle_connect, finish_transfer,
  run_handle_read_write, run_handle_timeout, run_close_i, run_task,
}
use baserver.SyncHandler.Calls.{Event, run_next, expire, run}
use baserver.SyncHandler.Waiting.{
  Served, IsTimed, is_waiting, is_request, is_expiry, any, any-append_last, run_next-cons,
}
use baserver.SyncHandler.Frame.{run_task-Frame}
use baserver.SyncHandler.History.{run-IsValid}

-- The io service's thread runs the first `n` tasks, those added meanwhile included.
unfoldable pub drain : ℕ → System → System
drain zero s = s
drain (suc n) s = drain n (run_next s)

abbrev pub IsActive : System → Type 0
IsActive s = (is_success s.handler.ec ≡ true) × (s.handler.pending ≡ true)

-- The thread does not wait, or an operation is under way.
abbrev Answered : System → Type 0
Answered s = (is_waiting s.caller ≡ false) ⊎ IsActive s

Answered-if : (b : Bool) (s t : System) → Answered s → Answered t → Answered (if b then s else t)
Answered-if true s t h k = h
Answered-if false s t h k = k

told : (c : Caller) → is_waiting (notified c) ≡ false
told Caller.outside = refl
told Caller.waits = refl
told Caller.woken = refl

notify_i-Answered : (s : System) → Answered (notify_i s)
unfolding notify_i
notify_i-Answered s = inl (told s.caller)

-- The thread does not wait, or an operation is under way with its timer.
abbrev Begun : System → Type 0
Begun s = (is_waiting s.caller ≡ false) ⊎ IsTimed s

Begun-if : (b : Bool) (s t : System) → Begun s → Begun t → Begun (if b then s else t)
Begun-if true s t h k = h
Begun-if false s t h k = k

notify_i-Begun : (s : System) → Begun (notify_i s)
unfolding notify_i
notify_i-Begun s = inl (told s.caller)

Begun-Answered : (s : System) → Begun s → Answered s
Begun-Answered s (inl h) = inl h
Begun-Answered s (inr v) = inr (v.clear, v.pending)

bind_connect-Begun : (bound : Option ErrorCode) (s : System) → Begun (bind_connect bound s)
unfolding bind_connect start_connect start_transfer set_timer
bind_connect-Begun none s = inr (record { clear = refl; pending = refl; timer = refl })
bind_connect-Begun (some ec) s =
    Begun-if (is_success ec) _ _ (inr (record { clear = refl; pending = refl; timer = refl }))
      (notify_i-Begun _)

run_connect_i-Begun :
    (reconnect : Bool) (bound : Option ErrorCode) (s : System)
    → Begun (run_connect_i reconnect bound s)
unfolding run_connect_i
run_connect_i-Begun reconnect bound s =
    Begun-if s.handler.opened _ _
      (Begun-if reconnect _ _ (bind_connect-Begun bound _) (notify_i-Begun s))
      (bind_connect-Begun bound s)

run_transfer_i-Begun :
    (duplex : Bool) (o : Transfer) (s : System) → Begun (run_transfer_i duplex o s)
unfolding run_transfer_i start_transfer set_timer
run_transfer_i-Begun duplex o s =
    Begun-if s.handler.opened _ _ (inr (record { clear = refl; pending = refl; timer = refl }))
      (notify_i-Begun s)

finish_transfer-Answered : (ec : ErrorCode) (n : ℕ) (s : System) → Answered (finish_transfer ec n s)
unfolding finish_transfer
finish_transfer-Answered ec n s =
    Answered-if _ _ _ (Begun-Answered _ (run_transfer_i-Begun false _ _)) (notify_i-Answered _)

-- Whatever is run while an operation is under way, the thread is woken or an operation stays under way.
run_task-Answered : (t : Task) (s : System) → IsActive s → Answered (run_task t s)
unfolding run_task run_handle_connect run_handle_read_write run_handle_timeout run_close_i
run_task-Answered close_i s (c, p) = rw p (notify_i-Answered _)
run_task-Answered write_read_i s v = Begun-Answered _ (run_transfer_i-Begun true _ s)
run_task-Answered (connect_i reconnect bound) s v =
    Begun-Answered _ (run_connect_i-Begun reconnect bound s)
run_task-Answered (read_some_i n) s v = Begun-Answered _ (run_transfer_i-Begun false _ s)
run_task-Answered (read_i n) s v = Begun-Answered _ (run_transfer_i-Begun false _ s)
run_task-Answered (write_i n) s v = Begun-Answered _ (run_transfer_i-Begun false _ s)
run_task-Answered (handle_connect ec) s v =
    Answered-if (not (is_success s.handler.ec)) _ _ (inr v) (notify_i-Answered _)
run_task-Answered (handle_timeout ec) s v =
    Answered-if (not (is_success s.handler.ec) || (not s.handler.pending || is_aborted ec)) _ _
      (inr v) (notify_i-Answered _)
run_task-Answered (handle_read_write ec n) s v =
    Answered-if (not s.handler.opened || not (is_success s.handler.ec)) _ _ (inr v)
      (finish_transfer-Answered ec n _)

-- A request is answered whatever the state.
request-Begun : (t : Task) (s : System) → is_request t ≡ true → Begun (run_task t s)
unfolding run_task
request-Begun write_read_i s r = run_transfer_i-Begun true _ s
request-Begun (connect_i reconnect bound) s r = run_connect_i-Begun reconnect bound s
request-Begun (read_some_i n) s r = run_transfer_i-Begun false _ s
request-Begun (read_i n) s r = run_transfer_i-Begun false _ s
request-Begun (write_i n) s r = run_transfer_i-Begun false _ s
request-Begun close_i s r = cc
request-Begun (handle_connect ec) s r = cc
request-Begun (handle_timeout ec) s r = cc
request-Begun (handle_read_write ec n) s r = cc

else-holds :
    (P : System → Type 0) (b : Bool) (s t : System) → b ≡ false → P t → P (if b then s else t)
else-holds P true s t e h = cc
else-holds P false s t e h = h

-- An expiry wakes the thread.
expiry-wakes :
    (t : Task) (s : System)
    → is_expiry t ≡ true
    → IsActive s
    → is_waiting (run_task t s).caller ≡ false
unfolding run_task run_handle_timeout notify_i close_socket
expiry-wakes (handle_timeout ec) s x (c, p) =
    else-holds (λ t. is_waiting t.caller ≡ false)
      (not (is_success s.handler.ec) || (not s.handler.pending || is_aborted ec)) _ _
      (ground (arith, c, p, x)) (told s.caller)
expiry-wakes close_i s x v = cc
expiry-wakes write_read_i s x v = cc
expiry-wakes (connect_i reconnect bound) s x v = cc
expiry-wakes (read_some_i n) s x v = cc
expiry-wakes (read_i n) s x v = cc
expiry-wakes (write_i n) s x v = cc
expiry-wakes (handle_connect ec) s x v = cc
expiry-wakes (handle_read_write ec n) s x v = cc

-- The first task of a kind, with what stands before it.
first :
    (test : Task → Bool) (ts : List Task)
    → any test ts ≡ true
    → (before : List Task) × (t : Task) × (after : List Task) × (ts ≡ before ++ t ∷ after)
      × (test t ≡ true)
first test [] h = cc
first test (t ∷ ts) h = elim (Bool-cases (test t)) [
  | inl e ↦ ([], t, ts, refl, e)
  | inr e ↦
      let (before, u, after, d, k) = first test ts (rw e at h) in
      (t ∷ before, u, after, ap (◌∷◌ t) d, k)
]

next-tasks :
    (b : Task) (rest : List Task) (s : System)
    → s.tasks ≡ b ∷ rest
    → (zs : List Task) × ((run_next s).tasks ≡ rest ++ zs)
next-tasks b rest s e =
    let f = run_task-Frame b (record s { tasks = rest }) in
    let (zs, d) = f.added in (zs, ap (λ t. t.tasks) (run_next-cons b rest s e) ∙ d)

-- The task that follows the first stays in its place.
next-first :
    (b t : Task) (before after : List Task) (s : System)
    → s.tasks ≡ b ∷ (before ++ t ∷ after)
    → (after' : List Task) × ((run_next s).tasks ≡ before ++ t ∷ after')
next-first b t before after s e =
    let (zs, d) = next-tasks b (before ++ t ∷ after) s e in
    (after ++ zs, d ∙ append_assoc before (t ∷ after) zs)

drain-request :
    (before : List Task) (t : Task) (after : List Task) (s : System)
    → s.tasks ≡ before ++ t ∷ after
    → is_request t ≡ true
    → (n : ℕ) × Begun (drain n s)
unfolding drain
drain-request [] t after s e r = (
  1,
  subst Begun (sym (run_next-cons t after s e)) (request-Begun t (record s { tasks = after }) r),
)
drain-request (b ∷ before) t after s e r =
    let (after', d) = next-first b t before after s e in
    let (n, h) = drain-request before t after' (run_next s) d r in (suc n, h)

drain-expiry :
    (before : List Task) (t : Task) (after : List Task) (s : System)
    → s.tasks ≡ before ++ t ∷ after
    → is_expiry t ≡ true
    → IsActive s
    → (n : ℕ) × (is_waiting (drain n s).caller ≡ false)
unfolding drain
drain-expiry [] t after s e x v = (
  1,
  subst (λ u. is_waiting u.caller ≡ false) (sym (run_next-cons t after s e))
      (expiry-wakes t (record s { tasks = after }) x v),
)
drain-expiry (b ∷ before) t after s e x v =
    let (after', d) = next-first b t before after s e in
    elim (run_task-Answered b (record s { tasks = before ++ t ∷ after }) v) [
      | inl w ↦ (
        1,
        subst (λ u. is_waiting u.caller ≡ false) (sym (run_next-cons b (before ++ t ∷ after) s e))
            w,
      )
      | inr w ↦
          let (n, h) =
            drain-expiry before t after' (run_next s) d x
              (subst IsActive (sym (run_next-cons b (before ++ t ∷ after) s e)) w) in
          (suc n, h)
    ]

-- The timer expires, if it has not.
expire-expiry :
    (s : System) → IsTimed s → (any is_expiry (expire s).tasks ≡ true) × IsActive (expire s)
unfolding expire post
expire-expiry s v = go s.timer_waits v.timer
  where
    go :
        (b : Bool)
        → (b || any is_expiry s.tasks) ≡ true
        → let t =
            if b then record (post (handle_timeout success) s) { timer_waits = false } else s in
          (any is_expiry t.tasks ≡ true) × IsActive t
    go true h =
        (any-append_last is_expiry s.tasks (handle_timeout success) refl, (v.clear, v.pending))
    go false h = (h, (v.clear, v.pending))

expire-caller : (s : System) → (expire s).caller ≡ s.caller
unfolding expire post
expire-caller s = go s.timer_waits
  where
    go :
        (b : Bool)
        → (if b then record (post (handle_timeout success) s) { timer_waits = false } else s).caller
          ≡ s.caller
    go true = refl
    go false = refl

-- From here the io service's thread and the timer wake the thread.
abbrev pub Wakes : System → Type 0
Wakes s = (n m : ℕ) × (is_waiting (drain m (expire (drain n s))).caller ≡ false)

Begun-Wakes : (s : System) (n : ℕ) → Begun (drain n s) → Wakes s
unfolding drain
Begun-Wakes s n (inl h) = (n, 0, ap is_waiting (expire-caller (drain n s)) ∙ h)
Begun-Wakes s n (inr v) =
    let (x, a) = expire-expiry (drain n s) v in
    let (before, t, after, e, k) = first is_expiry _ x in
    let (m, h) = drain-expiry before t after (expire (drain n s)) e k a in (n, m, h)

Served-Wakes : (s : System) → Served s → Wakes s
unfolding drain
Served-Wakes s (inl h) = Begun-Wakes s 0 (inl h)
Served-Wakes s (inr (inl r)) =
    let (before, t, after, e, k) = first is_request s.tasks r in
    let (n, h) = drain-request before t after s e k in Begun-Wakes s n h
Served-Wakes s (inr (inr v)) = Begun-Wakes s 0 (inr v)

-- After every history a thread that waits is woken without another call: it is enough that the io
-- service's thread runs its tasks, the timer expires if it waits, and the thread runs its tasks again.
pub run-Wakes : (es : List Event) (buffer_size : ℕ) → Wakes (run es (make buffer_size))
run-Wakes es n = Served-Wakes (run es (make n)) (run-IsValid es n).served
