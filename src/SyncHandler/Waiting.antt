-- ===== src/SyncHandler/Waiting.antt =====
-- bas/sync_handler.hpp: what a thread that waits can count on.
use baserver.Base.{
  ℕ, ◌≡◌, refl, ap, ◌⊎◌, inl, inr, Bool, true, false, if◌then◌else◌, ◌||◌, not, List, [], ◌∷◌, ◌++◌,
  Option, none, some, Bool-cases, Option-cases, arith,
}
use baserver.ErrorCode.{ErrorCode, is_success, is_aborted, success}
use baserver.ServiceHandler.Steps.{remove_at}
use baserver.SyncHandler.{
  System, Transfer, Task, Caller, close_i, write_read_i, connect_i, read_some_i, read_i, write_i,
  handle_connect, handle_timeout, handle_read_write, post, notified, notify_i, set_timer,
  start_transfer,
}
use baserver.SyncHandler.Tasks.{
  start_connect, bind_connect, run_connect_i, run_transfer_i, run_handle_connect, finish_transfer,
  run_handle_read_write, run_handle_timeout, shut, run_close_i, run_task,
}
use baserver.SyncHandler.Calls.{completion, run_next, expire, complete}

abbrev pub is_request : Task → Bool
is_request (connect_i _ _) = true
is_request (read_some_i _) = true
is_request (read_i _) = true
is_request (write_i _) = true
is_request write_read_i = true
is_request _ = false

abbrev pub is_expiry : Task → Bool
is_expiry (handle_timeout ec) = not (is_aborted ec)
is_expiry _ = false

abbrev pub any : (Task → Bool) → List Task → Bool
any test [] = false
any test (t ∷ ts) = test t || any test ts

-- An operation is under way, and the timer waits, or its expiry is to be handled.
pub record IsTimed (s : System) : Type 0 where
  pub clear : is_success s.handler.ec ≡ true
  pub pending : s.handler.pending ≡ true
  pub timer : (s.timer_waits || any is_expiry s.tasks) ≡ true

abbrev pub is_waiting : Caller → Bool
is_waiting Caller.waits = true
is_waiting _ = false

-- A thread that waits has its request in the queue, or an operation with a timer.
abbrev pub Served : System → Type 0
Served s = (is_waiting s.caller ≡ false) ⊎ ((any is_request s.tasks ≡ true) ⊎ IsTimed s)

pub or-true : (b : Bool) → (b || true) ≡ true
or-true true = refl
or-true false = refl

pub any-append :
    (test : Task → Bool) (ts us : List Task) → any test ts ≡ true → any test (ts ++ us) ≡ true
any-append test [] us h = cc
any-append test (t ∷ ts) us h = elim (Bool-cases (test t)) [
  | inl e ↦ rw e refl
  | inr e ↦ rw e (any-append test ts us (rw e at h))
]

pub any-append_last :
    (test : Task → Bool) (ts : List Task) (t : Task)
    → test t ≡ true
    → any test (ts ++ t ∷ []) ≡ true
any-append_last test [] t h = rw h refl
any-append_last test (u ∷ ts) t h = rw (any-append_last test ts t h) (or-true (test u))

or-append :
    (b : Bool) (ts us : List Task)
    → (b || any is_expiry ts) ≡ true
    → (b || any is_expiry (ts ++ us)) ≡ true
or-append true ts us h = refl
or-append false ts us h = any-append is_expiry ts us h

-- A task at the end changes nothing of it.
pub post-Served : (t : Task) (s : System) → Served s → Served (post t s)
unfolding post
post-Served t s (inl h) = inl h
post-Served t s (inr (inl h)) = inr (inl (any-append is_request s.tasks (t ∷ []) h))
post-Served t s (inr (inr v)) = inr (
    inr (record {
      clear = v.clear;
      pending = v.pending;
      timer = or-append s.timer_waits s.tasks (t ∷ []) v.timer;
    }))

pub notify_i-Served : (s : System) → Served (notify_i s)
unfolding notify_i
notify_i-Served s = inl (told s.caller)
  where
    told : (c : Caller) → is_waiting (notified c) ≡ false
    told Caller.outside = refl
    told Caller.waits = refl
    told Caller.woken = refl

pub start_transfer-Served : (o : Transfer) (s : System) → Served (start_transfer o (set_timer s))
unfolding start_transfer set_timer
start_transfer-Served o s = inr (inr (record { clear = refl; pending = refl; timer = refl }))

pub Served-if : (b : Bool) (s t : System) → Served s → Served t → Served (if b then s else t)
Served-if true s t h k = h
Served-if false s t h k = k

bind_connect-Served : (bound : Option ErrorCode) (s : System) → Served (bind_connect bound s)
unfolding bind_connect start_connect
bind_connect-Served none s = start_transfer-Served Transfer.connecting s
bind_connect-Served (some ec) s =
    Served-if (is_success ec) _ _ (start_transfer-Served Transfer.connecting _) (notify_i-Served _)

-- A request is answered, or starts an operation with a timer.
run_connect_i-Served :
    (reconnect : Bool) (bound : Option ErrorCode) (s : System)
    → Served (run_connect_i reconnect bound s)
unfolding run_connect_i
run_connect_i-Served reconnect bound s =
    Served-if s.handler.opened _ _
      (Served-if reconnect _ _ (bind_connect-Served bound _) (notify_i-Served s))
      (bind_connect-Served bound s)

run_transfer_i-Served :
    (duplex : Bool) (o : Transfer) (s : System) → Served (run_transfer_i duplex o s)
unfolding run_transfer_i
run_transfer_i-Served duplex o s =
    Served-if s.handler.opened _ _ (start_transfer-Served o _) (notify_i-Served s)

finish_transfer-Served : (ec : ErrorCode) (n : ℕ) (s : System) → Served (finish_transfer ec n s)
unfolding finish_transfer
finish_transfer-Served ec n s =
    Served-if _ _ _ (run_transfer_i-Served false _ _) (notify_i-Served _)

-- The first task, which is no request, is taken out.
rest-Served :
    (t : Task) (rest : List Task) (s : System)
    → s.tasks ≡ t ∷ rest
    → is_request t ≡ false
    → ((is_success s.handler.ec ≡ true) → (s.handler.pending ≡ true) → is_expiry t ≡ false)
    → Served s
    → Served (record s { tasks = rest })
rest-Served t rest s e r x (inl h) = inl h
rest-Served t rest s e r x (inr (inl h)) = inr (inl (rw (e, r) at h))
rest-Served t rest s e r x (inr (inr v)) = inr (
    inr (record {
      clear = v.clear;
      pending = v.pending;
      timer = rw (e, x v.clear v.pending) at v.timer;
    }))

run_handle_connect-Served :
    (ec : ErrorCode) (s : System)
    → ((is_success s.handler.ec ≡ false) → Served s)
    → Served (run_handle_connect ec s)
unfolding run_handle_connect
run_handle_connect-Served ec s h = elim (Bool-cases (is_success s.handler.ec)) [
  | inl e ↦ rw e (notify_i-Served _)
  | inr e ↦ rw e (h e)
]

run_handle_read_write-Served :
    (ec : ErrorCode) (n : ℕ) (s : System) → Served s → Served (run_handle_read_write ec n s)
unfolding run_handle_read_write
run_handle_read_write-Served ec n s h =
    Served-if (not s.handler.opened || not (is_success s.handler.ec)) _ _ h
      (finish_transfer-Served ec n _)

run_handle_timeout-Served :
    (ec : ErrorCode) (s : System)
    → (((not (is_success s.handler.ec)) || (not s.handler.pending || is_aborted ec)) ≡ true
        → Served s)
    → Served (run_handle_timeout ec s)
unfolding run_handle_timeout
run_handle_timeout-Served ec s h =
    elim (Bool-cases (not (is_success s.handler.ec) || (not s.handler.pending || is_aborted ec))) [
      | inl e ↦ rw e (h e)
      | inr e ↦ rw e (notify_i-Served _)
    ]

shut-Served :
    (s : System) → (s.handler.pending || s.handler.opened) ≡ false → Served s → Served (shut s)
unfolding shut
shut-Served s e (inl h) = inl h
shut-Served s e (inr (inl h)) = inr (inl h)
shut-Served s e (inr (inr v)) = ground (arith, e, v.pending)

run_close_i-Served : (s : System) → Served s → Served (run_close_i s)
unfolding run_close_i
run_close_i-Served s h = elim (Bool-cases (s.handler.pending || s.handler.opened)) [
  | inl e ↦ rw e (notify_i-Served _)
  | inr e ↦ rw e (shut-Served s e h)
]

-- The io service's thread runs the first of its tasks.
run_task-Served :
    (t : Task) (rest : List Task) (s : System)
    → s.tasks ≡ t ∷ rest
    → Served s
    → Served (run_task t (record s { tasks = rest }))
unfolding run_task
run_task-Served close_i rest s e h =
    run_close_i-Served _ (rest-Served close_i rest s e refl (λ a b. refl) h)
run_task-Served write_read_i rest s e h = run_transfer_i-Served true _ _
run_task-Served (connect_i reconnect bound) rest s e h = run_connect_i-Served reconnect bound _
run_task-Served (read_some_i n) rest s e h = run_transfer_i-Served false _ _
run_task-Served (read_i n) rest s e h = run_transfer_i-Served false _ _
run_task-Served (write_i n) rest s e h = run_transfer_i-Served false _ _
run_task-Served (handle_connect ec) rest s e h =
    run_handle_connect-Served ec _
      (λ k. rest-Served (handle_connect ec) rest s e refl (λ a b. refl) h)
run_task-Served (handle_timeout ec) rest s e h =
    run_handle_timeout-Served ec _
      (λ k. rest-Served (handle_timeout ec) rest s e refl (λ a b. ground (arith, a, b, k)) h)
run_task-Served (handle_read_write ec n) rest s e h =
    run_handle_read_write-Served ec n _
      (rest-Served (handle_read_write ec n) rest s e refl (λ a b. refl) h)

pub run_next-cons :
    (t : Task) (rest : List Task) (s : System)
    → s.tasks ≡ t ∷ rest
    → run_next s ≡ run_task t (record s { tasks = rest })
unfolding run_next
run_next-cons t rest s e = rw (e, run_next) refl

pub run_next-nil : (s : System) → s.tasks ≡ [] → run_next s ≡ s
unfolding run_next
run_next-nil s e = rw (e, run_next) (ap (λ ts. record s { tasks = ts }) e)

pub List-cases {ℓ} :
    {A : Type ℓ} (xs : List A) → (xs ≡ []) ⊎ ((x : A) × (rest : List A) × (xs ≡ x ∷ rest))
List-cases [] = inl refl
List-cases (x ∷ xs) = inr (x, xs, refl)

pub run_next-Served : (s : System) → Served s → Served (run_next s)
run_next-Served s h = elim (List-cases s.tasks) [
  | inl e ↦ rw (run_next-nil s e) h
  | inr (t, rest, e) ↦ rw (run_next-cons t rest s e) (run_task-Served t rest s e h)
]

-- The wait is over, and its handler in the queue.
abbrev fired : System → System
fired s = record (post (handle_timeout success) s) { timer_waits = false }

fired-Served : (s : System) → Served s → Served (fired s)
unfolding post
fired-Served s (inl k) = inl k
fired-Served s (inr (inl k)) =
    inr (inl (any-append is_request s.tasks (handle_timeout success ∷ []) k))
fired-Served s (inr (inr v)) = inr (
    inr (record {
      clear = v.clear;
      pending = v.pending;
      timer = any-append_last is_expiry s.tasks (handle_timeout success) refl;
    }))

pub expire-Served : (s : System) → Served s → Served (expire s)
unfolding expire
expire-Served s h = Served-if s.timer_waits _ _ (fired-Served s h) h

pub complete-Served :
    (i : ℕ) (ec : ErrorCode) (n : ℕ) (s : System) → Served s → Served (complete i ec n s)
unfolding complete
complete-Served i ec n s h = elim (Option-cases (remove_at i s.transfers)) [
  | inl e ↦ rw (e, complete) h
  | inr ((o, rest), e) ↦
      rw (e, complete) (post-Served (completion o ec n) (record s { transfers = rest }) (moved h))
]
  where
    moved : {rest : List Transfer} → Served s → Served (record s { transfers = rest })
    moved (inl k) = inl k
    moved (inr (inl k)) = inr (inl k)
    moved (inr (inr v)) =
        inr (inr (record { clear = v.clear; pending = v.pending; timer = v.timer }))
