-- ===== src/SyncHandler/Frame.antt =====
-- bas/sync_handler.hpp: what the io service's thread leaves alone.
use mathlib.Core.List.{append_assoc, append-nil}
use baserver.Base.{
  subst, map, ap, ◌++◌, ℕ, ◌≡◌, refl, sym, ◌∙◌, Bool, true, false, if◌then◌else◌, ◌&&◌, ◌||◌, not,
  ◌==◌, List, [], Option, none, some, inl, inr,
}
use baserver.ErrorCode.{ErrorCode, is_success, is_aborted}
use baserver.IoBuffer.{size, space, clear}
use baserver.SyncHandler.{
  System, Transfer, Task, Caller, close_i, write_read_i, connect_i, read_some_i, read_i, write_i,
  handle_connect, handle_timeout, handle_read_write, notified, notify_i, cancelled_wait, aborted,
  close_socket, set_timer, clear_timer, start_transfer,
}
use baserver.SyncHandler.Tasks.{
  start_connect, bind_connect, run_connect_i, run_transfer_i, run_handle_connect, set_result,
  finish_transfer, run_handle_read_write, run_handle_timeout, shut, run_close_i, run_task,
}
use baserver.SyncHandler.Calls.{run_next}
use baserver.SyncHandler.Waiting.{List-cases, run_next-nil, run_next-cons}

-- Whether the thread is in a call.
abbrev pub is_inside : Caller → Bool
is_inside Caller.outside = false
is_inside _ = true

-- The second list goes on where the first ends.
abbrev pub Extends : List Task → List Task → Type 0
Extends xs ys = (zs : List Task) × (ys ≡ xs ++ zs)

same : (xs : List Task) → Extends xs xs
same xs = ([], sym (append-nil xs))

-- The flag, and whether the thread is in a call, stay, and tasks are added at the end.
pub record Frame (s t : System) : Type 0 where
  pub flag : t.handler.waiting ≡ s.handler.waiting
  pub inside : is_inside t.caller ≡ is_inside s.caller
  pub added : Extends s.tasks t.tasks

Frame-refl : (s : System) → Frame s s
Frame-refl s = record { flag = refl; inside = refl; added = same s.tasks }

Frame-trans : {s t u : System} → Frame s t → Frame t u → Frame s u
Frame-trans {s} f g =
    let (xs, d) = f.added in
    let (ys, e) = g.added in
    record {
      flag = g.flag ∙ f.flag;
      inside = g.inside ∙ f.inside;
      added = (xs ++ ys, e ∙ ap (λ ts. ts ++ ys) d ∙ append_assoc s.tasks xs ys);
    }

Frame-if : (b : Bool) (s t u : System) → Frame s t → Frame s u → Frame s (if b then t else u)
Frame-if true s t u f g = f
Frame-if false s t u f g = g

pub notified-inside : (c : Caller) → is_inside (notified c) ≡ is_inside c
notified-inside Caller.outside = refl
notified-inside Caller.waits = refl
notified-inside Caller.woken = refl

notify_i-Frame : (s : System) → Frame s (notify_i s)
unfolding notify_i
notify_i-Frame s = record { flag = refl; inside = notified-inside s.caller; added = same s.tasks }

close_socket-Frame : (s : System) → Frame s (close_socket s)
unfolding close_socket
close_socket-Frame s = record {
  flag = refl;
  inside = refl;
  added = (map aborted s.transfers, refl);
}

clear_timer-Frame : (s : System) → Frame s (clear_timer s)
unfolding clear_timer
clear_timer-Frame s = record {
  flag = refl;
  inside = refl;
  added = (cancelled_wait s.timer_waits, refl);
}

told :
    (b : Bool) (ec : ErrorCode) (s u : System)
    → Frame s u
    → Frame s (notify_i (record u { handler = record (u.handler) { opened = b; ec = ec } }))
told b ec s u f =
    Frame-trans (record { flag = f.flag; inside = f.inside; added = f.added })
      (notify_i-Frame (record u { handler = record (u.handler) { opened = b; ec = ec } }))

bind_connect-Frame : (bound : Option ErrorCode) (s : System) → Frame s (bind_connect bound s)
unfolding bind_connect start_connect start_transfer set_timer close_socket notify_i
bind_connect-Frame none s = record {
  flag = refl;
  inside = refl;
  added = (cancelled_wait s.timer_waits, refl);
}
bind_connect-Frame (some ec) s =
    Frame-if (is_success ec) s _ _
      (record { flag = refl; inside = refl; added = (cancelled_wait s.timer_waits, refl) })
      (record {
        flag = refl;
        inside = notified-inside s.caller;
        added = (map aborted s.transfers, refl);
      })

run_connect_i-Frame :
    (reconnect : Bool) (bound : Option ErrorCode) (s : System)
    → Frame s (run_connect_i reconnect bound s)
unfolding run_connect_i
run_connect_i-Frame reconnect bound s =
    Frame-if s.handler.opened s _ _
      (Frame-if reconnect s _ _
        (Frame-trans (close_socket-Frame s) (bind_connect-Frame bound (close_socket s)))
        (notify_i-Frame s))
      (bind_connect-Frame bound s)

run_transfer_i-Frame :
    (duplex : Bool) (o : Transfer) (s : System) → Frame s (run_transfer_i duplex o s)
unfolding run_transfer_i start_transfer set_timer
run_transfer_i-Frame duplex o s =
    Frame-if s.handler.opened s _ _
      (record { flag = refl; inside = refl; added = (cancelled_wait s.timer_waits, refl) })
      (notify_i-Frame s)

run_handle_connect-Frame : (ec : ErrorCode) (s : System) → Frame s (run_handle_connect ec s)
unfolding run_handle_connect
run_handle_connect-Frame ec s =
    Frame-if (not (is_success s.handler.ec)) s _ _ (Frame-refl s) (finish (is_success ec))
  where
    finish :
        (b : Bool)
        → Frame s (
            let u = if b then clear_timer s else close_socket (clear_timer s) in
            notify_i (record u { handler = record (u.handler) { opened = b; ec = ec } }))
    finish true = told true ec s (clear_timer s) (clear_timer-Frame s)
    finish false =
        told false ec s (close_socket (clear_timer s))
          (Frame-trans (clear_timer-Frame s) (close_socket-Frame _))

set_result-Frame : (ec : ErrorCode) (n : ℕ) (s : System) → Frame s (set_result ec n s)
unfolding set_result
set_result-Frame ec n s =
    Frame-if s.handler.duplex s _ _ (record { flag = refl; inside = refl; added = same _ })
      (record { flag = refl; inside = refl; added = same _ })

finish_transfer-Frame : (ec : ErrorCode) (n : ℕ) (s : System) → Frame s (finish_transfer ec n s)
unfolding finish_transfer
finish_transfer-Frame ec n s =
    let t = record s { handler = record (s.handler) { buffer = clear s.handler.buffer } } in
    Frame-if (s.handler.duplex && (is_success ec && (n == size s.handler.buffer))) s _ _
      (Frame-trans {t = t} (record { flag = refl; inside = refl; added = same _ })
        (run_transfer_i-Frame false (Transfer.reading_some (space t.handler.buffer)) t))
      (Frame-trans (set_result-Frame ec n s) (notify_i-Frame (set_result ec n s)))

run_handle_read_write-Frame :
    (ec : ErrorCode) (n : ℕ) (s : System) → Frame s (run_handle_read_write ec n s)
unfolding run_handle_read_write
run_handle_read_write-Frame ec n s =
    Frame-if (not s.handler.opened || not (is_success s.handler.ec)) s _ _ (Frame-refl s) (
      Frame-trans
        (Frame-if (is_success ec) s _ _ (clear_timer-Frame s)
          (Frame-trans (clear_timer-Frame s) (close_socket-Frame _)))
        (finish_transfer-Frame ec n _))

run_handle_timeout-Frame : (ec : ErrorCode) (s : System) → Frame s (run_handle_timeout ec s)
unfolding run_handle_timeout
run_handle_timeout-Frame ec s =
    Frame-if (not (is_success s.handler.ec) || (not s.handler.pending || is_aborted ec)) s _ _
      (Frame-refl s)
      (Frame-trans
        (Frame-trans (close_socket-Frame s) (record { flag = refl; inside = refl; added = same _ }))
        (notify_i-Frame _))

run_close_i-Frame : (s : System) → Frame s (run_close_i s)
unfolding run_close_i shut
run_close_i-Frame s =
    Frame-if (s.handler.pending || s.handler.opened) s _ _
      (Frame-trans
        (Frame-trans (Frame-trans (clear_timer-Frame s) (close_socket-Frame (clear_timer s)))
          (record { flag = refl; inside = refl; added = same _ }))
        (notify_i-Frame _))
      (record { flag = refl; inside = refl; added = same _ })

pub run_task-Frame : (t : Task) (s : System) → Frame s (run_task t s)
unfolding run_task
run_task-Frame close_i s = run_close_i-Frame s
run_task-Frame write_read_i s = run_transfer_i-Frame true _ s
run_task-Frame (connect_i reconnect bound) s = run_connect_i-Frame reconnect bound s
run_task-Frame (read_some_i n) s = run_transfer_i-Frame false _ s
run_task-Frame (read_i n) s = run_transfer_i-Frame false _ s
run_task-Frame (write_i n) s = run_transfer_i-Frame false _ s
run_task-Frame (handle_connect ec) s = run_handle_connect-Frame ec s
run_task-Frame (handle_timeout ec) s = run_handle_timeout-Frame ec s
run_task-Frame (handle_read_write ec n) s = run_handle_read_write-Frame ec n s

-- Whether the thread is in a call, as the flag says it.
abbrev pub Keeps : System → System → Type 0
Keeps s t = (t.handler.waiting ≡ s.handler.waiting) × (is_inside t.caller ≡ is_inside s.caller)

pub run_next-Keeps : (s : System) → Keeps s (run_next s)
run_next-Keeps s = elim (List-cases s.tasks) [
  | inl e ↦ subst (Keeps s) (sym (run_next-nil s e)) (refl, refl)
  | inr (t, rest, e) ↦
      let f = run_task-Frame t (record s { tasks = rest }) in
      subst (Keeps s) (sym (run_next-cons t rest s e)) (f.flag, f.inside)
]
