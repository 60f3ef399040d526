-- ===== src/SyncHandler/History.antt =====
-- bas/sync_handler.hpp: every history of the handler.
use baserver.Base.{
  ℕ, ◌≡◌, refl, sym, ◌∙◌, Bool, true, false, if◌then◌else◌, ◌&&◌, not, ◌==◌, List, [], ◌∷◌, Option,
  inl, inr, Option-cases,
}
use baserver.ErrorCode.{ErrorCode, is_success, already_started, invalid_argument}
use baserver.IoBuffer.{space, empty}
use baserver.ServiceHandler.Steps.{remove_at}
use baserver.SyncHandler.{
  System, Task, Caller, close_i, write_read_i, connect_i, read_some_i, read_i, write_i, post, make,
  notified,
}
use baserver.SyncHandler.Calls.{
  Outcome, blocks, returns, submit, connect, read_some, read, read_length, write, write_length,
  write_read, close, Event, connects, reads_some, reads, writes, writes_reads, closes, resumes,
  wakes, runs, expires, reads_length, writes_length, reads_some_to, reads_to, writes_from,
  completes, edits, resume, expire, complete, step, run,
}
use baserver.SyncHandler.Waiting.{
  Served, is_request, any-append_last, post-Served, run_next-Served, expire-Served, complete-Served,
  is_waiting,
}
use baserver.SyncHandler.Frame.{is_inside, Keeps, run_next-Keeps, notified-inside}

-- The flag says whether the thread is in a call, so that no other thread is, and the thread is served.
pub record IsValid (s : System) : Type 0 where
  pub flag : s.handler.waiting ≡ is_inside s.caller
  pub served : Served s

-- The state after a call that has two branches.
after-if :
    (b : Bool) (x y : Outcome × System)
    → IsValid x.1
    → IsValid y.1
    → IsValid ((if b then x else y).1)
after-if true x y h k = h
after-if false x y h k = k

submit-IsValid : (t : Task) (s : System) → is_request t ≡ true → IsValid s → IsValid (submit t s).1
unfolding submit post
submit-IsValid t s r v =
    after-if s.handler.waiting (returns already_started, s)
      (
        blocks,
        record (post t s) {
          handler = record (s.handler) { waiting = true };
          caller = Caller.waits;
        },
      )
      v (record { flag = refl; served = inr (inl (any-append_last is_request s.tasks t r)) })

connect-IsValid :
    (reconnect : Bool) (bound : Option ErrorCode) (s : System)
    → IsValid s
    → IsValid (connect reconnect bound s).1
unfolding connect
connect-IsValid reconnect bound s v =
    after-if s.handler.waiting (returns already_started, s) _ v
      (after-if (is_success s.handler.ec && (s.handler.opened && not reconnect))
        (returns s.handler.ec, s) (submit (connect_i reconnect bound) s) v
        (submit-IsValid (connect_i reconnect bound) s refl v))

-- The calls that look at the buffer first.
guarded :
    (b : Bool) (ec : ErrorCode) (t : Task) (s : System)
    → is_request t ≡ true
    → IsValid s
    → IsValid ((if b then (returns ec, s) else submit t s).1)
guarded b ec t s r v = after-if b (returns ec, s) (submit t s) v (submit-IsValid t s r v)

post-IsValid : (t : Task) (s : System) → IsValid s → IsValid (post t s)
unfolding post
post-IsValid t s v = record { flag = v.flag; served = after_post }
  where
    after_post : Served (post t s)
    after_post = post-Served t s v.served

resume-IsValid : (s : System) → IsValid s → IsValid (resume s)
unfolding resume
resume-IsValid s v = go s.caller refl
  where
    go :
        (c : Caller)
        → s.caller ≡ c
        → IsValid (elim c [
          | Caller.woken ↦ record s {
            handler = record (s.handler) { waiting = false };
            caller = Caller.outside;
          }
          | Caller.waits ↦ s
          | Caller.outside ↦ s
        ])
    go Caller.woken e = record { flag = refl; served = inl refl }
    go Caller.waits e = v
    go Caller.outside e = v

expire-Keeps : (s : System) → Keeps s (expire s)
unfolding expire post
expire-Keeps s = go s.timer_waits
  where
    go :
        (b : Bool)
        → Keeps s (
            if b
            then record (post (Task.handle_timeout ErrorCode.success) s) { timer_waits = false }
            else s)
    go true = (refl, refl)
    go false = (refl, refl)

complete-Keeps : (i : ℕ) (ec : ErrorCode) (n : ℕ) (s : System) → Keeps s (complete i ec n s)
unfolding complete post
complete-Keeps i ec n s = elim (Option-cases (remove_at i s.transfers)) [
  | inl e ↦ rw (e, complete) (refl, refl)
  | inr ((o, rest), e) ↦ rw (e, complete) (refl, refl)
]

framed : (s t : System) → IsValid s → Keeps s t → Served t → IsValid t
framed s t v f h = record { flag = f.0 ∙ v.flag ∙ sym f.1; served = h }

pub step-IsValid : (e : Event) (s : System) → IsValid s → IsValid (step e s)
unfolding step read_some read read_length write write_length write_read close
step-IsValid (connects reconnect bound) s v = connect-IsValid reconnect bound s v
step-IsValid reads_some s v =
    guarded (space s.handler.buffer == 0) invalid_argument (read_some_i _) s refl v
step-IsValid reads s v = guarded (space s.handler.buffer == 0) invalid_argument (read_i _) s refl v
step-IsValid writes s v = guarded (empty s.handler.buffer) invalid_argument (write_i _) s refl v
step-IsValid writes_reads s v =
    guarded (empty s.handler.buffer) invalid_argument write_read_i s refl v
step-IsValid (reads_length n) s v = guarded _ invalid_argument (read_i n) s refl v
step-IsValid (writes_length n) s v = guarded _ invalid_argument (write_i n) s refl v
step-IsValid (reads_some_to n) s v = submit-IsValid (read_some_i n) s refl v
step-IsValid (reads_to n) s v = submit-IsValid (read_i n) s refl v
step-IsValid (writes_from n) s v = submit-IsValid (write_i n) s refl v
step-IsValid closes s v = post-IsValid close_i s v
step-IsValid resumes s v = resume-IsValid s v
step-IsValid wakes s v = record {
  flag = v.flag ∙ sym (notified-inside s.caller);
  served = inl (told s.caller);
}
  where
    told : (c : Caller) → is_waiting (notified c) ≡ false
    told Caller.outside = refl
    told Caller.waits = refl
    told Caller.woken = refl
step-IsValid (edits b) s v = record { flag = v.flag; served = kept v.served }
  where
    kept : Served s → Served (record s { handler = record (s.handler) { buffer = b } })
    kept (inl h) = inl h
    kept (inr (inl h)) = inr (inl h)
    kept (inr (inr w)) =
        inr (inr (record { clear = w.clear; pending = w.pending; timer = w.timer }))
step-IsValid runs s v = framed s _ v (run_next-Keeps s) (run_next-Served s v.served)
step-IsValid expires s v = framed s _ v (expire-Keeps s) (expire-Served s v.served)
step-IsValid (completes i ec n) s v =
    framed s _ v (complete-Keeps i ec n s) (complete-Served i ec n s v.served)

make-IsValid : (n : ℕ) → IsValid (make n)
unfolding make
make-IsValid n = record { flag = refl; served = inl refl }

pub run-kept : (es : List Event) (s : System) → IsValid s → IsValid (run es s)
unfolding run
run-kept [] s v = v
run-kept (e ∷ es) s v = run-kept es (step e s) (step-IsValid e s v)

pub run-IsValid : (es : List Event) (buffer_size : ℕ) → IsValid (run es (make buffer_size))
run-IsValid es n = run-kept es (make n) (make-IsValid n)
