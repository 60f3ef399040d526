-- ===== src/Server/Serving.antt =====
-- bas/server.hpp: histories of the acceptor's io service.
use baserver.Base.{
  ℕ, zero, suc, ◌+◌, ◌-◌, ◌≤◌, ◌≡◌, refl, ap, sym, subst, Bool, true, false, if◌then◌else◌, List,
  [], ◌∷◌, get_elem?, some, Option-cases, inl, inr, ok, Returns, arith,
}
use baserver.ErrorCode.{ErrorCode, is_success}
use baserver.ServiceHandler.{Handler}
use baserver.ServiceHandler.Steps.{remove_at}
use baserver.HandlerPool.{put_handler}
use baserver.HandlerPool.Methods.{Accounted, put_handler-Accounted}
use baserver.HandlerPool.Invariant.{occurs-remove_at, length-remove_at}
use baserver.Server.{
  Phase, accepting, in_session, accepted, Held, Server, accept_one_i, put, complete_held, abort_all,
  end_held, Event, runs_accept, expires, runs_timeout, runs_cancelled, closes_acceptor, completes,
  handles, ends, step, run,
}
use baserver.Server.Handlers.{
  addresses, slot_of, get-Session, addresses-remove_at, AllSessions-remove_at, slots_in-remove_at,
  addresses-abort_all, AllSessions-abort_all,
}
use baserver.Server.Accepting.{IsSound, slots}
use baserver.Server.Steps.{
  Fine, AllFine, Serves, Stepped, same_slots, used_slot, put-IsSound, slots-put, put-open, idle,
  handle_held-Stepped,
}

complete_held-Stepped :
    (i : ℕ) (e : ErrorCode) (h : Held) (s : Server)
    → IsSound s
    → get_elem? s.handlers i ≡ some h
    → Stepped (is_success e ≡ true) s (complete_held i e h s)
unfolding complete_held
complete_held-Stepped i e h s v at = by_phase h.phase refl
  where
    sound : IsSound (put i (accepted e) h h.system s)
    sound = put-IsSound i (accepted e) h h.system s at (get-Session s.handlers i h at v.sessions) v

    by_phase :
        (p : Phase)
        → h.phase ≡ p
        → Stepped (is_success e ≡ true) s (elim p [
          | accepting ↦ put i (accepted e) h h.system s
          | accepted x ↦ s
          | in_session ↦ s
        ])
    by_phase accepting k = record {
      sound = sound;
      serving = λ f.
          (same_slots (Unit {0}) s (put i (accepted e) h h.system s) sound
              (put-open i (accepted e) h h.system s)
              (omega (
                arith,
                ap slot_of k,
                ap {B = ℕ} (λ b. if b then 1 else 0) f,
                slots-put i (accepted e) h h.system s at,
              ))).serving
            tt;
    }
    by_phase (accepted x) k = same_slots (is_success e ≡ true) s s v refl refl
    by_phase in_session k = same_slots (is_success e ≡ true) s s v refl refl

ended-IsSound :
    (i : ℕ) (h : Held) (rest : List Held) (last : Handler) (s : Server)
    → IsSound s
    → remove_at i s.handlers ≡ some (h, rest)
    → IsSound (record s {
      handlers = rest;
      pool = put_handler (record { address = h.address; handler = last }) s.pool;
    })
ended-IsSound i h rest last s v at =
    let found = addresses-remove_at i s.handlers h rest at in
    record {
      pools = v.pools;
      accounted =
          put_handler-Accounted (addresses s.handlers) (addresses rest)
            (record { address = h.address; handler = last }) s.pool
            (occurs-remove_at i (addresses s.handlers) h.address (addresses rest) found)
            (length-remove_at i (addresses s.handlers) h.address (addresses rest) found)
            v.accounted;
      sessions = AllSessions-remove_at i s.handlers h rest at v.sessions;
    }

end_held-Stepped :
    (i : ℕ) (h : Held) (rest : List Held) (last : Handler) (s : Server)
    → IsSound s
    → remove_at i s.handlers ≡ some (h, rest)
    → Stepped (Unit {0}) s (end_held h rest last s)
unfolding end_held
end_held-Stepped i h rest last s v at = by_phase h.phase refl
  where
    gone : Server
    gone = record s {
      handlers = rest;
      pool = put_handler (record { address = h.address; handler = last }) s.pool;
    }

    by_phase :
        (p : Phase)
        → h.phase ≡ p
        → Stepped (Unit {0}) s (elim p [
          | in_session ↦ record s {
            handlers = rest;
            pool = put_handler (record { address = h.address; handler = last }) s.pool;
          }
          | accepting ↦ s
          | accepted x ↦ s
        ])
    by_phase in_session k =
        same_slots (Unit {0}) s _ (ended-IsSound i h rest last s v at) refl
          (omega (arith, ap slot_of k, slots_in-remove_at i s.handlers h rest at))
    by_phase accepting k = same_slots (Unit {0}) s s v refl refl
    by_phase (accepted x) k = same_slots (Unit {0}) s s v refl refl

-- Fields that have no part in it.
counted :
    (s : Server) (p x c : ℕ) (b : Bool)
    → IsSound s
    → IsSound (record s { posted = p; expired = x; cancelled = c; timer_waits = b })
counted s p x c b v = record { pools = v.pools; accounted = v.accounted; sessions = v.sessions }

step-posted :
    (s : Server) (n : ℕ)
    → s.posted ≡ n
    → IsSound s
    → Returns {V = Server}
        (elim n [ zero ↦ ok s | suc m ↦ accept_one_i true (record s { posted = m }) ])
        (Stepped (Unit {0}) s)
step-posted s zero e v = idle (Unit {0}) s v
step-posted s (suc m) e v =
    used_slot (Unit {0}) s (record s { posted = m })
      (counted s m s.expired s.cancelled s.timer_waits v) refl (omega (arith, e))

step-expired :
    (s : Server) (n : ℕ)
    → s.expired ≡ n
    → IsSound s
    → Returns {V = Server}
        (elim n [ zero ↦ ok s | suc m ↦ accept_one_i true (record s { expired = m }) ])
        (Stepped (Unit {0}) s)
step-expired s zero e v = idle (Unit {0}) s v
step-expired s (suc m) e v =
    used_slot (Unit {0}) s (record s { expired = m })
      (counted s s.posted m s.cancelled s.timer_waits v) refl (omega (arith, e))

expired-Stepped :
    (s : Server) (b : Bool)
    → s.timer_waits ≡ b
    → IsSound s
    → Stepped
        (Unit {0})
        s
        (if b then record s { timer_waits = false; expired = s.expired + 1 } else s)
expired-Stepped s true e v =
    same_slots (Unit {0}) s _ (counted s s.posted (s.expired + 1) s.cancelled false v) refl
      (omega (arith, ap {B = ℕ} (λ b. if b then 1 else 0) e))
expired-Stepped s false e v = same_slots (Unit {0}) s s v refl refl

closed-IsSound :
    (s : Server)
    → IsSound s
    → IsSound (record s { acceptor_open = false; handlers = abort_all s.handlers })
closed-IsSound s v = record {
  pools = v.pools;
  accounted = subst (λ l. Accounted l s.pool) (sym (addresses-abort_all s.handlers)) v.accounted;
  sessions = AllSessions-abort_all s.handlers v.sessions;
}

step-Stepped : (e : Event) (s : Server) → IsSound s → Returns (step true e s) (Stepped (Fine e) s)
unfolding step
step-Stepped runs_accept s v = step-posted s s.posted refl v
step-Stepped runs_timeout s v = step-expired s s.expired refl v
step-Stepped expires s v = (_, refl, expired-Stepped s s.timer_waits refl v)
step-Stepped runs_cancelled s v = (
  _,
  refl,
  same_slots (Unit {0}) s _ (counted s s.posted s.expired (s.cancelled - 1) s.timer_waits v) refl
      refl,
)
step-Stepped closes_acceptor s v =
    (_, refl, record { sound = closed-IsSound s v; serving = λ f. absurd (omega (arith, f)) })
step-Stepped (completes i e) s v = elim (Option-cases (get_elem? s.handlers i)) [
  | inl n ↦ (s, rw (n, step) refl, same_slots (is_success e ≡ true) s s v refl refl)
  | inr (h, at) ↦ (complete_held i e h s, rw (at, step) refl, complete_held-Stepped i e h s v at)
]
step-Stepped (handles i) s v = elim (Option-cases (get_elem? s.handlers i)) [
  | inl n ↦ (s, rw (n, step) refl, same_slots (Unit {0}) s s v refl refl)
  | inr (h, at) ↦ let (t, r, w) = handle_held-Stepped i h s v at in (t, rw (at, step) r, w)
]
step-Stepped (ends i last) s v = elim (Option-cases (remove_at i s.handlers)) [
  | inl n ↦ (s, rw (n, step) refl, same_slots (Unit {0}) s s v refl refl)
  | inr ((h, rest), at) ↦
      (end_held h rest last s, rw (at, step) refl, end_held-Stepped i h rest last s v at)
]

pub run-IsSound : (es : List Event) (s : Server) → IsSound s → Returns (run true es s) IsSound
unfolding run
run-IsSound [] s v = (s, refl, v)
run-IsSound (e ∷ es) s v =
    let (t, r, w) = step-Stepped e s v in
    let (u, rs, x) = run-IsSound es t w.sound in (u, rw r rs, x)

keeps_slots :
    (most : ℕ) (es : List Event) (s : Server)
    → AllFine es
    → IsSound s
    → Serves most s
    → Returns (run true es s) (Serves most)
unfolding run
keeps_slots most [] s f v w = (s, refl, w)
keeps_slots most (e ∷ es) s (f, g) v w =
    let (t, r, x) = step-Stepped e s v in
    let (u, rs, y) = keeps_slots most es t g x.sound (x.serving f most w) in (u, rw r rs, y)

pub run-Serves :
    (es : List Event) (s : Server)
    → AllFine es
    → IsSound s
    → s.acceptor_open ≡ true
    → 1 ≤ slots s
    → Returns (run true es s) (Serves (slots s))
run-Serves es s f v o h =
    keeps_slots (slots s) es s f v (record { listens = o; some_slot = h; at_most = omega arith })
