-- ===== src/Server/Accepting.antt =====
-- bas/server.hpp: the accepts through any history of the acceptor's io service.
use baserver.Base.{
  ℕ, suc, ◌+◌, ◌≤◌, ◌≡◌, refl, sym, subst, true, if◌then◌else◌, List, [], ◌∷◌, Option, none, some,
  Returns, arith,
}
use baserver.ServiceHandler.{System}
use baserver.HandlerPool
use baserver.HandlerPool.{get_service_handler, put_handler, get_load}
use baserver.HandlerPool.Methods.{Accounted}
use baserver.HandlerPool.Invariant.{Lends, get_service_handler-Lends}
use baserver.IoServicePool
use baserver.IoServicePool.Control.{IsValid}
use baserver.IoServicePool.Invariant.{get_io_service-IsValid, get_io_service_load-IsValid}
use baserver.Server.{Server, get_io, get_work, delay, accept_with, accept_one_i}
use baserver.Server.Handlers.{addresses, AllSessions, slots_in}

-- There are an io pool and a work pool, with an io service each to give.
abbrev pub TwoValid : List IoServicePool.Pool → Type 0
TwoValid (p ∷ q ∷ ps) = IsValid p × IsValid q
TwoValid _ = 1 ≤ 0

pub record IsSound (s : Server) : Type 0 where
  pub pools : TwoValid s.group.pools
  pub accounted : Accounted (addresses s.handlers) s.pool
  pub sessions : AllSessions s.handlers

-- The slots of the server: the accepts under way, and what is to start one.
abbrev pub slots : Server → ℕ
slots s = s.posted + s.expired + (if s.timer_waits then 1 else 0) + slots_in s.handlers

get_io-TwoValid :
    (ps : List IoServicePool.Pool) → TwoValid ps → Returns (get_io ps) (λ r. TwoValid r.1)
unfolding get_io
get_io-TwoValid [] v = absurd (omega (arith, v))
get_io-TwoValid (p ∷ []) v = absurd (omega (arith, v))
get_io-TwoValid (p ∷ q ∷ ps) (v, w) =
    let ((a, r), e, u) = get_io_service-IsValid p v in ((a, r ∷ q ∷ ps), rw e refl, (u, w))

get_work-TwoValid :
    (load : ℕ) (ps : List IoServicePool.Pool)
    → TwoValid ps
    → Returns (get_work true load ps) (λ r. TwoValid r.1)
unfolding get_work
get_work-TwoValid load [] v = absurd (omega (arith, v))
get_work-TwoValid load (p ∷ []) v = absurd (omega (arith, v))
get_work-TwoValid load (p ∷ q ∷ ps) (v, w) =
    let ((a, r), e, u) = get_io_service_load-IsValid load q w in
    ((a, p ∷ r ∷ ps), rw e refl, (v, u))

-- One slot more, or the slot of the timer, which was there: `s` is the server without the slot that
-- has been used.
pub record Follows (s t : Server) : Type 0 where
  pub sound : IsSound t
  pub same_open : t.acceptor_open ≡ s.acceptor_open
  pub serves : s.acceptor_open ≡ true → 1 ≤ slots t
  pub no_more : slots t ≤ suc (slots s)

abbrev gives : Server → List IoServicePool.Pool → Option (ℕ × System) × HandlerPool.Pool → Server
gives s ps r = accept_with (r.0) (record s { pool = r.1; group = record (s.group) { pools = ps } })

gives-Follows :
    (s : Server) (ps : List IoServicePool.Pool) (r : Option (ℕ × System) × HandlerPool.Pool)
    → IsSound s
    → TwoValid ps
    → Lends (addresses s.handlers) s.pool r
    → Follows s (gives s ps r)
unfolding accept_with delay
gives-Follows s ps (none, q) v w (e, l) = record {
  sound = record {
    pools = w;
    accounted = subst (Accounted (addresses s.handlers)) (sym e) v.accounted;
    sessions = v.sessions;
  };
  same_open = refl;
  serves = λ o. omega arith;
  no_more = ground arith;
}
gives-Follows s ps (some (a, t), q) v w (c, k, o, u, l) = record {
  sound = record { pools = w; accounted = l; sessions = (u, v.sessions) };
  same_open = refl;
  serves = λ o. ground (arith, o);
  no_more = ground arith;
}

pub accept_one_i-Follows : (s : Server) → IsSound s → Returns (accept_one_i true s) (Follows s)
unfolding accept_one_i
accept_one_i-Follows s v =
    let ((io, ps), e, w) = get_io-TwoValid s.group.pools v.pools in
    let ((work, qs), f, u) = get_work-TwoValid (get_load s.pool) ps w in
    let r = get_service_handler io work s.pool in
    (
      gives s qs r,
      rw (e, f) refl,
      gives-Follows s qs r v u
          (get_service_handler-Lends io work (addresses s.handlers) s.pool v.accounted),
    )
