-- ===== src/Server/Listening.antt =====
-- bas/server.hpp: the server from its constructor and `start` on.
use baserver.Base.{
  ℕ, ◌≤◌, ◌<◌, ◌+◌, ◌≡◌, refl, subst, true, false, List, [], ◌∷◌, Run, ok, ◌>>=◌, Returns, arith,
  ◌==◌, ne→==,
}
use baserver.ErrorCode.{success}
use baserver.HandlerPool
use baserver.HandlerPool.{Config}
use baserver.HandlerPool.Methods.{Fits}
use baserver.HandlerPool.Invariant.{new-Accounted}
use baserver.IoServicePool.Control.{start-IsValid}
use baserver.IoServicePool
use baserver.IoServicePool.Invariant.{new-IsValid, set_sizes-IsValid}
use baserver.IoServiceGroup
use baserver.IoServiceGroup.{Group, start_all, new_pools, thread_load}
use baserver.Server
use baserver.Server.{Server, Event, run, set_pools, new_internal}
use baserver.Server.Accepting.{IsSound, TwoValid, slots}
use baserver.Server.Steps.{AllFine, Serves}
use baserver.Server.Serving.{run-IsSound, run-Serves}

-- The arguments of the server's constructor, with those of its handlers' pool.
pub record Sizes : Type 0 where
  pub config : Config
  pub io_pool_size : ℕ
  pub work_pool_init_size : ℕ
  pub work_pool_high_watermark : ℕ
  pub work_pool_thread_load : ℕ
  pub accept_queue_length : ℕ

-- What the constructors' assertions ask for, and sums of the handlers' pool that do not wrap.
pub record IsAsserted (z : Sizes) : Type 0 where
  pub fits : Fits z.config
  pub some_handlers : 0 < z.config.pool_init_size
  pub low_init : z.config.pool_low_watermark ≤ z.config.pool_init_size
  pub some_io : 0 < z.io_pool_size
  pub some_work : 0 < z.work_pool_init_size
  pub init_high : z.work_pool_init_size ≤ z.work_pool_high_watermark
  pub some_load : 0 < z.work_pool_thread_load
  pub some_accepts : 0 < z.accept_queue_length

-- A server with a group of its own, that has been started without blocking.
unfoldable pub listen : Sizes → Run Server
listen z = do
  pool ← HandlerPool.new z.config
  s ←
      new_internal pool z.io_pool_size z.work_pool_init_size z.work_pool_high_watermark
        z.work_pool_thread_load z.accept_queue_length
  Server.start success false s

group-two :
    (p : IoServicePool.Pool)
    → IoServicePool.new 1 1 thread_load ≡ ok p
    → IoServiceGroup.new 2 false
      ≡ ok (record { pools = p ∷ p ∷ []; started = false; force_stop = false })
unfolding IoServiceGroup.new new_pools
group-two p e = rw e refl

-- The group that the constructor sets up, and its start.
pools-TwoValid :
    (z : Sizes)
    → IsAsserted z
    → (g : Group) × (ps : List IoServicePool.Pool) × (IoServiceGroup.new 2 false ≡ ok g)
      × (set_pools z.io_pool_size z.work_pool_init_size z.work_pool_high_watermark
            z.work_pool_thread_load g.pools
          ≡ ok ps)
      × TwoValid (IoServiceGroup.start (record g { pools = ps })).pools
unfolding IoServiceGroup.start start_all set_pools
pools-TwoValid z a =
    let (p, e, v) = new-IsValid 1 1 thread_load (omega arith) (omega arith) (omega arith) in
    let (o, f, w) =
      set_sizes-IsValid z.io_pool_size z.io_pool_size thread_load p
        (a.some_io, omega arith, omega arith) v in
    let (q, k, x) =
      set_sizes-IsValid z.work_pool_init_size z.work_pool_high_watermark z.work_pool_thread_load p
        (a.some_work, a.init_high, a.some_load) v in
    (
      record { pools = p ∷ p ∷ []; started = false; force_stop = false },
      o ∷ q ∷ [],
      group-two p e,
      rw (f, k) refl,
      (start-IsValid false o w, start-IsValid false q x),
    )

-- What `start` leaves.
abbrev listening : HandlerPool.Pool → Group → ℕ → Server
listening p g n = record {
  pool = HandlerPool.init p;
  group = IoServiceGroup.start g;
  accept_queue_length = n;
  acceptor_open = true;
  started = true;
  block = false;
  has_service_group = true;
  handlers = [];
  posted = 0 + n;
  timer_waits = false;
  expired = 0;
  cancelled = 0;
}

listen-IsSound :
    (z : Sizes)
    → IsAsserted z
    → Returns
        (listen z)
        (λ s. IsSound s × (s.acceptor_open ≡ true) × (slots s ≡ z.accept_queue_length))
unfolding listen new_internal Server.new Server.start
listen-IsSound z a =
    let (p, e, v) = new-Accounted z.config a.fits a.some_handlers a.low_init in
    let (g, ps, k, f, w) = pools-TwoValid z a in
    let positive : (z.accept_queue_length == 0) ≡ false =
      ne→== z.accept_queue_length 0 (λ n. omega (arith, n, a.some_accepts)) in
    (
      listening p (record g { pools = ps }) z.accept_queue_length,
      rw (e, k, f, positive) refl,
      (record { pools = w; accounted = v; sessions = tt }, refl, omega arith),
    )

-- With sizes that pass the constructors' assertions, those of the handlers' pool with a sum that fits a
-- word, every history of a server with a group of its own that has been made and started, without
-- blocking, runs without a fault, where the mutex of a pool may be taken again. At its end there are io
-- services to give, the handlers that the server has taken are accounted for, none of them twice, and
-- each is in a session.
pub listen-run-IsSound :
    (z : Sizes) → IsAsserted z → (es : List Event) → Returns (listen z >>= run true es) IsSound
listen-run-IsSound z a es =
    let (s, e, (v, o, k)) = listen-IsSound z a in
    let (t, r, w) = run-IsSound es s v in (t, rw (e, r) refl, w)

-- With such sizes, and where the mutex of a pool may be taken again, a server with a group of its own
-- that has been made and started, without blocking, keeps on accepting as long as no accept fails and
-- the acceptor is not closed: at the end of every history an accept is under way, or has a connection and
-- is to be followed by another, or is posted, or the timer waits to start one or has expired. Together
-- they are never more than the accept queue's length.
pub listen-run-Serves :
    (z : Sizes)
    → IsAsserted z
    → (es : List Event) → AllFine es
    → Returns (listen z >>= run true es) (Serves z.accept_queue_length)
listen-run-Serves z a es g =
    let (s, e, (v, o, k)) = listen-IsSound z a in
    let (t, r, w) = run-Serves es s g v o (omega (arith, k, a.some_accepts)) in
    (t, rw (e, r) refl, subst (λ m. Serves m t) k w)
