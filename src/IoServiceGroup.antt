-- ===== src/IoServiceGroup.antt =====
-- bas/io_service_group.hpp: the group of pools of io services. What the threads of the pools do until
-- they are joined is the environment's: for each round of `stop` and each pool, by its index, whether a
-- handler has run.
pub mod Stopping
use baserver.Base.{
  ℕ, zero, suc, ltb, if◌then◌else◌, Bool, true, false, not, ◌&&◌, List, [], ◌∷◌, length, Option,
  none, some, get_elem?, Run, ok, fault, assertion, assert, ◌>>=◌, ◌>>◌,
}
use baserver.IoServicePool
use baserver.IoServicePool.{Pool}
use baserver.IoServicePool.Control

pub record Group : Type 0 where
  pub pools : List Pool
  pub started : Bool
  pub force_stop : Bool

-- `BAS_IO_SERVICE_POOL_THREAD_LOAD`, the default of the pool's constructor.
abbrev pub thread_load : ℕ
thread_load = 100

-- `io_service_pools_.push_back(io_service_pool_ptr(new io_service_pool(1, 1)))`, `count` times.
unfoldable pub new_pools : ℕ → Run (List Pool)
new_pools zero = ok []
new_pools (suc count) = do p ← IoServicePool.new 1 1 thread_load; ps ← new_pools count; ok (p ∷ ps)

unfoldable pub new : ℕ → Bool → Run Group
new group_size force_stop = do
  assert (ltb 1 group_size)
  ps ← new_pools group_size
  ok (record { pools = ps; started = false; force_stop = force_stop })

-- `set(force_stop)`.
unfoldable pub set_mode : Bool → Group → Group
set_mode force_stop g = if g.started then g else record g { force_stop = force_stop }

unfoldable pub get : ℕ → Group → Run Pool
get index g = elim (get_elem? g.pools index) [ none ↦ fault assertion | some p ↦ ok p ]

unfoldable pub start_all : List Pool → List Pool
start_all [] = []
start_all (p ∷ ps) = Control.start false p ∷ start_all ps

unfoldable pub start : Group → Group
start g = if g.started then g else record g { pools = start_all g.pools; started = true }

-- The pool's threads end before they are joined. `ran` is whether one of them has run a handler.
unfoldable pub stop_pool : Bool → Pool → Pool
stop_pool ran p = Control.stop (record p { idle = p.idle && not ran })

unfoldable pub stop_all : (ℕ → Bool) → List Pool → List Pool
stop_all ran [] = []
stop_all ran (p ∷ ps) = stop_pool (ran 0) p ∷ stop_all (λ i. ran (suc i)) ps

-- The loop that asks the pools whether they are idle.
unfoldable pub all_idle : List Pool → Bool
all_idle [] = true
all_idle (p ∷ ps) = p.idle && all_idle ps

-- The loop of a graceful stop, for `fuel` tests. Without an end it has no result.
unfoldable pub repeat : ℕ → (ℕ → ℕ → Bool) → List Pool → Option (List Pool)
repeat zero ran ps = none
repeat (suc fuel) ran ps =
    let rest = repeat fuel (λ n. ran (suc n)) (stop_all (ran 0) (start_all ps)) in
    if all_idle ps then some ps else rest

-- The rounds of the loop come after the first, which is the stop of the running pools.
unfoldable pub stop : ℕ → (ℕ → ℕ → Bool) → Group → Option Group
stop fuel ran g =
    let ps = stop_all (ran 0) g.pools in
    let looped = repeat fuel (λ n. ran (suc n)) ps in
    if g.started
    then elim (if g.force_stop then some ps else looped) [
      | none ↦ none
      | some qs ↦ some (record g { pools = qs; started = false })
    ]
    else some g
