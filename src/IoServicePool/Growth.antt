-- ===== src/IoServicePool/Growth.antt =====
-- bas/io_service_pool.hpp: how far `get_io_service(load)` lets the pool grow.
use baserver.Base.{
  ℕ, zero, suc, ◌+◌, ◌/◌, ◌≡◌, min, max, true, ◌||◌, if◌then◌else◌, length, Run, ok, ◌>>=◌,
}
use baserver.IoServicePool.{Pool, get_io_service_load, is_empty}

-- Some calls of `get_io_service(load)`, one after the other.
unfoldable pub get_loads : ℕ → ℕ → Pool → Run Pool
get_loads zero load p = ok p
get_loads (suc n) load p = do (service, q) ← get_io_service_load true load p; get_loads n load q

-- How many io services the load asks for, within the high watermark. A pool that is blocked, or that
-- has been stopped, gets none.
abbrev pub limit : ℕ → Pool → ℕ
limit load p =
    if p.blocked || (is_empty p.work || is_empty p.threads)
    then 0
    else min p.pool_high_watermark (load / p.pool_thread_load)

-- A call adds an io service below the limit, and changes neither the limit nor what it stands on.
pub record Grown (n load : ℕ) (p q : Pool) : Type 0 where
  pub services :
      length q.io_services
      ≡ max (length p.io_services) (min (length p.io_services + n) (limit load p))
  pub threads : length q.threads + length p.io_services ≡ length p.threads + length q.io_services
  pub works : length q.work + length p.io_services ≡ length p.work + length q.io_services
  pub same_limit : limit load q ≡ limit load p
  pub same_load : q.pool_thread_load ≡ p.pool_thread_load
