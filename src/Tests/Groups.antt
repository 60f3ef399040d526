-- ===== src/Tests/Groups.antt =====
-- Tests of bas/io_service_group.hpp.
use baserver.Base.{
  ℕ, List, ◌≡◌, refl, [], ◌∷◌, length, Bool, true, false, ok, fault, assertion, ◌>>=◌, Option, some,
  none, ltb, ◌==◌, if◌then◌else◌,
}
use baserver.IoServicePool.{Pool, create, check_sizes, new as new_pool, start_one}
use baserver.IoServicePool.Control
use baserver.IoServiceGroup.{
  Group, new_pools, new, set_mode, get, start_all, start, stop_pool, stop_all, all_idle, repeat,
  stop,
}

abbrev running : Pool
running = record {
  blocked = false;
  idle = true;
  io_services = 0 ∷ [];
  threads = 0 ∷ [];
  work = 0 ∷ [];
  pool_init_size = 1;
  pool_high_watermark = 1;
  pool_thread_load = 100;
  next_io_service = 0;
  next_address = 1;
}

abbrev group : Group
group = record { pools = running ∷ running ∷ []; started = true; force_stop = false }

-- Handlers run in the first three rounds, in the second pool only.
abbrev ran : ℕ → ℕ → Bool
ran n i = if ltb n 3 then i == 1 else false

program : Unit {0}
unfolding create check_sizes new_pool start_one Control.start Control.start_each Control.wait
    Control.stop new_pools new set_mode get start_all start stop_pool stop_all all_idle repeat stop
program = tt

-- The threads, the work objects and the flag of each pool.
abbrev summary : List Pool → List (ℕ × (ℕ × Bool))
summary [] = []
summary (p ∷ ps) = (length p.threads, (length p.work, p.idle)) ∷ summary ps

-- A new group of two runs a thread in each pool.
started_group :
    (new 2 false >>= λ g. ok (summary (start g).pools)) ≡ ok ((1, (1, true)) ∷ (1, (1, true)) ∷ [])
unfolding program
started_group = refl

-- A loop that is not given enough rounds is not over.
still_busy : stop 2 ran group ≡ none
unfolding program
still_busy = refl

-- A forced stop does not repeat.
abbrev pools_of : Option Group → List (ℕ × (ℕ × Bool))
pools_of none = []
pools_of (some g) = summary g.pools

forced :
    pools_of (stop 0 ran (record group { force_stop = true }))
    ≡ (0, (0, true)) ∷ (0, (0, false)) ∷ []
unfolding program
forced = refl

too_small : new 1 false ≡ fault assertion
unfolding program
too_small = refl

missing : get 2 group ≡ fault assertion
unfolding program
missing = refl
