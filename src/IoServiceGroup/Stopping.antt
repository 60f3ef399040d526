-- ===== src/IoServiceGroup/Stopping.antt =====
-- bas/io_service_group.hpp: the end of `stop`.
use baserver.Base.{◌<◌, ◌≡◌, true, false, List, [], ◌∷◌, length}
use baserver.IoServicePool.{Pool}
use baserver.IoServicePool.Control
use baserver.IoServicePool.Control.{is_empty-true}
use baserver.IoServiceGroup.{all_idle}

-- A pool at rest, and one that runs, unblocked.
pub record Rests (p : Pool) : Type 0 where
  pub sized : 0 < p.pool_init_size
  pub no_threads : p.threads ≡ []
  pub no_work : p.work ≡ []

pub record Runs (p : Pool) : Type 0 where
  pub sized : 0 < p.pool_init_size
  pub unblocked : p.blocked ≡ false
  pub works : 0 < length p.work

abbrev pub All : (Pool → Type 0) → List Pool → Type 0
All P [] = Unit {0}
All P (p ∷ ps) = P p × All P ps

-- The pools are at rest, and no handler has run since their last start.
abbrev pub Drained : List Pool → Type 0
Drained ps = All Rests ps × (all_idle ps ≡ true)
