-- ===== src/Tests/Services.antt =====
-- Tests of the pool of bas/io_service_pool.hpp, and of the endpoints of bas/sync_client.hpp.
use baserver.Base.{
  ℕ, List, ◌≡◌, arith, ◌++◌, refl, inl, inr, [], ◌∷◌, length, true, false, ok, fault, assertion,
  deadlock, ◌>>=◌, Returns,
}
use baserver.IoServicePool.{
  Pool, create, check_sizes, new, set_sizes, get_at, get_io_service, start_one, wants_more,
  add_service, get_io_service_load,
}
use baserver.IoServicePool.Control.{start_each, start, wait, stop, IsValid}
use baserver.IoServicePool.Invariant.{
  Event, starts, stops, waits, gets, runs, gets_load, sets, step, run, AllFit, new-run-IsValid,
}
use baserver.IoServicePool.Rotation.{get_services, Rounds, get_services-Rounds}
use baserver.IoServicePool.Growth.{get_loads}
use baserver.EndpointGroup
use baserver.EndpointGroup.{
  EndpointGroup, set_pair, take_at, choose, get_endpoints, get_endpoints_at, get_many,
}
use baserver.EndpointGroup.Turns.{Turns, get_many-Turns}

-- Two io services that run, with a high watermark of 4 and a load of 10.
abbrev running : Pool
running = record {
  blocked = false;
  idle = true;
  io_services = 0 ∷ 1 ∷ [];
  threads = 1 ∷ 0 ∷ [];
  work = 1 ∷ 0 ∷ [];
  pool_init_size = 2;
  pool_high_watermark = 4;
  pool_thread_load = 10;
  next_io_service = 0;
  next_address = 2;
}

program : Unit {0}
unfolding create check_sizes new set_sizes get_at get_io_service start_one wants_more add_service
    get_io_service_load get_loads get_services start_each start wait stop step run
program = tt

get_services-Rounds_example : Returns (get_services 2 running) (Rounds running (0 ∷ 1 ∷ []))
get_services-Rounds_example = get_services-Rounds running (inl refl)

grows_to_watermark : (get_loads 4 99 running >>= λ q. ok q.io_services) ≡ ok (0 ∷ 1 ∷ 2 ∷ 3 ∷ [])
unfolding program
grows_to_watermark = refl

-- Where the mutex may not be taken again, the call never returns.
load_deadlocks : get_io_service_load false 35 running ≡ fault deadlock
unfolding program
load_deadlocks = refl

-- The pool grows by load, stops, takes other sizes, and runs in blocked mode.
abbrev events : List Event
events =
    starts false
    ∷ gets_load 99
    ∷ gets
    ∷ runs
    ∷ stops
    ∷ sets 1 2 5
    ∷ starts true
    ∷ stops
    ∷ gets
    ∷ waits
    ∷ []

new-run-IsValid_example : Returns (new 3 8 10 >>= run events) IsValid
new-run-IsValid_example =
    new-run-IsValid 3 8 10 (omega arith) (omega arith) (omega arith) events fit
  where
    fit : AllFit events
    fit = (
      tt,
      (tt, (tt, (tt, (tt, ((omega arith, omega arith, omega arith), (tt, (tt, (tt, (tt, tt))))))))),
    )

abbrev sizes : Pool → ℕ × (ℕ × ℕ)
sizes p = (length p.io_services, (length p.threads, length p.work))

grown :
    (new 3 8 10 >>= run (starts false ∷ gets_load 99 ∷ []) >>= λ p. ok (sizes p)) ≡ ok (4, (4, 4))
unfolding program
grown = refl

blocked_stop :
    (new 3 8 10 >>= run (starts true ∷ stops ∷ []) >>= λ p. ok (sizes p)) ≡ ok (3, (3, 0))
unfolding program
blocked_stop = refl

-- A new pool of three, twice round.
new_round : (new 3 8 10 >>= get_services 6 >>= λ r. ok (r.0)) ≡ ok (0 ∷ 1 ∷ 2 ∷ 0 ∷ 1 ∷ 2 ∷ [])
unfolding program
new_round = refl

-- No thread runs yet, so that `set` takes the sizes; the wrong ones stop at an assertion.
set_new : (new 3 8 10 >>= set_sizes 1 2 5 >>= λ p. ok (p.pool_high_watermark)) ≡ ok 2
unfolding program
set_new = refl

set_wrong : set_sizes 3 2 5 running ≡ fault assertion
unfolding program
set_wrong = refl

abbrev endpoints : EndpointGroup
endpoints = record { next_endpoint = 3; endpoint_pairs = (1, 0) ∷ (2, 0) ∷ (3, 7) ∷ [] }

get_many-Turns_example :
    Returns (get_many 3 endpoints) (Turns endpoints ((1, 0) ∷ (2, 0) ∷ (3, 7) ∷ []))
get_many-Turns_example = get_many-Turns endpoints (inr (omega arith))

-- An empty group gives the default endpoints, and a single pair is always given.
single :
    (get_many 1 EndpointGroup.new >>= λ r.
    get_many 2 (set_pair (5, 6) (r.1)) >>= λ t. ok (r.0 ++ t.0))
    ≡ ok ((0, 0) ∷ (5, 6) ∷ (5, 6) ∷ [])
unfolding set_pair choose get_endpoints get_many
single = refl

outside : get_endpoints_at 3 endpoints ≡ (0, 0)
unfolding get_endpoints_at
outside = refl
