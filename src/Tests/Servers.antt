-- ===== src/Tests/Servers.antt =====
-- Tests of bas/server.hpp.
use baserver.Base.{
  ℕ, List, ◌≡◌, refl, arith, [], ◌∷◌, true, false, Run, ok, fault, assertion, thrown, ◌>>=◌,
  Returns, length, add_word, sub_word,
}
use baserver.ErrorCode.{ErrorCode, success, other}
use baserver.IoBuffer.{new as new_buffer, clear as clear_buffer}
use baserver.ServiceHandler
use baserver.ServiceHandler.{bind, make, post, dispatch, set_session_expiry}
use baserver.ServiceHandler.Steps.{remove_at}
use baserver.HandlerPool
use baserver.HandlerPool.{Config}
use baserver.HandlerPool.Methods.{Fits}
use baserver.IoServicePool
use baserver.IoServicePool.Control
use baserver.IoServiceGroup
use baserver.Server
use baserver.Server.{
  Server, set_pools, new_internal, get_io, get_work, delay, accept_with, accept_one_i, put,
  handle_accept, handle_held, complete_held, abort_all, end_held, Event, runs_accept, expires,
  runs_timeout, runs_cancelled, closes_acceptor, completes, handles, ends, step, run,
}
use baserver.Server.Accepting.{IsSound, slots}
use baserver.Server.Steps.{Serves}
use baserver.Server.Listening.{Sizes, IsAsserted, listen, listen-run-IsSound, listen-run-Serves}

-- At most two handlers.
abbrev tiny : Config
tiny = record {
  read_buffer_size = 256;
  write_buffer_size = 0;
  session_timeout = 30;
  io_timeout = 0;
  pool_init_size = 1;
  pool_low_watermark = 0;
  pool_high_watermark = 1;
  pool_increment = 1;
  pool_maximum = 2;
}

tiny-Fits : Fits tiny
tiny-Fits = record {
  low_high = omega arith;
  high_maximum = omega arith;
  increments = omega arith;
  sum = omega arith;
  init_size = omega arith;
}

-- Two io threads, and work threads from 1 to 3, one more for each handler in use.
abbrev sizes : ℕ → Sizes
sizes n = record {
  config = tiny;
  io_pool_size = 2;
  work_pool_init_size = 1;
  work_pool_high_watermark = 3;
  work_pool_thread_load = 1;
  accept_queue_length = n;
}

sizes-IsAsserted : IsAsserted (sizes 1)
sizes-IsAsserted = record {
  fits = tiny-Fits;
  some_handlers = omega arith;
  low_init = omega arith;
  some_io = omega arith;
  some_work = omega arith;
  init_high = omega arith;
  some_load = omega arith;
  some_accepts = omega arith;
}

-- Two connections, which leave no handler, until the first ends.
abbrev served : List Event
served =
    runs_accept
    ∷ completes 0 success
    ∷ handles 0
    ∷ completes 0 success
    ∷ handles 0
    ∷ expires
    ∷ ends 1 (make 256 0 30 0)
    ∷ runs_timeout
    ∷ []

abbrev stopped : List Event
stopped = runs_accept ∷ completes 0 success ∷ handles 0 ∷ closes_acceptor ∷ handles 0 ∷ []

listen-run-IsSound_example : Returns (listen (sizes 1) >>= run true stopped) IsSound
listen-run-IsSound_example = listen-run-IsSound (sizes 1) sizes-IsAsserted stopped

listen-run-Serves_example : Returns (listen (sizes 1) >>= run true served) (Serves 1)
listen-run-Serves_example =
    listen-run-Serves (sizes 1) sizes-IsAsserted served
      (tt, (refl, (tt, (refl, (tt, (tt, (tt, (tt, tt))))))))

program : Unit {0}
unfolding new_buffer clear_buffer ServiceHandler.start ServiceHandler.close
    ServiceHandler.start_operation ServiceHandler.call bind make post dispatch set_session_expiry
    remove_at HandlerPool.new HandlerPool.init HandlerPool.make_handler HandlerPool.push_handler
    HandlerPool.create_one HandlerPool.create_handler HandlerPool.grow HandlerPool.take_back
    HandlerPool.get_handler HandlerPool.get_service_handler HandlerPool.put_handler
    HandlerPool.get_load ServiceHandler.clear add_word sub_word IoServicePool.create
    IoServicePool.check_sizes IoServicePool.set_sizes set_pools new_internal IoServicePool.new
    IoServicePool.get_at IoServicePool.get_io_service IoServicePool.start_one
    IoServicePool.wants_more IoServicePool.add_service IoServicePool.get_io_service_load
    Control.start_each Control.start IoServiceGroup.new_pools IoServiceGroup.new
    IoServiceGroup.start_all IoServiceGroup.start Server.new Server.start get_io get_work delay
    accept_with accept_one_i put handle_accept handle_held complete_held abort_all end_held step run
    listen
program = tt

-- The slots, the handlers in use, and the cancelled waits.
abbrev summary : Server → ℕ × (ℕ × ℕ)
summary s = (slots s, (length s.handlers, s.cancelled))

abbrev history : ℕ → List Event → Run (ℕ × (ℕ × ℕ))
history n es = listen (sizes n) >>= run true es >>= λ s. ok (summary s)

one_waits : history 1 served ≡ ok (1, (2, 0))
unfolding program
one_waits = refl

-- An accept that fails is not followed by another: the server has no slot left.
refused : history 1 (runs_accept ∷ completes 0 (other 24) ∷ handles 0 ∷ []) ≡ ok (0, (1, 0))
unfolding program
refused = refl

-- Four slots, two handlers: the slots that wait for the timer become one.
merged : history 4 (runs_accept ∷ runs_accept ∷ runs_accept ∷ runs_accept ∷ []) ≡ ok (3, (2, 1))
unfolding program
merged = refl

-- The acceptor is closed, but the timer is set again as long as both handlers are in use.
still_waits :
    history 1 (
      runs_accept
      ∷ completes 0 success
      ∷ handles 0
      ∷ completes 0 success
      ∷ handles 0
      ∷ closes_acceptor
      ∷ expires
      ∷ runs_timeout
      ∷ expires
      ∷ runs_timeout
      ∷ [])
    ≡ ok (1, (2, 0))
unfolding program
still_waits = refl

-- After a bind that has failed, the acceptor is open and cannot be opened again.
abbrev server_at : ErrorCode → Run Server
server_at bound = do
  pool ← HandlerPool.new tiny
  s ← new_internal pool 2 1 3 1 1
  Server.start bound false s

bind_twice : (server_at (other 98) >>= Server.start success false) ≡ fault thrown
unfolding program
bind_twice = refl

-- The work pool grows with the handlers in use.
abbrev work_services : Server → List ℕ
work_services s = services s.group.pools
  where
    services : List IoServicePool.Pool → List ℕ
    services (o ∷ w ∷ ps) = w.io_services
    services _ = []

grown :
    (listen (sizes 4) >>= run true (runs_accept ∷ runs_accept ∷ runs_accept ∷ []) >>= λ s.
    ok (work_services s))
    ≡ ok (0 ∷ 1 ∷ [])
unfolding program
grown = refl

no_io : (HandlerPool.new tiny >>= λ p. new_internal p 0 1 3 1 1) ≡ fault assertion
unfolding program
no_io = refl
