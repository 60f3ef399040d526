-- ===== src/Tests/Pools.antt =====
-- Tests of the pool of bas/service_handler_pool.hpp, and of bas/client.hpp.
use baserver.Base.{
  ℕ, ◌≡◌, refl, List, [], ◌∷◌, length, Bool, true, false, none, ok, fault, deadlock, ◌>>=◌, Returns,
  arith, add_word, sub_word,
}
use baserver.ServiceHandler
use baserver.ServiceHandler.{make, bind}
use baserver.ServiceHandler.Steps.{remove_at}
use baserver.IoBuffer.{new as new_buffer, clear as clear_buffer}
use baserver.HandlerPool.{
  Pool, Config, new, init, make_handler, push_handler, create_one, create_handler, grow, take_back,
  get_handler, get_service_handler, put_handler, get_load, reset_all, clear,
}
use baserver.HandlerPool.Methods.{Fits, Accounted}
use baserver.HandlerPool.Invariant.{
  Lending, Call, gets, puts, closes, start, step, run, Lends, get_service_handler-Lends,
  history-Accounted, clear-drains,
}
use baserver.Client.{Client, connect}
use baserver.Client.Connecting.{Connects, connect-Connects}

abbrev small : Config
small = record {
  read_buffer_size = 256;
  write_buffer_size = 0;
  session_timeout = 30;
  io_timeout = 0;
  pool_init_size = 2;
  pool_low_watermark = 0;
  pool_high_watermark = 4;
  pool_increment = 3;
  pool_maximum = 5;
}

small-Fits : Fits small
small-Fits = record {
  low_high = omega arith;
  high_maximum = omega arith;
  increments = omega arith;
  sum = omega arith;
  init_size = omega arith;
}

abbrev calls : List Call
calls = gets 1 2 ∷ gets 1 2 ∷ gets 1 2 ∷ puts 1 (make 256 0 30 0) ∷ closes ∷ gets 1 2 ∷ []

history-Accounted_example :
    Returns
      (start small >>= run calls)
      (λ l. Accounted l.lent l.pool × (get_load l.pool ≡ length l.lent))
history-Accounted_example = history-Accounted small small-Fits (omega arith) (omega arith) calls

program : Unit {0}
unfolding make bind remove_at new_buffer clear_buffer new init make_handler push_handler create_one
    create_handler grow take_back get_handler get_service_handler put_handler get_load reset_all
    clear start step run add_word sub_word ServiceHandler.clear
program = tt

abbrev summary : Lending → List ℕ × (Bool × (ℕ × ℕ))
summary l = (l.lent, (l.pool.closed, (length l.pool.service_handlers, l.pool.handler_count)))

-- Two handlers are in use when the pool closes; then it gives none.
history_lent : (start small >>= run calls >>= λ l. ok (summary l)) ≡ ok (4 ∷ 1 ∷ [], (true, (0, 2)))
unfolding program
history_lent = refl

-- The pool adds a whole increment while the count is below the maximum of 5, so that the third call
-- leaves 6 handlers.
above_maximum :
    (start (record small { pool_increment = 4 })
      >>= run (gets 1 2 ∷ gets 1 2 ∷ gets 1 2 ∷ [])
      >>= λ l. ok l.pool.handler_count)
    ≡ ok 6
unfolding program
above_maximum = refl

-- One handler is free, and none is in use.
abbrev idle : Pool
idle = record {
  config = small;
  handler_count = 2;
  closed = false;
  service_handlers = record { address = 0; handler = make 256 0 30 0 } ∷ [];
  next_address = 2;
}

idle-Accounted : Accounted (1 ∷ []) idle
idle-Accounted = record {
  fits = small-Fits;
  tally = record {
    counted = refl;
    bounded = omega arith;
    once = λ a. ground arith;
    fresh = λ a n. ground arith;
    shut = λ x. cc;
  };
  limited = omega arith;
}

get_service_handler-Lends_example : Lends (1 ∷ []) idle (get_service_handler 1 2 idle)
get_service_handler-Lends_example = get_service_handler-Lends 1 2 (1 ∷ []) idle idle-Accounted

-- A client with that pool.
abbrev client : Client
client = record { pool = idle; peer_endpoint = 3; local_endpoint = 4 }

connect-Connects_example : Returns (connect 1 2 none client) (Connects 1 2 none (1 ∷ []) client)
connect-Connects_example = connect-Connects 1 2 none (1 ∷ []) client idle-Accounted

clear-drains_example :
    Returns (clear true idle) (λ q. (q.handler_count ≡ 1) × (get_service_handler 1 2 q ≡ (none, q)))
clear-drains_example = clear-drains 1 2 (1 ∷ []) idle idle-Accounted

-- Where the mutex may not be taken again, `clear` never returns: the handler that is released takes it.
clear_deadlocks : clear false idle ≡ fault deadlock
unfolding program
clear_deadlocks = refl
