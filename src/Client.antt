-- ===== src/Client.antt =====
-- bas/client.hpp: the client, which connects with handlers of a pool. What a bind of the local endpoint
-- gives to `connect_i`, if one is asked for, is a parameter; the endpoints have no other part here.
pub mod Connecting
use baserver.Base.{ℕ, Bool, true, false, Option, none, some, Run, ok, ◌>>=◌}
use baserver.ServiceHandler.{System, Bound, IoTask, dispatch}
use baserver.HandlerPool
use baserver.HandlerPool.{get_service_handler}

pub record Client : Type 0 where
  pub pool : HandlerPool.Pool
  pub peer_endpoint : ℕ
  pub local_endpoint : ℕ

-- The constructor.
unfoldable pub new : HandlerPool.Pool → ℕ → ℕ → Client
new pool peer_endpoint local_endpoint = record {
  pool = HandlerPool.init pool;
  peer_endpoint = peer_endpoint;
  local_endpoint = local_endpoint;
}

-- The end of `connect`: the handler's own `connect`. The answer is the handler, or none for `false`.
unfoldable pub connect_with :
    Bound → Option (ℕ × System) × HandlerPool.Pool → Client → Run (Option (ℕ × System) × Client)
connect_with bound (none, q) c = ok (none, record c { pool = q })
connect_with bound (some (a, s), q) c =
    dispatch (IoTask.connect_i bound) s >>= λ t. ok (some (a, t), record c { pool = q })

-- `connect` with the io service and the work service. With those of a parent, it also makes the two work
-- handlers known to each other, which is not modelled.
unfoldable pub connect : ℕ → ℕ → Bound → Client → Run (Option (ℕ × System) × Client)
connect io_service work_service bound c =
    connect_with bound (get_service_handler io_service work_service c.pool) c
