-- ===== src/HandlerPool.antt =====
-- bas/service_handler_pool.hpp: the pool of handlers. A handler is its address and its state; `new`
-- gives an address that no handler has had. Every method holds the mutex, so a method is one step.
pub mod Create
pub mod Invariant
pub mod Methods
use baserver.Base.{
  ℕ, zero, suc, ◌+◌, ◌==◌, leb, ltb, if◌then◌else◌, Bool, true, false, not, ◌&&◌, ◌||◌, List, [],
  ◌∷◌, Option, none, some, length, add_word, sub_word, Run, ok, fault, assertion, deadlock, assert,
  ◌>>=◌, ◌>>◌,
}
use baserver.ServiceHandler
use baserver.ServiceHandler.{Handler, System}

pub record Pooled : Type 0 where
  pub address : ℕ
  pub handler : Handler

pub record Config : Type 0 where
  pub read_buffer_size : ℕ
  pub write_buffer_size : ℕ
  pub session_timeout : ℕ
  pub io_timeout : ℕ
  pub pool_init_size : ℕ
  pub pool_low_watermark : ℕ
  pub pool_high_watermark : ℕ
  pub pool_increment : ℕ
  pub pool_maximum : ℕ

-- The head of the list is the back of the vector.
pub record Pool : Type 0 where
  pub config : Config
  pub handler_count : ℕ
  pub closed : Bool
  pub service_handlers : List Pooled
  pub next_address : ℕ

-- The constructor, with its assertions on the sizes.
unfoldable pub new : Config → Run Pool
new c = do
  assert (not (c.pool_init_size == 0))
  assert (leb c.pool_low_watermark c.pool_init_size)
  assert (ltb c.pool_low_watermark c.pool_high_watermark)
  assert (ltb c.pool_high_watermark c.pool_maximum)
  assert (not (c.pool_increment == 0))
  ok (record {
    config = c;
    handler_count = 0;
    closed = true;
    service_handlers = [];
    next_address = 0;
  })

unfoldable pub make_handler : Pool → Pooled × Pool
make_handler p =
    let c = p.config in
    (
      record {
        address = p.next_address;
        handler =
            ServiceHandler.make c.read_buffer_size c.write_buffer_size c.session_timeout
              c.io_timeout;
      },
      record p { next_address = p.next_address + 1 },
    )

-- The handler is deleted if the pool is closed or full.
unfoldable pub push_handler : Pooled → Pool → Bool × Pool
push_handler h p =
    if p.closed || leb p.config.pool_high_watermark (length p.service_handlers)
    then (false, p)
    else (true, record p { service_handlers = h ∷ p.service_handlers })

-- The body of the loop of `create_handler`.
unfoldable pub create_one : Pool → Pool
create_one p =
    let (h, made) = make_handler p in
    let (pushed, q) = push_handler h made in
    if pushed then record q { handler_count = add_word q.handler_count 1 } else q

unfoldable pub create_handler : ℕ → Pool → Pool
create_handler zero p = p
create_handler (suc n) p = create_handler n (create_one p)

unfoldable pub init : Pool → Pool
init p = create_handler p.config.pool_init_size (record p { closed = false })

-- The test at the start of `get_handler`.
unfoldable pub grow : Pool → Pool
grow p =
    if leb (length p.service_handlers) p.config.pool_low_watermark
      && ltb p.handler_count p.config.pool_maximum
    then create_handler p.config.pool_increment p
    else p

unfoldable pub take_back : Pool → Option Pooled × Pool
take_back p = elim p.service_handlers [
  | [] ↦ (none, p)
  | h ∷ rest ↦ (some h, record p { service_handlers = rest })
]

unfoldable pub get_handler : Pool → Option Pooled × Pool
get_handler p = if p.closed then (none, p) else take_back (grow p)

-- The handler that is handed out is bound to the services.
unfoldable pub get_service_handler : ℕ → ℕ → Pool → Option (ℕ × System) × Pool
get_service_handler io_service work_service p =
    let (found, q) = get_handler p in
    elim found [
      | none ↦ (none, q)
      | some h ↦ (some (h.address, ServiceHandler.bind io_service work_service h.handler), q)
    ]

-- `put_handler`, which the last reference to a handler calls.
unfoldable pub put_handler : Pooled → Pool → Pool
put_handler h p =
    let (pushed, q) = push_handler (record h { handler = ServiceHandler.clear h.handler }) p in
    if pushed then q else record q { handler_count = sub_word q.handler_count 1 }

unfoldable pub get_load : Pool → ℕ
get_load p = sub_word p.handler_count (length p.service_handlers)

-- The loop of `clear`: the pool has the last reference to a free handler, so each `reset()` calls
-- `put_handler`, which takes the mutex that `clear` holds.
unfoldable pub reset_all : Bool → List Pooled → Pool → Run Pool
reset_all recursive [] p = ok p
reset_all recursive (h ∷ hs) p =
    if recursive then reset_all recursive hs (put_handler h p) else fault deadlock

-- `clear()`, which is `close()`. `recursive` is whether a thread may take again the mutex of
-- boost::asio that it holds, which depends on the platform.
unfoldable pub clear : Bool → Pool → Run Pool
clear recursive p = if p.closed then ok p else do
  q ← reset_all recursive p.service_handlers (record p { closed = true })
  ok (record q { service_handlers = [] })
