-- ===== src/Server.antt =====
-- bas/server.hpp: the server, with the pool of handlers and the group of io services. An asynchronous
-- accept stands with its handler. The acceptor's io service runs its handlers in any order here, which
-- allows more than its queue does.
pub mod Handlers
pub mod Accepting
pub mod Steps
pub mod Serving
pub mod Listening
use baserver.Base.{
  ℕ, zero, suc, ◌+◌, ◌-◌, ◌==◌, if◌then◌else◌, Bool, true, false, not, ◌||◌, List, [], ◌∷◌, set,
  get_elem?, Option, none, some, Run, ok, fault, assertion, thrown, assert, ◌>>=◌, ◌>>◌,
}
use baserver.ErrorCode.{ErrorCode, success, other, is_success, is_aborted}
use baserver.ServiceHandler
use baserver.ServiceHandler.{Handler, System}
use baserver.ServiceHandler.Steps.{remove_at}
use baserver.HandlerPool
use baserver.HandlerPool.{get_service_handler, put_handler, get_load}
use baserver.IoServicePool
use baserver.IoServicePool.{get_io_service, get_io_service_load, set_sizes}
use baserver.IoServiceGroup
use baserver.IoServiceGroup.{Group, thread_load}

-- A handler waits for a connection, or its accept has completed and `handle_accept` is posted, or its
-- session is under way, or at its end.
pub data Phase : Type 0 where
  accepting in_session : Phase
  accepted : ErrorCode → Phase

pub record Held : Type 0 where
  pub address : ℕ
  pub phase : Phase
  pub system : System

-- `posted`, `expired` and `cancelled` count the posted calls of `accept_one_i`, and of
-- `handle_timeout` without an error and with `operation_aborted`.
pub record Server : Type 0 where
  pub pool : HandlerPool.Pool
  pub group : Group
  pub accept_queue_length : ℕ
  pub acceptor_open : Bool
  pub started : Bool
  pub block : Bool
  pub has_service_group : Bool
  pub handlers : List Held
  pub posted : ℕ
  pub timer_waits : Bool
  pub expired : ℕ
  pub cancelled : ℕ

-- The constructor with an external group, which initializes the pool.
unfoldable pub new : HandlerPool.Pool → Group → ℕ → Bool → Run Server
new pool group accept_queue_length has_service_group = do
  assert (not (accept_queue_length == 0))
  ok (record {
    pool = HandlerPool.init pool;
    group = group;
    accept_queue_length = accept_queue_length;
    acceptor_open = false;
    started = false;
    block = false;
    has_service_group = has_service_group;
    handlers = [];
    posted = 0;
    timer_waits = false;
    expired = 0;
    cancelled = 0;
  })

-- `set` of the io pool, of one size, and of the work pool.
unfoldable pub set_pools : ℕ → ℕ → ℕ → ℕ → List IoServicePool.Pool → Run (List IoServicePool.Pool)
set_pools io_size work_size watermark load (p ∷ q ∷ ps) = do
  o ← set_sizes io_size io_size thread_load p
  w ← set_sizes work_size watermark load q
  ok (o ∷ w ∷ ps)
set_pools io_size work_size watermark load _ = fault assertion

-- The constructor with a group of its own.
unfoldable pub new_internal : HandlerPool.Pool → ℕ → ℕ → ℕ → ℕ → ℕ → Run Server
new_internal pool io_size work_size watermark load accept_queue_length = do
  g ← IoServiceGroup.new 2 false
  ps ← set_pools io_size work_size watermark load g.pools
  new pool (record g { pools = ps }) accept_queue_length true

-- `!has_service_group_ && !service_group_->started()`.
abbrev lacks_group : Server → Bool
lacks_group s = not (s.has_service_group || s.group.started)

-- `start(block)` up to the run of the acceptor's io service. `bound` is what `bind` answers; `open` and
-- `listen` succeed, but `open` throws where the acceptor is open.
unfoldable pub start : ErrorCode → Bool → Server → Run Server
start bound block s =
    if s.started || lacks_group s
    then ok s
    else if s.acceptor_open
    then fault thrown
    else if not (is_success bound)
    then ok (record s { acceptor_open = true })
    else ok (record s {
      acceptor_open = true;
      posted = s.posted + s.accept_queue_length;
      group = if s.has_service_group then IoServiceGroup.start s.group else s.group;
      block = block;
      started = true;
    })

-- `service_group_->get(io_pool).get_io_service()`, and that of the work pool by its load.
unfoldable pub get_io : List IoServicePool.Pool → Run (ℕ × List IoServicePool.Pool)
get_io [] = fault assertion
get_io (p ∷ ps) = get_io_service p >>= λ (a, q). ok (a, q ∷ ps)

unfoldable pub get_work : Bool → ℕ → List IoServicePool.Pool → Run (ℕ × List IoServicePool.Pool)
get_work recursive load (o ∷ p ∷ ps) =
    get_io_service_load recursive load p >>= λ (a, q). ok (a, o ∷ q ∷ ps)
get_work recursive load _ = fault assertion

-- The timer is set again: a wait that is under way is cancelled.
unfoldable pub delay : Server → Server
delay s = record s {
  cancelled = if s.timer_waits then s.cancelled + 1 else s.cancelled;
  timer_waits = true;
}

-- An accept on a closed acceptor completes at once.
abbrev bad_descriptor : ErrorCode
bad_descriptor = other 9

unfoldable pub accept_with : Option (ℕ × System) → Server → Server
accept_with none s = delay s
accept_with (some (a, t)) s = record s {
  handlers =
      record {
        address = a;
        phase = if s.acceptor_open then accepting else accepted bad_descriptor;
        system = t;
      }
      ∷ s.handlers;
}

-- `recursive` is whether a thread may take again the mutex of a pool that it holds. C++ leaves open
-- which of the two io services is got first.
unfoldable pub accept_one_i : Bool → Server → Run Server
accept_one_i recursive s = do
  (io, ps) ← get_io s.group.pools
  (work, qs) ← get_work recursive (get_load s.pool) ps
  let r = get_service_handler io work s.pool
  ok (accept_with (r.0) (record s { pool = r.1; group = record (s.group) { pools = qs } }))

unfoldable pub put : ℕ → Phase → Held → System → Server → Server
put i phase h t s = record s {
  handlers = set s.handlers i (record h { phase = phase; system = t });
}

unfoldable pub handle_accept : Bool → ℕ → ErrorCode → Held → Server → Run Server
handle_accept recursive i e h s =
    if is_success e
    then (ServiceHandler.start h.system >>= λ t. accept_one_i recursive (put i in_session h t s))
    else (ServiceHandler.close (if is_aborted e then success else e) h.system >>= λ t.
        ok (put i in_session h t s))

-- `completes i e` is the completion of an accept, `ends i h` the end of the last reference to a
-- handler, as its session left it; the others run what is posted, or let the timer expire.
pub data Event : Type 0 where
  runs_accept expires runs_timeout runs_cancelled closes_acceptor : Event
  completes : ℕ → ErrorCode → Event
  handles : ℕ → Event
  ends : ℕ → Handler → Event

unfoldable pub handle_held : Bool → ℕ → Held → Server → Run Server
handle_held recursive i h s = elim h.phase [
  | accepted e ↦ handle_accept recursive i e h s
  | _ ↦ ok s
]

unfoldable pub complete_held : ℕ → ErrorCode → Held → Server → Server
complete_held i e h s = elim h.phase [ accepting ↦ put i (accepted e) h h.system s | _ ↦ s ]

-- The acceptor's close, which `stop` posts: every accept is cancelled. The timer is not.
abbrev pub abort_phase : Phase → Phase
abort_phase accepting = accepted ErrorCode.operation_aborted
abort_phase p = p

unfoldable pub abort_all : List Held → List Held
abort_all [] = []
abort_all (h ∷ hs) = record h { phase = abort_phase h.phase } ∷ abort_all hs

unfoldable pub end_held : Held → List Held → Handler → Server → Server
end_held h rest last s = elim h.phase [
  | in_session ↦ record s {
    handlers = rest;
    pool = put_handler (record { address = h.address; handler = last }) s.pool;
  }
  | _ ↦ s
]

unfoldable pub step : Bool → Event → Server → Run Server
step recursive runs_accept s = elim s.posted [
  | zero ↦ ok s
  | suc n ↦ accept_one_i recursive (record s { posted = n })
]
step recursive expires s =
    ok (if s.timer_waits then record s { timer_waits = false; expired = s.expired + 1 } else s)
step recursive runs_timeout s = elim s.expired [
  | zero ↦ ok s
  | suc n ↦ accept_one_i recursive (record s { expired = n })
]
step recursive runs_cancelled s = ok (record s { cancelled = s.cancelled - 1 })
step recursive closes_acceptor s =
    ok (record s { acceptor_open = false; handlers = abort_all s.handlers })
step recursive (completes i e) s = elim (get_elem? s.handlers i) [
  | none ↦ ok s
  | some h ↦ ok (complete_held i e h s)
]
step recursive (handles i) s = elim (get_elem? s.handlers i) [
  | none ↦ ok s
  | some h ↦ handle_held recursive i h s
]
step recursive (ends i last) s = elim (remove_at i s.handlers) [
  | none ↦ ok s
  | some (h, rest) ↦ ok (end_held h rest last s)
]

unfoldable pub run : Bool → List Event → Server → Run Server
run recursive [] s = ok s
run recursive (e ∷ es) s = step recursive e s >>= run recursive es
