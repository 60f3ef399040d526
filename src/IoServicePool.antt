-- ===== src/IoServicePool.antt =====
-- bas/io_service_pool.hpp: the pool of io services with their threads. An io service is its address,
-- and a thread or a work object is the address of its io service.
pub mod Control
pub mod Invariant
pub mod Rotation
pub mod Growth
use baserver.Base.{
  ℕ, zero, suc, ◌+◌, ◌/◌, ◌==◌, leb, ltb, if◌then◌else◌, Bool, true, false, not, ◌&&◌, List, [],
  ◌∷◌, ◌++◌, length, take, Option, none, some, get_elem?, Run, ok, fault, assertion, deadlock,
  out_of_bounds, division_by_zero, assert, ◌>>=◌, ◌>>◌,
}

pub record Pool : Type 0 where
  pub blocked : Bool
  pub idle : Bool
  pub io_services : List ℕ
  pub threads : List ℕ
  pub work : List ℕ
  pub pool_init_size : ℕ
  pub pool_high_watermark : ℕ
  pub pool_thread_load : ℕ
  pub next_io_service : ℕ
  pub next_address : ℕ

abbrev pub is_empty : List ℕ → Bool
is_empty [] = true
is_empty (x ∷ xs) = false

-- `io_services_.push_back(io_service_ptr(new boost::asio::io_service))`, `count` times.
unfoldable pub create : ℕ → Pool → Pool
create zero p = p
create (suc count) p = create count (record p {
  io_services = p.io_services ++ p.next_address ∷ [];
  next_address = p.next_address + 1;
})

-- The assertions of the constructor and of `set`.
unfoldable pub check_sizes : ℕ → ℕ → ℕ → Run (Unit {0})
check_sizes init_size high_watermark thread_load = do
  assert (not (init_size == 0))
  assert (leb init_size high_watermark)
  assert (not (thread_load == 0))

unfoldable pub new : ℕ → ℕ → ℕ → Run Pool
new init_size high_watermark thread_load = do
  check_sizes init_size high_watermark thread_load
  ok (
      create init_size (record {
        blocked = false;
        idle = true;
        io_services = [];
        threads = [];
        work = [];
        pool_init_size = init_size;
        pool_high_watermark = high_watermark;
        pool_thread_load = thread_load;
        next_io_service = 0;
        next_address = 0;
      }))

unfoldable pub set_sizes : ℕ → ℕ → ℕ → Pool → Run Pool
set_sizes init_size high_watermark thread_load p = do
  check_sizes init_size high_watermark thread_load
  ok (
      if is_empty p.threads
      then record p {
        pool_init_size = init_size;
        pool_high_watermark = high_watermark;
        pool_thread_load = thread_load;
      }
      else p)

-- `*io_services_[next_io_service_++]`, with the index that the round robin has chosen.
unfoldable pub get_at : ℕ → Pool → Run (ℕ × Pool)
get_at next p = elim (get_elem? p.io_services next) [
  | none ↦ fault out_of_bounds
  | some service ↦ ok (service, record p { next_io_service = next + 1 })
]

-- The round robin.
unfoldable pub get_io_service : Pool → Run (ℕ × Pool)
get_io_service p =
    get_at (if leb (length p.io_services) p.next_io_service then 0 else p.next_io_service) p

unfoldable pub start_one : ℕ → Pool → Pool
start_one service p = record p {
  work = p.work ++ service ∷ [];
  threads = p.threads ++ service ∷ [];
}

-- The test for a new io service, in `get_io_service(load)`.
unfoldable pub wants_more : ℕ → Pool → Bool
wants_more threads_number p =
    not p.blocked
    && (not (is_empty p.work)
        && (not (is_empty p.threads)
            && (ltb (length p.io_services) threads_number
                && ltb (length p.io_services) p.pool_high_watermark)))

unfoldable pub add_service : Pool → Pool
add_service p =
    let service = p.next_address in
    let q = create 1 p in record (start_one service q) { next_io_service = length p.io_services }

-- `get_io_service(load)`, which calls `get_io_service()` with the mutex in its hands. `recursive` is
-- whether a thread may take it again.
unfoldable pub get_io_service_load : Bool → ℕ → Pool → Run (ℕ × Pool)
get_io_service_load recursive load p =
    if p.pool_thread_load == 0
    then fault division_by_zero
    else (if recursive
        then get_io_service (if wants_more (load / p.pool_thread_load) p then add_service p else p)
        else fault deadlock)
