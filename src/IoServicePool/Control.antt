-- ===== src/IoServicePool/Control.antt =====
-- bas/io_service_pool.hpp: `start`, `stop` and `wait`, and histories of the pool. In blocked mode
-- `start` waits at its end, when another thread has stopped the pool: that is a step of its own.
use baserver.Base.{
  ℕ, zero, suc, ◌+◌, ◌-◌, ◌≤◌, ◌<◌, ◌≡◌, refl, ap, sym, subst, if◌then◌else◌, Bool, true, false,
  List, [], ◌∷◌, ◌++◌, length, length-append, length-take, take, inl, inr, ◌⊎◌, Bool-cases, arith,
}
use baserver.IoServicePool.{Pool, create, start_one, is_empty}

-- The loop over the io services, the last first.
unfoldable pub start_each : List ℕ → Pool → Pool
start_each [] p = p
start_each (service ∷ services) p = start_one service (start_each services p)

-- What `start` does with the mutex in its hands.
unfoldable pub start : Bool → Pool → Pool
start blocked p =
    if is_empty p.threads
    then (let q =
          create (p.pool_init_size - length p.io_services) (record p { blocked = blocked }) in
        let services = take p.pool_init_size q.io_services in
        start_each services (record q { io_services = services; idle = true }))
    else p

-- Every thread has been joined.
unfoldable pub wait : Pool → Pool
wait p = record p { threads = [] }

-- A forced stop stops the io services besides, which are boost::asio's.
unfoldable pub stop : Pool → Pool
stop p =
    if is_empty p.work
    then p
    else (if p.blocked then record p { work = [] } else wait (record p { work = [] }))

pub record IsValid (p : Pool) : Type 0 where
  pub init_size : 0 < p.pool_init_size
  pub watermark : p.pool_init_size ≤ p.pool_high_watermark
  pub load : 0 < p.pool_thread_load
  pub services : 0 < length p.io_services
  pub running :
      ((length p.threads ≡ 0) × (length p.work ≡ 0))
      ⊎ ((length p.threads ≡ length p.io_services)
          × (length p.io_services ≤ p.pool_high_watermark)
          × ((length p.work ≡ 0) ⊎ (length p.work ≡ length p.threads)))

pub is_empty-true : (xs : List ℕ) → is_empty xs ≡ true → length xs ≡ 0
is_empty-true [] h = refl
is_empty-true (x ∷ xs) h = cc

is_empty-false : (xs : List ℕ) → is_empty xs ≡ false → 0 < length xs
is_empty-false [] h = cc
is_empty-false (x ∷ xs) h = omega arith

-- Only the io services and the next address change.
pub create-services :
    (n : ℕ) (p : Pool)
    → (xs : List ℕ) × (a : ℕ) × (length xs ≡ length p.io_services + n)
      × (create n p ≡ record p { io_services = xs; next_address = a })
unfolding create
create-services zero p = (p.io_services, p.next_address, omega arith, refl)
create-services (suc n) p =
    let (xs, a, l, e) = create-services n (record p {
      io_services = p.io_services ++ p.next_address ∷ [];
      next_address = p.next_address + 1;
    }) in
    (xs, a, omega (arith, l, length-append p.io_services (p.next_address ∷ [])), e)

-- Only the threads and the work objects change.
pub start_each-threads :
    (services : List ℕ) (p : Pool)
    → (ts : List ℕ) × (ws : List ℕ) × (length ts ≡ length p.threads + length services)
      × (length ws ≡ length p.work + length services)
      × (start_each services p ≡ record p { threads = ts; work = ws })
unfolding start_each start_one
start_each-threads [] p = (p.threads, p.work, omega arith, omega arith, refl)
start_each-threads (s ∷ services) p =
    let (ts, ws, l, m, e) = start_each-threads services p in
    (
      ts ++ s ∷ [],
      ws ++ s ∷ [],
      omega (arith, l, length-append ts (s ∷ [])),
      omega (arith, m, length-append ws (s ∷ [])),
      ap (λ q. start_one s q) e,
    )

pub start-stopped :
    (b : Bool) (p : Pool)
    → is_empty p.threads ≡ true
    → start b p ≡ (
        let q = create (p.pool_init_size - length p.io_services) (record p { blocked = b }) in
        let services = take p.pool_init_size q.io_services in
        start_each services (record q { io_services = services; idle = true }))
unfolding start
start-stopped b p e = rw e refl

start-running : (b : Bool) (p : Pool) → is_empty p.threads ≡ false → start b p ≡ p
unfolding start
start-running b p e = rw e refl

-- Without threads there is no work object.
no_work : (p : Pool) → IsValid p → length p.threads ≡ 0 → length p.work ≡ 0
no_work p v n = elim v.running [
  | inl (t, w) ↦ w
  | inr (t, h, w) ↦ absurd (omega (arith, n, t, v.services))
]

pub start-IsValid : (b : Bool) (p : Pool) → IsValid p → IsValid (start b p)
start-IsValid b p v = elim (Bool-cases (is_empty p.threads)) [
  | inl e ↦ rw (start-stopped b p e) (started e)
  | inr e ↦ rw (start-running b p e) v
]
  where
    started :
        is_empty p.threads ≡ true
        → (let q = create (p.pool_init_size - length p.io_services) (record p { blocked = b }) in
            let services = take p.pool_init_size q.io_services in
            IsValid (start_each services (record q { io_services = services; idle = true })))
    started e =
        let (xs, a, l, c) =
          create-services (p.pool_init_size - length p.io_services) (record p { blocked = b }) in
        let services = take p.pool_init_size xs in
        let r : Pool = record p {
          blocked = b;
          io_services = services;
          next_address = a;
          idle = true;
        } in
        let (ts, ws, m, n, d) = start_each-threads services r in
        let count : length services ≡ p.pool_init_size =
          length-take p.pool_init_size xs (omega (arith, l)) in
        let none_run = is_empty-true p.threads e in
        rw (c, d)
          (record {
            init_size = v.init_size;
            watermark = v.watermark;
            load = v.load;
            services = omega (arith, count, v.init_size);
            running = inr (
              omega (arith, m, none_run),
              omega (arith, count, v.watermark),
              inr (omega (arith, m, n, none_run, no_work p v none_run)),
            );
          })

pub wait-IsValid : (p : Pool) → IsValid p → length p.work ≡ 0 → IsValid (wait p)
unfolding wait
wait-IsValid p v n = record {
  init_size = v.init_size;
  watermark = v.watermark;
  load = v.load;
  services = v.services;
  running = inl (refl, n);
}

drained : (p : Pool) → IsValid p → IsValid (record p { work = [] })
drained p v = record {
  init_size = v.init_size;
  watermark = v.watermark;
  load = v.load;
  services = v.services;
  running = elim v.running [ inl (t, w) ↦ inl (t, refl) | inr (t, h, w) ↦ inr (t, h, inl refl) ];
}

pub stop-IsValid : (p : Pool) → IsValid p → IsValid (stop p)
unfolding stop
stop-IsValid p v = elim (Bool-cases (is_empty p.work)) [
  | inl e ↦ rw e v
  | inr e ↦ elim (Bool-cases p.blocked) [
    | inl b ↦ subst IsValid (sym (stopped e b)) (drained p v)
    | inr b ↦
        subst IsValid (sym (waited e b)) (wait-IsValid (record p { work = [] }) (drained p v) refl)
  ]
]
  where
    stopped : is_empty p.work ≡ false → p.blocked ≡ true → stop p ≡ record p { work = [] }
    stopped e b = rw (e, b) refl

    waited : is_empty p.work ≡ false → p.blocked ≡ false → stop p ≡ wait (record p { work = [] })
    waited e b = rw (e, b) refl
