-- ===== src/IoServicePool/Invariant.antt =====
-- bas/io_service_pool.hpp: histories of the pool.
use baserver.Base.{
  ℕ, ◌+◌, ◌/◌, ◌≤◌, ◌<◌, ◌≡◌, refl, ap, sym, ◌∙◌, subst, leb, ltb, ◌==◌, if◌then◌else◌, Bool, true,
  false, not, ◌&&◌, List, [], ◌∷◌, length, length-append, get_or, get_elem?-get_or, Run, ok, ◌>>=◌,
  Returns, inl, inr, Bool-cases, arith, ne→==, le→leb,
}
use baserver.IoServicePool.{
  Pool, create, check_sizes, new, set_sizes, start_one, is_empty, get_at, get_io_service,
  get_io_service_load, wants_more, add_service,
}
use baserver.IoServicePool.Control.{
  start, wait, stop, IsValid, start-IsValid, stop-IsValid, wait-IsValid, create-services,
  is_empty-true,
}
use baserver.IoServicePool.Rotation.{below, get_at-some}

-- A call of the pool, the end of the wait of a blocked `start`, or the end of a thread that has run a
-- handler. `set` is called with sizes that pass its assertions.
pub data Event : Type 0 where
  starts : Bool → Event
  stops waits gets runs : Event
  gets_load : ℕ → Event
  sets : ℕ → ℕ → ℕ → Event

-- `join` returns when the work objects are gone.
unfoldable pub step : Event → Pool → Run Pool
step (starts blocked) p = ok (start blocked p)
step stops p = ok (stop p)
step waits p = ok (if p.blocked && is_empty p.work then wait p else p)
step gets p = do (service, q) ← get_io_service p; ok q
step runs p = ok (record p { idle = false })
step (gets_load load) p = do (service, q) ← get_io_service_load true load p; ok q
step (sets init_size high_watermark thread_load) p =
    set_sizes init_size high_watermark thread_load p

unfoldable pub run : List Event → Pool → Run Pool
run [] p = ok p
run (e ∷ es) p = step e p >>= run es

abbrev pub EventFits : Event → Type 0
EventFits (sets init_size high_watermark thread_load) =
    (0 < init_size) × (init_size ≤ high_watermark) × (0 < thread_load)
EventFits _ = Unit {0}

abbrev pub AllFit : List Event → Type 0
AllFit [] = Unit {0}
AllFit (e ∷ es) = EventFits e × AllFit es

-- The index and the flag have no part in it.
IsValid-next : (n : ℕ) (p : Pool) → IsValid p → IsValid (record p { next_io_service = n })
IsValid-next n p v = record {
  init_size = v.init_size;
  watermark = v.watermark;
  load = v.load;
  services = v.services;
  running = v.running;
}

get_at-IsValid :
    (n : ℕ) (p : Pool)
    → n < length p.io_services
    → IsValid p
    → Returns (get_at n p) (λ r. IsValid r.1)
get_at-IsValid n p l v = (
  _,
  get_at-some n (get_or p.io_services n 0) p (get_elem?-get_or p.io_services n 0 l),
  IsValid-next (n + 1) p v,
)

pub get_io_service-IsValid : (p : Pool) → IsValid p → Returns (get_io_service p) (λ r. IsValid r.1)
unfolding get_io_service
get_io_service-IsValid p v = elim (Bool-cases (leb (length p.io_services) p.next_io_service)) [
  | inl e ↦ rw e (get_at-IsValid 0 p v.services v)
  | inr e ↦ rw e (get_at-IsValid p.next_io_service p (ground (arith, e)) v)
]

has_threads : (n : ℕ) (p : Pool) → wants_more n p ≡ true → 0 < length p.threads
unfolding wants_more
has_threads n p h = go p.threads h
  where
    go :
        (ts : List ℕ)
        → (not p.blocked
            && (not (is_empty p.work)
                && (not (is_empty ts)
                    && (ltb (length p.io_services) n
                        && ltb (length p.io_services) p.pool_high_watermark))))
          ≡ true
        → 0 < length ts
    go [] k = both p.blocked (is_empty p.work) k
      where
        both : (a b : Bool) → (not a && (not b && false)) ≡ true → 0 < 0
        both true b k = cc
        both false true k = cc
        both false false k = cc
    go (t ∷ ts) k = omega arith

has_work : (n : ℕ) (p : Pool) → wants_more n p ≡ true → 0 < length p.work
unfolding wants_more
has_work n p h = go p.work h
  where
    go :
        (ws : List ℕ)
        → (not p.blocked
            && (not (is_empty ws)
                && (not (is_empty p.threads)
                    && (ltb (length p.io_services) n
                        && ltb (length p.io_services) p.pool_high_watermark))))
          ≡ true
        → 0 < length ws
    go [] k = both p.blocked k
      where
        both : (a : Bool) → (not a && false) ≡ true → 0 < 0
        both true k = cc
        both false k = cc
    go (w ∷ ws) k = omega arith

add_service-IsValid :
    (n : ℕ) (p : Pool) → IsValid p → wants_more n p ≡ true → IsValid (add_service p)
unfolding add_service create start_one
add_service-IsValid n p v w = record {
  init_size = v.init_size;
  watermark = v.watermark;
  load = v.load;
  services = omega (arith, length-append p.io_services (p.next_address ∷ []));
  running = elim v.running [
    | inl (t, k) ↦ absurd (omega (arith, t, has_threads n p w))
    | inr (t, h, k) ↦ inr (
      omega (
        arith,
        t,
        length-append p.io_services (p.next_address ∷ []),
        length-append p.threads (p.next_address ∷ []),
      ),
      omega (arith, below n p w, length-append p.io_services (p.next_address ∷ [])),
      inr (elim k [
        | inl z ↦ absurd (omega (arith, z, has_work n p w))
        | inr z ↦ omega (
          arith,
          z,
          length-append p.work (p.next_address ∷ []),
          length-append p.threads (p.next_address ∷ []),
        )
      ]),
    )
  ];
}

pub get_io_service_load-IsValid :
    (load : ℕ) (p : Pool) → IsValid p → Returns (get_io_service_load true load p) (λ r. IsValid r.1)
unfolding get_io_service_load
get_io_service_load-IsValid load p v =
    elim (Bool-cases (wants_more (load / p.pool_thread_load) p)) [
      | inl w ↦
          rw (positive, w)
            (get_io_service-IsValid (add_service p)
              (add_service-IsValid (load / p.pool_thread_load) p v w))
      | inr w ↦ rw (positive, w) (get_io_service-IsValid p v)
    ]
  where
    positive : (p.pool_thread_load == 0) ≡ false
    positive = ne→== _ _ (λ e. omega (arith, e, v.load))

check_sizes-ok : (a b c : ℕ) → 0 < a → a ≤ b → 0 < c → check_sizes a b c ≡ ok tt
unfolding check_sizes
check_sizes-ok a b c h k l =
    rw (ne→== a 0 (λ e. omega (arith, e, h)), le→leb a b k, ne→== c 0 (λ e. omega (arith, e, l)))
      refl

pub set_sizes-IsValid :
    (a b c : ℕ) (p : Pool)
    → (0 < a) × (a ≤ b) × (0 < c)
    → IsValid p
    → Returns (set_sizes a b c p) IsValid
unfolding set_sizes
set_sizes-IsValid a b c p (h, k, l) v = elim (Bool-cases (is_empty p.threads)) [
  | inl e ↦ (
    record p { pool_init_size = a; pool_high_watermark = b; pool_thread_load = c },
    rw (check_sizes-ok a b c h k l, e) refl,
    record {
      init_size = h;
      watermark = k;
      load = l;
      services = v.services;
      running = elim v.running [
        | inl r ↦ inl r
        | inr (t, _, _) ↦ absurd (omega (arith, t, v.services, is_empty-true p.threads e))
      ];
    },
  )
  | inr e ↦ (p, rw (check_sizes-ok a b c h k l, e) refl, v)
]

waited : (p : Pool) → IsValid p → IsValid (if p.blocked && is_empty p.work then wait p else p)
waited p v = elim (Bool-cases p.blocked) [
  | inl b ↦ elim (Bool-cases (is_empty p.work)) [
    | inl e ↦
        subst (λ c. IsValid (if c then wait p else p)) (sym (ap (λ d. d && is_empty p.work) b ∙ e))
          (wait-IsValid p v (is_empty-true p.work e))
    | inr e ↦
        subst (λ c. IsValid (if c then wait p else p)) (sym (ap (λ d. d && is_empty p.work) b ∙ e))
          v
  ]
  | inr b ↦
      subst (λ c. IsValid (if c then wait p else p)) (sym (ap (λ d. d && is_empty p.work) b)) v
]

pub step-IsValid : (e : Event) (p : Pool) → EventFits e → IsValid p → Returns (step e p) IsValid
unfolding step
step-IsValid (starts b) p f v = (_, refl, start-IsValid b p v)
step-IsValid stops p f v = (_, refl, stop-IsValid p v)
step-IsValid waits p f v = (_, refl, waited p v)
step-IsValid gets p f v = let (r, e, w) = get_io_service-IsValid p v in (r.1, rw e refl, w)
step-IsValid runs p f v = (
  record p { idle = false },
  refl,
  record {
    init_size = v.init_size;
    watermark = v.watermark;
    load = v.load;
    services = v.services;
    running = v.running;
  },
)
step-IsValid (gets_load n) p f v =
    let (r, e, w) = get_io_service_load-IsValid n p v in (r.1, rw e refl, w)
step-IsValid (sets a b c) p f v = set_sizes-IsValid a b c p f v

run-IsValid : (es : List Event) (p : Pool) → AllFit es → IsValid p → Returns (run es p) IsValid
unfolding run
run-IsValid [] p f v = (p, refl, v)
run-IsValid (e ∷ es) p (f, g) v =
    let (q, a, w) = step-IsValid e p f v in let (r, b, u) = run-IsValid es q g w in (r, rw a b, u)

pub new-IsValid : (a b c : ℕ) → 0 < a → a ≤ b → 0 < c → Returns (new a b c) IsValid
unfolding new
new-IsValid a b c h k l =
    let p : Pool = record {
      blocked = false;
      idle = true;
      io_services = [];
      threads = [];
      work = [];
      pool_init_size = a;
      pool_high_watermark = b;
      pool_thread_load = c;
      next_io_service = 0;
      next_address = 0;
    } in
    let (xs, n, m, e) = create-services a p in
    (
      record p { io_services = xs; next_address = n },
      rw (check_sizes-ok a b c h k l, e) refl,
      record {
        init_size = h;
        watermark = k;
        load = l;
        services = omega (arith, m, h);
        running = inl (refl, refl);
      },
    )

-- From the constructor on, with sizes that pass the assertions, every history runs without a fault
-- where the mutex may be taken again. At its end there is an io service to give; and either there is
-- no thread and no work object, or there is one thread for each io service, not more than the high
-- watermark, and as many work objects, or none after a stop that is waited for.
pub new-run-IsValid :
    (a b c : ℕ)
    → 0 < a
    → a ≤ b
    → 0 < c
    → (es : List Event) → AllFit es
    → Returns (new a b c >>= run es) IsValid
new-run-IsValid a b c h k l es f =
    let (p, e, v) = new-IsValid a b c h k l in
    let (q, g, w) = run-IsValid es p f v in (q, rw (e, g) refl, w)
