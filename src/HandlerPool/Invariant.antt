-- ===== src/HandlerPool/Invariant.antt =====
-- bas/service_handler_pool.hpp: any history of the pool's methods, with the handlers that are lent.
use baserver.Base.{
  ℕ, zero, suc, ◌≤◌, ◌<◌, ◌≡◌, refl, ap, sym, ◌∙◌, subst, ◌⊎◌, inl, inr, true, false, ◌==◌, List,
  [], ◌∷◌, length, arith, Bool-cases, Option-cases, Option, none, some, Run, ok, ◌>>=◌, Returns,
  le→leb, lt→ltb, sub_word-eq-sub,
}
use baserver.ServiceHandler
use baserver.ServiceHandler.{Handler, System}
use baserver.ServiceHandler.Steps.{remove_at}
use baserver.ServiceHandler.Session.{Session}
use baserver.ServiceHandler.Lifecycle.{bind-Session}
use baserver.HandlerPool.{
  Pool, Config, Pooled, new, init, get_handler, get_service_handler, put_handler, get_load, clear,
}
use baserver.HandlerPool.Create.{Tally, create_handler-Tally, occurs}
use baserver.HandlerPool.Methods.{
  Fits, Accounted, Got, get_handler_lem, put_handler-Accounted, clear_lem,
}

-- The pool and the addresses of the handlers that are in use.
pub record Lending : Type 0 where
  pub pool : Pool
  pub lent : List ℕ

-- A call of the pool. `puts i h` is the end of the last reference to the `i`-th handler in use, as
-- the session left it.
pub data Call : Type 0 where
  gets : ℕ → ℕ → Call
  puts : ℕ → Handler → Call
  closes : Call

unfoldable pub start : Config → Run Lending
start c = do p ← new c; ok (record { pool = init p; lent = [] })

unfoldable pub step : Call → Lending → Run Lending
step (gets io work) l =
    let (found, q) = get_service_handler io work l.pool in
    elim found [
      | none ↦ ok (record { pool = q; lent = l.lent })
      | some (a, s) ↦ ok (record { pool = q; lent = a ∷ l.lent })
    ]
step (puts i h) l = elim (remove_at i l.lent) [
  | none ↦ ok l
  | some (a, rest) ↦
      ok (record { pool = put_handler (record { address = a; handler = h }) l.pool; lent = rest })
]
step closes l = do q ← clear true l.pool; ok (record { pool = q; lent = l.lent })

unfoldable pub run : List Call → Lending → Run Lending
run [] l = ok l
run (c ∷ cs) l = step c l >>= run cs

pub occurs-remove_at :
    (i : ℕ) (bs : List ℕ) (b : ℕ) (rest : List ℕ)
    → remove_at i bs ≡ some (b, rest)
    → (a : ℕ) → occurs a bs ≡ occurs a (b ∷ rest)
unfolding remove_at
occurs-remove_at i [] b rest h a = cc
occurs-remove_at zero (c ∷ bs) b rest h a = ground arith
occurs-remove_at (suc i) (c ∷ bs) b rest h a = elim (Option-cases (remove_at i bs)) [
  | inl e ↦ ground (arith, e)
  | inr ((d, rest'), e) ↦ ground (arith, e, occurs-remove_at i bs d rest' e a)
]

pub length-remove_at :
    (i : ℕ) (bs : List ℕ) (b : ℕ) (rest : List ℕ)
    → remove_at i bs ≡ some (b, rest)
    → length bs ≡ suc (length rest)
unfolding remove_at
length-remove_at i [] b rest h = cc
length-remove_at zero (c ∷ bs) b rest h = ground arith
length-remove_at (suc i) (c ∷ bs) b rest h = elim (Option-cases (remove_at i bs)) [
  | inl e ↦ ground (arith, e)
  | inr ((d, rest'), e) ↦ ground (arith, e, length-remove_at i bs d rest' e)
]

pub get_service_handler-closed :
    (io work : ℕ) (p : Pool) → p.closed ≡ true → get_service_handler io work p ≡ (none, p)
unfolding get_service_handler get_handler
get_service_handler-closed io work p c = rw c refl

pub get_service_handler-none :
    (io work : ℕ) (p q : Pool)
    → get_handler p ≡ (none, q)
    → get_service_handler io work p ≡ (none, q)
unfolding get_service_handler
get_service_handler-none io work p q e = rw (e, get_service_handler) (ap (λ r. (none, r.1)) e)

pub get_service_handler-some :
    (io work : ℕ) (p q : Pool) (h : Pooled)
    → get_handler p ≡ (some h, q)
    → get_service_handler io work p ≡ (some (h.address, ServiceHandler.bind io work h.handler), q)
unfolding get_service_handler
get_service_handler-some io work p q h e =
    rw (e, get_service_handler)
      (ap (λ r. (some (h.address, ServiceHandler.bind io work h.handler), r.1)) e)

-- What the caller of `get_service_handler` gets.
abbrev pub Lends : List ℕ → Pool → Option (ℕ × System) × Pool → Type 0
Lends lent p (none, q) =
    (q ≡ p)
    × ((p.closed ≡ true)
        ⊎ ((length p.service_handlers ≡ 0) × (p.config.pool_maximum ≤ p.handler_count)))
Lends lent p (some (a, s), q) =
    (p.closed ≡ false)
    × (q.closed ≡ false)
    × (occurs a lent ≡ 0)
    × Session 0 s
    × Accounted (a ∷ lent) q

-- On a pool whose handlers are accounted for, `get_service_handler` either changes nothing and gives
-- no handler, which happens only if the pool is closed, or has no free handler and as many as its
-- maximum; or it gives a handler that nobody has, ready for a session.
pub get_service_handler-Lends :
    (io work : ℕ) (lent : List ℕ) (p : Pool)
    → Accounted lent p
    → Lends lent p (get_service_handler io work p)
get_service_handler-Lends io work lent p v = elim (Bool-cases p.closed) [
  | inl c ↦ rw (get_service_handler-closed io work p c) (refl, inl c)
  | inr c ↦ go (get_handler p).0 (get_handler p).1 refl (get_handler_lem lent p v c) c
]
  where
    go :
        (found : Option Pooled) (q : Pool)
        → get_handler p ≡ (found, q)
        → Got lent p found q
        → p.closed ≡ false
        → Lends lent p (get_service_handler io work p)
    go none q e (s, n, m) c = rw (get_service_handler-none io work p q e) (s, inr (n, m))
    go (some h) q e (o, k, w) c =
        rw (get_service_handler-some io work p q h e)
          (c, k ∙ c, o, bind-Session io work h.handler, w)

pub step-Accounted :
    (c : Call) (l : Lending)
    → Accounted l.lent l.pool
    → Returns (step c l) (λ m. Accounted m.lent m.pool)
unfolding step
step-Accounted (gets io work) l v =
    go (get_service_handler io work l.pool) (get_service_handler-Lends io work l.lent l.pool v)
  where
    go :
        (r : Option (ℕ × System) × Pool)
        → Lends l.lent l.pool r
        → Returns {V = Lending}
            (elim r.0 [
              | none ↦ ok (record { pool = r.1; lent = l.lent })
              | some (a, s) ↦ ok (record { pool = r.1; lent = a ∷ l.lent })
            ])
            (λ m. Accounted m.lent m.pool)
    go (none, q) (e, w) =
        (record { pool = q; lent = l.lent }, refl, subst (Accounted l.lent) (sym e) v)
    go (some (a, s), q) (c, k, o, f, w) = (record { pool = q; lent = a ∷ l.lent }, refl, w)
step-Accounted (puts i h) l v = elim (Option-cases (remove_at i l.lent)) [
  | inl e ↦ (l, rw (e, step) refl, v)
  | inr ((a, rest), e) ↦ (
    _,
    rw (e, step) refl,
    put_handler-Accounted l.lent rest (record { address = a; handler = h }) l.pool
        (occurs-remove_at i l.lent a rest e) (length-remove_at i l.lent a rest e) v,
  )
]
step-Accounted closes l v =
    let (q, e, (c, n, w)) = clear_lem l.lent l.pool v in
    (record { pool = q; lent = l.lent }, rw e refl, w)

pub run-Accounted :
    (cs : List Call) (l : Lending)
    → Accounted l.lent l.pool
    → Returns (run cs l) (λ m. Accounted m.lent m.pool)
unfolding run
run-Accounted [] l v = (l, refl, v)
run-Accounted (c ∷ cs) l v =
    let (m, e, w) = step-Accounted c l v in let (r, f, u) = run-Accounted cs m w in (r, rw e f, u)

new-ok :
    (c : Config)
    → Fits c
    → 0 < c.pool_init_size
    → c.pool_low_watermark ≤ c.pool_init_size
    → new c
      ≡ ok (record {
        config = c;
        handler_count = 0;
        closed = true;
        service_handlers = [];
        next_address = 0;
      })
unfolding new
new-ok c f i l =
    rw
      (
        positive c.pool_init_size i,
        le→leb _ _ l,
        lt→ltb _ _ f.low_high,
        lt→ltb _ _ f.high_maximum,
        positive c.pool_increment f.increments,
      )
      refl
  where
    positive : (n : ℕ) → 0 < n → (n == 0) ≡ false
    positive n h = ground arith

-- The pool before its first handler.
abbrev opened : Config → Pool
opened c = record {
  config = c;
  handler_count = 0;
  closed = false;
  service_handlers = [];
  next_address = 0;
}

pub new-Accounted :
    (c : Config)
    → Fits c
    → 0 < c.pool_init_size
    → c.pool_low_watermark ≤ c.pool_init_size
    → Returns (new c) (λ p. Accounted [] (init p))
unfolding init
new-Accounted c f i l =
    let empty : Tally [] (opened c) = record {
      counted = refl;
      bounded = omega arith;
      once = λ a. omega arith;
      fresh = λ a n. refl;
      shut = λ x. refl;
    } in
    let (t, g) =
      create_handler-Tally [] c.pool_init_size (opened c) refl (omega (arith, f.init_size)) empty in
    (
      _,
      new-ok c f i l,
      record {
        fits = subst Fits (sym g.same_config) f;
        tally = t;
        limited = omega (
          arith,
          t.counted,
          t.bounded,
          f.high_maximum,
          ap (λ d. d.pool_high_watermark) g.same_config,
          ap (λ d. d.pool_maximum) g.same_config,
          ap (λ d. d.pool_increment) g.same_config,
        );
      },
    )

start-Accounted :
    (c : Config)
    → Fits c
    → 0 < c.pool_init_size
    → c.pool_low_watermark ≤ c.pool_init_size
    → Returns (start c) (λ l. Accounted l.lent l.pool)
unfolding start
start-Accounted c f i l =
    let (p, e, v) = new-Accounted c f i l in (record { pool = init p; lent = [] }, rw e refl, v)

-- From the constructor and `init` on, with sizes that pass the constructor's assertions and whose
-- sum fits a word, every history of the pool runs without a fault where the mutex may be taken
-- again. At its end every handler is counted once, free or in use; the free ones are not above the
-- high watermark; the count is below the maximum and one increment; and `get_load` is the number of
-- handlers in use.
pub history-Accounted :
    (c : Config)
    → Fits c
    → 0 < c.pool_init_size
    → c.pool_low_watermark ≤ c.pool_init_size
    → (cs : List Call)
    → Returns
        (start c >>= run cs)
        (λ l. Accounted l.lent l.pool × (get_load l.pool ≡ length l.lent))
unfolding get_load
history-Accounted c f i l cs =
    let (m, e, v) = start-Accounted c f i l in
    let (r, g, w) = run-Accounted cs m v in
    (
      r,
      rw (e, g) refl,
      (
        w,
        sub_word-eq-sub r.pool.handler_count (length r.pool.service_handlers)
              (omega (arith, w.tally.counted)) (omega (arith, w.limited, w.fits.sum))
            ∙ omega (arith, w.tally.counted),
      ),
    )

-- Where the mutex may be taken again, `close` deletes every free handler and leaves a closed pool,
-- whose count is the number of handlers in use, and which gives no handler.
pub clear-drains :
    (io work : ℕ) (lent : List ℕ) (p : Pool)
    → Accounted lent p
    → Returns
        (clear true p)
        (λ q. (q.handler_count ≡ length lent) × (get_service_handler io work q ≡ (none, q)))
clear-drains io work lent p v =
    let (q, e, (c, n, w)) = clear_lem lent p v in
    (q, e, (n, get_service_handler-closed io work q c))
