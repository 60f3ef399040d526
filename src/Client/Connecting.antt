-- ===== src/Client/Connecting.antt =====
-- bas/client.hpp: what `connect` gets from an accounted pool.
use baserver.Base.{
  ℕ, ◌≤◌, ◌≡◌, refl, ap, sym, subst, ◌⊎◌, inl, inr, true, Bool-cases, List, [], ◌∷◌, length, Option,
  none, some, ok, Returns,
}
use baserver.ServiceHandler.{Handler, System, Bound, IoTask, bind, dispatch}
use baserver.HandlerPool
use baserver.HandlerPool.{Pooled, get_handler, get_service_handler}
use baserver.HandlerPool.Create.{occurs}
use baserver.HandlerPool.Methods.{Accounted, Got, get_handler_lem}
use baserver.HandlerPool.Invariant.{
  get_service_handler-closed, get_service_handler-none, get_service_handler-some,
}
use baserver.Client.{Client, connect, connect_with}

-- A handler as `bind` leaves it, with its connect posted.
abbrev pub connecting_from : ℕ → ℕ → Bound → Handler → System
connecting_from io work bound h = record (bind io work h) { io_tasks = IoTask.connect_i bound ∷ [] }

abbrev pub Connects : ℕ → ℕ → Bound → List ℕ → Client → Option (ℕ × System) × Client → Type 0
Connects io work bound lent c (none, d) =
    (d ≡ c)
    × ((c.pool.closed ≡ true)
        ⊎ ((length c.pool.service_handlers ≡ 0)
            × (c.pool.config.pool_maximum ≤ c.pool.handler_count)))
Connects io work bound lent c (some (a, s), d) =
    (occurs a lent ≡ 0)
    × Accounted (a ∷ lent) d.pool
    × ((h : Handler) × (s ≡ connecting_from io work bound h))

connect_with-some :
    (io work : ℕ) (bound : Bound) (a : ℕ) (h : Handler) (q : HandlerPool.Pool) (c : Client)
    → connect_with bound (some (a, bind io work h), q) c
      ≡ ok (some (a, connecting_from io work bound h), record c { pool = q })
unfolding connect_with dispatch bind
connect_with-some io work bound a h q c = refl

refuses :
    (io work : ℕ) (bound : Bound) (lent : List ℕ) (c : Client) (q : HandlerPool.Pool)
    → q ≡ c.pool
    → ((c.pool.closed ≡ true)
        ⊎ ((length c.pool.service_handlers ≡ 0)
            × (c.pool.config.pool_maximum ≤ c.pool.handler_count)))
    → Returns (connect_with bound (none, q) c) (Connects io work bound lent c)
unfolding connect_with
refuses io work bound lent c q e why =
    ((none, record c { pool = q }), refl, (ap (λ p. record c { pool = p }) e, why))

-- On a client whose pool's handlers are accounted for, `connect` returns without a fault. It fails only
-- if the pool is closed, or has no free handler and as many as its maximum, and then changes nothing;
-- else it takes a handler that nobody has, binds it, and posts its connect, and nothing else.
pub connect-Connects :
    (io work : ℕ) (bound : Bound) (lent : List ℕ) (c : Client)
    → Accounted lent c.pool
    → Returns (connect io work bound c) (Connects io work bound lent c)
unfolding connect
connect-Connects io work bound lent c v = elim (Bool-cases c.pool.closed) [
  | inl k ↦
      subst (λ r. Returns (connect_with bound r c) (Connects io work bound lent c))
        (sym (get_service_handler-closed io work c.pool k))
        (refuses io work bound lent c c.pool refl (inl k))
  | inr k ↦ go (get_handler c.pool).0 (get_handler c.pool).1 refl (get_handler_lem lent c.pool v k)
]
  where
    go :
        (found : Option Pooled) (q : HandlerPool.Pool)
        → get_handler c.pool ≡ (found, q)
        → Got lent c.pool found q
        → Returns
            (connect_with bound (get_service_handler io work c.pool) c)
            (Connects io work bound lent c)
    go none q e (s, n, m) =
        subst (λ r. Returns (connect_with bound r c) (Connects io work bound lent c))
          (sym (get_service_handler-none io work c.pool q e))
          (refuses io work bound lent c q s (inr (n, m)))
    go (some h) q e (o, k, w) =
        subst (λ r. Returns (connect_with bound r c) (Connects io work bound lent c))
          (sym (get_service_handler-some io work c.pool q h e))
          (
            (some (h.address, connecting_from io work bound h.handler), record c { pool = q }),
            connect_with-some io work bound h.address h.handler q c,
            (o, w, (h.handler, refl)),
          )
