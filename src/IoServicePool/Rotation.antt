-- ===== src/IoServicePool/Rotation.antt =====
-- bas/io_service_pool.hpp: the io services that `get_io_service` gives.
use mathlib.Core.List.{append_assoc}
use baserver.Base.{
  ℕ, zero, suc, ◌+◌, ◌≤◌, ◌<◌, ◌≡◌, refl, ap, sym, ◌∙◌, ltb, Bool, true, false, not, ◌&&◌, List, [],
  ◌∷◌, ◌++◌, length, length-append, get_elem?, some, Run, ok, ◌>>=◌, Returns, inl, inr, ◌⊎◌, arith,
  le→leb, lt→leb_false, ltb→lt,
}
use baserver.IoServicePool.{Pool, wants_more, get_at, get_io_service, is_empty}

-- Some calls of `get_io_service`, one after the other.
unfoldable pub get_services : ℕ → Pool → Run (List ℕ × Pool)
get_services zero p = ok ([], p)
get_services (suc n) p = do
  (service, q) ← get_io_service p
  (services, r) ← get_services n q
  ok (service ∷ services, r)

pub get_at-some :
    (next service : ℕ) (p : Pool)
    → get_elem? p.io_services next ≡ some service
    → get_at next p ≡ ok (service, record p { next_io_service = next + 1 })
unfolding get_at
get_at-some next service p e = rw (e, get_at) refl

get_io_service-next :
    (p : Pool) (service : ℕ)
    → p.next_io_service < length p.io_services
    → get_elem? p.io_services p.next_io_service ≡ some service
    → get_io_service p ≡ ok (service, record p { next_io_service = p.next_io_service + 1 })
unfolding get_io_service
get_io_service-next p service l e =
    rw (lt→leb_false _ _ l) (get_at-some p.next_io_service service p e)

get_elem?-append :
    (xs : List ℕ) (y : ℕ) (ys : List ℕ) → get_elem? (xs ++ y ∷ ys) (length xs) ≡ some y
get_elem?-append [] y ys = refl
get_elem?-append (x ∷ xs) y ys = get_elem?-append xs y ys

-- The pool has given its io services once each, in order, and is at the end of the round.
abbrev pub Rounds : Pool → List ℕ → List ℕ × Pool → Type 0
Rounds p given (services, q) =
    (services ≡ given)
    × (q.io_services ≡ p.io_services)
    × (length p.io_services ≤ q.next_io_service)

get_services-zero : (p : Pool) → get_services 0 p ≡ ok ([], p)
unfolding get_services
get_services-zero p = refl

get_services-suc :
    (n service : ℕ) (services : List ℕ) (p q r : Pool)
    → get_io_service p ≡ ok (service, q)
    → get_services n q ≡ ok (services, r)
    → get_services (suc n) p ≡ ok (service ∷ services, r)
unfolding get_services
get_services-suc n service services p q r e f = rw (e, f) refl

-- The io services that are left of the round.
get_services-rest :
    (before after : List ℕ) (p : Pool)
    → p.io_services ≡ before ++ after
    → p.next_io_service ≡ length before
    → Returns (get_services (length after) p) (Rounds p after)
get_services-rest before [] p e n = (
  ([], p),
  get_services-zero p,
  (refl, refl, omega (arith, n, ap length e, length-append before [])),
)
get_services-rest before (x ∷ after) p e n =
    let q : Pool = record p { next_io_service = p.next_io_service + 1 } in
    let inside : p.next_io_service < length p.io_services =
      omega (arith, n, ap length e, length-append before (x ∷ after)) in
    let found : get_elem? p.io_services p.next_io_service ≡ some x =
      rw (e, n) (get_elem?-append before x after) in
    let ((services, r), run, (a, b, c)) =
      get_services-rest (before ++ x ∷ []) after q (e ∙ sym (append_assoc before (x ∷ []) after))
        (omega (arith, n, length-append before (x ∷ []))) in
    (
      (x ∷ services, r),
      get_services-suc (length after) x services p q r (get_io_service-next p x inside found) run,
      (ap (◌∷◌ x) a, b, c),
    )

get_io_service-wrap :
    (p : Pool) → length p.io_services ≤ p.next_io_service → get_io_service p ≡ get_at 0 p
unfolding get_io_service
get_io_service-wrap p l = rw (le→leb _ _ l) refl

-- At the end of a round, or before the first, as many calls as there are io services give every io
-- service once, in order, and are at the end of a round again.
pub get_services-Rounds :
    (p : Pool)
    → (p.next_io_service ≡ 0) ⊎ (length p.io_services ≤ p.next_io_service)
    → Returns (get_services (length p.io_services) p) (Rounds p p.io_services)
get_services-Rounds p (inl z) = get_services-rest [] p.io_services p refl z
get_services-Rounds p (inr l) = go p.io_services refl
  where
    go :
        (services : List ℕ)
        → p.io_services ≡ services
        → Returns (get_services (length services) p) (Rounds p services)
    go [] e = (([], p), get_services-zero p, (refl, refl, l))
    go (x ∷ after) e =
        let q : Pool = record p { next_io_service = 1 } in
        let ((services, r), run, (a, b, c)) = get_services-rest (x ∷ []) after q e refl in
        (
          (x ∷ services, r),
          get_services-suc (length after) x services p q r
              (get_io_service-wrap p l ∙ get_at-some 0 x p (ap (λ xs. get_elem? xs 0) e)) run,
          (ap (◌∷◌ x) a, b, c),
        )

pub below :
    (n : ℕ) (p : Pool) → wants_more n p ≡ true → length p.io_services < p.pool_high_watermark
unfolding wants_more
below n p h = go p.blocked (is_empty p.work) (is_empty p.threads) (ltb (length p.io_services) n) h
  where
    go :
        (a b c d : Bool)
        → (not a && (not b && (not c && (d && ltb (length p.io_services) p.pool_high_watermark))))
          ≡ true
        → length p.io_services < p.pool_high_watermark
    go false false false true h = ltb→lt _ _ h
    go true b c d h = cc
    go false true c d h = cc
    go false false true d h = cc
    go false false false false h = cc
