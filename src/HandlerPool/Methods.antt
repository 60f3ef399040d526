-- ===== src/HandlerPool/Methods.antt =====
-- bas/service_handler_pool.hpp: `get_handler`, `put_handler` and `clear`, on a pool with a tally.
use baserver.Base.{
  ℕ, suc, ◌+◌, ◌-◌, ◌≤◌, ◌<◌, ◌≡◌, refl, ap, sym, ◌∙◌, subst, ◌⊎◌, inl, inr, true, false, leb, ltb,
  List, [], ◌∷◌, length, word, sub_word, sub_word-eq-sub, arith, Bool-cases, Option, none, some, ok,
  Returns, lt→leb_false, le→leb, lt→ltb, leb→le,
}
use native.Mathlib.Nat.{sub-zero}
use baserver.ServiceHandler
use baserver.HandlerPool.{
  Pool, Config, Pooled, push_handler, create_handler, grow, take_back, get_handler, put_handler,
  reset_all, clear,
}
use baserver.HandlerPool.Create.{Tally, create_handler-Tally, occurs, occurs_free}

-- The constructor's assertions, and sums that do not wrap.
pub record Fits (c : Config) : Type 0 where
  pub low_high : c.pool_low_watermark < c.pool_high_watermark
  pub high_maximum : c.pool_high_watermark < c.pool_maximum
  pub increments : 0 < c.pool_increment
  pub sum : c.pool_maximum + c.pool_increment < word
  pub init_size : c.pool_init_size < word

pub record Accounted (lent : List ℕ) (p : Pool) : Type 0 where
  pub fits : Fits p.config
  pub tally : Tally lent p
  pub limited : p.handler_count < p.config.pool_maximum + p.config.pool_increment

ge→ltb : (a b : ℕ) → b ≤ a → ltb a b ≡ false
ge→ltb a b h = ground arith

-- No handler: nothing is free, and the handlers are as many as the maximum. A handler: it was not
-- lent, and now is.
abbrev pub Got : List ℕ → Pool → Option Pooled → Pool → Type 0
Got lent p none q =
    (q ≡ p) × (length p.service_handlers ≡ 0) × (p.config.pool_maximum ≤ p.handler_count)
Got lent p (some h) q =
    (occurs h.address lent ≡ 0) × (q.closed ≡ p.closed) × Accounted (h.address ∷ lent) q

take_back-nil : (p : Pool) → p.service_handlers ≡ [] → take_back p ≡ (none, p)
unfolding take_back
take_back-nil p e = rw e refl

take_back-cons :
    (p : Pool) (h : Pooled) (hs : List Pooled)
    → p.service_handlers ≡ h ∷ hs
    → take_back p ≡ (some h, record p { service_handlers = hs })
unfolding take_back
take_back-cons p h hs e = rw e refl

get_handler-grow : (p : Pool) → p.closed ≡ false → get_handler p ≡ take_back (grow p)
unfolding get_handler
get_handler-grow p c = rw c refl

grow-low :
    (p : Pool)
    → length p.service_handlers ≤ p.config.pool_low_watermark
    → p.handler_count < p.config.pool_maximum
    → grow p ≡ create_handler p.config.pool_increment p
unfolding grow
grow-low p l m = rw (le→leb _ _ l, lt→ltb _ _ m) refl

grow-high : (p : Pool) → p.config.pool_low_watermark < length p.service_handlers → grow p ≡ p
unfolding grow
grow-high p l = rw (lt→leb_false _ _ l) refl

grow-maximum : (p : Pool) → p.config.pool_maximum ≤ p.handler_count → grow p ≡ p
unfolding grow
grow-maximum p l = elim (Bool-cases (leb (length p.service_handlers) p.config.pool_low_watermark)) [
  | inl e ↦ rw (e, ge→ltb _ _ l) refl
  | inr e ↦ rw e refl
]

List-cases {ℓ} :
    {A : Type ℓ} (xs : List A) → (xs ≡ []) ⊎ ((x : A) × (rest : List A) × (xs ≡ x ∷ rest))
List-cases [] = inl refl
List-cases (x ∷ xs) = inr (x, xs, refl)

took :
    (lent : List ℕ) (p q : Pool)
    → Accounted lent q
    → q.closed ≡ false
    → q.closed ≡ p.closed
    → 0 < length q.service_handlers
    → Got lent p (take_back q).0 (take_back q).1
took lent p q v c e l = elim (List-cases q.service_handlers) [
  | inl k ↦ absurd (ground (arith, l, k))
  | inr (h, rest, k) ↦ rw (take_back-cons q h rest k) (
    ground (arith, v.tally.once h.address, ap (occurs_free h.address) k),
    e,
    record {
      fits = v.fits;
      limited = v.limited;
      tally = record {
        counted = omega (arith, v.tally.counted, ap length k);
        bounded = omega (arith, v.tally.bounded, ap length k);
        once = λ a. omega (arith, v.tally.once a, ap (occurs_free a) k);
        fresh = λ a n. omega (arith, v.tally.fresh a n, ap (occurs_free a) k);
        shut = λ x. cc;
      };
    },
  )
]

refused :
    (lent : List ℕ) (p : Pool)
    → p.service_handlers ≡ []
    → p.config.pool_maximum ≤ p.handler_count
    → Got lent p (take_back p).0 (take_back p).1
refused lent p e m = rw (take_back-nil p e) (refl, ap length e, m)

grown :
    (lent : List ℕ) (p : Pool)
    → Accounted lent p
    → p.closed ≡ false
    → p.handler_count < p.config.pool_maximum
    → let q = create_handler p.config.pool_increment p in
      Accounted lent q × (q.closed ≡ p.closed) × (0 < length q.service_handlers)
grown lent p v c m =
    let (t, g) =
      create_handler-Tally lent p.config.pool_increment p c (omega (arith, m, v.fits.sum))
        v.tally in
    (
      record {
        fits = subst Fits (sym g.same_config) v.fits;
        tally = t;
        limited = omega (
          arith,
          m,
          g.count_le,
          ap (λ d. d.pool_maximum) g.same_config,
          ap (λ d. d.pool_increment) g.same_config,
        );
      },
      g.same_closed,
      elim g.filled [
        | inl e ↦ omega (arith, e, v.fits.increments)
        | inr e ↦ omega (arith, e, v.fits.low_high)
      ],
    )

pub get_handler_lem :
    (lent : List ℕ) (p : Pool)
    → Accounted lent p
    → p.closed ≡ false
    → Got lent p (get_handler p).0 (get_handler p).1
get_handler_lem lent p v c =
    rw (get_handler-grow p c) (elim (Bool-cases (leb p.config.pool_maximum p.handler_count)) [
      | inl m ↦ rw (grow-maximum p (leb→le _ _ m)) (elim (List-cases p.service_handlers) [
        | inl e ↦ refused lent p e (leb→le _ _ m)
        | inr (h, rest, e) ↦ took lent p p v c refl (omega (arith, ap length e))
      ])
      | inr m ↦ elim (Bool-cases (leb (length p.service_handlers) p.config.pool_low_watermark)) [
        | inl l ↦
            let below : p.handler_count < p.config.pool_maximum = ground (arith, m) in
            let (w, k, full) = grown lent p v c below in
            rw (grow-low p (leb→le _ _ l) below) (took lent p _ w (k ∙ c) k full)
        | inr l ↦
            let above : p.config.pool_low_watermark < length p.service_handlers =
              ground (arith, l) in
            rw (grow-high p above) (took lent p p v c refl (omega (arith, above)))
      ]
    ])

put_handler-kept :
    (h : Pooled) (p : Pool)
    → p.closed ≡ false
    → leb p.config.pool_high_watermark (length p.service_handlers) ≡ false
    → put_handler h p ≡ record p {
      service_handlers = record h { handler = ServiceHandler.clear h.handler } ∷ p.service_handlers;
    }
unfolding put_handler push_handler
put_handler-kept h p c f = rw (c, f) refl

put_handler-full :
    (h : Pooled) (p : Pool)
    → leb p.config.pool_high_watermark (length p.service_handlers) ≡ true
    → put_handler h p ≡ record p { handler_count = sub_word p.handler_count 1 }
unfolding put_handler push_handler
put_handler-full h p f = elim (Bool-cases p.closed) [ inl c ↦ rw c refl | inr c ↦ rw (c, f) refl ]

put_handler-closed :
    (h : Pooled) (p : Pool)
    → p.closed ≡ true
    → put_handler h p ≡ record p { handler_count = sub_word p.handler_count 1 }
unfolding put_handler push_handler
put_handler-closed h p c = rw c refl

-- `rest` is what is lent when the handler has come back.
pub put_handler-Accounted :
    (lent rest : List ℕ) (h : Pooled) (p : Pool)
    → ((a : ℕ) → occurs a lent ≡ occurs a (h.address ∷ rest))
    → length lent ≡ suc (length rest)
    → Accounted lent p
    → Accounted rest (put_handler h p)
put_handler-Accounted lent rest h p o l v = elim (Bool-cases p.closed) [
  | inl c ↦ rw (put_handler-closed h p c) dropped
  | inr c ↦ elim (Bool-cases (leb p.config.pool_high_watermark (length p.service_handlers))) [
    | inl f ↦ rw (put_handler-full h p f) dropped
    | inr f ↦ rw (put_handler-kept h p c f) (record {
      fits = v.fits;
      limited = v.limited;
      tally = record {
        counted = omega (arith, v.tally.counted, l);
        bounded = ground (arith, f);
        once = λ a. omega (arith, v.tally.once a, o a);
        fresh = λ a n. omega (arith, v.tally.fresh a n, o a);
        shut = λ x. cc;
      };
    })
  ]
]
  where
    less : sub_word p.handler_count 1 ≡ p.handler_count - 1
    less =
        sub_word-eq-sub p.handler_count 1 (omega (arith, v.tally.counted, l))
          (omega (arith, v.limited, v.fits.sum))

    dropped : Accounted rest (record p { handler_count = sub_word p.handler_count 1 })
    dropped = rw less (record {
      fits = v.fits;
      limited = omega (arith, v.limited);
      tally = record {
        counted = omega (arith, v.tally.counted, l);
        bounded = v.tally.bounded;
        once = λ a. omega (arith, v.tally.once a, o a);
        fresh = λ a n. omega (arith, v.tally.fresh a n, o a);
        shut = v.tally.shut;
      };
    })

-- The loop of `clear` where the mutex may be taken again: the pool is closed, so each handler goes.
reset_all-closed :
    (hs : List Pooled) (p : Pool)
    → p.closed ≡ true
    → length hs ≤ p.handler_count
    → p.handler_count < word
    → reset_all true hs p ≡ ok (record p { handler_count = p.handler_count - length hs })
unfolding reset_all
reset_all-closed [] p c l w = rw sub-zero refl
reset_all-closed (h ∷ hs) p c l w =
    rw (put_handler-closed h p c, sub_word-eq-sub p.handler_count 1 (omega (arith, l)) w)
      (reset_all-closed hs (record p { handler_count = p.handler_count - 1 }) c (omega (arith, l))
          (omega (arith, w))
        ∙ ap (λ n. ok (record p { handler_count = n })) (omega arith))

pub clear_lem :
    (lent : List ℕ) (p : Pool)
    → Accounted lent p
    → Returns
        (clear true p)
        (λ q. (q.closed ≡ true) × (q.handler_count ≡ length lent) × Accounted lent q)
unfolding clear
clear_lem lent p v = elim (Bool-cases p.closed) [
  | inl c ↦ (p, rw c refl, (c, omega (arith, v.tally.counted, v.tally.shut c), v))
  | inr c ↦ (
    record p { closed = true; handler_count = length lent; service_handlers = [] },
    rw
        (
          c,
          reset_all-closed p.service_handlers (record p { closed = true }) refl
              (omega (arith, v.tally.counted)) (omega (arith, v.limited, v.fits.sum)),
        )
        (ap (λ n. ok (record p { closed = true; handler_count = n; service_handlers = [] }))
          (omega (arith, v.tally.counted))),
    (
      refl,
      refl,
      record {
        fits = v.fits;
        limited = omega (arith, v.limited, v.tally.counted);
        tally = record {
          counted = omega arith;
          bounded = omega arith;
          once = λ a. omega (arith, v.tally.once a);
          fresh = λ a n. omega (arith, v.tally.fresh a n);
          shut = λ x. refl;
        };
      },
    ),
  )
]
