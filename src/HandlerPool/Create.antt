-- ===== src/HandlerPool/Create.antt =====
-- bas/service_handler_pool.hpp: `create_handler`, with the addresses and the number of the handlers.
use baserver.Base.{
  ℕ, zero, suc, ◌+◌, ◌≤◌, ◌<◌, ◌≡◌, refl, ap, ◌∙◌, ◌⊎◌, inl, inr, Bool, true, false, leb, ◌==◌,
  List, [], ◌∷◌, length, word, add_word, add_word-eq-add, arith, Bool-cases,
}
use baserver.ServiceHandler
use baserver.HandlerPool.{Pool, Pooled, make_handler, push_handler, create_one, create_handler}

abbrev pub count_if : Bool → ℕ
count_if true = 1
count_if false = 0

-- How often an address stands among the addresses lent, and among the free handlers.
abbrev pub occurs : ℕ → List ℕ → ℕ
occurs a [] = 0
occurs a (b ∷ bs) = count_if (a == b) + occurs a bs

abbrev pub occurs_free : ℕ → List Pooled → ℕ
occurs_free a [] = 0
occurs_free a (h ∷ hs) = count_if (a == h.address) + occurs_free a hs

-- The count is that of the free handlers and those lent, the free ones are not above the high
-- watermark, no handler is there twice, and the addresses to come are new.
pub record Tally (lent : List ℕ) (p : Pool) : Type 0 where
  pub counted : p.handler_count ≡ length p.service_handlers + length lent
  pub bounded : length p.service_handlers ≤ p.config.pool_high_watermark
  pub once : (a : ℕ) → occurs_free a p.service_handlers + occurs a lent ≤ 1
  pub fresh : (a : ℕ) → p.next_address ≤ a → occurs_free a p.service_handlers + occurs a lent ≡ 0
  pub shut : p.closed ≡ true → length p.service_handlers ≡ 0

-- What the loop does: it pushes every handler, or stops at the high watermark.
pub record Grew (n : ℕ) (p q : Pool) : Type 0 where
  pub same_config : q.config ≡ p.config
  pub same_closed : q.closed ≡ p.closed
  pub grown : length p.service_handlers ≤ length q.service_handlers
  pub count_le : q.handler_count ≤ p.handler_count + n
  pub filled :
      (length q.service_handlers ≡ length p.service_handlers + n)
      ⊎ (length q.service_handlers ≡ p.config.pool_high_watermark)

create_one-full :
    (p : Pool)
    → p.closed ≡ false
    → leb p.config.pool_high_watermark (length p.service_handlers) ≡ true
    → create_one p ≡ record p { next_address = p.next_address + 1 }
unfolding create_one make_handler push_handler
create_one-full p c f = rw (c, f) refl

abbrev next_handler : Pool → Pooled
next_handler p = record {
  address = p.next_address;
  handler =
      ServiceHandler.make p.config.read_buffer_size p.config.write_buffer_size
        p.config.session_timeout p.config.io_timeout;
}

create_one-room :
    (p : Pool)
    → p.closed ≡ false
    → leb p.config.pool_high_watermark (length p.service_handlers) ≡ false
    → create_one p ≡ record p {
      handler_count = add_word p.handler_count 1;
      service_handlers = next_handler p ∷ p.service_handlers;
      next_address = p.next_address + 1;
    }
unfolding create_one make_handler push_handler
create_one-room p c f = rw (c, f) refl

pub create_one-Tally :
    (lent : List ℕ) (p : Pool)
    → p.closed ≡ false
    → p.handler_count + 1 < word
    → Tally lent p
    → Tally lent (create_one p) × Grew 1 p (create_one p)
create_one-Tally lent p c w t =
    elim (Bool-cases (leb p.config.pool_high_watermark (length p.service_handlers))) [
      | inl f ↦ rw (create_one-full p c f) (
        record {
          counted = t.counted;
          bounded = t.bounded;
          once = t.once;
          fresh = λ a h. t.fresh a (omega arith);
          shut = t.shut;
        },
        record {
          same_config = refl;
          same_closed = refl;
          grown = omega arith;
          count_le = omega arith;
          filled = inr (ground (arith, f, t.bounded));
        },
      )
      | inr f ↦ rw (create_one-room p c f) (
        record {
          counted = rw (add_word-eq-add p.handler_count 1 w) (omega (arith, t.counted));
          bounded = ground (arith, f);
          once = λ a. ground (arith, t.once a, t.fresh a);
          fresh = λ a k. ground (arith, k, t.fresh a);
          shut = λ x. cc;
        },
        record {
          same_config = refl;
          same_closed = refl;
          grown = omega arith;
          count_le = rw (add_word-eq-add p.handler_count 1 w) (omega arith);
          filled = inl (omega arith);
        },
      )
    ]

-- The whole loop, when the counter does not wrap.
pub create_handler-Tally :
    (lent : List ℕ) (n : ℕ) (p : Pool)
    → p.closed ≡ false
    → p.handler_count + n < word
    → Tally lent p
    → Tally lent (create_handler n p) × Grew n p (create_handler n p)
unfolding create_handler
create_handler-Tally lent zero p c w t = (
  t,
  record {
    same_config = refl;
    same_closed = refl;
    grown = omega arith;
    count_le = omega arith;
    filled = inl (omega arith);
  },
)
create_handler-Tally lent (suc n) p c w t =
    let (t1, g1) = create_one-Tally lent p c (omega (arith, w)) t in
    let q = create_one p in
    let (t2, g2) =
      create_handler-Tally lent n q (g1.same_closed ∙ c) (omega (arith, w, g1.count_le)) t1 in
    let high1 = ap (λ d. d.pool_high_watermark) g1.same_config in
    let high2 = ap (λ d. d.pool_high_watermark) (g2.same_config ∙ g1.same_config) in
    (
      t2,
      record {
        same_config = g2.same_config ∙ g1.same_config;
        same_closed = g2.same_closed ∙ g1.same_closed;
        count_le = omega (arith, g1.count_le, g2.count_le);
        grown = omega (arith, g1.grown, g2.grown);
        filled = elim g1.filled [
          | inl e1 ↦ elim g2.filled [
            | inl e2 ↦ inl (omega (arith, e1, e2))
            | inr e2 ↦ inr (e2 ∙ high1)
          ]
          | inr e1 ↦ inr (omega (arith, e1, g2.grown, t2.bounded, high2))
        ];
      },
    )
