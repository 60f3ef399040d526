-- ===== src/EndpointGroup/Turns.antt =====
-- bas/sync_client.hpp: the turns of the pairs of endpoints.
use mathlib.Core.List.{append_assoc}
use baserver.Base.{
  ℕ, suc, ◌+◌, ◌≤◌, ◌<◌, ◌≡◌, refl, ap, sym, ◌∙◌, leb, le→leb, lt→leb_false, if◌then◌else◌, List,
  [], ◌∷◌, ◌++◌, length, length-append, get_elem?, some, ok, Returns, inl, inr, ◌⊎◌, arith,
}
use baserver.EndpointGroup.{EndpointPair, EndpointGroup, take_at, choose, get_endpoints, get_many}

-- The group has given the pairs, has the same pairs, and is at the end of a turn.
abbrev pub Turns : EndpointGroup → List EndpointPair → List EndpointPair × EndpointGroup → Type 0
Turns g given (pairs, h) =
    (pairs ≡ given)
    × (h.endpoint_pairs ≡ g.endpoint_pairs)
    × ((h.next_endpoint ≡ 0) ⊎ (length g.endpoint_pairs ≤ h.next_endpoint))

take_at-some :
    (next : ℕ) (pair : EndpointPair) (g : EndpointGroup)
    → get_elem? g.endpoint_pairs next ≡ some pair
    → take_at next g ≡ ok (pair, record g { next_endpoint = next + 1 })
unfolding take_at
take_at-some next pair g e = rw (e, take_at) refl

-- With two pairs or more the index decides.
choose-two :
    (ps : List EndpointPair) (g : EndpointGroup)
    → 1 < length ps
    → choose ps g
      ≡ take_at (if leb (length g.endpoint_pairs) g.next_endpoint then 0 else g.next_endpoint) g
unfolding choose
choose-two [] g h = absurd (omega (arith, h))
choose-two (p ∷ []) g h = absurd (omega (arith, h))
choose-two (p ∷ q ∷ ps) g h = refl

get_endpoints-next :
    (g : EndpointGroup) (pair : EndpointPair)
    → 1 < length g.endpoint_pairs
    → g.next_endpoint < length g.endpoint_pairs
    → get_elem? g.endpoint_pairs g.next_endpoint ≡ some pair
    → get_endpoints g ≡ ok (pair, record g { next_endpoint = g.next_endpoint + 1 })
unfolding get_endpoints
get_endpoints-next g pair h l e =
    choose-two g.endpoint_pairs g h
    ∙ ap (λ b. take_at (if b then 0 else g.next_endpoint) g) (lt→leb_false _ _ l)
    ∙ take_at-some g.next_endpoint pair g e

get_endpoints-wrap :
    (g : EndpointGroup)
    → 1 < length g.endpoint_pairs
    → length g.endpoint_pairs ≤ g.next_endpoint
    → get_endpoints g ≡ take_at 0 g
unfolding get_endpoints
get_endpoints-wrap g h l =
    choose-two g.endpoint_pairs g h
    ∙ ap (λ b. take_at (if b then 0 else g.next_endpoint) g) (le→leb _ _ l)

get_elem?-append :
    (xs : List EndpointPair) (y : EndpointPair) (ys : List EndpointPair)
    → get_elem? (xs ++ y ∷ ys) (length xs) ≡ some y
get_elem?-append [] y ys = refl
get_elem?-append (x ∷ xs) y ys = get_elem?-append xs y ys

get_endpoints-one :
    (g : EndpointGroup) (x : EndpointPair) → g.endpoint_pairs ≡ x ∷ [] → get_endpoints g ≡ ok (x, g)
unfolding get_endpoints choose
get_endpoints-one g x e = ap (λ ps. choose ps g) e

get_many-zero : (g : EndpointGroup) → get_many 0 g ≡ ok ([], g)
unfolding get_many
get_many-zero g = refl

get_many-suc :
    (n : ℕ) (pair : EndpointPair) (pairs : List EndpointPair) (g h k : EndpointGroup)
    → get_endpoints g ≡ ok (pair, h)
    → get_many n h ≡ ok (pairs, k)
    → get_many (suc n) g ≡ ok (pair ∷ pairs, k)
unfolding get_many
get_many-suc n pair pairs g h k e f = rw (e, f) refl

-- The pairs that are left of the turn.
get_many-rest :
    (before after : List EndpointPair) (g : EndpointGroup)
    → 1 < length g.endpoint_pairs
    → g.endpoint_pairs ≡ before ++ after
    → g.next_endpoint ≡ length before
    → Returns (get_many (length after) g) (Turns g after)
get_many-rest before [] g h e n = (
  ([], g),
  get_many-zero g,
  (refl, refl, inr (omega (arith, n, ap length e, length-append before []))),
)
get_many-rest before (x ∷ after) g h e n =
    let k : EndpointGroup = record g { next_endpoint = g.next_endpoint + 1 } in
    let inside : g.next_endpoint < length g.endpoint_pairs =
      omega (arith, n, ap length e, length-append before (x ∷ after)) in
    let found : get_elem? g.endpoint_pairs g.next_endpoint ≡ some x =
      rw (e, n) (get_elem?-append before x after) in
    let ((pairs, r), run, (a, b, c)) =
      get_many-rest (before ++ x ∷ []) after k h (e ∙ sym (append_assoc before (x ∷ []) after))
        (omega (arith, n, length-append before (x ∷ []))) in
    (
      (x ∷ pairs, r),
      get_many-suc (length after) x pairs g k r (get_endpoints-next g x h inside found) run,
      (ap (◌∷◌ x) a, b, c),
    )

-- From the start of a turn on, as many calls of `get_endpoints()` as the group has pairs give every pair
-- once, in the order in which they were set, and are at the start of a turn again.
pub get_many-Turns :
    (g : EndpointGroup)
    → (g.next_endpoint ≡ 0) ⊎ (length g.endpoint_pairs ≤ g.next_endpoint)
    → Returns (get_many (length g.endpoint_pairs) g) (Turns g g.endpoint_pairs)
get_many-Turns g start = by_pairs g.endpoint_pairs refl start
  where
    by_pairs :
        (ps : List EndpointPair)
        → g.endpoint_pairs ≡ ps
        → (g.next_endpoint ≡ 0) ⊎ (length g.endpoint_pairs ≤ g.next_endpoint)
        → Returns (get_many (length ps) g) (Turns g ps)
    by_pairs [] e s = (([], g), get_many-zero g, (refl, refl, s))
    by_pairs (x ∷ []) e s = (
      (x ∷ [], g),
      get_many-suc 0 x [] g g g (get_endpoints-one g x e) (get_many-zero g),
      (refl, refl, s),
    )
    by_pairs (x ∷ y ∷ ps) e (inl z) =
        get_many-rest [] (x ∷ y ∷ ps) g (omega (arith, ap length e)) e z
    by_pairs (x ∷ y ∷ ps) e (inr l) =
        let k : EndpointGroup = record g { next_endpoint = 1 } in
        let two : 1 < length g.endpoint_pairs = omega (arith, ap length e) in
        let first : get_elem? g.endpoint_pairs 0 ≡ some x = ap (λ q. get_elem? q 0) e in
        let ((pairs, r), run, (a, b, c)) = get_many-rest (x ∷ []) (y ∷ ps) k two e refl in
        (
          (x ∷ pairs, r),
          get_many-suc (suc (length ps)) x pairs g k r
              (get_endpoints-wrap g two l ∙ take_at-some 0 x g first) run,
          (ap (◌∷◌ x) a, b, c),
        )
