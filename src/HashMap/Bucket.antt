-- ===== src/HashMap/Bucket.antt =====
-- bastool/hash_map.hpp: one bucket as a finite map, each key in it once.
use baserver.Base.{
  ℕ, zero, suc, ◌+◌, ◌<◌, ◌≡◌, refl, ap, sym, ◌∙◌, inl, inr, List, [], ◌∷◌, ◌++◌, Option, none,
  some, true, if◌then◌else◌, ◌==◌, length, back, pop_back, set, arith, Bool-cases, length-pop_back,
  length-set,
}
use baserver.HashMap.{Key, Bucket, erase_at, find_in, assign_in, index_in}

-- `erase_at` by recursion: behind the index nothing changes, and at it the last entry moves in.
module _ {ℓ} {A : Type ℓ} where
  -- `xs` with `x` in front and without its last element.
  abbrev pub front : A → List A → List A
  front x [] = []
  front x (y ∷ ys) = x ∷ front y ys

  pub rotate : List A → List A
  rotate [] = []
  rotate (x ∷ xs) = back x xs ∷ front x xs

  pub swap_pop : ℕ → List A → List A
  swap_pop i [] = []
  swap_pop zero (x ∷ xs) = rotate xs
  swap_pop (suc i) (x ∷ xs) = x ∷ swap_pop i xs

  pop_back-front : (x : A) (xs : List A) → pop_back (x ∷ xs) ≡ front x xs
  pop_back-front x [] = refl
  pop_back-front x (y ∷ ys) = ap (◌∷◌ x) (pop_back-front y ys)

  pop_back-cons : (x : A) (xs : List A) → 0 < length xs → pop_back (x ∷ xs) ≡ x ∷ pop_back xs
  pop_back-cons x [] h = absurd (omega arith)
  pop_back-cons x (y ∷ ys) h = refl

  pub erase_at-eq-swap_pop : (i : ℕ) (xs : List A) → i < length xs → erase_at i xs ≡ swap_pop i xs
  unfolding erase_at swap_pop rotate
  erase_at-eq-swap_pop i [] h = refl
  erase_at-eq-swap_pop zero (x ∷ []) h = refl
  erase_at-eq-swap_pop zero (x ∷ y ∷ ys) h = ground (arith, pop_back-front y ys)
  erase_at-eq-swap_pop (suc i) (x ∷ []) h = absurd (omega arith)
  erase_at-eq-swap_pop (suc i) (x ∷ y ∷ ys) h =
      let ih = erase_at-eq-swap_pop i (y ∷ ys) (omega arith) in
      let rest = set (y ∷ ys) i (back y ys) in
      ground
        (arith, ih, pop_back-cons x rest (rw (length-set (y ∷ ys) i (back y ys)) (omega arith)))

pub length-erase_at {ℓ} :
    {A : Type ℓ} (i : ℕ) (xs : List A) → i < length xs → length (erase_at i xs) + 1 ≡ length xs
unfolding erase_at
length-erase_at {A} i [] h = absurd (omega arith)
length-erase_at {A} i (x ∷ xs) h = elim (Bool-cases (i == length xs)) [
  | inl e ↦ rw (e, length-pop_back x xs) (omega arith)
  | inr e ↦ rw e (popped (set (x ∷ xs) i (back x xs)) (length-set (x ∷ xs) i (back x xs)))
]
  where
    popped :
        (ys : List A) → length ys ≡ suc (length xs) → length (pop_back ys) + 1 ≡ suc (length xs)
    popped [] l = absurd (omega arith)
    popped (y ∷ ys) l = omega (arith, length-pop_back y ys)

pub erase_at-zero {ℓ} :
    {A : Type ℓ} (x y : A) (ys : List A) → erase_at 0 (x ∷ y ∷ ys) ≡ back y ys ∷ front y ys
unfolding swap_pop rotate
erase_at-zero x y ys = erase_at-eq-swap_pop 0 (x ∷ y ∷ ys) (omega arith)

pub length-front {ℓ} : {A : Type ℓ} (x : A) (xs : List A) → length (front x xs) ≡ length xs
length-front x [] = refl
length-front x (y ∷ ys) = ap suc (length-front y ys)

-- Behind the first place `erase_at` leaves the first entry alone.
pub erase_at-cons {ℓ} :
    {A : Type ℓ} (i : ℕ) (x : A) (xs : List A)
    → i < length xs
    → erase_at (suc i) (x ∷ xs) ≡ x ∷ erase_at i xs
unfolding swap_pop
erase_at-cons i x xs h =
    erase_at-eq-swap_pop (suc i) (x ∷ xs) (omega arith)
    ∙ ap (◌∷◌ x) (sym (erase_at-eq-swap_pop i xs h))

pub equal_refl {ℓ} : {K : Type ℓ} ⦃key : Key K⦄ (k : K) → key.equal k k ≡ true
equal_refl ⦃key⦄ k = (key.equal_iff k k).1 refl

module _ {ℓ} {K V : Type ℓ} ⦃key : Key K⦄ where
  abbrev pub Absent : K → Bucket K V → Type ℓ
  Absent k c = find_in k c ≡ none

  -- No key stands twice.
  abbrev pub Distinct : Bucket K V → Type ℓ
  Distinct [] = Unit
  Distinct (e ∷ c) = Absent e.0 c × Distinct c

  -- Keys that compare equal read the same entry.
  pub find_in_congr : (a b : K) (c : Bucket K V) → key.equal a b ≡ true → find_in a c ≡ find_in b c
  find_in_congr a b c e = ap (λ k. find_in k c) ((key.equal_iff a b).0 e)

  find-rotate : (q : K) (c : Bucket K V) → Distinct c → find_in q (rotate c) ≡ find_in q c
  unfolding find_in rotate
  find-rotate q [] d = refl
  find-rotate q (e ∷ []) d = refl
  find-rotate q (e ∷ f ∷ c) d =
      let last = back f c in
      ground (
        arith,
        find-rotate q (f ∷ c) d.1,
        find-rotate e.0 (f ∷ c) d.1,
        find_in_congr e.0 q (f ∷ c),
        key.equal_iff last.0 q,
        key.equal_iff last.0 e.0,
        key.equal_iff e.0 q,
      )

  -- A write of `x` at `k` that keeps the keys distinct: other keys read as before.
  pub record Writes (k : K) (x : Option V) (c c' : Bucket K V) : Type ℓ where
    pub distinct : Distinct c'
    pub reads : (q : K) → find_in q c' ≡ (if key.equal k q then x else find_in q c)

  reads-append :
      (k q : K) (v : V) (c : Bucket K V)
      → Absent k c
      → find_in q (c ++ (k, v) ∷ []) ≡ (if key.equal k q then some v else find_in q c)
  unfolding find_in
  reads-append k q v [] h = refl
  reads-append k q v (e ∷ c) h =
      ground
        (arith, reads-append k q v c, key.equal_iff k q, key.equal_iff e.0 q, key.equal_iff e.0 k)

  Distinct-append :
      (k : K) (v : V) (c : Bucket K V) → Absent k c → Distinct c → Distinct (c ++ (k, v) ∷ [])
  unfolding find_in
  Distinct-append k v [] h d = (refl, tt)
  Distinct-append k v (e ∷ c) h d = (
    ground (arith, reads-append k e.0 v c, key.equal_iff k e.0, key.equal_iff e.0 k),
    Distinct-append k v c (ground arith) d.1,
  )

  pub append-Writes :
      (k : K) (v : V) (c : Bucket K V)
      → Distinct c
      → Absent k c
      → Writes k (some v) c (c ++ (k, v) ∷ [])
  append-Writes k v c d h = record {
    distinct = Distinct-append k v c h d;
    reads = λ q. reads-append k q v c h;
  }

  reads-assign :
      (k q : K) (v w : V) (c : Bucket K V)
      → find_in k c ≡ some w
      → find_in q (assign_in k v c) ≡ (if key.equal k q then some v else find_in q c)
  unfolding find_in assign_in
  reads-assign k q v w [] h = cc
  reads-assign k q v w (e ∷ c) h =
      ground
        (arith, reads-assign k q v w c, key.equal_iff k q, key.equal_iff e.0 q, key.equal_iff e.0 k)

  Distinct-assign :
      (k : K) (v w : V) (c : Bucket K V)
      → find_in k c ≡ some w
      → Distinct c
      → Distinct (assign_in k v c)
  unfolding find_in assign_in
  Distinct-assign k v w [] h d = tt
  Distinct-assign k v w (e ∷ c) h d = elim (Bool-cases (key.equal e.0 k)) [
    | inl same ↦ rw same d
    | inr other ↦
        let there : find_in k c ≡ some w = rw other at h in
        rw other (
          ground (arith, reads-assign k e.0 v w c there, key.equal_iff k e.0, key.equal_iff e.0 k),
          Distinct-assign k v w c there d.1,
        )
  ]

  pub assign-Writes :
      (k : K) (v w : V) (c : Bucket K V)
      → Distinct c
      → find_in k c ≡ some w
      → Writes k (some v) c (assign_in k v c)
  assign-Writes k v w c d h = record {
    distinct = Distinct-assign k v w c h d;
    reads = λ q. reads-assign k q v w c h;
  }

  Distinct-rotate : (c : Bucket K V) → Distinct c → Distinct (rotate c)
  unfolding find_in rotate
  Distinct-rotate [] d = tt
  Distinct-rotate (e ∷ []) d = d
  Distinct-rotate (e ∷ f ∷ c) d =
      let last = back f c in
      let (apart, rest) = Distinct-rotate (f ∷ c) d.1 in
      (
        ground (
          arith,
          apart,
          find-rotate e.0 (f ∷ c) d.1,
          key.equal_iff e.0 last.0,
          key.equal_iff last.0 e.0,
        ),
        (ground (arith, find-rotate e.0 (f ∷ c) d.1), rest),
      )

  index_in-lt : (k : K) (w : V) (c : Bucket K V) → find_in k c ≡ some w → index_in k c < length c
  unfolding find_in index_in
  index_in-lt k w [] h = cc
  index_in-lt k w (e ∷ c) h = ground (arith, index_in-lt k w c)

  reads-swap_pop :
      (k q : K) (w : V) (c : Bucket K V)
      → Distinct c
      → find_in k c ≡ some w
      → find_in q (swap_pop (index_in k c) c) ≡ (if key.equal k q then none else find_in q c)
  unfolding find_in index_in swap_pop
  reads-swap_pop k q w [] d h = cc
  reads-swap_pop k q w (e ∷ c) d h = elim (Bool-cases (key.equal e.0 k)) [
    | inl same ↦ rw same (
        ground (
          arith,
          find-rotate q c d.1,
          find_in_congr e.0 q c,
          key.equal_iff e.0 k,
          key.equal_iff k q,
          key.equal_iff e.0 q,
        ))
    | inr other ↦
        let there : find_in k c ≡ some w = rw other at h in
        rw other (
          ground (
            arith,
            reads-swap_pop k q w c d.1 there,
            key.equal_iff e.0 k,
            key.equal_iff k q,
            key.equal_iff e.0 q,
          ))
  ]

  Distinct-swap_pop :
      (k : K) (w : V) (c : Bucket K V)
      → Distinct c
      → find_in k c ≡ some w
      → Distinct (swap_pop (index_in k c) c)
  unfolding find_in index_in swap_pop
  Distinct-swap_pop k w [] d h = tt
  Distinct-swap_pop k w (e ∷ c) d h = elim (Bool-cases (key.equal e.0 k)) [
    | inl same ↦ rw same (Distinct-rotate c d.1)
    | inr other ↦
        let there : find_in k c ≡ some w = rw other at h in
        rw other
          (ground (arith, reads-swap_pop k e.0 w c d.1 there), Distinct-swap_pop k w c d.1 there)
  ]

  pub erase-Writes :
      (k : K) (w : V) (c : Bucket K V)
      → Distinct c
      → find_in k c ≡ some w
      → Writes k none c (erase_at (index_in k c) c)
  erase-Writes k w c d h =
      rw (erase_at-eq-swap_pop (index_in k c) c (index_in-lt k w c h))
        (record { distinct = Distinct-swap_pop k w c d h; reads = λ q. reads-swap_pop k q w c d h })
