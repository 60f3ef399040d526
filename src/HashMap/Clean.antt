-- ===== src/HashMap/Clean.antt =====
-- bastool/hash_map.hpp: `clean`. Each bucket's loop erases by moving the last entry into the place
-- of the erased one, and goes on behind that place.
use baserver.Base.{
  ℕ, zero, suc, ◌+◌, ◌<◌, ◌≡◌, refl, sym, ◌∙◌, ap, ◌⊎◌, inl, inr, List, [], ◌∷◌, Option, none, some,
  Bool, false, length, get_elem?, get_elem?-lt, get_or, back, arith, Bool-cases, Option-cases,
}
use baserver.HashMap.{
  Key, Bucket, HashMap, erase_at, find_in, index_in, clean_from, clean_bucket, clean_all, clean,
}
use baserver.HashMap.Bucket.{
  Distinct, Writes, erase-Writes, find_in_congr, length-erase_at, erase_at-cons, erase_at-zero,
  front, length-front,
}
use baserver.HashMap.View.{IsValid, view, usable, seat}

-- How many entries the buckets hold.
pub entries {ℓ} : {A : Type ℓ} → List (List A) → ℕ
entries [] = 0
entries (b ∷ bs) = length b + entries bs

module _ {ℓ} {K V : Type ℓ} ⦃key : Key K⦄ (valid_check : K → V → Bool) where
  -- What became of a key: it reads as before, or it is gone and its value was invalid.
  abbrev pub Cleaned : K → Option V → Option V → Type ℓ
  Cleaned q old now =
      (now ≡ old) ⊎ ((v : V) × (now ≡ none) × (old ≡ some v) × (valid_check q v ≡ false))

  record CleanedBucket (c : Bucket K V) (count : ℕ) (r : Bucket K V × ℕ) : Type ℓ where
    pub distinct : Distinct r.0
    counted : r.1 + length r.0 ≡ count + length c
    reads : (q : K) → Cleaned q (find_in q c) (find_in q r.0)

  -- In a bucket with distinct keys the entry at an index is found there.
  index_in-get_elem? :
      (i : ℕ) (c : Bucket K V) (e : K × V)
      → Distinct c
      → get_elem? c i ≡ some e
      → (index_in e.0 c ≡ i) × (find_in e.0 c ≡ some e.1)
  unfolding index_in find_in
  index_in-get_elem? i [] e d h = cc
  index_in-get_elem? zero (f ∷ c) e d h =
      let same : f ≡ e = cc in
      let hit = (key.equal_iff f.0 e.0).1 (ap (λ (x : K × V). x.0) same) in
      rw hit (refl, ap (λ (x : K × V). some x.1) same)
  index_in-get_elem? (suc i) (f ∷ c) e d h =
      let (place, value) = index_in-get_elem? i c e d.1 h in
      ground (arith, place, value, key.equal_iff f.0 e.0, find_in_congr f.0 e.0 c)

  Cleaned-trans : (q : K) (a b c : Option V) → Cleaned q a b → Cleaned q b c → Cleaned q a c
  Cleaned-trans q a b c (inl e) (inl f) = inl (f ∙ e)
  Cleaned-trans q a b c (inl e) (inr (v, f, g, h)) = inr (v, f, sym e ∙ g, h)
  Cleaned-trans q a b c (inr (v, e, g, h)) (inl f) = inr (v, f ∙ e, g, h)
  Cleaned-trans q a b c (inr (v, e, g, h)) (inr (w, f, g', h')) = cc

  CleanedBucket-trans :
      (c d : Bucket K V) (m n : ℕ) (r : Bucket K V × ℕ)
      → CleanedBucket c m (d, n)
      → CleanedBucket d n r
      → CleanedBucket c m r
  CleanedBucket-trans c d m n r y z = record {
    distinct = z.distinct;
    counted = omega arith;
    reads = λ q. Cleaned-trans q _ _ _ (y.reads q) (z.reads q);
  }

  -- One erasure.
  erase_at-CleanedBucket :
      (j : ℕ) (c : Bucket K V) (e : K × V) (count : ℕ)
      → Distinct c
      → get_elem? c j ≡ some e
      → valid_check e.0 e.1 ≡ false
      → CleanedBucket c count (erase_at j c, count + 1)
  erase_at-CleanedBucket j c e count d here invalid =
      let (place, value) = index_in-get_elem? j c e d here in
      let w : Writes e.0 none c (erase_at j c) = rw place at (erase-Writes e.0 e.1 c d value) in
      record {
        distinct = w.distinct;
        counted = omega (arith, length-erase_at j c (get_elem?-lt c j here));
        reads = λ q. elim (Bool-cases (key.equal e.0 q)) [
          | inl same ↦
              let is : e.0 ≡ q = (key.equal_iff e.0 q).0 same in
              inr (e.1, rw (w.reads q, same), rw (← is) value, rw (← is) invalid)
          | inr other ↦ inl (rw (w.reads q, other))
        ];
      }

  -- With fuel above the number of rounds left, the loop over a bucket ends. It keeps the keys
  -- distinct, counts the entries that it erases, and erases only invalid ones.
  clean_from-CleanedBucket :
      (fuel j : ℕ) (c : Bucket K V) (count : ℕ)
      → 0 < fuel
      → length c < fuel + j
      → Distinct c
      → (r : Bucket K V × ℕ) × (clean_from valid_check fuel j c count ≡ some r)
        × CleanedBucket c count r
  unfolding clean_from
  clean_from-CleanedBucket zero j c count pos h d = absurd (omega arith)
  clean_from-CleanedBucket (suc fuel) j c count pos h d = elim (Option-cases (get_elem? c j)) [
    | inl end ↦ (
      (c, count),
      rw (end, clean_from),
      record { distinct = d; counted = refl; reads = λ q. inl refl },
    )
    | inr (e, here) ↦
        let inside = get_elem?-lt c j here in
        elim (Bool-cases (valid_check e.0 e.1)) [
          | inl keep ↦
              let (r, run, z) =
                clean_from-CleanedBucket fuel (suc j) c count (omega arith) (omega arith) d in
              (r, rw (here, clean_from, keep) run, z)
          | inr drop ↦
              let y = erase_at-CleanedBucket j c e count d here drop in
              let (r, run, z) =
                clean_from-CleanedBucket fuel (suc j) (erase_at j c) (count + 1) (omega arith)
                  (omega (arith, length-erase_at j c inside)) y.distinct in
              (
                r,
                rw (here, clean_from, drop) run,
                CleanedBucket-trans c (erase_at j c) count (count + 1) r y z,
              )
        ]
  ]

  -- The buckets after `clean`, one by one.
  record CleanedAll (bs : List (Bucket K V)) (count : ℕ) (r : List (Bucket K V) × ℕ) : Type ℓ where
    width : length r.0 ≡ length bs
    counted : r.1 + entries r.0 ≡ count + entries bs
    distinct : (i : ℕ) → Distinct (get_or r.0 i [])
    reads : (i : ℕ) (q : K) → Cleaned q (find_in q (get_or bs i [])) (find_in q (get_or r.0 i []))

  clean_all-CleanedAll :
      (bs : List (Bucket K V)) (count : ℕ)
      → ((i : ℕ) → Distinct (get_or bs i []))
      → (r : List (Bucket K V) × ℕ) × (clean_all valid_check bs count ≡ some r)
        × CleanedAll bs count r
  unfolding clean_all clean_bucket entries
  clean_all-CleanedAll [] count d = (
    ([], count),
    refl,
    record { width = refl; counted = refl; distinct = d; reads = λ i q. inl refl },
  )
  clean_all-CleanedAll (b ∷ bs) count d =
      let ((b', n), one, y) =
        clean_from-CleanedBucket (suc (length b)) 0 b count (omega arith) (omega arith) (d 0) in
      let ((bs', m), rest, z) = clean_all-CleanedAll bs n (λ i. d (suc i)) in
      (
        (b' ∷ bs', m),
        rw (one, clean_all, rest),
        record {
          width = ap suc z.width;
          counted = omega (arith, y.counted, z.counted);
          distinct = elim [ zero ↦ y.distinct | suc i ↦ z.distinct i ];
          reads = elim [ zero ↦ y.reads | suc i ↦ z.reads i ];
        },
      )

  -- `clean` ends on every valid map and leaves a valid map. It erases no entry that is valid, every
  -- key that it does not erase reads as before, and the number that it returns is the number of
  -- entries erased.
  pub clean_lem :
      (m : HashMap K V)
      → IsValid m
      → (r : HashMap K V × ℕ) × (clean valid_check m ≡ some r)
        × IsValid r.0
        × (r.1 + entries r.0.buckets ≡ entries m.buckets)
        × ((q : K) → Cleaned q (view m q) (view r.0 q))
  unfolding clean view
  clean_lem m v =
      let ((bs, n), run, z) = clean_all-CleanedAll m.buckets 0 v.distinct in
      (
        (record m { buckets = bs }, n),
        rw (usable m v, run),
        record {
          allocated = v.allocated;
          width = z.width ∙ v.width;
          some_buckets = v.some_buckets;
          some_mutexs = v.some_mutexs;
          distinct = z.distinct;
          seated = λ i q h. elim (z.reads i q) [
            | inl same ↦ same ∙ v.seated i q h
            | inr (_, gone, _, _) ↦ gone
          ];
        },
        omega (arith, z.counted),
        λ q. z.reads (seat m q) q,
      )

-- An entry that has taken the place of an erased one is not looked at: the first place keeps it.
module _ {ℓ} {K V : Type ℓ} (valid_check : K → V → Bool) where
  clean_from-head :
      (fuel j : ℕ) (e : K × V) (c : Bucket K V) (count : ℕ)
      → 0 < fuel
      → length c < fuel + j
      → (r : Bucket K V × ℕ) × (clean_from valid_check fuel (suc j) (e ∷ c) count
          ≡ some (e ∷ r.0, r.1))
  unfolding clean_from
  clean_from-head zero j e c count pos h = absurd (omega arith)
  clean_from-head (suc fuel) j e c count pos h = elim (Option-cases (get_elem? c j)) [
    | inl end ↦ ((c, count), rw (end, clean_from))
    | inr (f, here) ↦
        let inside = get_elem?-lt c j here in
        elim (Bool-cases (valid_check f.0 f.1)) [
          | inl keep ↦
              let (r, run) = clean_from-head fuel (suc j) e c count (omega arith) (omega arith) in
              (r, rw (here, clean_from, keep) run)
          | inr drop ↦
              let (r, run) =
                clean_from-head fuel (suc j) e (erase_at j c) (count + 1) (omega arith)
                  (omega (arith, length-erase_at j c inside)) in
              (r, rw (here, clean_from, drop, erase_at-cons j e c inside) run)
        ]
  ]

  clean_from-erase :
      (fuel j : ℕ) (c : Bucket K V) (count : ℕ) (e : K × V)
      → get_elem? c j ≡ some e
      → valid_check e.0 e.1 ≡ false
      → clean_from valid_check (suc fuel) j c count
        ≡ clean_from valid_check fuel (suc j) (erase_at j c) (count + 1)
  unfolding clean_from
  clean_from-erase fuel j c count e here invalid = rw (clean_from, here, invalid)

  -- Whenever the first of two or more entries of a bucket is invalid, `clean` ends with the last
  -- entry in its place, valid or not.
  pub clean_bucket-leaves_last :
      (e f : K × V) (c : Bucket K V)
      → valid_check e.0 e.1 ≡ false
      → (r : Bucket K V × ℕ) × (clean_bucket valid_check (e ∷ f ∷ c) 0 ≡ some (back f c ∷ r.0, r.1))
  unfolding clean_bucket
  clean_bucket-leaves_last e f c invalid =
      let (r, run) =
        clean_from-head (suc (suc (length c))) 0 (back f c) (front f c) (0 + 1) (omega arith)
          (rw (length-front f c) (omega arith)) in
      (r, clean_from-erase _ 0 (e ∷ f ∷ c) 0 e refl invalid ∙ rw (erase_at-zero e f c) run)
