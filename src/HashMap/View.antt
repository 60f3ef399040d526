-- ===== src/HashMap/View.antt =====
-- bastool/hash_map.hpp: what a map holds, as a function from keys to values.
use native.Mathlib.Decide.{ℕ_discrete}
use baserver.Base.{
  ℕ, zero, suc, ◌%◌, ◌<◌, ◌≡◌, ◌≢◌, refl, ◌∙◌, ap, inl, inr, List, [], ◌∷◌, Option, none, true,
  false, if◌then◌else◌, length, map, get_or, ok, arith, Bool-cases, ne→==, eq→==, get_elem?-get_or,
  get_or-set_self, get_or-set_ne, length-set, length-replicate, get_or-replicate,
}
use baserver.HashMap.{
  Key, Bucket, HashMap, init, new, unusable, reset, locate, find_in, put_bucket, hash_size,
}
use baserver.HashMap.Bucket.{Absent, Distinct, Writes}
use baserver.HashMap.Sizes.{hash_size_positive}

module _ {ℓ} {K V : Type ℓ} ⦃key : Key K⦄ where
  abbrev pub seat : HashMap K V → K → ℕ
  seat m k = key.hash k % m.num_buckets

  abbrev pub bucket_of : HashMap K V → K → Bucket K V
  bucket_of m k = get_or m.buckets (seat m k) []

  -- The value of a key, by its bucket.
  unfoldable pub view : HashMap K V → K → Option V
  view m k = find_in k (bucket_of m k)

  -- The map is allocated, each bucket has a key once, and holds only keys whose seat it is.
  pub record IsValid (m : HashMap K V) : Type ℓ where
    pub allocated : m.mutexs ≡ true
    pub width : length m.buckets ≡ m.num_buckets
    pub some_buckets : 0 < m.num_buckets
    pub some_mutexs : 0 < m.num_mutexs
    pub distinct : (i : ℕ) → Distinct (get_or m.buckets i [])
    pub seated : (i : ℕ) (q : K) → seat m q ≢ i → Absent q (get_or m.buckets i [])

  abbrev pub Models : (K → Option V) → HashMap K V → Type ℓ
  Models f m = IsValid m × ((q : K) → view m q ≡ f q)

  abbrev pub write : (K → Option V) → K → Option V → K → Option V
  write f k x q = if key.equal k q then x else f q

  pub locate_lem : (m : HashMap K V) (k : K) → IsValid m → locate m k ≡ ok (seat m k, bucket_of m k)
  unfolding locate
  locate_lem m k v = rw (
    ne→== m.num_buckets 0 (omega arith),
    ne→== m.num_mutexs 0 (omega arith),
    get_elem?-get_or m.buckets (seat m k) [] (omega arith),
  )

  seat_congr : (m : HashMap K V) (a b : K) → key.equal a b ≡ true → seat m a ≡ seat m b
  seat_congr m a b e = ap (λ k. key.hash k % m.num_buckets) ((key.equal_iff a b).0 e)

  -- All the writes replace the bucket of `k`.
  pub put_bucket-Models :
      (m : HashMap K V) (k : K) (x : Option V) (c : Bucket K V)
      → IsValid m
      → Writes k x (bucket_of m k) c
      → Models (write (view m) k x) (put_bucket m (seat m k) c)
  unfolding view
  put_bucket-Models m k x c v w =
      let here = get_or-set_self m.buckets (seat m k) c [] (omega arith) in
      (
        record {
          allocated = v.allocated;
          width = length-set m.buckets (seat m k) c ∙ v.width;
          some_buckets = v.some_buckets;
          some_mutexs = v.some_mutexs;
          distinct = λ i. elim (ℕ_discrete (seat m k) i) [
            | yes e ↦ rw (← e, here) w.distinct
            | no n ↦ rw (get_or-set_ne m.buckets (seat m k) i c [] n) (v.distinct i)
          ];
          seated = λ i q h. elim (ℕ_discrete (seat m k) i) [
            | yes e ↦
                rw (← e, here)
                  (ground
                    (arith, w.reads q, seat_congr m k q, v.seated (seat m k) q (λ z. h (z ∙ e))))
            | no n ↦ rw (get_or-set_ne m.buckets (seat m k) i c [] n) (v.seated i q h)
          ];
        },
        λ q. elim (ℕ_discrete (seat m k) (seat m q)) [
          | yes e ↦ rw (← e, here) (w.reads q)
          | no n ↦
              rw (get_or-set_ne m.buckets (seat m k) (seat m q) c [] n)
                (elim (Bool-cases (key.equal k q)) [
                  | inl same ↦ absurd (n (seat_congr m k q same))
                  | inr other ↦ rw other
                ])
        ],
      )

  abbrev emptied : Bucket K V
  emptied = []

  get_or-map_nil :
      (bs : List (Bucket K V)) (i : ℕ) → get_or (map (λ (_ : Bucket K V). emptied) bs) i [] ≡ []
  get_or-map_nil [] i = refl
  get_or-map_nil (b ∷ bs) zero = refl
  get_or-map_nil (b ∷ bs) (suc i) = get_or-map_nil bs i

  length-map_nil :
      (bs : List (Bucket K V)) → length (map (λ (_ : Bucket K V). emptied) bs) ≡ length bs
  length-map_nil [] = refl
  length-map_nil (b ∷ bs) = ap suc (length-map_nil bs)

  pub usable : (m : HashMap K V) → IsValid m → unusable m ≡ false
  unfolding unusable
  usable m v = rw (eq→== (length m.buckets) m.num_buckets v.width, v.allocated)

  pub reset-Models : (m : HashMap K V) → IsValid m → Models (λ _. none) (reset m)
  unfolding reset view find_in
  reset-Models m v = rw (usable m v) (
    record {
      allocated = v.allocated;
      width = length-map_nil m.buckets ∙ v.width;
      some_buckets = v.some_buckets;
      some_mutexs = v.some_mutexs;
      distinct = λ i. rw (get_or-map_nil m.buckets i) tt;
      seated = λ i q h. rw (get_or-map_nil m.buckets i);
    },
    λ q. rw (get_or-map_nil m.buckets (seat m q)),
  )

  -- A new map is valid and empty, whatever the numbers of elements and of mutexes.
  pub new-Models : (n k : ℕ) → Models (λ _. none) (new {K = K} {V = V} n k)
  unfolding new init view find_in
  new-Models n k = (
    record {
      allocated = refl;
      width = length-replicate (hash_size n) [];
      some_buckets = hash_size_positive n;
      some_mutexs = hash_size_positive k;
      distinct = λ i. rw (get_or-replicate (hash_size n) i (emptied)) tt;
      seated = λ i q h. rw (get_or-replicate (hash_size n) i (emptied));
    },
    λ q. rw (get_or-replicate (hash_size n) (key.hash q % hash_size n) (emptied)),
  )
