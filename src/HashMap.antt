-- ===== src/HashMap.antt =====
-- bastool/hash_map.hpp: a hash map of buckets, each under one of an array of mutexes. Every method
-- that touches a bucket holds the bucket's mutex from before the first access to its return, so a
-- method is one step here; which mutex it takes is `locate`'s check.
pub mod Sizes
pub mod Bucket
pub mod View
pub mod Methods
pub mod Clean
use mathlib.Core.Option
use baserver.Base.{
  ℕ, suc, zero, ◌+◌, ◌-◌, ◌%◌, ◌==◌, leb, ltb, if◌then◌else◌, Bool, true, false, not, ◌||◌, List,
  [], ◌∷◌, ◌++◌, map, Option, none, some, length, replicate, get_elem?, set, back, pop_back, Run,
  ok, fault, out_of_bounds, division_by_zero, ◌>>=◌, ◌≡◌, ◌↔◌,
}

-- `K` with its `operator==` and the hash of `calculate_hash_value`. The source assumes plain data,
-- so keys that compare equal are the same value.
pub record Key {ℓ} (K : Type ℓ) : Type ℓ where
  pub hash : K → ℕ
  pub equal : K → K → Bool
  pub equal_iff : (a b : K) → (equal a b ≡ true) ↔ (a ≡ b)

abbrev pub Bucket {ℓ} : Type ℓ → Type ℓ → Type ℓ
Bucket K V = List (K × V)

-- `mutexs` says whether the array is allocated.
pub record HashMap {ℓ} (K V : Type ℓ) : Type ℓ where
  pub mutexs : Bool
  pub buckets : List (Bucket K V)
  pub num_mutexs : ℕ
  pub num_buckets : ℕ

abbrev pub hash_table_sizes : List ℕ
hash_table_sizes =
    3 ∷ 13 ∷ 23 ∷ 53 ∷ 97 ∷ 193 ∷ 389 ∷ 769 ∷ 1543 ∷ 3079 ∷ 6151 ∷ 12289 ∷ 24593 ∷ 49157 ∷ 98317
    ∷ 196613 ∷ 393241 ∷ 786433 ∷ 1572869 ∷ 3145739 ∷ 6291469 ∷ 12582917 ∷ 25165843 ∷ []

-- The loop of `hash_size` over the sizes: the first that is large enough, or the last.
unfoldable pub first_size : ℕ → ℕ → List ℕ → ℕ
first_size num_elements size [] = size
first_size num_elements size (next ∷ sizes) =
    if leb num_elements size then size else first_size num_elements next sizes

unfoldable pub hash_size : ℕ → ℕ
hash_size num_elements = elim hash_table_sizes [
  | [] ↦ 0
  | size ∷ sizes ↦ first_size num_elements size sizes
]

-- Erases the entry at an index: the last entry takes its place.
unfoldable pub erase_at {ℓ} : {A : Type ℓ} → ℕ → List A → List A
erase_at i [] = []
erase_at i (x ∷ xs) = pop_back (if i == length xs then x ∷ xs else set (x ∷ xs) i (back x xs))

module _ {ℓ} {K V : Type ℓ} where
  -- `init()`.
  unfoldable pub init : HashMap K V → HashMap K V
  init m = if m.mutexs then m else record m { mutexs = true; buckets = replicate m.num_buckets [] }

  unfoldable pub new : ℕ → ℕ → HashMap K V
  new num_elements num_mutexs = init (record {
    mutexs = false;
    buckets = [];
    num_mutexs = hash_size num_mutexs;
    num_buckets = hash_size num_elements;
  })

  -- The tests at the start of `reset` and `clean`.
  unfoldable pub unusable : HashMap K V → Bool
  unusable m = not m.mutexs || not (length m.buckets == m.num_buckets)

  unfoldable pub reset : HashMap K V → HashMap K V
  reset m = if unusable m then m else record m { buckets = map (λ _. []) m.buckets }

  -- `clear()`, which the destructor calls.
  unfoldable pub clear : HashMap K V → HashMap K V
  clear m = record m { mutexs = false; buckets = [] }

module _ {ℓ} {K V : Type ℓ} ⦃key : Key K⦄ where
  -- The bucket of a key and its seat, under the mutex `seat % num_mutexs`.
  unfoldable pub locate : HashMap K V → K → Run (ℕ × Bucket K V)
  locate m k =
      if m.num_buckets == 0 || m.num_mutexs == 0
      then fault division_by_zero
      else let seat = key.hash k % m.num_buckets in
        elim (get_elem? m.buckets seat) [
          | none ↦ fault out_of_bounds
          | some bucket ↦ ok (seat, bucket)
        ]

  -- The loops over one bucket: `find`'s, `update`'s, `insert_update`'s and `erase`'s.
  unfoldable pub find_in : K → Bucket K V → Option V
  find_in k [] = none
  find_in k (e ∷ c) = if key.equal e.0 k then some e.1 else find_in k c

  unfoldable pub assign_in : K → V → Bucket K V → Bucket K V
  assign_in k v [] = []
  assign_in k v (e ∷ c) = if key.equal e.0 k then (e.0, v) ∷ c else e ∷ assign_in k v c

  unfoldable pub index_in : K → Bucket K V → ℕ
  index_in k [] = 0
  index_in k (e ∷ c) = if key.equal e.0 k then 0 else suc (index_in k c)

  abbrev pub put_bucket : HashMap K V → ℕ → Bucket K V → HashMap K V
  put_bucket m seat bucket = record m { buckets = set m.buckets seat bucket }

  unfoldable pub find : HashMap K V → K → Run (Option V)
  find m k = if not m.mutexs then ok none else do (seat, bucket) ← locate m k; ok (find_in k bucket)

  unfoldable pub insert : HashMap K V → K → V → Run (Bool × HashMap K V)
  insert m k v = if not m.mutexs then ok (false, m) else do
    (seat, bucket) ← locate m k
    elim (find_in k bucket) [
      | some _ ↦ ok (false, m)
      | none ↦ ok (true, put_bucket m seat (bucket ++ (k, v) ∷ []))
    ]

  unfoldable pub update : HashMap K V → K → V → Run (Bool × HashMap K V)
  update m k v = if not m.mutexs then ok (false, m) else do
    (seat, bucket) ← locate m k
    elim (find_in k bucket) [
      | some _ ↦ ok (true, put_bucket m seat (assign_in k v bucket))
      | none ↦ ok (false, m)
    ]

  unfoldable pub insert_update : HashMap K V → K → V → Run (Bool × HashMap K V)
  insert_update m k v = if not m.mutexs then ok (false, m) else do
    (seat, bucket) ← locate m k
    elim (find_in k bucket) [
      | some _ ↦ ok (true, put_bucket m seat (assign_in k v bucket))
      | none ↦ ok (true, put_bucket m seat (bucket ++ (k, v) ∷ []))
    ]

  unfoldable pub erase : HashMap K V → K → Run (Bool × HashMap K V)
  erase m k = if not m.mutexs then ok (false, m) else do
    (seat, bucket) ← locate m k
    elim (find_in k bucket) [
      | some _ ↦ ok (true, put_bucket m seat (erase_at (index_in k bucket) bucket))
      | none ↦ ok (false, m)
    ]

module _ {ℓ} {K V : Type ℓ} (valid_check : K → V → Bool) where
  -- The inner loop of `clean` on one bucket from the index `j`, with the number of entries erased.
  -- `none` means that the fuel ran out.
  unfoldable pub clean_from : ℕ → ℕ → Bucket K V → ℕ → Option (Bucket K V × ℕ)
  clean_from zero j bucket count = none
  clean_from (suc fuel) j bucket count = elim (get_elem? bucket j) [
    | none ↦ some (bucket, count)
    | some e ↦ elim (valid_check e.0 e.1) [
      | true ↦ clean_from fuel (suc j) bucket count
      | false ↦ clean_from fuel (suc j) (erase_at j bucket) (count + 1)
    ]
  ]

  unfoldable pub clean_bucket : Bucket K V → ℕ → Option (Bucket K V × ℕ)
  clean_bucket bucket count = clean_from (suc (length bucket)) 0 bucket count

  -- The outer loop, over the buckets.
  unfoldable pub clean_all : List (Bucket K V) → ℕ → Option (List (Bucket K V) × ℕ)
  clean_all [] count = some ([], count)
  clean_all (bucket ∷ buckets) count = elim (clean_bucket bucket count) [
    | none ↦ none
    | some (bucket', count') ↦ Option.map (λ r. (bucket' ∷ r.0, r.1)) (clean_all buckets count')
  ]

  unfoldable pub clean : HashMap K V → Option (HashMap K V × ℕ)
  clean m =
      if unusable m
      then some (m, 0)
      else Option.map (λ r. (record m { buckets = r.0 }, r.1)) (clean_all m.buckets 0)
