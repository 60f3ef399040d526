-- ===== src/Tests/Maps.antt =====
-- Tests of the map of bastool/hash_map.hpp, at keys that are their own hash.
use baserver.Base.{
  ℕ, ◌+◌, ◌≤◌, ◌<◌, ◌≡◌, ◌↔◌, refl, List, [], ◌∷◌, none, some, Bool, true, ok, Returns, Run, ◌==◌,
  ==→eq, eq→==, ltb, ◌>>=◌,
}
use baserver.HashMap.{
  Key, Bucket, HashMap, first_size, hash_size, hash_table_sizes, erase_at, init, new, unusable,
  reset, clear, locate, find_in, assign_in, index_in, find, insert, update, insert_update, erase,
  clean_from, clean_bucket, clean_all, clean,
}
use baserver.HashMap.Sizes.{Among, LeastFor, hash_size_lem}
use baserver.HashMap.View.{view, IsValid, Models, new-Models}
use baserver.HashMap.Methods.{
  Op, inserts, updates, inserts_or_updates, erases, spec_run, run, run-spec, new-run-find,
}
use baserver.HashMap.Clean.{entries, Cleaned, clean_lem, clean_bucket-leaves_last}

==_iff : (a b : ℕ) → ((a == b) ≡ true) ↔ (a ≡ b)
==_iff a b = (==→eq a b, eq→== a b)

instance abbrev number_key : Key ℕ
number_key = record { equal = ◌==◌; hash = λ k. k; equal_iff = ==_iff }

program : Unit {0}
unfolding first_size hash_size erase_at init new unusable reset clear locate find_in assign_in
    index_in find insert update insert_update erase clean_from clean_bucket clean_all clean
program = tt

abbrev empty_map : HashMap ℕ ℕ
empty_map = new 3 2

-- 1, 4 and 7 share a bucket; the erased entry's place is taken by the last.
abbrev session : Run (List (Bucket ℕ ℕ))
session = do
  (_, a) ← insert empty_map 1 10
  (_, b) ← insert a 4 40
  (_, c) ← insert b 7 70
  (done, d) ← erase c 1
  ok d.buckets

session_ends : session ≡ ok ([] ∷ ((7, 70) ∷ (4, 40) ∷ []) ∷ [] ∷ [])
unfolding program
session_ends = refl

abbrev calls : List (Op ℕ ℕ)
calls = inserts 1 10 ∷ inserts 4 40 ∷ updates 4 44 ∷ erases 1 ∷ inserts_or_updates 7 70 ∷ []

run-spec_example :
    Returns
      (run calls empty_map)
      λ r. (r.0 ≡ (spec_run calls (λ _. none)).0) × Models (spec_run calls (λ _. none)).1 r.1
run-spec_example = run-spec calls empty_map (λ _. none) (new-Models 3 2)

new-Models_example : Models (λ _. none) empty_map
new-Models_example = new-Models 3 2

-- What the destructor leaves is empty.
cleared : find (clear empty_map) 4 ≡ ok none
unfolding program
cleared = refl

hash_size_lem_example :
    Among (hash_size 100) hash_table_sizes
    × LeastFor 100 (hash_size 100) hash_table_sizes
    × (100 ≤ 25165843 → 100 ≤ hash_size 100)
    × (25165843 < 100 → hash_size 100 ≡ 25165843)
hash_size_lem_example = hash_size_lem 100

abbrev small : ℕ → ℕ → Bool
small k v = ltb v 50

abbrev filled : HashMap ℕ ℕ
filled = (run-spec calls empty_map (λ _. none) (new-Models 3 2)).0.1

filled-IsValid : IsValid filled
filled-IsValid = (run-spec calls empty_map (λ _. none) (new-Models 3 2)).2.1.0

clean_lem_example :
    (r : HashMap ℕ ℕ × ℕ) × (clean small filled ≡ some r)
    × IsValid r.0
    × (r.1 + entries r.0.buckets ≡ entries filled.buckets)
    × ((q : ℕ) → Cleaned small q (view filled q) (view r.0 q))
clean_lem_example = clean_lem small filled filled-IsValid

clean_bucket-leaves_last_example :
    (r : Bucket ℕ ℕ × ℕ) × (clean_bucket small ((1, 60) ∷ (4, 70) ∷ []) 0
      ≡ some ((4, 70) ∷ r.0, r.1))
clean_bucket-leaves_last_example = clean_bucket-leaves_last small (1, 60) (4, 70) [] refl

new-run-find_example :
    Returns (run calls (new 3 2)) λ r. (k : ℕ) → find r.1 k ≡ ok ((spec_run calls (λ _. none)).1 k)
new-run-find_example = new-run-find 3 2 calls
