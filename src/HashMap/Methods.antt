-- ===== src/HashMap/Methods.antt =====
-- bastool/hash_map.hpp: the methods against a finite map, a function from keys to values.
use mathlib.Core.Path.{fun_ext, ap₂}
use baserver.Base.{
  ℕ, ◌≡◌, refl, ◌∙◌, ap, subst, inl, inr, List, [], ◌∷◌, ◌++◌, Option, none, some, Bool, true,
  false, if◌then◌else◌, Run, ok, ◌>>=◌, Returns, Option-cases,
}
use baserver.HashMap.{
  Key, Bucket, HashMap, new, reset, find_in, assign_in, index_in, erase_at, find, insert, update,
  insert_update, erase, put_bucket,
}
use baserver.HashMap.Bucket.{append-Writes, assign-Writes, erase-Writes}
use baserver.HashMap.View.{
  seat, bucket_of, view, IsValid, Models, write, locate_lem, put_bucket-Models, reset-Models,
  new-Models,
}

pub data Op {ℓ} (K V : Type ℓ) : Type ℓ where
  inserts updates inserts_or_updates : K → V → Op K V
  erases : K → Op K V
  resets : Op K V

abbrev pub absent {ℓ} : {V : Type ℓ} → Option V → Bool
absent none = true
absent (some v) = false

module _ {ℓ} {K V : Type ℓ} ⦃key : Key K⦄ where
  -- What each method returns, and what it does to the finite map.
  pub spec : Op K V → (K → Option V) → Bool × (K → Option V)
  spec (inserts k v) f = if absent (f k) then (true, write f k (some v)) else (false, f)
  spec (updates k v) f = if absent (f k) then (false, f) else (true, write f k (some v))
  spec (inserts_or_updates k v) f = (true, write f k (some v))
  spec (erases k) f = if absent (f k) then (false, f) else (true, write f k none)
  spec resets f = (true, λ _. none)

  unfoldable pub apply : Op K V → HashMap K V → Run (Bool × HashMap K V)
  apply (inserts k v) m = insert m k v
  apply (updates k v) m = update m k v
  apply (inserts_or_updates k v) m = insert_update m k v
  apply (erases k) m = erase m k
  apply resets m = ok (true, reset m)

  -- The three writes of a bucket, where the key is absent and where it is present.
  module _ (m : HashMap K V) (k : K) (w : IsValid m) where
    abbrev with_bucket : Bucket K V → HashMap K V
    with_bucket c = put_bucket m (seat m k) c

    abbrev appended_map : V → HashMap K V
    appended_map v = with_bucket (bucket_of m k ++ (k, v) ∷ [])

    abbrev assigned_map : V → HashMap K V
    assigned_map v = with_bucket (assign_in k v (bucket_of m k))

    abbrev erased_map : HashMap K V
    erased_map = with_bucket (erase_at (index_in k (bucket_of m k)) (bucket_of m k))

    located : {x : Option V} → view m k ≡ x → find_in k (bucket_of m k) ≡ x
    unfolding view
    located e = e

    appended : (v : V) → view m k ≡ none → Models (write (view m) k (some v)) (appended_map v)
    appended v e =
        put_bucket-Models m k (some v) _ w (append-Writes k v _ (w.distinct _) (located e))

    assigned :
        (v old : V) → view m k ≡ some old → Models (write (view m) k (some v)) (assigned_map v)
    assigned v old e =
        put_bucket-Models m k (some v) _ w (assign-Writes k v old _ (w.distinct _) (located e))

    erased : (old : V) → view m k ≡ some old → Models (write (view m) k none) erased_map
    erased old e = put_bucket-Models m k none _ w (erase-Writes k old _ (w.distinct _) (located e))

  -- On a valid map each method returns what the finite map says, and leaves a valid map that reads
  -- as the finite map after the method.
  pub apply-spec :
      (op : Op K V) (m : HashMap K V)
      → IsValid m
      → Returns (apply op m) λ r. (r.0 ≡ (spec op (view m)).0) × Models (spec op (view m)).1 r.1
  unfolding apply spec insert update insert_update erase
  apply-spec (inserts k v) m w = elim (Option-cases (view m k)) [
    | inl e ↦ (
      (true, appended_map m k w v),
      rw (locate_lem m k w, ◌>>=◌, located m k w e, w.allocated),
      rw e (refl, appended m k w v e),
    )
    | inr (old, e) ↦ (
      (false, m),
      rw (locate_lem m k w, ◌>>=◌, located m k w e, w.allocated),
      rw e (refl, (w, λ q. refl)),
    )
  ]
  apply-spec (updates k v) m w = elim (Option-cases (view m k)) [
    | inl e ↦ (
      (false, m),
      rw (locate_lem m k w, ◌>>=◌, located m k w e, w.allocated),
      rw e (refl, (w, λ q. refl)),
    )
    | inr (old, e) ↦ (
      (true, assigned_map m k w v),
      rw (locate_lem m k w, ◌>>=◌, located m k w e, w.allocated),
      rw e (refl, assigned m k w v old e),
    )
  ]
  apply-spec (inserts_or_updates k v) m w = elim (Option-cases (view m k)) [
    | inl e ↦ (
      (true, appended_map m k w v),
      rw (locate_lem m k w, ◌>>=◌, located m k w e, w.allocated),
      (refl, appended m k w v e),
    )
    | inr (old, e) ↦ (
      (true, assigned_map m k w v),
      rw (locate_lem m k w, ◌>>=◌, located m k w e, w.allocated),
      (refl, assigned m k w v old e),
    )
  ]
  apply-spec (erases k) m w = elim (Option-cases (view m k)) [
    | inl e ↦ (
      (false, m),
      rw (locate_lem m k w, ◌>>=◌, located m k w e, w.allocated),
      rw e (refl, (w, λ q. refl)),
    )
    | inr (old, e) ↦ (
      (true, erased_map m k w),
      rw (locate_lem m k w, ◌>>=◌, located m k w e, w.allocated),
      rw e (refl, erased m k w old e),
    )
  ]
  apply-spec resets m w = ((true, reset m), refl, (refl, reset-Models m w))

  -- `find` reads the finite map.
  find-view : (m : HashMap K V) (k : K) → IsValid m → find m k ≡ ok (view m k)
  unfolding find view
  find-view m k w = rw (locate_lem m k w, w.allocated)

  -- A history of calls, with what they returned.
  pub run : List (Op K V) → HashMap K V → Run (List Bool × HashMap K V)
  run [] m = ok ([], m)
  run (op ∷ ops) m = do
    (answer, m') ← apply op m
    (answers, last) ← run ops m'
    ok (answer ∷ answers, last)

  pub spec_run : List (Op K V) → (K → Option V) → List Bool × (K → Option V)
  spec_run [] f = ([], f)
  spec_run (op ∷ ops) f =
      let (answer, g) = spec op f in
      let (answers, last) = spec_run ops g in (answer ∷ answers, last)

  -- Every history of calls on a valid map runs without a fault, answers as the finite map does,
  -- and ends in a valid map with the finite map's contents.
  pub run-spec :
      (ops : List (Op K V)) (m : HashMap K V) (f : K → Option V)
      → Models f m
      → Returns (run ops m) λ r. (r.0 ≡ (spec_run ops f).0) × Models (spec_run ops f).1 r.1
  unfolding run spec_run
  run-spec [] m f h = (([], m), refl, (refl, h))
  run-spec (op ∷ ops) m f h =
      let same : view m ≡ f = fun_ext h.1 in
      let ((answer, m'), one, (says, now)) = apply-spec op m h.0 in
      let now' : Models (spec op f).1 m' = subst (λ g. Models (spec op g).1 m') same now in
      let ((answers, last), rest, (all, end)) = run-spec ops m' (spec op f).1 now' in
      (
        (answer ∷ answers, last),
        rw (one, rest),
        (ap₂ ◌∷◌ (says ∙ ap (λ g. (spec op g).0) same) all, end),
      )

  -- After every history of calls on a new map, whatever its numbers of elements and of mutexes, `find`
  -- returns what the finite map holds for the key, without a fault.
  pub new-run-find :
      (elements mutexes : ℕ) (ops : List (Op K V))
      → Returns
          (run ops (new elements mutexes))
          λ r. (k : K) → find r.1 k ≡ ok ((spec_run ops (λ _. none)).1 k)
  new-run-find elements mutexes ops =
      let (r, e, (answers, w)) =
        run-spec ops (new elements mutexes) (λ _. none) (new-Models elements mutexes) in
      (r, e, λ k. find-view r.1 k w.0 ∙ ap ok (w.1 k))
