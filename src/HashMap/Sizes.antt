-- ===== src/HashMap/Sizes.antt =====
-- bastool/hash_map.hpp: the choice of the number of buckets and of mutexes.
use baserver.Base.{
  ℕ, ◌≤◌, ◌<◌, ◌≡◌, ◌⊎◌, inl, inr, List, [], ◌∷◌, leb, if◌then◌else◌, Bool-cases, arith, refl, back,
  sym, ap, ◌∙◌, subst,
}
use baserver.HashMap.{hash_table_sizes, first_size, hash_size}

abbrev pub Among : ℕ → List ℕ → Type 0
Among n [] = ⊥
Among n (s ∷ ss) = (n ≡ s) ⊎ Among n ss

abbrev Ascending : ℕ → List ℕ → Type 0
Ascending s [] = Unit {0}
Ascending s (t ∷ ts) = (s ≤ t) × Ascending t ts

-- `size` is at most each size of the list that holds `n` elements.
abbrev pub LeastFor : ℕ → ℕ → List ℕ → Type 0
LeastFor n size [] = Unit {0}
LeastFor n size (s ∷ ss) = (n ≤ s → size ≤ s) × LeastFor n size ss

LeastFor-below : (n size s : ℕ) (ss : List ℕ) → Ascending s ss → size ≤ s → LeastFor n size ss
LeastFor-below n size s [] a h = tt
LeastFor-below n size s (t ∷ ts) a h =
    (λ _. omega arith, LeastFor-below n size t ts a.1 (omega arith))

-- The step of the loop.
first_size-eq :
    (n s t : ℕ) (ts : List ℕ) → first_size n s (t ∷ ts) ≡ (if leb n s then s else first_size n t ts)
unfolding first_size
first_size-eq n s t ts = refl

first_size-Among : (n s : ℕ) (ss : List ℕ) → Among (first_size n s ss) (s ∷ ss)
first_size-Among n s [] = inl (unfold first_size in refl)
first_size-Among n s (t ∷ ts) = elim (Bool-cases (leb n s)) [
  | inl fits ↦ inl (first_size-eq n s t ts ∙ ap (λ b. if b then s else first_size n t ts) fits)
  | inr small ↦ inr (
      subst (λ r. Among r (t ∷ ts))
        (sym (first_size-eq n s t ts ∙ ap (λ b. if b then s else first_size n t ts) small))
        (first_size-Among n t ts))
]

first_size-le : (n s : ℕ) (ss : List ℕ) → n ≤ back s ss → n ≤ first_size n s ss
unfolding first_size
first_size-le n s [] h = h
first_size-le n s (t ∷ ts) h = ground (arith, first_size-le n t ts h)

first_size-LeastFor :
    (n s : ℕ) (ss : List ℕ) → Ascending s ss → LeastFor n (first_size n s ss) (s ∷ ss)
first_size-LeastFor n s [] a = (λ _. unfold first_size in omega arith, tt)
first_size-LeastFor n s (t ∷ ts) a = elim (Bool-cases (leb n s)) [
  | inl fits ↦
      subst (λ r. LeastFor n r (s ∷ t ∷ ts))
        (sym (first_size-eq n s t ts ∙ ap (λ b. if b then s else first_size n t ts) fits))
        (λ _. omega arith, LeastFor-below n s s (t ∷ ts) a (omega arith))
  | inr small ↦
      subst (λ r. LeastFor n r (s ∷ t ∷ ts))
        (sym (first_size-eq n s t ts ∙ ap (λ b. if b then s else first_size n t ts) small))
        (λ e. ground arith, first_size-LeastFor n t ts a.1)
]

first_size-last :
    (n s : ℕ) (ss : List ℕ) → Ascending s ss → back s ss < n → first_size n s ss ≡ back s ss
unfolding first_size
first_size-last n s [] a h = refl
first_size-last n s (t ∷ ts) a h = ground (arith, first_size-last n t ts a.1 h, back-le t ts a.1)
  where
    back-le : (u : ℕ) (us : List ℕ) → Ascending u us → u ≤ back u us
    back-le u [] b = omega arith
    back-le u (v ∷ vs) b = omega (arith, back-le v vs b.1)

-- The size is one of the table, and the least of the table that holds the elements. Up to
-- 25165843 elements it holds them; above, it is the last of the table.
pub hash_size_lem :
    (n : ℕ)
    → Among (hash_size n) hash_table_sizes
      × LeastFor n (hash_size n) hash_table_sizes
      × (n ≤ 25165843 → n ≤ hash_size n)
      × (25165843 < n → hash_size n ≡ 25165843)
unfolding hash_size
hash_size_lem n = (
  first_size-Among n 3 _,
  first_size-LeastFor n 3 _ (omega arith),
  λ h. first_size-le n 3 _ h,
  λ h. first_size-last n 3 _ (omega arith) h,
)

abbrev Positive : List ℕ → Type 0
Positive [] = Unit {0}
Positive (s ∷ ss) = (0 < s) × Positive ss

Among-Positive : (n : ℕ) (ss : List ℕ) → Positive ss → Among n ss → 0 < n
Among-Positive n [] p a = elim a [ ]
Among-Positive n (s ∷ ss) p (inl e) = omega arith
Among-Positive n (s ∷ ss) p (inr a) = Among-Positive n ss p.1 a

pub hash_size_positive : (n : ℕ) → 0 < hash_size n
hash_size_positive n =
    Among-Positive (hash_size n) hash_table_sizes (omega arith) (hash_size_lem n).0
