-- ===== src/Server/Handlers.antt =====
-- bas/server.hpp: the handlers that the server has taken from the pool, and the accepts among them.
use baserver.Base.{
  ℕ, zero, suc, ◌+◌, ◌≡◌, refl, ap, sym, subst, if◌then◌else◌, List, [], ◌∷◌, set, get_elem?, some,
  Option-cases, inl, inr, arith,
}
use baserver.ErrorCode.{is_success}
use baserver.ServiceHandler.Steps.{remove_at}
use baserver.ServiceHandler.Session.{Session}
use baserver.Server.{Phase, accepting, in_session, accepted, Held, abort_all}

abbrev pub addresses : List Held → List ℕ
addresses [] = []
addresses (h ∷ hs) = h.address ∷ addresses hs

abbrev pub AllSessions : List Held → Type 0
AllSessions [] = Unit {0}
AllSessions (h ∷ hs) = Session 0 h.system × AllSessions hs

-- A slot is an accept that is under way, or that has a connection and is to be followed by another.
abbrev pub slot_of : Phase → ℕ
slot_of accepting = 1
slot_of in_session = 0
slot_of (accepted e) = if is_success e then 1 else 0

abbrev pub slots_in : List Held → ℕ
slots_in [] = 0
slots_in (h ∷ hs) = slot_of h.phase + slots_in hs

pub addresses-set :
    (hs : List Held) (i : ℕ) (h g : Held)
    → get_elem? hs i ≡ some h
    → g.address ≡ h.address
    → addresses (set hs i g) ≡ addresses hs
addresses-set [] i h g e k = cc
addresses-set (x ∷ hs) zero h g e k = cc
addresses-set (x ∷ hs) (suc i) h g e k = ap (◌∷◌ x.address) (addresses-set hs i h g e k)

pub AllSessions-set :
    (hs : List Held) (i : ℕ) (g : Held)
    → Session 0 g.system
    → AllSessions hs
    → AllSessions (set hs i g)
AllSessions-set [] i g v w = tt
AllSessions-set (x ∷ hs) zero g v (u, w) = (v, w)
AllSessions-set (x ∷ hs) (suc i) g v (u, w) = (u, AllSessions-set hs i g v w)

some-eq : (g h : Held) → some g ≡ some h → g ≡ h
some-eq g h e = cc

pub slots_in-set :
    (hs : List Held) (i : ℕ) (h g : Held)
    → get_elem? hs i ≡ some h
    → slots_in (set hs i g) + slot_of h.phase ≡ slots_in hs + slot_of g.phase
slots_in-set [] i h g e = cc
slots_in-set (x ∷ hs) zero h g e = omega (arith, ap (λ y. slot_of y.phase) (some-eq x h e))
slots_in-set (x ∷ hs) (suc i) h g e = omega (arith, slots_in-set hs i h g e)

pub get-Session :
    (hs : List Held) (i : ℕ) (h : Held)
    → get_elem? hs i ≡ some h
    → AllSessions hs
    → Session 0 h.system
get-Session [] i h e w = cc
get-Session (x ∷ hs) zero h e (u, w) = subst (λ y. Session 0 y.system) (some-eq x h e) u
get-Session (x ∷ hs) (suc i) h e (u, w) = get-Session hs i h e w

pub addresses-remove_at :
    (i : ℕ) (hs : List Held) (h : Held) (rest : List Held)
    → remove_at i hs ≡ some (h, rest)
    → remove_at i (addresses hs) ≡ some (h.address, addresses rest)
unfolding remove_at
addresses-remove_at i [] h rest e = cc
addresses-remove_at zero (x ∷ hs) h rest e = cc
addresses-remove_at (suc i) (x ∷ hs) h rest e = elim (Option-cases (remove_at i hs)) [
  | inl n ↦ ground (arith, n, e)
  | inr ((g, others), n) ↦ ground (arith, n, e, addresses-remove_at i hs g others n)
]

rest_eq : (p q : Held × List Held) → some p ≡ some q → p.1 ≡ q.1
rest_eq p q e = cc

-- What is left, where the head stays.
remove_at-suc :
    (i : ℕ) (x : Held) (hs : List Held) (h : Held) (rest : List Held)
    → remove_at (suc i) (x ∷ hs) ≡ some (h, rest)
    → (others : List Held) × (remove_at i hs ≡ some (h, others)) × (rest ≡ x ∷ others)
unfolding remove_at
remove_at-suc i x hs h rest e = elim (Option-cases (remove_at i hs)) [
  | inl n ↦ absurd (ground (arith, n, e))
  | inr ((g, others), n) ↦ (others, ground (arith, n, e), ground (arith, n, e))
]

pub AllSessions-remove_at :
    (i : ℕ) (hs : List Held) (h : Held) (rest : List Held)
    → remove_at i hs ≡ some (h, rest)
    → AllSessions hs
    → AllSessions rest
unfolding remove_at
AllSessions-remove_at i [] h rest e w = cc
AllSessions-remove_at zero (x ∷ hs) h rest e (u, w) =
    subst AllSessions (rest_eq (x, hs) (h, rest) e) w
AllSessions-remove_at (suc i) (x ∷ hs) h rest e (u, w) =
    let (others, n, k) = remove_at-suc i x hs h rest e in
    subst AllSessions (sym k) (u, AllSessions-remove_at i hs h others n w)

pub slots_in-remove_at :
    (i : ℕ) (hs : List Held) (h : Held) (rest : List Held)
    → remove_at i hs ≡ some (h, rest)
    → slots_in hs ≡ slot_of h.phase + slots_in rest
unfolding remove_at
slots_in-remove_at i [] h rest e = cc
slots_in-remove_at zero (x ∷ hs) h rest e = ground arith
slots_in-remove_at (suc i) (x ∷ hs) h rest e = elim (Option-cases (remove_at i hs)) [
  | inl n ↦ ground (arith, n, e)
  | inr ((g, others), n) ↦ ground (arith, n, e, slots_in-remove_at i hs g others n)
]

pub addresses-abort_all : (hs : List Held) → addresses (abort_all hs) ≡ addresses hs
unfolding abort_all
addresses-abort_all [] = refl
addresses-abort_all (h ∷ hs) = ap (◌∷◌ h.address) (addresses-abort_all hs)

pub AllSessions-abort_all : (hs : List Held) → AllSessions hs → AllSessions (abort_all hs)
unfolding abort_all
AllSessions-abort_all [] w = tt
AllSessions-abort_all (h ∷ hs) (u, w) = (u, AllSessions-abort_all hs w)
