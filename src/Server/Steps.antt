-- ===== src/Server/Steps.antt =====
-- bas/server.hpp: what one event does to the slots of the server.
use baserver.Base.{
  ℕ, suc, ◌+◌, ◌≤◌, ◌≡◌, refl, ap, sym, ◌∙◌, subst, true, false, if◌then◌else◌, Bool-cases, List,
  [], ◌∷◌, get_elem?, some, inl, inr, ok, Returns, arith,
}
use baserver.ErrorCode.{ErrorCode, success, is_success, is_aborted}
use baserver.ServiceHandler
use baserver.ServiceHandler.{Handler, System}
use baserver.ServiceHandler.Session.{Session, start-Session, close-Session}
use baserver.HandlerPool.Methods.{Accounted}
use baserver.Server.{
  Phase, accepting, in_session, accepted, Held, Server, accept_one_i, put, handle_accept,
  handle_held, Event, closes_acceptor, completes, run,
}
use baserver.Server.Handlers.{slot_of, addresses-set, AllSessions-set, slots_in-set, get-Session}
use baserver.Server.Accepting.{IsSound, slots, accept_one_i-Follows}

-- An event that neither closes the acceptor nor is an accept that fails.
abbrev pub Fine : Event → Type 0
Fine closes_acceptor = 1 ≤ 0
Fine (completes i e) = is_success e ≡ true
Fine _ = Unit {0}

abbrev pub AllFine : List Event → Type 0
AllFine [] = Unit {0}
AllFine (e ∷ es) = Fine e × AllFine es

-- The acceptor is open, and the server has a slot, and not more than `most`.
pub record Serves (most : ℕ) (s : Server) : Type 0 where
  pub listens : s.acceptor_open ≡ true
  pub some_slot : 1 ≤ slots s
  pub at_most : slots s ≤ most

pub record Stepped (fine : Type 0) (s t : Server) : Type 0 where
  pub sound : IsSound t
  pub serving : fine → (most : ℕ) → Serves most s → Serves most t

pub same_slots :
    (fine : Type 0) (s t : Server)
    → IsSound t
    → t.acceptor_open ≡ s.acceptor_open
    → slots t ≡ slots s
    → Stepped fine s t
same_slots fine s t v o e = record {
  sound = v;
  serving = λ f most w. record {
    listens = o ∙ w.listens;
    some_slot = omega (arith, e, w.some_slot);
    at_most = omega (arith, e, w.at_most);
  };
}

-- One slot of `s` has been used, which leaves `r`, and `accept_one_i` has been run.
pub used_slot :
    (fine : Type 0) (s r : Server)
    → IsSound r
    → r.acceptor_open ≡ s.acceptor_open
    → slots s ≡ suc (slots r)
    → Returns (accept_one_i true r) (Stepped fine s)
used_slot fine s r v o e =
    let (t, run, f) = accept_one_i-Follows r v in
    (
      t,
      run,
      record {
        sound = f.sound;
        serving = λ g most w. record {
          listens = f.same_open ∙ o ∙ w.listens;
          some_slot = f.serves (o ∙ w.listens);
          at_most = omega (arith, e, f.no_more, w.at_most);
        };
      },
    )

pub put-IsSound :
    (i : ℕ) (p : Phase) (h : Held) (t : System) (s : Server)
    → get_elem? s.handlers i ≡ some h
    → Session 0 t
    → IsSound s
    → IsSound (put i p h t s)
unfolding put
put-IsSound i p h t s e w v =
    let g : Held = record h { phase = p; system = t } in
    record {
      pools = v.pools;
      accounted =
          subst (λ l. Accounted l s.pool) (sym (addresses-set s.handlers i h g e refl)) v.accounted;
      sessions = AllSessions-set s.handlers i g w v.sessions;
    }

pub slots-put :
    (i : ℕ) (p : Phase) (h : Held) (t : System) (s : Server)
    → get_elem? s.handlers i ≡ some h
    → slots (put i p h t s) + slot_of h.phase ≡ slots s + slot_of p
unfolding put
slots-put i p h t s e =
    omega (arith, slots_in-set s.handlers i h (record h { phase = p; system = t }) e)

pub put-open :
    (i : ℕ) (p : Phase) (h : Held) (t : System) (s : Server)
    → (put i p h t s).acceptor_open ≡ s.acceptor_open
unfolding put
put-open i p h t s = refl

handle_accept-success :
    (i : ℕ) (e : ErrorCode) (h : Held) (s : Server) (t : System)
    → is_success e ≡ true
    → ServiceHandler.start h.system ≡ ok t
    → handle_accept true i e h s ≡ accept_one_i true (put i in_session h t s)
unfolding handle_accept
handle_accept-success i e h s t k r = rw (k, r) refl

handle_accept-failed :
    (i : ℕ) (e : ErrorCode) (h : Held) (s : Server) (t : System)
    → is_success e ≡ false
    → ServiceHandler.close (if is_aborted e then success else e) h.system ≡ ok t
    → handle_accept true i e h s ≡ ok (put i in_session h t s)
unfolding handle_accept
handle_accept-failed i e h s t k r = rw (k, r) refl

handle_accept-Stepped :
    (i : ℕ) (e : ErrorCode) (h : Held) (s : Server)
    → IsSound s
    → get_elem? s.handlers i ≡ some h
    → h.phase ≡ accepted e
    → Returns (handle_accept true i e h s) (Stepped (Unit {0}) s)
handle_accept-Stepped i e h s v at p = elim (Bool-cases (is_success e)) [
  | inl k ↦
      let (t, r, w) = start-Session h.system (get-Session s.handlers i h at v.sessions) in
      let one : slot_of h.phase ≡ 1 = ap slot_of p ∙ ap (λ b. if b then 1 else 0) k in
      subst (λ o. Returns o (Stepped (Unit {0}) s)) (sym (handle_accept-success i e h s t k r))
        (used_slot (Unit {0}) s (put i in_session h t s) (put-IsSound i in_session h t s at w v)
          (put-open i in_session h t s) (omega (arith, one, slots-put i in_session h t s at)))
  | inr k ↦
      let (t, r, w) =
        close-Session (if is_aborted e then success else e) h.system
          (get-Session s.handlers i h at v.sessions) in
      let none_left : slot_of h.phase ≡ 0 = ap slot_of p ∙ ap (λ b. if b then 1 else 0) k in
      (
        put i in_session h t s,
        handle_accept-failed i e h s t k r,
        same_slots (Unit {0}) s (put i in_session h t s) (put-IsSound i in_session h t s at w v)
            (put-open i in_session h t s)
            (omega (arith, none_left, slots-put i in_session h t s at)),
      )
]

pub idle : (fine : Type 0) (s : Server) → IsSound s → Returns (ok s) (Stepped fine s)
idle fine s v = (s, refl, same_slots fine s s v refl refl)

pub handle_held-Stepped :
    (i : ℕ) (h : Held) (s : Server)
    → IsSound s
    → get_elem? s.handlers i ≡ some h
    → Returns (handle_held true i h s) (Stepped (Unit {0}) s)
unfolding handle_held
handle_held-Stepped i h s v at = by_phase h.phase refl
  where
    by_phase :
        (p : Phase)
        → h.phase ≡ p
        → Returns {V = Server}
            (elim p [
              | accepted e ↦ handle_accept true i e h s
              | accepting ↦ ok s
              | in_session ↦ ok s
            ])
            (Stepped (Unit {0}) s)
    by_phase (accepted e) k = handle_accept-Stepped i e h s v at k
    by_phase accepting k = idle (Unit {0}) s v
    by_phase in_session k = idle (Unit {0}) s v
