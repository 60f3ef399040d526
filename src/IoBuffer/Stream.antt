-- ===== src/IoBuffer/Stream.antt =====
-- bas/io_buffer.hpp: a buffer as a stream, over any sequence of calls of `produce`, `consume` and
-- `crunch`, the three that the work handlers of bastool/ make between a read and a write.
use native.Mathlib.Decide.{dec_le}
use mathlib.Core.List.{append-nil, append_assoc}
use baserver.Base.{
  ℕ, ◌+◌, ◌≡◌, ◌++◌, [], ◌∷◌, refl, sym, ap, ◌∙◌, List, length, drop, ok, fault, assertion, arith,
  ◌⊎◌, inl, inr, Returns, Run, ◌>>=◌, drop-drop, drop-append_left, subst,
}
use baserver.IoBuffer.{IoBuffer, unread}
use baserver.IoBuffer.Bounds.{
  IsValid, Op, crunches, consumes, produces_bytes, apply, Allowed, apply-IsValid, apply-refused,
}
use baserver.IoBuffer.Contents.{Reads, apply-Reads, length-unread}

pub data Call : Type 0 where
  crunch_call : Call
  consume_call : ℕ → Call
  produce_call : List ℕ → Call

abbrev pub op : Call → Op
op crunch_call = crunches
op (consume_call n) = consumes n
op (produce_call bs) = produces_bytes bs

pub run : List Call → IoBuffer → Run IoBuffer
run [] b = ok b
run (c ∷ cs) b = apply (op c) b >>= run cs

-- All that the calls produce, and how much they consume.
pub produced : List Call → List ℕ
produced [] = []
produced (produce_call bs ∷ cs) = bs ++ produced cs
produced (crunch_call ∷ cs) = produced cs
produced (consume_call n ∷ cs) = produced cs

pub consumed : List Call → ℕ
consumed [] = 0
consumed (consume_call n ∷ cs) = n + consumed cs
consumed (crunch_call ∷ cs) = consumed cs
consumed (produce_call bs ∷ cs) = consumed cs

Allowed-decide : (c : Call) (b : IoBuffer) → Dec (Allowed (op c) b)
Allowed-decide crunch_call b = yes tt
Allowed-decide (consume_call n) b = dec_le (b.begin_offset + n) b.end_offset
Allowed-decide (produce_call bs) b = dec_le (b.end_offset + length bs) (length b.buffer)

-- What is unread and still to be produced, behind one call.
step-stream :
    (c : Call) (cs : List Call) (b d : IoBuffer)
    → IsValid b
    → Allowed (op c) b
    → Reads (op c) b d
    → drop (consumed cs) (unread d ++ produced cs)
      ≡ drop (consumed (c ∷ cs)) (unread b ++ produced (c ∷ cs))
unfolding consumed produced
step-stream crunch_call cs b d v h r = rw r.0
step-stream (consume_call n) cs b d v h r =
    rw (r, ← drop-append_left n (unread b) (produced cs) (omega (arith, length-unread b v)))
      (drop-drop n (consumed cs) (unread b ++ produced cs))
step-stream (produce_call bs) cs b d v h r =
    rw r (ap (drop (consumed cs)) (append_assoc (unread b) bs (produced cs)))

-- What `run-stream` says of a run that began with `b`.
abbrev pub Streams : List Call → IoBuffer → IoBuffer → Type 0
Streams cs b d =
    IsValid d
    × (length d.buffer ≡ length b.buffer)
    × (unread d ≡ drop (consumed cs) (unread b ++ produced cs))

apply-both :
    (c : Call) (b : IoBuffer)
    → IsValid b
    → Allowed (op c) b
    → Returns
        (apply (op c) b)
        λ d. IsValid d × (length d.buffer ≡ length b.buffer) × Reads (op c) b d
apply-both c b v h =
    let (d, one, reads) = apply-Reads (op c) b v h in
    let (d', one', (w, len)) = apply-IsValid (op c) b v h in
    let same : d' ≡ d = cc in
    (d, one, (subst IsValid same w, subst (λ x. length x.buffer ≡ length b.buffer) same len, reads))

-- On a valid buffer a sequence of calls stops at an assertion, or leaves a valid buffer of the
-- same capacity with the bytes that were unread and produced, less those consumed, in order.
pub run-stream :
    (cs : List Call) (b : IoBuffer)
    → IsValid b
    → (run cs b ≡ fault assertion) ⊎ Returns (run cs b) (Streams cs b)
unfolding run
run-stream [] b v =
    inr (b, refl, (v, refl, unfold consumed produced in sym (append-nil (unread b))))
run-stream (c ∷ cs) b v = elim (Allowed-decide c b) [
  | no refused ↦ inl (rw (apply-refused (op c) b v refused))
  | yes h ↦
      let (d, one, (w, len, reads)) = apply-both c b v h in
      rw one (elim (run-stream cs d w) [
        | inl stop ↦ inl stop
        | inr (e, rest, (we, lene, same)) ↦
            inr (e, rest, (we, lene ∙ len, same ∙ step-stream c cs b d v h reads))
      ])
]
