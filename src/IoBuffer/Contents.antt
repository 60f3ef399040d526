-- ===== src/IoBuffer/Contents.antt =====
-- bas/io_buffer.hpp: what the methods do to the unread bytes, first in, first out.
use mathlib.Core.List.{append_assoc}
use baserver.Base.{
  ℕ, ◌+◌, ◌-◌, ◌≤◌, ◌≡◌, ◌++◌, [], refl, sym, ap, ◌∙◌, List, length, take, drop, arith, inl, inr,
  length-append, length-take, length-drop, Returns, Bool-cases, leb, leb→le, ◌==◌, take-append_left,
  take-append, drop-drop, drop-take, take-all, take-take, ==→eq, take-eq-append, drop-append,
}
use baserver.IoBuffer.{
  IoBuffer, clear, empty, size, unread, resize, rewind, produce_bytes, crunch, slide,
}
use baserver.IoBuffer.Bounds.{
  IsValid, size_lem, slide_lem, Op, clears, crunches, resizes, consumes, produces, produces_bytes,
  apply, Allowed, consume_lem, produce_lem, produce_bytes_lem, resize_lem, copy_to_lem,
}

pub unread_lem :
    (b : IoBuffer)
    → IsValid b
    → unread b ≡ take (b.end_offset - b.begin_offset) (drop b.begin_offset b.buffer)
unfolding unread
unread_lem b v = rw (size_lem b v)

pub length-unread : (b : IoBuffer) → IsValid b → length (unread b) ≡ b.end_offset - b.begin_offset
length-unread b v = rw (unread_lem b v) (
    length-take _ (drop b.begin_offset b.buffer)
      (omega (arith, length-drop b.begin_offset b.buffer)))

-- The vector is the read bytes, the unread bytes and the free space.
pub parts :
    (b : IoBuffer)
    → IsValid b
    → take b.end_offset b.buffer ≡ take b.begin_offset b.buffer ++ unread b
parts b v = rw (unread_lem b v) (take-eq-append b.begin_offset b.end_offset b.buffer v.ordered)

pub unread-eq :
    (b : IoBuffer) (before u after : List ℕ)
    → IsValid b
    → b.buffer ≡ before ++ (u ++ after)
    → b.begin_offset ≡ length before
    → b.end_offset ≡ length before + length u
    → unread b ≡ u
unread-eq b before u after v e first last =
    let n : b.end_offset - b.begin_offset ≡ length u = omega arith in
    rw (unread_lem b v, n, first, e, drop-append before (u ++ after)) (take-append u after)

-- The bytes that stay unread when the beginning moves.
advance-unread :
    (n : ℕ) (b : IoBuffer)
    → IsValid b
    → b.begin_offset + n ≤ b.end_offset
    → unread (record b { begin_offset = b.begin_offset + n }) ≡ drop n (unread b)
advance-unread n b v h =
    let k : b.end_offset - (b.begin_offset + n) ≡ b.end_offset - b.begin_offset - n = omega arith in
    rw
      (unread_lem (record b { begin_offset = b.begin_offset + n }) (omega arith), unread_lem b v, k)
      (sym (
        drop-take n (b.end_offset - b.begin_offset) (drop b.begin_offset b.buffer)
        ∙ ap (take (b.end_offset - b.begin_offset - n)) (drop-drop b.begin_offset n b.buffer)))

-- A buffer with no unread bytes reads as nothing.
unread-nil : (b : IoBuffer) → IsValid b → b.begin_offset ≡ b.end_offset → unread b ≡ []
unread-nil b v e = let z : b.end_offset - b.begin_offset ≡ 0 = omega arith in rw (unread_lem b v, z)

rewind-unread : (b : IoBuffer) → IsValid b → unread (rewind b) ≡ unread b
unfolding rewind empty clear
rewind-unread b v = elim (Bool-cases (b.begin_offset == b.end_offset)) [
  | inr e ↦ rw e
  | inl e ↦
      rw (e, unread-nil b v (==→eq _ _ e))
        (unread-nil (record b { begin_offset = 0; end_offset = 0 }) (omega arith) refl)
]

-- An in-place end: the bytes up to any place that both buffers reach are the same.
extend-unread :
    (k n : ℕ) (b : IoBuffer)
    → IsValid b
    → b.begin_offset + n ≤ length b.buffer
    → k ≤ n
    → k ≤ length (unread b)
    → take k (unread (record b { end_offset = b.begin_offset + n })) ≡ take k (unread b)
extend-unread k n b v h p q =
    let m : b.begin_offset + n - b.begin_offset ≡ n = omega arith in
    rw (unread_lem (record b { end_offset = b.begin_offset + n }) (omega arith), unread_lem b v, m)
      (take-take k n (drop b.begin_offset b.buffer) p
        ∙ sym (
            take-take k (b.end_offset - b.begin_offset) (drop b.begin_offset b.buffer)
              (omega (arith, length-unread b v))))

produce_bytes-unread :
    (bs : List ℕ) (b : IoBuffer)
    → IsValid b
    → b.end_offset + length bs ≤ length b.buffer
    → Returns (produce_bytes bs b) λ c. unread c ≡ unread b ++ bs
produce_bytes-unread bs b v h =
    let rest = drop (b.end_offset + length bs) b.buffer in
    let (e, len) = copy_to_lem b.end_offset bs b.buffer h in
    let before = take b.begin_offset b.buffer in
    let n : length before ≡ b.begin_offset = length-take b.begin_offset b.buffer (omega arith) in
    let c : IoBuffer = record b {
      end_offset = b.end_offset + length bs;
      buffer = take b.end_offset b.buffer ++ (bs ++ rest);
    } in
    let whole : c.buffer ≡ before ++ ((unread b ++ bs) ++ rest) =
      rw (parts b v) (simp append_assoc) in
    (
      c,
      produce_bytes_lem bs b v h,
      unread-eq c before (unread b ++ bs) rest (omega arith) whole (omega arith)
          (omega (arith, length-append (unread b) bs, length-unread b v)),
    )

-- After the move the buffer begins at the front and reads as before.
slide-unread :
    (n : ℕ) (b : IoBuffer)
    → IsValid b
    → n ≤ length b.buffer
    → Returns (slide n b) λ c.
      (c.begin_offset ≡ 0)
      × (length (unread c) ≡ n)
      × ((k : ℕ) → k ≤ n → k ≤ length (unread b) → take k (unread c) ≡ take k (unread b))
slide-unread n b v h =
    let (c, run, (first, last, len, e)) = slide_lem n b v in
    let z : c.end_offset - c.begin_offset ≡ n = omega arith in
    let w : IsValid c = omega arith in
    (
      c,
      run,
      (
        first,
        length-unread c w ∙ z,
        λ k p q.
            rw (unread_lem c w, z, first, e)
              (take-take k n (unread b ++ drop (size b) b.buffer) p
                ∙ take-append_left k (unread b) (drop (size b) b.buffer) q),
      ),
    )

-- The queue of unread bytes that a method leaves: `clear` drops all, `consume` takes from the
-- front, `produce` adds at the end, `resize` keeps what fits, and `crunch` changes nothing and
-- leaves all the free space at the end.
abbrev pub Reads : Op → IoBuffer → IoBuffer → Type 0
Reads clears b c = unread c ≡ []
Reads crunches b c = (unread c ≡ unread b) × (c.begin_offset ≡ 0)
Reads (resizes n) b c =
    (length (unread c) ≡ n)
    × ((k : ℕ) → k ≤ n → k ≤ length (unread b) → take k (unread c) ≡ take k (unread b))
Reads (consumes n) b c = unread c ≡ drop n (unread b)
Reads (produces n) b c =
    (length (unread c) ≡ length (unread b) + n) × (take (length (unread b)) (unread c) ≡ unread b)
Reads (produces_bytes bs) b c = unread c ≡ unread b ++ bs

crunch-Reads : (b : IoBuffer) → IsValid b → Returns (crunch b) (Reads crunches b)
unfolding crunch empty clear
crunch-Reads b v = elim (Bool-cases (b.begin_offset == 0)) [
  | inl e ↦ (b, rw e, (refl, ==→eq _ _ e))
  | inr e ↦ elim (Bool-cases (b.begin_offset == b.end_offset)) [
    | inl d ↦ (
      clear b,
      rw (e, d),
      (unread-nil (clear b) (omega arith) refl ∙ sym (unread-nil b v (==→eq _ _ d)), refl),
    )
    | inr d ↦
        let n : size b ≡ length (unread b) = size_lem b v ∙ sym (length-unread b v) in
        let (c, run, (first, len, same)) =
          slide-unread (size b) b v (omega (arith, size_lem b v)) in
        let whole = same (size b) (omega arith) (omega arith) in
        (
          c,
          rw (e, d) run,
          (
            sym (take-all (size b) (unread c) (omega arith))
                ∙ whole
                ∙ take-all (size b) (unread b) (omega arith),
            first,
          ),
        )
  ]
]

resize-Reads :
    (n : ℕ) (b : IoBuffer)
    → IsValid b
    → n ≤ length b.buffer
    → Returns (resize n b) (Reads (resizes n) b)
resize-Reads n b v h = elim (Bool-cases (leb (b.begin_offset + n) (length b.buffer))) [
  | inl e ↦
      let fits = leb→le _ _ e in
      let c : IoBuffer = record b { end_offset = b.begin_offset + n } in
      (
        c,
        rw (resize_lem n b v h, e),
        (omega (arith, length-unread c (omega arith)), λ k p q. extend-unread k n b v fits p q),
      )
  | inr e ↦
      let (c, run, (_, len, same)) = slide-unread n b v h in
      (c, rw (resize_lem n b v h, e) run, (len, same))
]

grown-unread :
    (n : ℕ) (b : IoBuffer)
    → IsValid b
    → b.end_offset + n ≤ length b.buffer
    → take (length (unread b)) (unread (record b { end_offset = b.end_offset + n })) ≡ unread b
grown-unread n b v h =
    let c : IoBuffer = record b { end_offset = b.end_offset + n } in
    let tail = drop b.begin_offset b.buffer in
    rw (length-unread b v, unread_lem b v, unread_lem c (omega arith))
      (take-take (b.end_offset - b.begin_offset) (c.end_offset - b.begin_offset) tail (omega arith))

-- Every method whose assertion holds returns, and does to the unread bytes what `Reads` says.
pub apply-Reads :
    (op : Op) (b : IoBuffer) → IsValid b → Allowed op b → Returns (apply op b) (Reads op b)
unfolding apply clear
apply-Reads clears b v h = (clear b, refl, unread-nil (clear b) (omega arith) refl)
apply-Reads crunches b v h = crunch-Reads b v
apply-Reads (resizes n) b v h = resize-Reads n b v h
apply-Reads (consumes n) b v h =
    let c : IoBuffer = record b { begin_offset = b.begin_offset + n } in
    (rewind c, consume_lem n b v h, rewind-unread c (omega arith) ∙ advance-unread n b v h)
apply-Reads (produces n) b v h =
    let c : IoBuffer = record b { end_offset = b.end_offset + n } in
    let w : IsValid c = omega arith in
    (
      c,
      produce_lem n b v h,
      (omega (arith, length-unread b v, length-unread c w), grown-unread n b v h),
    )
apply-Reads (produces_bytes bs) b v h = produce_bytes-unread bs b v h
