-- ===== src/IoBuffer/Bounds.antt =====
-- bas/io_buffer.hpp: the offsets stay in order and within the vector.
use baserver.Base.{
  ℕ, ◌+◌, ◌-◌, ◌^◌, ◌≤◌, ◌<◌, ◌≡◌, ◌++◌, refl, List, length, take, drop, ok, fault, assertion,
  arith, leb, Bool-cases, inl, inr, length-append, length-take, length-drop, sub_word, Returns,
  le→leb, leb→le, lt→leb_false, if◌then◌else◌, ◌==◌, add_word-eq-add, Run,
}
use baserver.IoBuffer.{
  IoBuffer, copy_to, move_down, clear, size, capacity, space, unread, resize, rewind, consume,
  produce, produce_bytes, crunch, slide, empty,
}

-- A vector of bytes holds less than 2^63 of them.
pub record IsValid (b : IoBuffer) : Type 0 where
  pub ordered : b.begin_offset ≤ b.end_offset
  pub within : b.end_offset ≤ length b.buffer
  pub small : length b.buffer < 2 ^ 63

pub size_lem : (b : IoBuffer) → IsValid b → size b ≡ b.end_offset - b.begin_offset
unfolding size sub_word
size_lem b v = omega arith

pub space_lem : (b : IoBuffer) → IsValid b → space b ≡ length b.buffer - b.end_offset
unfolding space sub_word capacity
space_lem b v = omega arith

-- A copy within the vector succeeds, and keeps its length.
pub copy_to_lem :
    (offset : ℕ) (bytes v : List ℕ)
    → offset + length bytes ≤ length v
    → (copy_to offset bytes v ≡ ok (take offset v ++ (bytes ++ drop (offset + length bytes) v)))
      × (length (take offset v ++ (bytes ++ drop (offset + length bytes) v)) ≡ length v)
unfolding copy_to
copy_to_lem offset bytes v h = (
  rw (le→leb _ _ h),
  omega (
    arith,
    length-append (take offset v) (bytes ++ drop (offset + length bytes) v),
    length-append bytes (drop (offset + length bytes) v),
    length-take offset v (omega arith),
    length-drop (offset + length bytes) v,
  ),
)

pub move_down_lem :
    (offset count : ℕ) (v : List ℕ)
    → offset + count ≤ length v
    → (move_down offset count v ≡ ok (take count (drop offset v) ++ drop count v))
      × (length (take count (drop offset v) ++ drop count v) ≡ length v)
unfolding move_down
move_down_lem offset count v h =
    let moved = take count (drop offset v) in
    let e : length moved ≡ count =
      length-take count (drop offset v) (omega (arith, length-drop offset v)) in
    let (run, len) = copy_to_lem 0 moved v (omega arith) in
    let z : 0 + length moved ≡ count = omega arith in (rw (le→leb _ _ h) (rw z at run), rw z at len)

-- The move keeps the vector's length, and puts the unread bytes first.
pub slide_lem :
    (n : ℕ) (b : IoBuffer)
    → IsValid b
    → Returns (slide n b) λ c.
      (c.begin_offset ≡ 0)
      × (c.end_offset ≡ n)
      × (length c.buffer ≡ length b.buffer)
      × (c.buffer ≡ unread b ++ drop (size b) b.buffer)
unfolding slide unread
slide_lem n b v =
    let (run, len) = move_down_lem b.begin_offset (size b) b.buffer (omega (arith, size_lem b v)) in
    (record { begin_offset = 0; end_offset = n; buffer = _ }, rw run, (refl, refl, len, refl))

pub data Op : Type 0 where
  clears crunches : Op
  resizes consumes produces : ℕ → Op
  produces_bytes : List ℕ → Op

-- One call of a method that changes the buffer.
unfoldable pub apply : Op → IoBuffer → Run IoBuffer
apply clears b = ok (clear b)
apply crunches b = crunch b
apply (resizes n) b = resize n b
apply (consumes n) b = consume n b
apply (produces n) b = produce n b
apply (produces_bytes bs) b = produce_bytes bs b

-- What the method asserts.
abbrev pub Allowed : Op → IoBuffer → Type 0
Allowed clears b = Unit {0}
Allowed crunches b = Unit {0}
Allowed (resizes n) b = n ≤ length b.buffer
Allowed (consumes n) b = b.begin_offset + n ≤ b.end_offset
Allowed (produces n) b = b.end_offset + n ≤ length b.buffer
Allowed (produces_bytes bs) b = b.end_offset + length bs ≤ length b.buffer

abbrev Keeps : IoBuffer → IoBuffer → Type 0
Keeps b c = IsValid c × (length c.buffer ≡ length b.buffer)

-- The four methods that assert, and `crunch`, as equations on a valid buffer.
pub consume_lem :
    (n : ℕ) (b : IoBuffer)
    → IsValid b
    → b.begin_offset + n ≤ b.end_offset
    → consume n b ≡ ok (rewind (record b { begin_offset = b.begin_offset + n }))
unfolding consume
consume_lem n b v h = rw (
  size_lem b v,
  le→leb n (b.end_offset - b.begin_offset) (omega arith),
  add_word-eq-add b.begin_offset n (omega arith),
)

pub produce_lem :
    (n : ℕ) (b : IoBuffer)
    → IsValid b
    → b.end_offset + n ≤ length b.buffer
    → produce n b ≡ ok (record b { end_offset = b.end_offset + n })
unfolding produce
produce_lem n b v h = rw (
  space_lem b v,
  le→leb n (length b.buffer - b.end_offset) (omega arith),
  add_word-eq-add b.end_offset n (omega arith),
)

pub produce_bytes_lem :
    (bs : List ℕ) (b : IoBuffer)
    → IsValid b
    → b.end_offset + length bs ≤ length b.buffer
    → produce_bytes bs b
      ≡ ok (record b {
        end_offset = b.end_offset + length bs;
        buffer = take b.end_offset b.buffer ++ (bs ++ drop (b.end_offset + length bs) b.buffer);
      })
unfolding produce_bytes
produce_bytes_lem bs b v h = rw (
  space_lem b v,
  le→leb (length bs) (length b.buffer - b.end_offset) (omega arith),
  (copy_to_lem b.end_offset bs b.buffer h).0,
  add_word-eq-add b.end_offset (length bs) (omega arith),
)

pub resize_lem :
    (n : ℕ) (b : IoBuffer)
    → IsValid b
    → n ≤ length b.buffer
    → resize n b ≡ (
        if leb (b.begin_offset + n) (length b.buffer)
        then ok (record b { end_offset = b.begin_offset + n })
        else slide n b)
unfolding resize capacity
resize_lem n b v h = rw (le→leb _ _ h, add_word-eq-add b.begin_offset n (omega arith))

rewind-Keeps : (b : IoBuffer) → IsValid b → Keeps b (rewind b)
unfolding rewind empty clear
rewind-Keeps b v = ground arith

slide-Keeps :
    (n : ℕ) (b : IoBuffer) → IsValid b → n ≤ length b.buffer → Returns (slide n b) (Keeps b)
slide-Keeps n b v h =
    let (c, run, (first, last, len, _)) = slide_lem n b v in (c, run, (omega arith, len))

crunch-Keeps : (b : IoBuffer) → IsValid b → Returns (crunch b) (Keeps b)
unfolding crunch empty clear
crunch-Keeps b v = elim (Bool-cases (b.begin_offset == 0)) [
  | inl e ↦ (b, rw e, (v, refl))
  | inr e ↦ elim (Bool-cases (b.begin_offset == b.end_offset)) [
    | inl d ↦ (clear b, rw (e, d), (omega arith, refl))
    | inr d ↦
        let (c, run, k) = slide-Keeps (size b) b v (omega (arith, size_lem b v)) in
        (c, rw (e, d) run, k)
  ]
]

resize-Keeps :
    (n : ℕ) (b : IoBuffer) → IsValid b → n ≤ length b.buffer → Returns (resize n b) (Keeps b)
resize-Keeps n b v h = elim (Bool-cases (leb (b.begin_offset + n) (length b.buffer))) [
  | inl e ↦ (
    record b { end_offset = b.begin_offset + n },
    rw (resize_lem n b v h, e),
    (omega (arith, leb→le _ _ e), refl),
  )
  | inr e ↦ let (c, run, k) = slide-Keeps n b v h in (c, rw (resize_lem n b v h, e) run, k)
]

-- On a valid buffer a method whose assertion holds returns a valid buffer of the same capacity.
pub apply-IsValid :
    (op : Op) (b : IoBuffer) → IsValid b → Allowed op b → Returns (apply op b) (Keeps b)
unfolding apply clear
apply-IsValid clears b v h = (clear b, refl, (omega arith, refl))
apply-IsValid crunches b v h = crunch-Keeps b v
apply-IsValid (resizes n) b v h = resize-Keeps n b v h
apply-IsValid (consumes n) b v h =
    let c : IoBuffer = record b { begin_offset = b.begin_offset + n } in
    (rewind c, consume_lem n b v h, rewind-Keeps c (omega arith))
apply-IsValid (produces n) b v h = (_, produce_lem n b v h, (omega arith, refl))
apply-IsValid (produces_bytes bs) b v h =
    let len = (copy_to_lem b.end_offset bs b.buffer h).1 in
    (_, produce_bytes_lem bs b v h, (omega arith, len))

-- Where it does not hold, the method stops at it.
pub apply-refused :
    (op : Op) (b : IoBuffer) → IsValid b → ¬ Allowed op b → apply op b ≡ fault assertion
unfolding apply consume produce produce_bytes resize capacity
apply-refused clears b v h = absurd (h tt)
apply-refused crunches b v h = absurd (h tt)
apply-refused (resizes n) b v h = rw (lt→leb_false n (length b.buffer) (omega arith))
apply-refused (consumes n) b v h = rw (lt→leb_false n (size b) (omega (arith, size_lem b v)))
apply-refused (produces n) b v h = rw (lt→leb_false n (space b) (omega (arith, space_lem b v)))
apply-refused (produces_bytes bs) b v h =
    rw (lt→leb_false (length bs) (space b) (omega (arith, space_lem b v)))
