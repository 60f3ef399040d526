-- ===== src/ByteString/Replace.antt =====
-- bastool/byte_string.hpp: `replace`, `erase` and `append`.
use mathlib.Core.List.{append-nil, append_assoc}
use baserver.Base.{
  ℕ, ◌+◌, ◌-◌, ◌^◌, ◌≤◌, ◌<◌, ◌≡◌, refl, ap, sym, ◌∙◌, ◌==◌, ltb, if◌then◌else◌, true, false, not,
  List, [], ◌++◌, length, take, drop, replicate, word, add_word, sub_word, ok, ◌>>=◌, arith,
  Bool-cases, inl, inr, length-replicate, length-take, length-drop, length-append, Returns,
  drop-all, add_word-eq-add, sub_word-eq-sub, take-append_left, drop-append_left, take-append,
  drop-append, take-all, le→leb, ==→eq, ltb→lt, lt→leb_false, take-take,
}
use baserver.IoBuffer.{copy_to}
use baserver.IoBuffer.Bounds.{copy_to_lem}
use baserver.ByteString.{
  ByteString, move_within, resized, size, clamp, is_outside, make_room, replace, substr,
}
use baserver.ByteString.Sections.{
  is_section, section_length, clamp_lem, is_outside_lem, read_at_lem, substr_lem, size-eq-length,
  section-within,
}

-- What `replace` is to leave before it writes: any bytes in the place of the new ones.
abbrev Roomy : ℕ → ℕ → ℕ → List ℕ → List ℕ → Type 0
Roomy position count add_size v w =
    (length w ≡ length v - count + add_size)
    × (take position w ≡ take position v)
    × (drop (position + add_size) w ≡ drop (position + count) v)

-- With room for them, writing the bytes gives the string with the section replaced.
write-Roomy :
    (position count : ℕ) (bytes v w : List ℕ)
    → position + count ≤ length v
    → Roomy position count (length bytes) v w
    → copy_to position bytes w ≡ ok (take position v ++ (bytes ++ drop (position + count) v))
write-Roomy position count bytes v w h (l, t, d) =
    let (run, len) = copy_to_lem position bytes w (omega (arith, l, h)) in
    run
    ∙ ap (λ xs. ok (xs ++ (bytes ++ drop (position + length bytes) w))) t
    ∙ ap (λ xs. ok (take position v ++ (bytes ++ xs))) d

-- The first part of the right length, then the tail.
Roomy-append :
    (position count add_size : ℕ) (v before : List ℕ)
    → position + count ≤ length v
    → length before ≡ position + add_size
    → take position before ≡ take position v
    → Roomy position count add_size v (before ++ drop (position + count) v)
Roomy-append position count add_size v before h l t = (
  omega (
    arith,
    length-append before (drop (position + count) v),
    length-drop (position + count) v,
    l,
    h,
  ),
  take-append_left position before (drop (position + count) v) (omega (arith, l)) ∙ t,
  ap (λ n. drop n (before ++ drop (position + count) v)) (sym l)
      ∙ drop-append before (drop (position + count) v),
)

move_within_lem :
    (target source count : ℕ) (v : List ℕ)
    → source + count ≤ length v
    → target + count ≤ length v
    → move_within target source count v
      ≡ ok (take target v ++ (take count (drop source v) ++ drop (target + count) v))
unfolding move_within
move_within_lem target source count v h k =
    let moved = take count (drop source v) in
    let e : length moved ≡ count =
      length-take count (drop source v) (omega (arith, h, length-drop source v)) in
    let (run, len) = copy_to_lem target moved v (omega (arith, e, k)) in
    rw (read_at_lem source count v h)
      (run ∙ ap (λ n. ok (take target v ++ (moved ++ drop (target + n) v))) e)

take-length : (n : ℕ) (xs ys : List ℕ) → length xs ≡ n → take n (xs ++ ys) ≡ xs
take-length n xs ys e = ap (λ m. take m (xs ++ ys)) (sym e) ∙ take-append xs ys

resized-shorter : (n : ℕ) (v : List ℕ) → n ≤ length v → resized n v ≡ take n v
unfolding resized
resized-shorter n v h = rw (le→leb _ _ h) refl

resized-longer : (n : ℕ) (v : List ℕ) → length v < n → resized n v ≡ v ++ replicate (n - length v) 0
unfolding resized
resized-longer n v h = rw (lt→leb_false _ _ h) refl

-- The tail moves down, and the vector is cut.
shrink-Roomy :
    (position count add_size : ℕ) (v : List ℕ)
    → position + count ≤ length v
    → add_size < count
    → Returns
        (move_within (position + add_size) (position + count) (length v - position - count) v
          >>= λ w. ok (resized (length v - count + add_size) w))
        (Roomy position count add_size v)
shrink-Roomy position count add_size v h k =
    let tail = drop (position + count) v in
    let size = length v - position - count in
    let before = take (position + add_size) v in
    let rest = drop (position + add_size + size) v in
    let n : length before ≡ position + add_size =
      length-take (position + add_size) v (omega (arith, h, k)) in
    let l : length tail ≡ size = omega (arith, length-drop (position + count) v) in
    let all : take size tail ≡ tail = take-all size tail (omega (arith, l)) in
    let len : length (before ++ tail) ≡ length v - count + add_size =
      omega (arith, length-append before tail, n, l, h) in
    let whole : length ((before ++ tail) ++ rest) ≡ length (before ++ tail) + length rest =
      length-append (before ++ tail) rest in
    (
      before ++ tail,
      rw
          (
            move_within_lem (position + add_size) (position + count) size v (omega (arith, h))
                (omega (arith, h, k)),
            all,
          )
          (ap (λ w. ok (resized (length v - count + add_size) w))
              (sym (append_assoc before tail rest))
            ∙ ap ok (
                resized-shorter (length v - count + add_size) ((before ++ tail) ++ rest)
                  (omega (arith, whole, len))
                ∙ take-length (length v - count + add_size) (before ++ tail) rest len)),
      Roomy-append position count add_size v before h n
          (take-take position (position + add_size) v (omega arith)),
    )

-- The vector grows, and the tail moves up.
grow-Roomy :
    (position count add_size : ℕ) (v : List ℕ)
    → position + count ≤ length v
    → count < add_size
    → Returns
        (move_within
          (position + add_size)
          (position + count)
          (length v - position - count)
          (resized (length v - count + add_size) v))
        (Roomy position count add_size v)
grow-Roomy position count add_size v h k =
    let tail = drop (position + count) v in
    let size = length v - position - count in
    let extra : List ℕ = replicate (length v - count + add_size - length v) 0 in
    let grown = v ++ extra in
    let before = take (position + add_size) grown in
    let g : length grown ≡ length v - count + add_size = omega (
      arith,
      length-append v extra,
      length-replicate {A = ℕ} (length v - count + add_size - length v) 0,
      h,
      k,
    ) in
    let n : length before ≡ position + add_size =
      length-take (position + add_size) grown (omega (arith, h, k, g)) in
    let l : length tail ≡ size = omega (arith, length-drop (position + count) v) in
    let moved : take size (drop (position + count) grown) ≡ tail =
      ap (take size) (drop-append_left (position + count) v extra h)
      ∙ take-length size tail extra l in
    let none : drop (position + add_size + size) grown ≡ [] =
      drop-all (position + add_size + size) grown (omega (arith, g, h, k)) in
    (
      before ++ tail,
      rw
          (
            resized-longer (length v - count + add_size) v (omega (arith, h, k)),
            move_within_lem (position + add_size) (position + count) size grown
                (omega (arith, g, h, k)) (omega (arith, g, h, k)),
          )
          (ap (λ w. ok (before ++ w))
            (ap (λ w. w ++ drop (position + add_size + size) grown) moved
              ∙ ap (λ w. tail ++ w) none
              ∙ append-nil tail)),
      Roomy-append position count add_size v before h n (
          take-take position (position + add_size) grown (omega arith)
          ∙ take-append_left position v extra (omega (arith, h))),
    )

make_room-Roomy :
    (position count add_size : ℕ) (s : ByteString)
    → position + count ≤ length s.buffer
    → length s.buffer + add_size < 2 ^ 63
    → Returns (make_room position count add_size s) (Roomy position count add_size s.buffer)
unfolding make_room
make_room-Roomy position count add_size s h small = elim (Bool-cases (count == add_size)) [
  | inl e ↦
      let same = ==→eq count add_size e in
      (
        s.buffer,
        rw e refl,
        (omega (arith, same, h), refl, ap (λ n. drop (position + n) s.buffer) (sym same)),
      )
  | inr e ↦ elim (Bool-cases (ltb add_size count)) [
    | inl l ↦
        rw (e, l, new_size, tail_size, target, source)
          (shrink-Roomy position count add_size s.buffer h (ltb→lt _ _ l))
    | inr l ↦
        rw (e, l, new_size, tail_size, target, source)
          (grow-Roomy position count add_size s.buffer h (ground (arith, e, l)))
  ]
]
  where
    n : size s ≡ length s.buffer
    n = size-eq-length s

    cut : sub_word (size s) count ≡ length s.buffer - count
    cut =
        sub_word-eq-sub (size s) count (omega (arith, n, h)) (omega (arith, n, small))
        ∙ ap (λ m. m - count) n

    new_size : add_word (sub_word (size s) count) add_size ≡ length s.buffer - count + add_size
    new_size = ap (λ m. add_word m add_size) cut ∙ add_word-eq-add _ _ (omega (arith, small))

    tail_size : sub_word (sub_word (size s) position) count ≡ length s.buffer - position - count
    tail_size =
        ap (λ m. sub_word m count)
          (sub_word-eq-sub (size s) position (omega (arith, n, h)) (omega (arith, n, small))
            ∙ ap (λ m. m - position) n)
        ∙ sub_word-eq-sub _ _ (omega (arith, h)) (omega (arith, small))

    target : add_word position add_size ≡ position + add_size
    target = add_word-eq-add _ _ (omega (arith, h, small))

    source : add_word position count ≡ position + count
    source = add_word-eq-add _ _ (omega (arith, h, small))

replace-inside :
    (position len : ℕ) (other s : ByteString)
    → is_outside position (clamp position len s) s ≡ false
    → position + clamp position len s ≤ length s.buffer
    → length s.buffer + size other < 2 ^ 63
    → replace position len other s
      ≡ ok (record {
        buffer =
            take position s.buffer
            ++ (other.buffer ++ drop (position + clamp position len s) s.buffer);
      })
unfolding replace size
replace-inside position len other s e h small =
    let (w, run, roomy) = make_room-Roomy position (clamp position len s) (size other) s h small in
    rw (e, run)
      (rw (write-Roomy position (clamp position len s) other.buffer s.buffer w h roomy) refl)

replace-outside :
    (position len : ℕ) (other s : ByteString)
    → is_outside position (clamp position len s) s ≡ true
    → replace position len other s ≡ ok s
unfolding replace
replace-outside position len other s e = rw e refl

-- On strings whose sizes together are below `2 ^ 63`, `replace` puts the other string in the place of
-- the section, and changes nothing where the position and the length name none.
pub replace_lem :
    (position len : ℕ) (other s : ByteString)
    → size s + size other < 2 ^ 63
    → position < word
    → len < word
    → replace position len other s
      ≡ ok (record {
        buffer =
            if is_section position len (size s)
            then take position s.buffer
              ++ (other.buffer ++ drop (position + section_length position len (size s)) s.buffer)
            else s.buffer;
      })
replace_lem position len other s h k l = elim (Bool-cases (is_section position len (size s))) [
  | inl e ↦
      let small : size s < 2 ^ 63 = omega (arith, h) in
      let c = clamp_lem position len s small k l e in
      let n = size-eq-length s in
      rw e (
        replace-inside position len other s (is_outside_lem position len s small k l ∙ ap not e)
          (omega (arith, c, n, section-within position len (size s) e)) (omega (arith, h, n))
        ∙ ap
            (λ m. ok (record {
              buffer = take position s.buffer ++ (other.buffer ++ drop (position + m) s.buffer);
            }))
            c)
  | inr e ↦ rw e (
      replace-outside position len other s
        (is_outside_lem position len s (omega (arith, h)) k l ∙ ap not e))
]

-- Where a section has been replaced by a string that is not empty, `substr` gives that string.
pub replace-substr :
    (position len : ℕ) (other s : ByteString)
    → size s + size other < 2 ^ 63
    → position < word
    → len < word
    → is_section position len (size s) ≡ true
    → 0 < size other
    → (replace position len other s >>= substr position (size other)) ≡ ok other
replace-substr position len other s h k l e some_bytes =
    let tail = drop (position + section_length position len (size s)) s.buffer in
    let r : ByteString = record { buffer = take position s.buffer ++ (other.buffer ++ tail) } in
    let m = section-within position len (size s) e in
    let first : length (take position s.buffer) ≡ position =
      length-take position s.buffer (omega (arith, m, size-eq-length s)) in
    let n : size r ≡ position + (length other.buffer + length tail) =
      size-eq-length r
      ∙ omega (
        arith,
        length-append (take position s.buffer) (other.buffer ++ tail),
        length-append other.buffer tail,
        first,
      ) in
    let o = size-eq-length other in
    let t = length-drop (position + section_length position len (size s)) s.buffer in
    let small : size r < 2 ^ 63 = omega (arith, n, h, o, t, m, size-eq-length s) in
    let inside : is_section position (size other) (size r) ≡ true =
      fits position (size other) (size r) some_bytes (omega (arith, h)) (omega (arith, n, o)) in
    rw (replace_lem position len other s h k l, e)
      ((rw inside at (substr_lem position (size other) r small k (omega (arith, h))))
        ∙ ap (λ b. ok (record { buffer = b }))
            (ap (λ c. take c (drop position r.buffer))
                (length_of (size other) position (size r) (omega (arith, h)) ∙ o)
              ∙ ap (take (length other.buffer)) (
                  ap (λ c. drop c r.buffer) (sym first)
                  ∙ drop-append (take position s.buffer) (other.buffer ++ tail))
              ∙ take-append other.buffer tail))
  where
    fits : (p c n : ℕ) → 0 < c → c < 2 ^ 63 → p + c ≤ n → is_section p c n ≡ true
    fits p c n a b d = ground arith

    length_of : (c p n : ℕ) → c < 2 ^ 63 → section_length p c n ≡ c
    length_of c p n h = ground arith
