-- ===== src/Work/Buffers.antt =====
-- bastool/server_work.hpp: the buffers as the work handlers use them, empty or filled from the front.
use mathlib.Core.Path.{ap₂}
use baserver.Base.{
  ℕ, ◌+◌, ◌^◌, ◌≤◌, ◌<◌, ◌≡◌, refl, ap, ◌∙◌, subst, List, [], ◌++◌, length, take, drop, take-append,
  ok, ◌>>=◌, Returns, arith, eq→==, sub_word,
}
use baserver.IoBuffer.{
  IoBuffer, copy_to, produce, consume, rewind, crunch, size, unread, empty, clear,
}
use baserver.IoBuffer.Bounds.{IsValid, size_lem, copy_to_lem, produce_lem, consume_lem}
use baserver.IoBuffer.Contents.{unread_lem}
use baserver.Work.{load, receive}

-- The buffer has the capacity, and the bytes from its front on.
pub record Holds (bytes : List ℕ) (room : ℕ) (b : IoBuffer) : Type 0 where
  pub begins : b.begin_offset ≡ 0
  pub ends : b.end_offset ≡ length bytes
  pub contents : unread b ≡ bytes
  pub capacity : length b.buffer ≡ room
  pub small : room < 2 ^ 63
  pub fits : length bytes ≤ room

pub Holds-IsValid : (bytes : List ℕ) (room : ℕ) (b : IoBuffer) → Holds bytes room b → IsValid b
Holds-IsValid bytes room b h = record {
  ordered = omega (arith, h.begins);
  within = omega (arith, h.ends, h.capacity, h.fits);
  small = omega (arith, h.capacity, h.small);
}

pub Holds-size :
    (bytes : List ℕ) (room : ℕ) (b : IoBuffer) → Holds bytes room b → size b ≡ length bytes
Holds-size bytes room b h =
    size_lem b (Holds-IsValid bytes room b h) ∙ omega (arith, h.begins, h.ends)

-- Bytes written to the front of the vector of an empty buffer, and counted.
filled :
    (bytes : List ℕ) (b : IoBuffer)
    → length bytes ≤ length b.buffer
    → length b.buffer < 2 ^ 63
    → let v = bytes ++ drop (0 + length bytes) b.buffer in
      (copy_to 0 bytes b.buffer ≡ ok v)
      × (produce (length bytes) (record (clear b) { buffer = v })
          ≡ ok (record { begin_offset = 0; end_offset = length bytes; buffer = v }))
      × Holds bytes
          (length b.buffer)
          (record { begin_offset = 0; end_offset = length bytes; buffer = v })
unfolding clear
filled bytes b h k =
    let v = bytes ++ drop (0 + length bytes) b.buffer in
    let (run, len) = copy_to_lem 0 bytes b.buffer (omega (arith, h)) in
    let c : IoBuffer = record { begin_offset = 0; end_offset = length bytes; buffer = v } in
    let w : IsValid c = record {
      ordered = omega arith;
      within = omega (arith, len, h);
      small = omega (arith, len, k);
    } in
    (
      run,
      produce_lem (length bytes) (record (clear b) { buffer = v })
            (record { ordered = omega arith; within = omega arith; small = omega (arith, len, k) })
            (omega (arith, len, h))
          ∙ ap (λ n. ok (record { begin_offset = 0; end_offset = n; buffer = v })) (omega arith),
      record {
        begins = refl;
        ends = refl;
        contents =
            unread_lem c w
            ∙ ap (λ n. take n v) (omega arith)
            ∙ take-append bytes (drop (0 + length bytes) b.buffer);
        capacity = len;
        small = k;
        fits = h;
      },
    )

pub load-Holds :
    (bytes : List ℕ) (b : IoBuffer)
    → length bytes ≤ length b.buffer
    → length b.buffer < 2 ^ 63
    → Returns (load bytes b) (Holds bytes (length b.buffer))
unfolding load
load-Holds bytes b h k = let (run, made, v) = filled bytes b h k in (_, rw (run, made) refl, v)

-- What the socket has written, and then `produce` has counted.
pub receive-Holds :
    (bytes : List ℕ) (room : ℕ) (b : IoBuffer)
    → Holds [] room b
    → length bytes ≤ room
    → (c d : IoBuffer) × (receive bytes b ≡ ok c)
      × (produce (length bytes) c ≡ ok d)
      × Holds bytes room d
unfolding receive clear
receive-Holds bytes room b h k =
    let (run, made, v) =
      filled bytes b (omega (arith, h.capacity, k)) (omega (arith, h.capacity, h.small)) in
    let vec = bytes ++ drop (0 + length bytes) b.buffer in
    let at_front : record b { buffer = vec }
        ≡ record { begin_offset = 0; end_offset = 0; buffer = vec } =
      ap₂ (λ m n. record { begin_offset = m; end_offset = n; buffer = vec }) h.begins h.ends in
    (
      record b { buffer = vec },
      _,
      ap (λ n. copy_to n bytes b.buffer >>= λ v. ok (record b { buffer = v })) h.ends ∙ rw run refl,
      ap (produce (length bytes)) at_front ∙ made,
      subst
          (λ n.
            Holds bytes n (record { begin_offset = 0; end_offset = length bytes; buffer = vec }))
          h.capacity v,
    )

pub clear-Holds : (b : IoBuffer) → length b.buffer < 2 ^ 63 → Holds [] (length b.buffer) (clear b)
unfolding clear unread size sub_word
clear-Holds b k = record {
  begins = refl;
  ends = refl;
  contents = refl;
  capacity = refl;
  small = k;
  fits = omega arith;
}

rewind-at_end : (b : IoBuffer) → b.begin_offset ≡ b.end_offset → rewind b ≡ clear b
unfolding rewind empty
rewind-at_end b e = rw (eq→== b.begin_offset b.end_offset e) refl

crunch-clear : (b : IoBuffer) → crunch (clear b) ≡ ok (clear b)
unfolding crunch clear
crunch-clear b = refl

-- All the bytes are taken.
pub consume-Holds :
    (bytes : List ℕ) (room : ℕ) (b : IoBuffer)
    → Holds bytes room b
    → (c : IoBuffer) × (consume (length bytes) b ≡ ok c) × (crunch c ≡ ok c) × Holds [] room c
consume-Holds bytes room b h =
    let d : IoBuffer = record b { begin_offset = b.begin_offset + length bytes } in
    let at_end : d.begin_offset ≡ d.end_offset = omega (arith, h.begins, h.ends) in
    (
      clear d,
      consume_lem (length bytes) b (Holds-IsValid bytes room b h) (omega (arith, h.begins, h.ends))
          ∙ ap ok (rewind-at_end d at_end),
      crunch-clear d,
      subst (λ n. Holds [] n (clear d)) h.capacity
          (clear-Holds d (omega (arith, h.capacity, h.small))),
    )
