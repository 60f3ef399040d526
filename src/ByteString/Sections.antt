-- ===== src/ByteString/Sections.antt =====
-- bastool/byte_string.hpp: which section of the string a position and a length name.
use mathlib.Core.List.{append-nil}
use baserver.Base.{
  ℕ, ◌+◌, ◌-◌, ◌^◌, ◌≤◌, ◌<◌, ◌≡◌, refl, ap, ◌∙◌, ◌==◌, leb, ltb, if◌then◌else◌, Bool, true, false,
  not, ◌&&◌, ◌||◌, List, [], ◌++◌, length, take, drop, replicate, word, add_word, sub_word, ok,
  arith, Bool-cases, inl, inr, le→leb, length-replicate, drop-all,
}
use baserver.IoBuffer.Bounds.{copy_to_lem}
use baserver.ByteString.{ByteString, npos, read_at, size, from_data, clamp, is_outside, substr}

-- A section that is not empty and inside the string. `npos` stands for the rest of it, and the sum is
-- that of numbers, which do not wrap.
abbrev pub is_section : ℕ → ℕ → ℕ → Bool
is_section position len n =
    ltb position n && ((len == npos) || (not (len == 0) && leb (position + len) n))

-- Its length.
abbrev pub section_length : ℕ → ℕ → ℕ → ℕ
section_length position len n = if len == npos then n - position else len

pub clamp_lem :
    (position len : ℕ) (s : ByteString)
    → size s < 2 ^ 63
    → position < word
    → len < word
    → is_section position len (size s) ≡ true
    → clamp position len s ≡ section_length position len (size s)
unfolding clamp sub_word
clamp_lem position len s h k l e = ground arith

pub is_outside_lem :
    (position len : ℕ) (s : ByteString)
    → size s < 2 ^ 63
    → position < word
    → len < word
    → is_outside position (clamp position len s) s ≡ not (is_section position len (size s))
unfolding clamp is_outside sub_word add_word
is_outside_lem position len s h k l = ground arith

pub from_data_lem : (bytes : List ℕ) → from_data bytes ≡ ok (record { buffer = bytes })
unfolding from_data
from_data_lem bytes =
    let v = replicate (length bytes) 0 in
    let (run, len) =
      copy_to_lem 0 bytes v (omega (arith, length-replicate {A = ℕ} (length bytes) 0)) in
    rw run (
      ap (λ w. ok (record { buffer = w }))
        (ap (λ w. bytes ++ w)
            (drop-all (0 + length bytes) v
              (omega (arith, length-replicate {A = ℕ} (length bytes) 0)))
          ∙ append-nil bytes))

pub read_at_lem :
    (offset count : ℕ) (v : List ℕ)
    → offset + count ≤ length v
    → read_at offset count v ≡ ok (take count (drop offset v))
unfolding read_at
read_at_lem offset count v h = rw (le→leb _ _ h) refl

substr-at :
    (position len : ℕ) (s : ByteString)
    → is_outside position (clamp position len s) s ≡ false
    → position + clamp position len s ≤ length s.buffer
    → substr position len s
      ≡ ok (record { buffer = take (clamp position len s) (drop position s.buffer) })
unfolding substr
substr-at position len s e h =
    rw (e, read_at_lem position (clamp position len s) s.buffer h) (from_data_lem _)

substr-outside :
    (position len : ℕ) (s : ByteString)
    → is_outside position (clamp position len s) s ≡ true
    → substr position len s ≡ ok (record { buffer = [] })
unfolding substr
substr-outside position len s e = rw (e, read_at_lem 0 0 s.buffer (omega arith)) (from_data_lem [])

pub size-eq-length : (s : ByteString) → size s ≡ length s.buffer
unfolding size
size-eq-length s = refl

pub section-within :
    (position len n : ℕ)
    → is_section position len n ≡ true
    → position + section_length position len n ≤ n
section-within position len n h = ground arith

-- `substr` gives the section, and an empty string where the position and the length name none.
pub substr_lem :
    (position len : ℕ) (s : ByteString)
    → size s < 2 ^ 63
    → position < word
    → len < word
    → substr position len s
      ≡ ok (record {
        buffer =
            if is_section position len (size s)
            then take (section_length position len (size s)) (drop position s.buffer)
            else [];
      })
substr_lem position len s h k l = elim (Bool-cases (is_section position len (size s))) [
  | inl e ↦
      let c = clamp_lem position len s h k l e in
      rw e (
        substr-at position len s (is_outside_lem position len s h k l ∙ ap not e)
          (omega (arith, c, size-eq-length s, section-within position len (size s) e))
        ∙ ap (λ n. ok (record { buffer = take n (drop position s.buffer) })) c)
  | inr e ↦ rw e (substr-outside position len s (is_outside_lem position len s h k l ∙ ap not e))
]
