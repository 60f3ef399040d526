-- ===== src/ByteString.antt =====
-- bastool/byte_string.hpp: a string of bytes, as the vector that it holds. Positions and lengths are
-- `size_t` words; a copy outside a vector has no result.
pub mod Sections
pub mod Replace
use baserver.Base.{
  ℕ, ◌+◌, ◌-◌, ◌==◌, leb, ltb, if◌then◌else◌, Bool, ◌&&◌, ◌||◌, List, [], ◌∷◌, ◌++◌, length, take,
  drop, replicate, word, add_word, sub_word, Run, ok, fault, out_of_bounds, ◌>>=◌,
}
use baserver.IoBuffer.{IoBuffer, copy_to, unread}

pub record ByteString : Type 0 where
  pub buffer : List ℕ

-- `std::string::npos`.
abbrev pub npos : ℕ
npos = word - 1

-- The bytes that `memcpy` reads at an offset of a vector.
unfoldable pub read_at : ℕ → ℕ → List ℕ → Run (List ℕ)
read_at offset count v =
    if leb (offset + count) (length v) then ok (take count (drop offset v)) else fault out_of_bounds

-- `memmove` inside a vector.
unfoldable pub move_within : ℕ → ℕ → ℕ → List ℕ → Run (List ℕ)
move_within target source count v = do bytes ← read_at source count v; copy_to target bytes v

-- `vector::resize`.
unfoldable pub resized : ℕ → List ℕ → List ℕ
resized n v = if leb n (length v) then take n v else v ++ replicate (n - length v) 0

unfoldable pub size : ByteString → ℕ
size s = length s.buffer

-- The constructors from data and from one byte.
unfoldable pub from_data : List ℕ → Run ByteString
from_data bytes = do v ← copy_to 0 bytes (replicate (length bytes) 0); ok (record { buffer = v })

unfoldable pub filled_with : ℕ → ℕ → ByteString
filled_with count byte = record { buffer = replicate count byte }

unfoldable pub assign : List ℕ → ByteString → Run ByteString
assign bytes s = do
  v ← copy_to 0 bytes (resized (length bytes) s.buffer)
  ok (record { buffer = v })

unfoldable pub assign_fill : ℕ → ℕ → ByteString → Run ByteString
assign_fill count byte s = do
  v ← copy_to 0 (replicate count byte) (resized count s.buffer)
  ok (record { buffer = v })

unfoldable pub fill : ℕ → ByteString → Run ByteString
fill byte s = do v ← copy_to 0 (replicate (size s) byte) s.buffer; ok (record { buffer = v })

unfoldable pub append : List ℕ → ByteString → Run ByteString
append bytes s = if length bytes == 0 then ok s else do
  v ← copy_to (size s) bytes (resized (add_word (size s) (length bytes)) s.buffer)
  ok (record { buffer = v })

unfoldable pub append_fill : ℕ → ℕ → ByteString → Run ByteString
append_fill count byte s = do
  v ← copy_to (size s) (replicate count byte) (resized (add_word (size s) count) s.buffer)
  ok (record { buffer = v })

-- `append` of another string, and of a buffer.
unfoldable pub append_string : ByteString → ByteString → Run ByteString
append_string other s = append other.buffer s

unfoldable pub append_buffer : IoBuffer → ByteString → Run ByteString
append_buffer other s = append (unread other) s

-- The constructor from a buffer.
unfoldable pub from_buffer : IoBuffer → Run ByteString
from_buffer other = from_data (unread other)

unfoldable pub push_back : ℕ → ByteString → ByteString
push_back byte s = record { buffer = s.buffer ++ byte ∷ [] }

-- The length with `npos` replaced, in `substr` and `replace`.
unfoldable pub clamp : ℕ → ℕ → ByteString → ℕ
clamp position len s =
    if (len == npos) && ltb position (size s) then sub_word (size s) position else len

-- The test that `substr` and `replace` share.
unfoldable pub is_outside : ℕ → ℕ → ByteString → Bool
is_outside position len s =
    ltb (size s) (add_word position len)
    || ((len == 0) || (ltb (size s) len || leb (size s) position))

unfoldable pub substr : ℕ → ℕ → ByteString → Run ByteString
substr position len s = do
  let count = clamp position len s
  let outside = is_outside position count s
  bytes ← read_at (if outside then 0 else position) (if outside then 0 else count) s.buffer
  from_data bytes

-- The move of the tail in `replace`, to make room for `add_size` bytes in the place of `count`.
unfoldable pub make_room : ℕ → ℕ → ℕ → ByteString → Run (List ℕ)
make_room position count add_size s =
    let old_size = size s in
    let new_size = add_word (sub_word old_size count) add_size in
    let tail_size = sub_word (sub_word old_size position) count in
    let target = add_word position add_size in
    let source = add_word position count in
    if count == add_size
    then ok s.buffer
    else (if ltb add_size count
        then (move_within target source tail_size s.buffer >>= λ v. ok (resized new_size v))
        else move_within target source tail_size (resized new_size s.buffer))

unfoldable pub replace : ℕ → ℕ → ByteString → ByteString → Run ByteString
replace position len other s =
    let count = clamp position len s in
    if is_outside position count s then ok s else do
      v ← make_room position count (size other) s
      w ← copy_to position other.buffer v
      ok (record { buffer = w })

unfoldable pub erase : ℕ → ℕ → ByteString → Run ByteString
erase position len s = replace position len (record { buffer = [] }) s
