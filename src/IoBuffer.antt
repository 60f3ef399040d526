-- ===== src/IoBuffer.antt =====
-- bas/io_buffer.hpp: the buffer for incoming and outgoing data. Offsets are `size_t` words, an
-- assertion that fails is a fault, and a copy outside the vector has no result.
pub mod Bounds
pub mod Contents
pub mod Stream
use baserver.Base.{
  ℕ, ◌+◌, ◌==◌, leb, if◌then◌else◌, Bool, List, ◌++◌, length, take, drop, replicate, add_word,
  sub_word, Run, ok, fault, out_of_bounds, assert, ◌>>=◌, ◌>>◌, not,
}

pub record IoBuffer : Type 0 where
  pub begin_offset : ℕ
  pub end_offset : ℕ
  pub buffer : List ℕ

-- `memcpy` of `bytes` to the offset of a vector.
unfoldable pub copy_to : ℕ → List ℕ → List ℕ → Run (List ℕ)
copy_to offset bytes v =
    if leb (offset + length bytes) (length v)
    then ok (take offset v ++ (bytes ++ drop (offset + length bytes) v))
    else fault out_of_bounds

-- `memmove` of `count` bytes from the offset of a vector to its beginning.
unfoldable pub move_down : ℕ → ℕ → List ℕ → Run (List ℕ)
move_down offset count v =
    if leb (offset + count) (length v)
    then copy_to 0 (take count (drop offset v)) v
    else fault out_of_bounds

unfoldable pub new : ℕ → IoBuffer
new capacity = record { begin_offset = 0; end_offset = 0; buffer = replicate capacity 0 }

-- The constructor with the specified data.
unfoldable pub from_bytes : List ℕ → Run IoBuffer
from_bytes bytes = do
  v ← copy_to 0 bytes (replicate (length bytes) 0)
  ok (record { begin_offset = 0; end_offset = length bytes; buffer = v })

unfoldable pub clear : IoBuffer → IoBuffer
clear b = record b { begin_offset = 0; end_offset = 0 }

unfoldable pub empty : IoBuffer → Bool
empty b = b.begin_offset == b.end_offset

unfoldable pub size : IoBuffer → ℕ
size b = sub_word b.end_offset b.begin_offset

unfoldable pub capacity : IoBuffer → ℕ
capacity b = length b.buffer

unfoldable pub space : IoBuffer → ℕ
space b = sub_word (capacity b) b.end_offset

-- The bytes from `data()` that `size()` says are unread.
unfoldable pub unread : IoBuffer → List ℕ
unread b = take (size b) (drop b.begin_offset b.buffer)

-- The move that `resize` and `crunch` make: the unread bytes go to the front.
unfoldable pub slide : ℕ → IoBuffer → Run IoBuffer
slide n b = do
  v ← move_down b.begin_offset (size b) b.buffer
  ok (record { begin_offset = 0; end_offset = n; buffer = v })

unfoldable pub resize : ℕ → IoBuffer → Run IoBuffer
resize n b = do
  assert (leb n (capacity b))
  if leb (add_word b.begin_offset n) (capacity b)
      then ok (record b { end_offset = add_word b.begin_offset n })
      else slide n b

-- The test at the end of `consume`.
unfoldable pub rewind : IoBuffer → IoBuffer
rewind b = if empty b then clear b else b

unfoldable pub consume : ℕ → IoBuffer → Run IoBuffer
consume count b = do
  assert (leb count (size b))
  ok (rewind (record b { begin_offset = add_word b.begin_offset count }))

-- `produce(count)`: bytes that the socket has written behind the unread data.
unfoldable pub produce : ℕ → IoBuffer → Run IoBuffer
produce count b = do
  assert (leb count (space b))
  ok (record b { end_offset = add_word b.end_offset count })

-- `produce(length, data)`, and `produce(other)` at the unread bytes of the other buffer.
unfoldable pub produce_bytes : List ℕ → IoBuffer → Run IoBuffer
produce_bytes bytes b = do
  assert (leb (length bytes) (space b))
  v ← copy_to b.end_offset bytes b.buffer
  ok (record b { end_offset = add_word b.end_offset (length bytes); buffer = v })

unfoldable pub crunch : IoBuffer → Run IoBuffer
crunch b = if b.begin_offset == 0 then ok b else if empty b then ok (clear b) else slide (size b) b
