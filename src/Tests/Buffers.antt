-- ===== src/Tests/Buffers.antt =====
-- Tests of the buffer of bas/io_buffer.hpp.
use baserver.Base.{
  ◌≡◌, ◌⊎◌, refl, List, [], ◌∷◌, length, ok, fault, assertion, Returns, arith, ◌>>=◌, add_word,
  sub_word,
}
use baserver.IoBuffer.{
  IoBuffer, copy_to, move_down, new, clear, size, capacity, space, unread, resize, rewind, consume,
  produce_bytes, crunch, slide, empty,
}
use baserver.IoBuffer.Bounds.{
  IsValid, resizes, consumes, produces_bytes, apply, apply-IsValid, apply-refused,
}
use baserver.IoBuffer.Contents.{Reads, apply-Reads}
use baserver.IoBuffer.Stream.{
  Call, crunch_call, consume_call, produce_call, run, Streams, run-stream,
}

program : Unit {0}
unfolding copy_to move_down new clear size capacity space unread resize rewind consume produce_bytes
    crunch slide empty add_word sub_word
program = tt

-- Two bytes are read, two unread, and there is room for one.
abbrev worn : IoBuffer
worn = record { begin_offset = 2; end_offset = 4; buffer = 1 ∷ 2 ∷ 3 ∷ 4 ∷ 0 ∷ [] }

worn-IsValid : IsValid worn
worn-IsValid = record { ordered = omega arith; within = omega arith; small = omega arith }

crunch-worn : (crunch worn >>= λ b. ok (unread b)) ≡ ok (3 ∷ 4 ∷ [])
unfolding program
crunch-worn = refl

produce-worn :
    (crunch worn >>= produce_bytes (7 ∷ 8 ∷ 9 ∷ []) >>= λ b. ok (unread b))
    ≡ ok (3 ∷ 4 ∷ 7 ∷ 8 ∷ 9 ∷ [])
unfolding program
produce-worn = refl

resize-worn : (resize 4 worn >>= λ b. ok (unread b)) ≡ ok (3 ∷ 4 ∷ 3 ∷ 4 ∷ [])
unfolding program
resize-worn = refl

apply-IsValid_example : Returns (apply (resizes 4) worn) λ c. IsValid c × (length c.buffer ≡ 5)
apply-IsValid_example = apply-IsValid (resizes 4) worn worn-IsValid (omega arith)

apply-refused_example : apply (produces_bytes (7 ∷ 8 ∷ [])) worn ≡ fault assertion
apply-refused_example = apply-refused (produces_bytes (7 ∷ 8 ∷ [])) worn worn-IsValid (omega arith)

apply-Reads_example : Returns (apply (consumes 1) worn) (Reads (consumes 1) worn)
apply-Reads_example = apply-Reads (consumes 1) worn worn-IsValid (omega arith)

abbrev exchange : List Call
exchange = consume_call 1 ∷ crunch_call ∷ produce_call (7 ∷ 8 ∷ []) ∷ []

run-stream_example :
    (run exchange worn ≡ fault assertion) ⊎ Returns (run exchange worn) (Streams exchange worn)
run-stream_example = run-stream exchange worn worn-IsValid
