-- ===== src/Tests/ByteStrings.antt =====
-- Tests of bastool/byte_string.hpp.
use baserver.Base.{◌≡◌, refl, [], ◌∷◌, ◌++◌, ◌-◌, ok, ◌>>=◌, arith, add_word, sub_word}
use baserver.IoBuffer.{copy_to}
use baserver.ByteString.{
  ByteString, npos, read_at, move_within, resized, size, from_data, assign, fill, append, clamp,
  is_outside, substr, make_room, replace, erase,
}
use baserver.ByteString.Sections.{substr_lem}
use baserver.ByteString.Replace.{replace_lem, replace-substr}

abbrev letters : ByteString
letters = record { buffer = 97 ∷ 98 ∷ 99 ∷ 100 ∷ [] }

abbrev digits : ByteString
digits = record { buffer = 48 ∷ 49 ∷ 50 ∷ [] }

program : Unit {0}
unfolding copy_to read_at move_within resized size from_data assign fill append clamp is_outside
    substr make_room replace erase add_word sub_word
program = tt

substr_lem_example : substr 1 npos letters ≡ ok (record { buffer = 98 ∷ 99 ∷ 100 ∷ [] })
unfolding size
substr_lem_example = substr_lem 1 npos letters (omega arith) (omega arith) (omega arith)

replace_lem_example :
    replace 1 2 digits letters ≡ ok (record { buffer = 97 ∷ 48 ∷ 49 ∷ 50 ∷ 100 ∷ [] })
unfolding size
replace_lem_example = replace_lem 1 2 digits letters (omega arith) (omega arith) (omega arith)

replace-substr_example : (replace 1 2 digits letters >>= substr 1 3) ≡ ok digits
unfolding size
replace-substr_example =
    replace-substr 1 2 digits letters (omega arith) (omega arith) (omega arith) refl (omega arith)

-- A sum that wraps names no section.
wrapped : substr 2 (npos - 1) letters ≡ ok (record { buffer = [] })
unfolding program
wrapped = refl

erased : erase 1 npos letters ≡ ok (record { buffer = 97 ∷ [] })
unfolding program
erased = refl

shorter : replace 0 4 digits letters ≡ ok digits
unfolding program
shorter = refl

appended : append digits.buffer letters ≡ ok (record { buffer = letters.buffer ++ digits.buffer })
unfolding program
appended = refl

assigned : assign digits.buffer letters ≡ ok digits
unfolding program
assigned = refl

filled : fill 7 digits ≡ ok (record { buffer = 7 ∷ 7 ∷ 7 ∷ [] })
unfolding program
filled = refl
