-- ===== src/Base/Words.antt =====
-- `size_t` of 64 bits: sums and differences wrap.
use Prim.Native.Nat.{ℕ, ◌+◌, ◌-◌, ◌%◌, ◌^◌, ◌≤◌, ◌<◌}
use mathlib.Core.Path.{◌≡◌}
use native.Mathlib.Omega.{arith}

abbrev pub word : ℕ
word = 2 ^ 64

unfoldable pub add_word : ℕ → ℕ → ℕ
add_word a b = (a + b) % word

unfoldable pub sub_word : ℕ → ℕ → ℕ
sub_word a b = (a + word - b) % word

pub add_word-eq-add : (a b : ℕ) → a + b < word → add_word a b ≡ a + b
unfolding add_word
add_word-eq-add a b h = omega arith

pub sub_word-eq-sub : (a b : ℕ) → b ≤ a → a < word → sub_word a b ≡ a - b
unfolding sub_word
sub_word-eq-sub a b h k = omega arith
