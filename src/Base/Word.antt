-- ===== src/Base/Word.antt =====
-- 32-bit words of the i386: `size_t`, `unsigned`, `unsigned long` and `block_sector_t`.
use Prim.Native.Nat.{ℕ, ◌+◌, ◌-◌, ◌/◌, ◌%◌, ◌^◌}

abbrev pub word_mod : ℕ
word_mod = 2 ^ 32

abbrev pub add32 : ℕ → ℕ → ℕ
add32 a b = (a + b) % word_mod

-- a - b. The modulus is added first, since `-` on ℕ stops at 0.
abbrev pub sub32 : ℕ → ℕ → ℕ
sub32 a b = (a + word_mod - b) % word_mod

-- DIV_ROUND_UP, in 32-bit arithmetic.
abbrev pub div_round_up : ℕ → ℕ → ℕ
div_round_up x step = sub32 (add32 x step) 1 / step
