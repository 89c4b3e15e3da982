-- ===== src/Prelude/Words.antt =====
-- Go's int64 as its bit pattern, a number below 2 ^ 64.
use Prim.Native.Nat.{ℕ, ◌+◌, ◌-◌, ◌%◌, ◌^◌}
use mathlib.Core.Bool.{Bool}
use aikey_proxy.Prelude.Tests.{ltb, if◌then◌else◌}

abbrev pub word_mod : ℕ
word_mod = 2 ^ 64

-- The patterns below this bound are the numbers that are not negative.
abbrev pub sign_bound : ℕ
sign_bound = 2 ^ 63

abbrev pub add64 : ℕ → ℕ → ℕ
add64 a b = (a + b) % word_mod

abbrev pub sub64 : ℕ → ℕ → ℕ
sub64 a b = (a + word_mod - b) % word_mod

-- Signed comparison: both patterns are shifted by 2 ^ 63.
abbrev pub slt64 : ℕ → ℕ → Bool
slt64 a b = ltb (add64 a sign_bound) (add64 b sign_bound)

-- The integer that a pattern stands for; `negsuc n` is -(n + 1).
pub data ℤ : Type 0 where
  pos : ℕ → ℤ
  negsuc : ℕ → ℤ

abbrev pub signed64 : ℕ → ℤ
signed64 w = if ltb w sign_bound then pos w else negsuc (word_mod - w - 1)
