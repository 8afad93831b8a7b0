-- ===== src/Base/Words.antt =====
-- Machine words: an unsigned word is a number below its modulus, and an `int` is its bit pattern,
-- so that `-1` is `u32_mod - 1` and the non-negative values are those below `2 ^ 31`.
use Prim.Native.Nat.{ℕ, ◌+◌, ◌-◌, ◌%◌, ◌^◌}
use mathlib.Core.Bool.{Bool}
use task_dispatcher.Base.Tests.{ltb, leb, if◌then◌else◌}

abbrev pub u16_mod : ℕ
u16_mod = 2 ^ 16

abbrev pub u32_mod : ℕ
u32_mod = 2 ^ 32

abbrev pub word_mod : ℕ
word_mod = 2 ^ 64

abbrev pub add32 : ℕ → ℕ → ℕ
add32 a b = (a + b) % u32_mod

abbrev pub sub32 : ℕ → ℕ → ℕ
sub32 a b = (a + u32_mod - b) % u32_mod

abbrev pub add64 : ℕ → ℕ → ℕ
add64 a b = (a + b) % word_mod

abbrev pub sub64 : ℕ → ℕ → ℕ
sub64 a b = (a + word_mod - b) % word_mod

-- `-1` as an `int`, and as `uint32_t(-1)`.
abbrev pub minus_one : ℕ
minus_one = 2 ^ 32 - 1

-- The sign of an `int` and of an `intptr_t`.
abbrev pub is_negative32 : ℕ → Bool
is_negative32 a = leb (2 ^ 31) a

abbrev pub is_negative64 : ℕ → Bool
is_negative64 a = leb (2 ^ 63) a

-- The conversion of an `int` to `size_t`.
abbrev pub sign_extend : ℕ → ℕ
sign_extend a = if ltb a (2 ^ 31) then a else a + (2 ^ 64 - 2 ^ 32)
