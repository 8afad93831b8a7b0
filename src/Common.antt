-- ===== src/Common.antt =====
-- src/task-dispatcher/common/math_intrin.hh as GNU compilers see it, and the core counts of
-- src/task-dispatcher/common/system_info.cc on Linux. The compiler's count of leading zeros is a
-- parameter; the two overloads of a function differ in the width `w` of their words, 32 or 64.
mod Tests
use task_dispatcher.Base.{
  ℕ, zero, suc, ◌+◌, ◌-◌, ◌*◌, ◌/◌, ◌%◌, ◌^◌, ◌≤◌, ◌<◌, ◌≡◌, refl, sym, ap, ◌∙◌, Bool, true, false,
  arith, if◌then◌else◌, bit_and, ◌==◌, not, subst,
}

-- `__builtin_clz` and `__builtin_clzll`: undefined at 0, else the zeros above the highest set bit.
pub record IsClz (w : ℕ) (clz : ℕ → ℕ) : Type 0 where
  pub below : (v : ℕ) → 0 < v → v < 2 ^ w → clz v < w
  pub above_highest :
      (v : ℕ) → 0 < v → v < 2 ^ w → (2 ^ (w - 1 - clz v) ≤ v) × (v < 2 ^ (w - clz v))

-- The width is `sizeof(v) * 8`.
unfoldable pub bsr : ℕ → (ℕ → ℕ) → ℕ → ℕ
bsr w clz v = w - clz v

unfoldable pub clog2 : ℕ → (ℕ → ℕ) → ℕ → ℕ
unfolding bsr
clog2 w clz x = bsr w clz ((x * 2 % 2 ^ w + 2 ^ w - 1) % 2 ^ w)

unfoldable pub upperpow2 : ℕ → (ℕ → ℕ) → ℕ → ℕ
unfolding clog2
upperpow2 w clz x = 2 * 2 ^ clog2 w clz x % 2 ^ w

-- `num_physical_cores`, with bit 28 of the feature flags as hyperthreading; `flags` is what `cpuid`
-- answers.
unfoldable pub num_physical_cores : ℕ → ℕ → ℕ
num_physical_cores flags num_logical_cores =
    if bit_and (2 ^ 28) flags == 0 then num_logical_cores else num_logical_cores / 2

doubled : (w x : ℕ) → 0 < x → 2 * x ≤ 2 ^ w → (x * 2 % 2 ^ w + 2 ^ w - 1) % 2 ^ w ≡ 2 * x - 1
doubled w x pos small = go (2 ^ w) x pos small
  where
    go : (p x : ℕ) → 0 < x → 2 * x ≤ p → (x * 2 % p + p - 1) % p ≡ 2 * x - 1
    go p x pos small = grind arith

-- Two to `clog2` of a number up to half of the words is at least twice and less than four times the
-- number: it is twice the least power of two that is not below the number, so that `clog2` is one above
-- the rounded-up logarithm.
pub clog2_lem :
    (w : ℕ) (clz : ℕ → ℕ) (x : ℕ)
    → IsClz w clz
    → 0 < x
    → 2 * x ≤ 2 ^ w
    → (2 * x ≤ 2 ^ clog2 w clz x) × (2 ^ clog2 w clz x < 4 * x)
unfolding clog2 bsr
clog2_lem w clz x h pos small =
    let v = 2 * x - 1 in
    let b = h.above_highest v (omega arith) (omega arith) in
    let top : w - clz v ≡ suc (w - 1 - clz v) =
      omega (arith, h.below v (omega arith) (omega arith)) in
    let power : 2 ^ suc (w - 1 - clz v) ≡ 2 * 2 ^ (w - 1 - clz v) = omega arith in
    let twice : 2 ^ (w - clz v) ≡ 2 * 2 ^ (w - 1 - clz v) = ap (λ n. 2 ^ n) top ∙ power in
    rw (doubled w x pos small) (omega (arith, b, twice), omega (arith, b, twice))
