-- ===== src/Common/Tests.antt =====
-- Words of three bits: 3 has `clog2` 3, where the rounded-up logarithm is 2.
use task_dispatcher.Base.{ℕ, ◌-◌, ◌*◌, ◌^◌, ◌≤◌, ◌<◌, ◌≡◌, refl, arith, if◌then◌else◌, ltb, dec_lt}
use task_dispatcher.Common.{IsClz, bsr, clog2, clog2_lem, upperpow2}

-- The leading zeros of a word of three bits.
abbrev clz3 : ℕ → ℕ
clz3 v = if ltb v 2 then 2 else (if ltb v 4 then 1 else 0)

clz3-IsClz : IsClz 3 clz3
clz3-IsClz = record {
  below = λ v pos small. ground arith;
  above_highest = λ v pos small. bounds v pos small;
}
  where
    bounds : (v : ℕ) → 0 < v → v < 2 ^ 3 → (2 ^ (3 - 1 - clz3 v) ≤ v) × (v < 2 ^ (3 - clz3 v))
    bounds v pos small = elim (dec_lt v 2) [
      | yes lt ↦ let e : clz3 v ≡ 2 = ground arith in rw e (omega arith, omega arith)
      | no ge ↦ elim (dec_lt v 4) [
        | yes lt ↦ let e : clz3 v ≡ 1 = ground arith in rw e (omega arith, omega arith)
        | no ge ↦ let e : clz3 v ≡ 0 = ground arith in rw e (omega arith, omega arith)
      ]
    ]

clog2_example : (2 * 3 ≤ 2 ^ clog2 3 clz3 3) × (2 ^ clog2 3 clz3 3 < 4 * 3)
clog2_example = clog2_lem 3 clz3 3 clz3-IsClz (omega arith) (omega arith)

-- `upperpow2` of 3 in words of 32 bits, whose least upper power of two is 4.
upperpow2_three : upperpow2 32 (λ v. 29) 3 ≡ 16
unfolding upperpow2 clog2 bsr
upperpow2_three = refl
