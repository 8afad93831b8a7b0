-- ===== src/Batches/Tests.antt =====
-- Ten elements in at most three batches.
use task_dispatcher.Base.{
  ℕ, zero, suc, ◌+◌, ◌-◌, ◌/◌, ◌<◌, ◌≤◌, ◌≡◌, refl, List, [], ◌∷◌, Result, ok, err, undefined,
  arith, length,
}
use task_dispatcher.Batches.{IsDivCeil, submit_batched, cut}
use task_dispatcher.Batches.Cover.{Covers, submit_batched-Covers}

abbrev pub div_ceil : ℕ → ℕ → Result ℕ
div_ceil a zero = err undefined
div_ceil a (suc b) = ok ((a + suc b - 1) / suc b)

pub div_ceil-IsDivCeil : IsDivCeil div_ceil
div_ceil-IsDivCeil = record { rounds_up = λ a b pos h small fits. rounded a b h }
  where
    rounded : (a b : ℕ) → 0 < b → div_ceil a b ≡ ok ((a + b - 1) / b)
    rounded a zero h = absurd (omega arith)
    rounded a (suc b) h = refl

pub submit_ten : submit_batched div_ceil 10 3 ≡ ok ((0, 4, 0) ∷ (4, 8, 1) ∷ (8, 10, 2) ∷ [])
unfolding submit_batched cut
submit_ten = refl

submit_batched-Covers_example :
    (l : List (ℕ × ℕ × ℕ)) × (submit_batched div_ceil 10 3 ≡ ok l)
    × Covers ((10 + 3 - 1) / 3) 0 0 l 10
    × (length l ≤ 3)
submit_batched-Covers_example =
    submit_batched-Covers div_ceil 10 3 div_ceil-IsDivCeil (omega arith) (omega arith) (omega arith)
      (omega arith)
