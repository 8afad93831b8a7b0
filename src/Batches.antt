-- ===== src/Batches.antt =====
-- The batch variants of src/task-dispatcher/td.hh: how `submit_batched` and `submit_batched_n` cut a
-- range, and the indices of `submit_n`. `unsigned` is a number below 2 ^ 32. `int_div_ceil` is
-- clean-core's `cc::int_div_ceil`, a parameter.
pub mod Cover
pub mod Tests
use task_dispatcher.Base.{
  ℕ, zero, suc, ◌+◌, ◌-◌, ◌*◌, ◌/◌, ◌%◌, ◌<◌, ◌≡◌, min, List, [], ◌∷◌, Result, ok, err, undefined,
  assert, ◌>>=◌, ◌>>◌, leb,
}
use task_dispatcher.Base.Words.{u32_mod, add32}

-- What the code relies on: for positive arguments of the `unsigned` type, a division that rounds up.
pub record IsDivCeil (int_div_ceil : ℕ → ℕ → Result ℕ) : Type 0 where
  pub rounds_up :
      (a b : ℕ)
      → 0 < a
      → 0 < b
      → a < u32_mod
      → b < u32_mod
      → int_div_ceil a b ≡ ok ((a + b - 1) / b)

abbrev pub mul32 : ℕ → ℕ → ℕ
mul32 a b = a * b % u32_mod

-- The loop over the batches, with `rounds` of them left: each task gets the range from `start` to
-- `end`, and its index.
unfoldable pub cut : ℕ → ℕ → ℕ → ℕ → ℕ → ℕ → List (ℕ × ℕ × ℕ)
cut zero n batch_size batch start end = []
cut (suc rounds) n batch_size batch start end =
    (start, end, batch)
    ∷ cut rounds n batch_size (add32 batch 1) (mul32 (add32 batch 1) batch_size)
        (min (mul32 (add32 (add32 batch 1) 1) batch_size) n)

-- The ranges of the tasks that `submit_batched` and `submit_batched_n` submit, in order.
unfoldable pub submit_batched : (ℕ → ℕ → Result ℕ) → ℕ → ℕ → Result (List (ℕ × ℕ × ℕ))
submit_batched int_div_ceil n num_batches_max = do
  batch_size ← int_div_ceil n num_batches_max
  num_batches ← int_div_ceil n batch_size
  assert (leb num_batches num_batches_max)
  ok (cut num_batches n batch_size 0 0 (min batch_size n))

-- The arguments of the tasks of `submit_n`, `n` of them from `i` on.
unfoldable pub submit_n_from : ℕ → ℕ → List ℕ
submit_n_from zero i = []
submit_n_from (suc n) i = i ∷ submit_n_from n (add32 i 1)

unfoldable pub submit_n : ℕ → List ℕ
submit_n n = submit_n_from n 0
