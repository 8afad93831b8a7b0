-- ===== src/FifoQueue.antt =====
-- src/task-dispatcher/container/mpsc_queue.hh: the ring of resumable fibers that each worker
-- thread keeps under a spin lock. `n` is the template argument N, the `int` members are bit
-- patterns, and `cc::array` is a function of the index.
pub mod Refine
mod Tests
use task_dispatcher.Base.{
  ℕ, ◌+◌, ◌-◌, ◌%◌, Bool, not, Option, none, some, List, [], ◌∷◌, Result, ok, assert, ◌>>=◌, ◌>>◌,
  if◌then◌else◌, leb, ◌==◌, update,
}
use task_dispatcher.Base.Words.{u32_mod, word_mod, add32, minus_one, sign_extend}
use task_dispatcher.Fifo.{Op, put, get}

pub record FifoQueue (A : Type 0) : Type 0 where
  pub head : ℕ
  pub tail : ℕ
  pub slots : ℕ → A

-- `++i; if (i >= N) i -= N;`, where the comparison and the subtraction are those of `size_t`.
unfoldable pub advance : ℕ → ℕ → ℕ
advance n i =
    let j = add32 i 1 in
    if leb n (sign_extend j) then (sign_extend j + word_mod - n) % word_mod % u32_mod else j

module _ {A : Type 0} where
  -- The members' initialisers; `zero_value` is what `mData = {}` puts in every entry.
  unfoldable pub init : A → FifoQueue A
  init zero_value = record { head = minus_one; tail = minus_one; slots = λ _. zero_value }

  abbrev pub empty : FifoQueue A → Bool
  empty q = q.tail == minus_one

  -- The comparison of the stepped head with the tail.
  unfoldable pub full : ℕ → FifoQueue A → Bool
  full n q = advance n q.head == q.tail

  -- The option is the returned flag with what goes through `out_ref`.
  unfoldable pub dequeue : ℕ → FifoQueue A → Option A × FifoQueue A
  dequeue n q = if empty q then (none, q) else (
    some (q.slots (sign_extend q.tail)),
    if q.tail == q.head
        then record q { head = minus_one; tail = minus_one }
        else record q { tail = advance n q.tail },
  )

  unfoldable pub enqueue : ℕ → FifoQueue A → A → Result (FifoQueue A)
  unfolding full
  enqueue n q val = do
    assert (not (full n q))
    let tail' = if empty q then 0 else q.tail
    let head' = advance n q.head
    ok (record { head = head'; tail = tail'; slots = update q.slots (sign_extend head') val })

  -- A client's calls in order, with what each `dequeue` returns; a failed assertion ends the run.
  unfoldable pub run : ℕ → FifoQueue A → List (Op A) → Result (List (Option A))
  unfolding enqueue dequeue
  run n q [] = ok []
  run n q (put x ∷ ops) = do q' ← enqueue n q x; run n q' ops
  run n q (get ∷ ops) = let (out, q') = dequeue n q in do outs ← run n q' ops; ok (out ∷ outs)
