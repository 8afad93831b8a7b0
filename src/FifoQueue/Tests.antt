-- ===== src/FifoQueue/Tests.antt =====
-- The pinned-fibers queue at small inputs, N = 3.
use task_dispatcher.Base.{
  ℕ, ◌≡◌, refl, ℕ_discrete, none, some, List, [], ◌∷◌, ok, arith, demand, map_ok, inr, ◌↔◌, true,
  length,
}
use task_dispatcher.Fifo
use task_dispatcher.Fifo.{Op, put, get}
use task_dispatcher.FifoQueue.{FifoQueue, advance, full, dequeue, enqueue, run}
use task_dispatcher.FifoQueue.Refine.{
  IsValid, contents, full_iff, dequeue_refines, enqueue_refines, run_refines,
}

-- 8 and 9, round the end of the array.
abbrev wrapped : FifoQueue ℕ
wrapped = record { head = 0; tail = 2; slots = λ i. if_zero i }
  where
    if_zero : ℕ → ℕ
    if_zero i = elim i [ ℕ.zero ↦ 9 | ℕ.suc j ↦ 8 ]

abbrev script : List (Op ℕ)
script = put 1 ∷ get ∷ get ∷ get ∷ get ∷ []

wrapped-IsValid : IsValid 3 wrapped
wrapped-IsValid = record { positive = omega arith; small = omega arith; ends = inr (omega arith) }

run-wrapped : run 3 wrapped script ≡ ok (some 8 ∷ some 9 ∷ some 1 ∷ none ∷ [])
unfolding run full advance ℕ_discrete
run-wrapped = refl

full_iff_example : (full 3 wrapped ≡ true) ↔ (length (contents 3 wrapped) ≡ 3)
full_iff_example = full_iff wrapped-IsValid

dequeue_refines_example :
    (let (out, q') = dequeue 3 wrapped in (out, contents 3 q')) ≡ Fifo.pop (contents 3 wrapped)
dequeue_refines_example = dequeue_refines wrapped-IsValid

enqueue_refines_example :
    map_ok (contents 3) (enqueue 3 wrapped 1) ≡ demand (Fifo.push 3 (contents 3 wrapped) 1)
enqueue_refines_example = enqueue_refines wrapped-IsValid 1

run_refines_example : run 3 wrapped script ≡ Fifo.run 3 (contents 3 wrapped) script
run_refines_example = run_refines 3 script wrapped wrapped-IsValid
