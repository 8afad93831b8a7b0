-- ===== src/MpmcQueue/Tests.antt =====
-- An MPMCQueue of eight cells at small inputs.
use task_dispatcher.Base.{
  ℕ, ◌^◌, ◌≡◌, refl, Bool, true, Option, none, some, [], Result, ok, err, map_ok, arith, ℕ_discrete,
}
use task_dispatcher.Fifo
use task_dispatcher.MpmcQueue.{
  MpmcQueue, init, enqueue, dequeue, enqueue_run, dequeue_run, enqueue_step, dequeue_step,
}
use task_dispatcher.MpmcQueue.Construct.{init-IsQuiet}
use task_dispatcher.MpmcQueue.Quiescent.{
  IsQuiet, contents, seen, pushed_list, enqueue_alone_refines, dequeue_alone_refines,
  enqueue-IsQuiet, dequeue-IsQuiet,
}

-- Empty, and new.
abbrev pub fresh8 : {A : Type 0} → A → MpmcQueue A
fresh8 x = record {
  cells = λ i. record { sequence = i; item = x };
  mask = 7;
  enqueue_pos = 0;
  dequeue_pos = 0;
}

pub fresh8-IsQuiet : {A : Type 0} (x : A) → IsQuiet 3 (fresh8 x)
fresh8-IsQuiet x = record {
  wide = (omega arith, omega arith);
  masked = refl;
  words = (omega arith, omega arith);
  fits = omega arith;
  filled = λ i h. absurd (omega arith);
  free = λ i h r. grind arith;
}

abbrev pub numbers8 : MpmcQueue ℕ
numbers8 = fresh8 0

pub numbers8-IsQuiet : IsQuiet 3 numbers8
numbers8-IsQuiet = fresh8-IsQuiet 0

-- Two calls after another, and an empty queue.
abbrev put_then_get : Result (Bool × Option ℕ × Option ℕ)
unfolding enqueue dequeue enqueue_run dequeue_run enqueue_step dequeue_step
put_then_get = elim (enqueue numbers8 5) [
  | ok (b, q) ↦ elim (dequeue q) [
    | ok (x, r) ↦ elim (dequeue r) [ ok (y, s) ↦ ok (b, x, y) | err e ↦ err e ]
    | err e ↦ err e
  ]
  | err e ↦ err e
]

put_then_get_lem : put_then_get ≡ ok (true, some 5, none)
unfolding put_then_get enqueue dequeue enqueue_run dequeue_run enqueue_step dequeue_step ℕ_discrete
put_then_get_lem = refl

enqueue_alone_refines_example :
    map_ok seen (enqueue numbers8 5) ≡ ok (pushed_list (2 ^ 3) (contents numbers8) 5)
enqueue_alone_refines_example = enqueue_alone_refines 3 numbers8 numbers8-IsQuiet 5

dequeue_alone_refines_example : map_ok seen (dequeue numbers8) ≡ ok (Fifo.pop (contents numbers8))
dequeue_alone_refines_example = dequeue_alone_refines 3 numbers8 numbers8-IsQuiet

enqueue-IsQuiet_example :
    (b : Bool) × (q' : MpmcQueue ℕ) × (enqueue numbers8 5 ≡ ok (b, q')) × IsQuiet 3 q'
enqueue-IsQuiet_example = enqueue-IsQuiet 3 numbers8 numbers8-IsQuiet 5

dequeue-IsQuiet_example :
    (r : Option ℕ) × (q' : MpmcQueue ℕ) × (dequeue numbers8 ≡ ok (r, q')) × IsQuiet 3 q'
dequeue-IsQuiet_example = dequeue-IsQuiet 3 numbers8 numbers8-IsQuiet

init-IsQuiet_example :
    (q : MpmcQueue ℕ) × (init {A = ℕ} 0 (2 ^ 3) ≡ ok q) × IsQuiet 3 q × (contents q ≡ [])
init-IsQuiet_example = init-IsQuiet 0 3 (omega arith) (omega arith)
