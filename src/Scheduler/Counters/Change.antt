-- ===== src/Scheduler/Counters/Change.antt =====
-- `counterIncrement`: a change of the count, and the fibers that it wakes.
use task_dispatcher.Base.{ℕ, ◌≡◌, ◌≢◌, refl, sym, subst, [], ok, err, assertion, arith, update_self}
use task_dispatcher.Base.Words.{add32}
use task_dispatcher.Scheduler.State.{max_waiting, AtomicCounter, World}
use task_dispatcher.Scheduler.Counters.{counter_check_waiting_fibers, counter_increment}
use task_dispatcher.Scheduler.Counters.Waiting.{with_counter}
use task_dispatcher.Scheduler.Counters.Waking.Loop.{counter_check_waiting_fibers_lem}
use task_dispatcher.Scheduler.Counters.Waking.{woken, checked, Ready, Woke}

-- The counter with the new count.
abbrev pub recounted : ℕ → AtomicCounter → AtomicCounter
recounted n k = record k { count = n }

increment-steps :
    {W P : Type 0} (c amount : ℕ) (w w' : World W P)
    → amount ≢ 0
    → let n = add32 (w.counters c).count amount in
      counter_check_waiting_fibers c n (with_counter w c (recounted n (w.counters c))) ≡ ok (tt, w')
      → counter_increment c amount w ≡ ok (n, w')
unfolding counter_increment
increment-steps c amount w w' nz e = ground (arith, nz, e)

-- A change by 0 fails its assertion. Any other change, of either sign, returns the new count, modulo
-- 2 ^ 32, after it has woken the fibers whose target that count is; the queues of resumable fibers
-- must have room for them.
pub counter_increment_lem :
    {W P : Type 0} (b c amount : ℕ) (w : World W P)
    → let n = add32 (w.counters c).count amount in
      let k = recounted n (w.counters c) in
      let w1 = with_counter w c k in
      Ready b (woken max_waiting n 0 k) w1
      → (counter_increment c 0 w ≡ err assertion)
        × (amount ≢ 0
            → (w' : World W P) × (counter_increment c amount w ≡ ok (n, w'))
              × Woke c (checked max_waiting n 0 k) (woken max_waiting n 0 k) w1 w'
              × Ready b [] w')
unfolding counter_increment
counter_increment_lem b c amount w r =
    let n = add32 (w.counters c).count amount in
    let k = recounted n (w.counters c) in
    let w1 = with_counter w c k in
    let at : w1.counters c ≡ k = update_self w.counters c k in
    (
      refl,
      λ nz.
          let (w', e, p, q) =
            counter_check_waiting_fibers_lem b c n w1
              (subst (λ z. Ready b (woken max_waiting n 0 z) w1) (sym at) r) in
          (
            w',
            increment-steps c amount w w' nz e,
            subst (λ z. Woke c (checked max_waiting n 0 z) (woken max_waiting n 0 z) w1 w') at p,
            q,
          ),
    )
