-- ===== src/Scheduler/Api/Parks.antt =====
-- `Scheduler::wait` of src/task-dispatcher/scheduler.cc for a value that the counter does not have.
use task_dispatcher.Base.{
  ℕ, suc, ◌≡◌, ◌≢◌, sym, subst, Bool, true, false, some, List, ◌∷◌, ok, arith, if◌then◌else◌, ◌==◌,
  update,
}
use task_dispatcher.Base.Words.{is_negative32}
use task_dispatcher.MpmcQueue
use task_dispatcher.MpmcQueue.{MpmcQueue}
use task_dispatcher.MpmcQueue.Quiescent
use task_dispatcher.MpmcQueue.Quiescent.{IsQuiet}
use task_dispatcher.Scheduler.State.{invalid_fiber, invalid_thread, max_waiting, waiting, World, M}
use task_dispatcher.Scheduler.HandlePool.{HandlePool}
use task_dispatcher.Scheduler.Counters.{counter_add_waiting_fiber}
use task_dispatcher.Scheduler.Counters.Waiting.{
  first_free, registered, with_counter, counter_add_waiting_fiber_lem,
}
use task_dispatcher.Scheduler.Fibers.{acquire_free_fiber, clean_up_prev_fiber, yield_to_fiber}
use task_dispatcher.Scheduler.Fibers.Switching.{idle, with_idle, switched}
use task_dispatcher.Scheduler.Api.{wait}

module _ {W : Type 0} (H : HandlePool) (spins : ℕ)
    (switch_to : ℕ → ℕ → M W (HandlePool.Pool H) (Unit {0})) where
  open H use {Pool, get, is_alive}

  -- The fiber is registered in slot `j`, its flag is down, and the thread is marked.
  abbrev pub registered_in : ℕ → Bool → ℕ → ℕ → World W Pool → World W Pool
  registered_in h pinned target j w =
      let c = get w.counter_handles h in
      record {
        shared = record (w.shared) {
          fibers = update w.fibers w.current_fiber_index (record { is_waiting_cleaned_up = false });
          counters = update w.counters c (
              registered w.current_fiber_index (if pinned then w.thread_index else invalid_thread)
                target j (w.counters c));
        };
        tls = record (w.tls) { is_thread_waiting = true };
      }

  abbrev pub resumed : World W Pool → World W Pool
  resumed y = record { shared = y.shared; tls = record (y.tls) { is_thread_waiting = false } }

  switches :
      (f : ℕ) (w x y : World W Pool)
      → w.current_fiber_index ≢ invalid_fiber
      → f ≢ invalid_fiber
      → switch_to f w.current_fiber_index (switched f waiting w) ≡ ok (tt, x)
      → clean_up_prev_fiber x ≡ ok (tt, y)
      → yield_to_fiber switch_to f waiting w ≡ ok (tt, y)
  unfolding yield_to_fiber
  switches f w x y current valid there back = ground (arith, current, valid, there, back)

  abbrev entered : World W Pool → World W Pool
  entered w = record {
    shared = record (w.shared) {
      fibers = update w.fibers w.current_fiber_index (record { is_waiting_cleaned_up = false });
    };
    tls = record (w.tls) { is_thread_waiting = true };
  }

  adds :
      (c fiber thread target j : ℕ) (w : World W Pool)
      → (target == (w.counters c).count) ≡ false
      → first_free (w.counters c).free_waiting_slots max_waiting 0 ≡ some j
      → counter_add_waiting_fiber c fiber thread target w
        ≡ ok (
          (false, (w.counters c).count),
          with_counter w c (registered fiber thread target j (w.counters c)),
        )
  adds c fiber thread target j w off free =
      ground (arith, counter_add_waiting_fiber_lem c fiber thread target w, free, off)

  takes :
      (f n : ℕ) (q : MpmcQueue ℕ) (w : World W Pool)
      → MpmcQueue.dequeue w.idle_fibers ≡ ok (some f, q)
      → acquire_free_fiber (suc n) w ≡ ok (f, with_idle w q)
  unfolding acquire_free_fiber
  takes f n q w e = ground (arith, e)

  -- A wait for a value that the counter does not have takes the first free slot, which stays open to a
  -- waker, and the oldest idle fiber, and switches to that fiber with the waiting one to be marked as
  -- cleaned up there. Where that switch returns, that is once the fiber is switched to again, and the
  -- fiber has cleaned up what left to it, the wait returns the value that the counter had at first,
  -- and the thread is no longer marked as waiting.
  pub wait-off_target :
      (h b j f : ℕ) (pinned : Bool) (target : ℕ) (l : List ℕ) (q : MpmcQueue ℕ)
      (w x y : World W Pool) (n : ℕ)
      → spins ≡ suc n
      → is_alive w.counter_handles h ≡ true
      → is_negative32 target ≡ false
      → (target == (w.counters (get w.counter_handles h)).count) ≡ false
      → first_free (w.counters (get w.counter_handles h)).free_waiting_slots max_waiting 0 ≡ some j
      → IsQuiet b w.idle_fibers
      → idle w ≡ f ∷ l
      → MpmcQueue.dequeue w.idle_fibers ≡ ok (some f, q)
      → w.current_fiber_index ≢ invalid_fiber
      → f ≢ invalid_fiber
      → switch_to f w.current_fiber_index
          (switched f waiting (with_idle (registered_in h pinned target j w) q))
        ≡ ok (tt, x)
      → clean_up_prev_fiber x ≡ ok (tt, y)
      → IsQuiet b q
        × (Quiescent.contents q ≡ l)
        × (wait H spins switch_to h pinned target w
            ≡ ok ((w.counters (get w.counter_handles h)).count, resumed y))
  unfolding wait
  wait-off_target h b j f pinned target l q w x y n e alive pos off free quiet oldest taken current
        valid there back =
      let c = get w.counter_handles h in
      let v : World W Pool = registered_in h pinned target j w in
      let (p, d, quiet', rest) = Quiescent.dequeue-cons_lem b w.idle_fibers quiet f l oldest in
      let same : p ≡ q = cc (d, taken) in
      (
        subst (IsQuiet b) same quiet',
        subst (λ z. Quiescent.contents z ≡ l) same rest,
        ground (
          arith,
          e,
          alive,
          pos,
          adds c w.current_fiber_index (if pinned then w.thread_index else invalid_thread) target j
              (entered w) off free,
          subst (λ m. acquire_free_fiber m v ≡ ok (f, with_idle v q)) (sym e) (takes f n q v taken),
          switches f (with_idle v q) x y current valid there back,
        ),
      )
