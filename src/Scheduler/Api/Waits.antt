-- ===== src/Scheduler/Api/Waits.antt =====
-- `wait` and `submitTasks` as a task sees them.
use task_dispatcher.Base.{
  ℕ, ◌+◌, ◌^◌, ◌≤◌, ◌≡◌, refl, sym, ap, ◌∙◌, Bool, true, false, not, ◌&&◌, some, List, [], ◌∷◌,
  ◌++◌, append-nil, append_assoc, ltb, ◌||◌, if◌then◌else◌, ok, err, assertion, arith, update,
  length, length-append,
}
use task_dispatcher.Base.Words.{is_negative32}
use task_dispatcher.MpmcQueue
use task_dispatcher.MpmcQueue.{MpmcQueue}
use task_dispatcher.MpmcQueue.Quiescent
use task_dispatcher.MpmcQueue.Quiescent.{IsQuiet}
use task_dispatcher.Scheduler.State.{max_waiting, invalid_thread, Task, World, M}
use task_dispatcher.Scheduler.Counters.{counter_add_waiting_fiber}
use task_dispatcher.Scheduler.Counters.Waiting.{
  first_free, registered, with_counter, counter_add_waiting_fiber_lem,
}
use task_dispatcher.Scheduler.HandlePool.{HandlePool}
use task_dispatcher.Scheduler.Api.{enqueue_tasks, wait}

abbrev pub task_list : {W P : Type 0} → World W P → List (Task W)
task_list w = Quiescent.contents w.tasks

abbrev pub with_tasks : {W P : Type 0} → World W P → MpmcQueue (Task W) → World W P
with_tasks w q = record { shared = record (w.shared) { tasks = q }; tls = w.tls }

abbrev pub tagged : {W : Type 0} → ℕ → List W → List (Task W)
tagged c [] = []
tagged c (x ∷ l) = record { metadata = c; work = x } ∷ tagged c l

module _ {W P : Type 0} (c k : ℕ) where
  enqueue_tasks-cons :
      (x : W) (l : List W) (b : Bool) (w : World W P) (q : MpmcQueue (Task W))
      → MpmcQueue.enqueue w.tasks (record { metadata = c; work = x }) ≡ ok (b, q)
      → (s : Bool) → enqueue_tasks c (x ∷ l) s w ≡ enqueue_tasks c l (s && b) (with_tasks w q)
  unfolding enqueue_tasks
  enqueue_tasks-cons x l b w q e s = ground (arith, e)

  -- Where there is room for all of them, the tasks join the queue in order, each with the index of
  -- the counter as its metadata; nothing else changes.
  pub enqueue_tasks_lem :
      (l : List W) (w : World W P)
      → IsQuiet k w.tasks
      → length (task_list w) + length l ≤ 2 ^ k
      → (q : MpmcQueue (Task W)) × (enqueue_tasks c l true w ≡ ok (true, with_tasks w q))
        × IsQuiet k q
        × (Quiescent.contents q ≡ task_list w ++ tagged c l)
  unfolding enqueue_tasks
  enqueue_tasks_lem [] w v room = (w.tasks, refl, v, sym (append-nil (task_list w)))
  enqueue_tasks_lem (x ∷ l) w v room =
      let t : Task W = record { metadata = c; work = x } in
      let (q1, e1, v1, c1) = Quiescent.enqueue-room_lem k w.tasks v t (omega arith) in
      let longer : length (Quiescent.contents q1) ≡ length (task_list w) + 1 =
        ap length c1 ∙ length-append (task_list w) (t ∷ []) in
      let (q2, e2, v2, c2) = enqueue_tasks_lem l (with_tasks w q1) v1 (omega arith) in
      (
        q2,
        enqueue_tasks-cons x l true w q1 e1 true ∙ e2,
        v2,
        c2 ∙ ap (λ z. z ++ tagged c l) c1 ∙ append_assoc (task_list w) (t ∷ []) (tagged c l),
      )

  -- A full queue takes none of them, and the call reports it.
  pub enqueue_tasks-full :
      (l : List W) (s : Bool) (w : World W P)
      → IsQuiet k w.tasks
      → length (task_list w) ≡ 2 ^ k
      → enqueue_tasks c l s w ≡ ok (s && not (ltb 0 (length l)), w)
  unfolding enqueue_tasks
  enqueue_tasks-full [] s w v full = ground arith
  enqueue_tasks-full (x ∷ l) s w v full =
      let e = Quiescent.enqueue-full_lem k w.tasks v (record { metadata = c; work = x }) full in
      enqueue_tasks-cons x l false w w.tasks e s
      ∙ enqueue_tasks-full l (s && false) w v full
      ∙ ground arith

module _ {W : Type 0} (H : HandlePool) (spins : ℕ)
    (switch_to : ℕ → ℕ → M W (HandlePool.Pool H) (Unit {0})) where
  open H use {Pool, get, is_alive}

  -- The world after a wait that is over at once, in slot `j`.
  abbrev pub waited : ℕ → Bool → ℕ → ℕ → World W Pool → World W Pool
  waited h pinned target j w =
      let c = get w.counter_handles h in
      record {
        shared = record (w.shared) {
          fibers = update w.fibers w.current_fiber_index (record { is_waiting_cleaned_up = false });
          counters = update w.counters c (
              registered w.current_fiber_index (if pinned then w.thread_index else invalid_thread)
                target j (w.counters c));
        };
        tls = record (w.tls) { is_thread_waiting = false };
      }

  abbrev entered : World W Pool → World W Pool
  entered w = record {
    shared = record (w.shared) {
      fibers = update w.fibers w.current_fiber_index (record { is_waiting_cleaned_up = false });
    };
    tls = record (w.tls) { is_thread_waiting = true };
  }

  add-on_target :
      (c fiber thread j : ℕ) (w : World W Pool)
      → first_free (w.counters c).free_waiting_slots max_waiting 0 ≡ some j
      → let n = (w.counters c).count in
        counter_add_waiting_fiber c fiber thread n w
        ≡ ok ((true, n), with_counter w c (registered fiber thread n j (w.counters c)))
  add-on_target c fiber thread j w e =
      let n = (w.counters c).count in
      ground (arith, counter_add_waiting_fiber_lem c fiber thread n w, e)

  -- A wait for the value that the counter has returns it at once, without a switch to another fiber:
  -- the slot that it takes is free again and locked, and only that slot and the fiber's flag change.
  pub wait-on_target :
      (h : ℕ) (pinned : Bool) (j : ℕ) (w : World W Pool)
      → is_alive w.counter_handles h ≡ true
      → let k = w.counters (get w.counter_handles h) in
        is_negative32 k.count ≡ false
        → first_free k.free_waiting_slots max_waiting 0 ≡ some j
        → wait H spins switch_to h pinned k.count w ≡ ok (k.count, waited h pinned k.count j w)
  unfolding wait
  wait-on_target h pinned j w alive pos free =
      let c = get w.counter_handles h in
      let thread = if pinned then w.thread_index else invalid_thread in
      ground (arith, alive, pos, add-on_target c w.current_fiber_index thread j (entered w) free)

  -- A negative target and an expired handle fail an assertion.
  pub wait-asserts :
      (h : ℕ) (pinned : Bool) (target : ℕ) (w : World W Pool)
      → (is_negative32 target || not (is_alive w.counter_handles h)) ≡ true
      → wait H spins switch_to h pinned target w ≡ err assertion
  unfolding wait
  wait-asserts h pinned target w bad = ground (arith, bad)
