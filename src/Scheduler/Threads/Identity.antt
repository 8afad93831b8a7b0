-- ===== src/Scheduler/Threads/Identity.antt =====
-- The identifiers of the thread and of the fiber that code runs on, of src/task-dispatcher/scheduler.cc and
-- src/task-dispatcher/td-lean.hh.
use task_dispatcher.Base.{
  ℕ, ◌^◌, ◌≤◌, ◌≡◌, ◌≢◌, refl, sym, ap, ◌∙◌, Bool, true, false, Option, none, some, Result, ok, err,
  arith, ℕ_discrete, if_pos, if_neg, if◌then◌else◌,
}
use task_dispatcher.MpmcQueue
use task_dispatcher.MpmcQueue.{MpmcQueue}
use task_dispatcher.Scheduler.State.{FiberDestination, none_dest, waiting, pool, World}
use task_dispatcher.Scheduler.HandlePool.{HandlePool}
use task_dispatcher.Scheduler.Start.{Sizes}
use task_dispatcher.Scheduler.Fibers.{acquire_free_fiber, clean_up_prev_fiber}
use task_dispatcher.Scheduler.Fibers.Switching.{switched, with_flag}
use task_dispatcher.Scheduler.Fibers.Places.{runs_on, one_place}
use task_dispatcher.Scheduler.Api.{current_thread_id, current_fiber_id}
use task_dispatcher.Scheduler.Threads.{
  Phase, on_fiber, arriving, halted, System, has_fiber, at, leave, view, entered, Step, enter,
  clear_flag, yield_waiting, resume, arrive, halt, other, Reach, set_up, later,
}
use task_dispatcher.Scheduler.Threads.Owned.Reached.{Reach-Owned}

-- A thread that has a fiber knows its index.
abbrev Named : {W P : Type 0} → System W P → Type 0
Named s = (i : ℕ) → has_fiber (s.phase i) ≡ true → (s.tls i).thread_index ≡ i

module _ {W P : Type 0} where
  leave-Named :
      (i : ℕ) (p : Phase) (w : World W P) (s : System W P)
      → Named s
      → w.thread_index ≡ i
      → Named (leave i p w s)
  leave-Named i p w s old new j = elim (ℕ_discrete i j) [
    | yes e ↦
        rw (if_pos (ℕ_discrete i j) e p (s.phase j), if_pos (ℕ_discrete i j) e w.tls (s.tls j))
          (λ h. new ∙ e)
    | no ne ↦
        rw (if_neg (ℕ_discrete i j) ne p (s.phase j), if_neg (ℕ_discrete i j) ne w.tls (s.tls j))
          (old j)
  ]

  -- Neither an acquisition nor a clean-up changes the index.
  acquire-tls : (f : ℕ) (w x : World W P) → acquire_free_fiber 1 w ≡ ok (f, x) → x.tls ≡ w.tls
  unfolding acquire_free_fiber
  acquire-tls f w x h = go (MpmcQueue.dequeue w.idle_fibers) refl
    where
      go :
          (r : Result (Option ℕ × MpmcQueue ℕ))
          → MpmcQueue.dequeue w.idle_fibers ≡ r
          → x.tls ≡ w.tls
      go (ok (some g, q)) e = ground (arith, e, h)
      go (ok (none, q)) e = ground (arith, e, h)
      go (err z) e = ground (arith, e, h)

  clean_up-thread_index :
      (w y : World W P) → clean_up_prev_fiber w ≡ ok (tt, y) → y.thread_index ≡ w.thread_index
  unfolding clean_up_prev_fiber
  clean_up-thread_index w y h = go w.previous_fiber_dest refl
    where
      pooled :
          (r : Result (Bool × MpmcQueue ℕ))
          → w.previous_fiber_dest ≡ pool
          → MpmcQueue.enqueue w.idle_fibers w.previous_fiber_index ≡ r
          → y.thread_index ≡ w.thread_index
      pooled (ok (b, q)) d e = ground (arith, d, e, h)
      pooled (err z) d e = ground (arith, d, e, h)

      go : (d : FiberDestination) → w.previous_fiber_dest ≡ d → y.thread_index ≡ w.thread_index
      go none_dest d = ground (arith, d, h)
      go waiting d = ground (arith, d, h)
      go pool d = pooled (MpmcQueue.enqueue w.idle_fibers w.previous_fiber_index) d refl

  Step-Named : (s t : System W P) → Named s → Step s t → Named t
  Step-Named s t v (enter i f x out h) = leave-Named i on_fiber (entered i f x) s v refl
  Step-Named s t v (clear_flag i runs) =
      leave-Named i on_fiber (with_flag (at i s) (s.tls i).current_fiber_index false) s v
        (v i (rw runs refl))
  Step-Named s t v (yield_waiting i f x runs h) =
      leave-Named i arriving (switched f waiting x) s v
        (ap (λ z. z.thread_index) (acquire-tls f (at i s) x h) ∙ v i (rw runs refl))
  Step-Named s t v (resume i f runs h) =
      leave-Named i arriving (switched f pool (with_flag (at i s) f false)) s v (v i (rw runs refl))
  Step-Named s t v (arrive i y coming h) =
      leave-Named i on_fiber y s v (clean_up-thread_index (at i s) y h ∙ v i (rw coming refl))
  Step-Named s t v (halt i runs down) = leave-Named i halted (at i s) s v (v i (rw runs refl))
  Step-Named s t v (other sh queue fibers) = v

module _ {W : Type 0} (H : HandlePool) where
  open H use {Pool}

  Reach-Named : (k : ℕ) (sizes : Sizes) (s : System W Pool) → Reach H k sizes s → Named s
  Reach-Named k sizes s (set_up w x made e) = λ i h. absurd cc
  Reach-Named k sizes s (later {s = before} r st) =
      Step-Named before s (Reach-Named k sizes before r) st

  -- Code on two threads that have taken up fibers, under the conditions of the theorem on the places of
  -- fibers, sees the index of its own thread, and two fibers that differ.
  pub ids_differ :
      (k : ℕ) (sizes : Sizes) (s : System W Pool) (i j : ℕ)
      → 1 ≤ k
      → k ≤ 62
      → sizes.num_fibers ≤ 2 ^ k
      → Reach H k sizes s
      → has_fiber (s.phase i) ≡ true
      → has_fiber (s.phase j) ≡ true
      → i ≢ j
      → (current_thread_id (at i s) ≡ i)
        × (current_thread_id (at j s) ≡ j)
        × (current_fiber_id (at i s) ≢ current_fiber_id (at j s))
  unfolding current_thread_id current_fiber_id
  ids_differ k sizes s i j lo hi fits r hi_i hi_j ne =
      let named = Reach-Named k sizes s r in
      let (place, o) = Reach-Owned H k sizes s lo hi fits r in
      let fiber = (s.tls i).current_fiber_index in
      let current : (l : ℕ)
          → has_fiber (s.phase l) ≡ true
          → (view s).running l ≡ some (s.tls l).current_fiber_index =
        λ l h. ap (λ b. if b then some (s.tls l).current_fiber_index else none) h in
      (
        named i hi_i,
        named j hi_j,
        λ same.
            let both =
              one_place place (view s) o.exact fiber (runs_on i) (runs_on j) (current i hi_i)
                (current j hi_j ∙ ap some (sym same)) in
            ne cc,
      )
