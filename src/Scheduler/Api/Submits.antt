-- ===== src/Scheduler/Api/Submits.antt =====
-- `submitTasks` as a whole: the counter goes up by the number of tasks before they join the queue.
use task_dispatcher.Base.{
  ℕ, ◌+◌, ◌%◌, ◌^◌, ◌<◌, ◌≤◌, ◌≡◌, ◌≢◌, refl, sym, ap, ◌∙◌, true, [], ◌∷◌, ◌++◌, ok, err, assertion,
  arith, length, subst, zero, suc, update_self, if◌then◌else◌, Bool-cases, inl, inr, List,
}
use task_dispatcher.Base.Words.{u32_mod, add32}
use task_dispatcher.MpmcQueue.Quiescent
use task_dispatcher.MpmcQueue.Quiescent.{IsQuiet}
use task_dispatcher.Scheduler.State.{max_waiting, AtomicCounter, World}
use task_dispatcher.Scheduler.Counters.{counter_increment}
use task_dispatcher.Scheduler.Counters.Change.{recounted, counter_increment_lem}
use task_dispatcher.Scheduler.Counters.Waiting.{with_counter}
use task_dispatcher.Scheduler.Counters.Waking.{
  wakes, mark, woken, checked, Ready, unpinned, pinned_to, pinned, resumables,
}
use task_dispatcher.Scheduler.HandlePool.{HandlePool}
use task_dispatcher.Scheduler.Api.{enqueue_tasks, submit_tasks}
use task_dispatcher.Scheduler.Api.Waits.{task_list, tagged, with_tasks, enqueue_tasks_lem}

checked-count : (m v i : ℕ) (a : AtomicCounter) → (checked m v i a).count ≡ a.count
checked-count zero v i a = refl
checked-count (suc m) v i a =
    checked-count m v (i + 1) (if wakes a v i then mark i a else a)
    ∙ elim (Bool-cases (wakes a v i)) [ inl on ↦ rw on | inr off ↦ rw off ]

length-ne : {A : Type 0} (l : List A) → l ≢ [] → length l ≢ 0
length-ne [] h e = h refl
length-ne (x ∷ l) h e = omega arith

module _ {W : Type 0} (H : HandlePool) (b k h : ℕ) (l : List W)
    (w : World W (HandlePool.Pool H)) where
  open H use {Pool, get}

  abbrev c : ℕ
  c = get w.counter_handles h

  abbrev n : ℕ
  n = add32 (w.counters c).count (length l)

  -- The world with the new count.
  abbrev counted : World W Pool
  counted = with_counter w c (recounted n (w.counters c))

  abbrev signalled : World W Pool → World W Pool
  signalled x = record { shared = record (x.shared) { signals = x.signals + 1 }; tls = x.tls }

  submit-steps :
      (x : World W Pool) {y : World W Pool}
      → length l < u32_mod
      → counter_increment c (length l) w ≡ ok (n, x)
      → enqueue_tasks c l true x ≡ ok (true, y)
      → submit_tasks H l h w ≡ ok (tt, signalled y)
  unfolding submit_tasks
  submit-steps x small e f =
      let same : length l % u32_mod ≡ length l = omega arith in ground (arith, same, e, f)

  -- Without tasks the call fails an assertion.
  pub submit_tasks-empty : l ≡ [] → submit_tasks H l h w ≡ err assertion
  unfolding submit_tasks counter_increment
  submit_tasks-empty e = rw e refl

  -- A submission of tasks to a live handle, with room in the queues: the counter of the handle goes up
  -- by the number of tasks, and each task joins the queue in order with that counter's index. The
  -- fibers that waited for the new count join, in the order of their slots, the queue of resumable fibers
  -- or, if they are pinned, that of their thread, and one more signal than there are such fibers
  -- is sent. The handles, the fibers' flags and the calling thread's local state stay as they are.
  pub submit_tasks_lem :
      l ≢ []
      → length l < u32_mod
      → Ready b (woken max_waiting n 0 (recounted n (w.counters c))) counted
      → IsQuiet k w.tasks
      → length (task_list w) + length l ≤ 2 ^ k
      → let awake = woken max_waiting n 0 (recounted n (w.counters c)) in
        (y : World W Pool) × (submit_tasks H l h w ≡ ok (tt, y))
        × ((y.counters c).count ≡ n)
        × (task_list y ≡ task_list w ++ tagged c l)
        × (resumables y ≡ resumables w ++ unpinned awake)
        × (y.signals ≡ w.signals + length awake + 1)
        × (y.counter_handles ≡ w.counter_handles)
        × (y.fibers ≡ w.fibers)
        × (y.tls ≡ w.tls)
        × ((t : ℕ) → pinned y t ≡ pinned w t ++ pinned_to t awake)
  submit_tasks_lem some_task small ready quiet room =
      let awake = woken max_waiting n 0 (recounted n (w.counters c)) in
      let (x, e, p, r) = (counter_increment_lem b c (length l) w ready).1 (length-ne l some_task) in
      let same : x.tasks ≡ w.tasks = p.same_queues.0 in
      let quiet' : IsQuiet k x.tasks = subst (IsQuiet k) (sym same) quiet in
      let listed : task_list x ≡ task_list w = ap Quiescent.contents same in
      let (q, f, v, g) = enqueue_tasks_lem c k l x quiet' (omega (arith, ap length listed)) in
      (
        signalled (with_tasks x q),
        submit-steps x small e f,
        ap (λ f. (f c).count) p.counters
            ∙ ap (λ a. a.count) (update_self counted.counters c _)
            ∙ checked-count max_waiting n 0 (recounted n (w.counters c)),
        g ∙ ap (λ t. t ++ tagged c l) listed,
        p.resumed,
        ap (λ t. t + 1) p.signalled,
        p.same_rest.0,
        p.same_fibers,
        p.same_rest.2,
        p.resumed_pinned,
      )
