-- ===== src/Syncs/Submits/Single.antt =====
-- The submits of src/task-dispatcher/td.hh and td-lean.hh that make one task and a new sync.
use task_dispatcher.Base.{
  ℕ, zero, suc, ◌+◌, ◌^◌, ◌<◌, ◌≡◌, refl, sym, ap, ◌∙◌, true, some, List, [], ◌∷◌, ◌++◌, append-nil,
  ok, arith, length, subst, update_self,
}
use task_dispatcher.Base.Words.{add32}
use task_dispatcher.MpmcQueue.Quiescent
use task_dispatcher.MpmcQueue.Quiescent.{IsQuiet}
use task_dispatcher.Scheduler.State.{max_waiting, AtomicCounter, World}
use task_dispatcher.Scheduler.HandlePool.{HandlePool}
use task_dispatcher.Scheduler.Handles.{reset, acquire_counter_handle}
use task_dispatcher.Scheduler.Handles.Cycle.{free_list, acquired, acquire-steps}
use task_dispatcher.Scheduler.Counters.Change.{recounted}
use task_dispatcher.Scheduler.Counters.Waiting.{with_counter}
use task_dispatcher.Scheduler.Counters.Waking.{woken, Ready, unpinned, resumables}
use task_dispatcher.Scheduler.Api.{submit_tasks}
use task_dispatcher.Scheduler.Api.Waits.{task_list, tagged}
use task_dispatcher.Scheduler.Api.Submits.{submit_tasks_lem}
use task_dispatcher.Syncs.{null_handle_value, valid_handle, submit_raw}
use task_dispatcher.Syncs.Submits.{submit_future, submit_sync_args, set_sync}

-- Nobody waits on a counter behind a reset.
pub woken-reset :
    (n value i m : ℕ) (k : AtomicCounter) → woken n value i (recounted m (reset k)) ≡ []
unfolding reset
woken-reset zero value i m k = refl
woken-reset (suc n) value i m k = woken-reset n value (i + 1) m k

reset-one : (k : AtomicCounter) → add32 (reset k).count 1 ≡ 1
unfolding reset
reset-one k = refl

module _ {W : Type 0} (H : HandlePool) where
  open H use {Pool, get, acquire, is_alive, put, alive-put, get-put_self, acquire_fresh}

  submit_raw-unset :
      (h : ℕ) (l : List W) (w x y : World W Pool)
      → acquire_counter_handle H w ≡ ok (h, x)
      → submit_tasks H l h x ≡ ok (tt, y)
      → submit_raw H true null_handle_value l w ≡ ok (h, y)
  unfolding submit_raw valid_handle
  submit_raw-unset h l w x y e f = ground (arith, e, f)

  submit_future-steps :
      (h address : ℕ) (func : ℕ → W) (w y : World W Pool)
      → submit_raw H true null_handle_value (func address ∷ []) w ≡ ok (h, y)
      → submit_future H true address func w ≡ ok (record { sync = h; value = some address }, y)
  unfolding submit_future set_sync
  submit_future-steps h address func w y e = ground (arith, e)

  -- One task, submitted with an unset sync where a counter and a handle are free and the queues have
  -- room: the sync gets the new handle, which is alive; its counter was the oldest free one and is at 1,
  -- for the task that joins the queue.
  pub submit_one_lem :
      (a b k c h : ℕ) (work : W) (p : Pool) (rest : List ℕ) (w : World W Pool)
      → IsQuiet a w.free_counters
      → free_list w ≡ c ∷ rest
      → acquire w.counter_handles ≡ some (h, p)
      → Ready b [] w
      → IsQuiet k w.tasks
      → length (task_list w) < 2 ^ k
      → (y : World W Pool) × (submit_raw H true null_handle_value (work ∷ []) w ≡ ok (h, y))
        × (is_alive y.counter_handles h ≡ true)
        × (get y.counter_handles h ≡ c)
        × ((y.counters c).count ≡ 1)
        × (task_list y ≡ task_list w ++ tagged c (work ∷ []))
        × (resumables y ≡ resumables w)
  submit_one_lem a b k c h work p rest w v listed taken ready quiet room =
      let (q, d, quiet_q, left) = Quiescent.dequeue-cons_lem a w.free_counters v c rest listed in
      let x = acquired H a w v c h p q in
      let at : get x.counter_handles h ≡ c = get-put_self p h c (acquire_fresh taken).1 in
      let fresh : x.counters c ≡ reset (w.counters c) =
        update_self w.counters c (reset (w.counters c)) in
      let c' = get x.counter_handles h in
      let clear : x.counters c' ≡ reset (w.counters c) = ap x.counters at ∙ fresh in
      let m = add32 (x.counters c').count 1 in
      let nobody : woken max_waiting m 0 (recounted m (x.counters c')) ≡ [] =
        ap (λ r. woken max_waiting m 0 (recounted m r)) clear
        ∙ woken-reset max_waiting m 0 m (w.counters c) in
      let (y, f, counted, queued, resumed, _, handles, _, _, _) =
        submit_tasks_lem H b k h (work ∷ []) x (λ e. cc e) (omega arith)
          (subst (λ l. Ready b l (with_counter x c' (recounted m (x.counters c')))) (sym nobody)
            (record {
              quiet = ready.quiet;
              room = ready.room;
              valid = ready.valid;
              pinned_room = ready.pinned_room;
              unlocked = ready.unlocked;
            }))
          quiet (omega arith) in
      (
        y,
        submit_raw-unset h (work ∷ []) w x y (acquire-steps H a w v c h p q d taken) f,
        ap (λ g. is_alive g h) handles ∙ alive-put p h c h ∙ (acquire_fresh taken).1,
        ap (λ g. get g h) handles ∙ at,
        ap (λ i. (y.counters i).count) (sym at)
            ∙ counted
            ∙ ap (λ r. add32 r.count 1) clear
            ∙ reset-one (w.counters c),
        queued ∙ ap (λ i. task_list w ++ tagged i (work ∷ [])) at,
        resumed ∙ ap (λ l. resumables w ++ unpinned l) nobody ∙ append-nil (resumables w),
      )

  -- A function with a result, submitted where a counter and a handle are free and the queues have room:
  -- the future holds the new handle and the address of its result; the handle is alive and its counter
  -- was the oldest free one and is at 1, for the one task that joins the queue and stores at that
  -- address.
  pub submit_future_lem :
      (a b k c h address : ℕ) (func : ℕ → W) (p : Pool) (rest : List ℕ) (w : World W Pool)
      → IsQuiet a w.free_counters
      → free_list w ≡ c ∷ rest
      → acquire w.counter_handles ≡ some (h, p)
      → Ready b [] w
      → IsQuiet k w.tasks
      → length (task_list w) < 2 ^ k
      → (y : World W Pool) × (submit_future H true address func w
          ≡ ok (record { sync = h; value = some address }, y))
        × (is_alive y.counter_handles h ≡ true)
        × (get y.counter_handles h ≡ c)
        × ((y.counters c).count ≡ 1)
        × (task_list y ≡ task_list w ++ tagged c (func address ∷ []))
        × (resumables y ≡ resumables w)
  submit_future_lem a b k c h address func p rest w v listed taken ready quiet room =
      let (y, f, alive, index, one, queued, same) =
        submit_one_lem a b k c h (func address) p rest w v listed taken ready quiet room in
      (y, submit_future-steps h address func w y f, alive, index, one, queued, same)

  -- A function with arguments and no result, under the same conditions.
  pub submit_sync_args_lem :
      {Args : Type 0} (a b k c h : ℕ) (fun : Args → W) (args : Args) (p : Pool) (rest : List ℕ)
      (w : World W Pool)
      → IsQuiet a w.free_counters
      → free_list w ≡ c ∷ rest
      → acquire w.counter_handles ≡ some (h, p)
      → Ready b [] w
      → IsQuiet k w.tasks
      → length (task_list w) < 2 ^ k
      → (y : World W Pool) × (submit_sync_args H true fun args w ≡ ok (h, y))
        × (is_alive y.counter_handles h ≡ true)
        × (get y.counter_handles h ≡ c)
        × ((y.counters c).count ≡ 1)
        × (task_list y ≡ task_list w ++ tagged c (fun args ∷ []))
        × (resumables y ≡ resumables w)
  unfolding submit_sync_args
  submit_sync_args_lem a b k c h fun args = submit_one_lem a b k c h (fun args)
