-- ===== src/Syncs/Submits/Queued.antt =====
-- What submit_batched_n of src/task-dispatcher/td.hh leaves in the queue of tasks, and on which counter.
use task_dispatcher.Base.{
  ℕ, suc, ◌+◌, ◌-◌, ◌*◌, ◌/◌, ◌^◌, ◌<◌, ◌≤◌, ◌≡◌, ◌≢◌, refl, sym, ap, ◌∙◌, true, List, [], ◌∷◌,
  ◌++◌, map, Result, ok, arith, length, subst,
}
use task_dispatcher.Base.Words.{u32_mod, add32}
use task_dispatcher.Batches
use task_dispatcher.Batches.{IsDivCeil}
use task_dispatcher.Batches.Cover.{Covers, submit_batched-Covers}
use task_dispatcher.MpmcQueue.Quiescent.{IsQuiet}
use task_dispatcher.Scheduler.State.{max_waiting, World}
use task_dispatcher.Scheduler.HandlePool.{HandlePool}
use task_dispatcher.Scheduler.Counters.Change.{recounted}
use task_dispatcher.Scheduler.Counters.Waiting.{with_counter}
use task_dispatcher.Scheduler.Counters.Waking.{woken, Ready}
use task_dispatcher.Scheduler.Api.{submit_tasks}
use task_dispatcher.Scheduler.Api.Waits.{task_list, tagged}
use task_dispatcher.Scheduler.Api.Submits.{submit_tasks_lem}
use task_dispatcher.Syncs.{null_handle_value, valid_handle, submit_raw}
use task_dispatcher.Syncs.Submits.{submit_batched_n}

Covers-ne : (size n : ℕ) (l : List (ℕ × ℕ × ℕ)) → Covers size 0 0 l n → 0 < n → l ≢ []
Covers-ne size n [] cover pos e = omega (arith, cover)
Covers-ne size n (x ∷ l) cover pos e = cc

map-ne : {A B : Type 0} (f : A → B) (l : List A) → l ≢ [] → map f l ≢ []
map-ne f [] h e = h refl
map-ne f (x ∷ l) h e = cc

length-map : {A B : Type 0} (f : A → B) (l : List A) → length (map f l) ≡ length l
length-map f [] = refl
length-map f (x ∷ l) = ap suc (length-map f l)

module _ {W : Type 0} (H : HandlePool) where
  open H use {Pool, get, acquire, is_alive, put, alive-put, get-put_self, acquire_fresh}

  submit_raw-valid :
      (sync : ℕ) (l : List W) (w y : World W Pool)
      → sync ≢ null_handle_value
      → submit_tasks H l sync w ≡ ok (tt, y)
      → submit_raw H true sync l w ≡ ok (sync, y)
  unfolding submit_raw valid_handle
  submit_raw-valid sync l w y valid e = ground (arith, valid, e)

  submit_batched_n-steps :
      (div : ℕ → ℕ → Result ℕ) (sync n max : ℕ) (func : ℕ → ℕ → ℕ → W) (l : List (ℕ × ℕ × ℕ))
      (w y : World W Pool)
      → Batches.submit_batched div n max ≡ ok l
      → submit_raw H true sync (map (λ r. func r.0 r.1 r.2) l) w ≡ ok (sync, y)
      → submit_batched_n H true div sync func n max w ≡ ok ((length l, sync), y)
  unfolding submit_batched_n
  submit_batched_n-steps div sync n max func l w y e f = ground (arith, e, f)

  -- The batches of a range that is not empty, submitted on a sync that is set: the tasks that join the
  -- queue call the function with ranges that cover the range from 0 to n in order, each element once,
  -- and with their indices; the counter of the sync goes up by their number, which is the result. The
  -- queues have room, the end of the last full batch fits the `unsigned` type, and `l` is the list of
  -- the ranges.
  pub submit_batched_n_lem :
      (b k sync n max : ℕ) (div : ℕ → ℕ → Result ℕ) (func : ℕ → ℕ → ℕ → W) (l : List (ℕ × ℕ × ℕ))
      (w : World W Pool)
      → IsDivCeil div
      → 0 < n
      → 0 < max
      → max < u32_mod
      → (let size = (n + max - 1) / max in (n + size - 1) / size * size < u32_mod)
      → Batches.submit_batched div n max ≡ ok l
      → sync ≢ null_handle_value
      → (let c = get w.counter_handles sync in
          let m = add32 (w.counters c).count (length l) in
          Ready b
            (woken max_waiting m 0 (recounted m (w.counters c)))
            (with_counter w c (recounted m (w.counters c))))
      → IsQuiet k w.tasks
      → length (task_list w) + length l ≤ 2 ^ k
      → let c = get w.counter_handles sync in
        (y : World W Pool) × (submit_batched_n H true div sync func n max w
          ≡ ok ((length l, sync), y))
        × Covers ((n + max - 1) / max) 0 0 l n
        × ((y.counters c).count ≡ add32 (w.counters c).count (length l))
        × (task_list y ≡ task_list w ++ tagged c (map (λ r. func r.0 r.1 r.2) l))
  submit_batched_n_lem b k sync n max div func l w ceil pos pos_max small fits e valid ready quiet
        room =
      let c = get w.counter_handles sync in
      let tasks = map (λ r. func r.0 r.1 r.2) l in
      let (l', e', cover', few') = submit_batched-Covers div n max ceil pos pos_max small fits in
      let same : l' ≡ l = cc (e, e') in
      let cover = subst (λ t. Covers ((n + max - 1) / max) 0 0 t n) same cover' in
      let count : length tasks ≡ length l = length-map (λ r. func r.0 r.1 r.2) l in
      let (y, f, counted, queued, _, _, _, _, _, _) =
        submit_tasks_lem H b k sync tasks w
          (map-ne (λ r. func r.0 r.1 r.2) l (Covers-ne ((n + max - 1) / max) n l cover pos))
          (omega (arith, count, few', ap length same))
          (subst
            (λ t.
              let m = add32 (w.counters c).count t in
              Ready b (woken max_waiting m 0 (recounted m (w.counters c)))
                (with_counter w c (recounted m (w.counters c))))
            (sym count) ready)
          quiet (omega (arith, count)) in
      (
        y,
        submit_batched_n-steps div sync n max func l w y e
            (submit_raw-valid sync tasks w y valid f),
        cover,
        counted ∙ ap (add32 (w.counters c).count) count,
        queued,
      )
