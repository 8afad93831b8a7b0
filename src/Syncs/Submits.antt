-- ===== src/Syncs/Submits.antt =====
-- The submits of src/task-dispatcher/td.hh and td-lean.hh that make their tasks themselves. A task is
-- what it runs: `func i` stands for the lambda that calls `func` with `i`. A span has fewer than
-- 2 ^ 32 values. Arguments `Args` are the tuple that they are moved into, and an object
-- of a member function is its address.
pub mod Queued
pub mod Single
mod Tests
use task_dispatcher.Base.{ℕ, ◌+◌, Bool, Option, some, List, [], ◌∷◌, map, Result, ok, err, length}
use task_dispatcher.Batches
use task_dispatcher.Config.{SchedulerConfig}
use task_dispatcher.Scheduler.State.{World, M, ◌>>=◌, ◌>>◌, return, fault}
use task_dispatcher.Scheduler.HandlePool.{HandlePool}
use task_dispatcher.Scheduler.Handles.{release_counter, release_counter_if_on_target}
use task_dispatcher.Scheduler.Api.{increment_counter, decrement_counter}
use task_dispatcher.Syncs.{null_handle_value, submit_raw, submit_on_counter, Future, launch}

abbrev pub lift : {W P A : Type 0} → Result A → M W P A
lift (ok a) = return a
lift (err e) = fault e

-- `set_sync`.
unfoldable pub set_sync : ℕ → Future → Future
set_sync s f = record f { sync = s }

-- `launch` with one thread; the rest of the configuration is the default one.
unfoldable pub launch_singlethreaded :
    {W P A : Type 0}
    → (ℕ → ℕ)
    → (ℕ → Bool)
    → Bool
    → SchedulerConfig
    → (SchedulerConfig → M W P A)
    → M W P A
    → M W P A
launch_singlethreaded ceil_pow2 is_pow2 alive config start call =
    launch ceil_pow2 is_pow2 alive (record config { num_threads = 1 }) start call

module _ {W : Type 0} (H : HandlePool) (alive : Bool) where
  open H use {Pool}

  unfoldable pub submit_args : {Args : Type 0} → ℕ → (Args → W) → Args → M W Pool ℕ
  submit_args s fun args = submit_raw H alive s (fun args ∷ [])

  unfoldable pub submit_member : {Args : Type 0} → ℕ → (ℕ → Args → W) → ℕ → Args → M W Pool ℕ
  submit_member s func inst args = submit_raw H alive s (func inst args ∷ [])

  unfoldable pub submit_n : ℕ → (ℕ → W) → ℕ → M W Pool ℕ
  submit_n sync func n = submit_raw H alive sync (map func (Batches.submit_n n))

  -- The span as the address of its first value and its size, with values of one unit.
  unfoldable pub submit_each_ref : ℕ → (ℕ → W) → ℕ → ℕ → M W Pool ℕ
  submit_each_ref sync func first size =
      submit_raw H alive sync (map (λ i. func (first + i)) (Batches.submit_n size))

  unfoldable pub submit_each_copy : {A : Type 0} → ℕ → (A → W) → List A → M W Pool ℕ
  submit_each_copy sync func vals = submit_raw H alive sync (map func vals)

  -- The number of batches, and the sync.
  unfoldable pub submit_batched : (ℕ → ℕ → Result ℕ) → ℕ → (ℕ → ℕ → W) → ℕ → ℕ → M W Pool (ℕ × ℕ)
  submit_batched int_div_ceil sync func n num_batches_max = do
    ranges ← lift (Batches.submit_batched int_div_ceil n num_batches_max)
    handle ← submit_raw H alive sync (map (λ r. func r.0 r.1) ranges)
    return (length ranges, handle)

  unfoldable pub submit_batched_n :
      (ℕ → ℕ → Result ℕ) → ℕ → (ℕ → ℕ → ℕ → W) → ℕ → ℕ → M W Pool (ℕ × ℕ)
  submit_batched_n int_div_ceil sync func n num_batches_max = do
    ranges ← lift (Batches.submit_batched int_div_ceil n num_batches_max)
    handle ← submit_raw H alive sync (map (λ r. func r.0 r.1 r.2) ranges)
    return (length ranges, handle)

  -- The variants that return the sync.
  unfoldable pub submit_n_new : (ℕ → W) → ℕ → M W Pool ℕ
  unfolding submit_n
  submit_n_new func n = submit_n null_handle_value func n

  unfoldable pub submit_each_ref_new : (ℕ → W) → ℕ → ℕ → M W Pool ℕ
  unfolding submit_each_ref
  submit_each_ref_new func first size = submit_each_ref null_handle_value func first size

  unfoldable pub submit_each_copy_new : {A : Type 0} → (A → W) → List A → M W Pool ℕ
  unfolding submit_each_copy
  submit_each_copy_new func vals = submit_each_copy null_handle_value func vals

  unfoldable pub submit_batched_new : (ℕ → ℕ → Result ℕ) → (ℕ → ℕ → W) → ℕ → ℕ → M W Pool ℕ
  unfolding submit_batched
  submit_batched_new int_div_ceil func n num_batches_max = do
    res ← submit_batched int_div_ceil null_handle_value func n num_batches_max
    return res.1

  unfoldable pub submit_batched_n_new : (ℕ → ℕ → Result ℕ) → (ℕ → ℕ → ℕ → W) → ℕ → ℕ → M W Pool ℕ
  unfolding submit_batched_n
  submit_batched_n_new int_div_ceil func n num_batches_max = do
    res ← submit_batched_n int_div_ceil null_handle_value func n num_batches_max
    return res.1

  -- `submit` of a function without a result, of a member function and of a function with arguments,
  -- which return the sync.
  unfoldable pub submit_sync : W → M W Pool ℕ
  submit_sync fun = submit_raw H alive null_handle_value (fun ∷ [])

  unfoldable pub submit_sync_member : {Args : Type 0} → (ℕ → Args → W) → ℕ → Args → M W Pool ℕ
  submit_sync_member func inst args = submit_raw H alive null_handle_value (func inst args ∷ [])

  unfoldable pub submit_sync_args : {Args : Type 0} → (Args → W) → Args → M W Pool ℕ
  submit_sync_args fun args = submit_raw H alive null_handle_value (fun args ∷ [])

  -- `submit` of a function with a result: `address` is where `make_unique` puts it, and `func address`
  -- the task that stores it there.
  unfoldable pub submit_future : ℕ → (ℕ → W) → M W Pool Future
  unfolding set_sync
  submit_future address func = do
    s ← submit_raw H alive null_handle_value (func address ∷ [])
    return (set_sync s (record { sync = null_handle_value; value = some address }))

  unfoldable pub submit_future_args : {Args : Type 0} → ℕ → (ℕ → Args → W) → Args → M W Pool Future
  unfolding submit_future
  submit_future_args address fun args = submit_future address (λ result_ptr. fun result_ptr args)

  unfoldable pub submit_future_member :
      {Args : Type 0} → ℕ → (ℕ → ℕ → Args → W) → ℕ → Args → M W Pool Future
  unfolding submit_future
  submit_future_member address func inst args =
      submit_future address (λ result_ptr. func result_ptr inst args)

  unfoldable pub submit_lambda_on_counter : ℕ → W → M W Pool (Unit {0})
  submit_lambda_on_counter handle func = submit_on_counter H alive handle (func ∷ [])

-- The experimental calls that only pass on to the scheduler.
module _ {W : Type 0} (H : HandlePool) where
  open H use {Pool}

  unfoldable pub release_handle : ℕ → M W Pool ℕ
  release_handle handle = release_counter H handle

  unfoldable pub release_handle_if_on_target : ℕ → ℕ → M W Pool Bool
  release_handle_if_on_target handle target = release_counter_if_on_target H handle target

  unfoldable pub increment_handle : ℕ → ℕ → M W Pool ℕ
  increment_handle handle amount = increment_counter H handle amount

  unfoldable pub decrement_handle : ℕ → ℕ → M W Pool (Unit {0})
  decrement_handle handle amount = do last ← decrement_counter H handle amount; return tt
